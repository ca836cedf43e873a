-- ===== src/Epoll/Steps.antt =====
-- The steps of the main thread, of the workers and of the pool's manager, in any order.
use secure_data_transmission.Base.{ℕ, ◌≡◌, ◌≢◌, true, false, none, some, List, [], ◌∷◌, ◌++◌}
use secure_data_transmission.ThreadPool.{
  Limits, ThreadPool, new_pool, worker_turn, woken, begin_batch, end_batch, grow, shrink, close,
}
use secure_data_transmission.ThreadPool.Order.{batch_of}
use secure_data_transmission.Epoll.{
  Epoll, Mask, Loop, find_socket, epoll_wait, init_connection, handle_event, fd_mode, open_loop,
}

-- What the threads of the pool do besides taking tasks.
pub data Managed (l : Limits) (p : ThreadPool) : ThreadPool → Type 0 where
  wakes : Managed l p (woken l p).1
  begins : Managed l p (begin_batch p)
  ends : Managed l p (end_batch p)
  grows : (tasks seen : ℕ) → Managed l p (grow l tasks seen p)
  shrinks : (busy seen : ℕ) → Managed l p (shrink l busy seen p)
  closes : Managed l p (close p)

-- The loop, with the events that were lost: those with neither flag, and those that a closed pool
-- did not take.
pub record Run (e : Epoll) : Type 0 where
  pub loop : Loop e
  pub lost : List ℕ

module _ (e : Epoll) (l : Limits) where
  -- `accept` gives a descriptor that is not open: neither the listening one nor that of a socket in
  -- `m_sockets`.
  pub data Step : Run e → Run e → Type 0 where
    waits :
        (r : Run e) (es : List (ℕ × Mask)) (t : e.Tree)
        → r.loop.batch ≡ []
        → epoll_wait e es r.loop.tree ≡ some t
        → Step r (record r { loop = record (r.loop) { tree = t; batch = es } })
    accepts :
        (r : Run e) (f : ℕ) (m : Mask) (es : List (ℕ × Mask))
        → r.loop.batch ≡ (r.loop.listener, m) ∷ es
        → find_socket f r.loop.sockets ≡ none
        → f ≢ r.loop.listener
        → Step r (record r { loop = init_connection e f r.loop })
    accepted_all :
        (r : Run e) (m : Mask) (es : List (ℕ × Mask))
        → r.loop.batch ≡ (r.loop.listener, m) ∷ es
        → Step r (record r { loop = record (r.loop) { batch = es } })
    handles :
        (r : Run e) (f : ℕ) (m : Mask) (es : List (ℕ × Mask)) (s : Loop e)
        → r.loop.batch ≡ (f, m) ∷ es
        → f ≢ r.loop.listener
        → handle_event e l f m (record (r.loop) { batch = es }) ≡ some (false, s)
        → Step r (record r { loop = s })
    loses :
        (r : Run e) (f : ℕ) (m : Mask) (es : List (ℕ × Mask)) (s : Loop e)
        → r.loop.batch ≡ (f, m) ∷ es
        → f ≢ r.loop.listener
        → handle_event e l f m (record (r.loop) { batch = es }) ≡ some (true, s)
        → Step r (record { loop = s; lost = f ∷ r.lost })
    takes :
        (r : Run e)
        → Step r (record r {
          loop = record (r.loop) {
            pool = (worker_turn l r.loop.pool).1;
            running = r.loop.running ++ batch_of (worker_turn l r.loop.pool).0;
          };
        })
    finishes :
        (r : Run e) (f : ℕ) (before after : List ℕ)
        → r.loop.running ≡ before ++ f ∷ after
        → Step r (record r { loop = fd_mode e f (record (r.loop) { running = before ++ after }) })
    manages :
        (r : Run e) (p : ThreadPool)
        → Managed l r.loop.pool p
        → Step r (record r { loop = record (r.loop) { pool = p } })

  -- Steps in a row.
  pub data Steps (a : Run e) : Run e → Type 0 where
    start : Steps a a
    later : {b c : Run e} → Steps a b → Step b c → Steps a c

  -- The state after the constructor.
  abbrev pub first : ℕ → e.Tree → Run e
  first lfd t = record { loop = open_loop e lfd (new_pool l) t; lost = [] }
