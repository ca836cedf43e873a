-- ===== src/Epoll/Listener.antt =====
-- The listening descriptor, under every step of the threads.
use secure_data_transmission.Base.{
  ℕ, ◌+◌, ◌≡◌, ◌≢◌, ◌∙◌, refl, sym, ap, subst, Bool, true, false, none, some, List, [], ◌∷◌, ◌++◌,
  ◌==◌, arith, inl, inr, Bool-cases, Option-cases, ==_iff,
}
use secure_data_transmission.ThreadPool.{
  close, end_batch, begin_batch, Limits, ThreadPool, add_task, worker_turn,
}
use secure_data_transmission.ThreadPool.Order.{
  batch_of, worker_turn-append, add_task-true, add_task-false, grow-queue, shrink-queue,
  woken-queue,
}
use secure_data_transmission.Epoll.{
  Epoll, Mask, Loop, find_socket, init_connection, hang_up, handle_event, fd_mode,
}
use secure_data_transmission.Epoll.Counting.{count, present, count-append, present-none}
use secure_data_transmission.Epoll.Steps.{
  Run, Managed, wakes, begins, ends, grows, shrinks, closes, Step, waits, accepts, accepted_all,
  handles, loses, takes, finishes, manages,
}
use secure_data_transmission.Epoll.Invariant.{
  Listening, Inv, epoll_wait-listener, find_socket-insert_socket, find_socket-erase_socket,
}

pub Managed-queue : (l : Limits) {p p' : ThreadPool} → Managed l p p' → p'.queue ≡ p.queue
unfolding begin_batch end_batch close
Managed-queue l {p} wakes = woken-queue l p
Managed-queue l begins = refl
Managed-queue l ends = refl
Managed-queue l {p} (grows tasks seen) = grow-queue l tasks seen p
Managed-queue l {p} (shrinks busy seen) = shrink-queue l busy seen p
Managed-queue l closes = refl

module _ (e : Epoll) (l : Limits) where
  -- The listening descriptor as it was.
  Kept : Run e → Run e → Type 0
  Kept r r' = (r'.loop.listener ≡ r.loop.listener) × Listening e r'

  kept :
      (r r' : Run e)
      → r'.loop.listener ≡ r.loop.listener
      → find_socket r.loop.listener r'.loop.sockets ≡ none
      → e.watch r.loop.listener r'.loop.tree ≡ some (record { armed = true; oneshot = false })
      → count r.loop.listener r'.loop.pool.queue + count r.loop.listener r'.loop.running ≡ 0
      → Kept r r'
  unfolding Kept
  kept r r' same socket watched no_task =
      let back = sym same in
      (
        same,
        record {
          socket = subst (λ f. find_socket f r'.loop.sockets ≡ none) back socket;
          watched =
              subst (λ f. e.watch f r'.loop.tree ≡ some (record { armed = true; oneshot = false }))
                back watched;
          no_task =
              subst (λ f. count f r'.loop.pool.queue + count f r'.loop.running ≡ 0) back no_task;
        },
      )

  -- An event of another descriptor leaves the listening one alone.
  handle_event-Kept :
      (f : ℕ) (m : Mask) (r : Run e) (es : List (ℕ × Mask)) (s : Loop e) (lost : Bool)
      (gone : List ℕ)
      → f ≢ r.loop.listener
      → handle_event e l f m (record (r.loop) { batch = es }) ≡ some (lost, s)
      → Listening e r
      → Kept r (record { loop = s; lost = gone })
  unfolding handle_event hang_up
  handle_event-Kept f m r es s lost gone ne h k = elim (Bool-cases m.rdhup) [
    | inl hung ↦
        kept r _ (ground (arith, h, hung))
          (ground (
            arith,
            h,
            hung,
            find_socket-erase_socket r.loop.listener f r.loop.sockets,
            ==_iff r.loop.listener f,
            k.socket,
          ))
          (ground (
            arith,
            h,
            hung,
            e.watch-close r.loop.listener f r.loop.tree,
            ==_iff r.loop.listener f,
            k.watched,
          ))
          (ground (arith, h, hung, k.no_task))
    | inr there ↦ elim (Bool-cases m.readable) [
      | inr nothing ↦
          kept r _ (ground (arith, h, there, nothing)) (ground (arith, h, there, nothing, k.socket))
            (ground (arith, h, there, nothing, k.watched))
            (ground (arith, h, there, nothing, k.no_task))
      | inl data_in ↦ elim (Option-cases (add_task l f r.loop.pool)) [
        | inl full ↦ ground (arith, h, there, data_in, full)
        | inr ((true, p), a) ↦
            let q = (add_task-true l f r.loop.pool p a).0 in
            let c = count-append r.loop.listener r.loop.pool.queue (f ∷ []) in
            kept r _ (ground (arith, h, there, data_in, a))
              (ground (arith, h, there, data_in, a, k.socket))
              (ground (arith, h, there, data_in, a, k.watched))
              (ground (
                arith,
                h,
                there,
                data_in,
                a,
                k.no_task,
                ap (count r.loop.listener) q,
                c,
                ==_iff r.loop.listener f,
              ))
        | inr ((false, p), a) ↦
            let q = add_task-false l f r.loop.pool p a in
            kept r _ (ground (arith, h, there, data_in, a))
              (ground (arith, h, there, data_in, a, k.socket))
              (ground (arith, h, there, data_in, a, k.watched))
              (ground (arith, h, there, data_in, a, k.no_task, ap (count r.loop.listener) q))
      ]
    ]
  ]

  finishes-Kept :
      (f : ℕ) (r : Run e) (before after : List ℕ)
      → r.loop.running ≡ before ++ f ∷ after
      → Listening e r
      → Kept r (record r { loop = fd_mode e f (record (r.loop) { running = before ++ after }) })
  unfolding fd_mode
  finishes-Kept f r before after q k =
      let c = ap (count r.loop.listener) q in
      let c₁ = count-append r.loop.listener before (f ∷ after) in
      let c₂ = count-append r.loop.listener before after in
      let other : (r.loop.listener == f) ≡ false = ground (arith, k.no_task, c, c₁) in
      kept r _ refl k.socket
        (ground (arith, e.watch-rearm r.loop.listener f r.loop.tree, other, k.watched))
        (ground (arith, k.no_task, c, c₁, c₂, other))

  takes-Kept :
      (r : Run e)
      → Listening e r
      → Kept r (record r {
        loop = record (r.loop) {
          pool = (worker_turn l r.loop.pool).1;
          running = r.loop.running ++ batch_of (worker_turn l r.loop.pool).0;
        };
      })
  takes-Kept r k = kept r _ refl k.socket k.watched (
      omega (
        arith,
        k.no_task,
        ap (count r.loop.listener) (worker_turn-append l r.loop.pool),
        count-append r.loop.listener (batch_of (worker_turn l r.loop.pool).0)
            (worker_turn l r.loop.pool).1.queue,
        count-append r.loop.listener r.loop.running (batch_of (worker_turn l r.loop.pool).0),
      ))

  accepts-Kept :
      (f : ℕ) (r : Run e)
      → find_socket f r.loop.sockets ≡ none
      → e.watch f r.loop.tree ≡ none
      → f ≢ r.loop.listener
      → Listening e r
      → Kept r (record r { loop = init_connection e f r.loop })
  unfolding init_connection
  accepts-Kept f r fresh unknown ne k =
      kept r _ refl
        (ground (
          arith,
          find_socket-insert_socket r.loop.listener f f r.loop.sockets fresh,
          k.socket,
          ==_iff r.loop.listener f,
        ))
        (ground (
          arith,
          e.watch-add r.loop.listener f true r.loop.tree unknown,
          k.watched,
          ==_iff r.loop.listener f,
        ))
        k.no_task

  -- Every step keeps the listening descriptor.
  pub Step-Listening :
      {a b : Run e} → Step e l a b → Inv e a → (b.loop.listener ≡ a.loop.listener) × Listening e b
  unfolding Kept
  Step-Listening (waits r es t b h) i =
      kept r _ refl i.listening.socket
        (epoll_wait-listener e r.loop.listener es r.loop.tree t i.listening.watched h)
        i.listening.no_task
  Step-Listening (accepts r f m es b fresh ne) i =
      accepts-Kept f r fresh
        (present-none (e.watch f r.loop.tree) ((i.placed f ne).known ∙ ap present fresh)) ne
        i.listening
  Step-Listening (accepted_all r m es b) i =
      kept r _ refl i.listening.socket i.listening.watched i.listening.no_task
  Step-Listening (handles r f m es s b ne h) i =
      handle_event-Kept f m r es s false r.lost ne h i.listening
  Step-Listening (loses r f m es s b ne h) i =
      handle_event-Kept f m r es s true (f ∷ r.lost) ne h i.listening
  Step-Listening (takes r) i = takes-Kept r i.listening
  Step-Listening (finishes r f before after q) i = finishes-Kept f r before after q i.listening
  Step-Listening (manages r p w) i = kept r _ refl i.listening.socket i.listening.watched (
      ap (λ q. count r.loop.listener q + count r.loop.listener r.loop.running) (Managed-queue l w)
      ∙ i.listening.no_task)
