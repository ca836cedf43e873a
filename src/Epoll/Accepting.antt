-- ===== src/Epoll/Accepting.antt =====
-- The inner loop of the listening descriptor is a run of steps.
use secure_data_transmission.Base.{
  ==_iff, ℕ, zero, suc, ◌+◌, ◌≤◌, ◌<◌, ◌≡◌, ◌≢◌, sym, subst, none, some, List, ◌∷◌, arith,
  Option-cases, inl, inr,
}
use secure_data_transmission.TcpServer.{Accepted, connection, accept_conn, client, eagain}
use secure_data_transmission.TcpServer.Accepting.{accept_conn-client}
use secure_data_transmission.ThreadPool.{Limits}
use secure_data_transmission.Epoll.{Epoll, Mask, Loop, find_socket, init_connection, accept_all}
use secure_data_transmission.Epoll.Steps.{Run, accepts, Steps, later}
use secure_data_transmission.Epoll.Invariant.{find_socket-insert_socket}

-- From the call with number `n` on, the kernel gives descriptors that are not open: neither the
-- listening one, nor one of `m_sockets`, nor one that an earlier call has given.
pub record New {e : Epoll} (kernel : ℕ → Accepted) (n : ℕ) (s : Loop e) : Type 0 where
  pub other : (i f : ℕ) → n ≤ i → kernel i ≡ connection f → f ≢ s.listener
  pub fresh : (i f : ℕ) → n ≤ i → kernel i ≡ connection f → find_socket f s.sockets ≡ none
  pub distinct :
      (i j f g : ℕ) → n ≤ i → i < j → kernel i ≡ connection f → kernel j ≡ connection g → f ≢ g

module _ (e : Epoll) (l : Limits) where
  New-init_connection :
      (kernel : ℕ → Accepted) (n i f : ℕ) (s : Loop e)
      → New kernel n s
      → n ≤ i
      → kernel i ≡ connection f
      → New kernel (i + 1) (init_connection e f s)
  unfolding init_connection
  New-init_connection kernel n i f s w le q = record {
    other = λ j g lt p. w.other j g (omega arith) p;
    fresh = λ j g lt p. ground (
      arith,
      find_socket-insert_socket g f f s.sockets (w.fresh i f le q),
      ==_iff g f,
      w.fresh j g (omega arith) p,
      w.distinct i j f g le (omega arith) q p,
    );
    distinct = λ j k g h lt lt' p p'. w.distinct j k g h (omega arith) lt' p p';
  }

  -- What the inner loop does is a run of steps, while the kernel gives descriptors that are not open.
  pub accept_all-Steps :
      (rounds n : ℕ) (kernel : ℕ → Accepted) (a r : Run e) (m : Mask) (es : List (ℕ × Mask))
      (s : Loop e)
      → r.loop.batch ≡ (r.loop.listener, m) ∷ es
      → New kernel n r.loop
      → accept_all e rounds kernel n r.loop ≡ some s
      → Steps e l a r
      → Steps e l a (record r { loop = s })
  unfolding accept_all init_connection
  accept_all-Steps zero n kernel a r m es s b w h st = cc
  accept_all-Steps (suc rounds) n kernel a r m es s b w h st =
      elim (Option-cases (accept_conn rounds kernel n)) [
        | inl stuck ↦ ground (arith, h, stuck)
        | inr ((eagain, next), q) ↦
            subst (λ x. Steps e l a (record r { loop = x })) {x = r.loop} (ground (arith, h, q)) st
        | inr ((client f, next), q) ↦
            let (i, le, p, k) = accept_conn-client rounds n next f kernel q in
            let c = init_connection e f r.loop in
            accept_all-Steps rounds next kernel a (record r { loop = c }) m es s b
              (subst (λ x. New kernel x c) (sym p) (New-init_connection kernel n i f r.loop w le k))
              (ground (arith, h, q))
              (later st (accepts r f m es b (w.fresh i f le k) (w.other i f le k)))
      ]
