-- ===== src/Epoll/Kept.antt =====
-- Every step of the threads keeps each descriptor in its place.
use secure_data_transmission.Base.{
  ℕ, ◌≡◌, ◌≢◌, ◌∙◌, refl, sym, ap, subst, true, false, none, some, List, [], ◌∷◌, ◌++◌, ◌==◌, arith,
  inl, inr, Bool-cases, Option-cases, ==_iff,
}
use secure_data_transmission.ThreadPool.{Limits, add_task, worker_turn}
use secure_data_transmission.ThreadPool.Order.{
  batch_of, worker_turn-append, add_task-true, add_task-false,
}
use secure_data_transmission.Epoll.{
  Epoll, Mask, Loop, find_socket, epoll_wait, init_connection, hang_up, handle_event, fd_mode,
}
use secure_data_transmission.Epoll.Counting.{count, present, count-append, present-le, present-none}
use secure_data_transmission.Epoll.Steps.{Run}
use secure_data_transmission.Epoll.Invariant.{
  IsOneshot, rearmed-armed_once, Placed, places, epoll_wait-Waited, find_socket-insert_socket,
  find_socket-erase_socket,
}

module _ (e : Epoll) where
  pub waits-Placed :
      (f : ℕ) (r : Run e) (es : List (ℕ × Mask)) (t : e.Tree)
      → r.loop.batch ≡ []
      → epoll_wait e es r.loop.tree ≡ some t
      → Placed e f r
      → Placed e f (record r { loop = record (r.loop) { tree = t; batch = es } })
  waits-Placed f r es t b h k =
      let n = epoll_wait-Waited e f es r.loop.tree t k.oneshot h in
      record {
        conserved = ground (arith, n.0, k.conserved, b);
        known = n.1 ∙ k.known;
        oneshot = n.2;
        own = k.own;
      }

  -- A new connection is armed, and another descriptor stays where it is.
  pub accepts-Placed :
      (f g : ℕ) (r : Run e)
      → find_socket g r.loop.sockets ≡ none
      → Placed e g r
      → Placed e f r
      → Placed e f (record r { loop = init_connection e g r.loop })
  unfolding init_connection
  accepts-Placed f g r fresh new k =
      let unknown : e.watch g r.loop.tree ≡ none =
        present-none (e.watch g r.loop.tree) (new.known ∙ ap present fresh) in
      let w = e.watch-add f g true r.loop.tree unknown in
      let s = find_socket-insert_socket f g g r.loop.sockets fresh in
      elim (Bool-cases (f == g)) [
        | inl same ↦
            let x = (==_iff f g).0 same in
            record {
              conserved =
                  ground (
                    arith,
                    w,
                    s,
                    same,
                    k.conserved,
                    fresh,
                    ap (λ z. find_socket z r.loop.sockets) x,
                  );
              known = ground (arith, w, s, same);
              oneshot = ground (arith, w, same);
              own = λ h q. ground (arith, q, s, same, x);
            }
        | inr other ↦ record {
          conserved = ground (arith, w, s, other, k.conserved);
          known = ground (arith, w, s, other, k.known);
          oneshot = ground (arith, w, other, k.oneshot);
          own = λ h q. k.own h (ground (arith, q, s, other));
        }
      ]

  pub batch_head-Placed :
      (f : ℕ) (m : Mask) (r : Run e) (es : List (ℕ × Mask))
      → f ≢ r.loop.listener
      → r.loop.batch ≡ (r.loop.listener, m) ∷ es
      → Placed e f r
      → Placed e f (record r { loop = record (r.loop) { batch = es } })
  batch_head-Placed f m r es ne b k = record {
    conserved = ground (arith, b, k.conserved, ==_iff f r.loop.listener);
    known = k.known;
    oneshot = k.oneshot;
    own = k.own;
  }

  hang_up-Placed :
      (f g : ℕ) (m : Mask) (r : Run e) (es : List (ℕ × Mask))
      → r.loop.batch ≡ (g, m) ∷ es
      → Placed e f r
      → Placed e f (record r { loop = hang_up e g (record (r.loop) { batch = es }) })
  unfolding hang_up
  hang_up-Placed f g m r es b k =
      let w = e.watch-close f g r.loop.tree in
      let s = find_socket-erase_socket f g r.loop.sockets in
      elim (Bool-cases (f == g)) [
        | inl same ↦ record {
          conserved =
              ground (arith, b, w, s, same, k.conserved, present-le (find_socket f r.loop.sockets));
          known = ground (arith, w, s, same);
          oneshot = ground (arith, w, same);
          own = λ h q. ground (arith, q, s, same);
        }
        | inr other ↦ record {
          conserved = ground (arith, b, w, s, other, k.conserved);
          known = ground (arith, w, s, other, k.known);
          oneshot = ground (arith, w, other, k.oneshot);
          own = λ h q. k.own h (ground (arith, q, s, other));
        }
      ]

  -- The places alone have moved.
  pub moved-Placed :
      (f : ℕ) (r r' : Run e)
      → r'.loop.tree ≡ r.loop.tree
      → r'.loop.sockets ≡ r.loop.sockets
      → places e f r' ≡ places e f r
      → Placed e f r
      → Placed e f r'
  moved-Placed f r r' t s p k = record {
    conserved = p ∙ k.conserved ∙ ap (λ x. present (find_socket f x)) (sym s);
    known =
        ap (λ x. present (e.watch f x)) t ∙ k.known ∙ ap (λ x. present (find_socket f x)) (sym s);
    oneshot = subst (λ x. IsOneshot (e.watch f x)) (sym t) k.oneshot;
    own = λ g q. k.own g (ap (find_socket f) (sym s) ∙ q);
  }

  pub handles-Placed :
      (l : Limits) (f g : ℕ) (m : Mask) (r : Run e) (es : List (ℕ × Mask)) (s : Loop e)
      → r.loop.batch ≡ (g, m) ∷ es
      → handle_event e l g m (record (r.loop) { batch = es }) ≡ some (false, s)
      → Placed e f r
      → Placed e f (record r { loop = s })
  unfolding handle_event
  handles-Placed l f g m r es s b h k = elim (Bool-cases m.rdhup) [
    | inl gone ↦
        subst (λ x. Placed e f (record r { loop = x })) (ground (arith, h, gone))
          (hang_up-Placed f g m r es b k)
    | inr there ↦ elim (Bool-cases m.readable) [
      | inr nothing ↦ ground (arith, h, there, nothing)
      | inl data_in ↦ elim (Option-cases (add_task l g r.loop.pool)) [
        | inl full ↦ ground (arith, h, there, data_in, full)
        | inr ((true, p), a) ↦
            let q = (add_task-true l g r.loop.pool p a).0 in
            subst (λ x. Placed e f (record r { loop = x }))
              {x = record (r.loop) { batch = es; pool = p }} (ground (arith, h, there, data_in, a))
              (moved-Placed f r (record r { loop = record (r.loop) { batch = es; pool = p } }) refl
                refl (ground (arith, b, ap (count f) q, count-append f r.loop.pool.queue (g ∷ [])))
                k)
        | inr ((false, p), a) ↦ ground (arith, h, there, data_in, a)
      ]
    ]
  ]

  pub loses-Placed :
      (l : Limits) (f g : ℕ) (m : Mask) (r : Run e) (es : List (ℕ × Mask)) (s : Loop e)
      → r.loop.batch ≡ (g, m) ∷ es
      → handle_event e l g m (record (r.loop) { batch = es }) ≡ some (true, s)
      → Placed e f r
      → Placed e f (record { loop = s; lost = g ∷ r.lost })
  unfolding handle_event
  loses-Placed l f g m r es s b h k = elim (Bool-cases m.rdhup) [
    | inl gone ↦ ground (arith, h, gone)
    | inr there ↦ elim (Bool-cases m.readable) [
      | inr nothing ↦
          subst (λ x. Placed e f (record { loop = x; lost = g ∷ r.lost }))
            {x = record (r.loop) { batch = es }} (ground (arith, h, there, nothing))
            (moved-Placed f r (record { loop = record (r.loop) { batch = es }; lost = g ∷ r.lost })
              refl refl (ground (arith, b)) k)
      | inl data_in ↦ elim (Option-cases (add_task l g r.loop.pool)) [
        | inl full ↦ ground (arith, h, there, data_in, full)
        | inr ((true, p), a) ↦ ground (arith, h, there, data_in, a)
        | inr ((false, p), a) ↦
            let q = add_task-false l g r.loop.pool p a in
            subst (λ x. Placed e f (record { loop = x; lost = g ∷ r.lost }))
              {x = record (r.loop) { batch = es; pool = p }} (ground (arith, h, there, data_in, a))
              (moved-Placed f r
                (record { loop = record (r.loop) { batch = es; pool = p }; lost = g ∷ r.lost }) refl
                refl (ground (arith, b, ap (count f) q)) k)
      ]
    ]
  ]

  pub takes-Placed :
      (l : Limits) (f : ℕ) (r : Run e)
      → Placed e f r
      → Placed e f (record r {
        loop = record (r.loop) {
          pool = (worker_turn l r.loop.pool).1;
          running = r.loop.running ++ batch_of (worker_turn l r.loop.pool).0;
        };
      })
  takes-Placed l f r k =
      moved-Placed f r _ refl refl
        (omega (
          arith,
          ap (count f) (worker_turn-append l r.loop.pool),
          count-append f (batch_of (worker_turn l r.loop.pool).0)
              (worker_turn l r.loop.pool).1.queue,
          count-append f r.loop.running (batch_of (worker_turn l r.loop.pool).0),
        ))
        k

  -- A worker that ends its task arms the descriptor again.
  pub finishes-Placed :
      (f g : ℕ) (r : Run e) (before after : List ℕ)
      → r.loop.running ≡ before ++ g ∷ after
      → Placed e f r
      → Placed e f (record r { loop = fd_mode e g (record (r.loop) { running = before ++ after }) })
  unfolding fd_mode
  finishes-Placed f g r before after q k =
      let w = e.watch-rearm f g r.loop.tree in
      let c = ap (count f) q in
      let c₁ = count-append f before (g ∷ after) in
      let c₂ = count-append f before after in
      elim (Bool-cases (f == g)) [
        | inl same ↦
            let (a, p, o) = rearmed-armed_once (e.watch f r.loop.tree) in
            record {
              conserved = ground (
                arith,
                w,
                same,
                c,
                c₁,
                c₂,
                k.conserved,
                a,
                k.known,
                present-le (find_socket f r.loop.sockets),
              );
              known = ground (arith, w, same, p, k.known);
              oneshot = ground (arith, w, same, o);
              own = k.own;
            }
        | inr other ↦ record {
          conserved = ground (arith, w, other, c, c₁, c₂, k.conserved);
          known = ground (arith, w, other, k.known);
          oneshot = ground (arith, w, other, k.oneshot);
          own = k.own;
        }
      ]
