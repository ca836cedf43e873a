-- ===== src/Epoll/Safety.antt =====
-- What holds of the connections in every order of the threads' steps.
use secure_data_transmission.Base.{
  ℕ, ◌+◌, ◌<◌, ◌≡◌, ◌≢◌, ◌∙◌, refl, sym, ap, false, none, some, List, ◌∷◌, ◌++◌, ◌==◌, arith, inl,
  inr, Option-cases, ==_iff,
}
use secure_data_transmission.ThreadPool.{Limits, new_pool}
use secure_data_transmission.Epoll.{open_loop, Epoll, Mask, find_socket, fd_mode}
use secure_data_transmission.Epoll.Counting.{count, count_events, armed_once, present, count-append}
use secure_data_transmission.Epoll.Steps.{
  Run, Step, waits, accepts, accepted_all, handles, loses, takes, finishes, manages, Steps, start,
  later, first,
}
use secure_data_transmission.Epoll.Invariant.{rearmed-armed_once, Placed, Inv, places}
use secure_data_transmission.Epoll.Kept.{
  waits-Placed, accepts-Placed, batch_head-Placed, handles-Placed, loses-Placed, takes-Placed,
  finishes-Placed, moved-Placed,
}
use secure_data_transmission.Epoll.Listener.{Managed-queue, Step-Listening}

module _ (e : Epoll) (l : Limits) where
  Step-Placed : {a b : Run e} (f : ℕ) → Step e l a b → Inv e a → f ≢ a.loop.listener → Placed e f b
  Step-Placed f (waits r es t b h) i ne = waits-Placed e f r es t b h (i.placed f ne)
  Step-Placed f (accepts r g m es b fresh gn) i ne =
      accepts-Placed e f g r fresh (i.placed g gn) (i.placed f ne)
  Step-Placed f (accepted_all r m es b) i ne = batch_head-Placed e f m r es ne b (i.placed f ne)
  Step-Placed f (handles r g m es s b gn h) i ne =
      handles-Placed e l f g m r es s b h (i.placed f ne)
  Step-Placed f (loses r g m es s b gn h) i ne = loses-Placed e l f g m r es s b h (i.placed f ne)
  Step-Placed f (takes r) i ne = takes-Placed e l f r (i.placed f ne)
  Step-Placed f (finishes r g before after q) i ne =
      finishes-Placed e f g r before after q (i.placed f ne)
  Step-Placed f (manages r p w) i ne =
      moved-Placed e f r _ refl refl
        (ap
          (λ q.
            armed_once (e.watch f r.loop.tree)
            + count_events f r.loop.batch
            + count f q
            + count f r.loop.running
            + count f r.lost)
          (Managed-queue l w))
        (i.placed f ne)

  Step-Inv : {a b : Run e} → Step e l a b → Inv e a → Inv e b
  Step-Inv s i =
      let (same, listening) = Step-Listening e l s i in
      record { listening = listening; placed = λ f ne. Step-Placed f s i (λ q. ne (q ∙ sym same)) }

  first-Inv : (lfd : ℕ) (t : e.Tree) → ((f : ℕ) → e.watch f t ≡ none) → Inv e (first e l lfd t)
  unfolding open_loop new_pool find_socket
  first-Inv lfd t none_yet = record {
    listening = record {
      socket = refl;
      watched = ground (arith, e.watch-add lfd lfd false t (none_yet lfd), ==_iff lfd lfd);
      no_task = refl;
    };
    placed = λ f ne.
        let w = e.watch-add f lfd false t (none_yet lfd) in
        let other : (f == lfd) ≡ false = ground (arith, ==_iff f lfd) in
        record {
          conserved = ground (arith, w, other, none_yet f);
          known = ground (arith, w, other, none_yet f);
          oneshot = ground (arith, w, other, none_yet f);
          own = λ g q. cc;
        };
  }

  pub reachable-Inv :
      (lfd : ℕ) (t : e.Tree) {r : Run e}
      → ((f : ℕ) → e.watch f t ≡ none)
      → Steps e l (first e l lfd t) r
      → Inv e r
  reachable-Inv lfd t none_yet start = first-Inv lfd t none_yet
  reachable-Inv lfd t none_yet (later w s) = Step-Inv s (reachable-Inv lfd t none_yet w)

  module _ (lfd : ℕ) (t : e.Tree) (empty_tree : (f : ℕ) → e.watch f t ≡ none) (r : Run e)
      (reached : Steps e l (first e l lfd t) r) where
    -- Whatever the threads do in whatever order, each connection is in one place: it can be
    -- reported, or it is in the batch of events, in the queue, with one worker, or lost. The socket
    -- that is found under its descriptor is its own.
    pub reachable_connection :
        (f g : ℕ)
        → f ≢ r.loop.listener
        → find_socket f r.loop.sockets ≡ some g
        → (g ≡ f) × (places e f r ≡ 1)
    reachable_connection f g ne q =
        let k = (reachable-Inv lfd t empty_tree reached).placed f ne in
        (k.own g q, k.conserved ∙ ap present q)

    -- At most one worker handles a descriptor at a time. While one does, the socket that it uses is
    -- in `m_sockets`, no second task of the descriptor waits, and no event of it can be reported.
    pub reachable_worker :
        (f : ℕ)
        → 0 < count f r.loop.running
        → (count f r.loop.running ≡ 1)
          × (find_socket f r.loop.sockets ≡ some f)
          × (count f r.loop.pool.queue ≡ 0)
          × (count_events f r.loop.batch ≡ 0)
          × (armed_once (e.watch f r.loop.tree) ≡ 0)
    reachable_worker f busy =
        let i = reachable-Inv lfd t empty_tree reached in
        let ne : f ≢ r.loop.listener = λ q.
          absurd (omega (arith, busy, i.listening.no_task, ap (λ x. count x r.loop.running) q)) in
        let k = i.placed f ne in
        elim (Option-cases (find_socket f r.loop.sockets)) [
          | inl gone ↦ absurd (omega (arith, busy, k.conserved, ap present gone))
          | inr (g, q) ↦
              let c = k.conserved ∙ ap present q in
              (
                omega (arith, c),
                q ∙ ap some (k.own g q),
                omega (arith, c),
                omega (arith, c),
                omega (arith, c),
              )
        ]

    -- Where the main thread handles an event of a connection, and so may delete its socket, no task
    -- of that descriptor waits and no worker uses it.
    pub reachable_event :
        (f : ℕ) (m : Mask) (es : List (ℕ × Mask))
        → f ≢ r.loop.listener
        → r.loop.batch ≡ (f, m) ∷ es
        → (find_socket f r.loop.sockets ≡ some f)
          × (count f r.loop.pool.queue ≡ 0)
          × (count f r.loop.running ≡ 0)
    reachable_event f m es ne b =
        let k = (reachable-Inv lfd t empty_tree reached).placed f ne in
        let n : 0 < count_events f r.loop.batch = ground (arith, b, ==_iff f f) in
        elim (Option-cases (find_socket f r.loop.sockets)) [
          | inl gone ↦ absurd (omega (arith, n, k.conserved, ap present gone))
          | inr (g, q) ↦
              let c = k.conserved ∙ ap present q in
              (q ∙ ap some (k.own g q), omega (arith, c), omega (arith, c))
        ]

    -- When a worker has ended its task, the next event of its descriptor can be reported.
    pub reachable_rearmed :
        (f : ℕ) (before after : List ℕ)
        → r.loop.running ≡ before ++ f ∷ after
        → armed_once (e.watch f (fd_mode e f (record (r.loop) { running = before ++ after })).tree)
          ≡ 1
    unfolding fd_mode
    reachable_rearmed f before after q =
        let busy : 0 < count f r.loop.running =
          ground (arith, ap (count f) q, count-append f before (f ∷ after), ==_iff f f) in
        let w = reachable_worker f busy in
        let i = reachable-Inv lfd t empty_tree reached in
        let ne : f ≢ r.loop.listener = λ p.
          absurd (omega (arith, busy, i.listening.no_task, ap (λ x. count x r.loop.running) p)) in
        ground (
          arith,
          e.watch-rearm f f r.loop.tree,
          ==_iff f f,
          (rearmed-armed_once (e.watch f r.loop.tree)).0,
          (i.placed f ne).known,
          w.1,
        )
