-- ===== src/Epoll/Invariant.antt =====
-- Where each descriptor is, in every state that the threads reach.
use secure_data_transmission.Base.{
  ℕ, ◌+◌, ◌≡◌, ◌≢◌, ◌∙◌, refl, ap, subst, true, false, Option, none, some, List, [], ◌∷◌,
  if◌then◌else◌, ◌==◌, arith, inl, inr, Bool-cases, Option-cases, ==_iff,
}
use secure_data_transmission.Epoll.{
  Epoll, Watch, Mask, Sockets, find_socket, insert_socket, erase_socket, epoll_wait, rearmed,
  reported, map_watch,
}
use secure_data_transmission.Epoll.Counting.{count, count_events, armed_once, present}
use secure_data_transmission.Epoll.Steps.{Run}

pub find_socket-insert_socket :
    (f g s : ℕ) (ss : Sockets)
    → find_socket g ss ≡ none
    → find_socket f (insert_socket g s ss) ≡ (if f == g then some s else find_socket f ss)
unfolding insert_socket find_socket
find_socket-insert_socket f g s ss fresh = rw (fresh, insert_socket) refl

pub find_socket-erase_socket :
    (f g : ℕ) (ss : Sockets)
    → find_socket f (erase_socket g ss) ≡ (if f == g then none else find_socket f ss)
unfolding erase_socket find_socket
find_socket-erase_socket f g [] = ground arith
find_socket-erase_socket f g ((k, s) ∷ ss) = ground (arith, find_socket-erase_socket f g ss)

-- What is recorded of a descriptor: how often it is armed, reported and not handled, queued, with a
-- worker, or lost.
abbrev pub places : (e : Epoll) → ℕ → Run e → ℕ
places e f r =
    armed_once (e.watch f r.loop.tree)
    + count_events f r.loop.batch
    + count f r.loop.pool.queue
    + count f r.loop.running
    + count f r.lost

-- A descriptor that is known is known with EPOLLONESHOT.
abbrev pub IsOneshot : Option Watch → Type 0
IsOneshot none = Unit
IsOneshot (some w) = w.oneshot ≡ true

reported-armed_once :
    (x : Option Watch) (w : Watch)
    → IsOneshot x
    → x ≡ some w
    → w.armed ≡ true
    → (armed_once (map_watch reported x) + 1 ≡ armed_once x)
      × (present (map_watch reported x) ≡ present x)
      × IsOneshot (map_watch reported x)
reported-armed_once none w once q on = cc
reported-armed_once (some v) w once q on = ground (arith, q, on, once)

pub rearmed-armed_once :
    (x : Option Watch)
    → (armed_once (map_watch rearmed x) ≡ present x)
      × (present (map_watch rearmed x) ≡ present x)
      × IsOneshot (map_watch rearmed x)
rearmed-armed_once none = (refl, refl, tt)
rearmed-armed_once (some w) = (refl, refl, refl)

module _ (e : Epoll) where
  -- A descriptor that is not the listening one: it is in one place while `m_sockets` has a socket
  -- for it, and in none otherwise; epoll knows it exactly then, with EPOLLONESHOT; and the socket
  -- that is found under it is its own.
  pub record Placed (f : ℕ) (r : Run e) : Type 0 where
    pub conserved : places e f r ≡ present (find_socket f r.loop.sockets)
    pub known : present (e.watch f r.loop.tree) ≡ present (find_socket f r.loop.sockets)
    pub oneshot : IsOneshot (e.watch f r.loop.tree)
    pub own : (g : ℕ) → find_socket f r.loop.sockets ≡ some g → g ≡ f

  -- The listening descriptor is watched as the constructor has asked; it is in no socket and in no
  -- task.
  pub record Listening (r : Run e) : Type 0 where
    pub socket : find_socket r.loop.listener r.loop.sockets ≡ none
    pub watched :
        e.watch r.loop.listener r.loop.tree ≡ some (record { armed = true; oneshot = false })
    pub no_task : count r.loop.listener r.loop.pool.queue + count r.loop.listener r.loop.running ≡ 0

  pub record Inv (r : Run e) : Type 0 where
    pub listening : Listening r
    pub placed : (f : ℕ) → f ≢ r.loop.listener → Placed f r

  -- What `epoll_wait` has done to one descriptor.
  abbrev pub Waited : ℕ → List (ℕ × Mask) → e.Tree → e.Tree → Type 0
  Waited f es t t' =
      (armed_once (e.watch f t') + count_events f es ≡ armed_once (e.watch f t))
      × (present (e.watch f t') ≡ present (e.watch f t))
      × IsOneshot (e.watch f t')

  report-Waited :
      (f g : ℕ) (m : Mask) (t : e.Tree) (w : Watch)
      → IsOneshot (e.watch f t)
      → e.watch g t ≡ some w
      → w.armed ≡ true
      → Waited f ((g, m) ∷ []) t (e.report g t)
  report-Waited f g m t w once q on = elim (Bool-cases (f == g)) [
    | inl same ↦
        let x = (==_iff f g).0 same in
        let r = reported-armed_once (e.watch f t) w once (ap (λ x. e.watch x t) x ∙ q) on in
        ground (arith, e.watch-report f g t, same, r)
    | inr other ↦ ground (arith, e.watch-report f g t, other, once)
  ]

  pub epoll_wait-Waited :
      (f : ℕ) (es : List (ℕ × Mask)) (t t' : e.Tree)
      → IsOneshot (e.watch f t)
      → epoll_wait e es t ≡ some t'
      → Waited f es t t'
  unfolding epoll_wait
  epoll_wait-Waited f [] t t' once h =
      subst (Waited f [] t) {x = t} (ground (arith, h)) (omega arith, refl, once)
  epoll_wait-Waited f ((g, m) ∷ es) t t' once h = elim (Option-cases (e.watch g t)) [
    | inl unknown ↦ ground (arith, unknown)
    | inr (w, q) ↦ elim (Bool-cases w.armed) [
      | inr off ↦ ground (arith, q, off)
      | inl on ↦
          let s = report-Waited f g m t w once q on in
          let n = epoll_wait-Waited f es (e.report g t) t' s.2 (ground (arith, q, on)) in
          (ground (arith, s.0, n.0), n.1 ∙ s.1, n.2)
    ]
  ]

  pub epoll_wait-listener :
      (f : ℕ) (es : List (ℕ × Mask)) (t t' : e.Tree)
      → e.watch f t ≡ some (record { armed = true; oneshot = false })
      → epoll_wait e es t ≡ some t'
      → e.watch f t' ≡ some (record { armed = true; oneshot = false })
  unfolding epoll_wait
  epoll_wait-listener f [] t t' q h =
      subst (λ x. e.watch f x ≡ some (record { armed = true; oneshot = false })) {x = t}
        (ground (arith, h)) q
  epoll_wait-listener f ((g, m) ∷ es) t t' q h = elim (Option-cases (e.watch g t)) [
    | inl unknown ↦ ground (arith, unknown)
    | inr (w, p) ↦ elim (Bool-cases w.armed) [
      | inr off ↦ ground (arith, p, off)
      | inl on ↦
          epoll_wait-listener f es (e.report g t) t' (ground (arith, e.watch-report f g t, q))
            (ground (arith, p, on))
    ]
  ]
