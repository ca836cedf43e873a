-- ===== src/Epoll.antt =====
-- server/src/ServerOperation.cpp, the thread of `startwork`: it waits for events, accepts connections,
-- closes those that the peer has closed, and gives those with data to the thread pool.
pub mod Steps
pub mod Counting
pub mod Invariant
pub mod Kept
pub mod Listener
pub mod Accepting
pub mod Safety
mod Tests
use secure_data_transmission.Base.{
  ℕ, zero, suc, ◌+◌, ◌≡◌, Bool, true, false, not, Option, none, some, List, [], ◌∷◌, ◌++◌, map,
  if◌then◌else◌, ◌==◌, ltb,
}
use secure_data_transmission.TcpServer.{Accepted, Accept, accept_conn, client, eagain}
use secure_data_transmission.ThreadPool.{Limits, ThreadPool, add_task}

-- What epoll keeps of a descriptor: whether an event of it can be reported, and whether it was
-- registered with EPOLLONESHOT.
pub record Watch : Type 0 where
  pub armed : Bool
  pub oneshot : Bool

abbrev pub rearmed : Watch → Watch
rearmed w = record { armed = true; oneshot = true }

abbrev pub reported : Watch → Watch
reported w = record w { armed = not w.oneshot }

abbrev pub map_watch : (Watch → Watch) → Option Watch → Option Watch
map_watch f none = none
map_watch f (some w) = some (f w)

-- The kernel's epoll, as far as it is documented: `add` is EPOLL_CTL_ADD, `rearm` is EPOLL_CTL_MOD
-- with EPOLLONESHOT, `report` is what `epoll_wait` does to a descriptor that it reports, and `close`
-- is the call of that name. An EPOLL_CTL_ADD of a known descriptor and an EPOLL_CTL_MOD of an unknown
-- one fail. An event of a descriptor with EPOLLONESHOT disarms it.
pub record Epoll : Type 1 where
  pub Tree : Type 0
  pub watch : ℕ → Tree → Option Watch
  pub add : ℕ → Bool → Tree → Tree
  pub rearm : ℕ → Tree → Tree
  pub report : ℕ → Tree → Tree
  pub close : ℕ → Tree → Tree
  pub watch-add :
      (f g : ℕ) (once : Bool) (t : Tree)
      → watch g t ≡ none
      → watch f (add g once t)
        ≡ (if f == g then some (record { armed = true; oneshot = once }) else watch f t)
  pub watch-rearm :
      (f g : ℕ) (t : Tree)
      → watch f (rearm g t) ≡ (if f == g then map_watch rearmed (watch f t) else watch f t)
  pub watch-report :
      (f g : ℕ) (t : Tree)
      → watch f (report g t) ≡ (if f == g then map_watch reported (watch f t) else watch f t)
  pub watch-close :
      (f g : ℕ) (t : Tree) → watch f (close g t) ≡ (if f == g then none else watch f t)

-- The flags of an event that the loop tests.
pub record Mask : Type 0 where
  pub rdhup : Bool
  pub readable : Bool

-- `m_sockets`: the descriptor inside of each socket, under the descriptor that is its key.
abbrev pub Sockets : Type 0
Sockets = List (ℕ × ℕ)

unfoldable pub find_socket : ℕ → Sockets → Option ℕ
find_socket f [] = none
find_socket f ((k, s) ∷ ss) = if f == k then some s else find_socket f ss

-- `insert` leaves a key that is there alone.
unfoldable pub insert_socket : ℕ → ℕ → Sockets → Sockets
insert_socket f s ss = elim (find_socket f ss) [ none ↦ (f, s) ∷ ss | some _ ↦ ss ]

unfoldable pub erase_socket : ℕ → Sockets → Sockets
erase_socket f [] = []
erase_socket f ((k, s) ∷ ss) =
    let rest = erase_socket f ss in if f == k then rest else (k, s) ∷ rest

-- `batch` is the part of `events` that the inner loop has not handled; `running` are the tasks that
-- workers have taken out of the queue and not ended.
pub record Loop (e : Epoll) : Type 0 where
  pub tree : e.Tree
  pub listener : ℕ
  pub sockets : Sockets
  pub batch : List (ℕ × Mask)
  pub pool : ThreadPool
  pub running : List ℕ

module _ (e : Epoll) where
  -- `epoll_wait`: only armed descriptors are reported, and each once.
  unfoldable pub epoll_wait : List (ℕ × Mask) → e.Tree → Option e.Tree
  epoll_wait [] t = some t
  epoll_wait ((f, m) ∷ es) t =
      let rest = epoll_wait es (e.report f t) in
      elim (e.watch f t) [ none ↦ none | some w ↦ if w.armed then rest else none ]

  -- `initConnection` of a socket whose descriptor is `f`: `addEpollTree` and the insertion.
  unfoldable pub init_connection : ℕ → Loop e → Loop e
  init_connection f s = record s {
    tree = e.add f true s.tree;
    sockets = insert_socket f f s.sockets;
  }

  -- The inner loop of the listening descriptor.
  unfoldable pub accept_all : ℕ → (ℕ → Accepted) → ℕ → Loop e → Option (Loop e)
  accept_all zero kernel n s = none
  accept_all (suc rounds) kernel n s = elim (accept_conn rounds kernel n) [
    | none ↦ none
    | some (client f, next) ↦ accept_all rounds kernel next (init_connection f s)
    | some (eagain, next) ↦ some s
  ]

  -- The branch of EPOLLRDHUP.
  unfoldable pub hang_up : ℕ → Loop e → Loop e
  hang_up f s = record s { tree = e.close f s.tree; sockets = erase_socket f s.sockets }

  -- What the loop does with an event of a connection: the loop, and whether the event was lost;
  -- `none`, where `add_task` waits.
  unfoldable pub handle_event : Limits → ℕ → Mask → Loop e → Option (Bool × Loop e)
  handle_event l f m s =
      let added = add_task l f s.pool in
      if m.rdhup
      then some (false, hang_up f s)
      else if m.readable
      then elim added [ none ↦ none | some (taken, p) ↦ some (not taken, record s { pool = p }) ]
      else some (true, s)

  -- `fdMode(fd, EPOLLIN)`, the last thing that `workThread` does.
  unfoldable pub fd_mode : ℕ → Loop e → Loop e
  fd_mode f s = record s { tree = e.rearm f s.tree }

  -- The constructor, from `epoll_create` on.
  unfoldable pub open_loop : ℕ → ThreadPool → e.Tree → Loop e
  open_loop lfd p t = record {
    tree = e.add lfd false t;
    listener = lfd;
    sockets = [];
    batch = [];
    pool = p;
    running = [];
  }
