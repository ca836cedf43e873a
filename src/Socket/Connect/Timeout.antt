-- ===== src/Socket/Connect/Timeout.antt =====
-- When a connection is made, and what its timeout does.
use secure_data_transmission.Base.{
  Option-cases, ℕ, suc, ◌<◌, ◌≡◌, ◌≢◌, refl, sym, subst, ◌⊎◌, ◌↔◌, true, false, none, some, List,
  arith, ℤ, pos, Bytes, ==_iff,
}
use secure_data_transmission.Socket.{Selected, in_time, select_loop}
use secure_data_transmission.Socket.Sending.{Wait-cases}
use secure_data_transmission.Socket.Connect.{
  Mode, no_block_io, block_io, Connected, connected, in_progress, connect_failed, Kernel,
  wait_connected, connect_modes, connect_timeout, client_connect_timeout, client_connect_to_host,
  host_code,
}

-- The calls of `fcntl` succeed.
pub record Switches (k : Kernel) : Type 0 where
  pub first_get : k.first.get_flags ≡ none
  pub first_set : k.first.set_flags ≡ none
  pub last_get : k.last.get_flags ≡ none
  pub last_set : k.last.set_flags ≡ none

-- The connection is there at once, or the socket becomes writable in time with no error pending.
abbrev pub IsMade : Kernel → Type 0
IsMade k =
    (k.connect true ≡ connected)
    ⊎ ((k.connect true ≡ in_progress)
        × (select_loop k.selects ≡ in_time)
        × (k.getsockopt ≡ none)
        × (k.pending ≡ 0))

-- 0 exactly for a connection that is made, and then a socket that blocks.
abbrev pub MadeBlocking : Kernel → ℤ × Mode → Type 0
MadeBlocking k r = ((r.0 ≡ pos 0) ↔ IsMade k) × (r.0 ≡ pos 0 → r.1.nonblocking ≡ false)

to_host_valid :
    (k : Kernel) (ip : Bytes) (port seconds : ℕ) (m : Mode)
    → k.socket ≡ none
    → 0 < port
    → port < 65536
    → client_connect_to_host k (some ip) port (pos seconds) m
      ≡ host_code (client_connect_timeout k seconds (record m { nonblocking = false }))
unfolding client_connect_to_host
to_host_valid k ip port seconds m s lo hi = ground (arith, s, lo, hi)

host_code-MadeBlocking :
    (k : Kernel) (r : ℤ × Mode) → MadeBlocking k r → MadeBlocking k (host_code r)
host_code-MadeBlocking k (ret, m) h = ground (arith, h)

client_connect_timeout-MadeBlocking :
    (k : Kernel) (seconds : ℕ) (m : Mode)
    → Switches k
    → MadeBlocking k (client_connect_timeout k (suc seconds) m)
unfolding client_connect_timeout no_block_io block_io connect_modes wait_connected
client_connect_timeout-MadeBlocking k seconds m w = by_answer (k.connect true) refl
  where
    by_answer :
        (a : Connected)
        → k.connect true ≡ a
        → MadeBlocking k (client_connect_timeout k (suc seconds) m)
    by_answer connected e = ground (arith, w.first_get, w.first_set, w.last_get, w.last_set, e)
    by_answer in_progress e = ground (
      arith,
      w.first_get,
      w.first_set,
      w.last_get,
      w.last_set,
      e,
      Wait-cases (select_loop k.selects),
      Option-cases k.getsockopt,
      ==_iff k.pending 0,
    )
    by_answer (connect_failed errno) e =
        ground (arith, w.first_get, w.first_set, w.last_get, w.last_set, e)

-- With a timeout the client's `connectToHost` returns 0 exactly where the connection is made in time,
-- and the socket then blocks again, as `recvMsg` of the client needs it.
pub client_connect_to_host-MadeBlocking :
    (k : Kernel) (ip : Bytes) (port seconds : ℕ) (m : Mode)
    → Switches k
    → k.socket ≡ none
    → 0 < port
    → port < 65536
    → MadeBlocking k (client_connect_to_host k (some ip) port (pos (suc seconds)) m)
client_connect_to_host-MadeBlocking k ip port seconds m w s lo hi =
    subst (MadeBlocking k) (sym (to_host_valid k ip port (suc seconds) m s lo hi)) (
      host_code-MadeBlocking k _
        (client_connect_timeout-MadeBlocking k seconds (record m { nonblocking = false }) w))

-- The server's `connectTimeout` lets a socket that has a timeout block, and a blocking socket is never
-- reported as in progress: the timeout is not used.
pub connect_timeout-unused :
    (k : Kernel) (selects : List Selected) (seconds : ℕ) (m : Mode)
    → Switches k
    → k.connect false ≢ in_progress
    → connect_timeout (record k { selects = selects }) (suc seconds) m
      ≡ connect_timeout k (suc seconds) m
unfolding connect_timeout connect_modes no_block_io block_io wait_connected
connect_timeout-unused k selects seconds m w blocks = by_answer (k.connect false) refl
  where
    by_answer :
        (a : Connected)
        → k.connect false ≡ a
        → connect_timeout (record k { selects = selects }) (suc seconds) m
          ≡ connect_timeout k (suc seconds) m
    by_answer connected e = ground (arith, w.first_get, w.first_set, e)
    by_answer in_progress e = absurd (blocks e)
    by_answer (connect_failed errno) e = ground (arith, w.first_get, w.first_set, e)
