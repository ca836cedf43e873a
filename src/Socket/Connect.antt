-- ===== src/Socket/Connect.antt =====
-- connectToHost and what it calls, of client/src/TcpSocket.cpp and server/src/TcpSocket.cpp. The two
-- differ in `connectTimeout` alone: the client's makes the socket non-blocking first and blocking
-- last, the server's the other way round.
pub mod Timeout
use secure_data_transmission.Base.{
  ℕ, zero, suc, ◌≡◌, ◌≢◌, Bool, true, false, not, ◌&&◌, ◌||◌, Option, none, some, List, [], ◌∷◌,
  if◌then◌else◌, ltb, ◌==◌, ℤ, pos, negsuc, minus_one, int_eq, Bytes,
}
use secure_data_transmission.Socket.{
  Selected, Wait, in_time, late, broken, select_loop, param_error, timeout_error,
}

-- The errnos of the two calls of `fcntl`, where they fail.
pub record Fcntl : Type 0 where
  pub get_flags : Option ℕ
  pub set_flags : Option ℕ

-- Whether the socket is non-blocking, and errno.
pub record Mode : Type 0 where
  pub nonblocking : Bool
  pub errno : ℕ

-- `noBlockIO` and `blockIO`.
set_mode : Bool → Fcntl → Mode → ℤ × Mode
set_mode wanted k m = elim k.get_flags [
  | some e ↦ (minus_one, record m { errno = e })
  | none ↦ elim k.set_flags [
    | some e ↦ (minus_one, record m { errno = e })
    | none ↦ (pos 0, record m { nonblocking = wanted })
  ]
]

unfoldable pub no_block_io : Fcntl → Mode → ℤ × Mode
unfolding set_mode
no_block_io = set_mode true

unfoldable pub block_io : Fcntl → Mode → ℤ × Mode
unfolding set_mode
block_io = set_mode false

-- The answer of `connect`: it may depend on the socket's mode.
pub data Connected : Type 0 where
  connected in_progress : Connected
  connect_failed : ℕ → Connected

-- ETIMEDOUT and EINPROGRESS.
abbrev pub etimedout : ℕ
etimedout = 110

abbrev pub einprogress : ℕ
einprogress = 115

-- What the kernel answers: to `socket` (an errno, where it fails), to both mode changes, to `connect`,
-- to `select` with the errno of its failure, and to `getsockopt` (an errno, where it fails) with the
-- pending error.
pub record Kernel : Type 0 where
  pub socket : Option ℕ
  pub first : Fcntl
  pub last : Fcntl
  pub connect : Bool → Connected
  pub selects : List Selected
  pub select_errno : ℕ
  pub getsockopt : Option ℕ
  pub pending : ℕ

-- The part behind EINPROGRESS: whether it returns from the function, the code and errno.
wait_connected : Kernel → Bool × ℤ × ℕ
wait_connected k = elim (select_loop k.selects) [
  | late ↦ (false, minus_one, etimedout)
  | broken ↦ (true, minus_one, k.select_errno)
  | in_time ↦ elim k.getsockopt [
    | some e ↦ (true, minus_one, e)
    | none ↦ if k.pending == 0 then (false, pos 0, einprogress) else (false, minus_one, k.pending)
  ]
]

abbrev connect_answer : Kernel → Mode → Bool × ℤ × ℕ
connect_answer k m = elim (k.connect m.nonblocking) [
  | connected ↦ (false, pos 0, m.errno)
  | in_progress ↦ wait_connected k
  | connect_failed e ↦ (false, minus_one, e)
]

-- The end of `connectTimeout`.
abbrev after_connect : (Mode → ℤ × Mode) → Mode → Bool × ℤ × ℕ → ℤ × Mode
after_connect after m (true, ret, errno) = (ret, record m { errno = errno })
after_connect after m (false, ret, errno) = (ret, (after (record m { errno = errno })).1)

-- `connectTimeout`, with what it does to the mode before and after where there is a timeout.
connect_modes : (Mode → ℤ × Mode) → (Mode → ℤ × Mode) → Kernel → ℕ → Mode → ℤ × Mode
unfolding wait_connected
connect_modes before after k zero m = after_connect (λ x. (pos 0, x)) m (connect_answer k m)
connect_modes before after k (suc seconds) m =
    let m₁ = (before m).1 in after_connect after m₁ (connect_answer k m₁)

unfoldable pub connect_timeout : Kernel → ℕ → Mode → ℤ × Mode
unfolding connect_modes
connect_timeout k = connect_modes (block_io k.first) (no_block_io k.last) k

unfoldable pub client_connect_timeout : Kernel → ℕ → Mode → ℤ × Mode
unfolding connect_modes
client_connect_timeout k = connect_modes (no_block_io k.first) (block_io k.last) k

-- The seconds of a timeout that is not negative.
abbrev seconds_of : ℤ → Option ℕ
seconds_of (pos n) = some n
seconds_of (negsuc n) = none

abbrev pub host_code : ℤ × Mode → ℤ × Mode
host_code (ret, m) =
    if int_eq ret minus_one && (m.errno == etimedout) then (timeout_error, m) else (ret, m)

-- `connectToHost` with a `connectTimeout`: a null address is `none`.
abbrev to_host : (Kernel → ℕ → Mode → ℤ × Mode) → Kernel → Option Bytes → ℕ → ℤ → Mode → ℤ × Mode
to_host connect k none port timeout m = (param_error, m)
to_host connect k (some ip) port timeout m = elim (seconds_of timeout) [
  | none ↦ (param_error, m)
  | some n ↦ if (port == 0) || ltb 65535 port then (param_error, m) else elim k.socket [
    | some e ↦ (pos e, record m { errno = e })
    | none ↦ host_code (connect k n (record m { nonblocking = false }))
  ]
]

unfoldable pub connect_to_host : Kernel → Option Bytes → ℕ → ℤ → Mode → ℤ × Mode
connect_to_host = to_host connect_timeout

unfoldable pub client_connect_to_host : Kernel → Option Bytes → ℕ → ℤ → Mode → ℤ × Mode
client_connect_to_host = to_host client_connect_timeout
