-- ===== src/TcpServer.antt =====
-- server/src/TcpServer.cpp: the listening socket. What the kernel answers is a script.
pub mod Accepting
mod Tests
use secure_data_transmission.Base.{
  ℕ, zero, suc, ◌+◌, ◌≡◌, Bool, true, false, Option, none, some, ℤ, pos, minus_one,
}

-- The answers of the four calls of `setListen`: the descriptor or the errno; the errno of a failure.
pub data Opened : Type 0 where
  opened : ℕ → Opened
  not_opened : ℕ → Opened

pub record Setup : Type 0 where
  pub socket : Opened
  pub setsockopt : Option ℕ
  pub bind : Option ℕ
  pub listen : Option ℕ

-- `m_lfd`, and whether the kernel listens on it.
pub record TcpServer : Type 0 where
  pub lfd : ℤ
  pub listening : Bool

abbrev or_errno : Option ℕ → ℤ × TcpServer → ℤ × TcpServer → ℤ × TcpServer
or_errno none failed next = next
or_errno (some errno) (ret, s) next = (pos errno, s)

-- The calls after `socket`.
listen_on : Setup → ℕ → ℤ × TcpServer
listen_on k fd =
    let closed : TcpServer = record { lfd = pos fd; listening = false } in
    or_errno k.setsockopt (pos 0, closed)
      (or_errno k.bind (pos 0, closed)
        (or_errno k.listen (pos 0, closed) (pos 0, record { lfd = pos fd; listening = true })))

-- `setListen`: the code, which is an errno where a call fails, and the socket.
unfoldable pub set_listen : Setup → ℤ × TcpServer
unfolding listen_on
set_listen k = elim k.socket [
  | opened fd ↦ listen_on k fd
  | not_opened errno ↦ (pos errno, record { lfd = minus_one; listening = false })
]

-- The answers of `accept`: a descriptor, EINTR, EAGAIN, or another errno.
pub data Accepted : Type 0 where
  connection : ℕ → Accepted
  interrupted no_more refused : Accepted

-- What `acceptConn` returns: 0 and a socket with the descriptor, or EAGAIN.
pub data Accept : Type 0 where
  client : ℕ → Accept
  eagain : Accept

-- `acceptConn`: `kernel n` is the answer of the call of `accept` with number `n`. The result and the
-- number of the next call; `none`, where the rounds are not enough. A refused call is only logged.
unfoldable pub accept_conn : ℕ → (ℕ → Accepted) → ℕ → Option (Accept × ℕ)
accept_conn zero kernel n = none
accept_conn (suc rounds) kernel n =
    let again = accept_conn rounds kernel (n + 1) in
    elim (kernel n) [
      | connection fd ↦ some (client fd, n + 1)
      | interrupted ↦ again
      | no_more ↦ some (eagain, n + 1)
      | refused ↦ again
    ]
