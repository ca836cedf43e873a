-- ===== src/Socket/ClientSocket.antt =====
-- client/src/TcpSocket.cpp: the client's socket blocks, so a call that waits for ever is `none`.
-- Where it differs from the server's: `readn` knows no EAGAIN, `recvMsg` waits for the socket to be
-- readable first, and reports any short read as PeerCloseError.
pub mod Agree
pub mod Sending
use secure_data_transmission.Base.{
  ℕ, ◌+◌, ◌-◌, ◌^◌, Bool, true, false, ◌&&◌, Option, none, some, List, [], ◌∷◌, ◌++◌, length, take,
  drop, if◌then◌else◌, ltb, leb, ◌==◌, ℤ, pos, negsuc, minus_one, int_eq, Bytes, ◌>>=◌,
}
use secure_data_transmission.Socket.{
  Errno, eintr, eagain, other, Event, arrived, failed, Read, Recv, returned, peer_close_error,
  malloc_error, timeout_error, un_be32, Selected, Wait, in_time, late, broken, write_timeout,
  read_timeout, Written, writen, send_msg,
}

abbrev client_read_failed : Errno → Bytes → List Event → Option Read → Option Read
client_read_failed eintr acc es retry = retry
client_read_failed eagain acc es retry = some (record { ret = minus_one; buf = acc; rest = es })
client_read_failed other acc es retry = some (record { ret = minus_one; buf = acc; rest = es })

pub client_readn_loop : ℕ → ℕ → Bytes → List Event → Option Read
client_readn_loop count nleft acc [] =
    if nleft == 0 then some (record { ret = pos count; buf = acc; rest = [] }) else none
client_readn_loop count nleft acc (failed e ∷ es) =
    let retry = client_readn_loop count nleft acc es in
    if nleft == 0
    then some (record { ret = pos count; buf = acc; rest = failed e ∷ es })
    else client_read_failed e acc es retry
client_readn_loop count nleft acc (arrived bs ∷ es) =
    let more = client_readn_loop count (nleft - length bs) (acc ++ bs) es in
    if nleft == 0
    then some (record { ret = pos count; buf = acc; rest = arrived bs ∷ es })
    else if length bs == 0
    then some (record { ret = pos (count - nleft); buf = acc; rest = arrived bs ∷ es })
    else if leb (length bs) nleft
    then more
    else some (record {
      ret = pos count;
      buf = acc ++ take nleft bs;
      rest = arrived (drop nleft bs) ∷ es;
    })

pub client_readn : ℕ → List Event → Option Read
client_readn count es = client_readn_loop count count [] es

-- `ret < n`.
abbrev pub below : ℤ → ℕ → Bool
below (pos k) n = ltb k n
below (negsuc k) n = true

pub client_recv_tail : ℕ → Read → Option Recv
client_recv_tail n r =
    if int_eq r.ret minus_one
    then returned minus_one r.rest
    else if below r.ret n
    then returned peer_close_error r.rest
    else some (record { ret = pos 0; stored = some (some r.buf, n); rest = r.rest })

pub client_recv_body : Bool → ℕ → List Event → Option Recv
client_recv_body alloc n es =
    if n == 2 ^ 32 - 1
    then none
    else if alloc && ltb (n + 1) (2 ^ 31)
    then client_readn n es >>= client_recv_tail n
    else returned malloc_error es

pub client_recv_header : Bool → Read → Option Recv
client_recv_header alloc h =
    if int_eq h.ret (pos 0)
    then some (record { ret = pos 0; stored = some (none, 0); rest = h.rest })
    else if int_eq h.ret minus_one
    then returned minus_one h.rest
    else if below h.ret 4
    then returned peer_close_error h.rest
    else client_recv_body alloc (un_be32 h.buf) h.rest

-- These have the same text as the server's.
unfoldable pub client_read_timeout : ℕ → List Selected → Wait
client_read_timeout = read_timeout

pub client_write_timeout : ℕ → List Selected → Wait
client_write_timeout = write_timeout

pub client_writen : Bytes → List Written → ℤ × Bytes
client_writen = writen

unfoldable pub client_send_msg : Option Bytes → ℕ → Bool → List Selected → List Written → ℤ × Bytes
client_send_msg = send_msg

-- Any failure of `readTimeout` is a TimeoutError.
pub client_recv_msg : ℕ → Bool → List Selected → List Event → Option Recv
client_recv_msg timeout alloc ss es = elim (client_read_timeout timeout ss) [
  | in_time ↦ client_readn 4 es >>= client_recv_header alloc
  | late ↦ returned timeout_error es
  | broken ↦ returned timeout_error es
]
