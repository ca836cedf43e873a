-- ===== src/Socket.antt =====
-- server/src/TcpSocket.cpp: length-prefixed messages over a non-blocking socket.
-- What the kernel answers is a script: a list of events for `read`, for `write` and for `select`.
pub mod Stream
pub mod Frames
pub mod Broken
pub mod Sending
pub mod ClientSocket
pub mod Connect
mod Tests
mod ConnectTests
use secure_data_transmission.Base.{
  ◌||◌, ℕ, zero, suc, ◌+◌, ◌-◌, ◌*◌, ◌/◌, ◌%◌, ◌^◌, Bool, true, false, ◌&&◌, Option, none, some,
  List, [], ◌∷◌, ◌++◌, length, take, drop, if◌then◌else◌, ltb, leb, ◌==◌, ℤ, pos, negsuc, minus_one,
  int_eq, Bytes,
}

pub data Errno : Type 0 where
  eintr eagain other : Errno

-- What the socket holds for the next calls of `read`: bytes that have arrived together (none, where
-- the peer has closed), or a failure. After the last event `read` fails with EAGAIN.
pub data Event : Type 0 where
  arrived : Bytes → Event
  failed : Errno → Event

pub record Read : Type 0 where
  pub ret : ℤ
  pub buf : Bytes
  pub rest : List Event

abbrev pub again : ℤ
again = negsuc 1

-- `ParamError`, `TimeoutError`, `PeerCloseError` and `MallocError` of `ErrorType`.
abbrev pub param_error : ℤ
param_error = pos 3001

abbrev pub timeout_error : ℤ
timeout_error = pos 3002

abbrev pub peer_close_error : ℤ
peer_close_error = pos 3003

abbrev pub malloc_error : ℤ
malloc_error = pos 3004

abbrev read_failed : Errno → Bytes → List Event → Read → Read
read_failed eintr acc es retry = retry
read_failed eagain acc es retry = record { ret = again; buf = acc; rest = es }
read_failed other acc es retry = record { ret = minus_one; buf = acc; rest = es }

-- The loop of `readn`; `acc` is what the buffer holds so far.
unfoldable pub readn_loop : ℕ → ℕ → Bytes → List Event → Read
readn_loop count nleft acc [] =
    if nleft == 0
    then record { ret = pos count; buf = acc; rest = [] }
    else record { ret = again; buf = acc; rest = [] }
readn_loop count nleft acc (failed e ∷ es) =
    let retry = readn_loop count nleft acc es in
    if nleft == 0
    then record { ret = pos count; buf = acc; rest = failed e ∷ es }
    else read_failed e acc es retry
readn_loop count nleft acc (arrived bs ∷ es) =
    let more = readn_loop count (nleft - length bs) (acc ++ bs) es in
    if nleft == 0
    then record { ret = pos count; buf = acc; rest = arrived bs ∷ es }
    else if length bs == 0
    then record { ret = pos (count - nleft); buf = acc; rest = arrived bs ∷ es }
    else if leb (length bs) nleft
    then more
    else record { ret = pos count; buf = acc ++ take nleft bs; rest = arrived (drop nleft bs) ∷ es }

unfoldable pub readn : ℕ → List Event → Read
readn count es = readn_loop count count [] es

-- `htonl` and the copy of its four bytes; `ntohl` of four bytes.
unfoldable pub be32 : ℕ → Bytes
be32 n = (n / 2 ^ 24 % 256) ∷ (n / 2 ^ 16 % 256) ∷ (n / 2 ^ 8 % 256) ∷ (n % 256) ∷ []

pub un_be32 : Bytes → ℕ
un_be32 (a ∷ b ∷ c ∷ d ∷ rest) = a * 2 ^ 24 + b * 2 ^ 16 + c * 2 ^ 8 + d
un_be32 _ = 0

-- `ret > 0 && ret < n`.
abbrev pub between : ℤ → ℕ → Bool
between (pos k) n = ltb 0 k && ltb k n
between (negsuc k) n = false

-- What `recvMsg` returns: its code and what it stores to `*recvData` and `*recvLen` (none, where it
-- stores nothing). A stored text is what was read into the buffer: where it is shorter than the
-- stored length, the rest of the buffer is not initialised.
pub record Recv : Type 0 where
  pub ret : ℤ
  pub stored : Option (Option Bytes × ℕ)
  pub rest : List Event

abbrev pub returned : ℤ → List Event → Option Recv
returned code es = some (record { ret = code; stored = none; rest = es })

pub recv_tail : ℕ → Read → Option Recv
recv_tail n r =
    if int_eq r.ret minus_one
    then returned minus_one r.rest
    else if between r.ret n
    then returned peer_close_error r.rest
    else if int_eq r.ret again
    then returned again r.rest
    else some (record { ret = pos 0; stored = some (some r.buf, n); rest = r.rest })

-- From the `malloc` on. `n` is an `int`, negative from 2 ^ 31 on, and `n + 1` is an `int` that wraps
-- around, so that it is negative from 2 ^ 31 - 1 on: then `malloc(n + 1)` has no memory to give, but
-- for -1, where a read of more than SSIZE_MAX bytes is undefined.
pub recv_body : Bool → ℕ → List Event → Option Recv
recv_body alloc n es =
    if n == 2 ^ 32 - 1
    then none
    else if alloc && ltb (n + 1) (2 ^ 31)
    then recv_tail n (readn n es)
    else returned malloc_error es

unfoldable pub recv_header : Bool → Read → Option Recv
recv_header alloc h =
    if int_eq h.ret (pos 0)
    then some (record { ret = pos 0; stored = some (none, 0); rest = h.rest })
    else if int_eq h.ret minus_one
    then returned minus_one h.rest
    else if between h.ret 4
    then returned peer_close_error h.rest
    else if int_eq h.ret again
    then returned again h.rest
    else recv_body alloc (un_be32 h.buf) h.rest

-- `recvMsg` with both pointers given; `alloc` is whether `malloc` finds memory.
unfoldable pub recv_msg : Bool → List Event → Option Recv
recv_msg alloc es = recv_header alloc (readn 4 es)

-- The answers of `write`; after the last one it takes all that it is given.
pub data Written : Type 0 where
  wrote : ℕ → Written
  write_failed : Errno → Written

-- The loop of `writen`, with what has gone out: `nleft` is the length of what is left.
pub writen_loop : ℕ → Bytes → Bytes → List Written → ℤ × Bytes
writen_loop count buf sent [] = (pos count, sent ++ buf)
writen_loop count buf sent (wrote k ∷ ws) =
    let more = writen_loop count (drop k buf) (sent ++ take k buf) ws in
    if length buf == 0 then (pos count, sent) else more
writen_loop count buf sent (write_failed eintr ∷ ws) =
    let retry = writen_loop count buf sent ws in
    if length buf == 0 then (pos count, sent) else retry
writen_loop count buf sent (write_failed _ ∷ ws) =
    if length buf == 0 then (pos count, sent) else (minus_one, sent)

pub writen : Bytes → List Written → ℤ × Bytes
writen buf ws = writen_loop (length buf) buf [] ws

-- The answers of `select`; one that has nothing more to report runs into its timeout.
pub data Selected : Type 0 where
  ready timed_out : Selected
  select_failed : Errno → Selected

-- What `readTimeout` and `writeTimeout` return: 0; -1 with ETIMEDOUT; -1 with another error.
pub data Wait : Type 0 where
  in_time late broken : Wait

pub select_loop : List Selected → Wait
select_loop [] = late
select_loop (ready ∷ ss) = in_time
select_loop (timed_out ∷ ss) = late
select_loop (select_failed eintr ∷ ss) = select_loop ss
select_loop (select_failed _ ∷ ss) = broken

unfoldable pub write_timeout : ℕ → List Selected → Wait
write_timeout zero ss = in_time
write_timeout (suc n) ss = select_loop ss

unfoldable pub read_timeout : ℕ → List Selected → Wait
read_timeout zero ss = in_time
read_timeout (suc n) ss = select_loop ss

-- The packet: four bytes of length, then the data.
unfoldable pub frame : Bytes → Bytes
frame d = be32 (length d) ++ d

abbrev below_count : ℤ × Bytes → ℕ → ℤ × Bytes
below_count (pos k, sent) n = if ltb k n then (pos k, sent) else (pos 0, sent)
below_count (negsuc k, sent) n = (negsuc k, sent)

-- `sendMsg` from the end of the wait on. `dataLen + 4` is an `int` that wraps around: where it is
-- negative, `malloc` has no memory to give.
pub send_data : Bytes → Bool → Wait → List Written → ℤ × Bytes
send_data d alloc in_time ws =
    if alloc && ltb (length d + 4) (2 ^ 31)
    then below_count (writen (frame d) ws) (length d + 4)
    else (malloc_error, [])
send_data d alloc late ws = (timeout_error, [])
send_data d alloc broken ws = (minus_one, [])

-- `sendMsg` of the `dataLen` bytes of a text: the code, and the bytes that have gone out. A null
-- pointer is `none`. `dataLen` is an `int`: a size from 2 ^ 31 on, and below 2 ^ 32, is negative.
pub send_msg : Option Bytes → ℕ → Bool → List Selected → List Written → ℤ × Bytes
send_msg none timeout alloc ss ws = (param_error, [])
send_msg (some d) timeout alloc ss ws =
    if (length d == 0) || leb (2 ^ 31) (length d)
    then (param_error, [])
    else send_data d alloc (write_timeout timeout ss) ws
