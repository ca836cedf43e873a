-- ===== src/Protocol/Wire.antt =====
-- secKeyCheck and secKeyRevoke over the sockets: what the client sends travels as a frame to
-- `workThread` of the server, and what that hands to `sendMsg` travels back.
pub mod Carried
use secure_data_transmission.Base.{
  IsInt, ℕ, ◌<◌, ◌^◌, ◌≡◌, ◌∙◌, refl, sym, ap, subst, Bool, true, Option, none, some, List, [], ◌∷◌,
  ◌++◌, ◌>>=◌, length, drop, drop-length-append, append-nil, pos, ℤ, Bytes, bind-eq, arith,
  minus_one, inl, inr, Option-cases,
}
use secure_data_transmission.Crypto.{OpenSsl}
use secure_data_transmission.Messages.{
  RoundTrips, Protobuf, RequestCodec, RespondCodec, request_encode, request_decode, respond_encode,
  key_check, key_revoke, request_message, RespondInfo, RequestInfo, RequestMsg, MsgType,
}
use secure_data_transmission.Messages.Codecs.{request_decode-encode}
use secure_data_transmission.Mysql.{Mysql}
use secure_data_transmission.Socket.{
  write_timeout, Event, Selected, Written, Recv, in_time, send_msg,
}
use secure_data_transmission.Socket.Stream.{bytes, IsSmooth}
use secure_data_transmission.Socket.Sending.{AllTaken}
use secure_data_transmission.Socket.ClientSocket.{
  client_recv_msg, client_send_msg, client_read_timeout,
}
use secure_data_transmission.Socket.ClientSocket.Sending.{client_recv_msg-send_msg}
use secure_data_transmission.Server.{
  answered, key_check_request, Inputs, Server, check_answer, revoke_answer, dispatch, handle_all,
  reply,
}
use secure_data_transmission.Server.Handling.{check_answer-Quiet, revoke_answer-Quiet}
use secure_data_transmission.Server.WorkThread.Whole.{work_thread, work_thread-frames}
use secure_data_transmission.Client.{Reply, Client, start_key_request, finish_check, finish_revoke}
use secure_data_transmission.Client.Replies.{start_key_request-Requested}
use secure_data_transmission.Protocol.{as_reply}
use secure_data_transmission.Protocol.Checking.{checking, revoking}

-- The network and what the kernels answer: how the bytes of either direction arrive, and the scripts
-- of the calls of `select` and `write`.
pub record Net : Type 0 where
  pub to_server : Bytes → List Event
  pub to_client : Bytes → List Event
  pub timeout : ℕ
  pub client_writable : List Selected
  pub client_writes : List Written
  pub client_readable : List Selected
  pub server_writable : List Selected
  pub server_writes : List Written

-- TCP delivers what was sent; the waits end in time; and the kernels take what they are given.
pub record IsReliable (net : Net) : Type 0 where
  pub to_server_smooth : (b : Bytes) → IsSmooth (net.to_server b)
  pub to_server_bytes : (b : Bytes) → bytes (net.to_server b) ≡ b
  pub to_client_smooth : (b : Bytes) → IsSmooth (net.to_client b)
  pub to_client_bytes : (b : Bytes) → bytes (net.to_client b) ≡ b
  pub arrives : client_read_timeout net.timeout net.client_readable ≡ in_time
  pub client_can : write_timeout net.timeout net.client_writable ≡ in_time
  pub server_can : write_timeout net.timeout net.server_writable ≡ in_time
  pub client_taken : AllTaken net.client_writes
  pub server_taken : AllTaken net.server_writes

abbrev pub client_sends : Net → Bytes → ℤ × Bytes
client_sends net text =
    client_send_msg (some text) net.timeout true net.client_writable net.client_writes

abbrev pub server_sends : Net → Bytes → ℤ × Bytes
server_sends net text = send_msg (some text) net.timeout true net.server_writable net.server_writes

-- What the server's socket gives to the network of the texts that were handed to `sendMsg`.
abbrev pub all_sent : Net → List (ℕ × Bytes) → Bytes
all_sent net [] = []
all_sent net ((fd, text) ∷ texts) = (server_sends net text).1 ++ all_sent net texts

module _ (o : OpenSsl) (p : Protobuf) (m : Mysql) where
  -- The request, through the sockets and the worker of descriptor `fd`, and the client's end.
  abbrev pub carried :
      Net
      → (Reply → Client → Option (ℤ × Client))
      → Client
      → Server m
      → (ℕ → Inputs)
      → ℕ
      → Option (RequestInfo × Client)
      → Option (ℤ × Client × Server m)
  carried net finish c s inp fd none = some (minus_one, c, s)
  carried net finish c s inp fd (some (req, c₁)) = do
    let out = (client_sends net (request_encode p (RequestCodec.encoding req))).1
    s₁ ← work_thread o p m 2 inp fd (net.to_server out) s
    let back = all_sent net (drop (length s.outbox) s₁.outbox)
    r ← client_recv_msg net.timeout true net.client_readable (net.to_client back)
    (ret, c₂) ← finish r.stored c₁
    some (ret, c₂, s₁)

  unfoldable pub checking_over_wire :
      Net → Client → Server m → (ℕ → Inputs) → ℕ → Option (ℤ × Client × Server m)
  checking_over_wire net c s inp fd = do
    sent ← start_key_request o p key_check true c
    carried net (finish_check o p) c s inp fd sent

  unfoldable pub revoking_over_wire :
      Net → Client → Server m → (ℕ → Inputs) → ℕ → Option (ℤ × Client × Server m)
  revoking_over_wire net c s inp fd = do
    sent ← start_key_request o p key_revoke true c
    carried net (finish_revoke o p) c s inp fd sent
