-- ===== src/Protocol/Wire/Carried.antt =====
-- A check and a revocation over the sockets against the same without them.
use secure_data_transmission.Base.{
  ◌+◌, IsInt, ℕ, ◌<◌, ◌^◌, ◌≡◌, ◌∙◌, refl, sym, ap, true, Option, none, some, [], ◌∷◌, ◌++◌, ◌>>=◌,
  length, drop, drop-length-append, append-nil, pos, ℤ, Bytes, bind-eq, arith, inl, inr,
}
use secure_data_transmission.Crypto.{OpenSsl}
use secure_data_transmission.Messages.{
  RoundTrips, Protobuf, RequestCodec, RespondCodec, request_encode, respond_encode, key_check,
  key_revoke, request_message, RespondInfo, RequestInfo,
}
use secure_data_transmission.Messages.Codecs.{request_decode-encode}
use secure_data_transmission.Mysql.{Mysql}
use secure_data_transmission.Socket.{Recv}
use secure_data_transmission.Socket.Sending.{send_msg-Sent, send_msg-taken}
use secure_data_transmission.Socket.ClientSocket.{client_recv_msg, client_send_msg}
use secure_data_transmission.Socket.ClientSocket.Sending.{client_recv_msg-send_msg}
use secure_data_transmission.Server.{
  key_revoke_request, answered, key_check_request, Inputs, Server, check_answer, revoke_answer,
  dispatch, handle_all, reply,
}
use secure_data_transmission.Server.Handling.{check_answer-Quiet, revoke_answer-Quiet}
use secure_data_transmission.Server.WorkThread.Whole.{work_thread, work_thread-frames}
use secure_data_transmission.Client.{Reply, Client, start_key_request, finish_check, finish_revoke}
use secure_data_transmission.Client.Replies.{start_key_request-Requested}
use secure_data_transmission.Protocol.{as_reply}
use secure_data_transmission.Protocol.Checking.{checking, revoking}
use secure_data_transmission.Protocol.Wire.{
  Net, IsReliable, client_sends, server_sends, all_sent, carried, checking_over_wire,
  revoking_over_wire,
}

client_sends-whole :
    (net : Net) (text : Bytes)
    → IsReliable net
    → 0 < length text
    → length text + 4 < 2 ^ 31
    → (client_sends net text).0 ≡ pos 0
unfolding client_send_msg
client_sends-whole net text rel h small =
    ap (λ x. x.0)
      (send_msg-taken text net.timeout net.client_writable net.client_writes h small rel.client_can
        rel.client_taken)

server_sends-whole :
    (net : Net) (text : Bytes)
    → IsReliable net
    → 0 < length text
    → length text + 4 < 2 ^ 31
    → (server_sends net text).0 ≡ pos 0
server_sends-whole net text rel h small =
    ap (λ x. x.0)
      (send_msg-taken text net.timeout net.server_writable net.server_writes h small rel.server_can
        rel.server_taken)

some_twice :
    {A B C : Type 0} (f : Option A) (g : A → B) (h : B → C)
    → ((f >>= λ y. some (g y)) >>= λ z. some (h z)) ≡ (f >>= λ y. some (h (g y)))
some_twice none g h = refl
some_twice (some a) g h = refl

module _ (o : OpenSsl) (p : Protobuf) (m : Mysql) where
  -- The worker gets the client's request, and handles it alone.
  worker_handles :
      (net : Net) (s t : Server m) (inp : ℕ → Inputs) (fd : ℕ) (req : RequestInfo)
      → IsReliable net
      → RoundTrips p
      → IsInt req.key_id
      → length (request_encode p (RequestCodec.encoding req)) + 4 < 2 ^ 31
      → (client_sends net (request_encode p (RequestCodec.encoding req))).0 ≡ pos 0
      → dispatch o p m (inp 0) (request_message req) fd s ≡ some t
      → work_thread o p m 2 inp fd
          (net.to_server (client_sends net (request_encode p (RequestCodec.encoding req))).1)
          s
        ≡ some t
  unfolding client_send_msg handle_all
  worker_handles net s t inp fd req rel back int small ok h =
      let text = request_encode p (RequestCodec.encoding req) in
      elim (send_msg-Sent text net.timeout true net.client_writable net.client_writes).0 [
        | inr bad ↦ absurd (bad ok)
        | inl whole ↦
            work_thread-frames o p m 2 fd inp (text ∷ []) _ s (omega (arith, small), _)
              (omega arith) (rel.to_server_smooth _)
              (rel.to_server_bytes _ ∙ ap (λ x. x.1) whole ∙ sym (append-nil _))
            ∙ bind-eq _ (request_decode-encode p back req int) (bind-eq _ h refl)
      ]

  -- The client gets the worker's answer.
  client_gets :
      (net : Net) (s t : Server m) (fd : ℕ) (info : RespondInfo)
      → IsReliable net
      → t.outbox ≡ s.outbox
      → length (respond_encode p (RespondCodec.encoding info)) + 4 < 2 ^ 31
      → (server_sends net (respond_encode p (RespondCodec.encoding info))).0 ≡ pos 0
      → (r : Recv) × (client_recv_msg net.timeout true net.client_readable
            (net.to_client (all_sent net (drop (length s.outbox) (reply o p m fd info t).outbox)))
          ≡ some r)
        × (r.stored ≡ as_reply (respond_encode p (RespondCodec.encoding info)))
  unfolding reply
  client_gets net s t fd info rel quiet small ok =
      let text = respond_encode p (RespondCodec.encoding info) in
      let new : drop (length s.outbox) (t.outbox ++ (fd, text) ∷ []) ≡ (fd, text) ∷ [] =
        ap (λ l. drop (length s.outbox) (l ++ (fd, text) ∷ [])) quiet
        ∙ drop-length-append s.outbox ((fd, text) ∷ []) in
      let (r, q, w) =
        client_recv_msg-send_msg text [] net.timeout net.timeout true net.server_writable
          net.client_readable net.server_writes
          (net.to_client (all_sent net (drop (length s.outbox) (t.outbox ++ (fd, text) ∷ [])))) []
          (omega (arith, small)) ok rel.arrives (rel.to_client_smooth _)
          (rel.to_client_bytes _ ∙ ap (all_sent net) new) in
      (
        r,
        ap (client_recv_msg net.timeout true net.client_readable) (sym (append-nil _)) ∙ q,
        w.data_stored,
      )

  -- One exchange over the sockets comes to what the handler and the client's end come to.
  carried-handler :
      (net : Net) (finish : Reply → Client → Option (ℤ × Client)) (c c₁ : Client) (s t : Server m)
      (inp : ℕ → Inputs) (fd : ℕ) (req : RequestInfo) (info : RespondInfo)
      → IsReliable net
      → RoundTrips p
      → IsInt req.key_id
      → length (request_encode p (RequestCodec.encoding req)) + 4 < 2 ^ 31
      → (client_sends net (request_encode p (RequestCodec.encoding req))).0 ≡ pos 0
      → length (respond_encode p (RespondCodec.encoding info)) + 4 < 2 ^ 31
      → (server_sends net (respond_encode p (RespondCodec.encoding info))).0 ≡ pos 0
      → dispatch o p m (inp 0) (request_message req) fd s ≡ some (reply o p m fd info t)
      → t.outbox ≡ s.outbox
      → carried o p m net finish c s inp fd (some (req, c₁)) ≡ (do
        (ret, c₂) ← finish (as_reply (respond_encode p (RespondCodec.encoding info))) c₁
        some (ret, c₂, reply o p m fd info t))
  carried-handler net finish c c₁ s t inp fd req info rel back int small ok small' ok' h quiet =
      let (r, got, stored) = client_gets net s t fd info rel quiet small' ok' in
      bind-eq _ (worker_handles net s (reply o p m fd info t) inp fd req rel back int small ok h) (
        bind-eq _ got
          (ap (λ x. finish x c₁ >>= λ y. some (y.0, y.1, reply o p m fd info t)) stored))

  -- A check over the sockets comes to what it comes to without them, and its answer is handed to
  -- `sendMsg` of its connection: for a request that the client has made and an answer that the handler
  -- has made, while the network delivers what was sent, in whatever pieces, `malloc` finds memory,
  -- Protocol Buffers reads back what it has written, and both messages are not empty and of less than
  -- 2 ^ 31 - 4 bytes.
  pub checking_over_wire-checking :
      (net : Net) (c c₁ : Client) (s t : Server m) (inp : ℕ → Inputs) (fd : ℕ) (req : RequestInfo)
      (info : RespondInfo)
      → IsReliable net
      → RoundTrips p
      → start_key_request o p key_check true c ≡ some (some (req, c₁))
      → IsInt req.key_id
      → check_answer o p m (inp 0) (request_message req) s ≡ some (info, t)
      → length (request_encode p (RequestCodec.encoding req)) + 4 < 2 ^ 31
      → 0 < length (request_encode p (RequestCodec.encoding req))
      → length (respond_encode p (RespondCodec.encoding info)) + 4 < 2 ^ 31
      → 0 < length (respond_encode p (RespondCodec.encoding info))
      → checking_over_wire o p m net c s inp fd ≡ (do
        (ret, c₂, s₂) ← checking o p m c s (inp 0) true
        some (ret, c₂, reply o p m fd info s₂))
  unfolding checking_over_wire checking dispatch key_check_request answered request_message
  checking_over_wire-checking net c c₁ s t inp fd req info rel back e int a small some_text small'
        some_answer =
      let text = respond_encode p (RespondCodec.encoding info) in
      let ok =
        client_sends-whole net (request_encode p (RequestCodec.encoding req)) rel some_text small in
      let ok' = server_sends-whole net text rel some_answer small' in
      let kind : req.kind ≡ key_check =
        (start_key_request-Requested o p key_check true c c₁ req e).kind_is in
      let handled : dispatch o p m (inp 0) (request_message req) fd s
          ≡ some (reply o p m fd info t) =
        ground (arith, kind, a) in
      let direct : checking o p m c s (inp 0) true
          ≡ (finish_check o p (as_reply text) c₁ >>= λ (y : ℤ × Client). some (y.0, y.1, t)) =
        bind-eq _ e (bind-eq _ (request_decode-encode p back req int) (bind-eq _ a refl)) in
      bind-eq _ e (
        carried-handler net (finish_check o p) c c₁ s t inp fd req info rel back int small ok small'
          ok' handled (check_answer-Quiet o p m (inp 0) (request_message req) s t info a).0)
      ∙ sym (
          ap (λ f. f >>= λ (y : ℤ × Client × Server m). some (y.0, y.1, reply o p m fd info y.2))
            direct
          ∙ some_twice (finish_check o p (as_reply text) c₁) (λ y. (y.0, y.1, t))
              (λ y. (y.0, y.1, reply o p m fd info y.2)))

  -- A revocation over the sockets comes to what it comes to without them, under the conditions of the
  -- check: a network that delivers what was sent, memory for `malloc`, and messages that are not empty
  -- and of less than 2 ^ 31 - 4 bytes.
  pub revoking_over_wire-revoking :
      (net : Net) (c c₁ : Client) (s t : Server m) (inp : ℕ → Inputs) (fd : ℕ) (req : RequestInfo)
      (info : RespondInfo)
      → IsReliable net
      → RoundTrips p
      → start_key_request o p key_revoke true c ≡ some (some (req, c₁))
      → IsInt req.key_id
      → revoke_answer o p m (inp 0) (request_message req) s ≡ some (info, t)
      → length (request_encode p (RequestCodec.encoding req)) + 4 < 2 ^ 31
      → 0 < length (request_encode p (RequestCodec.encoding req))
      → length (respond_encode p (RespondCodec.encoding info)) + 4 < 2 ^ 31
      → 0 < length (respond_encode p (RespondCodec.encoding info))
      → revoking_over_wire o p m net c s inp fd ≡ (do
        (ret, c₂, s₂) ← revoking o p m c s (inp 0) true
        some (ret, c₂, reply o p m fd info s₂))
  unfolding revoking_over_wire revoking dispatch key_revoke_request answered request_message
  revoking_over_wire-revoking net c c₁ s t inp fd req info rel back e int a small some_text small'
        some_answer =
      let text = respond_encode p (RespondCodec.encoding info) in
      let ok =
        client_sends-whole net (request_encode p (RequestCodec.encoding req)) rel some_text small in
      let ok' = server_sends-whole net text rel some_answer small' in
      let kind : req.kind ≡ key_revoke =
        (start_key_request-Requested o p key_revoke true c c₁ req e).kind_is in
      let handled : dispatch o p m (inp 0) (request_message req) fd s
          ≡ some (reply o p m fd info t) =
        ground (arith, kind, a) in
      let direct : revoking o p m c s (inp 0) true
          ≡ (finish_revoke o p (as_reply text) c₁ >>= λ (y : ℤ × Client). some (y.0, y.1, t)) =
        bind-eq _ e (bind-eq _ (request_decode-encode p back req int) (bind-eq _ a refl)) in
      bind-eq _ e (
        carried-handler net (finish_revoke o p) c c₁ s t inp fd req info rel back int small ok
          small' ok' handled (revoke_answer-Quiet o p m (inp 0) (request_message req) s t info a).0)
      ∙ sym (
          ap (λ f. f >>= λ (y : ℤ × Client × Server m). some (y.0, y.1, reply o p m fd info y.2))
            direct
          ∙ some_twice (finish_revoke o p (as_reply text) c₁) (λ y. (y.0, y.1, t))
              (λ y. (y.0, y.1, reply o p m fd info y.2)))
