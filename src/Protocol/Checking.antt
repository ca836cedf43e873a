-- ===== src/Protocol/Checking.antt =====
-- Client and server together, once they share a key: secKeyCheck with keyCheck, and secKeyRevoke with
-- keyRevoke, each message encoded by one side and decoded by the other.
use secure_data_transmission.Base.{
  IsInt, ◌≡◌, refl, Bool, true, Option, none, some, ◌>>=◌, pos, ℤ, bind-eq, arith, minus_one,
}
use secure_data_transmission.Crypto.{OpenSsl}
use secure_data_transmission.Messages.{
  RoundTrips, Protobuf, RequestCodec, RespondCodec, request_encode, request_decode, respond_encode,
  key_check, key_revoke, success, request_message, respond_message, RespondInfo, RequestInfo,
  RequestMsg,
}
use secure_data_transmission.Messages.Codecs.{request_decode-encode, respond_decode-encode}
use secure_data_transmission.Mysql.{Mysql}
use secure_data_transmission.Server.{Inputs, Server, check_answer, revoke_answer}
use secure_data_transmission.Client.{
  Reply, Client, start_key_request, finish_check, finish_revoke, received,
}
use secure_data_transmission.Protocol.{as_reply}

module _ (o : OpenSsl) (p : Protobuf) (m : Mysql) where
  -- A request that the client has made, through the server's handler and the client's end. A client
  -- without a live key returns -1 and sends nothing.
  abbrev handled_by :
      Client
      → Server m
      → (RequestMsg → Server m → Option (RespondInfo × Server m))
      → (Reply → Client → Option (ℤ × Client))
      → Option (RequestInfo × Client)
      → Option (ℤ × Client × Server m)
  handled_by c s handler finish none = some (minus_one, c, s)
  handled_by c s handler finish (some (req, c₁)) = do
    msg ← request_decode p (RequestCodec.decoding (request_encode p (RequestCodec.encoding req)))
    (info, s₁) ← handler msg s
    (ret, c₂) ← finish (as_reply (respond_encode p (RespondCodec.encoding info))) c₁
    some (ret, c₂, s₁)

  -- One run of secKeyCheck: its code and both states.
  unfoldable pub checking : Client → Server m → Inputs → Bool → Option (ℤ × Client × Server m)
  checking c s inp attached = do
    sent ← start_key_request o p key_check attached c
    elim sent [
      | none ↦ some (minus_one, c, s)
      | some (req, c₁) ↦ do
        msg ←
            request_decode p (RequestCodec.decoding (request_encode p (RequestCodec.encoding req)))
        (info, s₁) ← check_answer o p m inp msg s
        (ret, c₂) ← finish_check o p (as_reply (respond_encode p (RespondCodec.encoding info))) c₁
        some (ret, c₂, s₁)
    ]

  -- One run of secKeyRevoke.
  unfoldable pub revoking : Client → Server m → Inputs → Bool → Option (ℤ × Client × Server m)
  revoking c s inp attached = do
    sent ← start_key_request o p key_revoke attached c
    elim sent [
      | none ↦ some (minus_one, c, s)
      | some (req, c₁) ↦ do
        msg ←
            request_decode p (RequestCodec.decoding (request_encode p (RequestCodec.encoding req)))
        (info, s₁) ← revoke_answer o p m inp msg s
        (ret, c₂) ← finish_revoke o p (as_reply (respond_encode p (RespondCodec.encoding info))) c₁
        some (ret, c₂, s₁)
    ]

  -- A request that passes: its answer says SUCCESS, and the client returns 0.
  pub checking-passes :
      (c c' : Client) (s s' : Server m) (inp : Inputs) (req : RequestInfo) (info : RespondInfo)
      → RoundTrips p
      → IsInt req.key_id
      → start_key_request o p key_check true c ≡ some (some (req, c'))
      → check_answer o p m inp (request_message req) s ≡ some (info, s')
      → info.rv ≡ success
      → checking c s inp true ≡ some (pos 0, c', s')
  unfolding checking finish_check received respond_message
  checking-passes c c' s s' inp req info back int e a ok = bind-eq _ e (
      bind-eq _ (request_decode-encode p back req int) (
        bind-eq _ a
          (bind-eq _ (bind-eq _ (respond_decode-encode p back info) (ground (arith, ok))) refl)))

  pub revoking-passes :
      (c c' : Client) (s s' : Server m) (inp : Inputs) (req : RequestInfo) (info : RespondInfo)
      → RoundTrips p
      → IsInt req.key_id
      → start_key_request o p key_revoke true c ≡ some (some (req, c'))
      → revoke_answer o p m inp (request_message req) s ≡ some (info, s')
      → info.kind ≡ key_revoke
      → info.rv ≡ success
      → revoking c s inp true ≡ some (pos 0, c', s')
  unfolding revoking finish_revoke received respond_message
  revoking-passes c c' s s' inp req info back int e a kind ok = bind-eq _ e (
      bind-eq _ (request_decode-encode p back req int) (
        bind-eq _ a (
          bind-eq _ (bind-eq _ (respond_decode-encode p back info) (ground (arith, kind, ok)))
            refl)))
