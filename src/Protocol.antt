-- ===== src/Protocol.antt =====
-- Client and server together: the key agreement of ClientOperation::secKeyAgree with the handlers
-- of ServerOperation, each message encoded by one side and decoded by the other.
pub mod Granting
pub mod Opening
pub mod Agreement
pub mod Showing
pub mod Checking
pub mod Revocation
pub mod Wire
mod Tests
mod RevocationTests
mod WireTests
use secure_data_transmission.Base.{
  Bool, ℕ, ◌≤◌, ◌≡◌, Option, none, some, List, [], ◌∷◌, ◌++◌, length, take, ℤ, Bytes, c_str, ◌>>=◌,
}
use secure_data_transmission.Crypto.{OpenSsl, t_sha256}
use secure_data_transmission.Messages.{
  Protobuf, RoundTrips, RespondMsg, pre_key, RequestInfo, RespondInfo, RequestCodec, RespondCodec,
  request_encode, request_decode, respond_encode,
}
use secure_data_transmission.Mysql.{Mysql}
use secure_data_transmission.Server.{Inputs, Server, random_num_answer, premaster_answer}
use secure_data_transmission.Client.{Client, Reply, agree_start, agree_premaster, agree_finish}

-- A message none of whose texts holds a NUL.
pub record NoNul (msg : RespondMsg) : Type 0 where
  pub client_text : c_str msg.client_id ≡ msg.client_id
  pub server_text : c_str msg.server_id ≡ msg.server_id
  pub sign_text : c_str msg.sign ≡ msg.sign
  pub code_text : c_str msg.auth_code ≡ msg.auth_code
  pub body_text : c_str msg.body ≡ msg.body

-- What the two libraries document, as far as the agreement rests on it. The client's key file is
-- the server's with a line feed behind it. The encoding of a message of type 1 holds no NUL but
-- those of its texts, since fields of value 0 are left out.
pub record Documented (o : OpenSsl) (p : Protobuf) : Type 0 where
  pub back : RoundTrips p
  pub decrypts :
      (text code : Bytes)
      → o.public_encrypt (o.public_pem ++ 10 ∷ []) text ≡ some code
      → o.private_decrypt (take o.key_len (o.from_base64 (o.to_base64 code))) ≡ some text
  pub long_enough :
      (text code : Bytes)
      → o.public_encrypt (o.public_pem ++ 10 ∷ []) text ≡ some code
      → o.key_len ≤ length (o.to_base64 code)
  pub mac_length : (key text mac : Bytes) → o.hmac t_sha256 key text ≡ some mac → length mac ≡ 32
  pub no_nul :
      (msg : RespondMsg)
      → msg.kind ≡ pre_key
      → NoNul msg
      → c_str (p.write_respond msg) ≡ p.write_respond msg

-- A text as `recvMsg` stores it.
abbrev pub as_reply : Bytes → Reply
as_reply text = some (some text, length text)

module _ (o : OpenSsl) (p : Protobuf) (m : Mysql) where
  -- One run: the client's state and the server's, the client's random text, its premaster and the
  -- value of its `keyId`; for each request its surroundings on the server; the descriptor; and
  -- whether the client's `shmat` succeeds. The result is `secKeyAgree`'s code and both states;
  -- `none` also where the client gives up after the first answer.
  unfoldable pub agreement :
      Client
      → Server m
      → Bytes
      → Bytes
      → ℤ
      → Inputs
      → Inputs
      → ℕ
      → Bool
      → Option (ℤ × Client × Server m)
  agreement c s random premaster uninitialised inp₁ inp₂ fd attached = do
    (first, c₁) ← agree_start o p random uninitialised c
    req₁ ← request_decode p (RequestCodec.decoding (request_encode p (RequestCodec.encoding first)))
    (info₁, s₁) ← random_num_answer o p m inp₁ req₁ fd s
    let reply₁ = as_reply (respond_encode p (RespondCodec.encoding info₁))
    sent ← agree_premaster o p first random premaster reply₁ c₁
    (second, node, c₂) ← sent
    req₂ ←
        request_decode p (RequestCodec.decoding (request_encode p (RequestCodec.encoding second)))
    (info₂, s₂) ← premaster_answer o p m inp₂ req₂ fd s₁
    let reply₂ = as_reply (respond_encode p (RespondCodec.encoding info₂))
    (ret, c₃) ← agree_finish o p attached node reply₁ reply₂ c₂
    some (ret, c₃, s₂)
