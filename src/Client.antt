-- ===== src/Client.antt =====
-- client/src/ClientOperation.cpp: key agreement, check and revocation. `none` is a run that leaves
-- C++'s defined behaviour. What `recvMsg` stored is an argument of the step that reads it.
pub mod Layout
pub mod Steps
pub mod SecondRequest
pub mod Replies
pub mod Unanswered
pub mod Tests
use secure_data_transmission.Base.{
  ℕ, ◌+◌, ◌-◌, ◌*◌, ◌^◌, Bool, true, false, not, ◌&&◌, Option, none, some, List, [], ◌∷◌, ◌++◌,
  length, take, drop, replicate, if◌then◌else◌, ltb, leb, ◌==◌, ℤ, pos, minus_one, int_eq, Bytes,
  c_str, strcpy, atoi, ◌>>=◌,
}
use secure_data_transmission.Shm.{Node, new_node, shm_write, shm_read}
use secure_data_transmission.Crypto.{
  OpenSsl, t_sha256, new_hash, add_data, hash_result, auth, rsa_public_key_encrypt,
}
use secure_data_transmission.Messages.{
  Protobuf, MsgType, random_num, pre_key, key_check, key_revoke, unknown_type, Rv, success,
  auth_err, server_err, unknown_rv, RequestInfo, RespondMsg, new_request, RequestCodec,
  RespondCodec, request_encode, respond_decode,
}

-- `m_info`'s ids, the shared memory, the public key that is loaded (none, before the first key
-- agreement: the pointer is then not initialised), and what has been handed to `sendMsg`.
pub record Client : Type 0 where
  pub client_id : Bytes
  pub server_id : Bytes
  pub shm : List Node
  pub loaded : Option Bytes
  pub outbox : List Bytes

-- What `recvMsg` stored to `inData` and `dataLen`, none where it failed.
abbrev pub Reply : Type 0
Reply = Option (Option Bytes × ℕ)

-- `string(inData, dataLen)`: both start as null and 0.
unfoldable pub received : Reply → Bytes
received none = []
received (some (none, n)) = []
received (some (some text, n)) = text

-- `*((int*) p)` on a little-endian machine.
unfoldable pub un_le32 : Bytes → ℕ
un_le32 (a ∷ b ∷ c ∷ d ∷ rest) = a + b * 2 ^ 8 + c * 2 ^ 16 + d * 2 ^ 24
un_le32 _ = 0

-- `char resdata[2048] = {0}` after the `memcpy`, `none` where it does not fit.
unfoldable pub res_data : Bytes → Option Bytes
res_data body =
    if leb (length body) 2048 then some (body ++ replicate (2048 - length body) 0) else none

-- An `int` and as many characters behind it, from `at` on: `none`, where they leave the buffer.
unfoldable pub counted_text : Bytes → ℕ → Option Bytes
counted_text buf at =
    let n = un_le32 (drop at buf) in
    if leb (at + 4 + n) (length buf) then some (take n (drop (at + 4) buf)) else none

-- The random text and the public key in the body of the first answer.
unfoldable pub parse_body : Bytes → Option (Bytes × Bytes)
unfolding res_data counted_text
parse_body body = do
  buf ← res_data body
  random ← counted_text buf 0
  key ← counted_text buf (4 + length random)
  some (random, key)

abbrev pub is_success : Rv → Bool
is_success success = true
is_success auth_err = false
is_success server_err = false
is_success (unknown_rv n) = false

abbrev is_revoke : MsgType → Bool
is_revoke key_revoke = true
is_revoke random_num = false
is_revoke pre_key = false
is_revoke key_check = false
is_revoke (unknown_type n) = false

-- Both ids of a request, copied into it.
pub copy_ids : Bytes → Bytes → RequestInfo → Option RequestInfo
copy_ids client server req = do
  c ← strcpy req.client_id client
  s ← strcpy req.server_id server
  some (record req { client_id = c; server_id = s })

-- The node after `shmRead`: as constructed, where nothing was copied out.
abbrev pub node_read : ℤ × Option Node → Node
node_read (ret, none) = new_node
node_read (ret, some n) = n

module _ (o : OpenSsl) (p : Protobuf) where
  -- The message authentication: SHA-256 of the data, HMAC of that under the key.
  unfoldable pub client_auth_code : Bytes → Bytes → Bytes
  client_auth_code key body =
      auth o (record { key = key; algorithm = t_sha256 })
        (hash_result o (add_data (new_hash t_sha256) body))

  unfoldable pub send : RequestInfo → Client → Client
  send req c = record c { outbox = c.outbox ++ request_encode p (RequestCodec.encoding req) ∷ [] }

  -- `secKeyAgree` up to the first `recvMsg`: the request and the state after it is sent.
  unfoldable pub agree_start : Bytes → ℤ → Client → Option (RequestInfo × Client)
  unfolding copy_ids send
  agree_start random uninitialised c = do
    req ← copy_ids c.client_id c.server_id (new_request random_num uninitialised)
    let first = record req { body = random }
    some (first, send first c)

  -- The node that is written once the key id is there.
  agree_node : Client → Bytes → Bytes → Option Node
  agree_node c auth_key ende_key = do
    client ← strcpy new_node.client_id c.client_id
    server ← strcpy new_node.server_id c.server_id
    a ← strcpy new_node.auth_key auth_key
    e ← strcpy new_node.ende_key ende_key
    some (record new_node {
      status = pos 1;
      client_id = client;
      server_id = server;
      auth_key = a;
      ende_key = e;
    })

  -- The second request: the premaster under the server's key, authenticated by the derived key.
  pub second_request :
      RequestInfo → Bytes → Bytes → Bytes → Bytes → Client → Option (RequestInfo × Node × Client)
  unfolding copy_ids agree_node send
  second_request first random server_random public_key premaster c = do
    req ← copy_ids c.client_id c.server_id (record first { kind = pre_key })
    let ende_key = (random ++ take 4 server_random) ++ premaster
    let auth_key = (take 4 random ++ server_random) ++ premaster
    let file = public_key ++ 10 ∷ []
    let body = rsa_public_key_encrypt o file premaster
    code ← strcpy req.auth_code (client_auth_code auth_key body)
    let second = record req { body = body; auth_code = code }
    node ← agree_node c auth_key ende_key
    some (second, node, send second (record c { loaded = some file }))

  after_first :
      RequestInfo
      → Bytes
      → Bytes
      → Client
      → Bool
      → Bytes
      → Option (Option (RequestInfo × Node × Client))
  unfolding second_request
  after_first first random premaster c false body = some none
  after_first first random premaster c true body = do
    (server_random, public_key) ← parse_body body
    sent ← second_request first random server_random public_key premaster c
    some (some sent)

  -- `secKeyAgree` from the first answer to the second request; the inner `none` is its `return -1`.
  -- A null message is read through.
  unfoldable pub agree_premaster :
      RequestInfo → Bytes → Bytes → Reply → Client → Option (Option (RequestInfo × Node × Client))
  unfolding after_first
  agree_premaster first random premaster reply c = do
    msg ← respond_decode p (RespondCodec.decoding (received reply))
    after_first first random premaster c (is_success msg.rv) msg.body

  -- `string(inData)` for the second answer: it ends at the first NUL, and where nothing was
  -- received the first answer still stands in `inData`.
  unfoldable pub second_text : Reply → Reply → Option Bytes
  second_text first none = elim first [
    | none ↦ none
    | some (none, n) ↦ none
    | some (some text, n) ↦ some (c_str text)
  ]
  second_text first (some (none, n)) = none
  second_text first (some (some text, n)) = some (c_str text)

  -- `secKeyAgree` from the second answer on. What `shmWrite` returns is not looked at.
  unfoldable pub agree_finish : Bool → Node → Reply → Reply → Client → Option (ℤ × Client)
  unfolding second_text
  agree_finish attached node reply₁ reply₂ c = do
    text ← second_text reply₁ reply₂
    msg ← respond_decode p (RespondCodec.decoding text)
    let new = record node { seckey_id = atoi msg.body }
    let (ret, shm) = shm_write attached new c.shm
    some (if is_success msg.rv then (pos 0, record c { shm = shm }) else (minus_one, c))

  -- `secKeyAgree` with the answers that it receives: its return code.
  unfoldable pub sec_key_agree :
      Bool → Bytes → Bytes → ℤ → Reply → Reply → Client → Option (ℤ × Client)
  sec_key_agree attached random premaster uninitialised reply₁ reply₂ c = do
    (first, c₁) ← agree_start random uninitialised c
    sent ← agree_premaster first random premaster reply₁ c₁
    elim sent [
      | none ↦ some (minus_one, c₁)
      | some (second, node, c₂) ↦ agree_finish attached node reply₁ reply₂ c₂
    ]

  -- The request of `secKeyCheck` and `secKeyRevoke`, from the node that was read.
  unfoldable pub key_request : MsgType → Node → Client → Option (RequestInfo × Client)
  unfolding copy_ids send
  key_request kind node c = do
    req ← copy_ids node.client_id node.server_id (new_request kind node.seckey_id)
    pem ← c.loaded
    let body = rsa_public_key_encrypt o pem (c_str node.auth_key ++ c_str node.ende_key)
    code ← strcpy req.auth_code (client_auth_code (c_str node.auth_key) body)
    let filled = record req { body = body; auth_code = code }
    some (filled, send filled c)

  -- `secKeyCheck` and `secKeyRevoke` up to `recvMsg`; the inner `none` is the `return -1` of a node
  -- that is not live.
  unfoldable pub start_key_request :
      MsgType → Bool → Client → Option (Option (RequestInfo × Client))
  unfolding key_request
  start_key_request kind attached c =
      let node = node_read (shm_read attached c.client_id c.server_id c.shm) in
      let sent = key_request kind node c >>= λ r. some (some r) in
      if int_eq node.status (pos 1) then sent else some none

  -- The end of `secKeyCheck`: the type of the answer is only reported.
  unfoldable pub finish_check : Reply → Client → Option (ℤ × Client)
  finish_check reply c = do
    msg ← respond_decode p (RespondCodec.decoding (received reply))
    some (if is_success msg.rv then pos 0 else minus_one, c)

  -- The end of `secKeyRevoke`.
  unfoldable pub finish_revoke : Reply → Client → Option (ℤ × Client)
  finish_revoke reply c = do
    msg ← respond_decode p (RespondCodec.decoding (received reply))
    some (if is_revoke msg.kind && is_success msg.rv then pos 0 else minus_one, c)

  abbrev or_refused :
      Option (RequestInfo × Client) → (Client → Option (ℤ × Client)) → Client → Option (ℤ × Client)
  or_refused none finish c = some (minus_one, c)
  or_refused (some (req, c')) finish c = finish c'

  unfoldable pub sec_key_check : Bool → Reply → Client → Option (ℤ × Client)
  sec_key_check attached reply c = do
    sent ← start_key_request key_check attached c
    or_refused sent (finish_check reply) c

  unfoldable pub sec_key_revoke : Bool → Reply → Client → Option (ℤ × Client)
  sec_key_revoke attached reply c = do
    sent ← start_key_request key_revoke attached c
    or_refused sent (finish_revoke reply) c
