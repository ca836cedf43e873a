-- ===== src/Server.antt =====
-- server/src/ServerOperation.cpp: the handlers of the four requests. A handler is one step from a
-- server's state to the next; `none` is a run that leaves C++'s defined behaviour.
pub mod RandomNum
pub mod Filling
pub mod Premaster
pub mod Check
pub mod Revoke
pub mod Handling
pub mod Service
pub mod Provenance
pub mod WorkThread
pub mod Tests
pub mod KeyTests
pub mod ExchangeTests
mod ServiceTests
use secure_data_transmission.Base.{
  ℕ, ◌+◌, ◌*◌, ◌/◌, ◌%◌, ◌^◌, Bool, true, false, not, ◌&&◌, Option, none, some, List, [], ◌∷◌, ◌++◌,
  length, take, if◌then◌else◌, ◌==◌, ℤ, pos, minus_one, int_eq, Bytes, bytes_eq, strcpy, to_string,
  ◌>>=◌,
}
use secure_data_transmission.Shm.{Node, new_node, shm_write, update_statue}
use secure_data_transmission.Crypto.{
  OpenSsl, Hmac, t_sha256, new_hash, add_data, hash_result, auth, rsa_pri_key_decrypt,
}
use secure_data_transmission.Messages.{
  Protobuf, MsgType, random_num, pre_key, key_check, key_revoke, unknown_type, Rv, success,
  auth_err, server_err, RequestMsg, RespondInfo, new_respond, RespondCodec, RequestCodec,
  respond_encode, request_decode,
}
use secure_data_transmission.Mysql.{Mysql, KeyRow, query_sec_key, write_sec_key, updata_key_state}

-- The four bytes of an `int` on a little-endian machine, and an `int` at the start of a buffer.
unfoldable pub le32 : ℕ → Bytes
le32 n = (n % 256) ∷ (n / 2 ^ 8 % 256) ∷ (n / 2 ^ 16 % 256) ∷ (n / 2 ^ 24 % 256) ∷ []

-- What a request takes from its surroundings: the random text that `getRandString` makes, the
-- time for the database, and whether `shmat` succeeds.
pub record Inputs : Type 0 where
  pub random : Bytes
  pub time : Bytes
  pub attached : Bool

-- `randomNum[fd]`; a missing entry is a pair of empty texts.
unfoldable pub lookup : ℕ → List (ℕ × Bytes × Bytes) → Bytes × Bytes
lookup fd [] = ([], [])
lookup fd ((k, a, b) ∷ rest) = if k == fd then (a, b) else lookup fd rest

unfoldable pub erase : ℕ → List (ℕ × Bytes × Bytes) → List (ℕ × Bytes × Bytes)
erase fd [] = []
erase fd ((k, a, b) ∷ rest) = if k == fd then erase fd rest else (k, a, b) ∷ erase fd rest

-- `randomNum[fd] = pair`.
unfoldable pub assign : ℕ → Bytes → Bytes → List (ℕ × Bytes × Bytes) → List (ℕ × Bytes × Bytes)
unfolding erase
assign fd a b m = (fd, a, b) ∷ erase fd m

-- `outbox` holds what has been handed to `sendMsg`, oldest first, with its descriptor.
pub record Server (m : Mysql) : Type 0 where
  pub random_nums : List (ℕ × Bytes × Bytes)
  pub db : m.Db
  pub shm : List Node
  pub outbox : List (ℕ × Bytes)

-- The head of each handler.
unfoldable pub start_respond : MsgType → RequestMsg → Option RespondInfo
start_respond kind req =
    let info = new_respond kind in
    do
      client ← strcpy info.client_id req.client_id
      server ← strcpy info.server_id req.server_id
      some (record info { client_id = client; server_id = server })

-- The node that the handlers fill from a request and the two keys.
unfoldable pub fill_node : RequestMsg → Bytes → Bytes → Option Node
fill_node req auth_key ende_key = do
  client ← strcpy new_node.client_id req.client_id
  server ← strcpy new_node.server_id req.server_id
  a ← strcpy new_node.auth_key auth_key
  e ← strcpy new_node.ende_key ende_key
  some (record new_node { client_id = client; server_id = server; auth_key = a; ende_key = e })

-- The two shared keys, from the random texts of client and server and the premaster.
unfoldable pub ende_key_of : Bytes → Bytes → Bytes → Bytes
ende_key_of client server premaster = (client ++ take 4 server) ++ premaster

unfoldable pub auth_key_of : Bytes → Bytes → Bytes → Bytes
auth_key_of client server premaster = (take 4 client ++ server) ++ premaster

module _ (o : OpenSsl) (p : Protobuf) (m : Mysql) where
  -- The authentication code of a request's data under a key: SHA-256, then HMAC.
  unfoldable pub auth_code_of : Bytes → Bytes → Bytes
  auth_code_of key body =
      auth o (record { key = key; algorithm = t_sha256 })
        (hash_result o (add_data (new_hash t_sha256) body))

  -- The tail of each handler: serialise the answer and hand it to `sendMsg`.
  unfoldable pub reply : ℕ → RespondInfo → Server m → Server m
  reply fd info s = record s {
    outbox = s.outbox ++ (fd, respond_encode p (RespondCodec.encoding info)) ∷ [];
  }

  -- A handler: the answer, and its way out.
  unfoldable pub answered : ℕ → Option (RespondInfo × Server m) → Option (Server m)
  answered fd none = none
  answered fd (some (info, t)) = some (reply fd info t)

  -- `clientRandomNum` up to the answer.
  unfoldable pub random_num_answer :
      Inputs → RequestMsg → ℕ → Server m → Option (RespondInfo × Server m)
  unfolding start_respond assign
  random_num_answer inp req fd s = do
    info ← start_respond random_num req
    let body =
        (le32 (length inp.random) ++ inp.random) ++ (le32 (length o.public_pem) ++ o.public_pem)
    let kept = record s { random_nums = assign fd req.body inp.random s.random_nums }
    some (record info { rv = success; body = body }, kept)

  unfoldable pub client_random_num : Inputs → RequestMsg → ℕ → Server m → Option (Server m)
  client_random_num inp req fd s = answered fd (random_num_answer inp req fd s)

  -- Step 4 of `clientPremaster` once the database has answered: the shared memory.
  finish_premaster :
      Inputs → Node → RespondInfo → Server m → Bool × ℤ × m.Db → RespondInfo × Server m
  finish_premaster inp node info s (false, keyid, db) =
      (record info { rv = server_err }, record s { db = db })
  finish_premaster inp node info s (true, keyid, db) =
      let (ret, shm) =
        shm_write inp.attached (record node { seckey_id = keyid; status = pos 1 }) s.shm in
      let rv = if int_eq ret minus_one then server_err else success in
      (record info { body = to_string keyid; rv = rv }, record s { db = db; shm = shm })

  store_premaster :
      Inputs → RequestMsg → Bytes → Bytes → RespondInfo → Server m → Option (RespondInfo × Server m)
  unfolding finish_premaster
  store_premaster inp req auth_key ende_key info s = do
    node ← fill_node req auth_key ende_key
    written ← write_sec_key m node inp.time minus_one s.db
    some (finish_premaster inp node info s written)

  -- `clientPremaster` up to the answer.
  unfoldable pub premaster_answer :
      Inputs → RequestMsg → ℕ → Server m → Option (RespondInfo × Server m)
  unfolding start_respond fill_node store_premaster lookup erase
  premaster_answer inp req fd s = do
    info ← start_respond pre_key req
    premaster ← rsa_pri_key_decrypt o req.body
    let (client, server) = lookup fd s.random_nums
    let t = record s { random_nums = erase fd s.random_nums }
    let ende_key = ende_key_of client server premaster
    let auth_key = auth_key_of client server premaster
    let stored = store_premaster inp req auth_key ende_key info t
    if bytes_eq (auth_code_of auth_key req.body) req.auth_code
        then stored
        else some (record info { rv = auth_err }, t)

  unfoldable pub client_premaster : Inputs → RequestMsg → ℕ → Server m → Option (Server m)
  client_premaster inp req fd s = answered fd (premaster_answer inp req fd s)

  -- Steps 2 to 4 of `keyCheck` and of `keyRevoke`: decryption, authentication code, keys.
  pub matches_row : RequestMsg → KeyRow → Option Bool
  matches_row req (client, state, auth_key, ende_key) = do
    text ← rsa_pri_key_decrypt o req.body
    some (
        bytes_eq (auth_code_of auth_key req.body) req.auth_code
        && bytes_eq text (auth_key ++ ende_key))

  -- Steps 1 to 4: the row, where there is a live one that the request matches.
  pub match_key : RequestMsg → m.Db → Option (Option KeyRow × m.Db)
  unfolding matches_row
  match_key req db = do
    (found, row, db') ← query_sec_key m req.keyid db
    ok ← if found && row.1 then matches_row req row else some false
    some (if ok then some row else none, db')

  -- Step 5 of `keyCheck`: the key goes to the shared memory.
  store_key :
      Inputs → RequestMsg → KeyRow → RespondInfo → Server m → Option (RespondInfo × Server m)
  store_key inp req row info s = do
    node ← fill_node req row.2 row.3
    let (ret, shm) =
        shm_write inp.attached (record node { seckey_id = req.keyid; status = pos 1 }) s.shm
    some (
      record info { rv = if int_eq ret minus_one then server_err else success },
      record s { shm = shm },
    )

  check_matched :
      Inputs → RequestMsg → RespondInfo → Server m → Option KeyRow → Option (RespondInfo × Server m)
  unfolding store_key fill_node
  check_matched inp req info s none = some (record info { rv = auth_err }, s)
  check_matched inp req info s (some row) = store_key inp req row info s

  -- `keyCheck` up to the answer.
  unfoldable pub check_answer : Inputs → RequestMsg → Server m → Option (RespondInfo × Server m)
  unfolding start_respond match_key check_matched
  check_answer inp req s = do
    info ← start_respond key_check req
    (row, db) ← match_key req s.db
    check_matched inp req info (record s { db = db }) row

  unfoldable pub key_check_request : Inputs → RequestMsg → ℕ → Server m → Option (Server m)
  key_check_request inp req fd s = answered fd (check_answer inp req s)

  -- Steps 5 and 6 of `keyRevoke`. That no node has the key id is only reported.
  revoke_matched :
      Inputs → RequestMsg → RespondInfo → Server m → Option KeyRow → Option (RespondInfo × Server m)
  revoke_matched inp req info s none = some (record info { rv = auth_err }, s)
  revoke_matched inp req info s (some row) =
      let (ret, shm) = update_statue inp.attached req.keyid (pos 0) s.shm in
      let t = record s { shm = shm } in
      if not (int_eq ret minus_one) && not (int_eq ret (pos 1))
      then some (record info { rv = server_err }, t)
      else do
        (done, db) ← updata_key_state m req.keyid (pos 0) t.db
        some (record info { rv = if done then success else server_err }, record t { db = db })

  -- `keyRevoke` up to the answer.
  unfoldable pub revoke_answer : Inputs → RequestMsg → Server m → Option (RespondInfo × Server m)
  unfolding start_respond match_key revoke_matched
  revoke_answer inp req s = do
    info ← start_respond key_revoke req
    (row, db) ← match_key req s.db
    revoke_matched inp req info (record s { db = db }) row

  unfoldable pub key_revoke_request : Inputs → RequestMsg → ℕ → Server m → Option (Server m)
  key_revoke_request inp req fd s = answered fd (revoke_answer inp req s)

  -- The switch on the type in `workThread`.
  unfoldable pub dispatch : Inputs → RequestMsg → ℕ → Server m → Option (Server m)
  dispatch inp req fd s = elim req.kind [
    | random_num ↦ client_random_num inp req fd s
    | pre_key ↦ client_premaster inp req fd s
    | key_check ↦ key_check_request inp req fd s
    | key_revoke ↦ key_revoke_request inp req fd s
    | unknown_type n ↦ some s
  ]

  -- The second loop of `workThread`: decode each message and handle it. A message that does not
  -- parse gives a null pointer, whose type is then asked for.
  unfoldable pub handle_all : (ℕ → Inputs) → ℕ → ℕ → List Bytes → Server m → Option (Server m)
  handle_all inp i fd [] s = some s
  handle_all inp i fd (msg ∷ msgs) s = do
    req ← request_decode p (RequestCodec.decoding msg)
    t ← dispatch (inp i) req fd s
    handle_all inp (i + 1) fd msgs t
