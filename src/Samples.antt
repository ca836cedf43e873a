-- ===== src/Samples.antt =====
-- Sample libraries, with which the tests run the code: an OpenSSL, a Protocol Buffers and a MySQL
-- small enough to compute with, that keep what the development takes of the real ones.
pub mod Documents
use secure_data_transmission.Base.{
  ◌&&◌, ◌==◌, ℕ, zero, suc, ◌+◌, ◌-◌, Bool, true, false, Option, none, some, List, [], ◌∷◌, ◌++◌,
  length, take, drop, replicate, if◌then◌else◌, ltb, ℤ, pos, negsuc, Bytes, codes, ◌>>=◌,
}
use secure_data_transmission.Crypto.{OpenSsl, HashType, digest_length}
use secure_data_transmission.Messages.{
  MsgType, random_num, pre_key, key_check, key_revoke, unknown_type, Rv, success, auth_err,
  server_err, unknown_rv, RequestMsg, RespondMsg, Protobuf, empty_request, empty_respond,
}
use secure_data_transmission.Mysql.{Mysql}

-- A cipher of 64 bytes: the length, the text and zeros.
unfoldable pub sample_encrypt : Bytes → Option Bytes
sample_encrypt text =
    if ltb (length text) 64
    then some (length text ∷ (text ++ replicate (63 - length text) 0))
    else none

unfoldable pub sample_decrypt : Bytes → Option Bytes
sample_decrypt [] = none
sample_decrypt (n ∷ rest) = some (take n rest)

-- Digests and codes know the lengths of their arguments.
abbrev pub sample_ssl : OpenSsl
sample_ssl = record {
  digest = λ t text. replicate (digest_length t) (length text);
  hmac = λ t key text. some (replicate (digest_length t) (length key + length text));
  public_encrypt = λ pem text. sample_encrypt text;
  private_decrypt = sample_decrypt;
  key_len = 64;
  to_base64 = λ text. text;
  from_base64 = λ text. text;
  object_bytes = λ text. replicate 32 0;
  public_pem = codes "PEM";
}

-- A text behind its length, counted from 1.
unfoldable pub put_text : Bytes → Bytes → Bytes
put_text t rest = suc (length t) ∷ (t ++ rest)

unfoldable pub get_text : Bytes → Option (Bytes × Bytes)
get_text [] = none
get_text (zero ∷ bs) = none
get_text (suc n ∷ bs) = some (take n bs, drop n bs)

abbrev pub put_type : MsgType → ℕ
put_type random_num = 1
put_type pre_key = 2
put_type key_check = 3
put_type key_revoke = 4
put_type (unknown_type n) = suc (suc (suc (suc (suc n))))

abbrev pub get_type : ℕ → MsgType
get_type zero = random_num
get_type (suc zero) = random_num
get_type (suc (suc zero)) = pre_key
get_type (suc (suc (suc zero))) = key_check
get_type (suc (suc (suc (suc zero)))) = key_revoke
get_type (suc (suc (suc (suc (suc n))))) = unknown_type n

abbrev pub put_rv : Rv → ℕ
put_rv success = 1
put_rv auth_err = 2
put_rv server_err = 3
put_rv (unknown_rv n) = suc (suc (suc (suc n)))

abbrev pub get_rv : ℕ → Rv
get_rv zero = success
get_rv (suc zero) = success
get_rv (suc (suc zero)) = auth_err
get_rv (suc (suc (suc zero))) = server_err
get_rv (suc (suc (suc (suc n)))) = unknown_rv n

abbrev pub put_int : ℤ → Bytes
put_int (pos n) = 1 ∷ suc n ∷ []
put_int (negsuc n) = 2 ∷ suc n ∷ []

abbrev pub get_int : Bytes → ℤ
get_int (suc zero ∷ suc n ∷ rest) = pos n
get_int (suc (suc zero) ∷ suc n ∷ rest) = negsuc n
get_int _ = pos 0

unfoldable pub write_request : RequestMsg → Bytes
write_request msg =
    put_type msg.kind
    ∷ put_text msg.client_id (
        put_text msg.auth_code
          (put_text msg.server_id (put_text msg.sign (put_text msg.body (put_int msg.keyid)))))

unfoldable pub parse_request : Bytes → Option RequestMsg
parse_request [] = some empty_request
parse_request (k ∷ bs) = do
  (client, r₁) ← get_text bs
  (code, r₂) ← get_text r₁
  (server, r₃) ← get_text r₂
  (sign, r₄) ← get_text r₃
  (body, r₅) ← get_text r₄
  some (record {
    kind = get_type k;
    client_id = client;
    auth_code = code;
    server_id = server;
    sign = sign;
    body = body;
    keyid = get_int r₅;
  })

unfoldable pub write_respond : RespondMsg → Bytes
write_respond msg =
    put_type msg.kind
    ∷ put_rv msg.rv
    ∷ put_text msg.client_id
        (put_text msg.server_id (put_text msg.sign (put_text msg.auth_code (put_text msg.body []))))

unfoldable pub parse_respond : Bytes → Option RespondMsg
parse_respond [] = some empty_respond
parse_respond (k ∷ []) = none
parse_respond (k ∷ v ∷ bs) = do
  (client, r₁) ← get_text bs
  (server, r₂) ← get_text r₁
  (sign, r₃) ← get_text r₂
  (code, r₄) ← get_text r₃
  (body, r₅) ← get_text r₄
  some (record {
    kind = get_type k;
    rv = get_rv v;
    client_id = client;
    server_id = server;
    sign = sign;
    auth_code = code;
    body = body;
  })

abbrev pub sample_protobuf : Protobuf
sample_protobuf = record {
  write_request = write_request;
  parse_request = parse_request;
  write_respond = write_respond;
  parse_respond = parse_respond;
}

abbrev is_update : Bytes → Bool
is_update [] = false
is_update (c ∷ cs) = c == b'u'

-- A database that answers every statement with the same rows, and may refuse an update.
abbrev pub sample_mysql : Mysql
sample_mysql = record {
  Db = Bool × List (List (Option Bytes));
  query = λ sql db. (db.0 && is_update sql, db);
  rows = λ db. db.1;
  autocommit = λ on db. db;
  commit = λ db. db;
  rollback = λ db. db;
}
