-- ===== src/Server/KeyTests.antt =====
-- Runs of the handlers of a key check and of a revocation, and their theorems at one key.
use secure_data_transmission.Base.{
  bytes_eq, strcpy, ◌≡◌, refl, arith, true, false, some, [], ◌∷◌, ◌++◌, replicate, pos, Bytes,
  codes, c_str, to_string, Bool,
}
use secure_data_transmission.Shm.{set_status, update_statue}
use secure_data_transmission.Crypto.{
  hex, new_hash, add_data, hash_result, auth, rsa_pri_key_decrypt,
}
use secure_data_transmission.Messages.{
  new_respond, RequestMsg, RespondInfo, MsgType, key_check, key_revoke, success,
}
use secure_data_transmission.Mysql.{
  transact, update_state_sql, select_key_sql, read_row, KeyRow, query_sec_key, updata_key_state,
}
use secure_data_transmission.Samples.{sample_decrypt, sample_ssl, sample_protobuf, sample_mysql}
use secure_data_transmission.Server.{
  revoke_matched, matches_row, match_key, start_respond, Server, check_answer, revoke_answer,
  auth_code_of,
}
use secure_data_transmission.Server.RandomNum.{IdsFit}
use secure_data_transmission.Server.Filling.{KeysFit}
use secure_data_transmission.Server.Check.{
  MatchesRow, Confirmed, check_answer-Confirmed, check_answer-passes,
}
use secure_data_transmission.Server.Revoke.{Revoked, revoke_answer-Revoked}
use secure_data_transmission.Server.Tests.{inputs, request, server_with, array, named, one_free}

-- The row of key 7, and the request that carries its keys: "auth" and "ende".
abbrev pub key_row : KeyRow
key_row = (codes "C1", true, codes "auth", codes "ende")

abbrev pub row_server : Bool → Server sample_mysql
row_server refuses =
    server_with refuses
      ((some (codes "C1") ∷ some (codes "1") ∷ some (codes "auth") ∷ some (codes "ende") ∷ []) ∷ [])

abbrev keys_cipher : Bytes
keys_cipher = 8 ∷ (codes "authende" ++ replicate 55 0)

abbrev pub row_request : MsgType → RequestMsg
row_request kind =
    request kind (auth_code_of sample_ssl sample_protobuf sample_mysql (codes "auth") keys_cipher)
      keys_cipher

pub row_request-IdsFit : (kind : MsgType) → IdsFit (row_request kind)
unfolding c_str
row_request-IdsFit kind = record { client_fits = omega arith; server_fits = omega arith }

pub key_row-KeysFit : KeysFit (codes "auth") (codes "ende")
unfolding c_str
key_row-KeysFit = record { auth_fits = omega arith; ende_fits = omega arith }

decrypts_keys : rsa_pri_key_decrypt sample_ssl keys_cipher ≡ some (codes "authende")
unfolding rsa_pri_key_decrypt sample_decrypt
decrypts_keys = refl

pub row_request-MatchesRow :
    (kind : MsgType) → MatchesRow sample_ssl sample_protobuf sample_mysql (row_request kind) key_row
row_request-MatchesRow kind = record { decrypts = decrypts_keys; authentic = refl }

pub queries :
    (refuses : Bool)
    → query_sec_key sample_mysql (pos 7) (row_server refuses).db
      ≡ some (true, key_row, (row_server refuses).db)
unfolding query_sec_key select_key_sql to_string read_row
queries true = refl
queries false = refl

-- The answer and the server after it.
abbrev pub confirmed :
    (answer : RespondInfo) × ((t : Server sample_mysql) × (check_answer sample_ssl sample_protobuf
          sample_mysql inputs
          (row_request key_check)
          (row_server false)
        ≡ some (answer, t))
      × (answer.rv ≡ success)
      × (t.db ≡ (row_server false).db))
confirmed =
    check_answer-passes sample_ssl sample_protobuf sample_mysql inputs (row_request key_check)
      (row_server false) (row_server false).db key_row (row_request-IdsFit key_check)
      key_row-KeysFit (queries false) refl (row_request-MatchesRow key_check) refl one_free

check_answer-Confirmed_example :
    Confirmed sample_ssl sample_protobuf sample_mysql
      (row_request key_check)
      (row_server false)
      confirmed.1.0
check_answer-Confirmed_example =
    check_answer-Confirmed sample_ssl sample_protobuf sample_mysql inputs (row_request key_check)
      (row_server false) confirmed.1.0 confirmed.0 named confirmed.1.1 confirmed.1.2

abbrev revoked_answer : RespondInfo
revoked_answer = record {
  kind = key_revoke;
  rv = success;
  client_id = array 12 (codes "C1");
  server_id = array 12 (codes "S");
  sign = [];
  auth_code = [];
  body = [];
}

revokes :
    revoke_answer sample_ssl sample_protobuf sample_mysql inputs
      (row_request key_revoke)
      (row_server false)
    ≡ some (revoked_answer, row_server false)
unfolding revoke_answer start_respond match_key matches_row revoke_matched strcpy c_str new_respond
    query_sec_key read_row rsa_pri_key_decrypt bytes_eq auth_code_of auth hex sample_decrypt
    hash_result add_data new_hash updata_key_state transact update_statue set_status
    update_state_sql select_key_sql to_string
revokes = refl

revoke_answer-Revoked_example :
    Revoked sample_ssl sample_protobuf sample_mysql inputs
      (row_request key_revoke)
      (row_server false)
      (row_server false)
revoke_answer-Revoked_example =
    revoke_answer-Revoked sample_ssl sample_protobuf sample_mysql inputs (row_request key_revoke)
      (row_server false) (row_server false) revoked_answer revokes refl
