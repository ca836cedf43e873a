-- ===== src/Server/ExchangeTests.antt =====
-- The client's requests for a live key at the server's handlers.
use secure_data_transmission.Base.{
  all_zero, strcmp_eq, ◌≡◌, refl, to_string, bytes_eq, c_str, strcpy, codes, [], ◌∷◌, some, false,
}
use secure_data_transmission.Messages.{
  new_respond, RespondInfo, MsgType, key_check, key_revoke, success, request_message,
}
use secure_data_transmission.Samples.{sample_ssl, sample_protobuf, sample_mysql, sample_decrypt}
use secure_data_transmission.Shm.{
  shm_write, overwrite, fill_free, same_ids, is_free, update_statue, set_status,
}
use secure_data_transmission.Crypto.{
  rsa_pri_key_decrypt, auth, hex, hash_result, add_data, new_hash,
}
use secure_data_transmission.Mysql.{
  query_sec_key, read_row, select_key_sql, updata_key_state, transact, update_state_sql,
}
use secure_data_transmission.Client.{client_auth_code}
use secure_data_transmission.Client.Tests.{live_node, request_of}
use secure_data_transmission.Server.{
  auth_code_of, fill_node, store_key, check_matched, revoke_matched, matches_row, match_key,
  start_respond, Server, check_answer, revoke_answer,
}
use secure_data_transmission.Server.Tests.{inputs, array}
use secure_data_transmission.Server.KeyTests.{row_server}

abbrev pub answer_of : MsgType → RespondInfo
answer_of kind = record {
  kind = kind;
  rv = success;
  client_id = array 12 (codes "C1");
  server_id = array 12 (codes "S");
  sign = [];
  auth_code = [];
  body = [];
}

abbrev pub key_stored : Server sample_mysql
key_stored = record (row_server false) { shm = live_node ∷ [] }

pub checks_request :
    check_answer sample_ssl sample_protobuf sample_mysql inputs
      (request_message (request_of key_check))
      (row_server false)
    ≡ some (answer_of key_check, key_stored)
unfolding check_answer start_respond match_key matches_row check_matched store_key fill_node strcpy
    c_str new_respond request_message query_sec_key read_row rsa_pri_key_decrypt bytes_eq
    auth_code_of auth hex sample_decrypt hash_result add_data new_hash client_auth_code
    select_key_sql to_string shm_write overwrite fill_free same_ids strcmp_eq is_free all_zero
checks_request = refl

pub revokes_request :
    revoke_answer sample_ssl sample_protobuf sample_mysql inputs
      (request_message (request_of key_revoke))
      (row_server false)
    ≡ some (answer_of key_revoke, row_server false)
unfolding revoke_answer start_respond match_key matches_row revoke_matched strcpy c_str new_respond
    request_message query_sec_key read_row rsa_pri_key_decrypt bytes_eq auth_code_of auth hex
    sample_decrypt hash_result add_data new_hash client_auth_code select_key_sql to_string
    updata_key_state transact update_statue set_status update_state_sql
revokes_request = refl
