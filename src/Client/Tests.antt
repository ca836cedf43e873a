-- ===== src/Client/Tests.antt =====
-- Runs of the client, and its theorems at one client.
use secure_data_transmission.Base.{
  strcpy, bind-eq, bytes_eq, strcmp_eq, ◌≡◌, ◌-◌, ℕ, refl, true, some, none, List, [], ◌∷◌, ◌++◌,
  length, replicate, pos, minus_one, Bytes, codes, c_str,
}
use secure_data_transmission.Shm.{same_ids, find, Node, shm_read}
use secure_data_transmission.Messages.{
  respond_decode, MsgType, request_encode, RequestCodec, new_request, RequestInfo, RespondMsg,
  key_check, key_revoke, success,
}
use secure_data_transmission.Crypto.{
  rsa_public_key_encrypt, auth, hex, hash_result, add_data, new_hash,
}
use secure_data_transmission.Samples.Documents.{sample-RoundTrips}
use secure_data_transmission.Samples.{sample_encrypt, parse_respond, sample_ssl, sample_protobuf}
use secure_data_transmission.Client.{
  send, copy_ids, key_request, client_auth_code, Client, Reply, start_key_request, sec_key_check,
  sec_key_revoke, finish_check, received,
}
use secure_data_transmission.Client.Replies.{
  Requested, Checked, start_key_request-Requested, sec_key_check-Checked,
}
use secure_data_transmission.Client.Unanswered.{sec_key_check-unanswered, sec_key_revoke-unanswered}

abbrev array : ℕ → Bytes → Bytes
array n text = text ++ replicate (n - length text) 0

abbrev pub live_node : Node
live_node = record {
  status = pos 1;
  seckey_id = pos 7;
  client_id = array 12 (codes "C1");
  server_id = array 12 (codes "S");
  ende_key = array 128 (codes "ende");
  auth_key = array 128 (codes "auth");
}

abbrev client_with : List Node → Client
client_with shm = record {
  client_id = codes "C1";
  server_id = codes "S";
  shm = shm;
  loaded = some (codes "PEM");
  outbox = [];
}

abbrev pub client : Client
client = client_with (live_node ∷ [])

abbrev keys_cipher : Bytes
keys_cipher = 8 ∷ (codes "authende" ++ replicate 55 0)

-- The request for the live node, and the client once it is sent.
abbrev pub request_of : MsgType → RequestInfo
request_of kind = record {
  kind = kind;
  client_id = array 12 (codes "C1");
  auth_code = client_auth_code sample_ssl sample_protobuf (codes "auth") keys_cipher ++ 0 ∷ [];
  server_id = array 12 (codes "S");
  sign = [];
  body = keys_cipher;
  key_id = pos 7;
}

abbrev pub client_after : MsgType → Client
client_after kind = record client {
  outbox = request_encode sample_protobuf (RequestCodec.encoding (request_of kind)) ∷ [];
}

pub starts :
    (kind : MsgType)
    → start_key_request sample_ssl sample_protobuf kind true client
      ≡ some (some (request_of kind, client_after kind))
unfolding start_key_request shm_read find same_ids strcmp_eq bytes_eq c_str key_request copy_ids
    send new_request strcpy rsa_public_key_encrypt sample_encrypt client_auth_code auth hex
    hash_result add_data new_hash
starts kind = refl

start_key_request-Requested_example :
    Requested sample_ssl sample_protobuf key_check client
      (request_of key_check)
      (client_after key_check)
start_key_request-Requested_example =
    start_key_request-Requested sample_ssl sample_protobuf key_check true client
      (client_after key_check) (request_of key_check) (starts key_check)

sec_key_check-unanswered_example :
    sec_key_check sample_ssl sample_protobuf true none client ≡ some (pos 0, client_after key_check)
unfolding parse_respond
sec_key_check-unanswered_example =
    sec_key_check-unanswered sample_ssl sample_protobuf refl true client (client_after key_check)
      (request_of key_check) (starts key_check)

-- An answer of success, and as it is received.
abbrev granting : MsgType → RespondMsg
granting kind = record {
  kind = kind;
  rv = success;
  client_id = codes "C1";
  server_id = codes "S";
  sign = [];
  auth_code = [];
  body = codes "7";
}

abbrev granting_reply : MsgType → Reply
granting_reply kind = some (some (sample_protobuf.write_respond (granting kind)), 20)

checked :
    sec_key_check sample_ssl sample_protobuf true (granting_reply key_check) client
    ≡ some (pos 0, client_after key_check)
unfolding sec_key_check finish_check received respond_decode
checked =
    bind-eq _ (starts key_check)
      (bind-eq _ (sample-RoundTrips.respond_back (granting key_check)) refl)

sec_key_check-Checked_example :
    Checked sample_ssl sample_protobuf key_check
      (granting_reply key_check)
      client
      (client_after key_check)
sec_key_check-Checked_example =
    sec_key_check-Checked sample_ssl sample_protobuf true (granting_reply key_check) client
      (client_after key_check) checked

sec_key_revoke-unanswered_example :
    sec_key_revoke sample_ssl sample_protobuf true none client
    ≡ some (minus_one, client_after key_revoke)
unfolding parse_respond
sec_key_revoke-unanswered_example =
    sec_key_revoke-unanswered sample_ssl sample_protobuf refl true client (client_after key_revoke)
      (request_of key_revoke) (starts key_revoke)
