-- ===== src/Server/Tests.antt =====
-- Runs of the handlers of a key agreement, and their theorems at one client of a server.
use secure_data_transmission.Base.{
  bind-eq, all_zero, ap, ◌≡◌, ◌≢◌, ◌<◌, ◌-◌, ℕ, refl, arith, true, false, some, Option, List, [],
  ◌∷◌, ◌++◌, length, replicate, pos, minus_one, Bytes, codes, c_str, to_string, Bool,
}
use secure_data_transmission.Shm.{is_free, Node, new_node}
use secure_data_transmission.Shm.Lookup.{NoIds}
use secure_data_transmission.Shm.Write.{count_free}
use secure_data_transmission.Crypto.{
  hex, new_hash, add_data, hash_result, auth, rsa_pri_key_decrypt,
}
use secure_data_transmission.Messages.{
  request_decode, RequestMsg, RespondInfo, MsgType, random_num, pre_key, success, auth_err,
}
use secure_data_transmission.Mysql.{write_sec_key}
use secure_data_transmission.Samples.Documents.{sample-RoundTrips, sample_takes_node}
use secure_data_transmission.Protocol.Granting.{Filled-NodeFits}
use secure_data_transmission.Samples.{sample_decrypt, sample_ssl, sample_protobuf, sample_mysql}
use secure_data_transmission.Server.{
  reply, answered, handle_all, dispatch, client_random_num, ende_key_of, auth_key_of, Inputs,
  Server, lookup, random_num_answer, premaster_answer, auth_code_of, fill_node,
}
use secure_data_transmission.Server.Handling.{Handled, handle_all-Handled}
use secure_data_transmission.Server.RandomNum.{
  IdsFit, Started, RandomNumKept, random_num_answer-RandomNumKept,
}
use secure_data_transmission.Server.Premaster.{
  Agreed, auth_for, ende_for, premaster_answer-auth_err, premaster_answer-Agreed,
  premaster_answer-succeeds,
}
use secure_data_transmission.Server.Filling.{fill_node-Filled, KeysFit}

abbrev pub inputs : Inputs
inputs = record { random = codes "wxyz"; time = codes "2024-01-01 00:00:00"; attached = true }

abbrev pub request : MsgType → Bytes → Bytes → RequestMsg
request kind code body = record {
  kind = kind;
  client_id = codes "C1";
  auth_code = code;
  server_id = codes "S";
  sign = [];
  body = body;
  keyid = pos 7;
}

-- A server whose database answers with `rows`, which may refuse updates.
abbrev pub server_with : Bool → List (List (Option Bytes)) → Server sample_mysql
server_with refuses rows = record {
  random_nums = (3, codes "abcd", codes "wxyz") ∷ [];
  db = (refuses, rows);
  shm = new_node ∷ [];
  outbox = [];
}

-- The text of a buffer of `n` bytes.
abbrev pub array : ℕ → Bytes → Bytes
array n text = text ++ replicate (n - length text) 0

abbrev first_request : RequestMsg
first_request = request random_num [] (codes "abcd")

first_request-IdsFit : IdsFit first_request
unfolding c_str
first_request-IdsFit = record { client_fits = omega arith; server_fits = omega arith }

random_num_answer-RandomNumKept_example :
    (info : RespondInfo) × ((t : Server sample_mysql) × (random_num_answer sample_ssl
          sample_protobuf sample_mysql inputs first_request 4
          (server_with false [])
        ≡ some (info, t))
      × RandomNumKept sample_ssl inputs first_request 4 (server_with false []) t info)
random_num_answer-RandomNumKept_example =
    random_num_answer-RandomNumKept sample_ssl sample_protobuf sample_mysql inputs first_request 4
      (server_with false []) first_request-IdsFit

-- The first request as a message, and the server once it has answered.
abbrev first_message : Bytes
first_message = sample_protobuf.write_request first_request

abbrev opened :
    (info : RespondInfo) × ((t : Server sample_mysql) × (random_num_answer sample_ssl
          sample_protobuf sample_mysql inputs first_request 4
          (server_with false [])
        ≡ some (info, t))
      × RandomNumKept sample_ssl inputs first_request 4 (server_with false []) t info)
opened =
    random_num_answer-RandomNumKept sample_ssl sample_protobuf sample_mysql inputs first_request 4
      (server_with false []) first_request-IdsFit

abbrev answered_server : Server sample_mysql
answered_server = reply sample_ssl sample_protobuf sample_mysql 4 opened.0 opened.1.0

handles_first :
    handle_all sample_ssl sample_protobuf sample_mysql
      (λ i. inputs)
      0
      4
      (first_message ∷ [])
      (server_with false [])
    ≡ some answered_server
unfolding handle_all dispatch client_random_num answered request_decode
handles_first =
    bind-eq _ (sample-RoundTrips.request_back first_request (omega arith))
      (bind-eq _ (ap (answered sample_ssl sample_protobuf sample_mysql 4) opened.1.1) refl)

-- Messages of one connection.
handle_all-Handled_example :
    Handled sample_ssl sample_protobuf sample_mysql 1 4 (server_with false []) answered_server
handle_all-Handled_example =
    handle_all-Handled sample_ssl sample_protobuf sample_mysql (λ i. inputs) 0 4
      (first_message ∷ []) (server_with false []) answered_server handles_first

-- The premaster under the sample cipher, and the request that carries it.
abbrev cipher : Bytes
cipher = 4 ∷ (codes "prem" ++ replicate 59 0)

abbrev auth_key : Bytes
auth_key = codes "abcdwxyzprem"

abbrev premaster_request : Bytes → RequestMsg
premaster_request code = request pre_key code cipher

abbrev right_code : Bytes
right_code = auth_code_of sample_ssl sample_protobuf sample_mysql auth_key cipher

abbrev id_server : Server sample_mysql
id_server = server_with false ((some (codes "7") ∷ []) ∷ [])

premaster_request-IdsFit : (code : Bytes) → IdsFit (premaster_request code)
unfolding c_str
premaster_request-IdsFit code = record { client_fits = omega arith; server_fits = omega arith }

pub named : ¬ NoIds (codes "C1") (codes "S")
unfolding c_str
named h = cc

decrypts : rsa_pri_key_decrypt sample_ssl cipher ≡ some (codes "prem")
unfolding rsa_pri_key_decrypt sample_decrypt
decrypts = refl

no_code_differs :
    []
    ≢ auth_code_of sample_ssl sample_protobuf sample_mysql
        (auth_for sample_ssl sample_protobuf sample_mysql inputs
          (premaster_request [])
          3
          id_server
          (codes "prem"))
        cipher
unfolding auth_code_of auth hash_result add_data new_hash hex lookup auth_key_of c_str
no_code_differs e = omega (arith, ap length e)

premaster_answer-auth_err_example :
    (info : RespondInfo) × ((t : Server sample_mysql) × (premaster_answer sample_ssl sample_protobuf
          sample_mysql inputs
          (premaster_request [])
          3
          id_server
        ≡ some (info, t))
      × (info.rv ≡ auth_err)
      × (t.db ≡ id_server.db)
      × (t.shm ≡ id_server.shm)
      × (lookup 3 t.random_nums ≡ ([], [])))
premaster_answer-auth_err_example =
    premaster_answer-auth_err sample_ssl sample_protobuf sample_mysql inputs (premaster_request [])
      3 id_server (codes "prem") (premaster_request-IdsFit []) decrypts no_code_differs

keys_fit :
    KeysFit
      (auth_for sample_ssl sample_protobuf sample_mysql inputs
        (premaster_request right_code)
        3
        id_server
        (codes "prem"))
      (ende_for sample_ssl sample_protobuf sample_mysql inputs
        (premaster_request right_code)
        3
        id_server
        (codes "prem"))
unfolding lookup c_str auth_key_of ende_key_of
keys_fit = record { auth_fits = omega arith; ende_fits = omega arith }

pub one_free : 0 < count_free (new_node ∷ [])
unfolding is_free all_zero
one_free = omega arith

writes_key :
    (node : Node)
    → fill_node
        (premaster_request right_code)
        (auth_for sample_ssl sample_protobuf sample_mysql inputs
          (premaster_request right_code)
          3
          id_server
          (codes "prem"))
        (ende_for sample_ssl sample_protobuf sample_mysql inputs
          (premaster_request right_code)
          3
          id_server
          (codes "prem"))
      ≡ some node
    → write_sec_key sample_mysql node inputs.time minus_one id_server.db
      ≡ some (true, pos 7, id_server.db)
unfolding c_str
writes_key node e =
    sample_takes_node node inputs.time
      (Filled-NodeFits sample_ssl sample_protobuf sample_mysql (premaster_request right_code)
        (auth_for sample_ssl sample_protobuf sample_mysql inputs (premaster_request right_code) 3
          id_server (codes "prem"))
        (ende_for sample_ssl sample_protobuf sample_mysql inputs (premaster_request right_code) 3
          id_server (codes "prem"))
        node (premaster_request-IdsFit right_code) keys_fit (fill_node-Filled _ _ _ node e))
      (omega arith)

right_code_is :
    right_code
    ≡ auth_code_of sample_ssl sample_protobuf sample_mysql
        (auth_for sample_ssl sample_protobuf sample_mysql inputs
          (premaster_request right_code)
          3
          id_server
          (codes "prem"))
        cipher
unfolding auth_key_of lookup
right_code_is = refl

premaster_answer-succeeds_example :
    (info : RespondInfo) × ((t : Server sample_mysql) × (premaster_answer sample_ssl sample_protobuf
          sample_mysql inputs
          (premaster_request right_code)
          3
          id_server
        ≡ some (info, t))
      × Started pre_key (premaster_request right_code) info
      × (info.rv ≡ success)
      × (info.body ≡ to_string (pos 7)))
premaster_answer-succeeds_example =
    premaster_answer-succeeds sample_ssl sample_protobuf sample_mysql inputs
      (premaster_request right_code) 3 id_server (codes "prem") (pos 7) id_server.db
      (premaster_request-IdsFit right_code) keys_fit decrypts right_code_is writes_key refl one_free

-- The answer and the server after it.
abbrev granted :
    (info : RespondInfo) × ((t : Server sample_mysql) × (premaster_answer sample_ssl sample_protobuf
          sample_mysql inputs
          (premaster_request right_code)
          3
          id_server
        ≡ some (info, t))
      × Started pre_key (premaster_request right_code) info
      × (info.rv ≡ success)
      × (info.body ≡ to_string (pos 7)))
granted =
    premaster_answer-succeeds sample_ssl sample_protobuf sample_mysql inputs
      (premaster_request right_code) 3 id_server (codes "prem") (pos 7) id_server.db
      (premaster_request-IdsFit right_code) keys_fit decrypts right_code_is writes_key refl one_free

premaster_answer-Agreed_example :
    (premaster : Bytes) × Agreed sample_ssl sample_protobuf sample_mysql inputs
      (premaster_request right_code)
      3
      id_server
      premaster
      granted.0
      granted.1.0
premaster_answer-Agreed_example =
    premaster_answer-Agreed sample_ssl sample_protobuf sample_mysql inputs
      (premaster_request right_code) 3 id_server granted.0 granted.1.0 named granted.1.1 granted.1.3
