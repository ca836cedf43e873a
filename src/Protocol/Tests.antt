-- ===== src/Protocol/Tests.antt =====
-- One run of the key agreement.
use secure_data_transmission.Base.{
  all_zero, none, ◌≡◌, ◌<◌, refl, arith, true, false, some, [], ◌∷◌, ◌++◌, length, replicate, pos,
  codes, c_str,
}
use secure_data_transmission.Shm.{new_node, is_free}
use secure_data_transmission.Shm.Lookup.{NoIds}
use secure_data_transmission.Shm.Write.{count_free}
use secure_data_transmission.Server.{Inputs, Server}
use secure_data_transmission.Client.{Client}
use secure_data_transmission.Samples.{sample_ssl, sample_protobuf, sample_mysql, sample_encrypt}
use secure_data_transmission.Samples.Documents.{sample_documented, sample_takes_node}
use secure_data_transmission.Protocol.{agreement}
use secure_data_transmission.Protocol.Agreement.{Undisturbed, Shared, agreement-Shared}

abbrev client : Client
client = record {
  client_id = codes "C1";
  server_id = codes "S";
  shm = new_node ∷ [];
  loaded = none;
  outbox = [];
}

abbrev server : Server sample_mysql
server = record {
  random_nums = [];
  db = (false, (some (codes "7") ∷ []) ∷ []);
  shm = new_node ∷ [];
  outbox = [];
}

abbrev inputs : Inputs
inputs = record { random = codes "wxyz"; time = codes "2024-01-01 00:00:00"; attached = true }

named : ¬ NoIds client.client_id client.server_id
unfolding c_str
named h = cc

one_free : 0 < count_free (new_node ∷ [])
unfolding is_free all_zero
one_free = omega arith

time_fits : length (c_str inputs.time) < 64
unfolding c_str
time_fits = omega arith

run-Undisturbed :
    Undisturbed sample_ssl sample_protobuf sample_mysql sample_documented client server
      (codes "abcd")
      (codes "prem")
      inputs
      inputs
      (pos 7)
unfolding c_str sample_encrypt
run-Undisturbed = record {
  ids = record { client_fits = omega arith; server_fits = omega arith };
  named = named;
  fits_body = omega arith;
  cipher = 4 ∷ (codes "prem" ++ replicate 59 0);
  encrypts = refl;
  auth_fits = omega arith;
  ende_fits = omega arith;
  taken = λ node f.
      ((false, (some (codes "7") ∷ []) ∷ []), sample_takes_node node inputs.time f time_fits);
  attached = refl;
  client_free = one_free;
  server_free = one_free;
}

agreement-Shared_example :
    (c' : Client) × ((s' : Server sample_mysql) × (agreement sample_ssl sample_protobuf sample_mysql
          client server
          (codes "abcd")
          (codes "prem")
          (pos 0)
          inputs
          inputs
          3
          true
        ≡ some (pos 0, c', s'))
      × Shared sample_ssl sample_protobuf sample_mysql sample_documented client c' s' (pos 7))
agreement-Shared_example =
    agreement-Shared sample_ssl sample_protobuf sample_mysql sample_documented client server
      (codes "abcd") (codes "prem") (pos 0) inputs inputs 3 (pos 7) (omega arith) run-Undisturbed
