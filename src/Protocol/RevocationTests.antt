-- ===== src/Protocol/RevocationTests.antt =====
-- A check and a revocation of one shared key.
use secure_data_transmission.Base.{
  bytes_eq, strcmp_eq, ◌<◌, ◌≡◌, refl, arith, true, false, some, [], ◌∷◌, ◌++◌, replicate, pos,
  codes, c_str, to_string, all_zero,
}
use secure_data_transmission.Shm.{Node, find, same_ids, update_statue, set_status, is_free}
use secure_data_transmission.Shm.Write.{count_free}
use secure_data_transmission.Mysql.{updata_key_state, update_state_sql}
use secure_data_transmission.Server.{Server}
use secure_data_transmission.Client.{Client}
use secure_data_transmission.Samples.{sample_ssl, sample_protobuf, sample_mysql, sample_encrypt}
use secure_data_transmission.Samples.Documents.{sample_documented}
use secure_data_transmission.Server.KeyTests.{key_row, row_server, queries, key_row-KeysFit}
use secure_data_transmission.Server.Tests.{inputs, array, one_free}
use secure_data_transmission.Protocol.Agreement.{Shared}
use secure_data_transmission.Protocol.Showing.{Holds}
use secure_data_transmission.Protocol.Checking.{checking, revoking}
use secure_data_transmission.Protocol.Revocation.{
  checking-Shared, revoking-Revoked, revoking-checking,
}

abbrev node : Node
node = record {
  status = pos 1;
  seckey_id = pos 7;
  client_id = array 12 (codes "C1");
  server_id = array 12 (codes "S");
  ende_key = array 128 (codes "ende");
  auth_key = array 128 (codes "auth");
}

abbrev holder : Client
holder = record {
  client_id = codes "C1";
  server_id = codes "S";
  shm = node ∷ [];
  loaded = some (sample_ssl.public_pem ++ 10 ∷ []);
  outbox = [];
}

holder-Holds : Holds sample_ssl sample_protobuf sample_mysql sample_documented holder node key_row
unfolding c_str find sample_encrypt same_ids strcmp_eq bytes_eq
holder-Holds = record {
  fits = record { client_fits = omega arith; server_fits = omega arith };
  named = λ h. cc;
  found = refl;
  live = refl;
  id_int = omega arith;
  loaded = refl;
  auth_is = refl;
  ende_is = refl;
  cipher = 8 ∷ (codes "authende" ++ replicate 55 0);
  encrypts = refl;
}

updates :
    updata_key_state sample_mysql (pos 7) (pos 0) (row_server false).db
    ≡ some (true, (row_server false).db)
unfolding updata_key_state update_state_sql to_string
updates = refl

free_after : 0 < count_free (update_statue true (pos 7) (pos 0) (row_server false).shm).1
unfolding update_statue is_free all_zero set_status
free_after = omega arith

checking-Shared_example :
    (c' : Client) × ((s' : Server sample_mysql) × (checking sample_ssl sample_protobuf sample_mysql
          holder
          (row_server false)
          inputs
          true
        ≡ some (pos 0, c', s'))
      × (c'.shm ≡ holder.shm)
      × Shared sample_ssl sample_protobuf sample_mysql sample_documented holder c' s' (pos 7))
checking-Shared_example =
    checking-Shared sample_ssl sample_protobuf sample_mysql sample_documented holder
      (row_server false) inputs node key_row (row_server false).db holder-Holds key_row-KeysFit
      (queries false) refl refl one_free

revoking-Revoked_example :
    (c' : Client) × ((s' : Server sample_mysql) × (revoking sample_ssl sample_protobuf sample_mysql
          holder
          (row_server false)
          inputs
          true
        ≡ some (pos 0, c', s'))
      × (s'.db ≡ (row_server false).db)
      × (s'.shm ≡ (update_statue true (pos 7) (pos 0) (row_server false).shm).1)
      × Holds sample_ssl sample_protobuf sample_mysql sample_documented c' node key_row)
revoking-Revoked_example =
    revoking-Revoked sample_ssl sample_protobuf sample_mysql sample_documented holder
      (row_server false) inputs node key_row (row_server false).db (row_server false).db
      holder-Holds (queries false) refl updates

revoking-checking_example :
    (c₁ : Client) × ((s₁ : Server sample_mysql) × ((c₂ : Client) × ((s₂ : Server sample_mysql)
          × (revoking sample_ssl sample_protobuf sample_mysql holder (row_server false) inputs true
              ≡ some (pos 0, c₁, s₁))
          × (checking sample_ssl sample_protobuf sample_mysql c₁ s₁ inputs true
              ≡ some (pos 0, c₂, s₂))
          × Shared sample_ssl sample_protobuf sample_mysql sample_documented c₁ c₂ s₂ (pos 7))))
revoking-checking_example =
    revoking-checking sample_ssl sample_protobuf sample_mysql sample_documented holder
      (row_server false) inputs inputs node key_row (row_server false).db (row_server false).db
      (row_server false).db (codes "C1") (codes "1") [] holder-Holds key_row-KeysFit (queries false)
      refl updates refl refl refl free_after
