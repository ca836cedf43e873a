-- ===== src/Mysql/Tests.antt =====
-- The statements' theorems at one node and one key.
use secure_data_transmission.Base.{
  ◌≡◌, refl, arith, true, false, some, List, [], ◌∷◌, pos, Bytes, codes, Option,
}
use secure_data_transmission.Mysql.{update_state_sql, query_sec_key, updata_key_state, no_row}
use secure_data_transmission.Mysql.Queries.{
  query_sec_key-ignores_state, query_sec_key-missing, updata_key_state-transaction,
}
use secure_data_transmission.Samples.{sample_mysql}

-- A row whose state is the "0" of a revoked key.
abbrev revoked_rows : List (List (Option Bytes))
revoked_rows =
    (some (codes "C1") ∷ some (codes "0") ∷ some (codes "auth") ∷ some (codes "ende") ∷ []) ∷ []

reads_revoked_row :
    query_sec_key sample_mysql (pos 7) (false, revoked_rows)
    ≡ some (true, (codes "C1", true, codes "auth", codes "ende"), (false, revoked_rows))
reads_revoked_row =
    query_sec_key-ignores_state sample_mysql (pos 7) (false, revoked_rows) (false, revoked_rows)
      (codes "C1") (codes "0") (codes "auth") (codes "ende") [] (omega arith) refl refl

reads_no_row : query_sec_key sample_mysql (pos 7) (false, []) ≡ some (true, no_row, (false, []))
reads_no_row =
    query_sec_key-missing sample_mysql (pos 7) (false, []) (false, []) (omega arith) refl refl

fails_update : sample_mysql.query (update_state_sql (pos 7) (pos 0)) (true, []) ≡ (true, (true, []))
unfolding update_state_sql
fails_update = refl

rolls_back : updata_key_state sample_mysql (pos 7) (pos 0) (true, []) ≡ some (false, (true, []))
rolls_back =
    updata_key_state-transaction sample_mysql (pos 7) (pos 0) (true, []) (true, []) true
      (omega arith) (omega arith) fails_update
