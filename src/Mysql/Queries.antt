-- ===== src/Mysql/Queries.antt =====
-- The statements fit their buffers, and what the answers are read as.
use secure_data_transmission.Base.{
  ◌<◌, ◌≡◌, refl, Bool, true, false, Option, some, List, [], ◌∷◌, arith, length, length-append,
  if◌then◌else◌, ℤ, Bytes, c_str, length-to_string, IsInt, lt→ltb,
}
use secure_data_transmission.Shm.{Node}
use secure_data_transmission.Mysql.{
  no_row, Mysql, update_state_sql, select_key_sql, insert_key_sql, insert_values, read_row,
  query_sec_key, transact, updata_key_state,
}

-- The `select` fits its buffer of 1024 bytes.
select_key_sql_fits : (keyid : ℤ) → IsInt keyid → length (select_key_sql keyid) < 1024
unfolding select_key_sql
select_key_sql_fits keyid h = simp length-append (omega (arith, length-to_string keyid h))

-- The `update` fits its buffer of 512 bytes.
update_state_sql_fits :
    (keyid state : ℤ) → IsInt keyid → IsInt state → length (update_state_sql keyid state) < 512
unfolding update_state_sql
update_state_sql_fits keyid state h k =
    simp length-append (omega (arith, length-to_string keyid h, length-to_string state k))

-- Every statement that is written into a buffer fits it, with its NUL: the `select` of 1024 bytes
-- and the `update` of 512 bytes at any `int`, the `insert` of 1024 bytes at any node whose arrays
-- hold terminated texts of the declared sizes and any time of `getCurTime`'s 64 bytes.
pub sql_fits :
    (keyid state : ℤ) (node : Node) (time : Bytes)
    → IsInt keyid
    → IsInt state
    → length (c_str node.client_id) < 12
    → length (c_str node.server_id) < 12
    → length (c_str node.auth_key) < 128
    → length (c_str node.ende_key) < 128
    → length (c_str time) < 64
    → (length (select_key_sql keyid) < 1024)
      × (length (update_state_sql keyid state) < 512)
      × (length (insert_key_sql node time) < 1024)
unfolding insert_key_sql insert_values
sql_fits keyid state node time hk hs c s a e t = (
  select_key_sql_fits keyid hk,
  update_state_sql_fits keyid state hk hs,
  simp length-append (omega arith),
)

-- `querySecKey` reports the key of a row as usable whatever text its state column holds, the "0"
-- of a revoked key included: the state is read as a `bool` from the column's pointer.
pub query_sec_key-ignores_state :
    (m : Mysql) (keyid : ℤ) (db db' : m.Db) (client state auth ende : Bytes)
    (rows : List (List (Option Bytes)))
    → IsInt keyid
    → m.query (select_key_sql keyid) db ≡ (false, db')
    → m.rows db' ≡ (some client ∷ some state ∷ some auth ∷ some ende ∷ []) ∷ rows
    → query_sec_key m keyid db ≡ some (true, (client, true, auth, ende), db')
unfolding query_sec_key read_row
query_sec_key-ignores_state m keyid db db' client state auth ende rows h q r =
    rw (lt→ltb _ _ (select_key_sql_fits keyid h), q, query_sec_key, r) refl

-- Where the query finds no row, `querySecKey` succeeds with empty texts and a key that is not usable.
pub query_sec_key-missing :
    (m : Mysql) (keyid : ℤ) (db db' : m.Db)
    → IsInt keyid
    → m.query (select_key_sql keyid) db ≡ (false, db')
    → m.rows db' ≡ []
    → query_sec_key m keyid db ≡ some (true, no_row, db')
unfolding query_sec_key read_row
query_sec_key-missing m keyid db db' h q r =
    rw (lt→ltb _ _ (select_key_sql_fits keyid h), q, query_sec_key, r) refl

-- At `int` arguments `updataKeyState` runs its statement with autocommit off, then commits it
-- where it succeeded and rolls it back where it failed, and turns autocommit on again on both
-- ways; it returns which way.
pub updata_key_state-transaction :
    (m : Mysql) (keyid state : ℤ) (db db' : m.Db) (fails : Bool)
    → IsInt keyid
    → IsInt state
    → m.query (update_state_sql keyid state) (m.autocommit false db) ≡ (fails, db')
    → updata_key_state m keyid state db
      ≡ some (
          if fails
          then (false, m.autocommit true (m.rollback db'))
          else (true, m.autocommit true (m.commit db')))
unfolding updata_key_state transact
updata_key_state-transaction m keyid state db db' fails hk hs q =
    rw (lt→ltb _ _ (update_state_sql_fits keyid state hk hs), q) refl
