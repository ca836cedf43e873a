-- ===== src/Mysql.antt =====
-- server/src/MySQLOP.cpp: the statements that the server sends to MySQL, and what it makes of the
-- answers. The client library is a parameter.
pub mod Queries
mod Tests
use secure_data_transmission.Base.{
  ℕ, Bool, true, false, Option, none, some, List, [], ◌∷◌, ◌++◌, length, if◌then◌else◌, ltb, ℤ, pos,
  minus_one, Bytes, codes, c_str, to_string, atoi, ◌>>=◌,
}
use secure_data_transmission.Shm.{Node}

-- A connection's database. `query` is whether `mysql_query` fails, and `rows` the rows that
-- `mysql_store_result` then holds; a column is null or a text.
pub record Mysql : Type 1 where
  pub Db : Type 0
  pub query : Bytes → Db → Bool × Db
  pub rows : Db → List (List (Option Bytes))
  pub autocommit : Bool → Db → Db
  pub commit : Db → Db
  pub rollback : Db → Db

abbrev pub is_some {ℓ} : {A : Type ℓ} → Option A → Bool
is_some none = false
is_some (some a) = true

-- `sprintf` into an array of `n` bytes: `none`, where the text and its NUL do not fit.
abbrev pub sprintf : ℕ → Bytes → Option Bytes
sprintf n text = if ltb (length text) n then some text else none

unfoldable pub update_state_sql : ℤ → ℤ → Bytes
update_state_sql keyid state =
    codes "update AASECKEYINFO set state="
    ++ (to_string state ++ (codes " where keyid=" ++ (to_string keyid ++ codes ";")))

unfoldable pub select_key_sql : ℤ → Bytes
select_key_sql keyid =
    codes
      "select clientid, state, authseckey, endeseckey             from AASECKEYINFO where keyid='"
    ++ (to_string keyid ++ codes "';")

-- The values of the `insert`, from the first quote on.
insert_values : Node → Bytes → Bytes
insert_values node time =
    c_str node.client_id
    ++ (codes "', '"
        ++ (c_str node.server_id
            ++ (codes "',                     str_to_date('"
                ++ (c_str time
                    ++ (codes "', '%Y-%m-%d %H:%i:%s') , 1, '"
                        ++ (c_str node.auth_key
                            ++ (codes "', '" ++ (c_str node.ende_key ++ codes "');"))))))))

unfoldable pub insert_key_sql : Node → Bytes → Bytes
unfolding insert_values
insert_key_sql node time =
    codes
      "insert into AASECKEYINFO(clientid, serverid, createtime,                     state, authseckey, endeseckey) values ('"
    ++ insert_values node time

abbrev pub last_insert_id_sql : Bytes
last_insert_id_sql = codes "SELECT LAST_INSERT_ID();"

-- The tuple that `querySecKey` fills: client id, state, authentication key, encryption key.
abbrev pub KeyRow : Type 0
KeyRow = Bytes × Bool × Bytes × Bytes

abbrev pub no_row : KeyRow
no_row = ([], false, [], [])

-- The state is read as `bool` from the column's pointer. A null text is undefined.
unfoldable pub read_row : List (List (Option Bytes)) → Option KeyRow
read_row [] = some no_row
read_row ((some client ∷ state ∷ some auth ∷ some ende ∷ more) ∷ rows) =
    some (client, is_some state, auth, ende)
read_row _ = none

-- `keyID = atoi(row[0])`, where there is a row.
unfoldable pub read_id : ℤ → List (List (Option Bytes)) → Option ℤ
read_id keyid [] = some keyid
read_id keyid ((some text ∷ more) ∷ rows) = some (atoi text)
read_id keyid _ = none

module _ (m : Mysql) where
  open m use {Db}

  -- A statement in a transaction of its own.
  unfoldable pub transact : Bytes → Db → Bool × Db
  transact sql db =
      let (fails, db') = m.query sql (m.autocommit false db) in
      if fails
      then (false, m.autocommit true (m.rollback db'))
      else (true, m.autocommit true (m.commit db'))

  -- `updataKeyState`.
  unfoldable pub updata_key_state : ℤ → ℤ → Db → Option (Bool × Db)
  unfolding transact
  updata_key_state keyid state db = do
    sql ← sprintf 512 (update_state_sql keyid state)
    some (transact sql db)

  -- `updataKeyID`, and `getKeyID`: -1, where the query fails and where there is no row.
  unfoldable pub updata_key_id : ℤ → Db → Bool × Db
  unfolding transact
  updata_key_id keyid = transact (codes "update KEYSN set ikeysn = " ++ to_string keyid)

  unfoldable pub get_key_id : Db → Option (ℤ × Db)
  get_key_id db =
      let (fails, db') = m.query (codes "select ikeysn from KEYSN for update;") db in
      let read = read_id minus_one (m.rows db') in
      if fails then some (minus_one, db') else (do keyid ← read; some (keyid, db'))

  fetch_id : ℤ → Bool × Db → Option (Bool × ℤ × Db)
  fetch_id keyid (true, db) = some (false, keyid, db)
  fetch_id keyid (false, db) = do id ← read_id keyid (m.rows db); some (true, id, db)

  after_insert : ℤ → Bool × Db → Option (Bool × ℤ × Db)
  unfolding fetch_id
  after_insert keyid (false, db) = some (false, keyid, db)
  after_insert keyid (true, db) = fetch_id keyid (m.query last_insert_id_sql db)

  -- `writeSecKey`: whether it succeeded, and `keyID`.
  unfoldable pub write_sec_key : Node → Bytes → ℤ → Db → Option (Bool × ℤ × Db)
  unfolding after_insert transact
  write_sec_key node time keyid db = do
    sql ← sprintf 1024 (insert_key_sql node time)
    after_insert keyid (transact sql db)

  fetch_row : Bool × Db → Option (Bool × KeyRow × Db)
  fetch_row (true, db) = some (false, no_row, db)
  fetch_row (false, db) = do row ← read_row (m.rows db); some (true, row, db)

  -- `querySecKey`: whether it succeeded, and `out`.
  unfoldable pub query_sec_key : ℤ → Db → Option (Bool × KeyRow × Db)
  unfolding fetch_row
  query_sec_key keyid db = do sql ← sprintf 1024 (select_key_sql keyid); fetch_row (m.query sql db)
