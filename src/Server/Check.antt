-- ===== src/Server/Check.antt =====
-- The third request: when the server confirms a key, and what that means.
use secure_data_transmission.Base.{
  ◌<◌, ◌≡◌, refl, ap, subst, true, ◌&&◌, Option, none, some, ◌++◌, arith, pos, minus_one, int_eq,
  bytes_eq_iff, inl, inr, Bool-cases, bind-some, ◌∙◌, sym,
}
use secure_data_transmission.Shm.{Node, shm_write, find}
use secure_data_transmission.Shm.Lookup.{NoIds}
use secure_data_transmission.Shm.Write.{find-shm_write_self, shm_write-count, count_free}
use secure_data_transmission.Crypto.{OpenSsl, rsa_pri_key_decrypt}
use secure_data_transmission.Messages.{Protobuf, RequestMsg, RespondInfo, success, key_check}
use secure_data_transmission.Mysql.{Mysql, KeyRow, query_sec_key}
use secure_data_transmission.Server.{
  Inputs, Server, start_respond, fill_node, auth_code_of, match_key, matches_row, check_matched,
  store_key, check_answer,
}
use secure_data_transmission.Server.RandomNum.{IdsFit, start_respond-Started}
use secure_data_transmission.Server.Filling.{KeysFit, Filled, fill_node-Filled, fill_node-fits}

module _ (o : OpenSsl) (p : Protobuf) (m : Mysql) where
  -- A request that carries both keys of a row, under a code of the row's authentication key.
  pub record MatchesRow (req : RequestMsg) (row : KeyRow) : Type 0 where
    pub decrypts : rsa_pri_key_decrypt o req.body ≡ some (row.2 ++ row.3)
    pub authentic : req.auth_code ≡ auth_code_of o p m row.2 req.body

  matches_row-MatchesRow :
      (req : RequestMsg) (row : KeyRow) → matches_row o p m req row ≡ some true → MatchesRow req row
  unfolding matches_row
  matches_row-MatchesRow req (c, st, a, e) h =
      let (text, d, h₁) = bind-some (rsa_pri_key_decrypt o req.body) _ h in
      ground (
        arith,
        d,
        h₁,
        bytes_eq_iff (auth_code_of o p m a req.body) req.auth_code,
        bytes_eq_iff text (a ++ e),
      )

  pub MatchesRow-matches_row :
      (req : RequestMsg) (row : KeyRow) → MatchesRow req row → matches_row o p m req row ≡ some true
  unfolding matches_row
  MatchesRow-matches_row req (c, st, a, e) w = ground (
    arith,
    bytes_eq_iff (auth_code_of o p m a req.body) req.auth_code,
    bytes_eq_iff (a ++ e) (a ++ e),
  )

  -- The row that a request has been matched with.
  pub record Matched (req : RequestMsg) (db db' : m.Db) (row : KeyRow) : Type 0 where
    pub queried : query_sec_key m req.keyid db ≡ some (true, row, db')
    pub usable : row.1 ≡ true
    pub matching : MatchesRow req row

  pub match_key-Matched :
      (req : RequestMsg) (db db' : m.Db) (row : KeyRow)
      → match_key o p m req db ≡ some (some row, db')
      → Matched req db db' row
  unfolding match_key
  match_key-Matched req db db' row h =
      let ((found, r, d), q, h₁) = bind-some (query_sec_key m req.keyid db) _ h in
      elim (Bool-cases (found && r.1)) [
        | inr no_key ↦ ground (arith, h₁)
        | inl key ↦
            let (matched, e, h₂) = bind-some (matches_row o p m req r) _ (rw key at h₁) in
            elim (Bool-cases matched) [
              | inr differs ↦ ground (arith, h₂)
              | inl same ↦
                  let w = matches_row-MatchesRow req r (e ∙ ap some same) in
                  ground (arith, q, key, h₂, same, w)
            ]
      ]

  -- What a success of the third request means.
  pub record Confirmed (req : RequestMsg) (s t : Server m) : Type 0 where
    pub row : KeyRow
    pub matched : Matched req s.db t.db row
    pub node : Node
    pub stored : find req.client_id req.server_id t.shm ≡ some node
    pub filled : Filled req row.2 row.3 node
    pub id_is : node.seckey_id ≡ req.keyid
    pub live : node.status ≡ pos 1

  store_key-Confirmed :
      (inp : Inputs) (req : RequestMsg) (row : KeyRow) (info answer : RespondInfo)
      (s₀ s t : Server m)
      → ¬ NoIds req.client_id req.server_id
      → Matched req s₀.db s.db row
      → store_key o p m inp req row info s ≡ some (answer, t)
      → answer.rv ≡ success
      → Confirmed req s₀ t
  unfolding store_key
  store_key-Confirmed inp req row info answer s₀ s t ne w h ok =
      let (n, e, h₁) = bind-some (fill_node req row.2 row.3) _ h in
      let f = fill_node-Filled req row.2 row.3 n e in
      let new : Node = record n { seckey_id = req.keyid; status = pos 1 } in
      elim (Bool-cases (int_eq (shm_write inp.attached new s.shm).0 minus_one)) [
        | inl full ↦ ground (arith, h₁)
        | inr fits ↦
            let found =
              find-shm_write_self inp.attached new s.shm req.client_id req.server_id fits
                (f.client_is, f.server_is) ne in
            let shm_is : t.shm ≡ (shm_write inp.attached new s.shm).1 = ground (arith, h₁) in
            let db_is : s.db ≡ t.db = ground (arith, h₁) in
            record {
              row = row;
              matched = subst (λ d. Matched req s₀.db d row) db_is w;
              node = new;
              stored =
                  subst (λ x. find req.client_id req.server_id x ≡ some new) (sym shm_is) found;
              filled = record {
                client_is = f.client_is;
                server_is = f.server_is;
                auth_is = f.auth_is;
                ende_is = f.ende_is;
              };
              id_is = refl;
              live = refl;
            }
      ]

  -- A success of the third request, whose ids are not both empty, is earned: the database has a
  -- row for the key id that is read as usable, the data decrypt to that row's two keys, and the
  -- authentication code is that of the data under its authentication key. The shared memory then
  -- holds a live node of the ids with this key id and these keys.
  pub check_answer-Confirmed :
      (inp : Inputs) (req : RequestMsg) (s t : Server m) (answer : RespondInfo)
      → ¬ NoIds req.client_id req.server_id
      → check_answer o p m inp req s ≡ some (answer, t)
      → answer.rv ≡ success
      → Confirmed req s t
  unfolding check_answer check_matched
  check_answer-Confirmed inp req s t answer ne h ok =
      let (info, e₁, h₁) = bind-some (start_respond key_check req) _ h in
      let (r, e₂, h₂) = bind-some (match_key o p m req s.db) _ h₁ in outcome info r.0 r.1 e₂ h₂
    where
      outcome :
          (info : RespondInfo) (row : Option KeyRow) (db : m.Db)
          → match_key o p m req s.db ≡ some (row, db)
          → check_matched o p m inp req info (record s { db = db }) row ≡ some (answer, t)
          → Confirmed req s t
      outcome info none db e c = ground (arith, c)
      outcome info (some row) db e c =
          store_key-Confirmed inp req row info answer s (record s { db = db }) t ne
            (match_key-Matched req s.db db row e) c ok

  pub match_key-found :
      (req : RequestMsg) (db db' : m.Db) (row : KeyRow)
      → query_sec_key m req.keyid db ≡ some (true, row, db')
      → row.1 ≡ true
      → MatchesRow req row
      → match_key o p m req db ≡ some (some row, db')
  unfolding match_key
  match_key-found req db db' row q u w = rw (q, match_key, u, MatchesRow-matches_row req row w) refl

  -- A third request that matches a usable row is answered with SUCCESS, while its ids and the
  -- row's keys fit their arrays and the shared memory is attached and has a free node: no step of
  -- the handler can then fail.
  pub check_answer-passes :
      (inp : Inputs) (req : RequestMsg) (s : Server m) (db : m.Db) (row : KeyRow)
      → IdsFit req
      → KeysFit row.2 row.3
      → query_sec_key m req.keyid s.db ≡ some (true, row, db)
      → row.1 ≡ true
      → MatchesRow req row
      → inp.attached ≡ true
      → 0 < count_free s.shm
      → (answer : RespondInfo) × ((t : Server m) × (check_answer o p m inp req s ≡ some (answer, t))
          × (answer.rv ≡ success)
          × (t.db ≡ db))
  unfolding check_answer check_matched store_key
  check_answer-passes inp req s db row f k q u w at free =
      let (i, e, h) = start_respond-Started key_check req f in
      let (n, e₂) = fill_node-fits req row.2 row.3 f k in
      let new : Node = record n { seckey_id = req.keyid; status = pos 1 } in
      let wrote = (shm_write-count new s.shm free).0 in
      (
        record i { rv = success },
        (
          record s { db = db; shm = (shm_write inp.attached new s.shm).1 },
          ground (arith, e, match_key-found req s.db db row q u w, e₂, at, wrote),
          refl,
          refl,
        ),
      )
