-- ===== src/Server/Revoke.antt =====
-- The fourth request: what a revocation has changed when it is confirmed, and when it is not.
use secure_data_transmission.Base.{
  ◌≡◌, refl, true, false, not, ◌&&◌, Option, none, some, arith, pos, minus_one, int_eq, inl, inr,
  Bool-cases, bind-some,
}
use secure_data_transmission.Shm.{update_statue}
use secure_data_transmission.Shm.Status.{update_statue_code}
use secure_data_transmission.Crypto.{OpenSsl}
use secure_data_transmission.Messages.{
  Protobuf, RequestMsg, RespondInfo, success, server_err, key_revoke,
}
use secure_data_transmission.Mysql.{Mysql, KeyRow, query_sec_key, updata_key_state}
use secure_data_transmission.Server.{
  Inputs, Server, start_respond, match_key, revoke_matched, revoke_answer,
}
use secure_data_transmission.Server.RandomNum.{IdsFit, start_respond-Started}
use secure_data_transmission.Server.Check.{MatchesRow, Matched, match_key-Matched, match_key-found}

module _ (o : OpenSsl) (p : Protobuf) (m : Mysql) where
  -- What a success of the fourth request means.
  pub record Revoked (inp : Inputs) (req : RequestMsg) (s t : Server m) : Type 0 where
    pub row : KeyRow
    pub db : m.Db
    pub matched : Matched o p m req s.db db row
    pub updated : updata_key_state m req.keyid (pos 0) db ≡ some (true, t.db)
    pub shm_is : t.shm ≡ (update_statue inp.attached req.keyid (pos 0) s.shm).1

  -- A success of the fourth request is earned and carried out: the request carries both keys of
  -- the row of its key id, the database has committed state 0 for it, and `updateStatue` has been
  -- made on the shared memory.
  pub revoke_answer-Revoked :
      (inp : Inputs) (req : RequestMsg) (s t : Server m) (answer : RespondInfo)
      → revoke_answer o p m inp req s ≡ some (answer, t)
      → answer.rv ≡ success
      → Revoked inp req s t
  unfolding revoke_answer revoke_matched
  revoke_answer-Revoked inp req s t answer h ok =
      let (info, e₁, h₁) = bind-some (start_respond key_revoke req) _ h in
      let (r, e₂, h₂) = bind-some (match_key o p m req s.db) _ h₁ in outcome info r.0 r.1 e₂ h₂
    where
      outcome :
          (info : RespondInfo) (row : Option KeyRow) (db : m.Db)
          → match_key o p m req s.db ≡ some (row, db)
          → revoke_matched o p m inp req info (record s { db = db }) row ≡ some (answer, t)
          → Revoked inp req s t
      outcome info none db e c = ground (arith, c)
      outcome info (some row) db e c =
          let (ret, shm) = update_statue inp.attached req.keyid (pos 0) s.shm in
          elim (Bool-cases (not (int_eq ret minus_one) && not (int_eq ret (pos 1)))) [
            | inl odd ↦ ground (arith, c)
            | inr even ↦
                let ((done, db'), e₃, h₃) =
                  bind-some (updata_key_state m req.keyid (pos 0) db) _ (rw even at c) in
                record {
                  row = row;
                  db = db;
                  matched = match_key-Matched o p m req s.db db row e;
                  updated = ground (arith, e₃, h₃);
                  shm_is = ground (arith, h₃);
                }
          ]

  -- Where the database refuses the update, a matching revocation is answered with SERVERERR, but
  -- the shared memory has been changed all the same.
  pub revoke_answer-server_err :
      (inp : Inputs) (req : RequestMsg) (s : Server m) (db db' : m.Db) (row : KeyRow)
      → IdsFit req
      → query_sec_key m req.keyid s.db ≡ some (true, row, db)
      → row.1 ≡ true
      → MatchesRow o p m req row
      → updata_key_state m req.keyid (pos 0) db ≡ some (false, db')
      → (answer : RespondInfo) × ((t : Server m) × (revoke_answer o p m inp req s
            ≡ some (answer, t))
          × (answer.rv ≡ server_err)
          × (t.shm ≡ (update_statue inp.attached req.keyid (pos 0) s.shm).1))
  unfolding revoke_answer revoke_matched
  revoke_answer-server_err inp req s db db' row f q u w fails =
      let (i, e, h) = start_respond-Started key_revoke req f in
      let shm = (update_statue inp.attached req.keyid (pos 0) s.shm).1 in
      (
        record i { rv = server_err },
        (
          record s { db = db'; shm = shm },
          ground (
            arith,
            e,
            match_key-found o p m req s.db db row q u w,
            fails,
            update_statue_code inp.attached req.keyid (pos 0) s.shm,
          ),
          refl,
          refl,
        ),
      )

  -- A matching revocation is answered with SUCCESS where the database commits the update, while its
  -- ids fit their arrays: no other step of the handler can then fail, whether the shared memory is
  -- attached or not and whether a node has the key id or not.
  pub revoke_answer-passes :
      (inp : Inputs) (req : RequestMsg) (s : Server m) (db db' : m.Db) (row : KeyRow)
      → IdsFit req
      → query_sec_key m req.keyid s.db ≡ some (true, row, db)
      → row.1 ≡ true
      → MatchesRow o p m req row
      → updata_key_state m req.keyid (pos 0) db ≡ some (true, db')
      → (answer : RespondInfo) × ((t : Server m) × (revoke_answer o p m inp req s
            ≡ some (answer, t))
          × (answer.rv ≡ success)
          × (answer.kind ≡ key_revoke)
          × (t.db ≡ db')
          × (t.shm ≡ (update_statue inp.attached req.keyid (pos 0) s.shm).1))
  unfolding revoke_answer revoke_matched
  revoke_answer-passes inp req s db db' row f q u w done =
      let (i, e, h) = start_respond-Started key_revoke req f in
      let shm = (update_statue inp.attached req.keyid (pos 0) s.shm).1 in
      (
        record i { rv = success },
        (
          record s { db = db'; shm = shm },
          ground (
            arith,
            e,
            match_key-found o p m req s.db db row q u w,
            done,
            update_statue_code inp.attached req.keyid (pos 0) s.shm,
          ),
          refl,
          h.kind_is,
          refl,
          refl,
        ),
      )
