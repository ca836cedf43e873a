-- ===== src/Server/Service/Refine.antt =====
-- Every handler makes one of the changes that are promised.
use mathlib.Core.Option.{some-injective}
use secure_data_transmission.Base.{
  subst, ℕ, ◌≡◌, refl, ap, sym, Bool, true, false, not, ◌&&◌, Option, none, some, arith, Bool-cases,
  inl, inr, bind-some, pos, minus_one, int_eq, ℤ, Bytes, bytes_eq, bytes_eq_iff,
}
use secure_data_transmission.Shm.{Node, update_statue, shm_write, find}
use secure_data_transmission.Crypto.{OpenSsl, rsa_pri_key_decrypt}
use secure_data_transmission.Messages.{
  Protobuf, RequestMsg, RespondInfo, random_num, pre_key, key_check, key_revoke, unknown_type,
  MsgType,
}
use secure_data_transmission.Mysql.{Mysql, KeyRow, write_sec_key, updata_key_state}
use secure_data_transmission.Server.{
  Inputs, Server, start_respond, fill_node, auth_code_of, erase, reply, answered, random_num_answer,
  premaster_answer, check_answer, revoke_answer, client_random_num, client_premaster,
  key_check_request, key_revoke_request, dispatch, store_premaster, finish_premaster, match_key,
  check_matched, store_key, revoke_matched,
}
use secure_data_transmission.Server.Filling.{Filled, fill_node-Filled}
use secure_data_transmission.Server.Premaster.{auth_for, ende_for}
use secure_data_transmission.Server.Check.{match_key-Matched}
use secure_data_transmission.Shm.Views.{view, shm_write-view, update_statue-view}
use secure_data_transmission.Server.Service.{
  Earns, by_premaster, by_row, Change, keeps, puts, revokes,
}

module _ (o : OpenSsl) (p : Protobuf) (m : Mysql) where
  -- The write of a node that a request has earned.
  write-Change :
      (inp : Inputs) (req : RequestMsg) (fd : ℕ) (s : Server m) (new : Node)
      (auth_key ende_key : Bytes)
      → Filled req auth_key ende_key new
      → new.status ≡ pos 1
      → Earns o p m inp req fd s new
      → Change o p m inp req fd s (view s.shm) (view (shm_write inp.attached new s.shm).1)
  write-Change inp req fd s new auth_key ende_key f live e =
      elim (shm_write-view inp.attached new s.shm) [
        | inl same ↦ keeps same
        | inr put ↦ puts new e (f.client_is, f.server_is) live put
      ]

  finish_premaster-Change :
      (inp : Inputs) (req : RequestMsg) (fd : ℕ) (s t : Server m) (premaster : Bytes) (n : Node)
      (info : RespondInfo) (w : Bool × ℤ × m.Db)
      → req.kind ≡ pre_key
      → rsa_pri_key_decrypt o req.body ≡ some premaster
      → req.auth_code ≡ auth_code_of o p m (auth_for o p m inp req fd s premaster) req.body
      → Filled req (auth_for o p m inp req fd s premaster) (ende_for o p m inp req fd s premaster) n
      → t.shm ≡ s.shm
      → Change o p m inp req fd s (view s.shm) (view (finish_premaster o p m inp n info t w).1.shm)
  unfolding finish_premaster
  finish_premaster-Change inp req fd s t premaster n info (false, keyid, db) k d a f same =
      keeps (λ client server ne. ap (find client server) same)
  finish_premaster-Change inp req fd s t premaster n info (true, keyid, db) k d a f same =
      let new : Node = record n { seckey_id = keyid; status = pos 1 } in
      let filled : Filled req (auth_for o p m inp req fd s premaster)
          (ende_for o p m inp req fd s premaster) new =
        record {
          client_is = f.client_is;
          server_is = f.server_is;
          auth_is = f.auth_is;
          ende_is = f.ende_is;
        } in
      subst (λ x. Change o p m inp req fd s (view s.shm) (view (shm_write inp.attached new x).1))
        (sym same)
        (write-Change inp req fd s new _ _ filled refl (by_premaster premaster k d a filled))

  premaster_answer-Change :
      (inp : Inputs) (req : RequestMsg) (fd : ℕ) (s t : Server m) (info : RespondInfo)
      → req.kind ≡ pre_key
      → premaster_answer o p m inp req fd s ≡ some (info, t)
      → Change o p m inp req fd s (view s.shm) (view t.shm)
  unfolding premaster_answer store_premaster
  premaster_answer-Change inp req fd s t info k h =
      let (i, e₁, h₁) = bind-some (start_respond pre_key req) _ h in
      let (premaster, d, h₂) = bind-some (rsa_pri_key_decrypt o req.body) _ h₁ in
      let auth_key = auth_for o p m inp req fd s premaster in
      let ende_key = ende_for o p m inp req fd s premaster in
      let u : Server m = record s { random_nums = erase fd s.random_nums } in
      elim (Bool-cases (bytes_eq (auth_code_of o p m auth_key req.body) req.auth_code)) [
        | inr differs ↦ keeps (λ client server ne. ap (find client server) (ground (arith, h₂)))
        | inl same ↦
            let (n, e₃, h₃) = bind-some (fill_node req auth_key ende_key) _ (rw same at h₂) in
            let (w, e₄, h₄) = bind-some (write_sec_key m n inp.time minus_one s.db) _ h₃ in
            subst (λ x. Change o p m inp req fd s (view s.shm) (view x.1.shm))
              (some-injective _ _ h₄)
              (finish_premaster-Change inp req fd s u premaster n i w k d
                (sym ((bytes_eq_iff (auth_code_of o p m auth_key req.body) req.auth_code).0 same))
                (fill_node-Filled req auth_key ende_key n e₃) refl)
      ]

  check_answer-Change :
      (inp : Inputs) (req : RequestMsg) (fd : ℕ) (s t : Server m) (info : RespondInfo)
      → req.kind ≡ key_check
      → check_answer o p m inp req s ≡ some (info, t)
      → Change o p m inp req fd s (view s.shm) (view t.shm)
  unfolding check_answer check_matched store_key
  check_answer-Change inp req fd s t info k h =
      let (i, e₁, h₁) = bind-some (start_respond key_check req) _ h in
      let (r, e₂, h₂) = bind-some (match_key o p m req s.db) _ h₁ in outcome i r.0 r.1 e₂ h₂
    where
      outcome :
          (i : RespondInfo) (row : Option KeyRow) (db : m.Db)
          → match_key o p m req s.db ≡ some (row, db)
          → check_matched o p m inp req i (record s { db = db }) row ≡ some (info, t)
          → Change o p m inp req fd s (view s.shm) (view t.shm)
      outcome i none db e c =
          keeps (λ client server ne. ap (find client server) (ground (arith, c)))
      outcome i (some row) db e c =
          let (n, e₃, h₃) = bind-some (fill_node req row.2 row.3) _ c in
          let f = fill_node-Filled req row.2 row.3 n e₃ in
          let new : Node = record n { seckey_id = req.keyid; status = pos 1 } in
          let filled : Filled req row.2 row.3 new = record {
            client_is = f.client_is;
            server_is = f.server_is;
            auth_is = f.auth_is;
            ende_is = f.ende_is;
          } in
          subst (λ x. Change o p m inp req fd s (view s.shm) (view x.1.shm)) (some-injective _ _ h₃)
            (write-Change inp req fd s new row.2 row.3 filled refl
              (by_row row db k (match_key-Matched o p m req s.db db row e) filled refl))

  revoke_answer-Change :
      (inp : Inputs) (req : RequestMsg) (fd : ℕ) (s t : Server m) (info : RespondInfo)
      → req.kind ≡ key_revoke
      → revoke_answer o p m inp req s ≡ some (info, t)
      → Change o p m inp req fd s (view s.shm) (view t.shm)
  unfolding revoke_answer revoke_matched
  revoke_answer-Change inp req fd s t info k h =
      let (i, e₁, h₁) = bind-some (start_respond key_revoke req) _ h in
      let (r, e₂, h₂) = bind-some (match_key o p m req s.db) _ h₁ in outcome i r.0 r.1 e₂ h₂
    where
      outcome :
          (i : RespondInfo) (row : Option KeyRow) (db : m.Db)
          → match_key o p m req s.db ≡ some (row, db)
          → revoke_matched o p m inp req i (record s { db = db }) row ≡ some (info, t)
          → Change o p m inp req fd s (view s.shm) (view t.shm)
      outcome i none db e c =
          keeps (λ client server ne. ap (find client server) (ground (arith, c)))
      outcome i (some row) db e c =
          let (ret, shm) = update_statue inp.attached req.keyid (pos 0) s.shm in
          let changed : Change o p m inp req fd s (view s.shm) (view shm) =
            revokes row db k (match_key-Matched o p m req s.db db row e)
              (update_statue-view inp.attached req.keyid s.shm) in
          elim (Bool-cases (not (int_eq ret minus_one) && not (int_eq ret (pos 1)))) [
            | inl odd ↦
                subst (λ x. Change o p m inp req fd s (view s.shm) (view x)) {x = shm}
                  (ground (arith, c, odd)) changed
            | inr even ↦
                let ((done, db'), e₃, h₃) =
                  bind-some (updata_key_state m req.keyid (pos 0) db) _ (rw even at c) in
                subst (λ x. Change o p m inp req fd s (view s.shm) (view x)) {x = shm}
                  (ground (arith, h₃)) changed
          ]

  answered-Change :
      (inp : Inputs) (req : RequestMsg) (fd : ℕ) (s t : Server m)
      (r : Option (RespondInfo × Server m))
      → ((info : RespondInfo) (u : Server m)
          → r ≡ some (info, u)
          → Change o p m inp req fd s (view s.shm) (view u.shm))
      → answered o p m fd r ≡ some t
      → Change o p m inp req fd s (view s.shm) (view t.shm)
  unfolding answered reply
  answered-Change inp req fd s t none q h = cc
  answered-Change inp req fd s t (some (info, u)) q h =
      subst (λ x. Change o p m inp req fd s (view s.shm) (view x.shm)) (some-injective _ _ h)
        (q info u refl)

  -- Whatever its outcome and its answer, a request makes one of the changes that are promised: it
  -- leaves the table's map as it was; or it puts one live node under its own ids, which it has earned
  -- by the premaster or by both keys of a usable row; or, as a revocation that carries both keys of a
  -- usable row, it sets nodes of its key id to state 0.
  pub dispatch-Change :
      (inp : Inputs) (req : RequestMsg) (fd : ℕ) (s t : Server m)
      → dispatch o p m inp req fd s ≡ some t
      → Change o p m inp req fd s (view s.shm) (view t.shm)
  unfolding dispatch client_random_num client_premaster key_check_request key_revoke_request
      random_num_answer premaster_answer check_answer revoke_answer
  dispatch-Change inp req fd s t h = by_kind req.kind refl
    where
      by_kind :
          (kind : MsgType) → req.kind ≡ kind → Change o p m inp req fd s (view s.shm) (view t.shm)
      by_kind random_num e =
          answered-Change inp req fd s t (random_num_answer o p m inp req fd s)
            (λ info u q.
              let (i, e₁, h₁) = bind-some (start_respond random_num req) _ q in
              keeps (λ client server ne. ap (find client server) (ground (arith, h₁))))
            (rw e at h)
      by_kind pre_key e =
          answered-Change inp req fd s t (premaster_answer o p m inp req fd s)
            (λ info u q. premaster_answer-Change inp req fd s u info e q) (rw e at h)
      by_kind key_check e =
          answered-Change inp req fd s t (check_answer o p m inp req s)
            (λ info u q. check_answer-Change inp req fd s u info e q) (rw e at h)
      by_kind key_revoke e =
          answered-Change inp req fd s t (revoke_answer o p m inp req s)
            (λ info u q. revoke_answer-Change inp req fd s u info e q) (rw e at h)
      by_kind (unknown_type n) e = keeps (λ client server ne.
          ap (λ x. find client server x.shm) (sym (some-injective _ _ (rw e at h))))
