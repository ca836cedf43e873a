-- ===== src/Server/Premaster.antt =====
-- The second request: the keys that the server derives, and where it stores them.
use secure_data_transmission.Base.{
  bind-eq, subst, ℕ, ◌<◌, ◌≡◌, ◌≢◌, refl, ap, Bool, true, false, some, [], arith, ℤ, pos, minus_one,
  int_eq, Bytes, bytes_eq, bytes_eq_iff, inl, inr, Bool-cases, bind-some, to_string, ◌∙◌, sym,
}
use secure_data_transmission.Shm.{Node, shm_write, find}
use secure_data_transmission.Shm.Lookup.{NoIds}
use mathlib.Core.Option.{some-injective}
use secure_data_transmission.Shm.Write.{find-shm_write_self, shm_write-count, count_free}
use secure_data_transmission.Crypto.{OpenSsl, rsa_pri_key_decrypt}
use secure_data_transmission.Messages.{
  Protobuf, RequestMsg, RespondInfo, success, auth_err, pre_key,
}
use secure_data_transmission.Mysql.{Mysql, write_sec_key}
use secure_data_transmission.Server.{
  Inputs, Server, lookup, erase, start_respond, fill_node, premaster_answer, auth_code_of,
  auth_key_of, ende_key_of, store_premaster, finish_premaster,
}
use secure_data_transmission.Server.RandomNum.{IdsFit, Started, start_respond-Started, lookup-erase}
use secure_data_transmission.Server.Filling.{KeysFit, Filled, fill_node-fits, fill_node-Filled}

module _ (o : OpenSsl) (p : Protobuf) (m : Mysql) (inp : Inputs) (req : RequestMsg) (fd : ℕ)
    (s : Server m) where
  -- The keys of the connection under a premaster.
  abbrev pub auth_for : Bytes → Bytes
  auth_for premaster =
      let (client, server) = lookup fd s.random_nums in auth_key_of client server premaster

  abbrev pub ende_for : Bytes → Bytes
  ende_for premaster =
      let (client, server) = lookup fd s.random_nums in ende_key_of client server premaster

  -- A second request whose ids fit and whose data decrypt, but whose authentication code is not
  -- that of its data under the derived key, is answered with AUTHERR. Nothing is stored, and the
  -- connection's random texts are used up.
  pub premaster_answer-auth_err :
      (premaster : Bytes)
      → IdsFit req
      → rsa_pri_key_decrypt o req.body ≡ some premaster
      → req.auth_code ≢ auth_code_of o p m (auth_for premaster) req.body
      → (info : RespondInfo) × ((t : Server m) × (premaster_answer o p m inp req fd s
            ≡ some (info, t))
          × (info.rv ≡ auth_err)
          × (t.db ≡ s.db)
          × (t.shm ≡ s.shm)
          × (lookup fd t.random_nums ≡ ([], [])))
  unfolding premaster_answer
  premaster_answer-auth_err premaster f d ne =
      let (i, e, h) = start_respond-Started pre_key req f in
      let code = auth_code_of o p m (auth_for premaster) req.body in
      let differs : bytes_eq code req.auth_code ≡ false =
        elim (Bool-cases (bytes_eq code req.auth_code)) [
          | inl same ↦ absurd (ne (sym ((bytes_eq_iff code req.auth_code).0 same)))
          | inr other ↦ other
        ] in
      (
        record i { rv = auth_err },
        (
          record s { random_nums = erase fd s.random_nums },
          rw (e, d, differs, premaster_answer),
          refl,
          refl,
          refl,
          ground (arith, lookup-erase fd fd s.random_nums),
        ),
      )

  -- What a success of the second request means.
  pub record Agreed (premaster : Bytes) (answer : RespondInfo) (t : Server m) : Type 0 where
    pub decrypts : rsa_pri_key_decrypt o req.body ≡ some premaster
    pub authentic : req.auth_code ≡ auth_code_of o p m (auth_for premaster) req.body
    pub node : Node
    pub stored : find req.client_id req.server_id t.shm ≡ some node
    pub filled : Filled req (auth_for premaster) (ende_for premaster) node
    pub live : node.status ≡ pos 1
    pub id_sent : answer.body ≡ to_string node.seckey_id
    pub random_used : lookup fd t.random_nums ≡ ([], [])

  -- What `store_premaster` has done where it answers with success.
  record Stored (auth_key ende_key : Bytes) (t₀ : Server m) (answer : RespondInfo) (t : Server m)
      : Type 0 where
    node : Node
    stored : find req.client_id req.server_id t.shm ≡ some node
    filled : Filled req auth_key ende_key node
    live : node.status ≡ pos 1
    id_sent : answer.body ≡ to_string node.seckey_id
    kept : t.random_nums ≡ t₀.random_nums

  finish_premaster-Stored :
      (auth_key ende_key : Bytes) (info : RespondInfo) (t₀ : Server m) (n : Node)
      (w : Bool × ℤ × m.Db)
      → ¬ NoIds req.client_id req.server_id
      → Filled req auth_key ende_key n
      → let (answer, t) = finish_premaster o p m inp n info t₀ w in
        answer.rv ≡ success → Stored auth_key ende_key t₀ answer t
  unfolding finish_premaster
  finish_premaster-Stored auth_key ende_key info t₀ n (false, keyid, db) ne f ok = cc
  finish_premaster-Stored auth_key ende_key info t₀ n (true, keyid, db) ne f ok =
      let new : Node = record n { seckey_id = keyid; status = pos 1 } in
      elim (Bool-cases (int_eq (shm_write inp.attached new t₀.shm).0 minus_one)) [
        | inl w ↦ ground arith
        | inr w ↦ record {
          node = new;
          stored =
              find-shm_write_self inp.attached new t₀.shm req.client_id req.server_id w
                (f.client_is, f.server_is) ne;
          filled = record {
            client_is = f.client_is;
            server_is = f.server_is;
            auth_is = f.auth_is;
            ende_is = f.ende_is;
          };
          live = refl;
          id_sent = refl;
          kept = refl;
        }
      ]

  store_premaster-Stored :
      (auth_key ende_key : Bytes) (info : RespondInfo) (t₀ : Server m) (answer : RespondInfo)
      (t : Server m)
      → ¬ NoIds req.client_id req.server_id
      → store_premaster o p m inp req auth_key ende_key info t₀ ≡ some (answer, t)
      → answer.rv ≡ success
      → Stored auth_key ende_key t₀ answer t
  unfolding store_premaster
  store_premaster-Stored auth_key ende_key info t₀ answer t ne h ok =
      let (n, e₁, h₁) = bind-some (fill_node req auth_key ende_key) _ h in
      let (w, e₂, h₂) = bind-some (write_sec_key m n inp.time minus_one t₀.db) _ h₁ in
      let e = some-injective _ _ h₂ in
      subst (λ r. Stored auth_key ende_key t₀ r.0 r.1) e
        (finish_premaster-Stored auth_key ende_key info t₀ n w ne
          (fill_node-Filled req auth_key ende_key n e₁) (ap (λ r. r.0.rv) e ∙ ok))

  -- A success of the second request, whose ids are not both empty, is earned and complete: the
  -- data decrypt to a premaster, the authentication code is that of the data under the key derived
  -- from it, the shared memory then holds a live node of the ids with both derived keys, the
  -- answer is that node's key id in decimal, and the connection's random texts are used up.
  pub premaster_answer-Agreed :
      (answer : RespondInfo) (t : Server m)
      → ¬ NoIds req.client_id req.server_id
      → premaster_answer o p m inp req fd s ≡ some (answer, t)
      → answer.rv ≡ success
      → (premaster : Bytes) × Agreed premaster answer t
  unfolding premaster_answer
  premaster_answer-Agreed answer t ne h ok =
      let (info, e₁, h₁) = bind-some (start_respond pre_key req) _ h in
      let (premaster, e₂, h₂) = bind-some (rsa_pri_key_decrypt o req.body) _ h₁ in
      let code = auth_code_of o p m (auth_for premaster) req.body in
      elim (Bool-cases (bytes_eq code req.auth_code)) [
        | inr differs ↦ ground (arith, h₂)
        | inl same ↦
            let r =
              store_premaster-Stored (auth_for premaster) (ende_for premaster) info
                (record s { random_nums = erase fd s.random_nums }) answer t ne (rw same at h₂)
                ok in
            (
              premaster,
              record {
                decrypts = e₂;
                authentic = sym ((bytes_eq_iff code req.auth_code).0 same);
                node = r.node;
                stored = r.stored;
                filled = r.filled;
                live = r.live;
                id_sent = r.id_sent;
                random_used = ground (arith, r.kept, lookup-erase fd fd s.random_nums);
              },
            )
      ]

  -- A second request with the right code is answered with SUCCESS and the key id in decimal, while
  -- its ids and the derived keys fit their arrays, its data decrypt, the database takes the node,
  -- and the shared memory is attached and has a free node.
  pub premaster_answer-succeeds :
      (premaster : Bytes) (keyid : ℤ) (db : m.Db)
      → IdsFit req
      → KeysFit (auth_for premaster) (ende_for premaster)
      → rsa_pri_key_decrypt o req.body ≡ some premaster
      → req.auth_code ≡ auth_code_of o p m (auth_for premaster) req.body
      → ((node : Node)
          → fill_node req (auth_for premaster) (ende_for premaster) ≡ some node
          → write_sec_key m node inp.time minus_one s.db ≡ some (true, keyid, db))
      → inp.attached ≡ true
      → 0 < count_free s.shm
      → (info : RespondInfo) × ((t : Server m) × (premaster_answer o p m inp req fd s
            ≡ some (info, t))
          × Started pre_key req info
          × (info.rv ≡ success)
          × (info.body ≡ to_string keyid))
  unfolding premaster_answer store_premaster finish_premaster
  premaster_answer-succeeds premaster keyid db f k d a w at free =
      let (i, e, h) = start_respond-Started pre_key req f in
      let (n, e₂) = fill_node-fits req (auth_for premaster) (ende_for premaster) f k in
      let new : Node = record n { seckey_id = keyid; status = pos 1 } in
      let wrote = (shm_write-count new s.shm free).0 in
      let code = auth_code_of o p m (auth_for premaster) req.body in
      let same : bytes_eq code req.auth_code ≡ true = (bytes_eq_iff code req.auth_code).1 (sym a) in
      (
        record i { rv = success; body = to_string keyid },
        (
          record s {
            random_nums = erase fd s.random_nums;
            db = db;
            shm = (shm_write inp.attached new s.shm).1;
          },
          bind-eq _ e (bind-eq _ d (ground (arith, same, e₂, w n e₂, at, wrote))),
          record {
            kind_is = h.kind_is;
            client_is = h.client_is;
            server_is = h.server_is;
            no_sign = h.no_sign;
            no_code = h.no_code;
          },
          refl,
          refl,
        ),
      )
