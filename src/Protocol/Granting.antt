-- ===== src/Protocol/Granting.antt =====
-- The second request as the server grants it, with the keys that both sides derive.
use mathlib.Core.Option.{some-injective}
use secure_data_transmission.Base.{
  ℕ, ◌<◌, ◌≡◌, ◌∙◌, ap, sym, subst, true, some, ◌++◌, length, take, ℤ, pos, minus_one, Bytes, c_str,
  to_string, atoi, atoi-to_string,
}
use secure_data_transmission.Shm.{Node, find}
use secure_data_transmission.Shm.Lookup.{NoIds}
use secure_data_transmission.Shm.Write.{count_free}
use secure_data_transmission.Crypto.{OpenSsl, rsa_pri_key_decrypt}
use secure_data_transmission.Messages.{Protobuf, RequestMsg, RespondInfo, success, pre_key}
use secure_data_transmission.Mysql.{Mysql, write_sec_key}
use secure_data_transmission.Server.{
  Inputs, Server, lookup, auth_code_of, auth_key_of, ende_key_of, premaster_answer,
}
use secure_data_transmission.Server.RandomNum.{IdsFit, Started}
use secure_data_transmission.Server.Premaster.{
  auth_for, ende_for, premaster_answer-succeeds, premaster_answer-Agreed,
}
use secure_data_transmission.Server.Filling.{KeysFit, Filled, fill_node-fits, fill_node-Filled}

-- The texts of a node are terminated within their arrays.
pub record NodeFits (n : Node) : Type 0 where
  pub client_fits : length (c_str n.client_id) < 12
  pub server_fits : length (c_str n.server_id) < 12
  pub auth_fits : length (c_str n.auth_key) < 128
  pub ende_fits : length (c_str n.ende_key) < 128

-- The two keys of a run.
abbrev pub auth_of : Bytes → Bytes → Bytes → Bytes
auth_of random server_random premaster = (take 4 random ++ server_random) ++ premaster

abbrev pub ende_of : Bytes → Bytes → Bytes → Bytes
ende_of random server_random premaster = (random ++ take 4 server_random) ++ premaster

module _ (o : OpenSsl) (p : Protobuf) (m : Mysql) where
  -- What the server holds once it has granted the second request.
  pub record ServerShare (req : RequestMsg) (auth_key ende_key : Bytes) (keyid : ℤ) (t : Server m)
      : Type 0 where
    pub node : Node
    pub stored : find req.client_id req.server_id t.shm ≡ some node
    pub filled : Filled req auth_key ende_key node
    pub live : node.status ≡ pos 1
    pub id_is : node.seckey_id ≡ keyid

  pub Filled-NodeFits :
      (req : RequestMsg) (auth_key ende_key : Bytes) (n : Node)
      → IdsFit req
      → KeysFit auth_key ende_key
      → Filled req auth_key ende_key n
      → NodeFits n
  Filled-NodeFits req auth_key ende_key n f k h = record {
    client_fits = subst (λ t. length t < 12) (sym h.client_is) f.client_fits;
    server_fits = subst (λ t. length t < 12) (sym h.server_is) f.server_fits;
    auth_fits = subst (λ t. length t < 128) (sym h.auth_is) k.auth_fits;
    ende_fits = subst (λ t. length t < 128) (sym h.ende_is) k.ende_fits;
  }

  -- The second request is granted.
  pub second_granted :
      (inp : Inputs) (req : RequestMsg) (fd : ℕ) (s : Server m) (premaster : Bytes) (keyid : ℤ)
      → IdsFit req
      → KeysFit (auth_for o p m inp req fd s premaster) (ende_for o p m inp req fd s premaster)
      → ¬ NoIds req.client_id req.server_id
      → rsa_pri_key_decrypt o req.body ≡ some premaster
      → req.auth_code ≡ auth_code_of o p m (auth_for o p m inp req fd s premaster) req.body
      → ((node : Node)
          → NodeFits node
          → (db : m.Db) × (write_sec_key m node inp.time minus_one s.db ≡ some (true, keyid, db)))
      → inp.attached ≡ true
      → 0 < count_free s.shm
      → (info : RespondInfo) × ((t : Server m) × (premaster_answer o p m inp req fd s
            ≡ some (info, t))
          × Started pre_key req info
          × (info.rv ≡ success)
          × (info.body ≡ to_string keyid)
          × ServerShare req
              (auth_for o p m inp req fd s premaster)
              (ende_for o p m inp req fd s premaster)
              keyid
              t)
  second_granted inp req fd s premaster keyid f k ne d a w at free =
      let auth_key = auth_for o p m inp req fd s premaster in
      let ende_key = ende_for o p m inp req fd s premaster in
      let (n, en) = fill_node-fits req auth_key ende_key f k in
      let (db, wrote) = w n (
        Filled-NodeFits req auth_key ende_key n f k
          (fill_node-Filled req auth_key ende_key n en)) in
      let (info, (t, e, started, rv, body)) =
        premaster_answer-succeeds o p m inp req fd s premaster keyid db f k d a
          (λ node en'.
            subst (λ x. write_sec_key m x inp.time minus_one s.db ≡ some (true, keyid, db))
              (some-injective _ _ (sym en ∙ en')) wrote)
          at free in
      let (premaster', g) = premaster_answer-Agreed o p m inp req fd s info t ne e rv in
      let same = some-injective _ _ (sym g.decrypts ∙ d) in
      (
        info,
        (
          t,
          e,
          started,
          rv,
          body,
          record {
            node = g.node;
            stored = g.stored;
            filled =
                subst
                  (λ x.
                    Filled req (auth_for o p m inp req fd s x) (ende_for o p m inp req fd s x)
                      g.node)
                  same g.filled;
            live = g.live;
            id_is =
                sym (atoi-to_string g.node.seckey_id)
                ∙ ap atoi (sym g.id_sent ∙ body)
                ∙ atoi-to_string keyid;
          },
        ),
      )

  pub keys_of :
      (inp : Inputs) (req : RequestMsg) (fd : ℕ) (s : Server m) (random server_random : Bytes)
      → lookup fd s.random_nums ≡ (random, server_random)
      → (premaster : Bytes)
      → (auth_for o p m inp req fd s premaster ≡ auth_of random server_random premaster)
        × (ende_for o p m inp req fd s premaster ≡ ende_of random server_random premaster)
  unfolding auth_key_of ende_key_of
  keys_of inp req fd s random server_random lk premaster =
      (ap (λ r. (take 4 r.0 ++ r.1) ++ premaster) lk, ap (λ r. (r.0 ++ take 4 r.1) ++ premaster) lk)
