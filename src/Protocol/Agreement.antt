-- ===== src/Protocol/Agreement.antt =====
-- An undisturbed run of the key agreement ends with the same keys on both sides.
use secure_data_transmission.Base.{
  IsInt, ℕ, ◌+◌, ◌<◌, ◌≤◌, ◌≡◌, ◌∙◌, refl, ap, sym, subst, true, some, [], ◌∷◌, ◌++◌, arith, length,
  ℤ, pos, minus_one, Bytes, c_str, c_str_idem, to_string, atoi, atoi-to_string, c_str-to_string,
  bind-eq,
}
use secure_data_transmission.Shm.{Node, find, shm_write}
use secure_data_transmission.Shm.Lookup.{NoIds, find-c_str}
use secure_data_transmission.Shm.Write.{count_free, shm_write-count, find-shm_write_self}
use secure_data_transmission.Crypto.{OpenSsl, rsa_pri_key_decrypt, rsa_public_key_encrypt}
use secure_data_transmission.Messages.{
  respond_decode, Protobuf, RequestMsg, RequestInfo, RespondInfo, RespondCodec, request_message,
  respond_message, respond_encode, success, pre_key,
}
use secure_data_transmission.Messages.Codecs.{request_decode-encode, respond_decode-encode}
use secure_data_transmission.Mysql.{Mysql, write_sec_key}
use secure_data_transmission.Server.{Inputs, Server, auth_code_of, premaster_answer}
use secure_data_transmission.Server.RandomNum.{Started}
use secure_data_transmission.Server.Premaster.{auth_for, ende_for}
use secure_data_transmission.Client.{agree_finish, Reply, Client, client_auth_code}
use secure_data_transmission.Client.Steps.{ClientFits, agree_finish_lem}
use secure_data_transmission.Client.SecondRequest.{Second}
use secure_data_transmission.Protocol.{Documented, NoNul, as_reply, agreement}
use secure_data_transmission.Protocol.Granting.{
  NodeFits, ServerShare, second_granted, keys_of, auth_of, ende_of,
}
use secure_data_transmission.Protocol.Opening.{Opened, opens}

module _ (o : OpenSsl) (p : Protobuf) (m : Mysql) (doc : Documented o p) where
  -- What a run needs: ids and keys that fit their arrays, a first answer that fits the client's
  -- buffer, an RSA key that takes the premaster, a database that takes a node, and room in both
  -- shared memories.
  pub record Undisturbed (c : Client) (s : Server m) (random premaster : Bytes) (inp₁ inp₂ : Inputs)
      (keyid : ℤ) : Type 0 where
    pub ids : ClientFits c
    pub named : ¬ NoIds c.client_id c.server_id
    pub fits_body : length inp₁.random + length o.public_pem + 8 ≤ 2048
    pub cipher : Bytes
    pub encrypts : o.public_encrypt (o.public_pem ++ 10 ∷ []) premaster ≡ some cipher
    pub auth_fits : length (c_str (auth_of random inp₁.random premaster)) < 128
    pub ende_fits : length (c_str (ende_of random inp₁.random premaster)) < 128
    pub taken :
        (node : Node)
        → NodeFits node
        → (db : m.Db) × (write_sec_key m node inp₂.time minus_one s.db ≡ some (true, keyid, db))
    pub attached : inp₂.attached ≡ true
    pub client_free : 0 < count_free c.shm
    pub server_free : 0 < count_free s.shm

  -- Both sides hold a live node under the client's ids, with the same keys and the same key id.
  pub record Shared (c c' : Client) (s' : Server m) (keyid : ℤ) : Type 0 where
    pub client_node : Node
    pub server_node : Node
    pub on_client : find c.client_id c.server_id c'.shm ≡ some client_node
    pub on_server : find c.client_id c.server_id s'.shm ≡ some server_node
    pub same_auth : c_str client_node.auth_key ≡ c_str server_node.auth_key
    pub same_ende : c_str client_node.ende_key ≡ c_str server_node.ende_key
    pub client_live : client_node.status ≡ pos 1
    pub server_live : server_node.status ≡ pos 1
    pub client_id_is : client_node.seckey_id ≡ keyid
    pub server_id_is : server_node.seckey_id ≡ keyid

  -- The client's code is the one that the server computes.
  pub same_code : (key body : Bytes) → client_auth_code o p key body ≡ auth_code_of o p m key body
  unfolding client_auth_code auth_code_of
  same_code key body = refl

  -- The premaster comes out of the encrypted data.
  pub decrypts_back :
      (premaster cipher : Bytes)
      → o.public_encrypt (o.public_pem ++ 10 ∷ []) premaster ≡ some cipher
      → rsa_pri_key_decrypt o (rsa_public_key_encrypt o (o.public_pem ++ 10 ∷ []) premaster)
        ≡ some premaster
  unfolding rsa_pri_key_decrypt rsa_public_key_encrypt
  decrypts_back premaster cipher e =
      ground (arith, e, doc.decrypts premaster cipher e, doc.long_enough premaster cipher e)

  -- The answer to the second request holds no NUL.
  answer_clean :
      (req : RequestMsg) (info : RespondInfo) (keyid : ℤ)
      → Started pre_key req info
      → info.body ≡ to_string keyid
      → NoNul (respond_message info)
  unfolding respond_message c_str
  answer_clean req info keyid h b = record {
    client_text = c_str_idem info.client_id;
    server_text = c_str_idem info.server_id;
    sign_text = ap c_str h.no_sign ∙ sym h.no_sign;
    code_text = ap c_str h.no_code ∙ sym h.no_code;
    body_text = ap c_str b ∙ c_str-to_string keyid ∙ sym b;
  }

  -- The server grants the second request of an opened run.
  Opened-granted :
      {c : Client} {s : Server m} {random premaster : Bytes} {uninitialised : ℤ} {inp₁ : Inputs}
      {fd : ℕ} (inp₂ : Inputs) (keyid : ℤ)
      → Undisturbed c s random premaster inp₁ inp₂ keyid
      → (g : Opened o p m doc c s random premaster uninitialised inp₁ fd)
      → let req = request_message g.second in
        (info : RespondInfo) × ((t : Server m) × (premaster_answer o p m inp₂ req fd g.kept
            ≡ some (info, t))
          × Started pre_key req info
          × (info.rv ≡ success)
          × (info.body ≡ to_string keyid)
          × ServerShare o p m req
              (auth_for o p m inp₂ req fd g.kept premaster)
              (ende_for o p m inp₂ req fd g.kept premaster)
              keyid
              t)
  unfolding request_message
  Opened-granted {c} {s} {random} {premaster} {uninitialised} {inp₁} {fd} inp₂ keyid u g =
      let req = request_message g.second in
      let w = g.second_is in
      let client_is = c_str_idem g.second.client_id ∙ w.client_is in
      let server_is = c_str_idem g.second.server_id ∙ w.server_is in
      let (auth_is, ende_is) =
        keys_of o p m inp₂ req fd g.kept random inp₁.random g.texts premaster in
      second_granted o p m inp₂ req fd g.kept premaster keyid
        (record {
          client_fits = subst (λ t. length t < 12) (sym client_is) u.ids.client_fits;
          server_fits = subst (λ t. length t < 12) (sym server_is) u.ids.server_fits;
        })
        (record {
          auth_fits = subst (λ k. length (c_str k) < 128) (sym auth_is) u.auth_fits;
          ende_fits = subst (λ k. length (c_str k) < 128) (sym ende_is) u.ende_fits;
        })
        (λ ids. u.named (sym client_is ∙ ids.0, sym server_is ∙ ids.1))
        (ap (rsa_pri_key_decrypt o) w.body_is ∙ decrypts_back premaster u.cipher u.encrypts)
        (w.code_is
          ∙ same_code (auth_of random inp₁.random premaster) g.second.body
          ∙ ap (λ k. auth_code_of o p m k g.second.body) (sym auth_is))
        (λ node fits.
          subst
            (λ d.
              (db : m.Db) × (write_sec_key m node inp₂.time minus_one d ≡ some (true, keyid, db)))
            (sym g.db_same) (u.taken node fits))
        u.attached (subst (λ t. 0 < count_free t) (sym g.shm_same) u.server_free)

  -- The client takes the second answer.
  finishes :
      (node : Node) (reply : Reply) (info : RespondInfo) (c : Client) (keyid : ℤ) (req : RequestMsg)
      → Started pre_key req info
      → info.rv ≡ success
      → info.body ≡ to_string keyid
      → agree_finish o p true node reply
          (as_reply (respond_encode p (RespondCodec.encoding info)))
          c
        ≡ some (
          pos 0,
          record c { shm = (shm_write true (record node { seckey_id = atoi info.body }) c.shm).1 },
        )
  unfolding respond_message respond_encode
  finishes node reply info c keyid req started rv body =
      let text = respond_encode p (RespondCodec.encoding info) in
      agree_finish_lem o p true node reply text (length text) (respond_message info) c
        (ap (λ t. respond_decode p (RespondCodec.decoding t))
            (doc.no_nul (respond_message info) started.kind_is
              (answer_clean req info keyid started body))
          ∙ respond_decode-encode p doc.back info)
        rv

  -- The server's node is found under the client's ids.
  held :
      {c c' : Client} {random server_random public_key premaster auth_key ende_key : Bytes}
      {second : RequestInfo} {n : Node} {keyid : ℤ} {t : Server m}
      → (share : ServerShare o p m (request_message second) auth_key ende_key keyid t)
      → Second o p doc.mac_length c random server_random public_key premaster second n c'
      → find c.client_id c.server_id t.shm ≡ some share.node
  unfolding request_message
  held {c} {second = second} {t = t} share w =
      find-c_str c.client_id (c_str second.client_id) c.server_id (c_str second.server_id) t.shm
        (sym (c_str_idem second.client_id ∙ w.client_is))
        (sym (c_str_idem second.server_id ∙ w.server_is))
      ∙ share.stored

  -- In an undisturbed run, in which the key id that the client does not initialise is some `int`, the
  -- client's `secKeyAgree` returns 0, and then both shared memories hold a
  -- live node under the client's ids, with the same authentication key, the same encryption key and
  -- the key id that the database gave.
  pub agreement-Shared :
      (c : Client) (s : Server m) (random premaster : Bytes) (uninitialised : ℤ)
      (inp₁ inp₂ : Inputs) (fd : ℕ) (keyid : ℤ)
      → IsInt uninitialised
      → Undisturbed c s random premaster inp₁ inp₂ keyid
      → (c' : Client) × ((s' : Server m) × (agreement o p m c s random premaster uninitialised inp₁
              inp₂ fd true
            ≡ some (pos 0, c', s'))
          × Shared c c' s' keyid)
  unfolding agreement
  agreement-Shared c s random premaster uninitialised inp₁ inp₂ fd keyid int u =
      let g =
        opens o p m doc c s random premaster uninitialised inp₁ fd int u.ids u.fits_body u.auth_fits
          u.ende_fits in
      let (info, (s', e, started, rv, body, share)) = Opened-granted inp₂ keyid u g in
      let req = request_message g.second in
      let (auth_is, ende_is) =
        keys_of o p m inp₂ req fd g.kept random inp₁.random g.texts premaster in
      let new : Node = record g.node { seckey_id = atoi info.body } in
      let w = g.second_is in
      let wrote =
        (shm_write-count new g.sent.shm
          (subst (λ t. 0 < count_free t) (sym w.shm_same) u.client_free)).0 in
      (
        record g.sent { shm = (shm_write true new g.sent.shm).1 },
        (
          s',
          bind-eq _ g.starts (
              bind-eq _ (request_decode-encode p doc.back g.first g.first_int) (
                bind-eq _ g.answers (
                  bind-eq _ g.continues (
                    bind-eq _ (request_decode-encode p doc.back g.second g.second_int) (
                      bind-eq _ e (
                        bind-eq _
                          (finishes g.node
                            (as_reply (respond_encode p (RespondCodec.encoding g.info))) info g.sent
                            keyid req started rv body)
                          refl)))))),
          record {
            client_node = new;
            server_node = share.node;
            on_client =
                find-shm_write_self true new g.sent.shm c.client_id c.server_id
                  (ground (arith, wrote)) (w.node_is.client_is, w.node_is.server_is) u.named;
            on_server = held share w;
            same_auth = w.node_is.auth_is ∙ sym (share.filled.auth_is ∙ ap c_str auth_is);
            same_ende = w.node_is.ende_is ∙ sym (share.filled.ende_is ∙ ap c_str ende_is);
            client_live = w.node_is.live;
            server_live = share.live;
            client_id_is = ap atoi body ∙ atoi-to_string keyid;
            server_id_is = share.id_is;
          },
        ),
      )
