-- ===== src/Protocol/Revocation.antt =====
-- What a check and a revocation of a shared key come to on both sides.
use mathlib.Core.Option.{some-injective}
use secure_data_transmission.Base.{
  ◌<◌, ◌≡◌, ◌∙◌, refl, sym, ap, subst, true, false, Option, some, List, [], ◌∷◌, pos, Bytes, c_str,
  c_str_idem, IsInt,
}
use secure_data_transmission.Shm.{Node, find, update_statue}
use secure_data_transmission.Shm.Lookup.{find-c_str}
use secure_data_transmission.Shm.Write.{count_free}
use secure_data_transmission.Crypto.{OpenSsl}
use secure_data_transmission.Messages.{Protobuf, key_check, key_revoke, request_message}
use secure_data_transmission.Mysql.{Mysql, KeyRow, query_sec_key, updata_key_state, select_key_sql}
use secure_data_transmission.Mysql.Queries.{query_sec_key-ignores_state}
use secure_data_transmission.Server.{Inputs, Server}
use secure_data_transmission.Server.Filling.{KeysFit}
use secure_data_transmission.Server.Check.{check_answer-passes, check_answer-Confirmed}
use secure_data_transmission.Server.Revoke.{revoke_answer-passes}
use secure_data_transmission.Client.{Client}
use secure_data_transmission.Protocol.{Documented}
use secure_data_transmission.Protocol.Agreement.{Shared}
use secure_data_transmission.Protocol.Showing.{
  Holds, start_key_request-Shown, Shown-IdsFit, Shown-Holds,
}
use secure_data_transmission.Protocol.Checking.{
  checking, revoking, checking-passes, revoking-passes,
}

module _ (o : OpenSsl) (p : Protobuf) (m : Mysql) (doc : Documented o p) where
  -- OpenSSL and Protocol Buffers keep what they document, and the client's shared memory is attached.
  -- A check of a live key that the client holds, and for which the server's database returns a usable
  -- row with the same keys, returns 0, where: the client's ids fit and are not both empty, and the key
  -- id is an `int`; the public key that the client has loaded is the server's, and RSA takes the two
  -- keys; both keys fit their arrays; and the server's shared memory is attached and has a free node.
  -- Both shared memories then hold a live node under the client's ids
  -- with the same keys and the key id, whatever the server's held before; the client's is unchanged.
  pub checking-Shared :
      (c : Client) (s : Server m) (inp : Inputs) (n : Node) (row : KeyRow) (db : m.Db)
      → Holds o p m doc c n row
      → KeysFit row.2 row.3
      → query_sec_key m n.seckey_id s.db ≡ some (true, row, db)
      → row.1 ≡ true
      → inp.attached ≡ true
      → 0 < count_free s.shm
      → (c' : Client) × ((s' : Server m) × (checking o p m c s inp true ≡ some (pos 0, c', s'))
          × (c'.shm ≡ c.shm)
          × Shared o p m doc c c' s' n.seckey_id)
  unfolding request_message
  checking-Shared c s inp n row db h k q u at free =
      let (req, (c', e, w)) = start_key_request-Shown o p m doc key_check c n row h in
      let (f, ne) = Shown-IdsFit o p m doc h w in
      let q' = subst (λ z. query_sec_key m z s.db ≡ some (true, row, db)) (sym w.id_is) q in
      let (info, (s', a, ok, d)) =
        check_answer-passes o p m inp (request_message req) s db row f k q' u w.matching at free in
      let g = check_answer-Confirmed o p m inp (request_message req) s s' info ne a ok in
      let same : g.row ≡ row = ap (λ x. x.1) (some-injective _ _ (sym g.matched.queried ∙ q')) in
      (
        c',
        (
          s',
          checking-passes o p m c c' s s' inp req info doc.back
              (subst (λ z. IsInt z) (sym w.id_is) h.id_int) e a ok,
          w.shm_same,
          record {
            client_node = n;
            server_node = g.node;
            on_client = ap (λ x. find c.client_id c.server_id x) w.shm_same ∙ h.found;
            on_server =
                find-c_str c.client_id (c_str req.client_id) c.server_id (c_str req.server_id)
                  s'.shm (sym (c_str_idem req.client_id ∙ w.client_is))
                  (sym (c_str_idem req.server_id ∙ w.server_is))
                ∙ g.stored;
            same_auth =
                sym (c_str_idem n.auth_key)
                ∙ ap c_str (h.auth_is ∙ ap (λ r. r.2) (sym same))
                ∙ sym g.filled.auth_is;
            same_ende =
                sym (c_str_idem n.ende_key)
                ∙ ap c_str (h.ende_is ∙ ap (λ r. r.3) (sym same))
                ∙ sym g.filled.ende_is;
            client_live = h.live;
            server_live = g.live;
            client_id_is = refl;
            server_id_is = g.id_is ∙ w.id_is;
          },
        ),
      )

  -- OpenSSL and Protocol Buffers keep what they document, and the client's shared memory is attached.
  -- A revocation of a live key that the client holds, and for which the server's database returns a
  -- usable row with the same keys and commits the update, returns 0, where the client's ids fit and are
  -- not both empty, the key id is an `int`, the public key that the client has loaded is the server's,
  -- and RSA takes the two keys. The server's database is then the
  -- updated one, and its shared memory is what `updateStatue` with state 0 makes of it; but the client
  -- holds the key as before, live in its own shared memory.
  pub revoking-Revoked :
      (c : Client) (s : Server m) (inp : Inputs) (n : Node) (row : KeyRow) (db db' : m.Db)
      → Holds o p m doc c n row
      → query_sec_key m n.seckey_id s.db ≡ some (true, row, db)
      → row.1 ≡ true
      → updata_key_state m n.seckey_id (pos 0) db ≡ some (true, db')
      → (c' : Client) × ((s' : Server m) × (revoking o p m c s inp true ≡ some (pos 0, c', s'))
          × (s'.db ≡ db')
          × (s'.shm ≡ (update_statue inp.attached n.seckey_id (pos 0) s.shm).1)
          × Holds o p m doc c' n row)
  unfolding request_message
  revoking-Revoked c s inp n row db db' h q u done =
      let (req, (c', e, w)) = start_key_request-Shown o p m doc key_revoke c n row h in
      let (f, ne) = Shown-IdsFit o p m doc h w in
      let (info, (s', a, ok, kind, d, shm)) =
        revoke_answer-passes o p m inp (request_message req) s db db' row f
          (subst (λ z. query_sec_key m z s.db ≡ some (true, row, db)) (sym w.id_is) q) u w.matching
          (subst (λ z. updata_key_state m z (pos 0) db ≡ some (true, db')) (sym w.id_is) done) in
      (
        c',
        (
          s',
          revoking-passes o p m c c' s s' inp req info doc.back
              (subst (λ z. IsInt z) (sym w.id_is) h.id_int) e a kind ok,
          d,
          shm ∙ ap (λ z. (update_statue inp.attached z (pos 0) s.shm).1) w.id_is,
          Shown-Holds o p m doc h w,
        ),
      )

  -- OpenSSL and Protocol Buffers keep what they document, and the client's shared memory is attached.
  -- A revocation does not end the use of a key. After one that has returned 0, while the database
  -- still has a row with the keys, whatever its state column says, a check of the revoked key returns
  -- 0, under the conditions of a check: the public key that the client has loaded is still the
  -- server's, RSA takes the two keys, ids and keys fit, the ids are not both empty, and the server's
  -- shared memory is attached and has a free node then. The server's shared memory has a live node with the revoked key again.
  pub revoking-checking :
      (c : Client) (s : Server m) (inp₁ inp₂ : Inputs) (n : Node) (row : KeyRow)
      (db db' db'' : m.Db) (client state : Bytes) (rows : List (List (Option Bytes)))
      → Holds o p m doc c n row
      → KeysFit row.2 row.3
      → query_sec_key m n.seckey_id s.db ≡ some (true, row, db)
      → row.1 ≡ true
      → updata_key_state m n.seckey_id (pos 0) db ≡ some (true, db')
      → m.query (select_key_sql n.seckey_id) db' ≡ (false, db'')
      → m.rows db'' ≡ (some client ∷ some state ∷ some (row.2) ∷ some (row.3) ∷ []) ∷ rows
      → inp₂.attached ≡ true
      → 0 < count_free (update_statue inp₁.attached n.seckey_id (pos 0) s.shm).1
      → (c₁ : Client) × ((s₁ : Server m) × ((c₂ : Client) × ((s₂ : Server m) × (revoking o p m c s
                  inp₁ true
                ≡ some (pos 0, c₁, s₁))
              × (checking o p m c₁ s₁ inp₂ true ≡ some (pos 0, c₂, s₂))
              × Shared o p m doc c₁ c₂ s₂ n.seckey_id)))
  revoking-checking c s inp₁ inp₂ n row db db' db'' client state rows h k q u done asked rows_are at
        free =
      let (c₁, (s₁, e₁, d, shm, h₁)) = revoking-Revoked c s inp₁ n row db db' h q u done in
      let again : KeyRow = (client, true, row.2, row.3) in
      let (c₂, (s₂, e₂, same, share)) =
        checking-Shared c₁ s₁ inp₂ n again db''
          (record {
            fits = h₁.fits;
            named = h₁.named;
            found = h₁.found;
            live = h₁.live;
            id_int = h₁.id_int;
            loaded = h₁.loaded;
            auth_is = h₁.auth_is;
            ende_is = h₁.ende_is;
            cipher = h₁.cipher;
            encrypts = h₁.encrypts;
          })
          (record { auth_fits = k.auth_fits; ende_fits = k.ende_fits })
          (subst (λ x. query_sec_key m n.seckey_id x ≡ some (true, again, db'')) (sym d)
            (query_sec_key-ignores_state m n.seckey_id db' db'' client state row.2 row.3 rows
              h.id_int asked rows_are))
          refl at (subst (λ x. 0 < count_free x) (sym shm) free) in
      (c₁, (s₁, (c₂, (s₂, e₁, e₂, share))))
