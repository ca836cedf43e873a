-- ===== src/Protocol/Showing.antt =====
-- A request that shows a key: a check or a revocation of a live key of the client, as the server
-- reads it.
use secure_data_transmission.Base.{
  ◌+◌, ◌<◌, ◌≡◌, ◌∙◌, refl, sym, ap, subst, true, some, [], ◌∷◌, ◌++◌, arith, length, drop, pos,
  Bytes, c_str, c_str_idem, strcpy_fits, c_str-strcpy, bind-eq, IsInt, ap₂,
}
use secure_data_transmission.Shm.{Node, find, shm_read}
use secure_data_transmission.Shm.Lookup.{NoIds}
use secure_data_transmission.Shm.Views.{find-SameIds}
use secure_data_transmission.Crypto.{rsa_pri_key_decrypt, OpenSsl, rsa_public_key_encrypt}
use secure_data_transmission.Messages.{Protobuf, MsgType, RequestInfo, request_message, new_request}
use secure_data_transmission.Mysql.{Mysql, KeyRow}
use secure_data_transmission.Server.{auth_code_of}
use secure_data_transmission.Server.RandomNum.{IdsFit}
use secure_data_transmission.Server.Check.{MatchesRow}
use secure_data_transmission.Client.{Client, client_auth_code, key_request, start_key_request, send}
use secure_data_transmission.Client.Steps.{ClientFits, copy_ids-Copied}
use secure_data_transmission.Client.SecondRequest.{client_auth_code_text}
use secure_data_transmission.Protocol.{Documented}
use secure_data_transmission.Protocol.Agreement.{same_code, decrypts_back}

module _ (o : OpenSsl) (p : Protobuf) (m : Mysql) (doc : Documented o p) where
  -- The client holds a live key with both keys of a row of the server's database, and the public key.
  pub record Holds (c : Client) (n : Node) (row : KeyRow) : Type 0 where
    pub fits : ClientFits c
    pub named : ¬ NoIds c.client_id c.server_id
    pub found : find c.client_id c.server_id c.shm ≡ some n
    pub live : n.status ≡ pos 1
    pub id_int : IsInt n.seckey_id
    pub loaded : c.loaded ≡ some (o.public_pem ++ 10 ∷ [])
    pub auth_is : c_str n.auth_key ≡ row.2
    pub ende_is : c_str n.ende_key ≡ row.3
    pub cipher : Bytes
    pub encrypts : o.public_encrypt (o.public_pem ++ 10 ∷ []) (row.2 ++ row.3) ≡ some cipher

  -- The request that the client sends, as the server decodes it.
  pub record Shown (kind : MsgType) (c : Client) (n : Node) (row : KeyRow) (req : RequestInfo)
      (c' : Client) : Type 0 where
    pub kind_is : req.kind ≡ kind
    pub id_is : req.key_id ≡ n.seckey_id
    pub client_is : c_str req.client_id ≡ c_str c.client_id
    pub server_is : c_str req.server_id ≡ c_str c.server_id
    pub matching : MatchesRow o p m (request_message req) row
    pub shm_same : c'.shm ≡ c.shm
    pub client_same : c'.client_id ≡ c.client_id
    pub server_same : c'.server_id ≡ c.server_id
    pub loaded_same : c'.loaded ≡ c.loaded

  -- The request of a key that the client holds is made and sent, and it matches the row.
  key_request-Shown :
      (kind : MsgType) (c : Client) (n : Node) (row : KeyRow)
      → Holds c n row
      → (req : RequestInfo) × ((c' : Client) × (key_request o p kind n c ≡ some (req, c'))
          × Shown kind c n row req c')
  unfolding key_request new_request send request_message
  key_request-Shown kind c n row h =
      let ids = find-SameIds c.client_id c.server_id c.shm n h.found in
      let base = new_request kind n.seckey_id in
      let (r, e₁, k) =
        copy_ids-Copied n.client_id n.server_id base
          (subst (λ t. length t < 12) (sym ids.0) h.fits.client_fits)
          (subst (λ t. length t < 12) (sym ids.1) h.fits.server_fits) in
      let file = o.public_pem ++ 10 ∷ [] in
      let text = c_str n.auth_key ++ c_str n.ende_key in
      let text_is : text ≡ row.2 ++ row.3 = ap₂ (λ a b. a ++ b) h.auth_is h.ende_is in
      let body = rsa_public_key_encrypt o file text in
      let code = client_auth_code o p (c_str n.auth_key) body in
      let (short, clean) = client_auth_code_text o p doc.mac_length (c_str n.auth_key) body in
      let e₂ =
        strcpy_fits r.auth_code code (omega (arith, ap length clean, short, ap length k.code_is)) in
      let copy : Bytes = c_str code ++ 0 ∷ drop (length (c_str code) + 1) r.auth_code in
      let req : RequestInfo = record r { body = body; auth_code = copy } in
      (
        req,
        (
          send o p req c,
          bind-eq _ e₁ (bind-eq _ h.loaded (bind-eq _ e₂ refl)),
          record {
            kind_is = k.kind_is;
            id_is = k.key_is;
            client_is = k.client_is ∙ ids.0;
            server_is = k.server_is ∙ ids.1;
            matching = record {
              decrypts =
                  ap (λ t. rsa_pri_key_decrypt o (rsa_public_key_encrypt o file t)) text_is
                  ∙ decrypts_back o p m doc (row.2 ++ row.3) h.cipher h.encrypts;
              authentic =
                  c_str-strcpy r.auth_code code e₂
                  ∙ clean
                  ∙ same_code o p m doc (c_str n.auth_key) body
                  ∙ ap (λ k. auth_code_of o p m k body) h.auth_is;
            };
            shm_same = refl;
            client_same = refl;
            server_same = refl;
            loaded_same = refl;
          },
        ),
      )

  pub start_key_request-Shown :
      (kind : MsgType) (c : Client) (n : Node) (row : KeyRow)
      → Holds c n row
      → (req : RequestInfo) × ((c' : Client) × (start_key_request o p kind true c
            ≡ some (some (req, c')))
          × Shown kind c n row req c')
  unfolding start_key_request shm_read
  start_key_request-Shown kind c n row h =
      let (req, (c', e, w)) = key_request-Shown kind c n row h in
      (req, (c', ground (arith, h.found, h.live, e), w))

  -- The ids of the request fit the server's arrays, and are not both empty.
  pub Shown-IdsFit :
      {kind : MsgType} {c c' : Client} {n : Node} {row : KeyRow} {req : RequestInfo}
      → Holds c n row
      → Shown kind c n row req c'
      → IdsFit (request_message req)
        × (¬ NoIds (request_message req).client_id (request_message req).server_id)
  unfolding request_message
  Shown-IdsFit {req = req} h w =
      let client_is = c_str_idem req.client_id ∙ w.client_is in
      let server_is = c_str_idem req.server_id ∙ w.server_is in
      (
        record {
          client_fits = subst (λ t. length t < 12) (sym client_is) h.fits.client_fits;
          server_fits = subst (λ t. length t < 12) (sym server_is) h.fits.server_fits;
        },
        λ ids. h.named (sym client_is ∙ ids.0, sym server_is ∙ ids.1),
      )

  -- The client holds the key still.
  pub Shown-Holds :
      {kind : MsgType} {c c' : Client} {n : Node} {row : KeyRow} {req : RequestInfo}
      → Holds c n row
      → Shown kind c n row req c'
      → Holds c' n row
  Shown-Holds h w = record {
    fits = record {
      client_fits = subst (λ t. length (c_str t) < 12) (sym w.client_same) h.fits.client_fits;
      server_fits = subst (λ t. length (c_str t) < 12) (sym w.server_same) h.fits.server_fits;
    };
    named =
        λ ids. h.named (ap c_str (sym w.client_same) ∙ ids.0, ap c_str (sym w.server_same) ∙ ids.1);
    found = ground (arith, w.client_same, w.server_same, w.shm_same, h.found);
    live = h.live;
    id_int = h.id_int;
    loaded = w.loaded_same ∙ h.loaded;
    auth_is = h.auth_is;
    ende_is = h.ende_is;
    cipher = h.cipher;
    encrypts = h.encrypts;
  }
