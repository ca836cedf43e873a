-- ===== src/Client/SecondRequest.antt =====
-- The second request of the client: its code, its data and the node that is kept for the answer.
use secure_data_transmission.Base.{
  ◌+◌, ◌<◌, ◌≡◌, ◌∙◌, refl, ap, some, [], ◌∷◌, ◌++◌, arith, length, take, drop, pos, Bytes, c_str,
  strcpy_fits, c_str-strcpy, replicate, bind-eq, inl, inr, Option-cases,
}
use secure_data_transmission.Shm.{Node, new_node}
use secure_data_transmission.Crypto.{
  OpenSsl, t_sha256, auth, rsa_public_key_encrypt, hash_result, add_data, new_hash,
}
use secure_data_transmission.Crypto.Hex.{c_str-hex, length-hex}
use secure_data_transmission.Messages.{Protobuf, RequestInfo, pre_key}
use secure_data_transmission.Client.{Client, client_auth_code, agree_node, second_request, send}
use secure_data_transmission.Client.Steps.{ClientFits, copy_ids-Copied}

module _ (o : OpenSsl) (p : Protobuf)
    (mac_length : (key text mac : Bytes)
      → o.hmac t_sha256 key text ≡ some mac
      → length mac ≡ 32) where
  -- The code's text has at most 64 characters, none of them NUL.
  pub client_auth_code_text :
      (key body : Bytes)
      → (length (client_auth_code o p key body) < 65)
        × (c_str (client_auth_code o p key body) ≡ client_auth_code o p key body)
  unfolding client_auth_code auth c_str
  client_auth_code_text key body =
      let text = hash_result o (add_data (new_hash t_sha256) body) in
      elim (Option-cases (o.hmac t_sha256 key text)) [
        | inl e ↦ ground (arith, e)
        | inr (mac, e) ↦ ground (arith, e, mac_length key text mac e, length-hex mac, c_str-hex mac)
      ]

  -- The client's node holds its ids and both keys, and is live.
  pub record NodeOf (c : Client) (auth_key ende_key : Bytes) (n : Node) : Type 0 where
    pub client_is : c_str n.client_id ≡ c_str c.client_id
    pub server_is : c_str n.server_id ≡ c_str c.server_id
    pub auth_is : c_str n.auth_key ≡ c_str auth_key
    pub ende_is : c_str n.ende_key ≡ c_str ende_key
    pub live : n.status ≡ pos 1

  agree_node-NodeOf :
      (c : Client) (auth_key ende_key : Bytes)
      → ClientFits c
      → length (c_str auth_key) < 128
      → length (c_str ende_key) < 128
      → (n : Node) × (agree_node o p c auth_key ende_key ≡ some n) × NodeOf c auth_key ende_key n
  unfolding agree_node
  agree_node-NodeOf c auth_key ende_key f ha he =
      let x = strcpy_fits (replicate 12 0) c.client_id f.client_fits in
      let y = strcpy_fits (replicate 12 0) c.server_id f.server_fits in
      let z = strcpy_fits (replicate 128 0) auth_key ha in
      let w = strcpy_fits (replicate 128 0) ende_key he in
      (
        record new_node {
          status = pos 1;
          client_id =
              c_str c.client_id ++ 0 ∷ drop (length (c_str c.client_id) + 1) (replicate 12 0);
          server_id =
              c_str c.server_id ++ 0 ∷ drop (length (c_str c.server_id) + 1) (replicate 12 0);
          auth_key = c_str auth_key ++ 0 ∷ drop (length (c_str auth_key) + 1) (replicate 128 0);
          ende_key = c_str ende_key ++ 0 ∷ drop (length (c_str ende_key) + 1) (replicate 128 0);
        },
        bind-eq _ x (bind-eq _ y (bind-eq _ z (bind-eq _ w refl))),
        record {
          client_is = c_str-strcpy (replicate 12 0) c.client_id x;
          server_is = c_str-strcpy (replicate 12 0) c.server_id y;
          auth_is = c_str-strcpy (replicate 128 0) auth_key z;
          ende_is = c_str-strcpy (replicate 128 0) ende_key w;
          live = refl;
        },
      )

  -- The second request, the node to be written and the client's state then.
  pub record Second (c : Client) (random server_random public_key premaster : Bytes)
      (second : RequestInfo) (n : Node) (c' : Client) : Type 0 where
    pub kind_is : second.kind ≡ pre_key
    pub client_is : c_str second.client_id ≡ c_str c.client_id
    pub server_is : c_str second.server_id ≡ c_str c.server_id
    pub body_is : second.body ≡ rsa_public_key_encrypt o (public_key ++ 10 ∷ []) premaster
    pub code_is :
        c_str second.auth_code
        ≡ client_auth_code o p ((take 4 random ++ server_random) ++ premaster) second.body
    pub node_is :
        NodeOf c
          ((take 4 random ++ server_random) ++ premaster)
          ((random ++ take 4 server_random) ++ premaster)
          n
    pub shm_same : c'.shm ≡ c.shm

  pub second_request-Second :
      (first : RequestInfo) (random server_random public_key premaster : Bytes) (c : Client)
      → ClientFits c
      → length first.client_id ≡ 12
      → length first.server_id ≡ 12
      → length first.auth_code ≡ 65
      → length (c_str ((take 4 random ++ server_random) ++ premaster)) < 128
      → length (c_str ((random ++ take 4 server_random) ++ premaster)) < 128
      → (second : RequestInfo) × ((n : Node) × ((c' : Client) × (second_request o p first random
                server_random public_key premaster c
              ≡ some (second, n, c'))
            × Second c random server_random public_key premaster second n c'
            × (second.key_id ≡ first.key_id)))
  unfolding second_request send
  second_request-Second first random server_random public_key premaster c f hc hs h65 ha he =
      let base : RequestInfo = record first { kind = pre_key } in
      let (req, e₁, k) =
        copy_ids-Copied c.client_id c.server_id base (omega (arith, f)) (omega (arith, f)) in
      let auth_key = (take 4 random ++ server_random) ++ premaster in
      let ende_key = (random ++ take 4 server_random) ++ premaster in
      let file = public_key ++ 10 ∷ [] in
      let body = rsa_public_key_encrypt o file premaster in
      let code = client_auth_code o p auth_key body in
      let (short, clean) = client_auth_code_text auth_key body in
      let e₂ =
        strcpy_fits req.auth_code code (omega (arith, ap length clean, ap length k.code_is)) in
      let copy : Bytes = c_str code ++ 0 ∷ drop (length (c_str code) + 1) req.auth_code in
      let (n, e₃, w) = agree_node-NodeOf c auth_key ende_key f ha he in
      let second : RequestInfo = record req { body = body; auth_code = copy } in
      (
        second,
        (
          n,
          (
            send o p second (record c { loaded = some file }),
            bind-eq _ e₁ (bind-eq _ e₂ (bind-eq _ e₃ refl)),
            record {
              kind_is = k.kind_is;
              client_is = k.client_is;
              server_is = k.server_is;
              body_is = refl;
              code_is = c_str-strcpy req.auth_code code e₂ ∙ clean;
              node_is = w;
              shm_same = refl;
            },
            k.key_is,
          ),
        ),
      )
