-- ===== src/Client/Replies.antt =====
-- `secKeyCheck` and `secKeyRevoke` of the client: what is sent, and what the answers come to.
use mathlib.Core.Option.{Option, some-injective}
use secure_data_transmission.Base.{
  if◌then◌else◌, ◌>>=◌, ◌∙◌, ap, c_str-strcpy, subst, int_eq_iff, strcpy, ◌≡◌, refl, Bool, ◌++◌,
  ◌∷◌, [], arith, true, false, pos, int_eq, Bytes, c_str, bind-some, none, some, Option-cases,
  Bool-cases, inl, inr,
}
use secure_data_transmission.Shm.{Node, find, shm_read}
use secure_data_transmission.Crypto.{OpenSsl, rsa_public_key_encrypt}
use secure_data_transmission.Messages.{
  Rv, RespondMsg, RespondCodec, respond_decode, success, auth_err, server_err, unknown_rv,
  key_check, Protobuf, MsgType, RequestInfo, RequestCodec, new_request, request_encode,
}
use secure_data_transmission.Client.{
  node_read, or_refused, received, finish_check, is_success, Reply, sec_key_check, Client,
  start_key_request, copy_ids, key_request, send, client_auth_code,
}

-- The request that is made of the client's live key.
pub record Requested (o : OpenSsl) (p : Protobuf) (kind : MsgType) (c : Client) (req : RequestInfo)
    (c' : Client) : Type 0 where
  pub node : Node
  pub found : find c.client_id c.server_id c.shm ≡ some node
  pub live : node.status ≡ pos 1
  pub kind_is : req.kind ≡ kind
  pub id_is : req.key_id ≡ node.seckey_id
  pub client_is : c_str req.client_id ≡ c_str node.client_id
  pub server_is : c_str req.server_id ≡ c_str node.server_id
  pub code_is : c_str req.auth_code ≡ c_str (client_auth_code o p (c_str node.auth_key) req.body)
  pub sent : c'.outbox ≡ c.outbox ++ request_encode p (RequestCodec.encoding req) ∷ []
  pub shm_same : c'.shm ≡ c.shm

module _ (o : OpenSsl) (p : Protobuf) where
  copy_ids-texts :
      (client server : Bytes) (base req : RequestInfo)
      → copy_ids client server base ≡ some req
      → (c_str req.client_id ≡ c_str client)
        × (c_str req.server_id ≡ c_str server)
        × (req.kind ≡ base.kind)
        × (req.key_id ≡ base.key_id)
  unfolding copy_ids
  copy_ids-texts client server base req h =
      let (a, e, h₁) = bind-some (strcpy base.client_id client) _ h in
      let (b, f, h₂) = bind-some (strcpy base.server_id server) _ h₁ in
      ground (arith, h₂, c_str-strcpy base.client_id client e, c_str-strcpy base.server_id server f)

  key_request-Requested :
      (kind : MsgType) (n : Node) (c c' : Client) (req : RequestInfo)
      → find c.client_id c.server_id c.shm ≡ some n
      → n.status ≡ pos 1
      → key_request o p kind n c ≡ some (req, c')
      → Requested o p kind c req c'
  unfolding key_request send new_request
  key_request-Requested kind n c c' req f live h =
      let (r, e₁, h₁) =
        bind-some (copy_ids n.client_id n.server_id (new_request kind n.seckey_id)) _ h in
      let (pem, e₂, h₂) = bind-some c.loaded _ h₁ in
      let body = rsa_public_key_encrypt o pem (c_str n.auth_key ++ c_str n.ende_key) in
      let text = client_auth_code o p (c_str n.auth_key) body in
      let (code, e₃, h₃) = bind-some (strcpy r.auth_code text) _ h₂ in
      let (ci, si, ki, ii) =
        copy_ids-texts n.client_id n.server_id (new_request kind n.seckey_id) r e₁ in
      let filled : RequestInfo = record r { body = body; auth_code = code } in
      subst (λ x. Requested o p kind c x.0 x.1) (some-injective _ _ h₃)
        (record {
          node = n;
          found = f;
          live = live;
          kind_is = ki;
          id_is = ii;
          client_is = ci;
          server_is = si;
          code_is = c_str-strcpy r.auth_code text e₃;
          sent = refl;
          shm_same = refl;
        })

  node_read-live :
      (attached : Bool) (c : Client)
      → let n = node_read (shm_read attached c.client_id c.server_id c.shm) in
        int_eq n.status (pos 1) ≡ true → find c.client_id c.server_id c.shm ≡ some n
  unfolding shm_read
  node_read-live false c h = cc
  node_read-live true c h = elim (Option-cases (find c.client_id c.server_id c.shm)) [
    | inl e ↦ ground (arith, e)
    | inr (n, e) ↦ ground (arith, e)
  ]

  -- A check or a revocation is sent only for a live node of the client's ids. The request then has
  -- the type asked for, that node's ids and key id, and the authentication code of its data under
  -- that node's key; one message goes out, and the client's shared memory stays as it was.
  pub start_key_request-Requested :
      (kind : MsgType) (attached : Bool) (c c' : Client) (req : RequestInfo)
      → start_key_request o p kind attached c ≡ some (some (req, c'))
      → Requested o p kind c req c'
  unfolding start_key_request
  start_key_request-Requested kind attached c c' req h =
      let n = node_read (shm_read attached c.client_id c.server_id c.shm) in
      elim (Bool-cases (int_eq n.status (pos 1))) [
        | inr dead ↦ ground (arith, dead, h)
        | inl live ↦
            let (r, er, h₁) =
              bind-some (key_request o p kind n c) (λ r. some (some r))
                (subst
                  (λ b.
                    (if b then key_request o p kind n c >>= (λ r. some (some r)) else some none)
                    ≡ some (some (req, c')))
                  live h) in
            key_request-Requested kind n c c' req (node_read-live attached c live)
              ((int_eq_iff n.status (pos 1)).0 live) (er ∙ some-injective _ _ h₁)
      ]

  -- What a run of `secKeyCheck` that returns 0 has done.
  pub record Checked (kind : MsgType) (reply : Reply) (c c' : Client) : Type 0 where
    pub req : RequestInfo
    pub requested : Requested o p kind c req c'
    pub answer : RespondMsg
    pub decoded : respond_decode p (RespondCodec.decoding (received reply)) ≡ some answer
    pub granted : answer.rv ≡ success

  is_success-success : (v : Rv) → is_success v ≡ true → v ≡ success
  is_success-success success h = refl
  is_success-success auth_err h = cc
  is_success-success server_err h = cc
  is_success-success (unknown_rv n) h = cc

  -- `secKeyCheck` returns 0 only where it has sent the request of a live key and the answer that it
  -- decodes says SUCCESS. It leaves the client's shared memory as it was.
  pub sec_key_check-Checked :
      (attached : Bool) (reply : Reply) (c c' : Client)
      → sec_key_check o p attached reply c ≡ some (pos 0, c')
      → Checked key_check reply c c'
  unfolding sec_key_check finish_check
  sec_key_check-Checked attached reply c c' h =
      let (sent, e, h₁) = bind-some (start_key_request o p key_check attached c) _ h in
      checked_sent sent e h₁
    where
      checked_sent :
          (sent : Option (RequestInfo × Client))
          → start_key_request o p key_check attached c ≡ some sent
          → or_refused o p sent (finish_check o p reply) c ≡ some (pos 0, c')
          → Checked key_check reply c c'
      checked_sent none e h₁ = cc
      checked_sent (some (req, c₁)) e h₁ =
          let (msg, d, h₂) =
            bind-some (respond_decode p (RespondCodec.decoding (received reply))) _ h₁ in
          let same : c₁ ≡ c' = ap (λ r. r.1) (some-injective _ _ h₂) in
          elim (Bool-cases (is_success msg.rv)) [
            | inr bad ↦ ground (arith, h₂, bad)
            | inl ok ↦ record {
              req = req;
              requested =
                  start_key_request-Requested key_check attached c c' req
                    (e ∙ ap (λ x. some (some (req, x))) same);
              answer = msg;
              decoded = d;
              granted = is_success-success msg.rv ok;
            }
          ]
