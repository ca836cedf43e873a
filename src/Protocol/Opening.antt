-- ===== src/Protocol/Opening.antt =====
-- The first request and its answer, up to the client's second request.
use secure_data_transmission.Base.{
  IsInt, ℕ, ◌+◌, ◌<◌, ◌≤◌, ◌≡◌, ◌∙◌, ap, sym, subst, some, arith, length, ℤ, Bytes, c_str,
  c_str_idem,
}
use secure_data_transmission.Shm.{Node}
use secure_data_transmission.Crypto.{OpenSsl}
use secure_data_transmission.Messages.{
  new_request, Protobuf, RequestInfo, RespondInfo, RespondCodec, request_message, respond_message,
  respond_encode,
}
use secure_data_transmission.Messages.Codecs.{respond_decode-encode}
use secure_data_transmission.Mysql.{Mysql}
use secure_data_transmission.Server.{Inputs, Server, lookup, random_num_answer}
use secure_data_transmission.Server.RandomNum.{random_num_answer-RandomNumKept}
use secure_data_transmission.Client.{parse_body, agree_premaster, received, Client, agree_start}
use secure_data_transmission.Client.Layout.{parse_body-layout}
use secure_data_transmission.Client.Steps.{
  ClientFits, agree_start-First, agree_premaster-second_request,
}
use secure_data_transmission.Client.SecondRequest.{Second, second_request-Second}
use secure_data_transmission.Protocol.{Documented, as_reply}
use secure_data_transmission.Protocol.Granting.{auth_of, ende_of}

module _ (o : OpenSsl) (p : Protobuf) (m : Mysql) (doc : Documented o p) where
  -- The first request and its answer: the client has its second request and its node, the server
  -- the two random texts.
  pub record Opened (c : Client) (s : Server m) (random premaster : Bytes) (uninitialised : ℤ)
      (inp : Inputs) (fd : ℕ) : Type 0 where
    pub first : RequestInfo
    pub after_start : Client
    pub info : RespondInfo
    pub kept : Server m
    pub second : RequestInfo
    pub node : Node
    pub sent : Client
    pub starts : agree_start o p random uninitialised c ≡ some (first, after_start)
    pub answers : random_num_answer o p m inp (request_message first) fd s ≡ some (info, kept)
    pub continues :
        agree_premaster o p first random premaster
          (as_reply (respond_encode p (RespondCodec.encoding info)))
          after_start
        ≡ some (some (second, node, sent))
    pub second_is :
        Second o p doc.mac_length c random inp.random o.public_pem premaster second node sent
    pub first_int : IsInt first.key_id
    pub second_int : IsInt second.key_id
    pub texts : lookup fd kept.random_nums ≡ (random, inp.random)
    pub db_same : kept.db ≡ s.db
    pub shm_same : kept.shm ≡ s.shm

  -- A client with other state but the same ids.
  Second-same :
      {c c₁ : Client} {random server_random public_key premaster : Bytes} {second : RequestInfo}
      {n : Node} {c' : Client}
      → c₁.client_id ≡ c.client_id
      → c₁.server_id ≡ c.server_id
      → c₁.shm ≡ c.shm
      → Second o p doc.mac_length c₁ random server_random public_key premaster second n c'
      → Second o p doc.mac_length c random server_random public_key premaster second n c'
  Second-same e f g w = record {
    kind_is = w.kind_is;
    client_is = w.client_is ∙ ap c_str e;
    server_is = w.server_is ∙ ap c_str f;
    body_is = w.body_is;
    code_is = w.code_is;
    node_is = record {
      client_is = w.node_is.client_is ∙ ap c_str e;
      server_is = w.node_is.server_is ∙ ap c_str f;
      auth_is = w.node_is.auth_is;
      ende_is = w.node_is.ende_is;
      live = w.node_is.live;
    };
    shm_same = w.shm_same ∙ g;
  }

  pub opens :
      (c : Client) (s : Server m) (random premaster : Bytes) (uninitialised : ℤ) (inp : Inputs)
      (fd : ℕ)
      → IsInt uninitialised
      → ClientFits c
      → length inp.random + length o.public_pem + 8 ≤ 2048
      → length (c_str (auth_of random inp.random premaster)) < 128
      → length (c_str (ende_of random inp.random premaster)) < 128
      → Opened c s random premaster uninitialised inp fd
  unfolding request_message respond_message received new_request
  opens c s random premaster uninitialised inp fd int f fits ha he =
      let (first, (c₁, e₁, start, cid, sid, shm₁)) =
        agree_start-First o p random uninitialised c f in
      let k = start.copied in
      let (info, (s₁, e₂, r)) =
        random_num_answer-RandomNumKept o p m inp (request_message first) fd s (record {
          client_fits =
              subst (λ t. length t < 12) (sym (c_str_idem first.client_id ∙ k.client_is))
                f.client_fits;
          server_fits =
              subst (λ t. length t < 12) (sym (c_str_idem first.server_id ∙ k.server_is))
                f.server_fits;
        }) in
      let (second, (n, (c₂, e₃, w, same_key))) =
        second_request-Second o p doc.mac_length first random inp.random o.public_pem premaster c₁
          (record {
            client_fits = subst (λ t. length (c_str t) < 12) (sym cid) f.client_fits;
            server_fits = subst (λ t. length (c_str t) < 12) (sym sid) f.server_fits;
          })
          k.client_size k.server_size (ap length k.code_is) ha he in
      record {
        first = first;
        after_start = c₁;
        info = info;
        kept = s₁;
        second = second;
        node = n;
        sent = c₂;
        starts = e₁;
        answers = e₂;
        continues =
            agree_premaster-second_request o p first random inp.random o.public_pem premaster
              (as_reply (respond_encode p (RespondCodec.encoding info))) (respond_message info) c₁
              second n c₂ (respond_decode-encode p doc.back info) r.rv_is
              (ap parse_body r.body_is ∙ parse_body-layout inp.random o.public_pem fits) e₃;
        second_is = Second-same cid sid shm₁ w;
        first_int = subst (λ z. IsInt z) (sym k.key_is) int;
        second_int = subst (λ z. IsInt z) (sym (same_key ∙ k.key_is)) int;
        texts = ground (arith, r.kept fd, start.body_is);
        db_same = r.db_same;
        shm_same = r.shm_same;
      }
