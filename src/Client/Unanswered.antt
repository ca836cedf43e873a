-- ===== src/Client/Unanswered.antt =====
-- What the client makes of answers that do not come, and of a shared memory that takes no node.
use secure_data_transmission.Base.{
  ◌∙◌, atoi, c_str, ℕ, Bytes, [], ℤ, ◌≡◌, refl, Bool, true, false, arith, pos, minus_one, int_eq,
  bind-eq, bind-some, none, some, Option, ap,
}
use secure_data_transmission.Shm.{Node, find, shm_read}
use secure_data_transmission.Shm.Write.{count_free, shm_write-full}
use secure_data_transmission.Crypto.{OpenSsl}
use secure_data_transmission.Messages.{
  Protobuf, RequestInfo, RespondMsg, RespondCodec, empty_respond, respond_decode, success,
  key_check, key_revoke,
}
use secure_data_transmission.Client.{
  or_refused, Client, Reply, received, node_read, start_key_request, sec_key_check, sec_key_revoke,
  finish_check, finish_revoke, agree_finish,
}
use secure_data_transmission.Client.Steps.{agree_finish_lem}
use secure_data_transmission.Client.Replies.{start_key_request-Requested}

module _ (o : OpenSsl) (p : Protobuf) where
  -- Where the client has no live key for its ids, `secKeyCheck` and `secKeyRevoke` return -1 and
  -- send nothing, whatever would be received.
  pub no_live_key :
      (attached : Bool) (reply : Reply) (c : Client)
      → int_eq (node_read (shm_read attached c.client_id c.server_id c.shm)).status (pos 1) ≡ false
      → (sec_key_check o p attached reply c ≡ some (minus_one, c))
        × (sec_key_revoke o p attached reply c ≡ some (minus_one, c))
  unfolding sec_key_check sec_key_revoke start_key_request
  no_live_key attached reply c dead = (ground (arith, dead), ground (arith, dead))

  module _ (empty : p.parse_respond [] ≡ some empty_respond) where
    -- An empty text parses to an empty message, whose fields are 0. So an answer that is not received
    -- passes for a success: `secKeyCheck` returns 0 once its request is sent.
    pub sec_key_check-unanswered :
        (attached : Bool) (c c' : Client) (req : RequestInfo)
        → start_key_request o p key_check attached c ≡ some (some (req, c'))
        → sec_key_check o p attached none c ≡ some (pos 0, c')
    unfolding sec_key_check finish_check received respond_decode
    sec_key_check-unanswered attached c c' req h = bind-eq _ h (bind-eq _ empty refl)

    -- `secKeyRevoke` looks at the type as well, and returns -1.
    pub sec_key_revoke-unanswered :
        (attached : Bool) (c c' : Client) (req : RequestInfo)
        → start_key_request o p key_revoke attached c ≡ some (some (req, c'))
        → sec_key_revoke o p attached none c ≡ some (minus_one, c')
    unfolding sec_key_revoke finish_revoke received respond_decode
    sec_key_revoke-unanswered attached c c' req h = bind-eq _ h (bind-eq _ empty refl)

  -- `secKeyRevoke` leaves the client's shared memory as it was, also where it returns 0: the key
  -- that it has revoked stays live there.
  pub sec_key_revoke-keeps_key :
      (attached : Bool) (reply : Reply) (c c' : Client) (ret : ℤ)
      → sec_key_revoke o p attached reply c ≡ some (ret, c')
      → c'.shm ≡ c.shm
  unfolding sec_key_revoke finish_revoke
  sec_key_revoke-keeps_key attached reply c c' ret h =
      let (sent, e, h₁) = bind-some (start_key_request o p key_revoke attached c) _ h in
      kept sent e h₁
    where
      kept :
          (sent : Option (RequestInfo × Client))
          → start_key_request o p key_revoke attached c ≡ some sent
          → or_refused o p sent (finish_revoke o p reply) c ≡ some (ret, c')
          → c'.shm ≡ c.shm
      kept none e h₁ = ground (arith, h₁)
      kept (some (req, c₁)) e h₁ =
          let (msg, d, h₂) =
            bind-some (respond_decode p (RespondCodec.decoding (received reply))) _ h₁ in
          ground
            (arith, h₂, (start_key_request-Requested o p key_revoke attached c c₁ req e).shm_same)

  -- `secKeyAgree` returns 0 although no node takes the key: a full table without the client's ids
  -- stays as it was.
  pub agree_finish-full :
      (node : Node) (first : Reply) (text : Bytes) (len : ℕ) (msg : RespondMsg) (c : Client)
      → respond_decode p (RespondCodec.decoding (c_str text)) ≡ some msg
      → msg.rv ≡ success
      → find node.client_id node.server_id c.shm ≡ none
      → count_free c.shm ≡ 0
      → agree_finish o p true node first (some (some text, len)) c ≡ some (pos 0, c)
  agree_finish-full node first text len msg c d ok absent full =
      agree_finish_lem o p true node first text len msg c d ok
      ∙ ap (λ r. some (pos 0, record c { shm = r.1 }))
          ((shm_write-full (record node { seckey_id = atoi msg.body }) c.shm).1 (absent, full))
