-- ===== src/Client/Steps.antt =====
-- The client's steps of the key agreement, one by one.
use secure_data_transmission.Base.{
  ℕ, ◌+◌, ◌<◌, ◌≡◌, ◌∙◌, refl, ap, Bool, some, ◌∷◌, ◌++◌, length, drop, ℤ, pos, minus_one, Bytes,
  c_str, strcpy_fits, c_str-strcpy, length-strcpy, bind-eq, if◌then◌else◌, atoi,
}
use secure_data_transmission.Shm.{Node, shm_write}
use secure_data_transmission.Crypto.{OpenSsl}
use secure_data_transmission.Messages.{
  Protobuf, RequestInfo, RespondMsg, RespondCodec, new_request, random_num, respond_decode, success,
}
use secure_data_transmission.Client.{
  Client, Reply, received, parse_body, is_success, agree_start, agree_premaster, agree_finish,
  second_text, after_first, copy_ids, second_request, send,
}

-- The client's ids fit the arrays of 12 bytes.
pub record ClientFits (c : Client) : Type 0 where
  pub client_fits : length (c_str c.client_id) < 12
  pub server_fits : length (c_str c.server_id) < 12

-- A request with both ids copied into it is otherwise as it was.
pub record Copied (client server : Bytes) (base req : RequestInfo) : Type 0 where
  pub client_is : c_str req.client_id ≡ c_str client
  pub server_is : c_str req.server_id ≡ c_str server
  pub client_size : length req.client_id ≡ length base.client_id
  pub server_size : length req.server_id ≡ length base.server_id
  pub kind_is : req.kind ≡ base.kind
  pub code_is : req.auth_code ≡ base.auth_code
  pub key_is : req.key_id ≡ base.key_id

pub copy_ids-Copied :
    (client server : Bytes) (base : RequestInfo)
    → length (c_str client) < length base.client_id
    → length (c_str server) < length base.server_id
    → (req : RequestInfo) × (copy_ids client server base ≡ some req) × Copied client server base req
unfolding copy_ids
copy_ids-Copied client server base hc hs =
    let c = strcpy_fits base.client_id client hc in
    let s = strcpy_fits base.server_id server hs in
    (
      record base {
        client_id = c_str client ++ 0 ∷ drop (length (c_str client) + 1) base.client_id;
        server_id = c_str server ++ 0 ∷ drop (length (c_str server) + 1) base.server_id;
      },
      rw (c, s) refl,
      record {
        client_is = c_str-strcpy base.client_id client c;
        server_is = c_str-strcpy base.server_id server s;
        client_size = length-strcpy base.client_id client c;
        server_size = length-strcpy base.server_id server s;
        kind_is = refl;
        code_is = refl;
        key_is = refl;
      },
    )

-- The first request: the ids, the type and the random text.
pub record First (c : Client) (random : Bytes) (uninitialised : ℤ) (first : RequestInfo)
    : Type 0 where
  pub copied : Copied c.client_id c.server_id (new_request random_num uninitialised) first
  pub body_is : first.body ≡ random

pub agree_start-First :
    (o : OpenSsl) (p : Protobuf) (random : Bytes) (uninitialised : ℤ) (c : Client)
    → ClientFits c
    → (first : RequestInfo) × ((c' : Client) × (agree_start o p random uninitialised c
          ≡ some (first, c'))
        × First c random uninitialised first
        × (c'.client_id ≡ c.client_id)
        × (c'.server_id ≡ c.server_id)
        × (c'.shm ≡ c.shm))
unfolding agree_start send new_request
agree_start-First o p random uninitialised c f =
    let (req, e, k) =
      copy_ids-Copied c.client_id c.server_id (new_request random_num uninitialised) f.client_fits
        f.server_fits in
    let first : RequestInfo = record req { body = random } in
    (
      first,
      (
        send o p first c,
        bind-eq _ e refl,
        record {
          copied = record {
            client_is = k.client_is;
            server_is = k.server_is;
            client_size = k.client_size;
            server_size = k.server_size;
            kind_is = k.kind_is;
            code_is = k.code_is;
            key_is = k.key_is;
          };
          body_is = refl;
        },
        refl,
        refl,
        refl,
      ),
    )

module _ (o : OpenSsl) (p : Protobuf) where
  -- `secKeyAgree` goes on to its second request once a successful first answer has been taken apart.
  pub agree_premaster-second_request :
      (first : RequestInfo) (random server_random public_key premaster : Bytes) (reply : Reply)
      (msg : RespondMsg) (c : Client) (second : RequestInfo) (n : Node) (c' : Client)
      → respond_decode p (RespondCodec.decoding (received reply)) ≡ some msg
      → msg.rv ≡ success
      → parse_body msg.body ≡ some (server_random, public_key)
      → second_request o p first random server_random public_key premaster c ≡ some (second, n, c')
      → agree_premaster o p first random premaster reply c ≡ some (some (second, n, c'))
  unfolding agree_premaster after_first
  agree_premaster-second_request first random server_random public_key premaster reply msg c second
        n c' d ok b r =
      bind-eq _ d (
        ap (λ v. after_first o p first random premaster c (is_success v) msg.body) ok
        ∙ bind-eq _ b (bind-eq _ r refl))

  -- `secKeyAgree` ends with 0 once a successful second answer is there; the key id is the number
  -- that it holds.
  pub agree_finish_lem :
      (attached : Bool) (node : Node) (first : Reply) (text : Bytes) (len : ℕ) (msg : RespondMsg)
      (c : Client)
      → respond_decode p (RespondCodec.decoding (c_str text)) ≡ some msg
      → msg.rv ≡ success
      → agree_finish o p attached node first (some (some text, len)) c
        ≡ some (
          pos 0,
          record c {
            shm = (shm_write attached (record node { seckey_id = atoi msg.body }) c.shm).1;
          },
        )
  unfolding agree_finish second_text
  agree_finish_lem attached node first text len msg c d ok = bind-eq _ d (
      ap
        (λ v. some (
          if is_success v
          then (
            pos 0,
            record c {
              shm = (shm_write attached (record node { seckey_id = atoi msg.body }) c.shm).1;
            },
          )
          else (minus_one, c)))
        ok)
