-- ===== src/Samples/Documents.antt =====
-- The sample libraries keep what the development takes of the real ones.
use mathlib.Core.Option.{some-injective}
use secure_data_transmission.Base.{
  lt→ltb, true, codes, false, minus_one, ◌<◌, atoi, ◌-◌, length-append, length-replicate, take-all,
  replicate, dec_lt, suc, sym, negsuc, pos, ℤ, ℕ, ◌≡◌, ◌∙◌, refl, ap, ap₂, some, [], ◌∷◌, ◌++◌,
  arith, Bytes, c_str, bind-eq, length, take, take-length-append, drop-length-append,
}
use secure_data_transmission.Shm.{Node}
use secure_data_transmission.Messages.{
  random_num, pre_key, key_check, key_revoke, success, auth_err, server_err, unknown_rv,
  unknown_type, MsgType, Rv, RequestMsg, RespondMsg, RoundTrips,
}
use secure_data_transmission.Protocol.{Documented, NoNul}
use secure_data_transmission.Protocol.Granting.{NodeFits}
use secure_data_transmission.Mysql.{write_sec_key, transact, read_id}
use secure_data_transmission.Mysql.Queries.{sql_fits}
use secure_data_transmission.Samples.{sample_mysql}
use secure_data_transmission.Samples.{
  sample_decrypt, sample_encrypt, put_int, put_rv, put_type, get_int, get_rv, get_type, sample_ssl,
  sample_protobuf, put_text, get_text, write_request, parse_request, write_respond, parse_respond,
}

get_text-put_text : (t rest : Bytes) → get_text (put_text t rest) ≡ some (t, rest)
unfolding put_text get_text
get_text-put_text t rest = ground (arith, take-length-append t rest, drop-length-append t rest)

get_type-put_type : (k : MsgType) → get_type (put_type k) ≡ k
get_type-put_type random_num = refl
get_type-put_type pre_key = refl
get_type-put_type key_check = refl
get_type-put_type key_revoke = refl
get_type-put_type (unknown_type n) = refl

get_rv-put_rv : (v : Rv) → get_rv (put_rv v) ≡ v
get_rv-put_rv success = refl
get_rv-put_rv auth_err = refl
get_rv-put_rv server_err = refl
get_rv-put_rv (unknown_rv n) = refl

get_int-put_int : (z : ℤ) → get_int (put_int z) ≡ z
get_int-put_int (pos n) = refl
get_int-put_int (negsuc n) = refl

parse_request-write_request : (msg : RequestMsg) → parse_request (write_request msg) ≡ some msg
unfolding parse_request write_request
parse_request-write_request msg = bind-eq _ (get_text-put_text msg.client_id _) (
    bind-eq _ (get_text-put_text msg.auth_code _) (
      bind-eq _ (get_text-put_text msg.server_id _) (
        bind-eq _ (get_text-put_text msg.sign _) (
          bind-eq _ (get_text-put_text msg.body (put_int msg.keyid)) (
            ap₂ (λ k z. some (record msg { kind = k; keyid = z })) (get_type-put_type msg.kind)
              (get_int-put_int msg.keyid))))))

parse_respond-write_respond : (msg : RespondMsg) → parse_respond (write_respond msg) ≡ some msg
unfolding parse_respond write_respond
parse_respond-write_respond msg = bind-eq _ (get_text-put_text msg.client_id _) (
    bind-eq _ (get_text-put_text msg.server_id _) (
      bind-eq _ (get_text-put_text msg.sign _) (
        bind-eq _ (get_text-put_text msg.auth_code _) (
          bind-eq _ (get_text-put_text msg.body []) (
            ap₂ (λ k v. some (record msg { kind = k; rv = v })) (get_type-put_type msg.kind)
              (get_rv-put_rv msg.rv))))))

pub sample-RoundTrips : RoundTrips sample_protobuf
sample-RoundTrips = record {
  request_back = λ msg h. parse_request-write_request msg;
  respond_back = parse_respond-write_respond;
}

c_str-append : (t rest : Bytes) → c_str t ≡ t → c_str (t ++ rest) ≡ t ++ c_str rest
unfolding c_str
c_str-append [] rest h = refl
c_str-append (b ∷ t) rest h = ground (arith, c_str-append t rest)

c_str-put_text :
    (t rest : Bytes) → c_str t ≡ t → c_str rest ≡ rest → c_str (put_text t rest) ≡ put_text t rest
unfolding c_str put_text
c_str-put_text t rest h k =
    ap (λ x. suc (length t) ∷ x) (c_str-append t rest h ∙ ap (λ x. t ++ x) k)

c_str-head :
    (k : MsgType) (v : Rv) (t : Bytes)
    → c_str t ≡ t
    → c_str (put_type k ∷ put_rv v ∷ t) ≡ put_type k ∷ put_rv v ∷ t
unfolding c_str
c_str-head k v t h = ground (arith, h)

write_respond-c_str : (msg : RespondMsg) → NoNul msg → c_str (write_respond msg) ≡ write_respond msg
unfolding write_respond c_str
write_respond-c_str msg h =
    let body = c_str-put_text msg.body [] h.body_text refl in
    let code = c_str-put_text msg.auth_code _ h.code_text body in
    let sign = c_str-put_text msg.sign _ h.sign_text code in
    let server = c_str-put_text msg.server_id _ h.server_text sign in
    let client = c_str-put_text msg.client_id _ h.client_text server in
    c_str-head msg.kind msg.rv _ client

sample_ssl_lem :
    (text code : Bytes)
    → sample_encrypt text ≡ some code
    → (length code ≡ 64) × (sample_decrypt (take 64 code) ≡ some text)
unfolding sample_encrypt sample_decrypt
sample_ssl_lem text code h = elim (dec_lt (length text) 64) [
  | no p ↦ ground (arith, h)
  | yes p ↦
      let whole : Bytes = length text ∷ (text ++ replicate (63 - length text) 0) in
      let size : length whole ≡ 64 = omega (
        arith,
        length-append text (replicate (63 - length text) 0),
        length-replicate {A = ℕ} (63 - length text) 0,
      ) in
      let is : code ≡ whole = ground (arith, h) in
      (
        ap length is ∙ size,
        ground (
          arith,
          is,
          take-all 64 whole,
          size,
          take-length-append text (replicate (63 - length text) 0),
        ),
      )
]

-- The sample libraries are as the agreement needs them.
pub sample_documented : Documented sample_ssl sample_protobuf
sample_documented = record {
  back = sample-RoundTrips;
  decrypts = λ text code e. (sample_ssl_lem text code e).1;
  long_enough = λ text code e. omega (arith, (sample_ssl_lem text code e).0);
  mac_length = λ key text mac e. ap length (sym (some-injective _ _ e));
  no_nul = λ msg k h. write_respond-c_str msg h;
}

-- The sample database takes every node that fits, under the key id 7.
pub sample_takes_node :
    (node : Node) (time : Bytes)
    → NodeFits node
    → length (c_str time) < 64
    → write_sec_key sample_mysql node time minus_one (false, (some (codes "7") ∷ []) ∷ [])
      ≡ some (true, pos 7, (false, (some (codes "7") ∷ []) ∷ []))
unfolding write_sec_key transact read_id atoi
sample_takes_node node time f h =
    let (select, update, insert) =
      sql_fits (pos 7) (pos 0) node time (omega arith) (omega arith) f.client_fits f.server_fits
        f.auth_fits f.ende_fits h in
    rw (lt→ltb _ _ insert) refl
