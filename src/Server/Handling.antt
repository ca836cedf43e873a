-- ===== src/Server/Handling.antt =====
-- What every request has in common: what a sequence of them does to the answers and to the table.
use mathlib.Core.Option.{some-injective}
use secure_data_transmission.Base.{
  map, subst, ℕ, ◌+◌, ◌≤◌, ◌≡◌, ◌∙◌, refl, ap, sym, Bool, true, false, not, ◌&&◌, Option, none,
  some, List, [], ◌∷◌, ◌++◌, append_assoc, append-nil, arith, length, length-append, map-append,
  Bool-cases, inl, inr, bind-some, pos, minus_one, int_eq, ℤ, Bytes, bytes_eq,
}
use secure_data_transmission.Shm.{Node, update_statue}
use secure_data_transmission.Shm.Write.{length-shm_write}
use secure_data_transmission.Shm.Status.{length-update_statue}
use secure_data_transmission.Crypto.{OpenSsl, rsa_pri_key_decrypt}
use secure_data_transmission.Messages.{
  RespondCodec, respond_encode, Protobuf, RequestMsg, RespondInfo, RequestCodec, request_decode,
  random_num, pre_key, key_check, key_revoke, unknown_type, MsgType,
}
use secure_data_transmission.Mysql.{Mysql, KeyRow, write_sec_key, updata_key_state}
use secure_data_transmission.Server.{
  Inputs, Server, start_respond, fill_node, auth_code_of, auth_key_of, ende_key_of, lookup, erase,
  reply, answered, random_num_answer, premaster_answer, check_answer, revoke_answer,
  client_random_num, client_premaster, key_check_request, key_revoke_request, dispatch, handle_all,
  store_premaster, finish_premaster, match_key, check_matched, store_key, revoke_matched,
}

module _ (o : OpenSsl) (p : Protobuf) (m : Mysql) where
  -- Nothing is sent, and the table keeps its size.
  abbrev pub Quiet : Server m → Server m → Type 0
  Quiet s t = (t.outbox ≡ s.outbox) × (length t.shm ≡ length s.shm)

  random_num_answer-Quiet :
      (inp : Inputs) (req : RequestMsg) (fd : ℕ) (s t : Server m) (info : RespondInfo)
      → random_num_answer o p m inp req fd s ≡ some (info, t)
      → Quiet s t
  unfolding random_num_answer
  random_num_answer-Quiet inp req fd s t info h =
      let (i, e, h₁) = bind-some (start_respond random_num req) _ h in ground (arith, h₁)

  finish_premaster-Quiet :
      (inp : Inputs) (n : Node) (info : RespondInfo) (s : Server m) (w : Bool × ℤ × m.Db)
      → Quiet s (finish_premaster o p m inp n info s w).1
  unfolding finish_premaster
  finish_premaster-Quiet inp n info s (false, keyid, db) = (refl, refl)
  finish_premaster-Quiet inp n info s (true, keyid, db) =
      (refl, length-shm_write inp.attached (record n { seckey_id = keyid; status = pos 1 }) s.shm)

  premaster_answer-Quiet :
      (inp : Inputs) (req : RequestMsg) (fd : ℕ) (s t : Server m) (info : RespondInfo)
      → premaster_answer o p m inp req fd s ≡ some (info, t)
      → Quiet s t
  unfolding premaster_answer store_premaster
  premaster_answer-Quiet inp req fd s t info h =
      let (i, e₁, h₁) = bind-some (start_respond pre_key req) _ h in
      let (premaster, e₂, h₂) = bind-some (rsa_pri_key_decrypt o req.body) _ h₁ in
      let (client, server) = lookup fd s.random_nums in
      let auth_key = auth_key_of client server premaster in
      let ende_key = ende_key_of client server premaster in
      let u : Server m = record s { random_nums = erase fd s.random_nums } in
      elim (Bool-cases (bytes_eq (auth_code_of o p m auth_key req.body) req.auth_code)) [
        | inr differs ↦ ground (arith, h₂)
        | inl same ↦
            let (n, e₃, h₃) = bind-some (fill_node req auth_key ende_key) _ (rw same at h₂) in
            let (w, e₄, h₄) = bind-some (write_sec_key m n inp.time minus_one s.db) _ h₃ in
            ground (arith, h₄, finish_premaster-Quiet inp n i u w)
      ]

  check_matched-Quiet :
      (inp : Inputs) (req : RequestMsg) (info answer : RespondInfo) (s t : Server m)
      (row : Option KeyRow)
      → check_matched o p m inp req info s row ≡ some (answer, t)
      → Quiet s t
  unfolding check_matched store_key
  check_matched-Quiet inp req info answer s t none h = ground (arith, h)
  check_matched-Quiet inp req info answer s t (some row) h =
      let (n, e, h₁) = bind-some (fill_node req row.2 row.3) _ h in
      ground (
        arith,
        h₁,
        length-shm_write inp.attached (record n { seckey_id = req.keyid; status = pos 1 }) s.shm,
      )

  pub check_answer-Quiet :
      (inp : Inputs) (req : RequestMsg) (s t : Server m) (info : RespondInfo)
      → check_answer o p m inp req s ≡ some (info, t)
      → Quiet s t
  unfolding check_answer
  check_answer-Quiet inp req s t info h =
      let (i, e₁, h₁) = bind-some (start_respond key_check req) _ h in
      let (r, e₂, h₂) = bind-some (match_key o p m req s.db) _ h₁ in
      check_matched-Quiet inp req i info (record s { db = r.1 }) t r.0 h₂

  revoke_matched-Quiet :
      (inp : Inputs) (req : RequestMsg) (info answer : RespondInfo) (s t : Server m)
      (row : Option KeyRow)
      → revoke_matched o p m inp req info s row ≡ some (answer, t)
      → Quiet s t
  unfolding revoke_matched
  revoke_matched-Quiet inp req info answer s t none h = ground (arith, h)
  revoke_matched-Quiet inp req info answer s t (some row) h =
      let (ret, shm) = update_statue inp.attached req.keyid (pos 0) s.shm in
      let size = length-update_statue inp.attached req.keyid (pos 0) s.shm in
      elim (Bool-cases (not (int_eq ret minus_one) && not (int_eq ret (pos 1)))) [
        | inl odd ↦ ground (arith, h, size)
        | inr even ↦
            let ((done, db'), e, h₁) =
              bind-some (updata_key_state m req.keyid (pos 0) s.db) _ (rw even at h) in
            ground (arith, h₁, size)
      ]

  pub revoke_answer-Quiet :
      (inp : Inputs) (req : RequestMsg) (s t : Server m) (info : RespondInfo)
      → revoke_answer o p m inp req s ≡ some (info, t)
      → Quiet s t
  unfolding revoke_answer
  revoke_answer-Quiet inp req s t info h =
      let (i, e₁, h₁) = bind-some (start_respond key_revoke req) _ h in
      let (r, e₂, h₂) = bind-some (match_key o p m req s.db) _ h₁ in
      revoke_matched-Quiet inp req i info (record s { db = r.1 }) t r.0 h₂

  -- The texts that have been sent to a descriptor since, no more than `n` of them, and the table's
  -- size.
  pub record Handled (n fd : ℕ) (s t : Server m) : Type 0 where
    pub sent : List Bytes
    pub few : length sent ≤ n
    pub outbox_is : t.outbox ≡ s.outbox ++ map (λ text. (fd, text)) sent
    pub size_same : length t.shm ≡ length s.shm

  answered-Handled :
      (fd : ℕ) (s t : Server m) (r : Option (RespondInfo × Server m))
      → ((info : RespondInfo) (u : Server m) → r ≡ some (info, u) → Quiet s u)
      → answered o p m fd r ≡ some t
      → Handled 1 fd s t
  unfolding answered reply
  answered-Handled fd s t none q h = cc
  answered-Handled fd s t (some (info, u)) q h =
      let k = q info u refl in
      let e = some-injective _ _ h in
      record {
        sent = respond_encode p (RespondCodec.encoding info) ∷ [];
        few = omega arith;
        outbox_is =
            sym (ap (λ x. x.outbox) e)
            ∙ ap (λ l. l ++ (fd, respond_encode p (RespondCodec.encoding info)) ∷ []) k.0;
        size_same = sym (ap (λ x. length x.shm) e) ∙ k.1;
      }

  dispatch-Handled :
      (inp : Inputs) (req : RequestMsg) (fd : ℕ) (s t : Server m)
      → dispatch o p m inp req fd s ≡ some t
      → Handled 1 fd s t
  unfolding dispatch client_random_num client_premaster key_check_request key_revoke_request
      random_num_answer premaster_answer check_answer revoke_answer
  dispatch-Handled inp req fd s t h = by_kind req.kind refl
    where
      by_kind : (kind : MsgType) → req.kind ≡ kind → Handled 1 fd s t
      by_kind random_num e =
          answered-Handled fd s t (random_num_answer o p m inp req fd s)
            (λ info u q. random_num_answer-Quiet inp req fd s u info q) (rw e at h)
      by_kind pre_key e =
          answered-Handled fd s t (premaster_answer o p m inp req fd s)
            (λ info u q. premaster_answer-Quiet inp req fd s u info q) (rw e at h)
      by_kind key_check e =
          answered-Handled fd s t (check_answer o p m inp req s)
            (λ info u q. check_answer-Quiet inp req s u info q) (rw e at h)
      by_kind key_revoke e =
          answered-Handled fd s t (revoke_answer o p m inp req s)
            (λ info u q. revoke_answer-Quiet inp req s u info q) (rw e at h)
      by_kind (unknown_type n) e =
          let same = some-injective _ _ (rw e at h) in
          record {
            sent = [];
            few = omega arith;
            outbox_is = sym (ap (λ x. x.outbox) same) ∙ sym (append-nil s.outbox);
            size_same = sym (ap (λ x. length x.shm) same);
          }

  Handled-append :
      (i j fd : ℕ) (s t u : Server m) → Handled i fd s t → Handled j fd t u → Handled (i + j) fd s u
  Handled-append i j fd s t u a b = record {
    sent = a.sent ++ b.sent;
    few = omega (arith, length-append a.sent b.sent, a.few, b.few);
    outbox_is =
        b.outbox_is
        ∙ ap (λ l. l ++ map (λ text. (fd, text)) b.sent) a.outbox_is
        ∙ append_assoc s.outbox (map (λ text. (fd, text)) a.sent) (map (λ text. (fd, text)) b.sent)
        ∙ ap (λ l. s.outbox ++ l) (sym (map-append (λ text. (fd, text)) a.sent b.sent));
    size_same = b.size_same ∙ a.size_same;
  }

  -- Whatever messages a connection delivers, each one that is handled is answered once at most, and
  -- to that connection alone; what was sent before stays as it was, and the table of keys keeps its
  -- size.
  pub handle_all-Handled :
      (inp : ℕ → Inputs) (i fd : ℕ) (msgs : List Bytes) (s t : Server m)
      → handle_all o p m inp i fd msgs s ≡ some t
      → Handled (length msgs) fd s t
  unfolding handle_all
  handle_all-Handled inp i fd [] s t h =
      let same = some-injective _ _ h in
      record {
        sent = [];
        few = omega arith;
        outbox_is = sym (ap (λ x. x.outbox) same) ∙ sym (append-nil s.outbox);
        size_same = sym (ap (λ x. length x.shm) same);
      }
  handle_all-Handled inp i fd (msg ∷ msgs) s t h =
      let (req, e₁, h₁) = bind-some (request_decode p (RequestCodec.decoding msg)) _ h in
      let (u, e₂, h₂) = bind-some (dispatch o p m (inp i) req fd s) _ h₁ in
      subst (λ n. Handled n fd s t) (omega arith)
        (Handled-append 1 (length msgs) fd s u t (dispatch-Handled (inp i) req fd s u e₂)
          (handle_all-Handled inp (i + 1) fd msgs u t h₂))
