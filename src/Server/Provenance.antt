-- ===== src/Server/Provenance.antt =====
-- Where the live keys of the table come from.
use mathlib.Core.Option.{some-injective}
use secure_data_transmission.Base.{
  ℕ, ◌+◌, ◌≡◌, ◌∙◌, ap, sym, ◌⊎◌, inl, inr, subst, some, List, [], ◌∷◌, Bytes, pos, arith,
  bind-some, Bool-cases,
}
use secure_data_transmission.Shm.{Node, find, same_ids}
use secure_data_transmission.Shm.Lookup.{NoIds, SameIds, same_ids→}
use secure_data_transmission.Shm.Views.{view}
use secure_data_transmission.Crypto.{OpenSsl}
use secure_data_transmission.Messages.{Protobuf, RequestMsg, RequestCodec, request_decode}
use secure_data_transmission.Mysql.{Mysql}
use secure_data_transmission.Server.{Inputs, Server, dispatch, handle_all}
use secure_data_transmission.Server.Service.{Earns, Change, keeps, puts, revokes}
use secure_data_transmission.Server.Service.Refine.{dispatch-Change}

module _ (o : OpenSsl) (p : Protobuf) (m : Mysql) where
  -- One of the messages has earned the node for its own ids, at the state in which it was handled.
  pub data Earned (inp : ℕ → Inputs) (fd : ℕ) (client server : Bytes) (n : Node)
      : ℕ → List Bytes → Server m → Type 0 where
    now :
        {i : ℕ} {msg : Bytes} {msgs : List Bytes} {s : Server m} (req : RequestMsg)
        → request_decode p (RequestCodec.decoding msg) ≡ some req
        → Earns o p m (inp i) req fd s n
        → SameIds req.client_id req.server_id n
        → SameIds client server n
        → Earned inp fd client server n i (msg ∷ msgs) s
    later :
        {i : ℕ} {msg : Bytes} {msgs : List Bytes} {s t : Server m} (req : RequestMsg)
        → request_decode p (RequestCodec.decoding msg) ≡ some req
        → dispatch o p m (inp i) req fd s ≡ some t
        → Earned inp fd client server n (i + 1) msgs t
        → Earned inp fd client server n i (msg ∷ msgs) s

  -- A live node after one request was there before, or is the one that the request has put.
  Change-live :
      (inp : Inputs) (req : RequestMsg) (fd : ℕ) (s t : Server m) (client server : Bytes) (n : Node)
      → ¬ NoIds client server
      → find client server t.shm ≡ some n
      → n.status ≡ pos 1
      → Change o p m inp req fd s (view s.shm) (view t.shm)
      → (find client server s.shm ≡ some n)
        ⊎ (Earns o p m inp req fd s n
            × SameIds req.client_id req.server_id n
            × SameIds client server n)
  Change-live inp req fd s t client server n ne q live (keeps same) =
      inl (sym (same client server ne) ∙ q)
  Change-live inp req fd s t client server n ne q live (puts new e ids up put) =
      elim (Bool-cases (same_ids client server new)) [
        | inl same ↦
            let is_new : new ≡ n = ground (arith, put client server ne, same, q) in
            inr (
              subst (λ x. Earns o p m inp req fd s x) is_new e,
              subst (λ x. SameIds req.client_id req.server_id x) is_new ids,
              subst (λ x. SameIds client server x) is_new (same_ids→ client server new same),
            )
        | inr other ↦ inl (ground (arith, put client server ne, other, q))
      ]
  Change-live inp req fd s t client server n ne q live (revokes row db k w changed) =
      elim (changed client server ne) [
        | inl same ↦ inl (sym same ∙ q)
        | inr (old, was, id, is) ↦
            let dead : record old { status = pos 0 } ≡ n = some-injective _ _ (sym is ∙ q) in
            absurd (ground (arith, ap (λ x. x.status) dead, live))
      ]

  -- Every live key has been earned: whatever messages a connection delivers, a live node that is found
  -- afterwards under a pair of ids was found there before, or one of the messages has earned it for
  -- that pair, by the premaster of its connection or by both keys of a usable row of the database.
  pub handle_all-Earned :
      (inp : ℕ → Inputs) (i fd : ℕ) (msgs : List Bytes) (s t : Server m) (client server : Bytes)
      (n : Node)
      → handle_all o p m inp i fd msgs s ≡ some t
      → ¬ NoIds client server
      → find client server t.shm ≡ some n
      → n.status ≡ pos 1
      → (find client server s.shm ≡ some n) ⊎ Earned inp fd client server n i msgs s
  unfolding handle_all
  handle_all-Earned inp i fd [] s t client server n h ne q live =
      inl (ap (λ x. find client server x.shm) (some-injective _ _ h) ∙ q)
  handle_all-Earned inp i fd (msg ∷ msgs) s t client server n h ne q live =
      let (req, d, h₁) = bind-some (request_decode p (RequestCodec.decoding msg)) _ h in
      let (u, e, h₂) = bind-some (dispatch o p m (inp i) req fd s) _ h₁ in
      elim (handle_all-Earned inp (i + 1) fd msgs u t client server n h₂ ne q live) [
        | inr w ↦ inr (later req d e w)
        | inl before ↦
            elim (Change-live (inp i) req fd s u client server n ne before live
              (dispatch-Change o p m (inp i) req fd s u e)) [
                | inl kept ↦ inl kept
                | inr (w, own, ids) ↦ inr (now req d w own ids)
              ]
      ]
