-- ===== src/Shm/Views.antt =====
-- The key table as a map from pairs of ids to nodes, and its operations on that map.
use secure_data_transmission.Base.{
  subst, ◌∷◌, ◌≡◌, ◌⊎◌, refl, ap, Bool, true, false, Option, some, List, [], Bytes, ℤ, pos,
  minus_one, int_eq, if◌then◌else◌, inl, inr, Bool-cases, Option-cases, arith,
}
use secure_data_transmission.Shm.{
  Node, find, same_ids, shm_write, update_statue, overwrite, fill_free,
}
use secure_data_transmission.Shm.Lookup.{same_ids→, SameIds, NoIds}
use secure_data_transmission.Shm.Write.{find-shm_write, shm_write-code}
use secure_data_transmission.Shm.Status.{find-update_statue}

-- The table as its readers see it: order and free nodes are forgotten.
abbrev pub View : Type 0
View = Bytes → Bytes → Option Node

abbrev pub view : List Node → View
view shm client server = find client server shm

-- For every pair of ids but that of two empty texts.
abbrev pub EveryPair : (Bytes → Bytes → Type 0) → Type 0
EveryPair P = (client server : Bytes) → ¬ NoIds client server → P client server

-- The three changes of a map: none; a node under its ids; another state for the nodes of a key id.
abbrev pub IsSame : View → View → Type 0
IsSame v w = EveryPair (λ client server. w client server ≡ v client server)

abbrev pub IsPut : Node → View → View → Type 0
IsPut n v w = EveryPair (λ client server.
    w client server ≡ (if same_ids client server n then some n else v client server))

abbrev pub IsRevoked : ℤ → View → View → Type 0
IsRevoked keyid v w = EveryPair (λ client server.
    (w client server ≡ v client server)
    ⊎ ((n : Node) × (v client server ≡ some n)
        × (n.seckey_id ≡ keyid)
        × (w client server ≡ some (record n { status = pos 0 }))))

shm_write-refused :
    (new : Node) (shm : List Node)
    → int_eq (shm_write true new shm).0 minus_one ≡ true
    → (shm_write true new shm).1 ≡ shm
unfolding shm_write
shm_write-refused new shm refused = elim (Option-cases (overwrite new shm)) [
  | inl e ↦ elim (Option-cases (fill_free new shm)) [
    | inl f ↦ ground arith
    | inr (ms, f) ↦ ground arith
  ]
  | inr (ms, e) ↦ ground arith
]

-- A write puts the node, or changes nothing.
pub shm_write-view :
    (attached : Bool) (new : Node) (shm : List Node)
    → IsSame (view shm) (view (shm_write attached new shm).1)
      ⊎ IsPut new (view shm) (view (shm_write attached new shm).1)
unfolding shm_write
shm_write-view false new shm = inl (λ client server ne. refl)
shm_write-view true new shm = elim (Bool-cases (int_eq (shm_write true new shm).0 minus_one)) [
  | inl refused ↦
      inl (λ client server ne. ap (find client server) (shm_write-refused new shm refused))
  | inr fits ↦ inr (λ client server ne.
      find-shm_write new shm (shm_write true new shm).1 (shm_write-code new shm fits) client server
        ne)
]

-- A revocation changes the state of the nodes of its key id alone.
pub update_statue-view :
    (attached : Bool) (keyid : ℤ) (shm : List Node)
    → IsRevoked keyid (view shm) (view (update_statue attached keyid (pos 0) shm).1)
unfolding update_statue
update_statue-view false keyid shm client server ne = inl refl
update_statue-view true keyid shm client server ne =
    find-update_statue keyid (pos 0) client server shm

-- A node is found under its own ids.
pub find-SameIds :
    (client server : Bytes) (shm : List Node) (n : Node)
    → find client server shm ≡ some n
    → SameIds client server n
unfolding find
find-SameIds client server [] n h = cc
find-SameIds client server (m ∷ ms) n h = elim (Bool-cases (same_ids client server m)) [
  | inl same ↦
      subst (λ x. SameIds client server x) {x = m} {y = n} (ground (arith, h, same))
        (same_ids→ client server m same)
  | inr other ↦ find-SameIds client server ms n (ground (arith, h, other))
]
