-- ===== src/Shm/Status.antt =====
-- What `updateStatue` promises.
use secure_data_transmission.Base.{
  length, false, Bool, ◌≡◌, refl, ◌⊎◌, ◌↔◌, inl, inr, true, Option, none, some, List, [], ◌∷◌,
  arith, Bool-cases, Option-cases, if◌then◌else◌, ℤ, pos, minus_one, int_eq, int_eq_iff, Bytes,
}
use secure_data_transmission.Shm.{Node, same_ids, find, set_status, update_statue}
use secure_data_transmission.Shm.ClientShm.{client_update_statue}

-- The first node with a key id.
abbrev pub find_key : ℤ → List Node → Option Node
find_key keyid [] = none
find_key keyid (n ∷ ns) = if int_eq n.seckey_id keyid then some n else find_key keyid ns

set_status-find_key :
    (keyid state : ℤ) (shm : List Node)
    → (set_status keyid state shm ≡ none) ↔ (find_key keyid shm ≡ none)
unfolding set_status
set_status-find_key keyid state [] = ((λ _. refl), (λ _. refl))
set_status-find_key keyid state (n ∷ ns) = ground (arith, set_status-find_key keyid state ns)

find_key-set_status :
    (keyid state : ℤ) (n : Node) (shm shm' : List Node)
    → set_status keyid state shm ≡ some shm'
    → find_key keyid shm ≡ some n
    → find_key keyid shm' ≡ some (record n { status = state })
unfolding set_status
find_key-set_status keyid state n [] shm' h f = cc
find_key-set_status keyid state n (m ∷ ms) shm' h f =
    elim (Option-cases (set_status keyid state ms)) [
      | inl e ↦ ground arith
      | inr (rs, e) ↦ ground (arith, find_key-set_status keyid state n ms rs e)
    ]

-- `updateStatue` returns 1 when a node has the key id, and the first such node then has the new
-- state and is otherwise as it was.
pub update_statue-found :
    (keyid state : ℤ) (n : Node) (shm : List Node)
    → find_key keyid shm ≡ some n
    → ((update_statue true keyid state shm).0 ≡ pos 1)
      × (find_key keyid (update_statue true keyid state shm).1 ≡ some (record n { status = state }))
unfolding update_statue
update_statue-found keyid state n shm h = elim (Option-cases (set_status keyid state shm)) [
  | inl e ↦ ground (arith, set_status-find_key keyid state shm)
  | inr (rs, e) ↦ ground (arith, find_key-set_status keyid state n shm rs e h)
]

find-set_status :
    (keyid state : ℤ) (client server : Bytes) (shm shm' : List Node)
    → set_status keyid state shm ≡ some shm'
    → (find client server shm' ≡ find client server shm)
      ⊎ ((n : Node) × (find client server shm ≡ some n)
          × (n.seckey_id ≡ keyid)
          × (find client server shm' ≡ some (record n { status = state })))
unfolding set_status find same_ids
find-set_status keyid state client server [] shm' h = cc
find-set_status keyid state client server (m ∷ ms) shm' h =
    elim (Bool-cases (int_eq m.seckey_id keyid)) [
      | inl hit ↦ elim (Bool-cases (same_ids client server m)) [
        | inl same ↦
            inr (m, ground arith, ground (arith, int_eq_iff m.seckey_id keyid), ground arith)
        | inr other ↦ inl (ground arith)
      ]
      | inr miss ↦ elim (Option-cases (set_status keyid state ms)) [
        | inl e ↦ ground arith
        | inr (rs, e) ↦ elim (Bool-cases (same_ids client server m)) [
          | inl same ↦ inl (ground arith)
          | inr other ↦ elim (find-set_status keyid state client server ms rs e) [
            | inl keep ↦ inl (ground arith)
            | inr (n, f, k, g) ↦ inr (n, ground arith, k, ground arith)
          ]
        ]
      ]
    ]

-- Whatever key id and state it is given, `updateStatue` leaves the answer under a pair of ids as it
-- was, or sets the state of the node found there, and that only if its key id is the given one.
pub find-update_statue :
    (keyid state : ℤ) (client server : Bytes) (shm : List Node)
    → let shm' = (update_statue true keyid state shm).1 in
      (find client server shm' ≡ find client server shm)
      ⊎ ((n : Node) × (find client server shm ≡ some n)
          × (n.seckey_id ≡ keyid)
          × (find client server shm' ≡ some (record n { status = state })))
unfolding update_statue
find-update_statue keyid state client server shm =
    elim (Option-cases (set_status keyid state shm)) [
      | inl e ↦ inl (rw (e, update_statue))
      | inr (rs, e) ↦ rw (e, update_statue) (find-set_status keyid state client server shm rs e)
    ]

-- The client's `updateStatue` makes the same table as the server's. They part in the return code
-- alone, and exactly when no node has the key id: the server's is -1 there, the client's is 1.
pub client_update_statue-update_statue :
    (keyid state : ℤ) (shm : List Node)
    → ((client_update_statue true keyid state shm).1 ≡ (update_statue true keyid state shm).1)
      × ((client_update_statue true keyid state shm).0 ≡ pos 1)
      × (((update_statue true keyid state shm).0 ≡ minus_one) ↔ (find_key keyid shm ≡ none))
unfolding client_update_statue update_statue
client_update_statue-update_statue keyid state shm =
    elim (Option-cases (set_status keyid state shm)) [
      | inl e ↦ ground (arith, set_status-find_key keyid state shm)
      | inr (rs, e) ↦ ground (arith, set_status-find_key keyid state shm)
    ]

-- `updateStatue` returns -1 or 1, and nothing else.
pub update_statue_code :
    (attached : Bool) (keyid state : ℤ) (shm : List Node)
    → ((update_statue attached keyid state shm).0 ≡ minus_one)
      ⊎ ((update_statue attached keyid state shm).0 ≡ pos 1)
unfolding update_statue
update_statue_code false keyid state shm = inl refl
update_statue_code true keyid state shm = ground (arith, Option-cases (set_status keyid state shm))

length-set_status :
    (keyid state : ℤ) (shm shm' : List Node)
    → set_status keyid state shm ≡ some shm'
    → length shm' ≡ length shm
unfolding set_status
length-set_status keyid state [] shm' h = cc
length-set_status keyid state (n ∷ ns) shm' h = elim (Option-cases (set_status keyid state ns)) [
  | inl e ↦ ground arith
  | inr (ms, e) ↦ ground (arith, length-set_status keyid state ns ms e)
]

-- `updateStatue` keeps the table's size.
pub length-update_statue :
    (attached : Bool) (keyid state : ℤ) (shm : List Node)
    → length (update_statue attached keyid state shm).1 ≡ length shm
unfolding update_statue
length-update_statue false keyid state shm = refl
length-update_statue true keyid state shm = elim (Option-cases (set_status keyid state shm)) [
  | inl e ↦ ground (arith, e)
  | inr (ms, e) ↦ ground (arith, length-set_status keyid state shm ms e)
]
