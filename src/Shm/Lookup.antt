-- ===== src/Shm/Lookup.antt =====
-- How `find` sees the two loops of `shmWrite`.
use secure_data_transmission.Base.{
  ◌≡◌, refl, true, none, some, List, [], ◌∷◌, arith, inl, inr, Bool-cases, Option-cases, ◌↔◌,
  if◌then◌else◌, Bytes, c_str, strcmp_eq, strcmp_eq_iff, all_zero-c_str,
}
use secure_data_transmission.Shm.{Node, is_free, same_ids, overwrite, fill_free, find}

-- The pair of ids under which a node is found.
abbrev pub SameIds : Bytes → Bytes → Node → Type 0
SameIds client server n = (c_str n.client_id ≡ c_str client) × (c_str n.server_id ≡ c_str server)

-- The pair under which a free node is found.
abbrev pub NoIds : Bytes → Bytes → Type 0
NoIds client server = (c_str client ≡ []) × (c_str server ≡ [])

pub same_ids→ :
    (client server : Bytes) (n : Node) → same_ids client server n ≡ true → SameIds client server n
unfolding same_ids
same_ids→ client server n h =
    ground (arith, strcmp_eq_iff n.client_id client, strcmp_eq_iff n.server_id server)

pub →same_ids :
    (client server : Bytes) (n : Node) → SameIds client server n → same_ids client server n ≡ true
unfolding same_ids
→same_ids client server n h =
    ground (arith, strcmp_eq_iff n.client_id client, strcmp_eq_iff n.server_id server)

is_free-NoIds : (n : Node) → is_free n ≡ true → NoIds n.client_id n.server_id
unfolding is_free
is_free-NoIds n h = ground (arith, all_zero-c_str n.client_id, all_zero-c_str n.server_id)

-- Two nodes of one pair of ids are found alike.
same_ids_trans :
    (client server : Bytes) (a b : Node)
    → same_ids a.client_id a.server_id b ≡ true
    → same_ids client server b ≡ same_ids client server a
same_ids_trans client server a b h = ground (
  arith,
  same_ids→ a.client_id a.server_id b h,
  same_ids→ client server a,
  same_ids→ client server b,
  →same_ids client server a,
  →same_ids client server b,
)

pub overwrite-find :
    (new : Node) (shm : List Node)
    → (overwrite new shm ≡ none) ↔ (find new.client_id new.server_id shm ≡ none)
unfolding overwrite find
overwrite-find new [] = ((λ _. refl), (λ _. refl))
overwrite-find new (n ∷ ns) = ground (arith, overwrite-find new ns)

pub find-overwrite :
    (new : Node) (client server : Bytes) (shm shm' : List Node)
    → overwrite new shm ≡ some shm'
    → find client server shm'
      ≡ (if same_ids client server new then some new else find client server shm)
unfolding overwrite find
find-overwrite new client server [] shm' h = cc
find-overwrite new client server (n ∷ ns) shm' h =
    elim (Bool-cases (same_ids new.client_id new.server_id n)) [
      | inl hit ↦ ground (arith, same_ids_trans client server new n hit)
      | inr miss ↦ elim (Option-cases (overwrite new ns)) [
        | inl e ↦ ground arith
        | inr (ms, e) ↦ ground (
          arith,
          find-overwrite new client server ns ms e,
          same_ids_trans client server n new,
          same_ids→ client server new,
          same_ids→ client server n,
          →same_ids new.client_id new.server_id n,
        )
      ]
    ]

pub find-fill_free :
    (new : Node) (client server : Bytes) (shm shm' : List Node)
    → ¬ NoIds client server
    → find new.client_id new.server_id shm ≡ none
    → fill_free new shm ≡ some shm'
    → find client server shm'
      ≡ (if same_ids client server new then some new else find client server shm)
unfolding fill_free find
find-fill_free new client server [] shm' ne fresh h = cc
find-fill_free new client server (n ∷ ns) shm' ne fresh h = elim (Bool-cases (is_free n)) [
  | inl free ↦ ground (arith, is_free-NoIds n free, same_ids→ client server n)
  | inr used ↦ elim (Option-cases (fill_free new ns)) [
    | inl e ↦ ground arith
    | inr (ms, e) ↦ ground (
      arith,
      find-fill_free new client server ns ms ne,
      same_ids→ client server new,
      same_ids→ client server n,
      →same_ids new.client_id new.server_id n,
    )
  ]
]

-- A search looks at the texts of the ids alone.
pub find-c_str :
    (client client' server server' : Bytes) (shm : List Node)
    → c_str client ≡ c_str client'
    → c_str server ≡ c_str server'
    → find client server shm ≡ find client' server' shm
unfolding find same_ids strcmp_eq
find-c_str client client' server server' [] e f = refl
find-c_str client client' server server' (n ∷ ns) e f =
    rw (e, f, find-c_str client client' server server' ns e f)
