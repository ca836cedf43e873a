-- ===== src/Shm/Write.antt =====
-- What `shmWrite`, `shmRead` and `getShmID` promise of the key table.
use secure_data_transmission.Base.{
  false, Bool, int_eq, ℕ, suc, ◌+◌, ◌≤◌, ◌<◌, ◌≡◌, refl, ◌↔◌, inl, inr, true, none, some, List, [],
  ◌∷◌, ◌++◌, arith, Option-cases, if◌then◌else◌, length, replicate, drop, drop-all, zero, ℤ, pos,
  minus_one, Bytes, c_str,
}
use secure_data_transmission.Shm.{
  Node, new_node, is_free, same_ids, overwrite, fill_free, find, shm_write, shm_read, get_shm_id,
}
use secure_data_transmission.Shm.Lookup.{
  NoIds, SameIds, same_ids→, →same_ids, overwrite-find, find-overwrite, find-fill_free,
}

-- A write that returns 0 makes the table answer the written node under its pair of ids, and leaves
-- the answer under every other pair of ids as it was. The pair of two empty texts, under which a
-- free node is found, is left out.
pub find-shm_write :
    (new : Node) (shm shm' : List Node)
    → shm_write true new shm ≡ (pos 0, shm')
    → (client server : Bytes) → ¬ NoIds client server
    → find client server shm'
      ≡ (if same_ids client server new then some new else find client server shm)
unfolding shm_write
find-shm_write new shm shm' h client server ne = elim (Option-cases (overwrite new shm)) [
  | inl e ↦ elim (Option-cases (fill_free new shm)) [
    | inl f ↦ ground arith
    | inr (ms, f) ↦
        ground (arith, find-fill_free new client server shm ms ne ((overwrite-find new shm).0 e) f)
  ]
  | inr (ms, e) ↦ ground (arith, find-overwrite new client server shm ms e)
]

-- What a successful write stores is what a read of the same pair of ids copies out.
pub shm_read-shm_write :
    (new : Node) (shm shm' : List Node)
    → ¬ NoIds new.client_id new.server_id
    → shm_write true new shm ≡ (pos 0, shm')
    → shm_read true new.client_id new.server_id shm' ≡ (pos 0, some new)
unfolding shm_read
shm_read-shm_write new shm shm' ne h = ground (
  arith,
  find-shm_write new shm shm' h new.client_id new.server_id ne,
  →same_ids new.client_id new.server_id new (refl, refl),
)

-- How many nodes are free.
abbrev pub count_free : List Node → ℕ
count_free [] = 0
count_free (n ∷ ns) = if is_free n then suc (count_free ns) else count_free ns

fill_free-none : (new : Node) (shm : List Node) → (fill_free new shm ≡ none) ↔ (count_free shm ≡ 0)
unfolding fill_free
fill_free-none new [] = ground arith
fill_free-none new (n ∷ ns) = ground (arith, fill_free-none new ns)

-- On attached memory a write fails, with -1 and the table untouched, exactly when the pair of ids
-- is not in the table and no node is free.
pub shm_write-full :
    (new : Node) (shm : List Node)
    → (shm_write true new shm ≡ (minus_one, shm))
      ↔ ((find new.client_id new.server_id shm ≡ none) × (count_free shm ≡ 0))
unfolding shm_write
shm_write-full new shm = elim (Option-cases (overwrite new shm)) [
  | inl e ↦ ground (arith, overwrite-find new shm, fill_free-none new shm)
  | inr (ms, e) ↦ ground (arith, overwrite-find new shm)
]

fill_free-count :
    (new : Node) (shm shm' : List Node)
    → fill_free new shm ≡ some shm'
    → (length shm' ≡ length shm) × (count_free shm ≤ count_free shm' + 1)
unfolding fill_free
fill_free-count new [] shm' h = cc
fill_free-count new (n ∷ ns) shm' h = elim (Option-cases (fill_free new ns)) [
  | inl e ↦ ground arith
  | inr (ms, e) ↦ ground (arith, fill_free-count new ns ms e)
]

overwrite-count :
    (new : Node) (shm shm' : List Node)
    → overwrite new shm ≡ some shm'
    → (length shm' ≡ length shm) × (count_free shm ≤ count_free shm' + 1)
unfolding overwrite
overwrite-count new [] shm' h = cc
overwrite-count new (n ∷ ns) shm' h = elim (Option-cases (overwrite new ns)) [
  | inl e ↦ ground arith
  | inr (ms, e) ↦ ground (arith, overwrite-count new ns ms e)
]

-- While a node is free a write succeeds, keeps the table's size and uses up one free node at most.
pub shm_write-count :
    (new : Node) (shm : List Node)
    → 0 < count_free shm
    → ((shm_write true new shm).0 ≡ pos 0)
      × (length (shm_write true new shm).1 ≡ length shm)
      × (count_free shm ≤ count_free (shm_write true new shm).1 + 1)
unfolding shm_write
shm_write-count new shm free = elim (Option-cases (overwrite new shm)) [
  | inl e ↦ elim (Option-cases (fill_free new shm)) [
    | inl f ↦ ground (arith, fill_free-none new shm)
    | inr (ms, f) ↦ ground (arith, fill_free-count new shm ms f)
  ]
  | inr (ms, e) ↦ ground (arith, overwrite-count new shm ms e)
]

-- Writes in a row, each to the table that the last one left; the return codes.
pub write_all : List Node → List Node → List ℤ × List Node
write_all [] shm = ([], shm)
write_all (new ∷ news) shm =
    let (ret, shm') = shm_write true new shm in
    let (rets, last) = write_all news shm' in (ret ∷ rets, last)

-- A table takes any sequence of writes that is no longer than its free nodes are many: each write
-- returns 0, and the table's size stays.
pub write_all-succeeds :
    (news shm : List Node)
    → length news ≤ count_free shm
    → ((write_all news shm).0 ≡ replicate (length news) (pos 0))
      × (length (write_all news shm).1 ≡ length shm)
unfolding write_all
write_all-succeeds [] shm h = (refl, refl)
write_all-succeeds (new ∷ news) shm h = ground (
  arith,
  shm_write-count new shm (omega arith),
  write_all-succeeds news (shm_write true new shm).1,
)

find-new_nodes :
    (client server : Bytes) (count : ℕ) (rest : List Node)
    → ¬ NoIds client server
    → find client server (replicate count new_node ++ rest) ≡ find client server rest
unfolding find c_str
find-new_nodes client server zero rest ne = refl
find-new_nodes client server (suc count) rest ne =
    ground (arith, same_ids→ client server new_node, find-new_nodes client server count rest ne)

-- Opening a segment that exists erases the keys that it holds: a table of no more than `count`
-- nodes answers no pair of ids after `getShmID`, whatever it held.
pub get_shm_id-erases :
    (old shm : List Node) (count : ℕ)
    → length old ≤ count
    → get_shm_id (some old) count ≡ some shm
    → (client server : Bytes) → ¬ NoIds client server
    → find client server shm ≡ none
unfolding get_shm_id find
get_shm_id-erases old shm count fits h client server ne =
    ground (arith, drop-all count old, find-new_nodes client server count (drop count old) ne)

pub shm_write-code :
    (new : Node) (shm : List Node)
    → int_eq (shm_write true new shm).0 minus_one ≡ false
    → shm_write true new shm ≡ (pos 0, (shm_write true new shm).1)
unfolding shm_write
shm_write-code new shm ok = elim (Option-cases (overwrite new shm)) [
  | inl e ↦ elim (Option-cases (fill_free new shm)) [
    | inl f ↦ ground arith
    | inr (ms, f) ↦ ground arith
  ]
  | inr (ms, e) ↦ ground arith
]

-- A write that does not return -1 is found under its node's ids, in any spelling.
pub find-shm_write_self :
    (attached : Bool) (new : Node) (shm : List Node) (client server : Bytes)
    → int_eq (shm_write attached new shm).0 minus_one ≡ false
    → SameIds client server new
    → ¬ NoIds client server
    → find client server (shm_write attached new shm).1 ≡ some new
unfolding shm_write
find-shm_write_self false new shm client server ok same ne = cc
find-shm_write_self true new shm client server ok same ne = ground (
  arith,
  shm_write-code new shm ok,
  find-shm_write new shm (shm_write true new shm).1 (shm_write-code new shm ok) client server ne,
  →same_ids client server new same,
)

-- A write keeps the table's size.
pub length-shm_write :
    (attached : Bool) (new : Node) (shm : List Node)
    → length (shm_write attached new shm).1 ≡ length shm
unfolding shm_write
length-shm_write false new shm = refl
length-shm_write true new shm = elim (Option-cases (overwrite new shm)) [
  | inl e ↦ elim (Option-cases (fill_free new shm)) [
    | inl f ↦ ground arith
    | inr (ms, f) ↦ ground (arith, fill_free-count new shm ms f)
  ]
  | inr (ms, e) ↦ ground (arith, overwrite-count new shm ms e)
]
