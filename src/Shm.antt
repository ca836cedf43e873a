-- ===== src/Shm.antt =====
-- server/src/SecKeyShm.cpp and ShareMemory.cpp: the shared-memory table of negotiated keys.
-- The segment is the list of its nodes; `m_maxNode` is its length.
pub mod Lookup
pub mod Write
pub mod Status
pub mod Views
pub mod ClientShm
mod Tests
use secure_data_transmission.Base.{
  ℕ, ◌+◌, ◌≡◌, Bool, true, false, ◌&&◌, Option, none, some, List, [], ◌∷◌, ◌++◌, ◌-◌, length,
  replicate, drop, if◌then◌else◌, ltb, ℤ, pos, minus_one, int_eq, Bytes, strcmp_eq, all_zero,
}

-- `NodeSecKeyInfo`. Each array is the list of all its bytes.
pub record Node : Type 0 where
  pub status : ℤ
  pub seckey_id : ℤ
  pub client_id : Bytes
  pub server_id : Bytes
  pub ende_key : Bytes
  pub auth_key : Bytes

-- The constructor `NodeSecKeyInfo()`, and what `memset` makes of a node.
abbrev pub new_node : Node
new_node = record {
  status = pos 0;
  seckey_id = pos 0;
  client_id = replicate 12 0;
  server_id = replicate 12 0;
  ende_key = replicate 128 0;
  auth_key = replicate 128 0;
}

-- `memcmp` of a node with a zeroed one.
unfoldable pub is_free : Node → Bool
is_free n =
    int_eq n.status (pos 0)
    && int_eq n.seckey_id (pos 0)
    && all_zero n.client_id
    && all_zero n.server_id
    && all_zero n.ende_key
    && all_zero n.auth_key

-- The test of both search loops.
unfoldable pub same_ids : Bytes → Bytes → Node → Bool
same_ids client server n = strcmp_eq n.client_id client && strcmp_eq n.server_id server

-- `getShmID` with IPC_CREAT. An existing segment is found by its key and must be large enough;
-- `none` is the `memset` through the address that `shmat(-1)` returns. What is opened is zeroed.
pub get_shm_id : Option (List Node) → ℕ → Option (List Node)
get_shm_id none count = some (replicate count new_node)
get_shm_id (some old) count =
    if ltb (length old) count then none else some (replicate count new_node ++ drop count old)

-- The first loop of `shmWrite`: overwrite the node of the same pair of ids.
unfoldable pub overwrite : Node → List Node → Option (List Node)
overwrite new [] = none
overwrite new (n ∷ ns) =
    let rest = overwrite new ns in
    if same_ids new.client_id new.server_id n
    then some (new ∷ ns)
    else elim rest [ none ↦ none | some ms ↦ some (n ∷ ms) ]

-- The second loop: take the first free node.
unfoldable pub fill_free : Node → List Node → Option (List Node)
fill_free new [] = none
fill_free new (n ∷ ns) =
    let rest = fill_free new ns in
    if is_free n then some (new ∷ ns) else elim rest [ none ↦ none | some ms ↦ some (n ∷ ms) ]

abbrev write_outcome : List Node → Option (List Node) → ℤ × List Node
write_outcome old none = (minus_one, old)
write_outcome old (some new) = (pos 0, new)

-- `attached` is false where `mapShm` returns NULL. The lock makes a call one step.
unfoldable pub shm_write : Bool → Node → List Node → ℤ × List Node
shm_write false new shm = (minus_one, shm)
shm_write true new shm = elim (overwrite new shm) [
  | some shm' ↦ (pos 0, shm')
  | none ↦ write_outcome shm (fill_free new shm)
]

unfoldable pub find : Bytes → Bytes → List Node → Option Node
find client server [] = none
find client server (n ∷ ns) = if same_ids client server n then some n else find client server ns

-- The return code, and the copy that is written to `*pNodeInfo` where there is one.
unfoldable pub shm_read : Bool → Bytes → Bytes → List Node → ℤ × Option Node
shm_read false client server shm = (minus_one, none)
shm_read true client server shm = elim (find client server shm) [
  | none ↦ (minus_one, none)
  | some n ↦ (pos 0, some n)
]

-- The loop of `updateStatue`.
unfoldable pub set_status : ℤ → ℤ → List Node → Option (List Node)
set_status keyid state [] = none
set_status keyid state (n ∷ ns) =
    let rest = set_status keyid state ns in
    if int_eq n.seckey_id keyid
    then some (record n { status = state } ∷ ns)
    else elim rest [ none ↦ none | some ms ↦ some (n ∷ ms) ]

unfoldable pub update_statue : Bool → ℤ → ℤ → List Node → ℤ × List Node
update_statue false keyid state shm = (minus_one, shm)
update_statue true keyid state shm = elim (set_status keyid state shm) [
  | none ↦ (minus_one, shm)
  | some shm' ↦ (pos 1, shm')
]
