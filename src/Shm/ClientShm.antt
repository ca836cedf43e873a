-- ===== src/Shm/ClientShm.antt =====
-- client/src/SecKeyShm.cpp: the same table without the lock. `shmRead` has the server's text but for
-- the lock; `shmWrite` is told access by access, since other processes may get in between; and
-- `updateStatue` differs.
pub mod Alone
pub mod Racing
use secure_data_transmission.Base.{
  ℕ, zero, suc, ◌+◌, Bool, true, false, Option, none, some, List, [], ◌∷◌, ℤ, pos, minus_one,
  if◌then◌else◌, Bytes,
}
use secure_data_transmission.Shm.{Node, set_status, same_ids, is_free, shm_read}

-- The loop's outcome is not looked at.
unfoldable pub client_update_statue : Bool → ℤ → ℤ → List Node → ℤ × List Node
client_update_statue false keyid state shm = (minus_one, shm)
client_update_statue true keyid state shm = elim (set_status keyid state shm) [
  | none ↦ (pos 1, shm)
  | some shm' ↦ (pos 1, shm')
]

unfoldable pub client_shm_read : Bool → Bytes → Bytes → List Node → ℤ × Option Node
client_shm_read = shm_read

-- Where `shmWrite` stands: at node `i` of the first or of the second loop; before the copy to node
-- `i`; or at its end, with the code.
pub data Pc : Type 0 where
  scan_ids scan_free copies : ℕ → Pc
  returns : ℤ → Pc

unfoldable pub node_at : ℕ → List Node → Option Node
node_at i [] = none
node_at zero (n ∷ ns) = some n
node_at (suc i) (n ∷ ns) = node_at i ns

unfoldable pub set_node : ℕ → Node → List Node → List Node
set_node i new [] = []
set_node zero new (n ∷ ns) = new ∷ ns
set_node (suc i) new (n ∷ ns) = n ∷ set_node i new ns

-- One access of `shmWrite` of a node to the mapped table.
unfoldable pub client_write_step : Node → Pc → List Node → Pc × List Node
client_write_step new (scan_ids i) shm = elim (node_at i shm) [
  | none ↦ (scan_free 0, shm)
  | some n ↦ (if same_ids new.client_id new.server_id n then copies i else scan_ids (suc i), shm)
]
client_write_step new (scan_free i) shm = elim (node_at i shm) [
  | none ↦ (returns minus_one, shm)
  | some n ↦ (if is_free n then copies i else scan_free (suc i), shm)
]
client_write_step new (copies i) shm = (returns (pos 0), set_node i new shm)
client_write_step new (returns code) shm = (returns code, shm)

-- Accesses in a row, with no other process in between.
unfoldable pub client_write_run : ℕ → Node → Pc → List Node → Pc × List Node
client_write_run zero new pc shm = (pc, shm)
client_write_run (suc k) new pc shm =
    let (next, shm') = client_write_step new pc shm in client_write_run k new next shm'
