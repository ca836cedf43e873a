-- ===== src/Shm/Tests.antt =====
-- Runs of the key table, and the table's theorems at a table of three nodes.
use secure_data_transmission.Base.{
  ℕ, bytes_eq, ◌≡◌, ◌⊎◌, refl, true, none, some, List, [], ◌∷◌, ◌++◌, if◌then◌else◌, ℤ, pos, Bytes,
  codes, c_str, strcmp_eq, all_zero,
}
use secure_data_transmission.Shm.{
  Node, new_node, is_free, same_ids, overwrite, fill_free, find, shm_write, update_statue,
}
use secure_data_transmission.Shm.Lookup.{NoIds}
use secure_data_transmission.Shm.Write.{find-shm_write}
use secure_data_transmission.Shm.Status.{find-update_statue}
use secure_data_transmission.Shm.ClientShm.{scan_ids, returns, client_write_run}
use secure_data_transmission.Shm.ClientShm.Alone.{client_write_run-shm_write}
use secure_data_transmission.Shm.ClientShm.Racing.{Races, Races-lose}

-- A live node of two ids.
abbrev node_of : Bytes → Bytes → ℤ → Node
node_of client server keyid = record {
  status = pos 1;
  seckey_id = keyid;
  client_id = client ++ 0 ∷ [];
  server_id = server ++ 0 ∷ [];
  ende_key = codes "ende" ++ 0 ∷ [];
  auth_key = codes "auth" ++ 0 ∷ [];
}

abbrev first_node : Node
first_node = node_of (codes "C1") (codes "S") (pos 7)

abbrev second_node : Node
second_node = node_of (codes "C2") (codes "S") (pos 8)

abbrev renewed : Node
renewed = node_of (codes "C1") (codes "S") (pos 9)

abbrev table : List Node
table = first_node ∷ new_node ∷ new_node ∷ []

abbrev table_after : List Node
table_after = first_node ∷ second_node ∷ new_node ∷ []

c1_named : ¬ NoIds (codes "C1") (codes "S")
unfolding c_str
c1_named h = cc

writes_second : shm_write true second_node table ≡ (pos 0, table_after)
unfolding shm_write overwrite fill_free same_ids is_free strcmp_eq c_str all_zero bytes_eq
writes_second = refl

overwrites : shm_write true renewed table_after ≡ (pos 0, renewed ∷ second_node ∷ new_node ∷ [])
unfolding shm_write overwrite fill_free same_ids is_free strcmp_eq c_str all_zero bytes_eq
overwrites = refl

find-shm_write_example : find (codes "C1") (codes "S") table_after ≡ (
    if same_ids (codes "C1") (codes "S") second_node
    then some second_node
    else find (codes "C1") (codes "S") table)
find-shm_write_example =
    find-shm_write second_node table table_after writes_second (codes "C1") (codes "S") c1_named

find-update_statue_example :
    let shm' = (update_statue true (pos 8) (pos 0) table_after).1 in
    (find (codes "C2") (codes "S") shm' ≡ find (codes "C2") (codes "S") table_after)
    ⊎ ((n : Node) × (find (codes "C2") (codes "S") table_after ≡ some n)
        × (n.seckey_id ≡ pos 8)
        × (find (codes "C2") (codes "S") shm' ≡ some (record n { status = pos 0 })))
find-update_statue_example = find-update_statue (pos 8) (pos 0) (codes "C2") (codes "S") table_after

client_write_run-shm_write_example :
    (k : ℕ) × (client_write_run k second_node (scan_ids 0) table
      ≡ (returns (shm_write true second_node table).0, (shm_write true second_node table).1))
client_write_run-shm_write_example = client_write_run-shm_write second_node table

abbrev third_node : Node
third_node = node_of (codes "C3") (codes "S") (pos 9)

Races-lose_example :
    (t : List Node) × Races second_node third_node
      (scan_ids 0)
      (scan_ids 0)
      table
      (returns (pos 0))
      (returns (pos 0))
      t
    × (find (codes "C2" ++ 0 ∷ []) (codes "S" ++ 0 ∷ []) t ≡ some second_node)
    × (find (codes "C3" ++ 0 ∷ []) (codes "S" ++ 0 ∷ []) t ≡ none)
unfolding find same_ids fill_free is_free strcmp_eq c_str all_zero bytes_eq
Races-lose_example =
    Races-lose second_node third_node table (first_node ∷ second_node ∷ new_node ∷ [])
      (first_node ∷ third_node ∷ new_node ∷ []) refl refl refl (λ h. cc) (λ h. cc) refl refl
