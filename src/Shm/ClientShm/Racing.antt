-- ===== src/Shm/ClientShm/Racing.antt =====
-- Two processes that write to one table at a time.
use secure_data_transmission.Base.{
  true, ℕ, zero, suc, ◌+◌, ◌≡◌, ◌∙◌, refl, ap, subst, false, none, some, List, [], ◌∷◌, pos, arith,
  Bool-cases, Option-cases, inl, inr, if◌then◌else◌,
}
use secure_data_transmission.Shm.{Node, same_ids, is_free, overwrite, fill_free, find}
use secure_data_transmission.Shm.Lookup.{→same_ids, NoIds, find-fill_free, overwrite-find}
use secure_data_transmission.Shm.ClientShm.{
  Pc, scan_ids, scan_free, copies, returns, set_node, client_write_step,
}
use secure_data_transmission.Shm.ClientShm.Alone.{
  Leads, there, next, before_step, in_sequence, Suffix, whole, advance, node_at-some, no_ids,
}

first_free : List Node → ℕ
first_free [] = 0
first_free (n ∷ ns) = if is_free n then 0 else suc (first_free ns)

set_node-first_free :
    (new : Node) (shm ms : List Node)
    → fill_free new shm ≡ some ms
    → set_node (first_free shm) new shm ≡ ms
unfolding first_free fill_free set_node
set_node-first_free new [] ms h = cc
set_node-first_free new (n ∷ ns) ms h = elim (Bool-cases (is_free n)) [
  | inl free ↦ ground (arith, h, free)
  | inr used ↦ elim (Option-cases (fill_free new ns)) [
    | inl e ↦ ground (arith, h, used, e)
    | inr (rs, e) ↦ ground (arith, h, used, e, set_node-first_free new ns rs e)
  ]
]

set_node-again :
    (i : ℕ) (a b : Node) (shm : List Node) → set_node i a (set_node i b shm) ≡ set_node i a shm
unfolding set_node
set_node-again i a b [] = refl
set_node-again zero a b (n ∷ ns) = refl
set_node-again (suc i) a b (n ∷ ns) = ap (λ l. n ∷ l) (set_node-again i a b ns)

-- The second loop reaches the copy to the first free node.
free_at :
    (new : Node) (ns ms : List Node) {shm : List Node} {i : ℕ} (s : Suffix ns i shm)
    → fill_free new ns ≡ some ms
    → Leads new (scan_free i) shm (copies (i + first_free ns)) shm
unfolding first_free fill_free client_write_step
free_at new [] ms s h = cc
free_at new (n ∷ ns) ms {shm} {i} s h = elim (Bool-cases (is_free n)) [
  | inl free ↦
      subst (λ k. Leads new (scan_free i) shm (copies k) shm) {x = i} (ground (arith, free))
        (before_step (ground (arith, node_at-some s, free)) there)
  | inr used ↦ elim (Option-cases (fill_free new ns)) [
    | inl e ↦ ground (arith, h, used, e)
    | inr (rs, e) ↦
        subst (λ k. Leads new (scan_free i) shm (copies k) shm) {x = suc i + first_free ns}
          (ground (arith, used))
          (before_step (ground (arith, node_at-some s, used)) (free_at new ns rs (advance s) e))
  ]
]

to_copy :
    (new : Node) (shm ms : List Node)
    → overwrite new shm ≡ none
    → fill_free new shm ≡ some ms
    → Leads new (scan_ids 0) shm (copies (first_free shm)) shm
to_copy new shm ms e f = in_sequence (no_ids new shm e) (
    subst (λ k. Leads new (scan_free 0) shm (copies k) shm) {x = 0 + first_free shm} (omega arith)
      (free_at new shm ms whole f))

-- Two writers of nodes `a` and `b` take accesses in any order.
pub data Races (a b : Node) : Pc → Pc → List Node → Pc → Pc → List Node → Type 0 where
  over : {x y : Pc} {shm : List Node} → Races a b x y shm x y shm
  a_moves :
      {x y x' y' : Pc} {shm shm' : List Node}
      → Races a b (client_write_step a x shm).0 y (client_write_step a x shm).1 x' y' shm'
      → Races a b x y shm x' y' shm'
  b_moves :
      {x y x' y' : Pc} {shm shm' : List Node}
      → Races a b x (client_write_step b y shm).0 (client_write_step b y shm).1 x' y' shm'
      → Races a b x y shm x' y' shm'

a_first :
    {a b : Node} {x y x' x'' y'' : Pc} {s s' s'' : List Node}
    → Leads a x s x' s'
    → Races a b x' y s' x'' y'' s''
    → Races a b x y s x'' y'' s''
a_first there r = r
a_first (next w) r = a_moves (a_first w r)

b_first :
    {a b : Node} {x y y' x'' y'' : Pc} {s s' s'' : List Node}
    → Leads b y s y' s'
    → Races a b x y' s' x'' y'' s''
    → Races a b x y s x'' y'' s''
b_first there r = r
b_first (next w) r = b_moves (b_first w r)

-- Without a lock a key can be lost. Two writers of nodes of different ids, neither pair in the table
-- nor of two empty texts, may take their accesses in such an order that both return 0 and the table
-- answers the first node under its ids and none under the ids of the second, however many nodes are
-- free.
pub Races-lose :
    (a b : Node) (shm ms ms' : List Node)
    → find a.client_id a.server_id shm ≡ none
    → find b.client_id b.server_id shm ≡ none
    → same_ids b.client_id b.server_id a ≡ false
    → ¬ NoIds a.client_id a.server_id
    → ¬ NoIds b.client_id b.server_id
    → fill_free a shm ≡ some ms
    → fill_free b shm ≡ some ms'
    → (t : List Node) × Races a b
        (scan_ids 0)
        (scan_ids 0)
        shm
        (returns (pos 0))
        (returns (pos 0))
        t
      × (find a.client_id a.server_id t ≡ some a)
      × (find b.client_id b.server_id t ≡ none)
unfolding client_write_step
Races-lose a b shm ms ms' na nb differ nea ne fa fb =
    let no_a = (overwrite-find a shm).1 na in
    let no_b = (overwrite-find b shm).1 nb in
    let t = set_node (first_free shm) a (set_node (first_free shm) b shm) in
    let last : t ≡ ms = set_node-again (first_free shm) a b shm ∙ set_node-first_free a shm ms fa in
    let own : same_ids a.client_id a.server_id a ≡ true =
      →same_ids a.client_id a.server_id a (refl, refl) in
    (
      t,
      a_first (to_copy a shm ms no_a fa)
          (b_first (to_copy b shm ms' no_b fb) (b_moves (a_moves over))),
      ap (find a.client_id a.server_id) last
          ∙ ground (arith, find-fill_free a a.client_id a.server_id shm ms nea na fa, own),
      ap (find b.client_id b.server_id) last
          ∙ ground (arith, find-fill_free a b.client_id b.server_id shm ms ne na fa, differ, nb),
    )
