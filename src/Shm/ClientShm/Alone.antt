-- ===== src/Shm/ClientShm/Alone.antt =====
-- Without another process in between, the client's `shmWrite` does what the server's does.
use secure_data_transmission.Base.{
  ℕ, suc, ◌≡◌, ◌∙◌, refl, sym, ap, subst, true, Option, none, some, List, [], ◌∷◌, ℤ, pos,
  minus_one, arith, Bool-cases, inl, inr,
}
use secure_data_transmission.Shm.{Node, same_ids, is_free, overwrite, fill_free, shm_write}
use secure_data_transmission.Shm.ClientShm.{
  Pc, scan_ids, scan_free, copies, returns, node_at, set_node, client_write_step, client_write_run,
}

-- Accesses that lead from one point of the code to another.
pub data Leads (new : Node) : Pc → List Node → Pc → List Node → Type 0 where
  there : {pc : Pc} {shm : List Node} → Leads new pc shm pc shm
  next :
      {pc last : Pc} {shm shm' : List Node}
      → Leads new (client_write_step new pc shm).0 (client_write_step new pc shm).1 last shm'
      → Leads new pc shm last shm'

pub Leads-run :
    {new : Node} {pc last : Pc} {shm shm' : List Node}
    → Leads new pc shm last shm'
    → (k : ℕ) × (client_write_run k new pc shm ≡ (last, shm'))
unfolding client_write_run
Leads-run there = (0, refl)
Leads-run (next w) = let (k, e) = Leads-run w in (suc k, e)

pub before_step :
    {new : Node} {pc pc' last : Pc} {shm shm' : List Node}
    → client_write_step new pc shm ≡ (pc', shm)
    → Leads new pc' shm last shm'
    → Leads new pc shm last shm'
before_step {new} {last = last} {shm' = shm'} e w =
    next (subst (λ x. Leads new x.0 x.1 last shm') (sym e) w)

pub in_sequence :
    {new : Node} {a b c : Pc} {x y z : List Node}
    → Leads new a x b y
    → Leads new b y c z
    → Leads new a x c z
in_sequence there v = v
in_sequence (next w) v = next (in_sequence w v)

-- `ns` is what the table holds from node `i` on.
pub data Suffix (ns : List Node) : ℕ → List Node → Type 0 where
  whole : Suffix ns 0 ns
  inner : {i : ℕ} {shm : List Node} (m : Node) → Suffix ns i shm → Suffix ns (suc i) (m ∷ shm)

-- The table with another end.
plug : {ns shm : List Node} {i : ℕ} → Suffix ns i shm → List Node → List Node
plug whole ms = ms
plug (inner m s) ms = m ∷ plug s ms

pub advance :
    {ns : List Node} {n : Node} {shm : List Node} {i : ℕ}
    → Suffix (n ∷ ns) i shm
    → Suffix ns (suc i) shm
advance {n = n} whole = inner n whole
advance (inner m s) = inner m (advance s)

plug-advance :
    {ns : List Node} {n : Node} {shm : List Node} {i : ℕ} (s : Suffix (n ∷ ns) i shm)
    (ms : List Node)
    → plug (advance s) ms ≡ plug s (n ∷ ms)
unfolding plug advance
plug-advance whole ms = refl
plug-advance (inner m s) ms = ap (λ l. m ∷ l) (plug-advance s ms)

pub node_at-some :
    {ns : List Node} {n : Node} {shm : List Node} {i : ℕ}
    → Suffix (n ∷ ns) i shm
    → node_at i shm ≡ some n
unfolding node_at
node_at-some whole = refl
node_at-some (inner m s) = node_at-some s

node_at-none : {shm : List Node} {i : ℕ} → Suffix [] i shm → node_at i shm ≡ none
unfolding node_at
node_at-none whole = refl
node_at-none (inner m s) = node_at-none s

set_node-plug :
    {ns : List Node} {n : Node} {shm : List Node} {i : ℕ} (new : Node) (s : Suffix (n ∷ ns) i shm)
    → set_node i new shm ≡ plug s (new ∷ ns)
unfolding set_node plug
set_node-plug new whole = refl
set_node-plug new (inner m s) = ap (λ l. m ∷ l) (set_node-plug new s)

module _ (new : Node) where
  -- What a loop over the end of the table comes to: the point `past` where it finds nothing, and the
  -- copy that gives the table its new end where it finds a node.
  LoopEnd :
      (ℕ → Pc) → Pc → {ns shm : List Node} {i : ℕ} → Suffix ns i shm → Option (List Node) → Type 0
  LoopEnd at past {shm = shm} {i = i} s none = Leads new (at i) shm past shm
  LoopEnd at past {shm = shm} {i = i} s (some ms) =
      (j : ℕ) × Leads new (at i) shm (copies j) shm × (set_node j new shm ≡ plug s ms)

  -- A node is passed over.
  LoopEnd-advance :
      (at : ℕ → Pc) (past : Pc) {ns : List Node} {n : Node} {shm : List Node} {i : ℕ}
      (s : Suffix (n ∷ ns) i shm) (r : Option (List Node))
      → client_write_step new (at i) shm ≡ (at (suc i), shm)
      → LoopEnd at past (advance s) r
      → LoopEnd at past s (elim r [ none ↦ none | some ms ↦ some (n ∷ ms) ])
  unfolding LoopEnd
  LoopEnd-advance at past s none e w = before_step e w
  LoopEnd-advance at past s (some ms) e (j, w, q) = (j, before_step e w, q ∙ plug-advance s ms)

  LoopEnd-hit :
      (at : ℕ → Pc) (past : Pc) {ns : List Node} {n : Node} {shm : List Node} {i : ℕ}
      (s : Suffix (n ∷ ns) i shm)
      → client_write_step new (at i) shm ≡ (copies i, shm)
      → LoopEnd at past s (some (new ∷ ns))
  unfolding LoopEnd
  LoopEnd-hit at past {i = i} s e = (i, before_step e there, set_node-plug new s)

  ids_loop :
      (ns : List Node) {shm : List Node} {i : ℕ} (s : Suffix ns i shm)
      → LoopEnd scan_ids (scan_free 0) s (overwrite new ns)
  unfolding overwrite client_write_step LoopEnd
  ids_loop [] s = before_step (ground (arith, node_at-none s)) there
  ids_loop (n ∷ ns) s = elim (Bool-cases (same_ids new.client_id new.server_id n)) [
    | inl hit ↦
        subst (λ r. LoopEnd scan_ids (scan_free 0) s r) {x = some (new ∷ ns)} (ground (arith, hit))
          (LoopEnd-hit scan_ids (scan_free 0) s (ground (arith, node_at-some s, hit)))
    | inr miss ↦
        subst (λ r. LoopEnd scan_ids (scan_free 0) s r)
          {x = elim (overwrite new ns) [ none ↦ none | some ms ↦ some (n ∷ ms) ]}
          (ground (arith, miss))
          (LoopEnd-advance scan_ids (scan_free 0) s (overwrite new ns)
            (ground (arith, node_at-some s, miss)) (ids_loop ns (advance s)))
  ]

  -- The first loop passes a pair of ids by that the table does not have.
  pub no_ids :
      (shm : List Node) → overwrite new shm ≡ none → Leads new (scan_ids 0) shm (scan_free 0) shm
  unfolding LoopEnd
  no_ids shm e =
      subst (λ r. LoopEnd scan_ids (scan_free 0) {ns = shm} whole r) e (ids_loop shm whole)

  free_loop :
      (ns : List Node) {shm : List Node} {i : ℕ} (s : Suffix ns i shm)
      → LoopEnd scan_free (returns minus_one) s (fill_free new ns)
  unfolding fill_free client_write_step LoopEnd
  free_loop [] s = before_step (ground (arith, node_at-none s)) there
  free_loop (n ∷ ns) s = elim (Bool-cases (is_free n)) [
    | inl hit ↦
        subst (λ r. LoopEnd scan_free (returns minus_one) s r) {x = some (new ∷ ns)}
          (ground (arith, hit))
          (LoopEnd-hit scan_free (returns minus_one) s (ground (arith, node_at-some s, hit)))
    | inr miss ↦
        subst (λ r. LoopEnd scan_free (returns minus_one) s r)
          {x = elim (fill_free new ns) [ none ↦ none | some ms ↦ some (n ∷ ms) ]}
          (ground (arith, miss))
          (LoopEnd-advance scan_free (returns minus_one) s (fill_free new ns)
            (ground (arith, node_at-some s, miss)) (free_loop ns (advance s)))
  ]

  copied :
      (j : ℕ) (shm ms : List Node)
      → set_node j new shm ≡ ms
      → Leads new (copies j) shm (returns (pos 0)) ms
  unfolding client_write_step
  copied j shm ms e =
      next (subst (λ x. Leads new (returns (pos 0)) x (returns (pos 0)) ms) {x = ms} (sym e) there)

  -- The client's `shmWrite`, from its start to its end and alone, returns the code of the server's
  -- and leaves the table that it leaves.
  pub client_write_run-shm_write :
      (shm : List Node)
      → (k : ℕ) × (client_write_run k new (scan_ids 0) shm
          ≡ (returns (shm_write true new shm).0, (shm_write true new shm).1))
  unfolding shm_write LoopEnd plug
  client_write_run-shm_write shm =
      Leads-run (alone (overwrite new shm) (fill_free new shm) refl refl)
    where
      alone :
          (r f : Option (List Node))
          → overwrite new shm ≡ r
          → fill_free new shm ≡ f
          → Leads new
              (scan_ids 0)
              shm
              (returns (shm_write true new shm).0)
              (shm_write true new shm).1
      alone (some ms) f e g =
          let (j, w, q) =
            subst (λ r. LoopEnd scan_ids (scan_free 0) {ns = shm} whole r) e (ids_loop shm whole) in
          subst (λ (x : ℤ × List Node). Leads new (scan_ids 0) shm (returns x.0) x.1)
            {x = (pos 0, ms)} (ground (arith, e)) (in_sequence w (copied j shm ms q))
      alone none (some ms) e g =
          let (j, w, q) =
            subst (λ r. LoopEnd scan_free (returns minus_one) {ns = shm} whole r) g
              (free_loop shm whole) in
          subst (λ (x : ℤ × List Node). Leads new (scan_ids 0) shm (returns x.0) x.1)
            {x = (pos 0, ms)} (ground (arith, e, g))
            (in_sequence (no_ids shm e) (in_sequence w (copied j shm ms q)))
      alone none none e g =
          subst (λ (x : ℤ × List Node). Leads new (scan_ids 0) shm (returns x.0) x.1)
            {x = (minus_one, shm)} (ground (arith, e, g))
            (in_sequence (no_ids shm e) (
              subst (λ r. LoopEnd scan_free (returns minus_one) {ns = shm} whole r) g
                (free_loop shm whole)))
