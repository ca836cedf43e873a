-- ===== src/Pool/Sharing.antt =====
-- Who holds the items of a pool.
use secure_data_transmission.Base.{
  ◌>>=◌, ℕ, zero, suc, ◌+◌, ◌≡◌, ◌∙◌, refl, ap, sym, Option, some, List, [], ◌∷◌, ◌++◌,
  append_assoc, append-nil, arith, length, length-append, if◌then◌else◌, ◌==◌, ℤ, pos, negsuc,
  bind-eq,
}
use secure_data_transmission.Pool.{
  ItemPool, get_connection, release_connection, raii_statement, increment, decrement,
}

-- How often an item stands in a list.
abbrev pub count : ℕ → List ℕ → ℕ
count c [] = 0
count c (d ∷ ds) = if c == d then suc (count c ds) else count c ds

count-append : (c : ℕ) (xs ys : List ℕ) → count c (xs ++ ys) ≡ count c xs + count c ys
count-append c [] ys = ground arith
count-append c (x ∷ xs) ys = ground (arith, count-append c xs ys)

-- A pool and the items that its users hold.
pub record Held : Type 0 where
  pub pool : ItemPool
  pub held : List ℕ

-- A user gets an item, or gives back one that is held.
pub data Use : Held → Held → Type 0 where
  gets :
      (h : Held) (c : ℕ) (p : ItemPool)
      → get_connection h.pool ≡ some (c, p)
      → Use h (record { pool = p; held = c ∷ h.held })
  releases :
      (pool : ItemPool) (c : ℕ) (before after : List ℕ)
      → Use
          (record { pool = pool; held = before ++ c ∷ after })
          (record { pool = (release_connection (some c) pool).1; held = before ++ after })

pub data Uses : Held → Held → Type 0 where
  stop : (h : Held) → Uses h h
  more : {a b c : Held} → Use a b → Uses b c → Uses a c

-- The items are those of the start, and the counters count them.
pub record Conserved (items : List ℕ) (h : Held) : Type 0 where
  pub items_kept : (c : ℕ) → count c h.pool.idle + count c h.held ≡ count c items
  pub free_is : h.pool.free ≡ pos (length h.pool.idle)
  pub cur_is : h.pool.cur ≡ pos (length h.held)

get_connection-idle :
    (c : ℕ) (p q : ItemPool)
    → get_connection p ≡ some (c, q)
    → (p.idle ≡ c ∷ q.idle) × (q.free ≡ decrement p.free) × (q.cur ≡ increment p.cur)
unfolding get_connection
get_connection-idle c p q h = cases p.idle refl
  where
    cases :
        (xs : List ℕ)
        → p.idle ≡ xs
        → (p.idle ≡ c ∷ q.idle) × (q.free ≡ decrement p.free) × (q.cur ≡ increment p.cur)
    cases [] e = ground (arith, e, h)
    cases (x ∷ xs) e = ground (arith, e, h)

Use-Conserved : (items : List ℕ) {a b : Held} → Use a b → Conserved items a → Conserved items b
unfolding release_connection
Use-Conserved items (gets h c p e) k =
    let (i, f, u) = get_connection-idle c h.pool p e in
    record {
      items_kept = λ d. ground (arith, ap (count d) i, k.items_kept d);
      free_is = ground (arith, f, i, k.free_is);
      cur_is = ground (arith, u, k.cur_is);
    }
Use-Conserved items (releases pool c before after) k = record {
  items_kept = λ d. ground (
    arith,
    k.items_kept d,
    count-append d pool.idle (c ∷ []),
    count-append d before (c ∷ after),
    count-append d before after,
  );
  free_is = ground (arith, k.free_is, length-append pool.idle (c ∷ []));
  cur_is = ground (arith, k.cur_is, length-append before (c ∷ after), length-append before after);
}

-- However items are got and given back, each is in one place: as often as it was in the pool at the
-- start, it is idle or held. The two counters are the numbers of idle and of held items.
pub Uses-Conserved :
    (items : List ℕ) (a b : Held) → Uses a b → Conserved items a → Conserved items b
Uses-Conserved items a b (stop h) k = k
Uses-Conserved items a c (more {b = b} s w) k = Uses-Conserved items b c w (Use-Conserved items s k)

increment-decrement : (z : ℤ) → increment (decrement z) ≡ z
increment-decrement (pos zero) = refl
increment-decrement (pos (suc n)) = refl
increment-decrement (negsuc n) = refl

decrement-increment : (z : ℤ) → decrement (increment z) ≡ z
decrement-increment (pos n) = refl
decrement-increment (negsuc zero) = refl
decrement-increment (negsuc (suc n)) = refl

raii_statement-idle :
    (c : ℕ) (rest : List ℕ) (p : ItemPool)
    → p.idle ≡ c ∷ rest
    → raii_statement p ≡ some (c, record p { idle = rest ++ c ∷ [] })
unfolding raii_statement get_connection release_connection
raii_statement-idle c rest p h =
    ground (arith, h, increment-decrement p.free, decrement-increment p.cur)

-- Statements of one user after another.
abbrev pub statements : ℕ → ItemPool → Option ItemPool
statements zero p = some p
statements (suc n) p = raii_statement p >>= λ r. statements n r.1

statements-rotate :
    (xs ys : List ℕ) (p : ItemPool)
    → p.idle ≡ xs ++ ys
    → statements (length xs) p ≡ some (record p { idle = ys ++ xs })
statements-rotate [] ys p h = ap (λ l. some (record p { idle = l })) (h ∙ sym (append-nil ys))
statements-rotate (c ∷ xs) ys p h = bind-eq _ (raii_statement-idle c (xs ++ ys) p h) (
    statements-rotate xs (ys ++ c ∷ []) (record p { idle = (xs ++ ys) ++ c ∷ [] })
      (append_assoc xs ys (c ∷ []))
    ∙ ap (λ l. some (record p { idle = l })) (append_assoc ys (c ∷ []) xs))

-- The statement that names no object hands out an item that is idle again at once: as many such
-- statements as there are items bring the pool back to where it was, so that the next user is handed
-- the item that the first one is still using.
pub raii_statement-shared :
    (c : ℕ) (rest : List ℕ) (p : ItemPool)
    → p.idle ≡ c ∷ rest
    → (statements (length p.idle) p ≡ some p) × ((q : ItemPool) × (raii_statement p ≡ some (c, q)))
raii_statement-shared c rest p h = (
  statements-rotate p.idle [] p (sym (append-nil p.idle)),
  (record p { idle = rest ++ c ∷ [] }, raii_statement-idle c rest p h),
)
