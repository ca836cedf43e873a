-- ===== src/Epoll/Counting.antt =====
-- How often a descriptor is in a list, and in what the loop and the workers hold.
use secure_data_transmission.Base.{
  ℕ, suc, ◌+◌, ◌≤◌, ◌≡◌, refl, Option, none, some, List, [], ◌∷◌, ◌++◌, if◌then◌else◌, ◌==◌, arith,
}
use secure_data_transmission.Epoll.{Watch, Mask}

abbrev pub count : ℕ → List ℕ → ℕ
count f [] = 0
count f (g ∷ gs) = if f == g then suc (count f gs) else count f gs

abbrev pub count_events : ℕ → List (ℕ × Mask) → ℕ
count_events f [] = 0
count_events f ((g, m) ∷ es) = if f == g then suc (count_events f es) else count_events f es

-- 1, where an event can be reported.
abbrev pub armed_once : Option Watch → ℕ
armed_once none = 0
armed_once (some w) = if w.armed then 1 else 0

-- 1, where there is something.
abbrev pub present {ℓ} : {A : Type ℓ} → Option A → ℕ
present none = 0
present (some a) = 1

pub count-append : (f : ℕ) (xs ys : List ℕ) → count f (xs ++ ys) ≡ count f xs + count f ys
count-append f [] ys = omega arith
count-append f (x ∷ xs) ys = ground (arith, count-append f xs ys)

pub present-le {ℓ} : {A : Type ℓ} (o : Option A) → present o ≤ 1
present-le none = omega arith
present-le (some a) = omega arith

pub present-none {ℓ} : {A : Type ℓ} (o : Option A) → present o ≡ 0 → o ≡ none
present-none none h = refl
present-none (some a) h = absurd (omega arith)
