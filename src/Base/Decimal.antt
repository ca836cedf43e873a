-- ===== src/Base/Decimal.antt =====
-- `to_string`, `%d` and `atoi` on an `int`.
use Prim.Native.Nat.{◌^◌, ℕ, zero, suc, ◌+◌, ◌-◌, ◌*◌, ◌/◌, ◌%◌, ◌≤◌, ◌<◌}
use mathlib.Core.Path.{◌≡◌, refl, ap}
use mathlib.Core.Bool.{◌&&◌}
use mathlib.Core.List.{[], ◌∷◌}
use native.Mathlib.Omega.{arith}
use secure_data_transmission.Base.Tests.{ltb, leb, ◌==◌, if◌then◌else◌}
use secure_data_transmission.Base.Int.{ℤ, pos, negsuc}
use secure_data_transmission.Base.Strings.{Bytes, c_str, c_str-cons}
use native.Mathlib.Decide.{dec_lt}
use secure_data_transmission.Base.Lists.{length}

-- The digits of `n` before `acc`. There are no more of them than the fuel `n + 1`.
digits_loop : ℕ → ℕ → Bytes → Bytes
digits_loop zero n acc = acc
digits_loop (suc fuel) n acc =
    let rest = digits_loop fuel (n / 10) ((48 + n % 10) ∷ acc) in
    if ltb n 10 then (48 + n) ∷ acc else rest

decimal : ℕ → Bytes
unfolding digits_loop
decimal n = digits_loop (suc n) n []

unfoldable pub to_string : ℤ → Bytes
unfolding decimal
to_string (pos n) = decimal n
to_string (negsuc n) = b'-' ∷ decimal (suc n)

-- Reads digits until another character stands there.
atoi_loop : ℕ → Bytes → ℕ
atoi_loop v [] = v
atoi_loop v (c ∷ cs) =
    let rest = atoi_loop (v * 10 + (c - 48)) cs in if leb 48 c && leb c 57 then rest else v

negate : ℕ → ℤ
negate zero = pos 0
negate (suc n) = negsuc n

-- `atoi` of a text that starts with a digit or a minus sign.
unfoldable pub atoi : Bytes → ℤ
unfolding atoi_loop negate
atoi [] = pos 0
atoi (c ∷ cs) = if c == b'-' then negate (atoi_loop 0 cs) else pos (atoi_loop 0 (c ∷ cs))

atoi_loop-digits_loop :
    (fuel n : ℕ) (acc : Bytes) → n < fuel → atoi_loop 0 (digits_loop fuel n acc) ≡ atoi_loop n acc
unfolding atoi_loop digits_loop
atoi_loop-digits_loop zero n acc h = absurd (omega arith)
atoi_loop-digits_loop (suc fuel) n acc h =
    ground (arith, atoi_loop-digits_loop fuel (n / 10) ((48 + n % 10) ∷ acc))

digits_loop-head :
    (fuel n : ℕ) (acc : Bytes)
    → n < fuel
    → (c : ℕ) × ((cs : Bytes) × (digits_loop fuel n acc ≡ c ∷ cs) × (48 ≤ c))
unfolding digits_loop
digits_loop-head zero n acc h = absurd (omega arith)
digits_loop-head (suc fuel) n acc h = elim (dec_lt n 10) [
  | yes p ↦ (48 + n, (acc, ground arith, omega arith))
  | no p ↦
      let (c, (cs, e, d)) = digits_loop-head fuel (n / 10) ((48 + n % 10) ∷ acc) (omega arith) in
      (c, (cs, ground (arith, e), d))
]

atoi-decimal : (n : ℕ) → atoi (decimal n) ≡ pos n
unfolding atoi decimal atoi_loop
atoi-decimal n =
    let (c, (cs, e, d)) = digits_loop-head (suc n) n [] (omega arith) in
    ground (arith, e, atoi_loop-digits_loop (suc n) n [] (omega arith))

-- `atoi` reads back every number that `to_string` writes.
pub atoi-to_string : (z : ℤ) → atoi (to_string z) ≡ z
unfolding to_string atoi negate atoi_loop
atoi-to_string (pos n) = atoi-decimal n
atoi-to_string (negsuc n) = ap negate (atoi_loop-digits_loop (suc (suc n)) (suc n) [] (omega arith))

digits_loop-c_str :
    (fuel n : ℕ) (acc : Bytes)
    → c_str acc ≡ acc
    → c_str (digits_loop fuel n acc) ≡ digits_loop fuel n acc
unfolding digits_loop
digits_loop-c_str zero n acc h = h
digits_loop-c_str (suc fuel) n acc h = ground (
  arith,
  c_str-cons (48 + n) acc,
  c_str-cons (48 + n % 10) acc,
  digits_loop-c_str fuel (n / 10) ((48 + n % 10) ∷ acc),
)

-- The decimal text holds no NUL.
pub c_str-to_string : (z : ℤ) → c_str (to_string z) ≡ to_string z
unfolding to_string decimal c_str
c_str-to_string (pos n) = digits_loop-c_str (suc n) n [] refl
c_str-to_string (negsuc n) = ap (λ t. b'-' ∷ t) (digits_loop-c_str (suc (suc n)) (suc n) [] refl)

-- The values of a 32-bit `int`.
abbrev pub IsInt : ℤ → Type 0
IsInt (pos n) = n < 2 ^ 31
IsInt (negsuc n) = n < 2 ^ 31

-- 10 ^ (k + 1).
abbrev pow10 : ℕ → ℕ
pow10 zero = 10
pow10 (suc k) = 10 * pow10 k

length-digits_loop :
    (k fuel n : ℕ) (acc : Bytes)
    → n < pow10 k
    → length (digits_loop fuel n acc) ≤ k + 1 + length acc
unfolding digits_loop
length-digits_loop k zero n acc h = omega arith
length-digits_loop zero (suc fuel) n acc h = ground arith
length-digits_loop (suc k) (suc fuel) n acc h =
    ground (arith, length-digits_loop k fuel (n / 10) ((48 + n % 10) ∷ acc))

-- An `int` takes at most eleven characters.
pub length-to_string : (z : ℤ) → IsInt z → length (to_string z) ≤ 11
unfolding to_string decimal
length-to_string (pos n) h = omega (arith, length-digits_loop 9 (suc n) n [])
length-to_string (negsuc n) h = omega (arith, length-digits_loop 9 (suc (suc n)) (suc n) [])
