-- ===== src/Base/Strings.antt =====
-- Byte strings, and the `<string.h>` functions on character arrays.
use Prim.Native.Nat.{ℕ, zero, suc, ◌+◌, ◌≤◌, ◌<◌}
use Prim.Native.String.{String}
use Prim.Native.Char.{code}
use mathlib.Core.Path.{◌≡◌, refl, ap}
use mathlib.Core.Logic.{◌↔◌}
use mathlib.Core.Bool.{Bool, true, false, ◌&&◌}
use mathlib.Core.Option.{Option, none, some}
use mathlib.Core.List.{List, [], ◌∷◌, ◌++◌}
use native.Mathlib.Omega.{arith}
use secure_data_transmission.Base.Tests.{◌==◌, ltb, if◌then◌else◌}
use secure_data_transmission.Base.Lists.{length, drop, length-append, length-drop}

abbrev pub Bytes : Type 0
Bytes = List ℕ

-- The bytes of an ASCII literal.
abbrev pub codes : String → Bytes
codes String.[] = []
codes (String.◌∷◌ c s) = code c ∷ codes s

unfoldable pub bytes_eq : Bytes → Bytes → Bool
bytes_eq [] [] = true
bytes_eq (x ∷ xs) (y ∷ ys) = (x == y) && bytes_eq xs ys
bytes_eq _ _ = false

pub bytes_eq_iff : (a b : Bytes) → (bytes_eq a b ≡ true) ↔ (a ≡ b)
unfolding bytes_eq
bytes_eq_iff [] [] = ((λ _. refl), (λ _. refl))
bytes_eq_iff [] (y ∷ ys) = ground arith
bytes_eq_iff (x ∷ xs) [] = ground arith
bytes_eq_iff (x ∷ xs) (y ∷ ys) = ground (arith, bytes_eq_iff xs ys)

-- The text that a character array holds: its bytes before the first NUL.
unfoldable pub c_str : Bytes → Bytes
c_str [] = []
c_str (zero ∷ xs) = []
c_str (suc c ∷ xs) = suc c ∷ c_str xs

-- `strcmp(a, b) == 0`.
unfoldable pub strcmp_eq : Bytes → Bytes → Bool
strcmp_eq a b = bytes_eq (c_str a) (c_str b)

pub strcmp_eq_iff : (a b : Bytes) → (strcmp_eq a b ≡ true) ↔ (c_str a ≡ c_str b)
unfolding strcmp_eq
strcmp_eq_iff a b = bytes_eq_iff (c_str a) (c_str b)

-- `strcpy(dst, src)` for an array `dst`: the text and its NUL, and `none` where they do not fit.
unfoldable pub strcpy : Bytes → Bytes → Option Bytes
strcpy dst src =
    let s = c_str src in
    if ltb (length s) (length dst) then some (s ++ 0 ∷ drop (length s + 1) dst) else none

-- Every byte is 0.
unfoldable pub all_zero : Bytes → Bool
all_zero [] = true
all_zero (zero ∷ xs) = all_zero xs
all_zero (suc c ∷ xs) = false

pub c_str-append_nul : (s r : Bytes) → c_str s ≡ s → c_str (s ++ 0 ∷ r) ≡ s
unfolding c_str
c_str-append_nul [] r h = refl
c_str-append_nul (zero ∷ s) r h = cc
c_str-append_nul (suc c ∷ s) r h = ap (λ t. suc c ∷ t) (c_str-append_nul s r (ground arith))

pub c_str_idem : (s : Bytes) → c_str (c_str s) ≡ c_str s
unfolding c_str
c_str_idem [] = refl
c_str_idem (zero ∷ s) = refl
c_str_idem (suc c ∷ s) = ap (λ t. suc c ∷ t) (c_str_idem s)

-- After a copy that fits, the array holds the source's text.
pub c_str-strcpy : (dst src : Bytes) {r : Bytes} → strcpy dst src ≡ some r → c_str r ≡ c_str src
unfolding strcpy
c_str-strcpy dst src e =
    ground
      (arith, c_str-append_nul (c_str src) (drop (length (c_str src) + 1) dst) (c_str_idem src))

-- A copy does not change the array's size.
pub length-strcpy : (dst src : Bytes) {r : Bytes} → strcpy dst src ≡ some r → length r ≡ length dst
unfolding strcpy
length-strcpy dst src e = ground (
  arith,
  length-append (c_str src) (0 ∷ drop (length (c_str src) + 1) dst),
  length-drop (length (c_str src) + 1) dst,
)

pub strcpy_fits :
    (dst src : Bytes)
    → length (c_str src) < length dst
    → strcpy dst src ≡ some (c_str src ++ 0 ∷ drop (length (c_str src) + 1) dst)
unfolding strcpy
strcpy_fits dst src h = ground arith

pub all_zero-c_str : (a : Bytes) → all_zero a ≡ true → c_str a ≡ []
unfolding all_zero c_str
all_zero-c_str [] h = refl
all_zero-c_str (zero ∷ a) h = refl
all_zero-c_str (suc c ∷ a) h = cc

pub c_str-cons : (c : ℕ) (s : Bytes) → 0 < c → c_str (c ∷ s) ≡ c ∷ c_str s
unfolding c_str
c_str-cons zero s h = absurd (omega arith)
c_str-cons (suc c) s h = refl

pub c_str-append : (s r : Bytes) → c_str s ≡ s → c_str (s ++ r) ≡ s ++ c_str r
unfolding c_str
c_str-append [] r h = refl
c_str-append (zero ∷ s) r h = cc
c_str-append (suc c ∷ s) r h = ap (λ t. suc c ∷ t) (c_str-append s r (ground arith))

pub length-c_str-le : (s : Bytes) → length (c_str s) ≤ length s
unfolding c_str
length-c_str-le [] = omega arith
length-c_str-le (zero ∷ s) = omega arith
length-c_str-le (suc c ∷ s) = omega (arith, length-c_str-le s)
