-- ===== src/RandomText/Alphabet.antt =====
-- The characters that the loop of `getRandString` draws.
use secure_data_transmission.Base.{
  ℕ, zero, suc, ◌+◌, ◌*◌, ◌%◌, ◌<◌, ◌≤◌, ◌≡◌, ◌⊎◌, inl, inr, refl, arith, length, [], ◌∷◌, Bytes,
  get_or, Bool-cases, ◌==◌, Bool, true, false, ◌++◌, sym, append-nil, if◌then◌else◌,
}
use secure_data_transmission.RandomText.{get_rand_string, rand_char, rand_chars, special_chars}

-- A to Z, a to z, 0 to 9, or one of the special characters.
abbrev pub IsInAlphabet : ℕ → Type 0
IsInAlphabet c =
    ((65 ≤ c) × (c ≤ 90))
    ⊎ ((97 ≤ c) × (c ≤ 122))
    ⊎ ((48 ≤ c) × (c ≤ 57))
    ⊎ ((k : ℕ) × (k < 13) × (c ≡ get_or special_chars k 0))

abbrev pub AllInAlphabet : Bytes → Type 0
AllInAlphabet [] = Unit {0}
AllInAlphabet (c ∷ cs) = IsInAlphabet c × AllInAlphabet cs

rand_char-IsInAlphabet : (flag r : ℕ) → IsInAlphabet (rand_char flag r)
unfolding rand_char
rand_char-IsInAlphabet flag r = elim (Bool-cases (flag % 4 == 0)) [
  | inl a ↦ inl (ground (arith, a), ground (arith, a))
  | inr a ↦ elim (Bool-cases (flag % 4 == 1)) [
    | inl b ↦ inr (inl (ground (arith, a, b), ground (arith, a, b)))
    | inr b ↦ elim (Bool-cases (flag % 4 == 3)) [
      | inl c ↦ inr (inr (inl (ground (arith, a, b, c), ground (arith, a, b, c))))
      | inr c ↦ inr (inr (inr (r % 13, omega arith, ground (arith, a, b, c))))
    ]
  ]
]

rand_chars-AllInAlphabet :
    (rand : ℕ → ℕ) (i n : ℕ)
    → (length (rand_chars rand i n) ≡ n) × AllInAlphabet (rand_chars rand i n)
unfolding rand_chars
rand_chars-AllInAlphabet rand i zero = (refl, _)
rand_chars-AllInAlphabet rand i (suc n) =
    let (len, all) = rand_chars-AllInAlphabet rand (i + 1) n in
    (omega (arith, len), (rand_char-IsInAlphabet (rand (2 * i)) (rand (2 * i + 1)), all))

-- Whatever `rand` gives, `getRandString` appends to its text as many characters as it is asked for,
-- each of the alphabet that its comment names (A to Z, a to z, 0 to 9, and the thirteen special
-- characters), and then the text of the time, where it is asked for that.
pub get_rand_string-AllInAlphabet :
    (rand : ℕ → ℕ) (len : ℕ) (buf : Bytes) (curtime : Bool) (clock : Bytes)
    → (drawn : Bytes) × (length drawn ≡ len)
      × AllInAlphabet drawn
      × (get_rand_string rand len buf curtime clock
          ≡ (buf ++ drawn) ++ (if curtime then clock else []))
unfolding get_rand_string
get_rand_string-AllInAlphabet rand len buf true clock =
    let (size, all) = rand_chars-AllInAlphabet rand 0 len in
    (rand_chars rand 0 len, size, all, refl)
get_rand_string-AllInAlphabet rand len buf false clock =
    let (size, all) = rand_chars-AllInAlphabet rand 0 len in
    (rand_chars rand 0 len, size, all, sym (append-nil _))
