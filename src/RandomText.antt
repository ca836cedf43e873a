-- ===== src/RandomText.antt =====
-- `getRandString` of server/src/ServerOperation.cpp; client/src/ClientOperation.cpp has the same.
pub mod Alphabet
mod Tests
use secure_data_transmission.Base.{
  ℕ, zero, suc, ◌+◌, ◌-◌, ◌*◌, ◌%◌, ◌<◌, ◌≤◌, ◌≡◌, refl, arith, Bool, true, [], ◌∷◌, ◌++◌, length,
  length-append, if◌then◌else◌, ◌==◌, Bytes, codes, get_or,
}

abbrev pub special_chars : Bytes
special_chars = codes "!@#$%^&*()_+="

-- One character, from two values of `rand`.
unfoldable pub rand_char : ℕ → ℕ → ℕ
rand_char flag r =
    if flag % 4 == 0
    then 90 - r % 26
    else if flag % 4 == 1
    then 122 - r % 26
    else if flag % 4 == 3
    then r % 10 + 48
    else get_or special_chars (r % 13) 0

-- The characters of the loop from `i` on: the `k`-th call of `rand` gives `rand k`.
unfoldable pub rand_chars : (ℕ → ℕ) → ℕ → ℕ → Bytes
unfolding rand_char
rand_chars rand i zero = []
rand_chars rand i (suc n) = rand_char (rand (2 * i)) (rand (2 * i + 1)) ∷ rand_chars rand (i + 1) n

-- `clock` is the text in `tmp`: the four digits and their NUL do not fit its four bytes, so that
-- `strftime` promises nothing about it.
unfoldable pub get_rand_string : (ℕ → ℕ) → ℕ → Bytes → Bool → Bytes → Bytes
unfolding rand_chars
get_rand_string rand len buf curtime clock =
    let drawn = buf ++ rand_chars rand 0 len in if curtime then drawn ++ clock else drawn
