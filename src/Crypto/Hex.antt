-- ===== src/Crypto/Hex.antt =====
-- The digests' texts, and what the hash of a text depends on.
use secure_data_transmission.Base.{
  ℕ, ◌+◌, ◌*◌, ◌/◌, ◌%◌, ◌<◌, ◌≡◌, refl, ap, sym, ◌∙◌, [], ◌∷◌, ◌++◌, arith, length, length-append,
  Bytes, c_str, c_str-cons, c_str-append_nul,
}
use secure_data_transmission.Crypto.{
  hex, hex_digit, OpenSsl, Hash, new_hash, add_data, hash_result, HashType, digest_length,
}

pub length-hex : (bs : Bytes) → length (hex bs) ≡ 2 * length bs
unfolding hex
length-hex [] = refl
length-hex (b ∷ bs) = omega (arith, length-hex bs)

hex_digit_pos : (n : ℕ) → 0 < hex_digit n
unfolding hex_digit
hex_digit_pos n = ground arith

-- The text holds no NUL.
pub c_str-hex : (bs : Bytes) → c_str (hex bs) ≡ hex bs
unfolding hex c_str
c_str-hex [] = refl
c_str-hex (b ∷ bs) = ground (
  arith,
  hex_digit_pos (b / 16 % 16),
  hex_digit_pos (b % 16),
  c_str-cons (hex_digit (b / 16 % 16)) (hex_digit (b % 16) ∷ hex bs),
  c_str-cons (hex_digit (b % 16)) (hex bs),
  c_str-hex bs,
)

abbrev pub IsBytes : Bytes → Type 0
IsBytes [] = Unit {0}
IsBytes (b ∷ bs) = (b < 256) × IsBytes bs

hex_digit_injective : (a b : ℕ) → a < 16 → b < 16 → hex_digit a ≡ hex_digit b → a ≡ b
unfolding hex_digit
hex_digit_injective a b ha hb e = ground arith

-- Different bytes have different texts: comparing two hexadecimal texts compares the bytes.
pub hex_injective : (xs ys : Bytes) → IsBytes xs → IsBytes ys → hex xs ≡ hex ys → xs ≡ ys
unfolding hex
hex_injective [] [] p q e = refl
hex_injective [] (b ∷ ys) p q e = cc
hex_injective (a ∷ xs) [] p q e = cc
hex_injective (a ∷ xs) (b ∷ ys) p q e = ground (
  arith,
  hex_digit_injective (a / 16 % 16) (b / 16 % 16),
  hex_digit_injective (a % 16) (b % 16),
  hex_injective xs ys p.1 q.1,
)

-- `result` is two digits for each byte of the digest and a NUL, so comparing two results compares
-- the digests, while its length counts one character that is no digit.
pub hash_result_lem :
    (o : OpenSsl) (h : Hash)
    → length (o.digest h.algorithm h.fed) ≡ digest_length h.algorithm
    → (length (hash_result o h) ≡ 2 * digest_length h.algorithm + 1)
      × (c_str (hash_result o h) ≡ hex (o.digest h.algorithm h.fed))
unfolding hash_result
hash_result_lem o h e = ground (
  arith,
  length-append (hex (o.digest h.algorithm h.fed)) (0 ∷ []),
  length-hex (o.digest h.algorithm h.fed),
  c_str-append_nul (hex (o.digest h.algorithm h.fed)) [] (c_str-hex (o.digest h.algorithm h.fed)),
)

-- What follows a NUL in a text is not hashed: two texts that differ only there have one hash.
pub hash_result-ignores_tail :
    (o : OpenSsl) (t : HashType) (a b c : Bytes)
    → c_str a ≡ a
    → hash_result o (add_data (new_hash t) (a ++ 0 ∷ b))
      ≡ hash_result o (add_data (new_hash t) (a ++ 0 ∷ c))
unfolding add_data new_hash
hash_result-ignores_tail o t a b c e =
    ap (λ f. hash_result o (record { algorithm = t; fed = (new_hash t).fed ++ f }))
      (c_str-append_nul a b e ∙ sym (c_str-append_nul a c e))
