-- ===== src/RandomText/Tests.antt =====
-- Four characters and a time that `getRandString` appends.
use secure_data_transmission.Base.{
  ◌≡◌, ◌+◌, ◌/◌, ◌++◌, refl, true, [], length, codes, Bytes, if◌then◌else◌,
}
use secure_data_transmission.RandomText.{get_rand_string, rand_char, rand_chars}
use secure_data_transmission.RandomText.Alphabet.{AllInAlphabet, get_rand_string-AllInAlphabet}

draws_four : get_rand_string (λ k. k + k / 2) 4 (codes "x") true (codes "0512") ≡ codes "xY4*p0512"
unfolding get_rand_string rand_chars rand_char
draws_four = refl

get_rand_string-AllInAlphabet_example :
    (drawn : Bytes) × (length drawn ≡ 4)
    × AllInAlphabet drawn
    × (get_rand_string (λ k. k + k / 2) 4 (codes "x") true (codes "0512")
        ≡ (codes "x" ++ drawn) ++ (if true then codes "0512" else []))
get_rand_string-AllInAlphabet_example =
    get_rand_string-AllInAlphabet (λ k. k + k / 2) 4 (codes "x") true (codes "0512")
