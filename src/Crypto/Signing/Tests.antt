-- ===== src/Crypto/Signing/Tests.antt =====
-- Signatures with a sample of RSA, whose signature of two bytes is the number of its level.
use mathlib.Core.Option.{some-injective}
use secure_data_transmission.Base.{
  take, ℕ, zero, suc, ◌≡◌, ◌∙◌, refl, sym, ap, Bool, true, false, Option, none, some, [], ◌∷◌,
  length, Bytes, codes, arith,
}
use secure_data_transmission.Crypto.Signing.{
  SignLevel, level1, level2, level3, level4, level5, level6, Rsa, generate_rsakey, rsa_sign,
  rsa_vertify,
}
use secure_data_transmission.Crypto.Signing.Verifying.{same_level, Documented, rsa_vertify-rsa_sign}

abbrev number_of : SignLevel → ℕ
number_of level1 = 1
number_of level2 = 2
number_of level3 = 3
number_of level4 = 4
number_of level5 = 5
number_of level6 = 6

abbrev level_of : ℕ → SignLevel
level_of (suc (suc zero)) = level2
level_of (suc (suc (suc zero))) = level3
level_of (suc (suc (suc (suc zero)))) = level4
level_of (suc (suc (suc (suc (suc zero))))) = level5
level_of (suc (suc (suc (suc (suc (suc zero)))))) = level6
level_of _ = level1

number_back : (l : SignLevel) → level_of (number_of l) ≡ l
number_back level1 = refl
number_back level2 = refl
number_back level3 = refl
number_back level4 = refl
number_back level5 = refl
number_back level6 = refl

abbrev accepts : SignLevel → Bytes → Bool
accepts at [] = false
accepts at (n ∷ rest) = same_level (level_of n) at

abbrev read_pem : Bytes → Option Bool
read_pem (suc zero ∷ rest) = some true
read_pem _ = none

abbrev sample_rsa : Rsa
sample_rsa = record {
  Key = Bool;
  fresh = false;
  public_half = λ k. true;
  private_half = λ k. false;
  write_public = λ k. 1 ∷ [];
  write_private = λ k. 2 ∷ [];
  read_public = read_pem;
  size = λ k. 2;
  sign = λ l text k. some (number_of l ∷ 0 ∷ []);
  verify = λ at text s k. accepts at s;
  to_base64 = λ b. b;
  from_base64 = λ b. b;
}

take_all : (b : Bytes) → take (length b) b ≡ b
take_all [] = refl
take_all (x ∷ b) = ap (λ r. x ∷ r) (take_all b)

sample-Documented : Documented sample_rsa
sample-Documented = record {
  verifies = λ made level at text s e.
      ap (accepts at) (sym (some-injective _ _ e)) ∙ ap (λ l. same_level l at) (number_back level);
  as_long = λ made level text s e. ap length (sym (some-injective _ _ e));
  base64_back = take_all;
  base64_long = λ b. omega arith;
  public_back = λ k. refl;
  not_public = λ k. refl;
}

-- The default level is refused.
rsa_vertify-rsa_sign_example :
    rsa_vertify sample_rsa
      (codes "hi")
      (4 ∷ 0 ∷ [])
      level4
      (generate_rsakey sample_rsa [] true []).0
    ≡ some (same_level level4 level2)
unfolding rsa_sign generate_rsakey
rsa_vertify-rsa_sign_example =
    rsa_vertify-rsa_sign sample_rsa sample-Documented [] true [] (codes "hi") (4 ∷ 0 ∷ []) level4
      level4 refl
