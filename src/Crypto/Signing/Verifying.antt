-- ===== src/Crypto/Signing/Verifying.antt =====
-- What becomes of a signature of a generated key, and of the key in its files.
use secure_data_transmission.Base.{
  ◌≤◌, ◌≡◌, refl, Bool, true, false, none, some, ◌++◌, length, take, Bytes, codes, arith, bind-some,
  bytes_eq_iff,
}
use secure_data_transmission.Crypto.Signing.{
  SignLevel, level1, level2, level3, level4, level5, level6, Rsa, RsaCrypto, Files, read_file,
  generate_rsakey, load_key, load_rsa_private_key, rsa_sign, rsa_vertify,
}

abbrev pub same_level : SignLevel → SignLevel → Bool
same_level level1 level1 = true
same_level level2 level2 = true
same_level level3 level3 = true
same_level level4 level4 = true
same_level level5 level5 = true
same_level level6 level6 = true
same_level _ _ = false

-- What OpenSSL documents: a signature is as long as the key, and verifies under the other half for
-- the digest that it was made for; base64 is read back; a private key's PEM is not a public key's.
pub record Documented (r : Rsa) : Type 0 where
  pub verifies :
      (made : r.Key) (level at : SignLevel) (text signature : Bytes)
      → r.sign level text (r.private_half made) ≡ some signature
      → r.verify at text signature (r.public_half made) ≡ same_level level at
  pub as_long :
      (made : r.Key) (level : SignLevel) (text signature : Bytes)
      → r.sign level text (r.private_half made) ≡ some signature
      → length signature ≡ r.size (r.public_half made)
  pub base64_back : (b : Bytes) → take (length b) (r.from_base64 (r.to_base64 b)) ≡ b
  pub base64_long : (b : Bytes) → length b ≤ length (r.to_base64 b)
  pub public_back : (k : r.Key) → r.read_public (r.write_public k) ≡ some (r.public_half k)
  pub not_public : (k : r.Key) → r.read_public (r.write_private k) ≡ none

module _ (r : Rsa) (doc : Documented r) where
  -- Of the signatures that `rsaSign` makes with a generated key, `rsaVertify` accepts those of
  -- Level2, and refuses those of every other level, the default of both functions included,
  -- whichever level it is given.
  pub rsa_vertify-rsa_sign :
      (path : Bytes) (made : r.Key) (files : Files) (text signature : Bytes)
      (level given : SignLevel)
      → rsa_sign r text level (generate_rsakey r path made files).0 ≡ some signature
      → rsa_vertify r text signature given (generate_rsakey r path made files).0
        ≡ some (same_level level level2)
  unfolding rsa_sign rsa_vertify generate_rsakey
  rsa_vertify-rsa_sign path made files text signature level given h =
      let (s, e, q) = bind-some (r.sign level text (r.private_half made)) _ h in
      ground (
        arith,
        q,
        doc.as_long made level text s e,
        doc.verifies made level level2 text s e,
        doc.base64_back s,
        doc.base64_long s,
      )

  -- The private key that `generateRsakey` has written is not loaded back: `loadRsaPrivateKey` returns
  -- false, and leaves an empty key.
  pub load_rsa_private_key-generate_rsakey :
      (path : Bytes) (made : r.Key) (files : Files) (s : RsaCrypto r)
      → load_rsa_private_key r
          (path ++ codes "/private.pem")
          (generate_rsakey r path made files).1
          s
        ≡ (false, record s { private_key = some r.fresh })
  unfolding load_rsa_private_key load_key generate_rsakey read_file
  load_rsa_private_key-generate_rsakey path made files s = ground (
    arith,
    (bytes_eq_iff (path ++ codes "/private.pem") (path ++ codes "/private.pem")).1 refl,
    doc.not_public made,
  )
