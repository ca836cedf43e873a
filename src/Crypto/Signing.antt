-- ===== src/Crypto/Signing.antt =====
-- RsaCrypto.cpp: the key pair, its files, and signatures. The two sides have the same code.
pub mod Verifying
mod Tests
use secure_data_transmission.Base.{
  ℕ, Bool, true, false, Option, none, some, List, [], ◌∷◌, ◌++◌, ◌>>=◌, length, take, ltb,
  if◌then◌else◌, bytes_eq, Bytes, codes,
}

-- `SignLevel`, which is the digest's number in OpenSSL.
pub data SignLevel : Type 0 where
  level1 level2 level3 level4 level5 level6 : SignLevel

-- What the wrapper calls. `fresh` is what `RSA_new` gives; `sign` fails with `none`, `verify` is
-- whether `RSA_verify` returns 1; `read_public` is `PEM_read_bio_RSAPublicKey` of a text.
pub record Rsa : Type 1 where
  pub Key : Type 0
  pub fresh : Key
  pub public_half : Key → Key
  pub private_half : Key → Key
  pub write_public : Key → Bytes
  pub write_private : Key → Bytes
  pub read_public : Bytes → Option Key
  pub size : Key → ℕ
  pub sign : SignLevel → Bytes → Key → Option Bytes
  pub verify : SignLevel → Bytes → Bytes → Key → Bool
  pub to_base64 : Bytes → Bytes
  pub from_base64 : Bytes → Bytes

-- The files by their paths, the last written first.
abbrev pub Files : Type 0
Files = List (Bytes × Bytes)

unfoldable pub read_file : Bytes → Files → Option Bytes
read_file path [] = none
read_file path ((p, text) ∷ files) = if bytes_eq path p then some text else read_file path files

module _ (r : Rsa) where
  open r use {Key}

  -- `publicKey` and `privateKey`: none, where the pointer has not been set.
  pub record RsaCrypto : Type 0 where
    pub public_key : Option Key
    pub private_key : Option Key

  -- `generateRsakey`, where `RSA_generate_key_ex` makes `made` and the files open.
  unfoldable pub generate_rsakey : Bytes → Key → Files → RsaCrypto × Files
  generate_rsakey path made files = (
    record { public_key = some (r.public_half made); private_key = some (r.private_half made) },
    (path ++ codes "/private.pem", r.write_private made)
        ∷ (path ++ codes "/public.pem", r.write_public made)
        ∷ files,
  )

  -- The key in a file, as both loaders read it.
  unfoldable pub load_key : Bytes → Files → Option Key
  load_key path files = do text ← read_file path files; r.read_public text

  unfoldable pub load_rsa_public_key : Bytes → Files → RsaCrypto → Bool × RsaCrypto
  load_rsa_public_key path files s = elim (load_key path files) [
    | none ↦ (false, record s { public_key = some r.fresh })
    | some k ↦ (true, record s { public_key = some k })
  ]

  unfoldable pub load_rsa_private_key : Bytes → Files → RsaCrypto → Bool × RsaCrypto
  load_rsa_private_key path files s = elim (load_key path files) [
    | none ↦ (false, record s { private_key = some r.fresh })
    | some k ↦ (true, record s { private_key = some k })
  ]

  -- `rsaSign`: `none` where there is no key, and where `RSA_sign` fails, since the length of the
  -- signature is then not initialised.
  unfoldable pub rsa_sign : Bytes → SignLevel → RsaCrypto → Option Bytes
  rsa_sign text level s = do
    key ← s.private_key
    signature ← r.sign level text key
    some (r.to_base64 signature)

  -- `rsaVertify` reads as many bytes as the key has from a buffer as long as its argument. It does
  -- not use its level.
  unfoldable pub rsa_vertify : Bytes → Bytes → SignLevel → RsaCrypto → Option Bool
  rsa_vertify text signature level s = do
    key ← s.public_key
    if ltb (length signature) (r.size key)
        then none
        else some (r.verify level2 text (take (r.size key) (r.from_base64 signature)) key)
