-- ===== src/Crypto.antt =====
-- Hash.cpp, HmacPool.cpp (class Hmac) and RsaCrypto.cpp, which wrap OpenSSL; the two sides have the
-- same code. OpenSSL itself is a parameter.
pub mod Hex
pub mod Signing
use secure_data_transmission.Base.{
  ℕ, ◌+◌, ◌*◌, ◌/◌, ◌%◌, ◌≡◌, Option, none, some, List, [], ◌∷◌, ◌++◌, length, take, if◌then◌else◌,
  ltb, Bytes, c_str,
}

pub data HashType : Type 0 where
  t_md5 t_sha1 t_sha224 t_sha256 t_sha384 t_sha512 : HashType

-- What the wrappers call. A public key is named by its PEM text; the private key is the server's.
-- `hmac`, `public_encrypt` and `private_decrypt` fail with `none`. `from_base64` gives the buffer
-- that `BIO_read` leaves, as long as its input; `object_bytes` are the bytes of a `std::string`
-- object itself, at whose start `&key_` points.
pub record OpenSsl : Type 0 where
  pub digest : HashType → Bytes → Bytes
  pub hmac : HashType → Bytes → Bytes → Option Bytes
  pub public_encrypt : Bytes → Bytes → Option Bytes
  pub private_decrypt : Bytes → Option Bytes
  pub key_len : ℕ
  pub to_base64 : Bytes → Bytes
  pub from_base64 : Bytes → Bytes
  pub object_bytes : Bytes → Bytes
  pub public_pem : Bytes

-- MD5_DIGEST_LENGTH and its kin.
abbrev pub digest_length : HashType → ℕ
digest_length t_md5 = 16
digest_length t_sha1 = 20
digest_length t_sha224 = 28
digest_length t_sha256 = 32
digest_length t_sha384 = 48
digest_length t_sha512 = 64

hex_digit : ℕ → ℕ
hex_digit n = if ltb n 10 then b'0' + n else 87 + n

-- `sprintf("%02x")` of each byte in turn.
unfoldable pub hex : Bytes → Bytes
unfolding hex_digit
hex [] = []
hex (b ∷ bs) = hex_digit (b / 16 % 16) ∷ hex_digit (b % 16) ∷ hex bs

-- A `Hash`: its algorithm, and what has been fed to the context.
pub record Hash : Type 0 where
  pub algorithm : HashType
  pub fed : Bytes

unfoldable pub new_hash : HashType → Hash
new_hash t = record { algorithm = t; fed = [] }

-- `addData`: the data end where `strlen` says.
unfoldable pub add_data : Hash → Bytes → Hash
add_data h text = record h { fed = h.fed ++ c_str text }

-- An `Hmac`: its key and algorithm.
pub record Hmac : Type 0 where
  pub key : Bytes
  pub algorithm : HashType

module _ (o : OpenSsl) where
  -- `result`: `string(res, N * 2 + 1)`, with the NUL that the last `sprintf` wrote.
  unfoldable pub hash_result : Hash → Bytes
  hash_result h = hex (o.digest h.algorithm h.fed) ++ 0 ∷ []

  -- `md5Auth` and its kin: nothing where HMAC fails.
  mac_text : Option Bytes → Bytes
  mac_text none = []
  mac_text (some md) = hex md

  -- `auth`. Only `sha256Auth`, which also stands for SHA-384, passes the key's characters.
  unfoldable pub auth : Hmac → Bytes → Bytes
  unfolding mac_text
  auth h text = elim h.algorithm [
    | t_md5 ↦ mac_text (o.hmac t_md5 (take (length h.key) (o.object_bytes h.key)) text)
    | t_sha1 ↦ mac_text (o.hmac t_sha1 (take (length h.key) (o.object_bytes h.key)) text)
    | t_sha224 ↦ mac_text (o.hmac t_sha224 (take (length h.key) (o.object_bytes h.key)) text)
    | t_sha256 ↦ mac_text (o.hmac t_sha256 h.key text)
    | t_sha384 ↦ mac_text (o.hmac t_sha256 h.key text)
    | t_sha512 ↦ mac_text (o.hmac t_sha512 (take (length h.key) (o.object_bytes h.key)) text)
  ]

  encoded : Option Bytes → Bytes
  encoded none = []
  encoded (some c) = o.to_base64 c

  -- `rsaPublicKeyEncrypt` under a loaded key: empty where it fails.
  unfoldable pub rsa_public_key_encrypt : Bytes → Bytes → Bytes
  unfolding encoded
  rsa_public_key_encrypt key text = encoded (o.public_encrypt key text)

  decrypted : Option Bytes → Bytes
  decrypted none = []
  decrypted (some text) = text

  -- `rsaPriKeyDecrypt` reads as many bytes as the key has from a buffer as long as its argument:
  -- `none`, where that is too short.
  unfoldable pub rsa_pri_key_decrypt : Bytes → Option Bytes
  unfolding decrypted
  rsa_pri_key_decrypt enc =
      if ltb (length enc) o.key_len
      then none
      else some (decrypted (o.private_decrypt (take o.key_len (o.from_base64 enc))))
