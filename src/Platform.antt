-- ===== src/Platform.antt =====
-- What the SDK takes from elsewhere: the cc7 submodule and OpenSSL. Both are parameters of the
-- model, with the documented behaviour that the theorems rely on as records of laws.
use lime_security_powerauth.Base.{ℕ, ◌%◌, ◌^◌, ◌<◌, ◌≡◌, Bool, true, Option, some, Bytes, length}

-- cc7: byte order (cc7/Endian.h) and Base64 (cc7/Base64.h).
pub record Cc7 : Type 0 where
  -- the memory of `ToBigEndian(v)` for an integer type of `w` bytes
  pub to_big_endian : ℕ → ℕ → Bytes
  -- `FromBigEndian` of the integer that has this memory
  pub from_big_endian : Bytes → ℕ
  -- `ToBase64String`, `ByteArray::base64String`
  pub to_base64 : Bytes → Bytes
  -- `Base64_Decode` with no wrapping, `readFromBase64String`, `FromBase64String`
  pub from_base64 : Bytes → Option Bytes

pub record Cc7Laws (cc : Cc7) : Type 0 where
  pub length-to_big_endian : (w v : ℕ) → length (cc.to_big_endian w v) ≡ w
  pub from-to_big_endian : (w v : ℕ) → v < 256 ^ w → cc.from_big_endian (cc.to_big_endian w v) ≡ v
  pub from-to_base64 : (d : Bytes) → cc.from_base64 (cc.to_base64 d) ≡ some d

-- An EC_KEY of OpenSSL: whatever it holds for its public point and its private number. Only the
-- functions of `OpenSsl` look inside.
pub record EcKey : Type 0 where
  pub point : Bytes
  pub number : Bytes

pub record OpenSsl : Type 0 where
  -- `AES_set_encrypt_key(key, 8 * size) == 0`, and the same for decryption
  pub accepts_encrypt_key : Bytes → Bool
  pub accepts_decrypt_key : Bytes → Bool
  -- `AES_cbc_encrypt` with AES_ENCRYPT and AES_DECRYPT: key, initialisation vector, data
  pub cbc_encrypt : Bytes → Bytes → Bytes → Bytes
  pub cbc_decrypt : Bytes → Bytes → Bytes → Bytes
  -- SHA256_Init, _Update, _Final
  pub sha256_digest : Bytes → Bytes
  -- `HMAC(EVP_sha256(), key, data)`, `none` for a null result
  pub hmac : Bytes → Bytes → Option Bytes
  -- `PKCS5_PBKDF2_HMAC_SHA1`: password, salt, rounds, size of the result
  pub pbkdf2 : Bytes → Bytes → ℕ → ℕ → Bytes
  -- `EC_KEY_new_by_curve_name` of prime256v1
  pub new_key : Option EcKey
  -- `EC_POINT_new`, `EC_POINT_oct2point`, `EC_KEY_set_public_key`; `none` if one of them fails
  pub set_public : EcKey → Bytes → Option EcKey
  -- `BN_CTX_get`, `BN_bin2bn`, `EC_KEY_set_private_key`; `none` if one of them fails
  pub set_private : EcKey → Bytes → Option EcKey
  -- `EC_POINT_point2oct` of the public key, compressed: its size on a null buffer, and its octets
  pub public_size : EcKey → ℕ
  pub public_octets : EcKey → Bytes
  -- `BN_num_bytes` and `BN_bn2bin` of the private key
  pub private_octets : EcKey → Bytes
  -- `EC_GROUP_get_degree` of a key's group
  pub group_degree : EcKey → ℕ
  -- `EC_KEY_get0_public_key` and `ECDH_compute_key`, on the other party's key and the own key;
  -- `none` for no public point or a negative size
  pub ecdh : EcKey → EcKey → Option Bytes
  -- `ECDSA_verify(digest, signature, key) == 1`
  pub ecdsa_verify : Bytes → Bytes → EcKey → Bool
  -- `ECDSA_size`, and `ECDSA_sign` of a digest, `none` if it fails
  pub ecdsa_size : EcKey → ℕ
  pub ecdsa_sign : Bytes → EcKey → Option Bytes

-- AES in CBC mode: an accepted key decrypts whole blocks to what it encrypted, and sizes are kept.
pub record AesLaws (ssl : OpenSsl) : Type 0 where
  pub accepts-encrypt : (k : Bytes) → length k ≡ 16 → ssl.accepts_encrypt_key k ≡ true
  pub accepts-decrypt : (k : Bytes) → length k ≡ 16 → ssl.accepts_decrypt_key k ≡ true
  pub length-cbc_encrypt : (k iv d : Bytes) → length (ssl.cbc_encrypt k iv d) ≡ length d
  pub length-cbc_decrypt : (k iv d : Bytes) → length (ssl.cbc_decrypt k iv d) ≡ length d
  pub decrypt-encrypt :
      (k iv d : Bytes)
      → length k ≡ 16
      → length iv ≡ 16
      → length d % 16 ≡ 0
      → ssl.cbc_decrypt k iv (ssl.cbc_encrypt k iv d) ≡ d
  pub encrypt-decrypt :
      (k iv d : Bytes)
      → length k ≡ 16
      → length iv ≡ 16
      → length d % 16 ≡ 0
      → ssl.cbc_encrypt k iv (ssl.cbc_decrypt k iv d) ≡ d

-- The sizes of digests and derived keys.
pub record DigestLaws (ssl : OpenSsl) : Type 0 where
  pub length-sha256_digest : (d : Bytes) → length (ssl.sha256_digest d) ≡ 32
  pub length-hmac : (d k : Bytes) {r : Bytes} → ssl.hmac d k ≡ some r → length r ≡ 32
  pub length-pbkdf2 : (p s : Bytes) (n size : ℕ) → length (ssl.pbkdf2 p s n size) ≡ size
