-- ===== src/Crypto/Digest.antt =====
-- src/PowerAuth/crypto/Digest.cpp.
use lime_security_powerauth.Base.{
  ℕ, ◌&&◌, [], Option, none, some, ltb, ◌==◌, if◌then◌else◌, Bytes, length, take,
}
use lime_security_powerauth.Platform.{OpenSsl}

-- SHA256_DIGEST_LENGTH
abbrev pub digest_length : ℕ
digest_length = 32

cropped : ℕ → Bytes → Bytes
cropped output_bytes digest =
    if ltb 0 output_bytes && ltb output_bytes digest_length
    then take output_bytes digest
    else digest

checked : ℕ → Option Bytes → Bytes
checked output_bytes none = []
checked output_bytes (some digest) =
    if length digest == digest_length then cropped output_bytes digest else []

module _ ⦃ssl : OpenSsl⦄ where
  unfoldable pub sha256 : Bytes → Bytes
  sha256 d = ssl.sha256_digest d

  unfoldable pub hmac_sha256 : Bytes → Bytes → ℕ → Bytes
  unfolding cropped checked
  hmac_sha256 d key output_bytes = checked output_bytes (ssl.hmac d key)

  unfoldable pub pbkdf2_hmac_sha_1 : Bytes → Bytes → ℕ → ℕ → Bytes
  pbkdf2_hmac_sha_1 pass salt iterations output_bytes = ssl.pbkdf2 pass salt iterations output_bytes
