-- ===== src/Crypto/Aes.antt =====
-- src/PowerAuth/crypto/AES.cpp: AES in CBC mode over OpenSSL, without and with PKCS7 padding.
pub mod Laws
use lime_security_powerauth.Base.{ℕ, Bool, not, [], if◌then◌else◌, Bytes}
use lime_security_powerauth.Platform.{OpenSsl}
use lime_security_powerauth.Crypto.Padding.{get_padded_data, validate_and_update_data}

abbrev pub aes_block_size : ℕ
aes_block_size = 16

module _ ⦃ssl : OpenSsl⦄ where
  -- An empty result if OpenSSL refuses the key.
  unfoldable pub cbc_encrypt : Bytes → Bytes → Bytes → Bytes
  cbc_encrypt key iv plain =
      if ssl.accepts_encrypt_key key then ssl.cbc_encrypt key iv plain else []

  unfoldable pub cbc_decrypt : Bytes → Bytes → Bytes → Bytes
  cbc_decrypt key iv enc = if ssl.accepts_decrypt_key key then ssl.cbc_decrypt key iv enc else []

  -- The data, and the value of `*error`.
  unfoldable pub cbc_decrypt_padding : Bytes → Bytes → Bytes → Bytes × Bool
  cbc_decrypt_padding key iv enc =
      let (padded_data, valid) = validate_and_update_data (cbc_decrypt key iv enc) aes_block_size in
      let failure = not valid in (if failure then [] else padded_data, failure)

  unfoldable pub cbc_encrypt_padding : Bytes → Bytes → Bytes → Bytes
  cbc_encrypt_padding key iv plain = cbc_encrypt key iv (get_padded_data plain aes_block_size)
