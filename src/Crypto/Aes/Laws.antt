-- ===== src/Crypto/Aes/Laws.antt =====
-- Encryption and decryption undo one another, with the behaviour of OpenSSL's AES as hypothesis.
use lime_security_powerauth.Base.{◌%◌, ◌≡◌, false, Bytes, length}
use lime_security_powerauth.Platform.{OpenSsl, AesLaws}
use lime_security_powerauth.Crypto.Padding.{get_padded_data}
use lime_security_powerauth.Crypto.Padding.Laws.{
  length-get_padded_data, validate_and_update_data-get_padded_data,
}
use lime_security_powerauth.Crypto.Aes.{
  cbc_encrypt, cbc_decrypt, cbc_encrypt_padding, cbc_decrypt_padding,
}

module _ ⦃ssl : OpenSsl⦄ (aes : AesLaws ssl) (k iv d : Bytes) (hk : length k ≡ 16) where
  pub length-cbc_encrypt : length (cbc_encrypt k iv d) ≡ length d
  unfolding cbc_encrypt
  length-cbc_encrypt = rw (aes.accepts-encrypt k hk) (aes.length-cbc_encrypt k iv d)

  pub length-cbc_decrypt : length (cbc_decrypt k iv d) ≡ length d
  unfolding cbc_decrypt
  length-cbc_decrypt = rw (aes.accepts-decrypt k hk) (aes.length-cbc_decrypt k iv d)

module _ ⦃ssl : OpenSsl⦄ (aes : AesLaws ssl) (k iv d : Bytes) (hk : length k ≡ 16)
    (hv : length iv ≡ 16) where
  pub cbc_decrypt-cbc_encrypt : length d % 16 ≡ 0 → cbc_decrypt k iv (cbc_encrypt k iv d) ≡ d
  unfolding cbc_encrypt cbc_decrypt
  cbc_decrypt-cbc_encrypt hd =
      rw (aes.accepts-encrypt k hk, aes.accepts-decrypt k hk) (aes.decrypt-encrypt k iv d hk hv hd)

  pub cbc_encrypt-cbc_decrypt : length d % 16 ≡ 0 → cbc_encrypt k iv (cbc_decrypt k iv d) ≡ d
  unfolding cbc_encrypt cbc_decrypt
  cbc_encrypt-cbc_decrypt hd =
      rw (aes.accepts-encrypt k hk, aes.accepts-decrypt k hk) (aes.encrypt-decrypt k iv d hk hv hd)

module _ ⦃ssl : OpenSsl⦄ (aes : AesLaws ssl) where
  -- Data of any length that are padded and encrypted under a 16-byte key and vector decrypt to
  -- themselves, with no error, provided AES decrypts what it encrypts.
  pub cbc_decrypt_padding-cbc_encrypt_padding :
      (k iv d : Bytes)
      → length k ≡ 16
      → length iv ≡ 16
      → cbc_decrypt_padding k iv (cbc_encrypt_padding k iv d) ≡ (d, false)
  unfolding cbc_encrypt_padding cbc_decrypt_padding
  cbc_decrypt_padding-cbc_encrypt_padding k iv d hk hv = rw (
    cbc_decrypt-cbc_encrypt aes k iv (get_padded_data d 16) hk hv (length-get_padded_data d).0,
    validate_and_update_data-get_padded_data d,
  )
