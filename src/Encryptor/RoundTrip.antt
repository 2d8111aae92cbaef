-- ===== src/Encryptor/RoundTrip.antt =====
-- Decrypting what was encrypted.
use lime_security_powerauth.Base.{
  ◌≡◌, refl, true, false, some, is_empty, equal_refl, Bytes, length, arith,
}
use lime_security_powerauth.Platform.{Cc7, Cc7Laws, OpenSsl, AesLaws}
use lime_security_powerauth.Crypto.Aes.{cbc_encrypt_padding}
use lime_security_powerauth.Crypto.Aes.Laws.{cbc_decrypt_padding-cbc_encrypt_padding}
use lime_security_powerauth.Crypto.Digest.{hmac_sha256}
use lime_security_powerauth.Crypto.Prng.Laws.{
  AllDrawn, length-get_unique_random_data, length-get_random_data,
}
use lime_security_powerauth.Protocol.Derivation.{derive_secret_key_from_index}
use lime_security_powerauth.Protocol.Derivation.Laws.{length-derive_secret_key_from_index}
use lime_security_powerauth.Protocol.Types.{ErrorCode}
use lime_security_powerauth.Encryptor.{
  Encryptor, EncryptedMessage, E2eeData, EncryptRandom, import_from_message, export_to_message,
  sealed, encrypt, decrypt, decrypt_data, matches,
}

module _ ⦃cc : Cc7⦄ ⦃ssl : OpenSsl⦄ where
  edata_of : Encryptor → Bytes → Bytes → Bytes → Bytes → E2eeData
  edata_of e ad_hoc_index mac_index nonce plain =
      let encryption_key = derive_secret_key_from_index e.key_transport_partial ad_hoc_index in
      let encrypted_data = cbc_encrypt_padding encryption_key nonce plain in
      record {
        encrypted_data = encrypted_data;
        mac =
            hmac_sha256 encrypted_data
              (derive_secret_key_from_index e.key_transport_partial mac_index) 0;
        session_index = e.session_index;
        ad_hoc_index = ad_hoc_index;
        mac_index = mac_index;
        nonce = nonce;
      }

  sealed_cases :
      (e : Encryptor) (a m n plain : Bytes) (message : EncryptedMessage)
      → sealed e a m n plain ≡ some message
      → (message ≡ export_to_message e (edata_of e a m n plain))
        × (is_empty (derive_secret_key_from_index e.key_transport_partial a) ≡ false)
        × (is_empty a ≡ false)
        × (is_empty m ≡ false)
        × (is_empty n ≡ false)
  unfolding sealed edata_of
  sealed_cases e a m n plain message h = ground arith

  import-export :
      (laws : Cc7Laws cc) (e : Encryptor) (d : E2eeData)
      → length d.session_index ≡ 16
      → length d.ad_hoc_index ≡ 16
      → length d.mac_index ≡ 16
      → length d.nonce ≡ 16
      → import_from_message (export_to_message e d) ≡ some d
  unfolding import_from_message export_to_message
  import-export laws e d hs ha hm hn = ground (
    arith,
    laws.from-to_base64 d.encrypted_data,
    laws.from-to_base64 d.mac,
    laws.from-to_base64 d.session_index,
    laws.from-to_base64 d.ad_hoc_index,
    laws.from-to_base64 d.mac_index,
    laws.from-to_base64 d.nonce,
  )

  matches_export :
      (e : Encryptor) (a m n plain : Bytes)
      → let d = edata_of e a m n plain in matches e (export_to_message e d) d ≡ true
  unfolding matches export_to_message edata_of
  matches_export e a m n plain = ground (
    arith,
    equal_refl e.session_index,
    equal_refl e.app_key_or_activation_id,
    equal_refl e.ephemeral_public_key,
  )

  decrypt_data-edata :
      (aes : AesLaws ssl) (e : Encryptor) (a m n plain : Bytes)
      → length n ≡ 16
      → is_empty (derive_secret_key_from_index e.key_transport_partial a) ≡ false
      → let d = edata_of e a m n plain in
        decrypt_data e (export_to_message e d) (some d) ≡ (ErrorCode.ec_ok, plain)
  unfolding decrypt_data edata_of
  decrypt_data-edata aes e a m n plain hn he =
      rw
        (
          matches_export e a m n plain,
          cbc_decrypt_padding-cbc_encrypt_padding aes
              (derive_secret_key_from_index e.key_transport_partial a) n plain
              (length-derive_secret_key_from_index e.key_transport_partial a he) hn,
          equal_refl,
        )
        refl

  -- What an encryptor encrypts, it decrypts: where encrypt gives a message, decrypt of that message
  -- reports EC_Ok and gives the data. The session index has its 16 bytes, the generator's draws have
  -- the size that is asked for, Base64 decodes what it encodes and AES decrypts what it encrypts.
  pub decrypt-encrypt :
      (laws : Cc7Laws cc) (aes : AesLaws ssl) (e : Encryptor) (random : EncryptRandom)
      (plain : Bytes) (message : EncryptedMessage)
      → length e.session_index ≡ 16
      → AllDrawn (λ d. length d ≡ 16) random.ad_hoc_draws
      → AllDrawn (λ d. length d ≡ 16) random.mac_draws
      → AllDrawn (λ d. length d ≡ 16) random.nonce_draws
      → encrypt e random plain ≡ some message
      → decrypt e message ≡ (ErrorCode.ec_ok, plain)
  unfolding encrypt decrypt edata_of
  decrypt-encrypt laws aes e random plain message hs ha hm hn h =
      let (f, k, na, nm, nn) = sealed_cases e _ _ _ plain message h in
      let ln = length-get_random_data 16 true random.nonce_draws hn nn in
      rw f (
        rw
          (import-export laws e (edata_of e _ _ _ plain) hs
            (length-get_unique_random_data 16 _ random.ad_hoc_draws ha na)
            (length-get_unique_random_data 16 _ random.mac_draws hm nm) ln)
          (decrypt_data-edata aes e _ _ _ plain ln k))
