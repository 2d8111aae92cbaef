-- ===== src/Protocol/Locking/ExternalKey.antt =====
-- Protecting the signature keys with an external key and removing the protection.
use lime_security_powerauth.Base.{◌≡◌, refl, ◌⊎◌, Bool, true, false, [], Bytes, length, arith}
use lime_security_powerauth.Platform.{OpenSsl, AesLaws}
use lime_security_powerauth.Crypto.Aes.Laws.{
  length-cbc_encrypt, length-cbc_decrypt, cbc_decrypt-cbc_encrypt,
}
use lime_security_powerauth.Protocol.Constants.{zero_iv}
use lime_security_powerauth.Protocol.Types.{SignatureKeys}
use lime_security_powerauth.Protocol.Locking.{protect_signature_keys_with_eek, eek_step}

-- The knowledge key has its size, and so has the biometry key if there is one.
abbrev pub HasSizes : SignatureKeys → Type 0
HasSizes keys =
    (length keys.knowledge_key ≡ 16) × ((keys.biometry_key ≡ []) ⊎ (length keys.biometry_key ≡ 16))

module _ ⦃ssl : OpenSsl⦄ (aes : AesLaws ssl) (eek : Bytes) (he : length eek ≡ 16) where
  eek_step-eek_step : (k : Bytes) → length k ≡ 16 → eek_step eek false (eek_step eek true k) ≡ k
  unfolding eek_step
  eek_step-eek_step k h = cbc_decrypt-cbc_encrypt aes eek zero_iv k he refl (ground (arith, h))

  length-eek_step : (b : Bool) (k : Bytes) → length k ≡ 16 → length (eek_step eek b k) ≡ 16
  unfolding eek_step
  length-eek_step true k h = ground (arith, length-cbc_encrypt aes eek zero_iv k he)
  length-eek_step false k h = ground (arith, length-cbc_decrypt aes eek zero_iv k he)

  -- Adding the protection of an external key of 16 bytes to keys that lack it succeeds, and removing
  -- it again with the same key succeeds and restores the keys, provided the knowledge key has 16
  -- bytes, the biometry key 16 or none, and AES decrypts what it encrypts and keeps sizes.
  pub unprotect-protect :
      (keys : SignatureKeys)
      → keys.uses_external_key ≡ false
      → HasSizes keys
      → let (protected, done) = protect_signature_keys_with_eek keys eek true in
        (done ≡ true) × (protect_signature_keys_with_eek protected eek false ≡ (keys, true))
  unfolding protect_signature_keys_with_eek
  unprotect-protect keys hu (hk, hb) = ground (
    arith,
    eek_step-eek_step keys.knowledge_key hk,
    length-eek_step true keys.knowledge_key hk,
    eek_step-eek_step keys.biometry_key,
    length-eek_step true keys.biometry_key,
  )
