-- ===== src/Protocol/Locking/RoundTrip.antt =====
-- Unlocking the signature keys that were locked.
use lime_security_powerauth.Base.{ℕ, ◌≡◌, refl, true, [], Option, none, some, Bytes, length, arith}
use lime_security_powerauth.Platform.{OpenSsl, AesLaws, DigestLaws}
use lime_security_powerauth.Crypto.Aes.{cbc_encrypt}
use lime_security_powerauth.Crypto.Aes.Laws.{length-cbc_encrypt, cbc_decrypt-cbc_encrypt}
use lime_security_powerauth.Crypto.Digest.{pbkdf2_hmac_sha_1}
use lime_security_powerauth.Protocol.Constants.{zero_iv, sf_knowledge}
use lime_security_powerauth.Protocol.Derivation.{derive_secret_key_from_password}
use lime_security_powerauth.Protocol.Types.{
  SignatureKeys, SignatureUnlockKeys, SignatureUnlockKeysReq,
}
use lime_security_powerauth.Protocol.Validation.{validate_unlock_keys, validate_signature_keys}
use lime_security_powerauth.Protocol.Locking.{
  lock_signature_keys, unlock_signature_keys, encrypt_signature_key, decrypt_signature_key,
}

-- An external key that is there has its size.
abbrev pub HasSize : Option Bytes → Type 0
HasSize none = Unit {0}
HasSize (some ext_key) = length ext_key ≡ 16

module _ ⦃ssl : OpenSsl⦄ (aes : AesLaws ssl) where
  pub decrypt-encrypt_signature_key :
      (k : Bytes) (ext : Option Bytes) (d : Bytes)
      → length k ≡ 16
      → HasSize ext
      → length d ≡ 16
      → decrypt_signature_key k ext (encrypt_signature_key k ext d) ≡ d
  unfolding decrypt_signature_key encrypt_signature_key
  decrypt-encrypt_signature_key k none d hk h hd =
      cbc_decrypt-cbc_encrypt aes k zero_iv d hk refl (ground (arith, hd))
  decrypt-encrypt_signature_key k (some ext) d hk h hd =
      rw
        (cbc_decrypt-cbc_encrypt aes ext zero_iv (cbc_encrypt k zero_iv d) h refl
          (ground (arith, hd, length-cbc_encrypt aes k zero_iv d hk)))
        (cbc_decrypt-cbc_encrypt aes k zero_iv d hk refl (ground (arith, hd)))

  pub length-encrypt_signature_key :
      (k : Bytes) (ext : Option Bytes) (d : Bytes)
      → length k ≡ 16
      → HasSize ext
      → length d ≡ 16
      → length (encrypt_signature_key k ext d) ≡ 16
  unfolding encrypt_signature_key
  length-encrypt_signature_key k none d hk h hd =
      ground (arith, length-cbc_encrypt aes k zero_iv d hk)
  length-encrypt_signature_key k (some ext) d hk h hd = ground (
    arith,
    length-cbc_encrypt aes k zero_iv d hk,
    length-cbc_encrypt aes ext zero_iv (cbc_encrypt k zero_iv d) h,
  )

  external-size :
      (keys : SignatureUnlockKeys) (ext : Option Bytes)
      → validate_unlock_keys keys ext sf_knowledge ≡ true
      → HasSize ext
  unfolding validate_unlock_keys
  external-size keys none h = tt
  external-size keys (some ext) h = ground arith

  knowledge-size :
      (keys : SignatureKeys)
      → validate_signature_keys keys sf_knowledge ≡ true
      → length keys.knowledge_key ≡ 16
  unfolding validate_signature_keys
  knowledge-size keys h = ground arith

  module _ (digest : DigestLaws ssl) where
    pub length-derived :
        (password salt : Bytes) (n : ℕ)
        → length (derive_secret_key_from_password password salt n) ≡ 16
    unfolding derive_secret_key_from_password pbkdf2_hmac_sha_1
    length-derived password salt n = digest.length-pbkdf2 password salt n 16

    -- A password unlocks the knowledge key that it locked: where locking for the knowledge factor
    -- succeeds, unlocking the result with the same password, salt, rounds and external key gives the
    -- knowledge key back, and no other key, provided AES decrypts what it encrypts and PBKDF2 gives
    -- keys of the size asked for.
    pub unlock-lock_knowledge :
        (secret plain locked : SignatureKeys) (keys : SignatureUnlockKeys) (ext : Option Bytes)
        (salt : Bytes) (n : ℕ)
        → let request : SignatureUnlockKeysReq = record {
          factor = sf_knowledge;
          keys = keys;
          ext_key = ext;
          pbkdf2_salt = some salt;
          pbkdf2_iter = n;
        } in
          lock_signature_keys secret plain request ≡ (locked, true)
          → unlock_signature_keys locked request
            ≡ some (record plain { possession_key = []; biometry_key = []; transport_key = [] })
    unfolding lock_signature_keys unlock_signature_keys
    unlock-lock_knowledge secret plain locked keys ext salt n h =
        let k = derive_secret_key_from_password keys.user_password salt n in
        ground (
          arith,
          external-size keys ext,
          knowledge-size plain,
          length-derived keys.user_password salt n,
          decrypt-encrypt_signature_key k ext plain.knowledge_key,
        )
