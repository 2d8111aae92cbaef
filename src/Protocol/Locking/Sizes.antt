-- ===== src/Protocol/Locking/Sizes.antt =====
-- The sizes of the keys that are locked or protected.
use lime_security_powerauth.Base.{
  ◌≡◌, ◌⊎◌, refl, ◌≤◌, Bool, true, [], Option, none, some, Bytes, length, arith,
}
use lime_security_powerauth.Platform.{OpenSsl, AesLaws}
use lime_security_powerauth.Protocol.Constants.{sf_biometry, sf_knowledge}
use lime_security_powerauth.Protocol.Types.{SignatureKeys, SignatureUnlockKeysReq}
use lime_security_powerauth.Protocol.Validation.{validate_unlock_keys, validate_signature_keys}
use lime_security_powerauth.Protocol.Locking.{
  lock_signature_keys, lock_keys, lock_knowledge, lock_biometry, finish_lock, password_key,
  protect_signature_keys_with_eek,
}
use lime_security_powerauth.Protocol.Locking.RoundTrip.{length-encrypt_signature_key}

-- Keys that are stored: each has its size, and there may be no biometry key.
pub record HasKeySizes (keys : SignatureKeys) : Type 0 where
  pub possession_size : length keys.possession_key ≡ 16
  pub knowledge_size : length keys.knowledge_key ≡ 16
  pub biometry_size : (keys.biometry_key ≡ []) ⊎ (length keys.biometry_key ≡ 16)

module _ ⦃ssl : OpenSsl⦄ where
  -- Locking for the knowledge factor that succeeds gives a key of the right size, and the salt is
  -- not too short.
  pub size-lock_knowledge :
      (secret plain sk : SignatureKeys) (salt : Bytes) (request : SignatureUnlockKeysReq)
      → request.factor ≡ sf_knowledge
      → request.pbkdf2_salt ≡ some salt
      → lock_signature_keys secret plain request ≡ (sk, true)
      → (length sk.knowledge_key ≡ 16) × (16 ≤ length salt)
  unfolding lock_signature_keys lock_keys lock_knowledge lock_biometry finish_lock password_key
      validate_signature_keys
  size-lock_knowledge secret plain sk salt request f s h =
      (ground (arith, f, s, h), ground (arith, f, s, h))

  pub HasKeySizes-protect :
      (keys : SignatureKeys) (eek : Bytes) (protect : Bool)
      → HasKeySizes keys
      → HasKeySizes (protect_signature_keys_with_eek keys eek protect).0
  unfolding protect_signature_keys_with_eek
  HasKeySizes-protect keys eek protect w = record {
    possession_size = ground (arith, w.possession_size);
    knowledge_size = ground (arith, w.knowledge_size);
    biometry_size = ground (arith, w.biometry_size);
  }

  module _ (aes : AesLaws ssl) where
    biometry_size-lock :
        (secret plain : SignatureKeys) (request : SignatureUnlockKeysReq) (ext : Option Bytes)
        → request.ext_key ≡ ext
        → request.factor ≡ sf_biometry
        → ((secret.biometry_key ≡ []) ⊎ (length secret.biometry_key ≡ 16))
        → let b = (lock_signature_keys secret plain request).0.biometry_key in
          (b ≡ []) ⊎ (length b ≡ 16)
    unfolding lock_signature_keys lock_keys lock_biometry finish_lock validate_signature_keys
        validate_unlock_keys
    biometry_size-lock secret plain request none e f w = ground (
      arith,
      e,
      f,
      w,
      length-encrypt_signature_key aes request.keys.biometry_unlock_key none plain.biometry_key,
    )
    biometry_size-lock secret plain request (some ext) e f w = ground (
      arith,
      e,
      f,
      w,
      length-encrypt_signature_key aes request.keys.biometry_unlock_key (some ext)
          plain.biometry_key,
    )

    -- Locking for the biometry factor keeps the sizes, also where it fails.
    pub HasKeySizes-lock_biometry :
        (secret plain : SignatureKeys) (request : SignatureUnlockKeysReq)
        → request.factor ≡ sf_biometry
        → HasKeySizes secret
        → HasKeySizes (lock_signature_keys secret plain request).0
    unfolding lock_signature_keys lock_keys lock_biometry finish_lock validate_signature_keys
        validate_unlock_keys
    HasKeySizes-lock_biometry secret plain request f w = record {
      possession_size = ground (arith, f, w.possession_size);
      knowledge_size = ground (arith, f, w.knowledge_size);
      biometry_size =
          biometry_size-lock secret plain request request.ext_key refl f w.biometry_size;
    }
