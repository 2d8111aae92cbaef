-- ===== src/Protocol/Locking/Written.antt =====
-- What locking writes.
use lime_security_powerauth.Base.{◌≡◌, Bool, true, Bytes, arith}
use lime_security_powerauth.Platform.{OpenSsl}
use lime_security_powerauth.Protocol.Constants.{sf_biometry}
use lime_security_powerauth.Protocol.Types.{SignatureKeys, SignatureUnlockKeysReq}
use lime_security_powerauth.Protocol.Locking.{
  encrypt_signature_key, lock_signature_keys, lock_keys, lock_biometry, finish_lock,
}

-- The keys with another biometry key, protected by an external key just where `external` says so.
abbrev pub with_biometry : Bytes → Bool → SignatureKeys → SignatureKeys
with_biometry c_key external sk = record sk { biometry_key = c_key; uses_external_key = external }

module _ ⦃ssl : OpenSsl⦄ where
  -- Locking for the biometry factor writes the encrypted biometry key and the flag of the external
  -- key.
  pub written-lock_biometry :
      (secret plain sk : SignatureKeys) (request : SignatureUnlockKeysReq)
      → request.factor ≡ sf_biometry
      → lock_signature_keys secret plain request ≡ (sk, true)
      → sk
        ≡ with_biometry
            (encrypt_signature_key request.keys.biometry_unlock_key request.ext_key
              plain.biometry_key)
            plain.uses_external_key
            secret
  unfolding lock_signature_keys lock_keys lock_biometry finish_lock
  written-lock_biometry secret plain sk request f h = ground (arith, f, h)
