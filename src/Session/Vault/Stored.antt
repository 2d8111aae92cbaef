-- ===== src/Session/Vault/Stored.antt =====
-- The calls on the vault keep the data whole.
use lime_security_powerauth.Base.{
  ℕ, refl, Bool, not, Option, none, some, Bytes, is_empty, equal, if-either,
}
use lime_security_powerauth.Platform.{Cc7, OpenSsl, AesLaws}
use lime_security_powerauth.Protocol.Derivation.{derive_all_secret_keys}
use lime_security_powerauth.Protocol.Locking.{is_present}
use lime_security_powerauth.Protocol.Locking.Sizes.{HasKeySizes, HasKeySizes-lock_biometry}
use lime_security_powerauth.Protocol.Types.{
  PersistentData, SignatureKeys, SignatureUnlockKeys, no_keys,
}
use lime_security_powerauth.Protocol.Validation.Whole.{IsWhole, IsStored, IsWhole-flags}
use lime_security_powerauth.Session.{Session, eek}
use lime_security_powerauth.Session.Outcome.{IsHeld, IsWhole-activation_data}
use lime_security_powerauth.Session.Vault.{
  Unlocked, key, failed, derive_cryptographic_key_from_vault_key, sign_data_with_device_private_key,
  biometry_locked, add_biometry_to, add_biometry_with, add_biometry_factor, shared_with,
  device_key_data,
}
use lime_security_powerauth.Session.Vault.Cases.{
  cleared, Vault, not_expected, taken, Vault-decrypt_vault_key,
}

IsWhole-cleared : (pd : PersistentData) → IsWhole pd → IsWhole (cleared pd)
IsWhole-cleared pd w = IsWhole-flags pd pd.signature_counter _ pd.sk w w.key_sizes

IsStored-Vault :
    (s : Session) {r : Session × Unlocked} → Vault s r → IsStored s.pd → IsStored r.0.pd
IsStored-Vault s (not_expected h) w = w
IsStored-Vault s (taken pd result e h) w = IsWhole-cleared pd (IsWhole-activation_data s e w)

module _ ⦃cc : Cc7⦄ ⦃ssl : OpenSsl⦄ (s : Session) (w : IsStored s.pd) (c_vault_key : Bytes)
    (keys : SignatureUnlockKeys) where
  pub IsStored-derive :
      (key_index : ℕ)
      → IsStored (derive_cryptographic_key_from_vault_key s c_vault_key keys key_index).0.pd
  unfolding derive_cryptographic_key_from_vault_key
  IsStored-derive key_index = IsStored-Vault s (Vault-decrypt_vault_key s c_vault_key keys) w

  pub IsStored-sign_data :
      (in_data : Bytes)
      → IsStored (sign_data_with_device_private_key s c_vault_key keys in_data).0.pd
  unfolding sign_data_with_device_private_key
  IsStored-sign_data in_data = IsStored-Vault s (Vault-decrypt_vault_key s c_vault_key keys) w

module _ ⦃cc : Cc7⦄ ⦃ssl : OpenSsl⦄ (aes : AesLaws ssl) where
  -- Keys of the right sizes, next to a result.
  record IsLocked (r : SignatureKeys × Bool) : Type 0 where
    sizes : HasKeySizes r.0

  IsLocked-biometry_locked :
      (s : Session) (pd : PersistentData) (keys : SignatureUnlockKeys) (vault_key : Bytes)
      (secret : Option Bytes)
      → HasKeySizes pd.sk
      → IsLocked (biometry_locked s pd keys vault_key secret)
  unfolding biometry_locked
  IsLocked-biometry_locked s pd keys vault_key none h = record { sizes = h }
  IsLocked-biometry_locked s pd keys vault_key (some secret) h =
      let plain0 : SignatureKeys = record no_keys { uses_external_key = is_present (eek s) } in
      let (plain, test_vault_key, derived) = derive_all_secret_keys plain0 secret in
      if-either IsLocked (not derived) (record { sizes = h })
        (if-either IsLocked (not (equal test_vault_key vault_key)) (record { sizes = h })
          (record { sizes = HasKeySizes-lock_biometry aes pd.sk plain _ refl h }))

  IsStored-add_biometry_to :
      (s : Session) (keys : SignatureUnlockKeys) (vault_key : Bytes) (pd : PersistentData)
      → IsWhole pd
      → IsStored (add_biometry_to s keys vault_key (some pd)).0.pd
  unfolding add_biometry_to
  IsStored-add_biometry_to s keys vault_key pd w =
      IsWhole-flags pd pd.signature_counter pd.flags_u32 _ w
        (IsLocked-biometry_locked s pd keys vault_key
          (shared_with pd (device_key_data (some pd) vault_key)) w.key_sizes).sizes

  IsStored-add_biometry_with :
      (s : Session) (keys : SignatureUnlockKeys) {r : Session × Unlocked}
      → Vault s r
      → IsStored s.pd
      → IsStored (add_biometry_with r.0 keys r.1).0.pd
  unfolding add_biometry_with
  IsStored-add_biometry_with s keys (not_expected h) w = w
  IsStored-add_biometry_with s keys (taken pd (failed code) e h) w =
      IsWhole-cleared pd (IsWhole-activation_data s e w)
  IsStored-add_biometry_with s keys (taken pd (key vault_key) e h) w =
      IsStored-add_biometry_to (record s { pd = some (cleared pd) }) keys vault_key (cleared pd)
        (IsWhole-cleared pd (IsWhole-activation_data s e w))

  pub IsStored-add_biometry_factor :
      (s : Session) (c_vault_key : Bytes) (keys : SignatureUnlockKeys)
      → IsStored s.pd
      → IsStored (add_biometry_factor s c_vault_key keys).0.pd
  unfolding add_biometry_factor
  IsStored-add_biometry_factor s c_vault_key keys w =
      (if-either IsHeld (is_empty keys.biometry_unlock_key) (record { stored = w })
        (record {
          stored = IsStored-add_biometry_with s keys (Vault-decrypt_vault_key s c_vault_key keys) w;
        })).stored
