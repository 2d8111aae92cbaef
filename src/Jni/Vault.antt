-- ===== src/Jni/Vault.antt =====
-- src/PowerAuth/jni/SessionJNI.cpp: the native methods that need the vault key and give bytes.
use lime_security_powerauth.Base.{ℕ, Option, none, some, Bytes}
use lime_security_powerauth.Platform.{Cc7, OpenSsl}
use lime_security_powerauth.Protocol.Types.{SignatureUnlockKeys, ErrorCode}
use lime_security_powerauth.Session.{Session}
use lime_security_powerauth.Session.Vault.{
  derive_cryptographic_key_from_vault_key, sign_data_with_device_private_key,
}
use lime_security_powerauth.Jni.Objects.{
  Jni, JavaString, JavaBytes, JavaUnlockKeys, load_signature_unlock_keys,
}

module _ ⦃jni : Jni⦄ ⦃cc : Cc7⦄ ⦃ssl : OpenSsl⦄ where
  -- The bytes of a call that succeeded, null for any error.
  pub bytes_if_ok : ErrorCode × Bytes → Option JavaBytes
  bytes_if_ok (ErrorCode.ec_ok, d) = jni.copy_to_java_byte_array d
  bytes_if_ok (ErrorCode.ec_encryption, d) = none
  bytes_if_ok (ErrorCode.ec_wrong_state, d) = none
  bytes_if_ok (ErrorCode.ec_wrong_param, d) = none

  unfoldable pub derived_with :
      Session → Bytes → ℕ → Option SignatureUnlockKeys → Option Session × Option JavaBytes
  unfolding bytes_if_ok
  derived_with s c_vault_key key_index none = (some s, none)
  derived_with s c_vault_key key_index (some keys) =
      let r = derive_cryptographic_key_from_vault_key s c_vault_key keys key_index in
      (some r.0, bytes_if_ok r.1)

  unfoldable pub derive_cryptographic_key_from_vault_key_native :
      Option Session
      → Option JavaString
      → Option JavaUnlockKeys
      → ℕ
      → Option Session × Option JavaBytes
  unfolding derived_with
  derive_cryptographic_key_from_vault_key_native none c keys key_index = (none, none)
  derive_cryptographic_key_from_vault_key_native (some s) none keys key_index = (some s, none)
  derive_cryptographic_key_from_vault_key_native (some s) (some c) none key_index = (some s, none)
  derive_cryptographic_key_from_vault_key_native (some s) (some c) (some keys) key_index =
      derived_with s (jni.copy_from_java_string (some c)) key_index
        (load_signature_unlock_keys (some keys))

  unfoldable pub data_signed_with :
      Session → Bytes → Bytes → Option SignatureUnlockKeys → Option Session × Option JavaBytes
  unfolding bytes_if_ok
  data_signed_with s c_vault_key in_data none = (some s, none)
  data_signed_with s c_vault_key in_data (some keys) =
      let r = sign_data_with_device_private_key s c_vault_key keys in_data in
      (some r.0, bytes_if_ok r.1)

  unfoldable pub sign_data_with_device_private_key_native :
      Option Session
      → Option JavaString
      → Option JavaUnlockKeys
      → Option JavaBytes
      → Option Session × Option JavaBytes
  unfolding data_signed_with
  sign_data_with_device_private_key_native none c keys in_data = (none, none)
  sign_data_with_device_private_key_native (some s) none keys in_data = (some s, none)
  sign_data_with_device_private_key_native (some s) (some c) none in_data = (some s, none)
  sign_data_with_device_private_key_native (some s) (some c) (some keys) none = (some s, none)
  sign_data_with_device_private_key_native (some s) (some c) (some keys) (some d) =
      data_signed_with s (jni.copy_from_java_string (some c))
        (jni.copy_from_java_byte_array (some d)) (load_signature_unlock_keys (some keys))
