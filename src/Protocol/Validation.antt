-- ===== src/Protocol/Validation.antt =====
-- src/PowerAuth/protocol/PrivateTypes.cpp: the validators.
pub mod Whole
use lime_security_powerauth.Base.{
  ℕ, bit_and, Bool, true, false, not, ◌&&◌, ◌||◌, [], Option, none, some, ltb, leb, ◌==◌,
  if◌then◌else◌, is_empty, equal, Bytes, length,
}
use lime_security_powerauth.Platform.{Cc7, OpenSsl}
use lime_security_powerauth.Crypto.Ecc.{import_public_key}
use lime_security_powerauth.Protocol.Constants.{
  has_factor, full_factor_mask, sf_possession, sf_knowledge, sf_biometry, sf_transport,
  sf_first_lock, signature_key_size, minimal_password_length, pbkdf2_pass_iterations,
  pbkdf2_salt_size, zero_iv,
}
use lime_security_powerauth.Protocol.Types.{
  SessionSetup, SignatureKeys, SignatureUnlockKeys, PersistentData,
}

is_some {ℓ} : {A : Type ℓ} → Option A → Bool
is_some none = false
is_some (some a) = true

decodes : Option Bytes → Bool
decodes none = false
decodes (some foo_data) = not (is_empty foo_data)

-- The bytes that the last decoding left, used where it succeeded.
decoded : Option Bytes → Bytes
decoded none = []
decoded (some foo_data) = foo_data

unfoldable pub validate_session_setup : ⦃cc : Cc7⦄ ⦃ssl : OpenSsl⦄ → SessionSetup → Bool → Bool
unfolding is_some decodes decoded
validate_session_setup ⦃cc⦄ ⦃ssl⦄ setup also_validate_key =
    not (is_empty setup.application_key)
    && not (is_empty setup.application_secret)
    && not (is_empty setup.master_server_public_key)
    && decodes (cc.from_base64 setup.application_key)
    && decodes (cc.from_base64 setup.application_secret)
    && decodes (cc.from_base64 setup.master_server_public_key)
    && (if not (is_empty setup.external_encryption_key)
        then length setup.external_encryption_key == signature_key_size
        else true)
    && (if also_validate_key
        then is_some
            (import_public_key none (decoded (cc.from_base64 setup.master_server_public_key)))
        else true)

-- `switch` by flags: each key that the factor asks for has the right size.
unfoldable pub validate_signature_keys : SignatureKeys → ℕ → Bool
validate_signature_keys keys factor =
    if bit_and factor 0x4111 == 0
    then false
    else (if has_factor factor sf_possession
        then length keys.possession_key == signature_key_size
        else true)
      && (if has_factor factor sf_transport
          then length keys.transport_key == signature_key_size
          else true)
      && (if has_factor factor sf_knowledge
          then length keys.knowledge_key == signature_key_size
          else true)
      && (if has_factor factor sf_biometry
          then length keys.biometry_key == signature_key_size
          else true)

unfoldable pub validate_persistent_data : PersistentData → Bool
validate_persistent_data pd =
    validate_signature_keys pd.sk (full_factor_mask (not (is_empty pd.sk.biometry_key)))
    && leb pbkdf2_pass_iterations pd.password_iterations
    && length pd.password_salt == pbkdf2_salt_size
    && ltb 0 (length pd.activation_id)
    && ltb 0 (length pd.server_public_key)
    && ltb 0 (length pd.device_public_key)
    && ltb 0 (length pd.c_device_private_key)

unlock_factor : SignatureUnlockKeys → ℕ → ℕ
unlock_factor unlock factor =
    if factor == sf_first_lock
    then full_factor_mask (not (is_empty unlock.biometry_unlock_key))
    else factor

key_size_is_right : Option Bytes → Bool
key_size_is_right none = true
key_size_is_right (some ext_key) = length ext_key == signature_key_size

is_unlock_key : Bytes → Bool
is_unlock_key key = length key == signature_key_size && not (equal key zero_iv)

unfoldable pub validate_unlock_keys : SignatureUnlockKeys → Option Bytes → ℕ → Bool
unfolding unlock_factor key_size_is_right is_unlock_key
validate_unlock_keys unlock ext_key factor =
    let factor' = unlock_factor unlock factor in
    key_size_is_right ext_key
    && (if has_factor factor' sf_possession || has_factor factor' sf_transport
        then is_unlock_key unlock.possession_unlock_key
        else true)
    && (if has_factor factor' sf_knowledge
        then leb minimal_password_length (length unlock.user_password)
        else true)
    && (if has_factor factor' sf_biometry then is_unlock_key unlock.biometry_unlock_key else true)
