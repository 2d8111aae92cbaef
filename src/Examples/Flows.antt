-- ===== src/Examples/Flows.antt =====
-- The theorems that follow a key through several calls, at concrete data.
use lime_security_powerauth.Base.{
  ◌≡◌, refl, true, false, [], ◌∷◌, Option, none, some, inl, is_empty, Bytes, equal, ◌%◌, ◌^◌,
  replicate, ◌++◌,
}
use lime_security_powerauth.Crypto.Aes.{
  cbc_encrypt, cbc_decrypt, cbc_encrypt_padding, cbc_decrypt_padding,
}
use lime_security_powerauth.Crypto.Digest.{pbkdf2_hmac_sha_1, hmac_sha256}
use lime_security_powerauth.Crypto.Ecc.{
  ecdh_shared_secret, import_private_key, import_public_key, export_private_key,
}
use lime_security_powerauth.Crypto.Padding.{get_padded_data, validate_and_update_data, validate}
use lime_security_powerauth.Crypto.Prng.{get_random_data}
use lime_security_powerauth.Protocol.Derivation.{
  derive_secret_key, u64_to_data, derive_secret_key_from_password, reduce_shared_secret,
  derive_all_secret_keys,
}
use lime_security_powerauth.Protocol.Locking.{lock_signature_keys, unlock_signature_keys}
use lime_security_powerauth.Protocol.Signature.{
  convert_signature_factor_to_string, normalize_data_for_signature, calculate_signature,
  calculate_decimalized_signature, val_to_norm_string,
}
use lime_security_powerauth.Protocol.Types.{
  ErrorCode, SignatureKeys, SignatureUnlockKeys, no_keys, no_activation_data,
}
use lime_security_powerauth.Protocol.Validation.{
  validate_persistent_data, validate_unlock_keys, validate_signature_keys,
}
use lime_security_powerauth.Session.{
  Session, State, activation_data, has_valid_activation, has_valid_setup, has_pending_activation,
  eek, commit_new_persistent_state,
}
use lime_security_powerauth.Session.Factors.PasswordChange.{IsMoved, IsMoved-change_user_password}
use lime_security_powerauth.Session.Vault.Biometry.{IsAdded, add_biometry_factor_writes}
use lime_security_powerauth.Session.Factors.{
  change_user_password, add_external_encryption_key, remove_external_encryption_key,
}
use lime_security_powerauth.Session.Activation.{complete_activation}
use lime_security_powerauth.Session.Activation.Keys.{IsCompleted, IsCompleted-complete_activation}
use lime_security_powerauth.Session.Factors.ExternalKey.{remove-add_external_encryption_key}
use lime_security_powerauth.Session.Signing.{sign_http_request, is_method, signed, header_value}
use lime_security_powerauth.Session.Vault.{
  transport_request, key, decrypt_vault_key, add_biometry_factor,
}
use lime_security_powerauth.Session.Vault.Cases.{cleared}
use lime_security_powerauth.Session.Vault.Opened.{sent_key, decrypt_vault_key-sign_http_request}
use lime_security_powerauth.Examples.Instances.{
  test_cc, test_ssl, test_aes, test_cc_laws, test_digests, big_endian,
}
use lime_security_powerauth.Examples.Data.{
  sixteen, test_setup, test_draws, test_unlock_keys, test_signature_keys, test_pd, test_activated,
  test_request,
}

is_active : activation_data test_activated ≡ some test_pd
unfolding activation_data has_valid_activation has_valid_setup
is_active = refl

abbrev bytes_of : Option Bytes → Bytes
bytes_of none = []
bytes_of (some b) = b

abbrev vault_signature : Session × ErrorCode × Option Bytes
vault_signature =
    sign_http_request ⦃cc = test_cc⦄ ⦃ssl = test_ssl⦄ test_activated test_request test_unlock_keys
      0x1011 test_draws

vault_signature_lem :
    vault_signature ≡ (vault_signature.0, ErrorCode.ec_ok, some (bytes_of vault_signature.2))
unfolding sign_http_request activation_data has_valid_activation has_valid_setup is_method
    convert_signature_factor_to_string unlock_signature_keys calculate_signature eek equal
    validate_unlock_keys validate_signature_keys normalize_data_for_signature signed header_value
    derive_secret_key_from_password pbkdf2_hmac_sha_1 cbc_decrypt get_random_data hmac_sha256
    calculate_decimalized_signature val_to_norm_string
vault_signature_lem = refl

abbrev transport_keys : SignatureKeys
transport_keys = record no_keys { transport_key = sixteen 4 }

transport_keys_lem :
    unlock_signature_keys ⦃ssl = test_ssl⦄ test_signature_keys
      (transport_request test_activated test_unlock_keys)
    ≡ some transport_keys
unfolding unlock_signature_keys validate_unlock_keys validate_signature_keys equal cbc_decrypt
    transport_request eek has_valid_setup
transport_keys_lem = refl

abbrev sent : Bytes
sent = sent_key ⦃cc = test_cc⦄ ⦃ssl = test_ssl⦄ (sixteen 4) (10 % 2 ^ 64) (sixteen 9)

sent_is_there : is_empty sent ≡ false
unfolding sent_key cbc_encrypt_padding cbc_encrypt get_padded_data derive_secret_key u64_to_data
    big_endian
sent_is_there = refl

decrypt_vault_key-sign_http_request_example :
    decrypt_vault_key ⦃cc = test_cc⦄ ⦃ssl = test_ssl⦄ vault_signature.0 sent test_unlock_keys
    ≡ (record test_activated { pd = some (cleared (signed 0x1011 test_pd)) }, key (sixteen 9))
decrypt_vault_key-sign_http_request_example =
    decrypt_vault_key-sign_http_request ⦃cc = test_cc⦄ ⦃ssl = test_ssl⦄ test_cc_laws test_aes
      test_activated vault_signature.0 test_request test_unlock_keys test_unlock_keys 0x1011
      test_draws (bytes_of vault_signature.2) sent (sixteen 9) test_pd transport_keys
      vault_signature_lem refl is_active transport_keys_lem sent_is_there refl refl

remove-add_external_encryption_key_example :
    let (t, code) = add_external_encryption_key ⦃ssl = test_ssl⦄ test_activated (sixteen 6) in
    (code ≡ ErrorCode.ec_ok)
    × (remove_external_encryption_key ⦃ssl = test_ssl⦄ t ≡ (test_activated, ErrorCode.ec_ok))
remove-add_external_encryption_key_example =
    remove-add_external_encryption_key ⦃ssl = test_ssl⦄ test_activated test_pd is_active test_aes
      (sixteen 6) refl refl refl refl (refl, inl refl)

abbrev changed_session : Session
changed_session =
    (change_user_password ⦃ssl = test_ssl⦄ test_activated (1 ∷ 2 ∷ 3 ∷ 4 ∷ []) (5 ∷ 6 ∷ 7 ∷ 8 ∷ [])
      test_draws).0

is_changed :
    change_user_password ⦃ssl = test_ssl⦄ test_activated
      (1 ∷ 2 ∷ 3 ∷ 4 ∷ [])
      (5 ∷ 6 ∷ 7 ∷ 8 ∷ [])
      test_draws
    ≡ (changed_session, ErrorCode.ec_ok)
unfolding change_user_password activation_data has_valid_activation has_valid_setup
    unlock_signature_keys validate_unlock_keys eek validate_signature_keys cbc_decrypt
    derive_secret_key_from_password pbkdf2_hmac_sha_1 lock_signature_keys get_random_data equal
    cbc_encrypt
is_changed = refl

IsMoved-change_user_password_example :
    IsMoved ⦃ssl = test_ssl⦄ test_activated changed_session test_pd
      (1 ∷ 2 ∷ 3 ∷ 4 ∷ [])
      (5 ∷ 6 ∷ 7 ∷ 8 ∷ [])
IsMoved-change_user_password_example =
    IsMoved-change_user_password ⦃ssl = test_ssl⦄ test_aes test_digests test_activated test_pd
      (1 ∷ 2 ∷ 3 ∷ 4 ∷ []) (5 ∷ 6 ∷ 7 ∷ 8 ∷ []) test_draws changed_session is_active is_changed

-- A session that is given a biometry key: the vault key is the one that the shared secret gives.
abbrev biometric : SignatureUnlockKeys
biometric = record test_unlock_keys { biometry_unlock_key = sixteen 2 }

abbrev before_biometry : Session
before_biometry = record test_activated {
  pd = some (record test_pd { c_device_private_key = 5 ∷ replicate 15 15 });
}

before_biometry-active :
    activation_data before_biometry
    ≡ some (record test_pd { c_device_private_key = 5 ∷ replicate 15 15 })
unfolding activation_data has_valid_activation has_valid_setup
before_biometry-active = refl

abbrev sent_vault_key : Bytes
sent_vault_key = replicate 14 0 ++ 7 ∷ 208 ∷ replicate 16 16

abbrev after_biometry : Session
after_biometry =
    (add_biometry_factor ⦃cc = test_cc⦄ ⦃ssl = test_ssl⦄ before_biometry sent_vault_key biometric).0

is_added :
    add_biometry_factor ⦃cc = test_cc⦄ ⦃ssl = test_ssl⦄ before_biometry sent_vault_key biometric
    ≡ (after_biometry, ErrorCode.ec_ok)
unfolding add_biometry_factor decrypt_vault_key activation_data has_valid_activation has_valid_setup
    unlock_signature_keys lock_signature_keys validate_unlock_keys transport_request eek equal
    validate_signature_keys cbc_decrypt derive_secret_key cbc_encrypt u64_to_data
    cbc_decrypt_padding validate_and_update_data validate big_endian reduce_shared_secret
    ecdh_shared_secret import_private_key import_public_key derive_all_secret_keys
is_added = refl

add_biometry_factor_writes_example :
    IsAdded ⦃ssl = test_ssl⦄ ⦃cc = test_cc⦄ before_biometry after_biometry sent_vault_key biometric
      (record test_pd { c_device_private_key = 5 ∷ replicate 15 15 })
add_biometry_factor_writes_example =
    add_biometry_factor_writes ⦃ssl = test_ssl⦄ ⦃cc = test_cc⦄ before_biometry after_biometry
      sent_vault_key biometric (record test_pd { c_device_private_key = 5 ∷ replicate 15 15 })
      is_added before_biometry-active

-- A session whose activation waits for its last step.
abbrev agreed : Session
agreed = record {
  state = State.activation2;
  setup = test_setup;
  pd = none;
  ad = some (record no_activation_data {
    device_private_key = some (record { point = 4 ∷ []; number = 5 ∷ [] });
    activation_id = 65 ∷ [];
    server_public_key_data = 5 ∷ [];
    device_public_key_data = 4 ∷ [];
    master_shared_secret = sixteen 5;
  });
}

abbrev completed : Session
completed =
    (complete_activation ⦃cc = test_cc⦄ ⦃ssl = test_ssl⦄ agreed test_unlock_keys test_draws).0

is_completed :
    complete_activation ⦃cc = test_cc⦄ ⦃ssl = test_ssl⦄ agreed test_unlock_keys test_draws
    ≡ (completed, ErrorCode.ec_ok)
unfolding complete_activation has_pending_activation validate_unlock_keys eek has_valid_setup equal
    get_random_data derive_all_secret_keys derive_secret_key u64_to_data big_endian cbc_encrypt
    cbc_encrypt_padding get_padded_data lock_signature_keys validate_signature_keys
    derive_secret_key_from_password pbkdf2_hmac_sha_1 export_private_key validate_persistent_data
    commit_new_persistent_state
is_completed = refl

usable_keys : validate_unlock_keys test_unlock_keys (eek agreed) 0x11 ≡ true
unfolding validate_unlock_keys equal eek has_valid_setup
usable_keys = refl

IsCompleted-complete_activation_example :
    IsCompleted ⦃cc = test_cc⦄ ⦃ssl = test_ssl⦄ test_aes test_digests agreed completed
      test_unlock_keys 0x11
IsCompleted-complete_activation_example =
    IsCompleted-complete_activation ⦃cc = test_cc⦄ ⦃ssl = test_ssl⦄ test_aes test_digests agreed
      completed test_unlock_keys test_draws 0x11 refl refl usable_keys is_completed
