-- ===== src/Session/Activation.antt =====
-- src/PowerAuth/Session.cpp: the three steps of an activation. What OpenSSL draws or generates
-- during a call is an argument of the call.
pub mod Chains
pub mod Outcomes
pub mod Cases
pub mod Keys
use lime_security_powerauth.Base.{
  Bool, true, false, not, ◌||◌, Option, none, some, ◌==◌, if◌then◌else◌, is_empty, Bytes, length,
}
use lime_security_powerauth.Platform.{Cc7, OpenSsl, EcKey}
use lime_security_powerauth.Crypto.Aes.{cbc_encrypt_padding}
use lime_security_powerauth.Crypto.Digest.{sha256}
use lime_security_powerauth.Crypto.Ecc.{
  import_public_key_from_b64, generate_key_pair, export_public_key, export_public_key_to_b64,
  export_private_key, ecdh_shared_secret,
}
use lime_security_powerauth.Crypto.Prng.{Draws, get_random_data}
use lime_security_powerauth.Protocol.Activation.{
  is_null, encrypt_device_public_key, decrypt_server_public_key,
}
use lime_security_powerauth.Protocol.Constants.{
  activation_nonce_size, signature_key_size, hk_device_public_key_size, pbkdf2_pass_iterations,
  pbkdf2_salt_size, sf_first_lock, zero_iv,
}
use lime_security_powerauth.Protocol.Derivation.{derive_all_secret_keys, reduce_shared_secret}
use lime_security_powerauth.Protocol.Locking.{is_present, lock_signature_keys}
use lime_security_powerauth.Protocol.Signature.{
  calculate_application_signature, calculate_decimalized_signature,
  validate_short_id_and_otp_signature, validate_activation_data_signature,
}
use lime_security_powerauth.Protocol.Types.{
  ErrorCode, ActivationData, PersistentData, SignatureUnlockKeys, SignatureUnlockKeysReq,
  no_activation_data, no_data, no_keys, set_uses_external_key,
}
use lime_security_powerauth.Protocol.Validation.{validate_unlock_keys, validate_persistent_data}
use lime_security_powerauth.Session.{
  Session, State, is_state, has_valid_setup, can_start_activation, has_pending_activation,
  change_state, commit_new_persistent_state, reset_session, eek,
}

pub record ActivationStep1Param : Type 0 where
  pub activation_id_short : Bytes
  pub activation_otp : Bytes
  pub activation_signature : Bytes

pub record ActivationStep1Result : Type 0 where
  pub activation_nonce : Bytes
  pub c_device_public_key : Bytes
  pub application_signature : Bytes
  pub ephemeral_public_key : Bytes

pub record ActivationStep2Param : Type 0 where
  pub activation_id : Bytes
  pub ephemeral_nonce : Bytes
  pub ephemeral_public_key : Bytes
  pub encrypted_server_public_key : Bytes
  pub server_data_signature : Bytes

-- The keys of the two `ECC_GenerateKeyPair` calls and the draws for the nonce.
pub record Step1Random : Type 0 where
  pub device_key : Option EcKey
  pub ephemeral_key : Option EcKey
  pub nonce_draws : Draws

infixl 5 ◌>>=◌ ◌>>◌
-- `none` is the `break` out of a `do { } while (false)`.
abbrev pub ◌>>=◌ {ℓ κ} : {A : Type ℓ} {B : Type κ} → Option A → (A → Option B) → Option B
none >>= f = none
some a >>= f = f a

abbrev pub ◌>>◌ {ℓ} : {B : Type ℓ} → Option (Unit {0}) → Option B → Option B
m >> k = m >>= λ _. k

-- `if (bad) break;`
abbrev pub break_if : Bool → Option (Unit {0})
break_if true = none
break_if false = some tt

module _ ⦃cc : Cc7⦄ ⦃ssl : OpenSsl⦄ where
  -- The activation data up to the device's keys, the nonce and the ephemeral key.
  pub step1_data : Session → ActivationStep1Param → Step1Random → Option ActivationData
  step1_data s param random = do
    let master_server_public_key = import_public_key_from_b64 none s.setup.master_server_public_key
    break_if (is_null master_server_public_key)
    break_if (
        not (
          validate_short_id_and_otp_signature param.activation_id_short param.activation_otp
            param.activation_signature master_server_public_key))
    let device_private_key = generate_key_pair random.device_key
    break_if (is_null device_private_key)
    let device_public_key_data = export_public_key device_private_key
    break_if (is_empty device_public_key_data)
    let activation_nonce = get_random_data activation_nonce_size true random.nonce_draws
    let ephemeral_device_key = generate_key_pair random.ephemeral_key
    some (record no_activation_data {
      master_server_public_key = master_server_public_key;
      device_private_key = device_private_key;
      ephemeral_device_key = ephemeral_device_key;
      device_public_key_data = device_public_key_data;
      activation_nonce = activation_nonce;
    })

  -- The encrypted device key and the signature of the application, which is empty where it cannot be
  -- calculated, after the rest of the result is written.
  pub step1_result :
      Session
      → ActivationStep1Param
      → ActivationData
      → Option (ActivationData × ActivationStep1Result)
  step1_result s param ad = do
    let (ad', c_device_public_key) =
        encrypt_device_public_key ad param.activation_id_short param.activation_otp
    break_if (is_empty c_device_public_key)
    let activation_nonce = cc.to_base64 ad'.activation_nonce
    let c_device_public_key_b64 = cc.to_base64 c_device_public_key
    let application_signature =
        calculate_application_signature param.activation_id_short activation_nonce
          c_device_public_key_b64 s.setup.application_key s.setup.application_secret
    some (
      ad',
      record {
        activation_nonce = activation_nonce;
        c_device_public_key = c_device_public_key_b64;
        application_signature = application_signature;
        ephemeral_public_key = export_public_key_to_b64 ad'.ephemeral_device_key;
      },
    )

  finish_step1 :
      Session
      → Option (ActivationData × ActivationStep1Result)
      → Session × ErrorCode × Option ActivationStep1Result
  finish_step1 s none = (s, ErrorCode.ec_encryption, none)
  finish_step1 s (some (ad, result)) =
      if is_empty result.application_signature then (s, ErrorCode.ec_encryption, some result) else (
        change_state State.activation1 (record s { ad = some ad }),
        ErrorCode.ec_ok,
        some result,
      )

  -- The session, the code, and what the call writes to its result, `none` where it leaves it as it is.
  unfoldable pub start_activation :
      Session
      → ActivationStep1Param
      → Step1Random
      → Session × ErrorCode × Option ActivationStep1Result
  unfolding step1_data step1_result finish_step1
  start_activation s param random =
      if not (has_valid_setup s)
      then (s, ErrorCode.ec_wrong_state, none)
      else if not (can_start_activation s)
      then (s, ErrorCode.ec_wrong_state, none)
      else if is_empty param.activation_otp || is_empty param.activation_id_short
      then (s, ErrorCode.ec_wrong_param, none)
      else finish_step1 s (step1_data s param random >>= step1_result s param)

  -- The activation data with the shared secret and the identifier, and `hkDevicePublicKey`, which is
  -- written to the result before its size is tested.
  pub step2 : ActivationStep2Param → ActivationData → Option (ActivationData × Bytes)
  step2 param ad = do
    ephemeral_nonce ← cc.from_base64 param.ephemeral_nonce
    ephemeral_public_key ← cc.from_base64 param.ephemeral_public_key
    c_server_public_key ← cc.from_base64 param.encrypted_server_public_key
    server_data_signature ← cc.from_base64 param.server_data_signature
    break_if (
        not (
          validate_activation_data_signature param.activation_id param.encrypted_server_public_key
            server_data_signature ad.master_server_public_key))
    ad' ← decrypt_server_public_key ad ephemeral_public_key c_server_public_key ephemeral_nonce
    let master_shared_secret =
        reduce_shared_secret (ecdh_shared_secret ad'.server_public_key ad'.device_private_key)
    break_if (not (length master_shared_secret == signature_key_size))
    let hk_device_public_key = calculate_decimalized_signature (sha256 ad'.device_public_key_data)
    some (
      record ad' {
        master_shared_secret = master_shared_secret;
        activation_id = param.activation_id;
      },
      hk_device_public_key,
    )

  finish_step2 : Session → Option (ActivationData × Bytes) → Session × ErrorCode × Option Bytes
  finish_step2 s none = (reset_session s, ErrorCode.ec_encryption, none)
  finish_step2 s (some (ad, hk_device_public_key)) =
      if not (length hk_device_public_key == hk_device_public_key_size)
      then (reset_session s, ErrorCode.ec_encryption, some hk_device_public_key)
      else (
        change_state State.activation2 (record s { ad = some ad }),
        ErrorCode.ec_ok,
        some hk_device_public_key,
      )

  pub misses_param : ActivationStep2Param → Bool
  misses_param param =
      is_empty param.activation_id
      || is_empty param.ephemeral_nonce
      || is_empty param.ephemeral_public_key
      || is_empty param.encrypted_server_public_key
      || is_empty param.server_data_signature

  -- The session, the code, and what the call writes to its result, `none` where it leaves it as it is.
  unfoldable pub validate_activation_response :
      Session → ActivationStep2Param → Session × ErrorCode × Option Bytes
  unfolding step2 finish_step2 misses_param
  validate_activation_response s param =
      if not (has_pending_activation s) || not (is_state s.state State.activation1)
      then (s, ErrorCode.ec_wrong_state, none)
      else if misses_param param
      then (s, ErrorCode.ec_wrong_state, none)
      else finish_step2 s (s.ad >>= step2 param)

  -- The persistent data of a new activation; `salt_draws` are for the password's salt.
  pub step3 : Option Bytes → SignatureUnlockKeys → Draws → ActivationData → Option PersistentData
  step3 ext_key keys salt_draws ad = do
    let password_salt = get_random_data pbkdf2_salt_size true salt_draws
    let (plain_keys, vault_key, derived) = derive_all_secret_keys no_keys ad.master_shared_secret
    break_if (not derived)
    let lock_request : SignatureUnlockKeysReq = record {
      factor = sf_first_lock;
      keys = keys;
      ext_key = ext_key;
      pbkdf2_salt = some password_salt;
      pbkdf2_iter = pbkdf2_pass_iterations;
    }
    let (sk, locked) = lock_signature_keys no_keys plain_keys lock_request
    break_if (not locked)
    let device_private_key_data = export_private_key ad.device_private_key
    break_if (is_empty device_private_key_data)
    let pd : PersistentData = record {
      signature_counter = 0;
      activation_id = ad.activation_id;
      password_iterations = pbkdf2_pass_iterations;
      password_salt = password_salt;
      sk = sk;
      server_public_key = ad.server_public_key_data;
      device_public_key = ad.device_public_key_data;
      c_device_private_key = cbc_encrypt_padding vault_key zero_iv device_private_key_data;
      flags_u32 = set_uses_external_key (is_present ext_key) 0;
    }
    break_if (not (validate_persistent_data pd))
    some pd

  finish_step3 : Session → Option PersistentData → Session × ErrorCode
  finish_step3 s none =
      (commit_new_persistent_state (some no_data) State.empty s, ErrorCode.ec_encryption)
  finish_step3 s (some pd) =
      (commit_new_persistent_state (some pd) State.activated s, ErrorCode.ec_ok)

  unfoldable pub complete_activation : Session → SignatureUnlockKeys → Draws → Session × ErrorCode
  unfolding step3 finish_step3
  complete_activation s keys salt_draws =
      if not (has_pending_activation s) || not (is_state s.state State.activation2)
      then (s, ErrorCode.ec_wrong_state)
      else if not (validate_unlock_keys keys (eek s) sf_first_lock)
      then (s, ErrorCode.ec_wrong_param)
      else finish_step3 s (s.ad >>= step3 (eek s) keys salt_draws)
