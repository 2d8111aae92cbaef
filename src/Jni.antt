-- ===== src/Jni.antt =====
-- src/PowerAuth/jni/SessionJNI.cpp: the native methods that may change the session of a handle.
--
-- A native method takes the object that the handle of `this` points to, `none` for a missing handle,
-- and gives it back. A reference to a Java object is an Option; a Java number is its bit pattern.
pub mod Calls
pub mod Encryptors
pub mod Objects
pub mod Passwords
pub mod Probes
pub mod Vault
pub mod Refines
use lime_security_powerauth.Base.{ℕ, false, Option, none, some, Bytes}
use lime_security_powerauth.Platform.{Cc7, OpenSsl}
use lime_security_powerauth.Crypto.Prng.{Draws}
use lime_security_powerauth.Protocol.Types.{SignatureUnlockKeys, ErrorCode}
use lime_security_powerauth.Session.{Session, session, reset_session}
use lime_security_powerauth.Session.Activation.{
  Step1Random, start_activation, validate_activation_response, complete_activation,
}
use lime_security_powerauth.Session.Factors.{
  set_external_encryption_key, add_external_encryption_key, remove_external_encryption_key,
  change_user_password, remove_biometry_factor,
}
use lime_security_powerauth.Session.Signing.{sign_http_request}
use lime_security_powerauth.Session.Storage.{load_session_state}
use lime_security_powerauth.Session.Vault.{add_biometry_factor}
use lime_security_powerauth.Jni.Objects.{
  Jni, JavaString, JavaBytes, JavaPassword, JavaUnlockKeys, JavaSetup, JavaStep1Param,
  JavaStep2Param, JavaStep1Result, JavaCoded, cpp_password, copied_setup, copied_step1,
  copied_step2, java_step1, load_signature_unlock_keys, if_ok,
}

unfoldable pub reset_session_native : Option Session → Option Session
reset_session_native none = none
reset_session_native (some s) = some (reset_session s)

-- The session of a call that returns one, which the handle points to still.
abbrev pub kept : {R : Type 0} → Session × R → Option Session × R
kept r = (some r.0, r.1)

module _ ⦃jni : Jni⦄ where
  unfoldable pub set_external_encryption_key_native :
      Option Session → Option JavaBytes → Option Session × ErrorCode
  set_external_encryption_key_native none key = (none, ErrorCode.ec_wrong_param)
  set_external_encryption_key_native (some s) key =
      kept (set_external_encryption_key s (jni.copy_from_java_byte_array key))

  module _ ⦃cc : Cc7⦄ ⦃ssl : OpenSsl⦄ where
    -- `init`, which gives the handle of a new session, or 0.
    unfoldable pub init : Option JavaSetup → Option Session
    init none = none
    init (some setup) = some (session (copied_setup setup))

    unfoldable pub deserialize_state :
        Option Session → Option JavaBytes → Option Session × ErrorCode
    deserialize_state none state = (none, ErrorCode.ec_wrong_param)
    deserialize_state (some s) state =
        kept (load_session_state (jni.copy_from_java_byte_array state) s)

    unfoldable pub start_activation_native :
        Option Session
        → Option JavaStep1Param
        → Step1Random
        → Option Session × Option (JavaCoded JavaStep1Result)
    start_activation_native none param random = (none, none)
    start_activation_native (some s) none random = (some s, none)
    start_activation_native (some s) (some param) random =
        let r = start_activation s (copied_step1 param) random in
        (some r.0, some (if_ok r.1 (java_step1 r.2)))

    pub string_of : Option Bytes → Option JavaString
    string_of none = none
    string_of (some key) = jni.copy_to_java_string key

    unfoldable pub validate_activation_response_native :
        Option Session → Option JavaStep2Param → Option Session × Option (JavaCoded JavaString)
    unfolding string_of
    validate_activation_response_native none param = (none, none)
    validate_activation_response_native (some s) none = (some s, none)
    validate_activation_response_native (some s) (some param) =
        let r = validate_activation_response s (copied_step2 param) in
        (some r.0, some (if_ok r.1 (string_of r.2)))

    complete_with : Session → Draws → Option SignatureUnlockKeys → Option Session × ErrorCode
    complete_with s draws none = (some s, ErrorCode.ec_wrong_param)
    complete_with s draws (some keys) = kept (complete_activation s keys draws)

    unfoldable pub complete_activation_native :
        Option Session → Option JavaUnlockKeys → Draws → Option Session × ErrorCode
    unfolding complete_with
    complete_activation_native none lock_keys draws = (none, ErrorCode.ec_wrong_param)
    complete_activation_native (some s) none draws = (some s, ErrorCode.ec_wrong_param)
    complete_activation_native (some s) (some lock_keys) draws =
        complete_with s draws (load_signature_unlock_keys (some lock_keys))

    signed_with :
        Session
        → Bytes
        → Bytes
        → Bytes
        → ℕ
        → Draws
        → Option SignatureUnlockKeys
        → Option Session × Option (JavaCoded JavaString)
    unfolding string_of
    signed_with s body method uri factor draws none = (some s, none)
    signed_with s body method uri factor draws (some keys) =
        let r =
          sign_http_request s (record { body = body; method = method; uri = uri }) keys factor
            draws in
        (some r.0, some (if_ok r.1 (string_of r.2)))

    -- The body may be null.
    unfoldable pub sign_http_request_native :
        Option Session
        → Option JavaBytes
        → Option JavaString
        → Option JavaString
        → Option JavaUnlockKeys
        → ℕ
        → Draws
        → Option Session × Option (JavaCoded JavaString)
    unfolding signed_with
    sign_http_request_native none body method uri keys factor draws = (none, none)
    sign_http_request_native (some s) body none uri keys factor draws = (some s, none)
    sign_http_request_native (some s) body (some m) none keys factor draws = (some s, none)
    sign_http_request_native (some s) body (some m) (some u) none factor draws = (some s, none)
    sign_http_request_native (some s) body (some m) (some u) (some keys) factor draws =
        signed_with s (jni.copy_from_java_byte_array body) (jni.copy_from_java_string (some m))
          (jni.copy_from_java_string (some u)) factor draws (load_signature_unlock_keys (some keys))

    changed_with : Session → Option Bytes → Option Bytes → Draws → Option Session × ErrorCode
    changed_with s none new_password draws = (some s, ErrorCode.ec_wrong_param)
    changed_with s (some o) none draws = (some s, ErrorCode.ec_wrong_param)
    changed_with s (some o) (some n) draws = kept (change_user_password s o n draws)

    unfoldable pub change_user_password_native :
        Option Session
        → Option JavaPassword
        → Option JavaPassword
        → Draws
        → Option Session × ErrorCode
    unfolding changed_with
    change_user_password_native none old_password new_password draws =
        (none, ErrorCode.ec_wrong_param)
    change_user_password_native (some s) old_password new_password draws =
        changed_with s (cpp_password old_password) (cpp_password new_password) draws

    biometry_with : Session → Bytes → Option SignatureUnlockKeys → Option Session × ErrorCode
    biometry_with s c_vault_key none = (some s, ErrorCode.ec_wrong_param)
    biometry_with s c_vault_key (some keys) = kept (add_biometry_factor s c_vault_key keys)

    unfoldable pub add_biometry_factor_native :
        Option Session → Option JavaString → Option JavaUnlockKeys → Option Session × ErrorCode
    unfolding biometry_with
    add_biometry_factor_native none c_vault_key keys = (none, ErrorCode.ec_wrong_param)
    add_biometry_factor_native (some s) none keys = (some s, ErrorCode.ec_wrong_param)
    add_biometry_factor_native (some s) (some c) none = (some s, ErrorCode.ec_wrong_param)
    add_biometry_factor_native (some s) (some c) (some keys) =
        biometry_with s (jni.copy_from_java_string (some c))
          (load_signature_unlock_keys (some keys))

    unfoldable pub remove_biometry_factor_native : Option Session → Option Session × ErrorCode
    remove_biometry_factor_native none = (none, ErrorCode.ec_wrong_param)
    remove_biometry_factor_native (some s) = kept (remove_biometry_factor s)

    unfoldable pub add_external_encryption_key_native :
        Option Session → Option JavaBytes → Option Session × ErrorCode
    add_external_encryption_key_native none key = (none, ErrorCode.ec_wrong_param)
    add_external_encryption_key_native (some s) key =
        kept (add_external_encryption_key s (jni.copy_from_java_byte_array key))

    -- The method returns a jboolean, which is an unsigned char and keeps the number of a code. The
    -- false for a missing handle is the number of EC_Ok.
    unfoldable pub remove_external_encryption_key_native :
        Option Session → Option Session × ErrorCode
    remove_external_encryption_key_native none = (none, ErrorCode.ec_ok)
    remove_external_encryption_key_native (some s) = kept (remove_external_encryption_key s)
