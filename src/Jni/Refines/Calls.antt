-- ===== src/Jni/Refines/Calls.antt =====
-- The calls of Session that a native method may stand for, and what Java gets from them.
use lime_security_powerauth.Base.{ℕ, Option, none, some, Bytes}
use lime_security_powerauth.Platform.{Cc7, OpenSsl}
use lime_security_powerauth.Crypto.Prng.{Draws}
use lime_security_powerauth.Protocol.Types.{SignatureUnlockKeys, ErrorCode}
use lime_security_powerauth.Session.{Session, reset_session}
use lime_security_powerauth.Session.Activation.{
  ActivationStep1Param, ActivationStep2Param, ActivationStep1Result, Step1Random, ◌>>=◌,
  start_activation, validate_activation_response, complete_activation,
}
use lime_security_powerauth.Session.Factors.{
  set_external_encryption_key, add_external_encryption_key, remove_external_encryption_key,
  change_user_password, remove_biometry_factor,
}
use lime_security_powerauth.Session.Signing.{HttpRequest, sign_http_request}
use lime_security_powerauth.Session.Storage.{load_session_state}
use lime_security_powerauth.Session.Vault.{
  derive_cryptographic_key_from_vault_key, sign_data_with_device_private_key, add_biometry_factor,
}
use lime_security_powerauth.Jni.{string_of}
use lime_security_powerauth.Jni.Objects.{
  Jni, JavaString, JavaBytes, JavaPassword, JavaUnlockKeys, JavaStep1Param, JavaStep2Param,
  JavaStep1Result, JavaCoded, cpp_password, copied_step1, copied_step2, java_step1,
  load_signature_unlock_keys, if_ok,
}
use lime_security_powerauth.Jni.Vault.{bytes_if_ok}

-- A call of Session that may change it, with its arguments.
pub data SessionCall : Type 0 where
  reset : SessionCall
  load : Bytes → SessionCall
  start : ActivationStep1Param → Step1Random → SessionCall
  validate : ActivationStep2Param → SessionCall
  complete : SignatureUnlockKeys → Draws → SessionCall
  sign : HttpRequest → SignatureUnlockKeys → ℕ → Draws → SessionCall
  change_password : (old_password new_password : Bytes) → Draws → SessionCall
  add_biometry : Bytes → SignatureUnlockKeys → SessionCall
  remove_biometry : SessionCall
  derive_key : Bytes → SignatureUnlockKeys → ℕ → SessionCall
  sign_data : Bytes → SignatureUnlockKeys → Bytes → SessionCall
  set_eek : Bytes → SessionCall
  add_eek : Bytes → SessionCall
  remove_eek : SessionCall

-- What a call returns, with what it writes to its out parameters.
pub data Outcome : Type 0 where
  nothing : Outcome
  code : ErrorCode → Outcome
  step1 : ErrorCode → Option ActivationStep1Result → Outcome
  text : ErrorCode → Option Bytes → Outcome
  bytes : ErrorCode × Bytes → Outcome

-- A call of a native method, with what Java gives it.
pub data NativeCall : Type 0 where
  reset : NativeCall
  deserialize : Option JavaBytes → NativeCall
  start : Option JavaStep1Param → Step1Random → NativeCall
  validate : Option JavaStep2Param → NativeCall
  complete : Option JavaUnlockKeys → Draws → NativeCall
  sign :
      (body : Option JavaBytes) (method uri : Option JavaString)
      → Option JavaUnlockKeys
      → ℕ
      → Draws
      → NativeCall
  change_password : (old_password new_password : Option JavaPassword) → Draws → NativeCall
  add_biometry : Option JavaString → Option JavaUnlockKeys → NativeCall
  remove_biometry : NativeCall
  derive_key : Option JavaString → Option JavaUnlockKeys → ℕ → NativeCall
  sign_data : Option JavaString → Option JavaUnlockKeys → Option JavaBytes → NativeCall
  set_eek : Option JavaBytes → NativeCall
  add_eek : Option JavaBytes → NativeCall
  remove_eek : NativeCall

-- What Java gets.
pub data Report : Type 0 where
  nothing : Report
  code : ErrorCode → Report
  step1 : Option (JavaCoded JavaStep1Result) → Report
  text : Option (JavaCoded JavaString) → Report
  bytes : Option JavaBytes → Report

-- What Java gets from a native method that calls nothing: EC_WrongParam, or null.
unfoldable pub refusal : NativeCall → Report
refusal (NativeCall.start param random) = Report.step1 none
refusal (NativeCall.validate param) = Report.text none
refusal (NativeCall.sign body method uri keys factor draws) = Report.text none
refusal (NativeCall.derive_key c keys key_index) = Report.bytes none
refusal (NativeCall.sign_data c keys in_data) = Report.bytes none
refusal _ = Report.code ErrorCode.ec_wrong_param

module _ ⦃jni : Jni⦄ where
  -- The call of Session with copies of the arguments, `none` where the native method needs an object
  -- that is null or a password whose handle is missing. The body of a request, a state and an
  -- external key may be null.
  unfoldable pub lowered : NativeCall → Option SessionCall
  lowered NativeCall.reset = some SessionCall.reset
  lowered (NativeCall.deserialize state) =
      some (SessionCall.load (jni.copy_from_java_byte_array state))
  lowered (NativeCall.start param random) =
      param >>= λ p. some (SessionCall.start (copied_step1 p) random)
  lowered (NativeCall.validate param) = param >>= λ p. some (SessionCall.validate (copied_step2 p))
  lowered (NativeCall.complete unlock_keys draws) =
      load_signature_unlock_keys unlock_keys >>= λ keys. some (SessionCall.complete keys draws)
  lowered (NativeCall.sign body method uri unlock_keys factor draws) = method >>= λ m. uri >>= λ u.
      load_signature_unlock_keys unlock_keys >>= λ keys. some (
        SessionCall.sign
          (record {
            body = jni.copy_from_java_byte_array body;
            method = jni.copy_from_java_string (some m);
            uri = jni.copy_from_java_string (some u);
          })
          keys factor draws)
  lowered (NativeCall.change_password old_password new_password draws) =
      cpp_password old_password >>= λ o.
      cpp_password new_password >>= λ n. some (SessionCall.change_password o n draws)
  lowered (NativeCall.add_biometry c_vault_key unlock_keys) = c_vault_key >>= λ c.
      load_signature_unlock_keys unlock_keys >>= λ keys.
      some (SessionCall.add_biometry (jni.copy_from_java_string (some c)) keys)
  lowered NativeCall.remove_biometry = some SessionCall.remove_biometry
  lowered (NativeCall.derive_key c_vault_key unlock_keys key_index) = c_vault_key >>= λ c.
      load_signature_unlock_keys unlock_keys >>= λ keys.
      some (SessionCall.derive_key (jni.copy_from_java_string (some c)) keys key_index)
  lowered (NativeCall.sign_data c_vault_key unlock_keys in_data) = c_vault_key >>= λ c.
      in_data >>= λ d. load_signature_unlock_keys unlock_keys >>= λ keys. some (
        SessionCall.sign_data (jni.copy_from_java_string (some c)) keys
          (jni.copy_from_java_byte_array (some d)))
  lowered (NativeCall.set_eek key) = some (SessionCall.set_eek (jni.copy_from_java_byte_array key))
  lowered (NativeCall.add_eek key) = some (SessionCall.add_eek (jni.copy_from_java_byte_array key))
  lowered NativeCall.remove_eek = some SessionCall.remove_eek

  module _ ⦃cc : Cc7⦄ ⦃ssl : OpenSsl⦄ where
    -- The outcome as Java objects: the fields of a result are set, and bytes are given, for EC_Ok
    -- only.
    unfoldable pub shown : Outcome → Report
    shown Outcome.nothing = Report.nothing
    shown (Outcome.code c) = Report.code c
    shown (Outcome.step1 c result) = Report.step1 (some (if_ok c (java_step1 result)))
    shown (Outcome.text c result) = Report.text (some (if_ok c (string_of result)))
    shown (Outcome.bytes r) = Report.bytes (bytes_if_ok r)

    unfoldable pub performed : SessionCall → Session → Session × Outcome
    performed SessionCall.reset s = (reset_session s, Outcome.nothing)
    performed (SessionCall.load b) s = let r = load_session_state b s in (r.0, Outcome.code r.1)
    performed (SessionCall.start param random) s =
        let r = start_activation s param random in (r.0, Outcome.step1 r.1 r.2)
    performed (SessionCall.validate param) s =
        let r = validate_activation_response s param in (r.0, Outcome.text r.1 r.2)
    performed (SessionCall.complete keys draws) s =
        let r = complete_activation s keys draws in (r.0, Outcome.code r.1)
    performed (SessionCall.sign request keys factor draws) s =
        let r = sign_http_request s request keys factor draws in (r.0, Outcome.text r.1 r.2)
    performed (SessionCall.change_password o n draws) s =
        let r = change_user_password s o n draws in (r.0, Outcome.code r.1)
    performed (SessionCall.add_biometry c keys) s =
        let r = add_biometry_factor s c keys in (r.0, Outcome.code r.1)
    performed SessionCall.remove_biometry s =
        let r = remove_biometry_factor s in (r.0, Outcome.code r.1)
    performed (SessionCall.derive_key c keys key_index) s =
        let r = derive_cryptographic_key_from_vault_key s c keys key_index in
        (r.0, Outcome.bytes r.1)
    performed (SessionCall.sign_data c keys in_data) s =
        let r = sign_data_with_device_private_key s c keys in_data in (r.0, Outcome.bytes r.1)
    performed (SessionCall.set_eek key) s =
        let r = set_external_encryption_key s key in (r.0, Outcome.code r.1)
    performed (SessionCall.add_eek key) s =
        let r = add_external_encryption_key s key in (r.0, Outcome.code r.1)
    performed SessionCall.remove_eek s =
        let r = remove_external_encryption_key s in (r.0, Outcome.code r.1)
