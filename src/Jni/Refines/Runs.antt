-- ===== src/Jni/Refines/Runs.antt =====
-- Sequences of native calls, and what they stand for.
use lime_security_powerauth.Base.{List, [], ◌∷◌, Option, none, some}
use lime_security_powerauth.Platform.{Cc7, OpenSsl}
use lime_security_powerauth.Session.{Session}
use lime_security_powerauth.Jni.{
  reset_session_native, deserialize_state, start_activation_native,
  validate_activation_response_native, complete_activation_native, sign_http_request_native,
  change_user_password_native, add_biometry_factor_native, remove_biometry_factor_native,
  set_external_encryption_key_native, add_external_encryption_key_native,
  remove_external_encryption_key_native,
}
use lime_security_powerauth.Jni.Objects.{Jni}
use lime_security_powerauth.Jni.Vault.{
  derive_cryptographic_key_from_vault_key_native, sign_data_with_device_private_key_native,
}
use lime_security_powerauth.Jni.Refines.Calls.{
  NativeCall, SessionCall, Report, performed, shown, lowered, refusal,
}

module _ ⦃jni : Jni⦄ ⦃cc : Cc7⦄ ⦃ssl : OpenSsl⦄ where
  -- The native method of a call, with what Java gets.
  unfoldable pub native : NativeCall → Option Session → Option Session × Report
  native NativeCall.reset h = (reset_session_native h, Report.nothing)
  native (NativeCall.deserialize state) h =
      let r = deserialize_state h state in (r.0, Report.code r.1)
  native (NativeCall.start param random) h =
      let r = start_activation_native h param random in (r.0, Report.step1 r.1)
  native (NativeCall.validate param) h =
      let r = validate_activation_response_native h param in (r.0, Report.text r.1)
  native (NativeCall.complete keys draws) h =
      let r = complete_activation_native h keys draws in (r.0, Report.code r.1)
  native (NativeCall.sign body method uri keys factor draws) h =
      let r = sign_http_request_native h body method uri keys factor draws in (r.0, Report.text r.1)
  native (NativeCall.change_password old_password new_password draws) h =
      let r = change_user_password_native h old_password new_password draws in
      (r.0, Report.code r.1)
  native (NativeCall.add_biometry c_vault_key keys) h =
      let r = add_biometry_factor_native h c_vault_key keys in (r.0, Report.code r.1)
  native NativeCall.remove_biometry h =
      let r = remove_biometry_factor_native h in (r.0, Report.code r.1)
  native (NativeCall.derive_key c_vault_key keys key_index) h =
      let r = derive_cryptographic_key_from_vault_key_native h c_vault_key keys key_index in
      (r.0, Report.bytes r.1)
  native (NativeCall.sign_data c_vault_key keys in_data) h =
      let r = sign_data_with_device_private_key_native h c_vault_key keys in_data in
      (r.0, Report.bytes r.1)
  native (NativeCall.set_eek key) h =
      let r = set_external_encryption_key_native h key in (r.0, Report.code r.1)
  native (NativeCall.add_eek key) h =
      let r = add_external_encryption_key_native h key in (r.0, Report.code r.1)
  native NativeCall.remove_eek h =
      let r = remove_external_encryption_key_native h in (r.0, Report.code r.1)

  unfoldable pub native_run : List NativeCall → Option Session → Option Session × List Report
  native_run [] h = (h, [])
  native_run (c ∷ cs) h =
      let r = native c h in let rest = native_run cs r.0 in (rest.0, r.1 ∷ rest.1)

  -- What the calls of Session do for a native call that stands for one, or for none.
  unfoldable pub meant_by : NativeCall → Session → Option SessionCall → Session × Report
  meant_by c s none = (s, refusal c)
  meant_by c s (some d) = let r = performed d s in (r.0, shown r.1)

  unfoldable pub meant_run : List NativeCall → Session → Session × List Report
  unfolding meant_by
  meant_run [] s = (s, [])
  meant_run (c ∷ cs) s =
      let r = meant_by c s (lowered c) in let rest = meant_run cs r.0 in (rest.0, r.1 ∷ rest.1)
