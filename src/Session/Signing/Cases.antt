-- ===== src/Session/Signing/Cases.antt =====
-- What signing a request does on each of its branches.
use lime_security_powerauth.Base.{
  ℕ, ◌≡◌, refl, false, Option, none, some, is_empty, Bytes, not, ◌||◌, ◌==◌, if-either, arith, ◌+◌,
  ◌%◌, ◌^◌, if◌then◌else◌,
}
use lime_security_powerauth.Platform.{Cc7, OpenSsl}
use lime_security_powerauth.Crypto.Prng.{Draws}
use lime_security_powerauth.Protocol.Constants.{has_factor, sf_prepare_for_vault_unlock}
use lime_security_powerauth.Protocol.Signature.{convert_signature_factor_to_string}
use lime_security_powerauth.Protocol.Types.{
  ErrorCode, PersistentData, SignatureKeys, SignatureUnlockKeys, waiting_for_vault_unlock,
  uses_external_key,
}
use lime_security_powerauth.Session.{Session, activation_data}
use lime_security_powerauth.Session.Outcome.{is_ok, Keeps, unchanged, updated}
use lime_security_powerauth.Session.Signing.{
  HttpRequest, signed, is_method, finish_signing, sign_unlocked, sign_activated, sign_http_request,
}

pub data Signing (s : Session) (factor : ℕ) : Session × ErrorCode × Option Bytes → Type 0 where
  refused : (code : ErrorCode) → is_ok code ≡ false → Signing s factor (s, code, none)
  signed_once :
      (pd : PersistentData) (header : Bytes)
      → activation_data s ≡ some pd
      → Signing s factor (record s { pd = some (signed factor pd) }, ErrorCode.ec_ok, some header)

pub Signing→Keeps :
    {s : Session} {factor : ℕ} {r : Session × ErrorCode × Option Bytes}
    → Signing s factor r
    → Keeps s r.0
Signing→Keeps {s = s} (refused code e) = unchanged
Signing→Keeps {s = s} {factor = f} (signed_once pd header e) = updated pd (signed f pd) s.setup e

module _ ⦃cc : Cc7⦄ ⦃ssl : OpenSsl⦄ (s : Session) (request : HttpRequest) (factor : ℕ)
    (draws : Draws) where
  Signing-finish_signing :
      (pd : PersistentData) (nonce_b64 signature : Bytes)
      → activation_data s ≡ some pd
      → Signing s factor (finish_signing s pd factor nonce_b64 signature)
  unfolding finish_signing
  Signing-finish_signing pd nonce_b64 signature e =
      if-either (Signing s factor) (is_empty signature) (refused ErrorCode.ec_encryption refl)
        (signed_once pd _ e)

  Signing-sign_unlocked :
      (pd : PersistentData) (o : Option SignatureKeys)
      → activation_data s ≡ some pd
      → Signing s factor (sign_unlocked s pd request factor draws o)
  unfolding sign_unlocked
  Signing-sign_unlocked pd none e = refused ErrorCode.ec_encryption refl
  Signing-sign_unlocked pd (some keys) e = Signing-finish_signing pd _ _ e

  Signing-sign_activated :
      (keys : SignatureUnlockKeys) (o : Option PersistentData)
      → activation_data s ≡ o
      → Signing s factor (sign_activated s request keys factor draws o)
  unfolding sign_activated
  Signing-sign_activated keys none e = refused ErrorCode.ec_wrong_state refl
  Signing-sign_activated keys (some pd) e =
      if-either (Signing s factor) (is_empty request.method || is_empty request.uri || factor == 0)
        (refused ErrorCode.ec_wrong_param refl)
        (if-either (Signing s factor) (not (is_method request.method))
          (refused ErrorCode.ec_wrong_param refl)
          (if-either (Signing s factor) (is_empty (convert_signature_factor_to_string factor))
            (refused ErrorCode.ec_wrong_param refl) (Signing-sign_unlocked pd _ e)))

  -- Signing a request either reports an error, gives no header and leaves the session as it was, or
  -- reports EC_Ok, gives a header, and changes nothing but the persistent data of the activated
  -- session, by exactly one `signed` step.
  pub Signing-sign_http_request :
      (keys : SignatureUnlockKeys)
      → Signing s factor (sign_http_request s request keys factor draws)
  unfolding sign_http_request
  Signing-sign_http_request keys = Signing-sign_activated keys (activation_data s) refl

-- A signature moves the counter on by one, or by two if it is for unlocking the vault, with the
-- wrap-around of a 64-bit counter; it makes the data wait for a vault request just in the second
-- case, and keeps the flag of the external key.
pub signed_lem :
    (factor : ℕ) (pd : PersistentData)
    → let pd' = signed factor pd in
      (pd'.signature_counter
        ≡ (pd.signature_counter + (if has_factor factor sf_prepare_for_vault_unlock then 2 else 1))
          % 2 ^ 64)
      × (waiting_for_vault_unlock pd'.flags_u32 ≡ has_factor factor sf_prepare_for_vault_unlock)
      × (uses_external_key pd'.flags_u32 ≡ uses_external_key pd.flags_u32)
unfolding signed
signed_lem factor pd = ground arith
