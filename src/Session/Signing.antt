-- ===== src/Session/Signing.antt =====
-- src/PowerAuth/Session.cpp: signHTTPRequest and httpAuthHeaderName.
pub mod Cases
use lime_security_powerauth.Base.{
  ℕ, ◌+◌, ◌%◌, ◌^◌, bit_and, Bool, true, false, not, ◌&&◌, ◌||◌, [], ◌++◌, Option, none, some, ◌==◌,
  if◌then◌else◌, is_empty, equal, Bytes,
}
use lime_security_powerauth.Platform.{Cc7, OpenSsl}
use lime_security_powerauth.Crypto.Prng.{Draws, get_random_data}
use lime_security_powerauth.Protocol.Constants.{
  codes, has_factor, signature_key_size, sf_prepare_for_vault_unlock, pa_auth_header_name,
  fragment_activation_id, fragment_application_key, fragment_nonce, fragment_signature_type,
  fragment_signature, fragment_version,
}
use lime_security_powerauth.Protocol.Locking.{unlock_signature_keys}
use lime_security_powerauth.Protocol.Signature.{
  convert_signature_factor_to_string, normalize_data_for_signature, calculate_signature,
}
use lime_security_powerauth.Protocol.Types.{
  ErrorCode, PersistentData, SignatureKeys, SignatureUnlockKeys, SignatureUnlockKeysReq,
  set_waiting_for_vault_unlock,
}
use lime_security_powerauth.Session.{Session, activation_data, eek}

pub http_auth_header_name : Bytes
http_auth_header_name = pa_auth_header_name

pub record HttpRequest : Type 0 where
  pub body : Bytes
  pub method : Bytes
  pub uri : Bytes

unfoldable pub is_method : Bytes → Bool
is_method method =
    equal method (codes "GET")
    || equal method (codes "POST")
    || equal method (codes "HEAD")
    || equal method (codes "PUT")
    || equal method (codes "DELETE")

-- cc7::U64 `+= 1`
abbrev pub next_counter : ℕ → ℕ
next_counter ctr = (ctr + 1) % 2 ^ 64

-- The counter and the flag after a signature: twice on and waiting for a vault request.
unfoldable pub signed : ℕ → PersistentData → PersistentData
signed factor pd =
    let ctr = next_counter pd.signature_counter in
    if has_factor factor sf_prepare_for_vault_unlock
    then record pd {
      signature_counter = next_counter ctr;
      flags_u32 = set_waiting_for_vault_unlock true pd.flags_u32;
    }
    else record pd {
      signature_counter = ctr;
      flags_u32 = set_waiting_for_vault_unlock false pd.flags_u32;
    }

unfoldable pub header_value : Session → PersistentData → Bytes → Bytes → Bytes → Bytes
header_value s pd nonce_b64 factor_string signature =
    fragment_activation_id
    ++ (pd.activation_id
        ++ (fragment_application_key
            ++ (s.setup.application_key
                ++ (fragment_nonce
                    ++ (nonce_b64
                        ++ (fragment_signature_type
                            ++ (factor_string
                                ++ (fragment_signature ++ (signature ++ fragment_version)))))))))

module _ ⦃cc : Cc7⦄ ⦃ssl : OpenSsl⦄ where
  unlock_request : Session → PersistentData → SignatureUnlockKeys → ℕ → SignatureUnlockKeysReq
  unlock_request s pd keys factor = record {
    factor = factor;
    keys = keys;
    ext_key = eek s;
    pbkdf2_salt = some pd.password_salt;
    pbkdf2_iter = pd.password_iterations;
  }

  -- The counter, the flag and the header, for a signature that could be calculated.
  finish_signing : Session → PersistentData → ℕ → Bytes → Bytes → Session × ErrorCode × Option Bytes
  finish_signing s pd factor nonce_b64 signature =
      if is_empty signature then (s, ErrorCode.ec_encryption, none) else (
        record s { pd = some (signed factor pd) },
        ErrorCode.ec_ok,
        some (header_value s pd nonce_b64 (convert_signature_factor_to_string factor) signature),
      )

  -- From the unlocked keys on. Re-seeding the generator has no effect on the session.
  sign_unlocked :
      Session
      → PersistentData
      → HttpRequest
      → ℕ
      → Draws
      → Option SignatureKeys
      → Session × ErrorCode × Option Bytes
  unfolding finish_signing
  sign_unlocked s pd request factor nonce_draws none = (s, ErrorCode.ec_encryption, none)
  sign_unlocked s pd request factor nonce_draws (some plain_keys) =
      let nonce_b64 = cc.to_base64 (get_random_data signature_key_size true nonce_draws) in
      let data_for_signing =
        normalize_data_for_signature request.method request.uri nonce_b64 request.body
          s.setup.application_secret in
      let signature = calculate_signature plain_keys factor pd.signature_counter data_for_signing in
      finish_signing s pd factor nonce_b64 signature

  sign_activated :
      Session
      → HttpRequest
      → SignatureUnlockKeys
      → ℕ
      → Draws
      → Option PersistentData
      → Session × ErrorCode × Option Bytes
  unfolding unlock_request sign_unlocked
  sign_activated s request keys factor nonce_draws none = (s, ErrorCode.ec_wrong_state, none)
  sign_activated s request keys factor nonce_draws (some pd) =
      if is_empty request.method || is_empty request.uri || factor == 0
      then (s, ErrorCode.ec_wrong_param, none)
      else if not (is_method request.method)
      then (s, ErrorCode.ec_wrong_param, none)
      else if is_empty (convert_signature_factor_to_string factor)
      then (s, ErrorCode.ec_wrong_param, none)
      else sign_unlocked s pd request factor nonce_draws
          (unlock_signature_keys pd.sk (unlock_request s pd keys factor))

  -- The session, the code, and the header's value where the code is EC_Ok.
  unfoldable pub sign_http_request :
      Session → HttpRequest → SignatureUnlockKeys → ℕ → Draws → Session × ErrorCode × Option Bytes
  unfolding sign_activated
  sign_http_request s request keys factor nonce_draws =
      sign_activated s request keys factor nonce_draws (activation_data s)
