-- ===== src/Examples/Sessions.antt =====
-- The theorems on sessions at concrete sessions and calls.
use lime_security_powerauth.Base.{
  ◌≡◌, refl, ap, true, Bytes, false, [], ◌∷◌, none, some, arith, ◌||◌, if◌then◌else◌, ◌+◌, ◌%◌, ◌^◌,
}
use lime_security_powerauth.Protocol.Constants.{has_factor, sf_prepare_for_vault_unlock}
use lime_security_powerauth.Protocol.Types.{ErrorCode, waiting_for_vault_unlock, uses_external_key}
use lime_security_powerauth.Protocol.Validation.{validate_persistent_data, validate_signature_keys}
use lime_security_powerauth.Protocol.Persistence.RoundTrip.{IsStorable}
use lime_security_powerauth.Session.{
  Session, State, session, is_state, activation_data, has_valid_activation, has_valid_setup,
  can_start_activation, has_pending_activation,
}
use lime_security_powerauth.Session.Activation.{
  start_activation, validate_activation_response, complete_activation,
}
use lime_security_powerauth.Session.Activation.Outcomes.{Completing}
use lime_security_powerauth.Session.Activation.Cases.{Completing-complete_activation}
use lime_security_powerauth.Session.Factors.{change_user_password, add_external_encryption_key}
use lime_security_powerauth.Session.Factors.Cases.{
  Changing, Adding, Changing-change_user_password, Adding-add_external_encryption_key,
}
use lime_security_powerauth.Session.Invariant.Stored.{
  IsSized, AllSized, Reachable-validate_persistent_data,
}
use lime_security_powerauth.Session.Invariant.{
  load, IsValid, activated, Reachable, constructed, called, start, validate, complete, sign,
  Step-IsValid, Reachable-IsValid, Reachable-probes,
}
use lime_security_powerauth.Session.Signing.{signed, sign_http_request}
use lime_security_powerauth.Session.Signing.Cases.{Signing, Signing-sign_http_request, signed_lem}
use lime_security_powerauth.Session.Storage.{save_session_state, load_session_state}
use lime_security_powerauth.Session.Storage.Cases.{Loading, Loading-load_session_state}
use lime_security_powerauth.Session.Storage.RoundTrip.{load-save_activated, load-save_empty}
use lime_security_powerauth.Session.Vault.{decrypt_vault_key, failed}
use lime_security_powerauth.Session.Vault.Cases.{
  Vault, Vault-decrypt_vault_key, decrypt_vault_key-decrypt_vault_key,
}
use lime_security_powerauth.Examples.Instances.{test_cc, test_ssl, test_cc_laws, test_aes}
use lime_security_powerauth.Examples.Data.{
  sixteen, test_draws, test_setup, test_unlock_keys, test_pd, test_activated, test_empty,
  test_request, test_step1, test_step2, test_random,
}

-- A constructed session, one with a started activation, and one with an accepted response.
abbrev constructed_session : Session
constructed_session = session ⦃cc = test_cc⦄ ⦃ssl = test_ssl⦄ test_setup

abbrev started_session : Session
started_session =
    (start_activation ⦃cc = test_cc⦄ ⦃ssl = test_ssl⦄ constructed_session test_step1 test_random).0

abbrev accepted_session : Session
accepted_session =
    (validate_activation_response ⦃cc = test_cc⦄ ⦃ssl = test_ssl⦄ started_session test_step2).0

abbrev completed_session : Session
completed_session =
    (complete_activation ⦃cc = test_cc⦄ ⦃ssl = test_ssl⦄ accepted_session test_unlock_keys
      test_draws).0

abbrev reach_completed : Reachable ⦃cc = test_cc⦄ ⦃ssl = test_ssl⦄ test_setup completed_session
reach_completed =
    called (called (called constructed (start test_step1 test_random)) (validate test_step2))
      (complete test_unlock_keys test_draws)

Step-IsValid_example :
    IsValid
      (sign_http_request ⦃cc = test_cc⦄ ⦃ssl = test_ssl⦄ test_activated test_request
        test_unlock_keys 0x11 test_draws).0
Step-IsValid_example =
    Step-IsValid ⦃cc = test_cc⦄ ⦃ssl = test_ssl⦄
      (sign test_request test_unlock_keys 0x11 test_draws) (activated test_pd)

Reachable-IsValid_example : IsValid completed_session
Reachable-IsValid_example = Reachable-IsValid ⦃cc = test_cc⦄ ⦃ssl = test_ssl⦄ reach_completed

Reachable-probes_example :
    (can_start_activation completed_session ≡ is_state (completed_session.state) State.empty)
    × (has_pending_activation completed_session ≡ (
        is_state (completed_session.state) State.activation1
        || is_state (completed_session.state) State.activation2))
    × (has_valid_activation completed_session ≡ is_state (completed_session.state) State.activated)
Reachable-probes_example =
    Reachable-probes ⦃cc = test_cc⦄ ⦃ssl = test_ssl⦄ test_setup completed_session reach_completed

active : activation_data test_activated ≡ some test_pd
unfolding activation_data has_valid_activation has_valid_setup
active = refl

no_activation : has_valid_activation test_empty ≡ false
unfolding has_valid_activation
no_activation = refl

storable : IsStorable test_pd
unfolding validate_persistent_data validate_signature_keys
storable = record {
  valid = refl;
  counter_u64 = omega arith;
  iterations_u32 = omega arith;
  flags_u32_range = omega arith;
  salt_size = refl;
  possession_size = refl;
  knowledge_size = refl;
  transport_size = refl;
  same_eek = refl;
  fits = record {
    id_fits = omega arith;
    salt_fits = omega arith;
    possession_fits = omega arith;
    knowledge_fits = omega arith;
    biometry_fits = omega arith;
    transport_fits = omega arith;
    server_fits = omega arith;
    device_fits = omega arith;
    private_fits = omega arith;
  };
}

load-save_activated_example :
    load_session_state ⦃cc = test_cc⦄ (save_session_state ⦃cc = test_cc⦄ test_activated) test_empty
    ≡ (
      record { state = State.activated; setup = test_setup; pd = some test_pd; ad = none },
      ErrorCode.ec_ok,
    )
load-save_activated_example =
    load-save_activated ⦃cc = test_cc⦄ test_cc_laws test_activated test_empty test_pd active
      storable

load-save_empty_example :
    load_session_state ⦃cc = test_cc⦄ (save_session_state ⦃cc = test_cc⦄ test_empty) test_activated
    ≡ (record { state = State.empty; setup = test_setup; pd = none; ad = none }, ErrorCode.ec_ok)
load-save_empty_example =
    load-save_empty ⦃cc = test_cc⦄ test_cc_laws test_empty test_activated no_activation

Loading-load_session_state_example :
    Loading ⦃cc = test_cc⦄ test_activated
      (1 ∷ 2 ∷ [])
      (load_session_state ⦃cc = test_cc⦄ (1 ∷ 2 ∷ []) test_activated)
Loading-load_session_state_example =
    Loading-load_session_state ⦃cc = test_cc⦄ test_activated (1 ∷ 2 ∷ [])

Completing-complete_activation_example :
    Completing ⦃cc = test_cc⦄ ⦃ssl = test_ssl⦄ accepted_session test_unlock_keys test_draws (
      complete_activation ⦃cc = test_cc⦄ ⦃ssl = test_ssl⦄ accepted_session test_unlock_keys
        test_draws)
Completing-complete_activation_example =
    Completing-complete_activation ⦃cc = test_cc⦄ ⦃ssl = test_ssl⦄ accepted_session test_unlock_keys
      test_draws

Signing-sign_http_request_example : Signing test_activated 0x11 (
    sign_http_request ⦃cc = test_cc⦄ ⦃ssl = test_ssl⦄ test_activated test_request test_unlock_keys
      0x11 test_draws)
Signing-sign_http_request_example =
    Signing-sign_http_request ⦃cc = test_cc⦄ ⦃ssl = test_ssl⦄ test_activated test_request 0x11
      test_draws test_unlock_keys

signed_lem_example :
    let pd' = signed 0x1011 test_pd in
    (pd'.signature_counter
      ≡ (9 + (if has_factor 0x1011 sf_prepare_for_vault_unlock then 2 else 1)) % 2 ^ 64)
    × (waiting_for_vault_unlock pd'.flags_u32 ≡ has_factor 0x1011 sf_prepare_for_vault_unlock)
    × (uses_external_key pd'.flags_u32 ≡ uses_external_key 1)
signed_lem_example = signed_lem 0x1011 test_pd

Vault-decrypt_vault_key_example :
    Vault test_activated (
      decrypt_vault_key ⦃cc = test_cc⦄ ⦃ssl = test_ssl⦄ test_activated
        (sixteen 16)
        test_unlock_keys)
Vault-decrypt_vault_key_example =
    Vault-decrypt_vault_key ⦃cc = test_cc⦄ ⦃ssl = test_ssl⦄ test_activated (sixteen 16)
      test_unlock_keys

decrypt_vault_key-decrypt_vault_key_example :
    let t =
      (decrypt_vault_key ⦃cc = test_cc⦄ ⦃ssl = test_ssl⦄ test_activated
        (sixteen 16)
        test_unlock_keys).0 in
    decrypt_vault_key ⦃cc = test_cc⦄ ⦃ssl = test_ssl⦄ t (sixteen 5) test_unlock_keys
    ≡ (t, failed ErrorCode.ec_wrong_state)
decrypt_vault_key-decrypt_vault_key_example =
    decrypt_vault_key-decrypt_vault_key ⦃cc = test_cc⦄ ⦃ssl = test_ssl⦄ test_activated (sixteen 16)
      (sixteen 5) test_unlock_keys test_unlock_keys

Changing-change_user_password_example :
    Changing ⦃ssl = test_ssl⦄ test_activated (1 ∷ 2 ∷ 3 ∷ 4 ∷ []) (5 ∷ 6 ∷ 7 ∷ 8 ∷ []) test_draws (
      change_user_password ⦃ssl = test_ssl⦄ test_activated
        (1 ∷ 2 ∷ 3 ∷ 4 ∷ [])
        (5 ∷ 6 ∷ 7 ∷ 8 ∷ [])
        test_draws)
Changing-change_user_password_example =
    Changing-change_user_password ⦃ssl = test_ssl⦄ test_activated (1 ∷ 2 ∷ 3 ∷ 4 ∷ [])
      (5 ∷ 6 ∷ 7 ∷ 8 ∷ []) test_draws

Adding-add_external_encryption_key_example :
    Adding ⦃ssl = test_ssl⦄ test_activated
      (sixteen 4)
      (add_external_encryption_key ⦃ssl = test_ssl⦄ test_activated (sixteen 4))
Adding-add_external_encryption_key_example =
    Adding-add_external_encryption_key ⦃ssl = test_ssl⦄ test_activated (sixteen 4)

abbrev saved_bytes : Bytes
saved_bytes = save_session_state ⦃cc = test_cc⦄ test_activated

abbrev loaded_session : Session
loaded_session = (load_session_state ⦃cc = test_cc⦄ saved_bytes constructed_session).0

abbrev reach_loaded : Reachable ⦃cc = test_cc⦄ ⦃ssl = test_ssl⦄ test_setup loaded_session
reach_loaded = called constructed (load saved_bytes)

loaded_draws : AllSized ⦃cc = test_cc⦄ ⦃ssl = test_ssl⦄ reach_loaded
unfolding AllSized IsSized
loaded_draws = (tt, tt)

loaded_pd : loaded_session.pd ≡ some test_pd
loaded_pd =
    ap (λ r. r.0.pd)
      (load-save_activated ⦃cc = test_cc⦄ test_cc_laws test_activated constructed_session test_pd
        active storable)

Reachable-validate_persistent_data_example : validate_persistent_data test_pd ≡ true
Reachable-validate_persistent_data_example =
    Reachable-validate_persistent_data ⦃cc = test_cc⦄ ⦃ssl = test_ssl⦄ test_aes test_setup
      loaded_session test_pd reach_loaded loaded_draws loaded_pd
