-- ===== src/Session/Invariant/Stored.antt =====
-- The persistent data of a session pass the validation, whatever is called.
use lime_security_powerauth.Base.{ℕ, ◌≡◌, sym, subst, true, some, Option, Bytes, length, if-either}
use lime_security_powerauth.Platform.{Cc7, OpenSsl, AesLaws}
use lime_security_powerauth.Crypto.Prng.Laws.{AllDrawn}
use lime_security_powerauth.Protocol.Constants.{has_factor, sf_prepare_for_vault_unlock}
use lime_security_powerauth.Crypto.Prng.{Draws}
use lime_security_powerauth.Protocol.Types.{
  SessionSetup, PersistentData, ErrorCode, SignatureUnlockKeys,
}
use lime_security_powerauth.Protocol.Validation.{validate_persistent_data}
use lime_security_powerauth.Protocol.Validation.Whole.{
  IsWhole, IsStored, IsWhole-flags, IsWhole-validate_persistent_data,
  validate_persistent_data-IsWhole,
}
use lime_security_powerauth.Session.{Session, session, reset_session, commit_new_persistent_state}
use lime_security_powerauth.Session.Outcome.{IsWhole-activation_data}
use lime_security_powerauth.Session.Activation.Outcomes.{Starting, Validating, Completing}
use lime_security_powerauth.Session.Activation.Cases.{
  Starting-start_activation, Validating-validate_activation_response,
  Completing-complete_activation,
}
use lime_security_powerauth.Session.Activation.{
  ActivationStep1Param, ActivationStep2Param, ActivationStep1Result, Step1Random,
}
use lime_security_powerauth.Session.Factors.Cases.{set_external_encryption_key_keeps}
use lime_security_powerauth.Session.Factors.Stored.{
  IsStored-remove_biometry_factor, IsStored-add_external_encryption_key,
  IsStored-remove_external_encryption_key, IsStored-change_user_password,
}
use lime_security_powerauth.Session.Invariant.{Step, Reachable}
use lime_security_powerauth.Session.Signing.{signed}
use lime_security_powerauth.Session.Signing.Cases.{Signing, Signing-sign_http_request}
use lime_security_powerauth.Session.Storage.Loaded.{IsStored-load_session_state}
use lime_security_powerauth.Session.Vault.Stored.{
  IsStored-derive, IsStored-sign_data, IsStored-add_biometry_factor,
}

IsWhole-signed : (factor : ℕ) (pd : PersistentData) → IsWhole pd → IsWhole (signed factor pd)
unfolding signed
IsWhole-signed factor pd w =
    if-either IsWhole (has_factor factor sf_prepare_for_vault_unlock)
      (IsWhole-flags pd _ _ pd.sk w w.key_sizes) (IsWhole-flags pd _ _ pd.sk w w.key_sizes)

module _ ⦃cc : Cc7⦄ ⦃ssl : OpenSsl⦄ where
  IsStored-Starting :
      (s : Session) (param : ActivationStep1Param) (random : Step1Random)
      {r : Session × ErrorCode × Option ActivationStep1Result}
      → Starting s param random r
      → IsStored s.pd
      → IsStored r.0.pd
  IsStored-Starting s param random (Starting.misplaced c) w = w
  IsStored-Starting s param random (Starting.incomplete c p) w = w
  IsStored-Starting s param random (Starting.failed c p) w = w
  IsStored-Starting s param random (Starting.unsigned result c u) w = w
  IsStored-Starting s param random (Starting.started ad result c e u h) w = w

  IsStored-Validating :
      (s : Session) (param : ActivationStep2Param) {r : Session × ErrorCode × Option Bytes}
      → Validating s param r
      → IsStored s.pd
      → IsStored r.0.pd
  IsStored-Validating s param (Validating.misplaced c) w = w
  IsStored-Validating s param (Validating.incomplete c m) w = w
  IsStored-Validating s param (Validating.dropped e m f) w = tt
  IsStored-Validating s param (Validating.misprinted ad ad' hk e m a f l) w = tt
  IsStored-Validating s param (Validating.accepted ad ad' hk e p a m f l h) w = w

  IsStored-Completing :
      (s : Session) (keys : SignatureUnlockKeys) (draws : Draws) {r : Session × ErrorCode}
      → Completing s keys draws r
      → IsStored s.pd
      → IsStored r.0.pd
  IsStored-Completing s keys draws (Completing.misplaced c) w = w
  IsStored-Completing s keys draws (Completing.keyless c k) w = w
  IsStored-Completing s keys draws (Completing.dropped e k f) w = tt
  IsStored-Completing s keys draws (Completing.completed pd e k f v) w =
      IsWhole-validate_persistent_data pd v

  IsStored-Signing :
      (s : Session) (factor : ℕ) {r : Session × ErrorCode × Option Bytes}
      → Signing s factor r
      → IsStored s.pd
      → IsStored r.0.pd
  IsStored-Signing s factor (Signing.refused code e) w = w
  IsStored-Signing s factor (Signing.signed_once pd header e) w =
      IsWhole-signed factor pd (IsWhole-activation_data s e w)

  -- The generator gives 16 bytes whenever it gives a salt for a new password.
  unfoldable pub IsSized : {s t : Session} → Step s t → Type 0
  IsSized (Step.change_password old_password new_password draws) =
      AllDrawn (λ d. length d ≡ 16) draws
  IsSized _ = Unit {0}

  unfoldable pub AllSized : {setup : SessionSetup} {s : Session} → Reachable setup s → Type 0
  AllSized Reachable.constructed = Unit {0}
  AllSized (Reachable.called r step) = AllSized r × IsSized step

  module _ (aes : AesLaws ssl) where
    IsStored-Step : {s t : Session} (step : Step s t) → IsSized step → IsStored s.pd → IsStored t.pd
    unfolding IsSized
    IsStored-Step Step.reset h w = unfold reset_session commit_new_persistent_state in tt
    IsStored-Step {s} (Step.load b) h w = IsStored-load_session_state b s
    IsStored-Step {s} (Step.start param random) h w =
        IsStored-Starting s param random (Starting-start_activation s param random) w
    IsStored-Step {s} (Step.validate param) h w =
        IsStored-Validating s param (Validating-validate_activation_response s param) w
    IsStored-Step {s} (Step.complete keys draws) h w =
        IsStored-Completing s keys draws (Completing-complete_activation s keys draws) w
    IsStored-Step {s} (Step.sign request keys factor draws) h w =
        IsStored-Signing s factor (Signing-sign_http_request s request factor draws keys) w
    IsStored-Step {s} (Step.change_password old_password new_password draws) h w =
        IsStored-change_user_password s w old_password new_password draws h
    IsStored-Step {s} (Step.add_biometry c_vault_key keys) h w =
        IsStored-add_biometry_factor aes s c_vault_key keys w
    IsStored-Step {s} Step.remove_biometry h w = IsStored-remove_biometry_factor s w
    IsStored-Step {s} (Step.derive_key c_vault_key keys key_index) h w =
        IsStored-derive s w c_vault_key keys key_index
    IsStored-Step {s} (Step.sign_data c_vault_key keys in_data) h w =
        IsStored-sign_data s w c_vault_key keys in_data
    IsStored-Step {s} (Step.set_eek key) h w =
        subst IsStored (sym (set_external_encryption_key_keeps s key).1) w
    IsStored-Step {s} (Step.add_eek key) h w = IsStored-add_external_encryption_key s w key
    IsStored-Step {s} Step.remove_eek h w = IsStored-remove_external_encryption_key s w

    IsStored-Reachable :
        {setup : SessionSetup} {s : Session} (r : Reachable setup s) → AllSized r → IsStored s.pd
    unfolding AllSized
    IsStored-Reachable Reachable.constructed h = unfold session in tt
    IsStored-Reachable (Reachable.called r step) (h, k) =
        IsStored-Step step k (IsStored-Reachable r h)

    -- The persistent data of a session that calls can reach from its construction always pass the
    -- validation, failed calls included: the signature keys have their sizes, there are enough
    -- rounds, the salt has 16 bytes, and identifier and keys are there. The generator gives 16 bytes
    -- when it gives a salt for a new password, and AES keeps sizes.
    pub Reachable-validate_persistent_data :
        (setup : SessionSetup) (s : Session) (pd : PersistentData) (r : Reachable setup s)
        → AllSized r
        → s.pd ≡ some pd
        → validate_persistent_data pd ≡ true
    Reachable-validate_persistent_data setup s pd r h e =
        validate_persistent_data-IsWhole pd (subst IsStored e (IsStored-Reachable r h))
