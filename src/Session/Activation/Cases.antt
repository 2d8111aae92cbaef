-- ===== src/Session/Activation/Cases.antt =====
-- What each of the three steps of an activation does on its branches.
use lime_security_powerauth.Base.{
  ◌≡◌, refl, ap, ◌∙◌, ◌&&◌, true, false, not, Option, none, some, is_empty, Bytes, length, ◌==◌,
  arith, if-cases, ◌||◌,
}
use lime_security_powerauth.Platform.{Cc7, OpenSsl}
use lime_security_powerauth.Crypto.Prng.{Draws}
use lime_security_powerauth.Protocol.Constants.{sf_first_lock, hk_device_public_key_size}
use lime_security_powerauth.Protocol.Types.{ActivationData, PersistentData, SignatureUnlockKeys}
use lime_security_powerauth.Protocol.Validation.{validate_unlock_keys}
use lime_security_powerauth.Session.{
  Session, State, is_state, has_valid_setup, can_start_activation, has_pending_activation,
  commit_new_persistent_state, change_state, reset_session, eek,
}
use lime_security_powerauth.Session.Activation.{
  ActivationStep1Param, ActivationStep1Result, ActivationStep2Param, Step1Random, ◌>>=◌, step1_data,
  step1_result, finish_step1, start_activation, step2, finish_step2, misses_param,
  validate_activation_response, step3, finish_step3, complete_activation,
}
use lime_security_powerauth.Session.Activation.Chains.{
  HasKeys, HasKeys-step1_data, HasKeys-step1_result, HasSecret-step2, validated-step3,
}
use lime_security_powerauth.Session.Activation.Outcomes.{Starting, Validating, Completing}

module _ ⦃cc : Cc7⦄ ⦃ssl : OpenSsl⦄ (s : Session) where
  HasKeys-steps :
      (param : ActivationStep1Param) (random : Step1Random)
      (r : ActivationData × ActivationStep1Result)
      → (step1_data s param random >>= step1_result s param) ≡ some r
      → HasKeys r.0
  HasKeys-steps param random r = go (step1_data s param random) refl
    where
      go :
          (o : Option ActivationData)
          → step1_data s param random ≡ o
          → (o >>= step1_result s param) ≡ some r
          → HasKeys r.0
      go none f e = ground arith
      go (some ad) f e =
          HasKeys-step1_result s param ad r (HasKeys-step1_data s param random ad f) e

  Starting-finish_step1 :
      (param : ActivationStep1Param) (random : Step1Random)
      (o : Option (ActivationData × ActivationStep1Result))
      → can_start_activation s ≡ true
      → (step1_data s param random >>= step1_result s param) ≡ o
      → Starting s param random (finish_step1 s o)
  unfolding finish_step1 change_state
  Starting-finish_step1 param random none c e = Starting.failed c e
  Starting-finish_step1 param random (some (ad, result)) c e =
      if-cases (Starting s param random) (is_empty result.application_signature)
        (λ u. Starting.unsigned result c u)
        (λ u. Starting.started ad result c e u (HasKeys-steps param random (ad, result) e))

  pub Starting-start_activation :
      (param : ActivationStep1Param) (random : Step1Random)
      → Starting s param random (start_activation s param random)
  unfolding start_activation
  Starting-start_activation param random =
      if-cases (Starting s param random) (not (has_valid_setup s))
        (λ u. Starting.misplaced (unfold can_start_activation in ground (arith, u)))
        λ v.
          if-cases (Starting s param random) (not (can_start_activation s))
            (λ u. Starting.misplaced (ground (arith, u)))
            λ c.
              if-cases (Starting s param random)
                (is_empty param.activation_otp || is_empty param.activation_id_short)
                (λ p. Starting.incomplete (ground (arith, c)) p)
                λ p. Starting-finish_step1 param random _ (ground (arith, c)) refl

  pending-state :
      (t : State)
      → (not (has_pending_activation s) || not (is_state s.state t)) ≡ false
      → (s.state ≡ t) × (s.pd ≡ none)
  unfolding has_pending_activation
  pending-state t c = ground arith

  not_pending :
      (t : State)
      → (not (has_pending_activation s) || not (is_state s.state t)) ≡ true
      → (has_pending_activation s && is_state s.state t) ≡ false
  not_pending t c = ground (arith, c)

  Validating-finish_step2 :
      (param : ActivationStep2Param) (o : Option ActivationData)
      → s.state ≡ State.activation1
      → s.pd ≡ none
      → s.ad ≡ o
      → misses_param param ≡ false
      → Validating s param (finish_step2 s (o >>= step2 param))
  unfolding finish_step2 reset_session commit_new_persistent_state
  Validating-finish_step2 param none c d e m =
      Validating.dropped c m (ap (λ a. a >>= step2 param) e)
  Validating-finish_step2 param (some ad) c d e m = go (step2 param ad) refl
    where
      go :
          (p : Option (ActivationData × Bytes))
          → step2 param ad ≡ p
          → Validating s param (finish_step2 s p)
      go none f = Validating.dropped c m (ap (λ a. a >>= step2 param) e ∙ f)
      go (some (ad', hk)) f =
          if-cases (Validating s param) (not (length hk == hk_device_public_key_size))
            (λ l. Validating.misprinted ad ad' hk c m e f (ground (arith, l)))
            λ l.
              unfold change_state in
              Validating.accepted ad ad' hk c d e m f (ground (arith, l))
                (λ h. HasSecret-step2 param ad (ad', hk) h f)

  pub Validating-validate_activation_response :
      (param : ActivationStep2Param) → Validating s param (validate_activation_response s param)
  unfolding validate_activation_response
  Validating-validate_activation_response param =
      if-cases (Validating s param)
        (not (has_pending_activation s) || not (is_state s.state State.activation1))
        (λ u. Validating.misplaced (not_pending State.activation1 u))
        λ c.
          if-cases (Validating s param) (misses_param param)
            (λ m. Validating.incomplete (pending-state State.activation1 c).0 m)
            λ m.
              Validating-finish_step2 param s.ad (pending-state State.activation1 c).0
                (pending-state State.activation1 c).1 refl m

  Completing-finish_step3 :
      (keys : SignatureUnlockKeys) (draws : Draws) (o : Option ActivationData)
      → s.state ≡ State.activation2
      → validate_unlock_keys keys (eek s) sf_first_lock ≡ true
      → s.ad ≡ o
      → Completing s keys draws (finish_step3 s (o >>= step3 (eek s) keys draws))
  unfolding finish_step3 commit_new_persistent_state
  Completing-finish_step3 keys draws none c v e =
      Completing.dropped c v (ap (λ a. a >>= step3 (eek s) keys draws) e)
  Completing-finish_step3 keys draws (some ad) c v e = go (step3 (eek s) keys draws ad) refl
    where
      go :
          (p : Option PersistentData)
          → step3 (eek s) keys draws ad ≡ p
          → Completing s keys draws (finish_step3 s p)
      go none f = Completing.dropped c v (ap (λ a. a >>= step3 (eek s) keys draws) e ∙ f)
      go (some pd) f =
          Completing.completed pd c v (ap (λ a. a >>= step3 (eek s) keys draws) e ∙ f)
            (validated-step3 (eek s) keys draws ad pd f)

  -- Completing an activation leaves the session as it was with EC_WrongState just where none is in
  -- the state Activation2, and with EC_WrongParam where the unlock keys are not valid for the first
  -- lock. Otherwise it drops all data with EC_Encryption where a step fails, or makes the session
  -- activated with the persistent data of the steps, which pass the validation, and no activation
  -- data left.
  pub Completing-complete_activation :
      (keys : SignatureUnlockKeys) (draws : Draws)
      → Completing s keys draws (complete_activation s keys draws)
  unfolding complete_activation
  Completing-complete_activation keys draws =
      if-cases (Completing s keys draws)
        (not (has_pending_activation s) || not (is_state s.state State.activation2))
        (λ u. Completing.misplaced (not_pending State.activation2 u))
        λ c.
          if-cases (Completing s keys draws) (not (validate_unlock_keys keys (eek s) sf_first_lock))
            (λ v. Completing.keyless (pending-state State.activation2 c).0 (ground (arith, v)))
            λ v.
              Completing-finish_step3 keys draws s.ad (pending-state State.activation2 c).0
                (ground (arith, v)) refl
