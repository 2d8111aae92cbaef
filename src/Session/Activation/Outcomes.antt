-- ===== src/Session/Activation/Outcomes.antt =====
-- The outcomes of the three steps of an activation, each with its condition.
use lime_security_powerauth.Base.{
  ◌≡◌, ◌&&◌, true, false, Option, none, some, is_empty, Bytes, length, ◌==◌, ◌||◌,
}
use lime_security_powerauth.Platform.{Cc7, OpenSsl}
use lime_security_powerauth.Crypto.Prng.{Draws}
use lime_security_powerauth.Protocol.Constants.{sf_first_lock, hk_device_public_key_size}
use lime_security_powerauth.Protocol.Types.{
  ErrorCode, ActivationData, PersistentData, SignatureUnlockKeys,
}
use lime_security_powerauth.Protocol.Validation.{validate_persistent_data, validate_unlock_keys}
use lime_security_powerauth.Session.{
  Session, State, is_state, can_start_activation, has_pending_activation, eek,
}
use lime_security_powerauth.Session.Activation.{
  ActivationStep1Param, ActivationStep1Result, ActivationStep2Param, Step1Random, ◌>>=◌, step1_data,
  step1_result, step2, misses_param, step3,
}
use lime_security_powerauth.Session.Activation.Chains.{HasKeys, HasSecret}

-- A session without any data, as after a reset.
abbrev pub emptied : Session → Session
emptied s = record s { state = State.empty; pd = none; ad = none }

module _ ⦃cc : Cc7⦄ ⦃ssl : OpenSsl⦄ where
  pub data Starting (s : Session) (param : ActivationStep1Param) (random : Step1Random)
      : Session × ErrorCode × Option ActivationStep1Result → Type 0 where
    misplaced :
        can_start_activation s ≡ false → Starting s param random (s, ErrorCode.ec_wrong_state, none)
    incomplete :
        can_start_activation s ≡ true
        → (is_empty param.activation_otp || is_empty param.activation_id_short) ≡ true
        → Starting s param random (s, ErrorCode.ec_wrong_param, none)
    failed :
        can_start_activation s ≡ true
        → (step1_data s param random >>= step1_result s param) ≡ none
        → Starting s param random (s, ErrorCode.ec_encryption, none)
    unsigned :
        (result : ActivationStep1Result)
        → can_start_activation s ≡ true
        → is_empty result.application_signature ≡ true
        → Starting s param random (s, ErrorCode.ec_encryption, some result)
    started :
        (ad : ActivationData) (result : ActivationStep1Result)
        → can_start_activation s ≡ true
        → (step1_data s param random >>= step1_result s param) ≡ some (ad, result)
        → is_empty result.application_signature ≡ false
        → HasKeys ad
        → Starting s param random
            (record s { state = State.activation1; ad = some ad }, ErrorCode.ec_ok, some result)

  pub data Validating (s : Session) (param : ActivationStep2Param)
      : Session × ErrorCode × Option Bytes → Type 0 where
    misplaced :
        (has_pending_activation s && is_state s.state State.activation1) ≡ false
        → Validating s param (s, ErrorCode.ec_wrong_state, none)
    incomplete :
        s.state ≡ State.activation1
        → misses_param param ≡ true
        → Validating s param (s, ErrorCode.ec_wrong_state, none)
    dropped :
        s.state ≡ State.activation1
        → misses_param param ≡ false
        → (s.ad >>= step2 param) ≡ none
        → Validating s param (emptied s, ErrorCode.ec_encryption, none)
    misprinted :
        (ad ad' : ActivationData) (hk_device_public_key : Bytes)
        → s.state ≡ State.activation1
        → misses_param param ≡ false
        → s.ad ≡ some ad
        → step2 param ad ≡ some (ad', hk_device_public_key)
        → (length hk_device_public_key == hk_device_public_key_size) ≡ false
        → Validating s param (emptied s, ErrorCode.ec_encryption, some hk_device_public_key)
    accepted :
        (ad ad' : ActivationData) (hk_device_public_key : Bytes)
        → s.state ≡ State.activation1
        → s.pd ≡ none
        → s.ad ≡ some ad
        → misses_param param ≡ false
        → step2 param ad ≡ some (ad', hk_device_public_key)
        → length hk_device_public_key ≡ 8
        → (HasKeys ad → HasSecret ad')
        → Validating s param (
          record s { state = State.activation2; ad = some ad' },
          ErrorCode.ec_ok,
          some hk_device_public_key,
        )

  pub data Completing (s : Session) (keys : SignatureUnlockKeys) (draws : Draws)
      : Session × ErrorCode → Type 0 where
    misplaced :
        (has_pending_activation s && is_state s.state State.activation2) ≡ false
        → Completing s keys draws (s, ErrorCode.ec_wrong_state)
    keyless :
        s.state ≡ State.activation2
        → validate_unlock_keys keys (eek s) sf_first_lock ≡ false
        → Completing s keys draws (s, ErrorCode.ec_wrong_param)
    dropped :
        s.state ≡ State.activation2
        → validate_unlock_keys keys (eek s) sf_first_lock ≡ true
        → (s.ad >>= step3 (eek s) keys draws) ≡ none
        → Completing s keys draws (emptied s, ErrorCode.ec_encryption)
    completed :
        (pd : PersistentData)
        → s.state ≡ State.activation2
        → validate_unlock_keys keys (eek s) sf_first_lock ≡ true
        → (s.ad >>= step3 (eek s) keys draws) ≡ some pd
        → validate_persistent_data pd ≡ true
        → Completing s keys draws
            (record s { state = State.activated; pd = some pd; ad = none }, ErrorCode.ec_ok)
