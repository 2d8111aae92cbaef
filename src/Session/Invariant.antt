-- ===== src/Session/Invariant.antt =====
-- src/PowerAuth/Session.cpp: the state of a session and its data agree, whatever is called.
pub mod Stored
use lime_security_powerauth.Base.{
  ℕ, ◌≡◌, refl, Bool, true, false, Option, none, some, Bytes, arith, if◌then◌else◌, ◌||◌,
}
use lime_security_powerauth.Platform.{Cc7, OpenSsl}
use lime_security_powerauth.Crypto.Prng.{Draws}
use lime_security_powerauth.Protocol.Types.{
  SessionSetup, ActivationData, PersistentData, SignatureUnlockKeys, ErrorCode,
}
use lime_security_powerauth.Protocol.Validation.{validate_session_setup}
use lime_security_powerauth.Session.{
  Session, State, is_state, session, has_valid_setup, can_start_activation, has_pending_activation,
  has_valid_activation, reset_session, commit_new_persistent_state,
}
use lime_security_powerauth.Session.Activation.{
  ActivationStep1Param, ActivationStep2Param, ActivationStep1Result, Step1Random, start_activation,
  validate_activation_response, complete_activation,
}
use lime_security_powerauth.Session.Activation.Chains.{HasKeys, HasSecret}
use lime_security_powerauth.Session.Activation.Outcomes.{Starting, Validating, Completing}
use lime_security_powerauth.Session.Activation.Cases.{
  Starting-start_activation, Validating-validate_activation_response,
  Completing-complete_activation,
}
use lime_security_powerauth.Session.Factors.{
  set_external_encryption_key, add_external_encryption_key, remove_external_encryption_key,
  change_user_password, remove_biometry_factor,
}
use lime_security_powerauth.Session.Factors.Cases.{
  Changing-change_user_password, Changing→Keeps, Adding-add_external_encryption_key, Adding→Keeps,
  Atomic-remove_external_encryption_key, Atomic-remove_biometry_factor,
  set_external_encryption_key_keeps,
}
use lime_security_powerauth.Session.Outcome.{Keeps, unchanged, updated, activated-of, Atomic→Keeps}
use lime_security_powerauth.Session.Signing.{HttpRequest, sign_http_request}
use lime_security_powerauth.Session.Signing.Cases.{Signing-sign_http_request, Signing→Keeps}
use lime_security_powerauth.Session.Storage.{load_session_state}
use lime_security_powerauth.Session.Storage.Cases.{Loading, Loading-load_session_state}
use lime_security_powerauth.Session.Vault.{
  derive_cryptographic_key_from_vault_key, sign_data_with_device_private_key, add_biometry_factor,
}
use lime_security_powerauth.Session.Vault.Cases.{
  Keeps-derive, Keeps-sign_data, Keeps-add_biometry_factor,
}

-- Which data go with which state.
pub data IsConsistent : State → Option PersistentData → Option ActivationData → Type 0 where
  invalid : IsConsistent State.invalid none none
  empty : IsConsistent State.empty none none
  activation1 : (ad : ActivationData) → HasKeys ad → IsConsistent State.activation1 none (some ad)
  activation2 : (ad : ActivationData) → HasSecret ad → IsConsistent State.activation2 none (some ad)
  activated : (pd : PersistentData) → IsConsistent State.activated (some pd) none

abbrev pub IsValid : Session → Type 0
IsValid s = IsConsistent s.state s.pd s.ad

-- A valid session has a valid activation just in the state Activated.
activated-state :
    (s : Session) → has_valid_activation s ≡ true → (s.state ≡ State.activated) × (s.ad ≡ none)
unfolding has_valid_activation has_valid_setup
activated-state s e = ground arith

no-data : (s : Session) → can_start_activation s ≡ true → s.pd ≡ none
unfolding can_start_activation
no-data s e = ground arith

keys-of :
    {t : State} {p : Option PersistentData} {o : Option ActivationData} {ad : ActivationData}
    → t ≡ State.activation1
    → o ≡ some ad
    → IsConsistent t p o
    → HasKeys ad
keys-of e a invalid = cc
keys-of e a empty = cc
keys-of e a (activation1 ad h) = ground arith
keys-of e a (activation2 ad h) = cc
keys-of e a (activated pd) = cc

Keeps-IsValid : {s t : Session} → Keeps s t → IsValid s → IsValid t
Keeps-IsValid unchanged v = v
Keeps-IsValid {s = s} (updated pd pd' setup' e) v =
    let h = activated-state s (activated-of s pd e).0 in rw (h.0, h.1) (activated pd')

module _ ⦃cc : Cc7⦄ ⦃ssl : OpenSsl⦄ where
  IsValid-session : (setup : SessionSetup) → IsValid (session setup)
  unfolding session
  IsValid-session setup = go (validate_session_setup setup false)
    where
      go : (b : Bool) → IsConsistent (if b then State.empty else State.invalid) none none
      go true = empty
      go false = invalid

  Starting-IsValid :
      {s : Session} {param : ActivationStep1Param} {random : Step1Random}
      {r : Session × ErrorCode × Option ActivationStep1Result}
      → Starting s param random r
      → IsValid s
      → IsValid r.0
  Starting-IsValid (Starting.misplaced c) v = v
  Starting-IsValid (Starting.incomplete c p) v = v
  Starting-IsValid (Starting.failed c p) v = v
  Starting-IsValid (Starting.unsigned result c u) v = v
  Starting-IsValid {s = s} (Starting.started ad result c e u h) v =
      rw (no-data s c) (activation1 ad h)

  Validating-IsValid :
      {s : Session} {param : ActivationStep2Param} {r : Session × ErrorCode × Option Bytes}
      → Validating s param r
      → IsValid s
      → IsValid r.0
  Validating-IsValid (Validating.misplaced c) v = v
  Validating-IsValid (Validating.incomplete c p) v = v
  Validating-IsValid (Validating.dropped e m f) v = empty
  Validating-IsValid (Validating.misprinted ad ad' hk e m a f l) v = empty
  Validating-IsValid (Validating.accepted ad ad' hk e p a m f l h) v =
      rw p (activation2 ad' (h (keys-of e a v)))

  Completing-IsValid :
      {s : Session} {keys : SignatureUnlockKeys} {draws : Draws} {r : Session × ErrorCode}
      → Completing s keys draws r
      → IsValid s
      → IsValid r.0
  Completing-IsValid (Completing.misplaced c) v = v
  Completing-IsValid (Completing.keyless c k) v = v
  Completing-IsValid (Completing.dropped e k f) v = empty
  Completing-IsValid (Completing.completed pd e k f p) v = activated pd

  Loading-IsValid :
      {s : Session} {b : Bytes} {r : Session × ErrorCode} → Loading s b r → IsValid r.0
  Loading-IsValid (Loading.malformed e) = empty
  Loading-IsValid (Loading.without_activation e) = empty
  Loading-IsValid (Loading.restored pd e w) = activated pd

  set_external_encryption_key-IsValid :
      (s : Session) (key : Bytes) → IsValid s → IsValid (set_external_encryption_key s key).0
  set_external_encryption_key-IsValid s key v =
      let h = set_external_encryption_key_keeps s key in rw (h.0, h.1, h.2) v

  -- One call of a method of Session that may change it. Probes, `decodeActivationStatus` and
  -- `saveSessionState` change nothing.
  pub data Step (s : Session) : Session → Type 0 where
    reset : Step s (reset_session s)
    load : (b : Bytes) → Step s (load_session_state b s).0
    start :
        (param : ActivationStep1Param) (random : Step1Random)
        → Step s (start_activation s param random).0
    validate : (param : ActivationStep2Param) → Step s (validate_activation_response s param).0
    complete :
        (keys : SignatureUnlockKeys) (draws : Draws) → Step s (complete_activation s keys draws).0
    sign :
        (request : HttpRequest) (keys : SignatureUnlockKeys) (factor : ℕ) (draws : Draws)
        → Step s (sign_http_request s request keys factor draws).0
    change_password :
        (old_password new_password : Bytes) (draws : Draws)
        → Step s (change_user_password s old_password new_password draws).0
    add_biometry :
        (c_vault_key : Bytes) (keys : SignatureUnlockKeys)
        → Step s (add_biometry_factor s c_vault_key keys).0
    remove_biometry : Step s (remove_biometry_factor s).0
    derive_key :
        (c_vault_key : Bytes) (keys : SignatureUnlockKeys) (key_index : ℕ)
        → Step s (derive_cryptographic_key_from_vault_key s c_vault_key keys key_index).0
    sign_data :
        (c_vault_key : Bytes) (keys : SignatureUnlockKeys) (in_data : Bytes)
        → Step s (sign_data_with_device_private_key s c_vault_key keys in_data).0
    set_eek : (key : Bytes) → Step s (set_external_encryption_key s key).0
    add_eek : (key : Bytes) → Step s (add_external_encryption_key s key).0
    remove_eek : Step s (remove_external_encryption_key s).0

  pub data Reachable (setup : SessionSetup) : Session → Type 0 where
    constructed : Reachable setup (session setup)
    called : {s t : Session} → Reachable setup s → Step s t → Reachable setup t

  -- Every call that may change a session, whatever it is given and whatever it reports, takes a
  -- session whose data agree with its state to another one: no persistent data and no activation
  -- data when invalid or empty, activation data with the device's and the master server's keys in
  -- Activation1, those with a shared secret of 16 bytes in Activation2, and persistent data alone in
  -- Activated.
  pub Step-IsValid : {s t : Session} → Step s t → IsValid s → IsValid t
  Step-IsValid reset v = unfold reset_session commit_new_persistent_state in empty
  Step-IsValid {s = s} (load b) v = Loading-IsValid (Loading-load_session_state s b)
  Step-IsValid {s = s} (start param random) v =
      Starting-IsValid (Starting-start_activation s param random) v
  Step-IsValid {s = s} (validate param) v =
      Validating-IsValid (Validating-validate_activation_response s param) v
  Step-IsValid {s = s} (complete keys draws) v =
      Completing-IsValid (Completing-complete_activation s keys draws) v
  Step-IsValid {s = s} (sign request keys factor draws) v =
      Keeps-IsValid (Signing→Keeps (Signing-sign_http_request s request factor draws keys)) v
  Step-IsValid {s = s} (change_password old_password new_password draws) v =
      Keeps-IsValid
        (Changing→Keeps (Changing-change_user_password s old_password new_password draws)) v
  Step-IsValid {s = s} (add_biometry c_vault_key keys) v =
      Keeps-IsValid (Keeps-add_biometry_factor s c_vault_key keys) v
  Step-IsValid {s = s} remove_biometry v =
      Keeps-IsValid (Atomic→Keeps (Atomic-remove_biometry_factor s)) v
  Step-IsValid {s = s} (derive_key c_vault_key keys key_index) v =
      Keeps-IsValid (Keeps-derive s c_vault_key keys key_index) v
  Step-IsValid {s = s} (sign_data c_vault_key keys in_data) v =
      Keeps-IsValid (Keeps-sign_data s c_vault_key keys in_data) v
  Step-IsValid {s = s} (set_eek key) v = set_external_encryption_key-IsValid s key v
  Step-IsValid {s = s} (add_eek key) v =
      Keeps-IsValid (Adding→Keeps (Adding-add_external_encryption_key s key)) v
  Step-IsValid {s = s} remove_eek v =
      Keeps-IsValid (Atomic→Keeps (Atomic-remove_external_encryption_key s)) v

  -- The data of every session that calls can reach from its construction agree with its state.
  pub Reachable-IsValid : {setup : SessionSetup} {s : Session} → Reachable setup s → IsValid s
  Reachable-IsValid {setup = setup} constructed = IsValid-session setup
  Reachable-IsValid (called r step) = Step-IsValid step (Reachable-IsValid r)

  probes :
      {t : State} {p : Option PersistentData} {a : Option ActivationData} (setup : SessionSetup)
      → IsConsistent t p a
      → let s : Session = record { state = t; setup = setup; pd = p; ad = a } in
        (can_start_activation s ≡ is_state t State.empty)
        × (has_pending_activation s
            ≡ (is_state t State.activation1 || is_state t State.activation2))
        × (has_valid_activation s ≡ is_state t State.activated)
  unfolding can_start_activation has_pending_activation has_valid_activation has_valid_setup
  probes setup invalid = (refl, refl, refl)
  probes setup empty = (refl, refl, refl)
  probes setup (activation1 ad h) = (refl, refl, refl)
  probes setup (activation2 ad h) = (refl, refl, refl)
  probes setup (activated pd) = (refl, refl, refl)

  -- In every reachable session the probes say what the state says, so that exactly one of them
  -- holds unless the session is invalid: an activation may start just in Empty, one is pending just
  -- in Activation1 and Activation2, and there is a valid one just in Activated.
  pub Reachable-probes :
      (setup : SessionSetup) (s : Session)
      → Reachable setup s
      → (can_start_activation s ≡ is_state s.state State.empty)
        × (has_pending_activation s
            ≡ (is_state s.state State.activation1 || is_state s.state State.activation2))
        × (has_valid_activation s ≡ is_state s.state State.activated)
  Reachable-probes setup s r = probes s.setup (Reachable-IsValid r)
