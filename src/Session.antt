-- ===== src/Session.antt =====
-- src/PowerAuth/Session.cpp: the state of a session, its probes and the commit of a new state.
pub mod Storage
pub mod Status
pub mod KeyValues
pub mod Activation
pub mod Signing
pub mod Vault
pub mod Factors
pub mod Encryptors
pub mod Outcome
pub mod Invariant
use lime_security_powerauth.Base.{
  ℕ, Bool, true, false, not, ◌&&◌, ◌||◌, [], Option, none, some, ◌==◌, if◌then◌else◌, Bytes, length,
}
use lime_security_powerauth.Platform.{Cc7, OpenSsl}
use lime_security_powerauth.Protocol.Constants.{signature_key_size}
use lime_security_powerauth.Protocol.Types.{SessionSetup, PersistentData, ActivationData, ErrorCode}
use lime_security_powerauth.Protocol.Validation.{validate_session_setup}

pub data State : Type 0 where
  invalid empty activation1 activation2 activated : State

pub record Session : Type 0 where
  pub state : State
  pub setup : SessionSetup
  pub pd : Option PersistentData
  pub ad : Option ActivationData

abbrev pub is_state : State → State → Bool
is_state State.invalid State.invalid = true
is_state State.empty State.empty = true
is_state State.activation1 State.activation1 = true
is_state State.activation2 State.activation2 = true
is_state State.activated State.activated = true
is_state _ _ = false

abbrev pub is_none {ℓ} : {A : Type ℓ} → Option A → Bool
is_none none = true
is_none (some a) = false

-- The constructor: the setup decides between an invalid and an empty session.
unfoldable pub session : ⦃cc : Cc7⦄ ⦃ssl : OpenSsl⦄ → SessionSetup → Session
session setup = record {
  state = (if validate_session_setup setup false then State.empty else State.invalid);
  setup = setup;
  pd = none;
  ad = none;
}

-- `_state >= SS_Empty`
unfoldable pub has_valid_setup : Session → Bool
has_valid_setup s = not (is_state s.state State.invalid)

unfoldable pub session_setup : Session → Option SessionSetup
unfolding has_valid_setup
session_setup s = if has_valid_setup s then some s.setup else none

unfoldable pub session_identifier : Session → ℕ
unfolding has_valid_setup
session_identifier s = if has_valid_setup s then s.setup.session_identifier else 0

unfoldable pub can_start_activation : Session → Bool
unfolding has_valid_setup
can_start_activation s = has_valid_setup s && is_none s.pd && is_none s.ad

unfoldable pub has_pending_activation : Session → Bool
has_pending_activation s =
    (is_state s.state State.activation1 || is_state s.state State.activation2)
    && is_none s.pd
    && not (is_none s.ad)

unfoldable pub has_valid_activation : Session → Bool
unfolding has_valid_setup
has_valid_activation s =
    is_state s.state State.activated && has_valid_setup s && not (is_none s.pd) && is_none s.ad

-- The data of a session with a valid activation.
unfoldable pub activation_data : Session → Option PersistentData
unfolding has_valid_activation
activation_data s = if has_valid_activation s then s.pd else none

unfoldable pub change_state : State → Session → Session
change_state new_state s =
    if not (is_state new_state State.invalid) then record s { state = new_state } else s

committed : Option PersistentData → State → Session → Session
unfolding change_state
committed (some new_pd) State.activated s =
    change_state State.activated (record s { ad = none; pd = some new_pd })
committed _ _ s = change_state State.empty (record s { ad = none; pd = none })

unfoldable pub commit_new_persistent_state : Option PersistentData → State → Session → Session
unfolding committed
commit_new_persistent_state new_pd new_state s = committed new_pd new_state s

unfoldable pub reset_session : Session → Session
unfolding commit_new_persistent_state
reset_session s = commit_new_persistent_state none State.empty s

-- The external encryption key, `none` for a null pointer.
unfoldable pub eek : Session → Option Bytes
unfolding has_valid_setup
eek s =
    if has_valid_setup s && length s.setup.external_encryption_key == signature_key_size
    then some s.setup.external_encryption_key
    else none

unfoldable pub has_external_encryption_key : Session → Bool
unfolding eek
has_external_encryption_key s = not (is_none (eek s))

identifier_of : Option PersistentData → Bytes
identifier_of none = []
identifier_of (some pd) = pd.activation_id

unfoldable pub activation_identifier : Session → Bytes
unfolding identifier_of activation_data
activation_identifier s = identifier_of (activation_data s)

-- A call that leaves the session as it is and reports `code`.
abbrev pub refuse : ErrorCode → Session → Session × ErrorCode
refuse code s = (s, code)
