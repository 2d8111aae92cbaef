-- ===== src/Session/Outcome.antt =====
-- src/PowerAuth/Session.cpp: what the calls on an activated session may do to the session.
use lime_security_powerauth.Base.{◌≡◌, Bool, true, false, some, arith, subst}
use lime_security_powerauth.Protocol.Types.{PersistentData, SessionSetup, ErrorCode}
use lime_security_powerauth.Protocol.Validation.Whole.{IsWhole, IsStored}
use lime_security_powerauth.Session.{Session, activation_data, has_valid_activation}

abbrev pub is_ok : ErrorCode → Bool
is_ok ErrorCode.ec_ok = true
is_ok _ = false

-- A call on a session with a valid activation: nothing changes, or the setup and the persistent
-- data do, never the state or the activation data.
pub data Keeps (s : Session) : Session → Type 0 where
  unchanged : Keeps s s
  updated :
      (pd pd' : PersistentData) (setup' : SessionSetup)
      → activation_data s ≡ some pd
      → Keeps s (record s { setup = setup'; pd = some pd' })

-- A call that fails leaves the session as it was.
pub data Atomic (s : Session) : Session × ErrorCode → Type 0 where
  refused : (code : ErrorCode) → is_ok code ≡ false → Atomic s (s, code)
  done :
      (pd pd' : PersistentData) (setup' : SessionSetup)
      → activation_data s ≡ some pd
      → Atomic s (record s { setup = setup'; pd = some pd' }, ErrorCode.ec_ok)

pub Atomic→Keeps : {s : Session} {r : Session × ErrorCode} → Atomic s r → Keeps s r.0
Atomic→Keeps (refused code e) = unchanged
Atomic→Keeps (done pd pd' setup' e) = updated pd pd' setup' e

-- The valid activation behind the activation's data.
pub activated-of :
    (s : Session) (pd : PersistentData)
    → activation_data s ≡ some pd
    → (has_valid_activation s ≡ true) × (s.pd ≡ some pd)
unfolding activation_data
activated-of s pd e = ground arith

-- What holds of the data of a session holds of those of its valid activation.
pub IsWhole-activation_data :
    (s : Session) {pd : PersistentData} → activation_data s ≡ some pd → IsStored s.pd → IsWhole pd
IsWhole-activation_data s {pd} e w = subst IsStored (activated-of s pd e).1 w

-- The data of the session are whole after a call.
pub record IsHeld (r : Session × ErrorCode) : Type 0 where
  pub stored : IsStored r.0.pd
