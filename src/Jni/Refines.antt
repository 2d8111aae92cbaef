-- ===== src/Jni/Refines.antt =====
-- The native methods do what the calls of Session do that they stand for.
pub mod Calls
pub mod Runs
use lime_security_powerauth.Base.{◌≡◌, Option, some}
use lime_security_powerauth.Platform.{Cc7, OpenSsl}
use lime_security_powerauth.Session.{Session}
use lime_security_powerauth.Jni.Objects.{Jni}
use lime_security_powerauth.Jni.Refines.Calls.{NativeCall, SessionCall, Report}
use lime_security_powerauth.Jni.Refines.Runs.{meant_by}

module _ ⦃jni : Jni⦄ ⦃cc : Cc7⦄ ⦃ssl : OpenSsl⦄ where
  abbrev held : {A : Type 0} → Session × A → Option Session × A
  held r = (some r.0, r.1)

  -- The native methods once the other references are there.
  module _ (s : Session) where
    abbrev Agrees : NativeCall → Option Session × Report → Option SessionCall → Type 0
    Agrees c r o = r ≡ held (meant_by c s o)
