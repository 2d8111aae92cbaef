-- ===== src/Jni/Probes.antt =====
-- src/PowerAuth/jni/SessionJNI.cpp: the probes of the Java class Session.
use lime_security_powerauth.Base.{Bool, false, Option, none, some, not, if◌then◌else◌}
use lime_security_powerauth.Platform.{Cc7}
use lime_security_powerauth.Protocol.Types.{SessionSetup}
use lime_security_powerauth.Session.{
  Session, session_setup, has_valid_setup, can_start_activation, has_pending_activation,
  has_valid_activation, activation_identifier, has_external_encryption_key,
}
use lime_security_powerauth.Session.Factors.{has_biometry_factor}
use lime_security_powerauth.Session.Storage.{save_session_state}
use lime_security_powerauth.Jni.Objects.{Jni, JavaString, JavaBytes, JavaSetup, java_setup}

-- A probe answers false for a missing handle.
probe : (Session → Bool) → Option Session → Bool
probe answer none = false
probe answer (some s) = answer s

unfoldable pub has_valid_setup_native : Option Session → Bool
unfolding probe
has_valid_setup_native = probe has_valid_setup

unfoldable pub can_start_activation_native : Option Session → Bool
unfolding probe
can_start_activation_native = probe can_start_activation

unfoldable pub has_pending_activation_native : Option Session → Bool
unfolding probe
has_pending_activation_native = probe has_pending_activation

unfoldable pub has_valid_activation_native : Option Session → Bool
unfolding probe
has_valid_activation_native = probe has_valid_activation

unfoldable pub has_external_encryption_key_native : Option Session → Bool
unfolding probe
has_external_encryption_key_native = probe has_external_encryption_key

-- The error code is ignored, and the answer is what the call leaves in its result.
unfoldable pub has_biometry_factor_native : Option Session → Bool
unfolding probe
has_biometry_factor_native = probe (λ s. (has_biometry_factor s).1)

module _ ⦃jni : Jni⦄ where
  setup_of : Session → Option SessionSetup → Option JavaSetup
  setup_of s none = none
  setup_of s (some setup) = some (java_setup (has_external_encryption_key s) setup)

  unfoldable pub get_session_setup : Option Session → Option JavaSetup
  unfolding setup_of
  get_session_setup none = none
  get_session_setup (some s) = setup_of s (session_setup s)

  unfoldable pub get_activation_identifier : Option Session → Option JavaString
  get_activation_identifier none = none
  get_activation_identifier (some s) =
      if not (has_valid_activation s)
      then none
      else jni.copy_to_java_string (activation_identifier s)

  module _ ⦃cc : Cc7⦄ where
    unfoldable pub serialized_state : Option Session → Option JavaBytes
    serialized_state none = none
    serialized_state (some s) = jni.copy_to_java_byte_array (save_session_state s)
