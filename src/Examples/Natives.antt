-- ===== src/Examples/Natives.antt =====
-- The theorem on native calls at concrete Java objects.
use lime_security_powerauth.Base.{List, [], ◌∷◌, none, some, Option, Bytes}
use lime_security_powerauth.Session.{Session, session}
use lime_security_powerauth.Jni.Objects.{
  Jni, JavaSetup, JavaStep1Param, JavaStep2Param, JavaUnlockKeys, JavaPassword, copied_setup,
}
use lime_security_powerauth.Jni.Refines.Runs.{meant_run}
use lime_security_powerauth.Jni.Refines.Calls.{NativeCall, Report}
use lime_security_powerauth.Examples.Instances.{test_cc, test_ssl}
use lime_security_powerauth.Examples.Data.{
  test_setup, test_step1, test_step2, test_unlock_keys, test_random, test_draws,
}

abbrev empty_or : Option Bytes → Bytes
empty_or none = []
empty_or (some d) = d

-- Strings and arrays are copied byte by byte, and a null reference as the empty one.
abbrev test_jni : Jni
test_jni = record {
  copy_from_java_string = empty_or;
  copy_from_java_byte_array = empty_or;
  copy_to_java_string = λ d. some d;
  copy_to_java_byte_array = λ d. some d;
}

abbrev test_java_setup : JavaSetup
test_java_setup = record {
  application_key = some (test_setup.application_key);
  application_secret = some (test_setup.application_secret);
  master_server_public_key = some (test_setup.master_server_public_key);
  session_identifier = 7;
  external_encryption_key = none;
}

abbrev test_java_step1 : JavaStep1Param
test_java_step1 = record {
  activation_id_short = some (test_step1.activation_id_short);
  activation_otp = some (test_step1.activation_otp);
  activation_signature = some (test_step1.activation_signature);
}

abbrev test_java_step2 : JavaStep2Param
test_java_step2 = record {
  activation_id = some (test_step2.activation_id);
  ephemeral_nonce = some (test_step2.ephemeral_nonce);
  ephemeral_public_key = some (test_step2.ephemeral_public_key);
  encrypted_server_public_key = some (test_step2.encrypted_server_public_key);
  server_data_signature = some (test_step2.server_data_signature);
}

abbrev test_java_keys : JavaUnlockKeys
test_java_keys = record {
  possession_unlock_key = some (test_unlock_keys.possession_unlock_key);
  biometry_unlock_key = none;
  user_password = some (record {
    handle = some (record { pass = test_unlock_keys.user_password; char_pos = none });
  });
}

abbrev java_password : Bytes → Option JavaPassword
java_password d = some (record { handle = some (record { pass = d; char_pos = none }) })

abbrev test_calls : List NativeCall
test_calls =
    NativeCall.start (some test_java_step1) test_random
    ∷ NativeCall.validate (some test_java_step2)
    ∷ NativeCall.complete none test_draws
    ∷ NativeCall.complete (some test_java_keys) test_draws
    ∷ NativeCall.change_password (java_password (1 ∷ 2 ∷ 3 ∷ 4 ∷ []))
        (java_password (5 ∷ 6 ∷ 7 ∷ 8 ∷ [])) test_draws
    ∷ []

abbrev meant : Session × List Report
meant =
    meant_run ⦃jni = test_jni⦄ ⦃cc = test_cc⦄ ⦃ssl = test_ssl⦄ test_calls
      (session ⦃cc = test_cc⦄ ⦃ssl = test_ssl⦄ (copied_setup ⦃jni = test_jni⦄ test_java_setup))
