-- ===== src/Examples/Data.antt =====
-- Setups, keys, persistent data and sessions to apply the theorems to.
use lime_security_powerauth.Base.{ℕ, ◌+◌, false, [], ◌∷◌, ◌++◌, none, some, Bytes, replicate}
use lime_security_powerauth.Protocol.Types.{
  SessionSetup, SignatureKeys, SignatureUnlockKeys, PersistentData,
}
use lime_security_powerauth.Crypto.Prng.{Draws}
use lime_security_powerauth.Session.{Session, State}
use lime_security_powerauth.Session.Activation.{
  ActivationStep1Param, ActivationStep2Param, Step1Random,
}
use lime_security_powerauth.Session.Signing.{HttpRequest}
use lime_security_powerauth.Protocol.Constants.{codes}

abbrev pub sixteen : ℕ → Bytes
sixteen b = replicate 16 b

abbrev pub test_draws : Draws
test_draws i = some (sixteen (3 + i))

abbrev pub test_setup : SessionSetup
test_setup = record {
  application_key = 1 ∷ [];
  application_secret = 2 ∷ [];
  master_server_public_key = 3 ∷ [];
  session_identifier = 7;
  external_encryption_key = [];
}

abbrev pub test_unlock_keys : SignatureUnlockKeys
test_unlock_keys = record {
  possession_unlock_key = sixteen 1;
  biometry_unlock_key = [];
  user_password = 1 ∷ 2 ∷ 3 ∷ 4 ∷ [];
}

abbrev pub test_signature_keys : SignatureKeys
test_signature_keys = record {
  possession_key = sixteen 1;
  knowledge_key = sixteen 2;
  biometry_key = [];
  transport_key = sixteen 4;
  uses_external_key = false;
}

-- Data that wait for a vault request.
abbrev pub test_pd : PersistentData
test_pd = record {
  signature_counter = 9;
  activation_id = 65 ∷ 66 ∷ [];
  password_iterations = 10000;
  password_salt = sixteen 8;
  sk = test_signature_keys;
  server_public_key = 5 ∷ [];
  device_public_key = 6 ∷ [];
  c_device_private_key = sixteen 16;
  flags_u32 = 1;
}

abbrev pub test_activated : Session
test_activated = record {
  state = State.activated;
  setup = test_setup;
  pd = some test_pd;
  ad = none;
}

abbrev pub test_empty : Session
test_empty = record { state = State.empty; setup = test_setup; pd = none; ad = none }

abbrev pub test_request : HttpRequest
test_request = record { body = 1 ∷ []; method = codes "POST"; uri = codes "/pa" }

abbrev pub test_step1 : ActivationStep1Param
test_step1 = record {
  activation_id_short = 1 ∷ [];
  activation_otp = 2 ∷ [];
  activation_signature = 3 ∷ [];
}

abbrev pub test_random : Step1Random
test_random = record {
  device_key = some (record { point = 4 ∷ []; number = 5 ∷ [] });
  ephemeral_key = some (record { point = 6 ∷ []; number = 7 ∷ [] });
  nonce_draws = test_draws;
}

abbrev pub test_step2 : ActivationStep2Param
test_step2 = record {
  activation_id = 65 ∷ [];
  ephemeral_nonce = sixteen 3;
  ephemeral_public_key = 8 ∷ [];
  -- the key, padded twice
  encrypted_server_public_key = 5 ∷ (replicate 15 15 ++ sixteen 16);
  server_data_signature = 9 ∷ [];
}
