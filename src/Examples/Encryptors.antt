-- ===== src/Examples/Encryptors.antt =====
-- The theorems on the status of an activation and on created encryptors at concrete data.
use lime_security_powerauth.Base.{◌≡◌, refl, ◌∷◌, ◌++◌, some, Bytes, replicate, equal, arith}
use lime_security_powerauth.Crypto.Aes.{cbc_encrypt, cbc_decrypt}
use lime_security_powerauth.Protocol.Constants.{zero_iv}
use lime_security_powerauth.Protocol.Locking.{unlock_signature_keys}
use lime_security_powerauth.Protocol.Types.{ErrorCode, SignatureKeys, no_keys}
use lime_security_powerauth.Protocol.Validation.{validate_unlock_keys, validate_signature_keys}
use lime_security_powerauth.Session.{activation_data, has_valid_activation, has_valid_setup, eek}
use lime_security_powerauth.Session.Encryptors.{create_personalized_encryptor}
use lime_security_powerauth.Session.Encryptors.Created.{
  Creating, Creating-create_personalized_encryptor,
}
use lime_security_powerauth.Session.Status.{ActivationStatus, decode_activation_status}
use lime_security_powerauth.Session.Status.Accepted.{
  IsStatus, status_bytes, decode_activation_status-status_bytes,
}
use lime_security_powerauth.Session.Vault.{transport_request}
use lime_security_powerauth.Examples.Instances.{
  test_cc, test_ssl, test_cc_laws, test_aes, big_endian,
}
use lime_security_powerauth.Examples.Data.{
  sixteen, test_activated, test_pd, test_signature_keys, test_unlock_keys,
}

Creating-create_personalized_encryptor_example :
    Creating ⦃ssl = test_ssl⦄ test_activated
      (sixteen 1)
      test_unlock_keys
      (create_personalized_encryptor ⦃ssl = test_ssl⦄ test_activated (sixteen 1) test_unlock_keys)
Creating-create_personalized_encryptor_example =
    Creating-create_personalized_encryptor ⦃ssl = test_ssl⦄ test_activated (sixteen 1)
      test_unlock_keys

-- An active activation with the counter 9, one failed attempt and at most five.
abbrev test_status : ActivationStatus
test_status = record { state = 3; fail_count = 1; max_fail_count = 5; counter = 9 }

abbrev test_status_blob : Bytes
test_status_blob = 0xDE ∷ 0xC0 ∷ 0xDE ∷ 0xD1 ∷ 3 ∷ (replicate 7 0 ++ 9 ∷ 1 ∷ 5 ∷ replicate 17 0)

abbrev test_unlocked : SignatureKeys
test_unlocked = record no_keys { transport_key = sixteen 4 }

is_active : activation_data test_activated ≡ some test_pd
unfolding activation_data has_valid_activation has_valid_setup
is_active = refl

is_unlocked :
    unlock_signature_keys ⦃ssl = test_ssl⦄ test_signature_keys
      (transport_request test_activated test_unlock_keys)
    ≡ some test_unlocked
unfolding unlock_signature_keys validate_unlock_keys validate_signature_keys transport_request eek
    has_valid_setup cbc_decrypt equal
is_unlocked = refl

is_status : IsStatus test_status
is_status = record {
  from_created = omega arith;
  to_removed = omega arith;
  counter_u64 = omega arith;
}

is_sent :
    test_cc.from_base64 test_status_blob
    ≡ some (
        cbc_encrypt ⦃ssl = test_ssl⦄ test_unlocked.transport_key zero_iv
          (status_bytes ⦃cc = test_cc⦄ test_status ++ replicate 17 0))
unfolding cbc_encrypt status_bytes big_endian
is_sent = refl

decode_activation_status-status_bytes_example :
    decode_activation_status ⦃cc = test_cc⦄ ⦃ssl = test_ssl⦄ test_activated test_status_blob
      test_unlock_keys
    ≡ (ErrorCode.ec_ok, some test_status)
decode_activation_status-status_bytes_example =
    decode_activation_status-status_bytes ⦃cc = test_cc⦄ test_cc_laws ⦃ssl = test_ssl⦄ test_aes
      test_activated test_pd test_unlock_keys test_unlocked test_status (replicate 17 0)
      test_status_blob is_active is_unlocked is_status refl refl is_sent
