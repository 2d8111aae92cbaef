-- ===== src/Session/Activation/Chains.antt =====
-- What the chains of steps of an activation leave behind where they succeed.
use lime_security_powerauth.Base.{◌≡◌, true, false, Option, some, Bytes, length, arith}
use lime_security_powerauth.Platform.{Cc7, OpenSsl}
use lime_security_powerauth.Crypto.Prng.{Draws}
use lime_security_powerauth.Protocol.Activation.{
  is_null, encrypt_device_public_key, decrypt_server_public_key,
}
use lime_security_powerauth.Protocol.Types.{ActivationData, PersistentData, SignatureUnlockKeys}
use lime_security_powerauth.Protocol.Validation.{validate_persistent_data}
use lime_security_powerauth.Session.{Session}
use lime_security_powerauth.Session.Activation.{
  ActivationStep1Param, ActivationStep1Result, ActivationStep2Param, Step1Random, step1_data,
  step1_result, step2, step3,
}

-- The keys that the second step needs, as its assertion says.
abbrev pub HasKeys : ActivationData → Type 0
HasKeys ad = (is_null ad.device_private_key ≡ false) × (is_null ad.master_server_public_key ≡ false)

abbrev pub HasSecret : ActivationData → Type 0
HasSecret ad = HasKeys ad × (length ad.master_shared_secret ≡ 16)

module _ ⦃cc : Cc7⦄ ⦃ssl : OpenSsl⦄ where
  pub HasKeys-step1_data :
      (s : Session) (param : ActivationStep1Param) (random : Step1Random) (ad : ActivationData)
      → step1_data s param random ≡ some ad
      → HasKeys ad
  unfolding step1_data
  HasKeys-step1_data s param random ad e = ground arith

  HasKeys-encrypt_device_public_key :
      (ad : ActivationData) (short otp : Bytes)
      → HasKeys ad
      → HasKeys (encrypt_device_public_key ad short otp).0
  unfolding encrypt_device_public_key
  HasKeys-encrypt_device_public_key ad short otp h = ground arith

  pub HasKeys-step1_result :
      (s : Session) (param : ActivationStep1Param) (ad : ActivationData)
      (r : ActivationData × ActivationStep1Result)
      → HasKeys ad
      → step1_result s param ad ≡ some r
      → HasKeys r.0
  unfolding step1_result
  HasKeys-step1_result s param ad r h e =
      ground (
        arith,
        HasKeys-encrypt_device_public_key ad param.activation_id_short param.activation_otp h,
      )

  decrypt_server_public_key-keeps :
      (ad ad' : ActivationData) (ephemeral encrypted_pk nonce : Bytes)
      → decrypt_server_public_key ad ephemeral encrypted_pk nonce ≡ some ad'
      → (ad'.device_private_key ≡ ad.device_private_key)
        × (ad'.master_server_public_key ≡ ad.master_server_public_key)
  unfolding decrypt_server_public_key
  decrypt_server_public_key-keeps ad ad' ephemeral encrypted_pk nonce e = ground arith

  pub HasSecret-step2 :
      (param : ActivationStep2Param) (ad : ActivationData) (r : ActivationData × Bytes)
      → HasKeys ad
      → step2 param ad ≡ some r
      → HasSecret r.0
  unfolding step2
  HasSecret-step2 param ad r h e = grind (arith, decrypt_server_public_key-keeps)

  -- Persistent data that completing an activation stores have passed the validation.
  pub validated-step3 :
      (ext_key : Option Bytes) (keys : SignatureUnlockKeys) (draws : Draws) (ad : ActivationData)
      (pd : PersistentData)
      → step3 ext_key keys draws ad ≡ some pd
      → validate_persistent_data pd ≡ true
  unfolding step3
  validated-step3 ext_key keys draws ad pd e = ground arith
