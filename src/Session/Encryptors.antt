-- ===== src/Session/Encryptors.antt =====
-- src/PowerAuth/Session.cpp: the encryptors that a session creates.
pub mod Created
use lime_security_powerauth.Base.{
  Bool, not, ◌||◌, Option, none, some, ◌==◌, if◌then◌else◌, is_empty, equal, Bytes, length,
}
use lime_security_powerauth.Platform.{Cc7, OpenSsl, EcKey}
use lime_security_powerauth.Crypto.Ecc.{
  import_public_key_from_b64, generate_key_pair, export_public_key_to_b64, ecdh_shared_secret,
}
use lime_security_powerauth.Encryptor.{
  Encryptor, Mode, encryptor, set_nonpersonalized_params, set_personalized_params,
  validate_configuration,
}
use lime_security_powerauth.Protocol.Activation.{is_null}
use lime_security_powerauth.Protocol.Constants.{signature_key_size, zero_iv}
use lime_security_powerauth.Protocol.Derivation.{reduce_shared_secret}
use lime_security_powerauth.Protocol.Locking.{unlock_signature_keys}
use lime_security_powerauth.Protocol.Types.{
  ErrorCode, PersistentData, SignatureKeys, SignatureUnlockKeys,
}
use lime_security_powerauth.Session.{
  Session, has_valid_setup, activation_data, activation_identifier,
}
use lime_security_powerauth.Session.Vault.{transport_request}

unfoldable pub is_wrong_index : Bytes → Bool
is_wrong_index session_index =
    not (length session_index == signature_key_size) || equal session_index zero_iv

-- An encryptor is kept if its configuration is valid.
validated : Encryptor → ErrorCode × Option Encryptor
validated enc =
    if validate_configuration enc
    then (ErrorCode.ec_ok, some enc)
    else (ErrorCode.ec_encryption, none)

module _ ⦃cc : Cc7⦄ ⦃ssl : OpenSsl⦄ where
  nonpersonalized : Session → Bytes → Option EcKey → Option EcKey → ErrorCode × Option Encryptor
  unfolding validated
  nonpersonalized s session_index master_public_key ephemeral_key =
      let transport_key =
        reduce_shared_secret (ecdh_shared_secret master_public_key ephemeral_key) in
      if is_null master_public_key || is_null ephemeral_key || is_empty transport_key
      then (ErrorCode.ec_encryption, none)
      else validated (
          set_nonpersonalized_params (export_public_key_to_b64 ephemeral_key)
            s.setup.application_key (encryptor Mode.nonpersonalized session_index transport_key))

  -- The code, and the encryptor where it is EC_Ok; `key` is what the generation of a key gives.
  unfoldable pub create_nonpersonalized_encryptor :
      Session → Bytes → Option EcKey → ErrorCode × Option Encryptor
  unfolding nonpersonalized
  create_nonpersonalized_encryptor s session_index key =
      if not (has_valid_setup s)
      then (ErrorCode.ec_wrong_state, none)
      else if is_wrong_index session_index
      then (ErrorCode.ec_wrong_param, none)
      else nonpersonalized s session_index
          (import_public_key_from_b64 none s.setup.master_server_public_key) (generate_key_pair key)

module _ ⦃ssl : OpenSsl⦄ where
  personalized : Session → Bytes → Option SignatureKeys → ErrorCode × Option Encryptor
  unfolding validated
  personalized s session_index none = (ErrorCode.ec_wrong_param, none)
  personalized s session_index (some plain) = validated (
      set_personalized_params (activation_identifier s)
        (encryptor Mode.personalized session_index plain.transport_key))

  personalized_activated :
      Session → Bytes → SignatureUnlockKeys → Option PersistentData → ErrorCode × Option Encryptor
  unfolding personalized
  personalized_activated s session_index keys none = (ErrorCode.ec_wrong_state, none)
  personalized_activated s session_index keys (some pd) =
      if is_wrong_index session_index
      then (ErrorCode.ec_wrong_param, none)
      else personalized s session_index (unlock_signature_keys pd.sk (transport_request s keys))

  unfoldable pub create_personalized_encryptor :
      Session → Bytes → SignatureUnlockKeys → ErrorCode × Option Encryptor
  unfolding personalized_activated
  create_personalized_encryptor s session_index keys =
      personalized_activated s session_index keys (activation_data s)
