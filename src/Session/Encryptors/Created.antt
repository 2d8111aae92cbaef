-- ===== src/Session/Encryptors/Created.antt =====
-- What createPersonalizedEncryptor does on each branch.
use lime_security_powerauth.Base.{
  ◌≡◌, refl, false, [], Option, none, some, ◌==◌, ◌&&◌, not, is_empty, equal, Bytes, length, arith,
  if-cases,
}
use lime_security_powerauth.Platform.{OpenSsl}
use lime_security_powerauth.Encryptor.{
  Encryptor, Mode, encryptor, set_personalized_params, validate_configuration,
}
use lime_security_powerauth.Protocol.Constants.{zero_iv, signature_key_size}
use lime_security_powerauth.Protocol.Derivation.{derive_secret_key_from_index}
use lime_security_powerauth.Protocol.Locking.{unlock_signature_keys}
use lime_security_powerauth.Protocol.Types.{
  ErrorCode, PersistentData, SignatureKeys, SignatureUnlockKeys,
}
use lime_security_powerauth.Session.{Session, activation_data, activation_identifier}
use lime_security_powerauth.Session.Encryptors.{
  is_wrong_index, validated, personalized, personalized_activated, create_personalized_encryptor,
}
use lime_security_powerauth.Session.Vault.{transport_request}

module _ ⦃ssl : OpenSsl⦄ where
  -- The encryptor of an activation for a session index.
  abbrev pub encryptor_of : PersistentData → SignatureKeys → Bytes → Encryptor
  encryptor_of pd plain session_index = record {
    mode = Mode.personalized;
    session_index = session_index;
    key_transport_partial = derive_secret_key_from_index plain.transport_key session_index;
    app_key_or_activation_id = pd.activation_id;
    ephemeral_public_key = [];
  }

  pub record IsUnlocked (s : Session) (keys : SignatureUnlockKeys) (session_index : Bytes)
      (pd : PersistentData) (plain : SignatureKeys) : Type 0 where
    pub active : activation_data s ≡ some pd
    pub index_size : length session_index ≡ 16
    pub index_nonzero : equal session_index zero_iv ≡ false
    pub unlocked : unlock_signature_keys pd.sk (transport_request s keys) ≡ some plain

  pub data Creating (s : Session) (session_index : Bytes) (keys : SignatureUnlockKeys)
      : ErrorCode × Option Encryptor → Type 0 where
    inactive :
        activation_data s ≡ none → Creating s session_index keys (ErrorCode.ec_wrong_state, none)
    misindexed :
        (pd : PersistentData)
        → activation_data s ≡ some pd
        → (length session_index == signature_key_size && not (equal session_index zero_iv)) ≡ false
        → Creating s session_index keys (ErrorCode.ec_wrong_param, none)
    still_locked :
        (pd : PersistentData)
        → activation_data s ≡ some pd
        → unlock_signature_keys pd.sk (transport_request s keys) ≡ none
        → Creating s session_index keys (ErrorCode.ec_wrong_param, none)
    underived :
        (pd : PersistentData) (plain : SignatureKeys)
        → IsUnlocked s keys session_index pd plain
        → ((length (derive_secret_key_from_index plain.transport_key session_index)
              == signature_key_size)
            && not (is_empty pd.activation_id))
          ≡ false
        → Creating s session_index keys (ErrorCode.ec_encryption, none)
    created :
        (pd : PersistentData) (plain : SignatureKeys)
        → IsUnlocked s keys session_index pd plain
        → length (derive_secret_key_from_index plain.transport_key session_index) ≡ 16
        → is_empty pd.activation_id ≡ false
        → Creating s session_index keys
            (ErrorCode.ec_ok, some (encryptor_of pd plain session_index))

  made :
      (s : Session) (pd : PersistentData) (plain : SignatureKeys) (session_index : Bytes)
      → activation_data s ≡ some pd
      → set_personalized_params
          (activation_identifier s)
          (encryptor Mode.personalized session_index plain.transport_key)
        ≡ encryptor_of pd plain session_index
  unfolding set_personalized_params encryptor activation_identifier
  made s pd plain session_index e = rw e refl

  Creating-validated :
      (s : Session) (session_index : Bytes) (keys : SignatureUnlockKeys) (pd : PersistentData)
      (plain : SignatureKeys)
      → IsUnlocked s keys session_index pd plain
      → Creating s session_index keys (validated (encryptor_of pd plain session_index))
  unfolding validated validate_configuration
  Creating-validated s session_index keys pd plain u =
      if-cases (Creating s session_index keys)
        (validate_configuration (encryptor_of pd plain session_index))
        (λ v. created pd plain u (ground (arith, v)) (ground (arith, v)))
        (λ v. underived pd plain u (ground (arith, v, u.index_size)))

  Creating-personalized :
      (s : Session) (session_index : Bytes) (keys : SignatureUnlockKeys) (pd : PersistentData)
      (o : Option SignatureKeys)
      → activation_data s ≡ some pd
      → is_wrong_index session_index ≡ false
      → unlock_signature_keys pd.sk (transport_request s keys) ≡ o
      → Creating s session_index keys (personalized s session_index o)
  unfolding personalized is_wrong_index
  Creating-personalized s session_index keys pd none e i u = still_locked pd e u
  Creating-personalized s session_index keys pd (some plain) e i u =
      rw (made s pd plain session_index e) (
        Creating-validated s session_index keys pd plain (record {
          active = e;
          index_size = ground (arith, i);
          index_nonzero = ground (arith, i);
          unlocked = u;
        }))

  Creating-personalized_activated :
      (s : Session) (session_index : Bytes) (keys : SignatureUnlockKeys) (o : Option PersistentData)
      → activation_data s ≡ o
      → Creating s session_index keys (personalized_activated s session_index keys o)
  unfolding personalized_activated
  Creating-personalized_activated s session_index keys none e = inactive e
  Creating-personalized_activated s session_index keys (some pd) e =
      if-cases (Creating s session_index keys) (is_wrong_index session_index)
        (λ i. misindexed pd e (unfold is_wrong_index in ground (arith, i)))
        (λ i. Creating-personalized s session_index keys pd _ e i refl)

  -- Creating a personalized encryptor gives none, with EC_WrongState without a valid activation, with
  -- EC_WrongParam where the index does not have 16 bytes or has only zeros, or the transport key
  -- cannot be unlocked, and with EC_Encryption where the key of the session cannot be derived or
  -- there is no identifier. Otherwise it gives, with EC_Ok, the encryptor for the index whose key is
  -- derived from the unlocked transport key and the index, and which has the identifier of the
  -- activation and no ephemeral key.
  pub Creating-create_personalized_encryptor :
      (s : Session) (session_index : Bytes) (keys : SignatureUnlockKeys)
      → Creating s session_index keys (create_personalized_encryptor s session_index keys)
  unfolding create_personalized_encryptor
  Creating-create_personalized_encryptor s session_index keys =
      Creating-personalized_activated s session_index keys (activation_data s) refl
