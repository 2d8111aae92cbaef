-- ===== src/Encryptor/Accepted.antt =====
-- What a message that is decrypted with EC_Ok must carry.
use lime_security_powerauth.Base.{
  ◌≡◌, refl, sym, Bool, true, false, ◌&&◌, Option, none, some, Bytes, arith, equal, equal→eq,
  if◌then◌else◌,
}
use lime_security_powerauth.Platform.{Cc7, OpenSsl}
use lime_security_powerauth.Crypto.Aes.{cbc_decrypt_padding}
use lime_security_powerauth.Crypto.Digest.{hmac_sha256}
use lime_security_powerauth.Protocol.Derivation.{derive_secret_key_from_index}
use lime_security_powerauth.Protocol.Types.{ErrorCode}
use lime_security_powerauth.Encryptor.{
  Mode, Encryptor, EncryptedMessage, E2eeData, is_nonpersonalized, import_from_message, matches,
  decrypt_data, decrypt,
}

module _ ⦃cc : Cc7⦄ ⦃ssl : OpenSsl⦄ (e : Encryptor) (message : EncryptedMessage) where
  -- The message names the encryptor's application and ephemeral key, or its activation.
  pub SameIdentity : Mode → Type 0
  SameIdentity Mode.nonpersonalized =
      (message.application_key ≡ e.app_key_or_activation_id)
      × (message.ephemeral_public_key ≡ e.ephemeral_public_key)
  SameIdentity Mode.personalized = message.activation_id ≡ e.app_key_or_activation_id

  -- What the message carries: `edata` is its decoded content and `d` its data.
  pub record IsAuthentic (d : Bytes) : Type 0 where
    pub edata : E2eeData
    pub imported : import_from_message message ≡ some edata
    -- the message belongs to the encryptor's session
    pub same_session : edata.session_index ≡ e.session_index
    pub same_identity : SameIdentity e.mode
    -- the signature is that of the encrypted data under the session's key
    pub authentic :
        hmac_sha256 edata.encrypted_data
          (derive_secret_key_from_index e.key_transport_partial edata.mac_index)
          0
        ≡ edata.mac
    -- and the data are what decrypts with a right padding
    pub decrypted :
        cbc_decrypt_padding
          (derive_secret_key_from_index e.key_transport_partial edata.ad_hoc_index)
          edata.nonce
          edata.encrypted_data
        ≡ (d, false)

  tests_passed :
      (edata : E2eeData) (d : Bytes)
      → decrypt_data e message (some edata) ≡ (ErrorCode.ec_ok, d)
      → (matches e message edata ≡ true)
        × (equal
              (hmac_sha256 edata.encrypted_data
                (derive_secret_key_from_index e.key_transport_partial edata.mac_index)
                0)
              edata.mac
            ≡ true)
        × (cbc_decrypt_padding
              (derive_secret_key_from_index e.key_transport_partial edata.ad_hoc_index)
              edata.nonce
              edata.encrypted_data
            ≡ (d, false))
  unfolding decrypt_data
  tests_passed edata d h = (ground (arith, h), ground (arith, h), ground (arith, h))

  abbrev names : Mode → Bool
  names m =
      if is_nonpersonalized m
      then equal message.application_key e.app_key_or_activation_id
        && equal message.ephemeral_public_key e.ephemeral_public_key
      else equal message.activation_id e.app_key_or_activation_id

  SameIdentity-names : (m : Mode) → names m ≡ true → SameIdentity m
  unfolding SameIdentity
  SameIdentity-names Mode.nonpersonalized h =
      (equal→eq _ _ (ground (arith, h)), equal→eq _ _ (ground (arith, h)))
  SameIdentity-names Mode.personalized h = equal→eq _ _ h

  matches_lem :
      (edata : E2eeData)
      → matches e message edata ≡ true
      → (equal e.session_index edata.session_index ≡ true) × (names e.mode ≡ true)
  unfolding matches
  matches_lem edata h = (ground (arith, h), ground (arith, h))

  IsAuthentic-decrypt_data :
      (o : Option E2eeData) (d : Bytes)
      → import_from_message message ≡ o
      → decrypt_data e message o ≡ (ErrorCode.ec_ok, d)
      → IsAuthentic d
  unfolding decrypt_data
  IsAuthentic-decrypt_data none d i h = absurd (ground (arith, h))
  IsAuthentic-decrypt_data (some edata) d i h =
      let (m, a, c) = tests_passed edata d h in
      let (session, identity) = matches_lem edata m in
      record {
        edata = edata;
        imported = i;
        same_session = sym (equal→eq _ _ session);
        same_identity = SameIdentity-names e.mode identity;
        authentic = equal→eq _ _ a;
        decrypted = c;
      }

  -- Where decrypt reports EC_Ok, the message decodes, its session index and the identifiers of its
  -- mode are the encryptor's, its signature is the one that the session's key gives for the
  -- encrypted data, and the data that are returned are what decrypts with a right padding.
  pub IsAuthentic-decrypt : (d : Bytes) → decrypt e message ≡ (ErrorCode.ec_ok, d) → IsAuthentic d
  unfolding decrypt
  IsAuthentic-decrypt d h = IsAuthentic-decrypt_data (import_from_message message) d refl h
