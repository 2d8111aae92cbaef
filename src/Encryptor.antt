-- ===== src/Encryptor.antt =====
-- src/PowerAuth/Encryptor.cpp: end-to-end encryption of messages.
pub mod RoundTrip
pub mod Accepted
use lime_security_powerauth.Base.{
  ℕ, Bool, true, false, not, ◌&&◌, ◌||◌, List, [], ◌∷◌, Option, none, some, ◌==◌, if◌then◌else◌,
  is_empty, equal, Bytes, length,
}
use lime_security_powerauth.Platform.{Cc7, OpenSsl}
use lime_security_powerauth.Crypto.Aes.{cbc_encrypt_padding, cbc_decrypt_padding}
use lime_security_powerauth.Crypto.Digest.{hmac_sha256}
use lime_security_powerauth.Crypto.Prng.{Draws, get_random_data, get_unique_random_data}
use lime_security_powerauth.Protocol.Constants.{signature_key_size, zero_iv}
use lime_security_powerauth.Protocol.Derivation.{derive_secret_key_from_index}
use lime_security_powerauth.Protocol.Types.{ErrorCode}

pub data Mode : Type 0 where
  personalized nonpersonalized : Mode

pub record Encryptor : Type 0 where
  pub mode : Mode
  pub session_index : Bytes
  pub key_transport_partial : Bytes
  pub app_key_or_activation_id : Bytes
  pub ephemeral_public_key : Bytes

pub record EncryptedMessage : Type 0 where
  pub application_key : Bytes
  pub activation_id : Bytes
  pub encrypted_data : Bytes
  pub mac : Bytes
  pub session_index : Bytes
  pub ad_hoc_index : Bytes
  pub mac_index : Bytes
  pub nonce : Bytes
  pub ephemeral_public_key : Bytes

-- `E2EEData`, without the mode.
pub record E2eeData : Type 0 where
  pub encrypted_data : Bytes
  pub mac : Bytes
  pub session_index : Bytes
  pub ad_hoc_index : Bytes
  pub mac_index : Bytes
  pub nonce : Bytes

-- The draws of the two unique indexes and of the nonce.
pub record EncryptRandom : Type 0 where
  pub ad_hoc_draws : Draws
  pub mac_draws : Draws
  pub nonce_draws : Draws

abbrev pub is_nonpersonalized : Mode → Bool
is_nonpersonalized Mode.nonpersonalized = true
is_nonpersonalized Mode.personalized = false

unfoldable pub encryptor : ⦃ssl : OpenSsl⦄ → Mode → Bytes → Bytes → Encryptor
encryptor mode session_index transport_key = record {
  mode = mode;
  session_index = session_index;
  key_transport_partial = derive_secret_key_from_index transport_key session_index;
  app_key_or_activation_id = [];
  ephemeral_public_key = [];
}

unfoldable pub set_personalized_params : Bytes → Encryptor → Encryptor
set_personalized_params activation_id e =
    if is_nonpersonalized e.mode then e else record e { app_key_or_activation_id = activation_id }

unfoldable pub set_nonpersonalized_params : Bytes → Bytes → Encryptor → Encryptor
set_nonpersonalized_params ephemeral_key application_key e =
    if is_nonpersonalized e.mode
    then record e {
      ephemeral_public_key = ephemeral_key;
      app_key_or_activation_id = application_key;
    }
    else e

unfoldable pub validate_configuration : Encryptor → Bool
validate_configuration e =
    length e.session_index == signature_key_size
    && length e.key_transport_partial == signature_key_size
    && not (is_empty e.app_key_or_activation_id)
    && (if is_nonpersonalized e.mode then not (is_empty e.ephemeral_public_key) else true)

infixl 5 ◌>>=◌ ◌>>◌
abbrev ◌>>=◌ {ℓ κ} : {A : Type ℓ} {B : Type κ} → Option A → (A → Option B) → Option B
none >>= f = none
some a >>= f = f a

abbrev ◌>>◌ {ℓ} : {B : Type ℓ} → Option (Unit {0}) → Option B → Option B
m >> k = m >>= λ _. k

abbrev fail_if : Bool → Option (Unit {0})
fail_if true = none
fail_if false = some tt

module _ ⦃cc : Cc7⦄ where
  unfoldable pub import_from_message : EncryptedMessage → Option E2eeData
  import_from_message message = do
    encrypted_data ← cc.from_base64 message.encrypted_data
    mac ← cc.from_base64 message.mac
    session_index ← cc.from_base64 message.session_index
    ad_hoc_index ← cc.from_base64 message.ad_hoc_index
    mac_index ← cc.from_base64 message.mac_index
    nonce ← cc.from_base64 message.nonce
    fail_if (not (length session_index == signature_key_size))
    fail_if (not (length ad_hoc_index == signature_key_size))
    fail_if (not (length mac_index == signature_key_size))
    fail_if (not (length nonce == signature_key_size))
    some (record {
      encrypted_data = encrypted_data;
      mac = mac;
      session_index = session_index;
      ad_hoc_index = ad_hoc_index;
      mac_index = mac_index;
      nonce = nonce;
    })

  -- `exportToMessage`, and the members that depend on the mode.
  export_to_message : Encryptor → E2eeData → EncryptedMessage
  export_to_message e edata = record {
    application_key = (if is_nonpersonalized e.mode then e.app_key_or_activation_id else []);
    activation_id = (if is_nonpersonalized e.mode then [] else e.app_key_or_activation_id);
    encrypted_data = cc.to_base64 edata.encrypted_data;
    mac = cc.to_base64 edata.mac;
    session_index = cc.to_base64 edata.session_index;
    ad_hoc_index = cc.to_base64 edata.ad_hoc_index;
    mac_index = cc.to_base64 edata.mac_index;
    nonce = cc.to_base64 edata.nonce;
    ephemeral_public_key = (if is_nonpersonalized e.mode then e.ephemeral_public_key else []);
  }

  module _ ⦃ssl : OpenSsl⦄ where
    -- The message under the given indexes and nonce.
    sealed : Encryptor → Bytes → Bytes → Bytes → Bytes → Option EncryptedMessage
    unfolding export_to_message
    sealed e ad_hoc_index mac_index nonce plain = do
      fail_if (
          is_empty e.session_index || is_empty ad_hoc_index || is_empty mac_index || is_empty nonce)
      let encryption_key = derive_secret_key_from_index e.key_transport_partial ad_hoc_index
      let encrypted_data = cbc_encrypt_padding encryption_key nonce plain
      fail_if (is_empty encryption_key || is_empty encrypted_data)
      let mac_key = derive_secret_key_from_index e.key_transport_partial mac_index
      let mac = hmac_sha256 encrypted_data mac_key 0
      fail_if (is_empty mac_key || is_empty mac)
      some (
          export_to_message e (record {
            encrypted_data = encrypted_data;
            mac = mac;
            session_index = e.session_index;
            ad_hoc_index = ad_hoc_index;
            mac_index = mac_index;
            nonce = nonce;
          }))

    -- The message, `none` for EC_Encryption.
    unfoldable pub encrypt : Encryptor → EncryptRandom → Bytes → Option EncryptedMessage
    unfolding sealed
    encrypt e random plain =
        let ad_hoc_index =
          get_unique_random_data signature_key_size (zero_iv ∷ e.session_index ∷ [])
            random.ad_hoc_draws in
        let mac_index =
          get_unique_random_data signature_key_size (zero_iv ∷ e.session_index ∷ ad_hoc_index ∷ [])
            random.mac_draws in
        sealed e ad_hoc_index mac_index (get_random_data signature_key_size true random.nonce_draws)
          plain

    matches : Encryptor → EncryptedMessage → E2eeData → Bool
    matches e message edata =
        equal e.session_index edata.session_index
        && (if is_nonpersonalized e.mode
            then equal message.application_key e.app_key_or_activation_id
              && equal message.ephemeral_public_key e.ephemeral_public_key
            else equal message.activation_id e.app_key_or_activation_id)

    decrypt_data : Encryptor → EncryptedMessage → Option E2eeData → ErrorCode × Bytes
    decrypt_data e message none = (ErrorCode.ec_wrong_param, [])
    decrypt_data e message (some edata) =
        let mac_key = derive_secret_key_from_index e.key_transport_partial edata.mac_index in
        let our_mac = hmac_sha256 edata.encrypted_data mac_key 0 in
        let decryption_key =
          derive_secret_key_from_index e.key_transport_partial edata.ad_hoc_index in
        let (out_data, dec_error) =
          cbc_decrypt_padding decryption_key edata.nonce edata.encrypted_data in
        if not (matches e message edata) then (ErrorCode.ec_wrong_param, []) else (
          if dec_error || not (equal our_mac edata.mac)
              then ErrorCode.ec_encryption
              else ErrorCode.ec_ok,
          out_data,
        )

    -- The code and the data, which are there also where only the signature is wrong.
    unfoldable pub decrypt : Encryptor → EncryptedMessage → ErrorCode × Bytes
    unfolding matches decrypt_data
    decrypt e message = decrypt_data e message (import_from_message message)
