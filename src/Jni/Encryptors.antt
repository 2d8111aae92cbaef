-- ===== src/Jni/Encryptors.antt =====
-- src/PowerAuth/jni/EncryptorJNI.cpp: the native methods of the Java class Encryptor.
use lime_security_powerauth.Base.{ℕ, Option, none, some, Bytes}
use lime_security_powerauth.Platform.{Cc7, OpenSsl}
use lime_security_powerauth.Protocol.Types.{ErrorCode}
use lime_security_powerauth.Encryptor.{
  Mode, Encryptor, EncryptedMessage, EncryptRandom, encrypt, decrypt,
}
use lime_security_powerauth.Jni.Objects.{Jni, JavaString, JavaBytes}
use lime_security_powerauth.Jni.Calls.{JavaEncryptor}

pub record JavaMessage : Type 0 where
  pub application_key : Option JavaString
  pub activation_id : Option JavaString
  pub encrypted_data : Option JavaString
  pub mac : Option JavaString
  pub session_index : Option JavaString
  pub ad_hoc_index : Option JavaString
  pub mac_index : Option JavaString
  pub nonce : Option JavaString
  pub ephemeral_public_key : Option JavaString

-- The numbers of `Encryptor::Mode`, and 0 for a missing handle.
mode_number : Mode → ℕ
mode_number Mode.nonpersonalized = 0
mode_number Mode.personalized = 1

unfoldable pub encryptor_mode_native : Option Encryptor → ℕ
unfolding mode_number
encryptor_mode_native none = 0
encryptor_mode_native (some e) = mode_number e.mode

module _ ⦃jni : Jni⦄ (copy_to_nullable_java_string : Bytes → Option JavaString) where
  unfoldable pub session_index_native : Option Encryptor → Option JavaBytes
  session_index_native none = none
  session_index_native (some e) = jni.copy_to_java_byte_array e.session_index

  unfoldable pub java_message : EncryptedMessage → JavaMessage
  java_message message = record {
    application_key = copy_to_nullable_java_string message.application_key;
    activation_id = copy_to_nullable_java_string message.activation_id;
    encrypted_data = jni.copy_to_java_string message.encrypted_data;
    mac = jni.copy_to_java_string message.mac;
    session_index = jni.copy_to_java_string message.session_index;
    ad_hoc_index = jni.copy_to_java_string message.ad_hoc_index;
    mac_index = jni.copy_to_java_string message.mac_index;
    nonce = jni.copy_to_java_string message.nonce;
    ephemeral_public_key = copy_to_nullable_java_string message.ephemeral_public_key;
  }

  unfoldable pub copied_message : JavaMessage → EncryptedMessage
  copied_message message = record {
    application_key = jni.copy_from_java_string message.application_key;
    activation_id = jni.copy_from_java_string message.activation_id;
    encrypted_data = jni.copy_from_java_string message.encrypted_data;
    mac = jni.copy_from_java_string message.mac;
    session_index = jni.copy_from_java_string message.session_index;
    ad_hoc_index = jni.copy_from_java_string message.ad_hoc_index;
    mac_index = jni.copy_from_java_string message.mac_index;
    nonce = jni.copy_from_java_string message.nonce;
    ephemeral_public_key = jni.copy_from_java_string message.ephemeral_public_key;
  }

  module _ ⦃cc : Cc7⦄ ⦃ssl : OpenSsl⦄ where
    encrypted : Option EncryptedMessage → ErrorCode × Option JavaMessage
    encrypted none = (ErrorCode.ec_encryption, none)
    encrypted (some message) = (ErrorCode.ec_ok, some (java_message message))

    -- The last error code of `this` is that of the call.
    unfoldable pub encrypt_native :
        JavaEncryptor → EncryptRandom → Option JavaBytes → JavaEncryptor × Option JavaMessage
    unfolding encrypted
    encrypt_native this random input = with_handle this.handle
      where
        reported : ErrorCode × Option JavaMessage → JavaEncryptor × Option JavaMessage
        reported r = (record this { last_error_code = r.0 }, r.1)

        with_handle : Option Encryptor → JavaEncryptor × Option JavaMessage
        with_handle none = reported (ErrorCode.ec_wrong_param, none)
        with_handle (some e) =
            reported (encrypted (encrypt e random (jni.copy_from_java_byte_array input)))

    decrypted : ErrorCode × Bytes → Option JavaBytes
    decrypted (ErrorCode.ec_ok, d) = jni.copy_to_java_byte_array d
    decrypted (ErrorCode.ec_encryption, d) = none
    decrypted (ErrorCode.ec_wrong_state, d) = none
    decrypted (ErrorCode.ec_wrong_param, d) = none

    unfoldable pub decrypt_native :
        JavaEncryptor → Option JavaMessage → JavaEncryptor × Option JavaBytes
    unfolding decrypted
    decrypt_native this message = with_handle this.handle message
      where
        reported : ErrorCode → Option JavaBytes → JavaEncryptor × Option JavaBytes
        reported code result = (record this { last_error_code = code }, result)

        with_handle : Option Encryptor → Option JavaMessage → JavaEncryptor × Option JavaBytes
        with_handle none message = reported ErrorCode.ec_wrong_param none
        with_handle (some e) none = reported ErrorCode.ec_wrong_param none
        with_handle (some e) (some m) =
            let r = decrypt e (copied_message m) in reported r.0 (decrypted r)
