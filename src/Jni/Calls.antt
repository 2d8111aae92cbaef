-- ===== src/Jni/Calls.antt =====
-- src/PowerAuth/jni/SessionJNI.cpp: the native methods that leave the session as it is, and
-- `CreateJavaEncryptorForCppClass` of EncryptorJNI.cpp.
use lime_security_powerauth.Base.{
  ◌==◌, List, [], ◌∷◌, Option, none, some, Bytes, not, if◌then◌else◌, length, equal,
}
use lime_security_powerauth.Platform.{Cc7, OpenSsl, EcKey}
use lime_security_powerauth.Crypto.Prng.{Draws}
use lime_security_powerauth.Protocol.Types.{SignatureUnlockKeys, ErrorCode}
use lime_security_powerauth.Encryptor.{Encryptor}
use lime_security_powerauth.Session.{Session}
use lime_security_powerauth.Session.Encryptors.{
  create_nonpersonalized_encryptor, create_personalized_encryptor,
}
use lime_security_powerauth.Session.Factors.{
  normalize_signature_unlock_key_from_data, generate_signature_unlock_key,
}
use lime_security_powerauth.Session.KeyValues.{prepare_key_value_map_for_data_signing}
use lime_security_powerauth.Session.Signing.{http_auth_header_name}
use lime_security_powerauth.Session.Status.{ActivationStatus, decode_activation_status}
use lime_security_powerauth.Jni.Objects.{
  Jni, JavaString, JavaBytes, JavaUnlockKeys, JavaCoded, load_signature_unlock_keys, if_ok,
}

-- An Encryptor object: what its handle points to, and the last error code.
pub record JavaEncryptor : Type 0 where
  pub handle : Option Encryptor
  pub last_error_code : ErrorCode

-- The object is created; the failure to create one is the virtual machine's.
unfoldable pub create_java_encryptor_for_cpp_class : ErrorCode × Option Encryptor → JavaEncryptor
create_java_encryptor_for_cpp_class r = record { handle = r.1; last_error_code = r.0 }

-- `cppMap[key] = value` on a map as a list of pairs.
unfoldable pub assign : Bytes → Bytes → List (Bytes × Bytes) → List (Bytes × Bytes)
assign k v [] = (k, v) ∷ []
assign k v (p ∷ rest) =
    let others = assign k v rest in if equal k p.0 then (k, v) ∷ rest else p ∷ others

module _ ⦃jni : Jni⦄ where
  unfoldable pub get_http_auth_header_name : Option Session → Option JavaString
  get_http_auth_header_name none = none
  get_http_auth_header_name (some s) = jni.copy_to_java_string http_auth_header_name

  -- The pairs of two arrays of the same length.
  unfoldable pub copy_pairs :
      List (Option JavaString)
      → List (Option JavaString)
      → List (Bytes × Bytes)
      → List (Bytes × Bytes)
  copy_pairs [] values cpp_map = cpp_map
  copy_pairs (key ∷ keys) [] cpp_map = cpp_map
  copy_pairs (key ∷ keys) (value ∷ values) cpp_map =
      copy_pairs keys values
        (assign (jni.copy_from_java_string key) (jni.copy_from_java_string value) cpp_map)

  unfoldable pub prepare_key_value_dictionary_for_data_signing :
      Option Session
      → Option (List (Option JavaString))
      → Option (List (Option JavaString))
      → Option JavaBytes
  prepare_key_value_dictionary_for_data_signing none keys values = none
  prepare_key_value_dictionary_for_data_signing (some s) none values = none
  prepare_key_value_dictionary_for_data_signing (some s) (some ks) none = none
  prepare_key_value_dictionary_for_data_signing (some s) (some ks) (some vs) =
      if not (length ks == length vs)
      then none
      else jni.copy_to_java_byte_array
          (prepare_key_value_map_for_data_signing (copy_pairs ks vs []))

  unfoldable pub generate_signature_unlock_key_native : Draws → Option JavaBytes
  generate_signature_unlock_key_native draws =
      jni.copy_to_java_byte_array (generate_signature_unlock_key draws)

  module _ ⦃cc : Cc7⦄ ⦃ssl : OpenSsl⦄ where
    status_with : Session → Bytes → Option SignatureUnlockKeys → Option (JavaCoded ActivationStatus)
    status_with s status_blob none = none
    status_with s status_blob (some keys) =
        let r = decode_activation_status s status_blob keys in some (if_ok r.0 r.1)

    unfoldable pub decode_activation_status_native :
        Option Session
        → Option JavaString
        → Option JavaUnlockKeys
        → Option (JavaCoded ActivationStatus)
    unfolding status_with
    decode_activation_status_native none blob keys = none
    decode_activation_status_native (some s) blob none = none
    decode_activation_status_native (some s) none (some keys) = none
    decode_activation_status_native (some s) (some b) (some keys) =
        status_with s (jni.copy_from_java_string (some b)) (load_signature_unlock_keys (some keys))

    unfoldable pub create_nonpersonalized_encryptor_native :
        Option Session → Option JavaBytes → Option EcKey → JavaEncryptor
    create_nonpersonalized_encryptor_native none index key =
        create_java_encryptor_for_cpp_class (ErrorCode.ec_wrong_param, none)
    create_nonpersonalized_encryptor_native (some s) index key =
        create_java_encryptor_for_cpp_class
          (create_nonpersonalized_encryptor s (jni.copy_from_java_byte_array index) key)

    personalized_with : Session → Bytes → Option SignatureUnlockKeys → ErrorCode × Option Encryptor
    personalized_with s index none = (ErrorCode.ec_wrong_param, none)
    personalized_with s index (some keys) = create_personalized_encryptor s index keys

    unfoldable pub create_personalized_encryptor_native :
        Option Session → Option JavaBytes → Option JavaUnlockKeys → JavaEncryptor
    unfolding personalized_with
    create_personalized_encryptor_native none index keys =
        create_java_encryptor_for_cpp_class (ErrorCode.ec_wrong_param, none)
    create_personalized_encryptor_native (some s) index keys = create_java_encryptor_for_cpp_class (
        personalized_with s (jni.copy_from_java_byte_array index) (load_signature_unlock_keys keys))

  unfoldable pub normalize_signature_unlock_key_from_data_native :
      ⦃ssl : OpenSsl⦄ → Option JavaBytes → Option JavaBytes
  normalize_signature_unlock_key_from_data_native any_data =
      jni.copy_to_java_byte_array
        (normalize_signature_unlock_key_from_data (jni.copy_from_java_byte_array any_data))
