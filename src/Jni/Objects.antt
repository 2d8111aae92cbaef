-- ===== src/Jni/Objects.antt =====
-- src/PowerAuth/jni: the Java objects that the native methods read and make. Copying Java strings
-- and byte arrays is cc7's, hence a parameter.
use lime_security_powerauth.Base.{ℕ, Bool, List, [], Option, none, some, Bytes, if◌then◌else◌}
use lime_security_powerauth.Password.{Password, password_data}
use lime_security_powerauth.Protocol.Types.{SessionSetup, SignatureUnlockKeys, ErrorCode}
use lime_security_powerauth.Session.Activation.{
  ActivationStep1Param, ActivationStep2Param, ActivationStep1Result,
}

-- The UTF-16 units of a string, and the bytes of an array.
abbrev pub JavaString : Type 0
JavaString = List ℕ

abbrev pub JavaBytes : Type 0
JavaBytes = List ℕ

-- `cc7::jni`: `CopyFromJavaString`, `CopyFromJavaByteArray`, `CopyToJavaString` and
-- `CopyToJavaByteArray`.
pub record Jni : Type 0 where
  pub copy_from_java_string : Option JavaString → Bytes
  pub copy_from_java_byte_array : Option JavaBytes → Bytes
  pub copy_to_java_string : Bytes → Option JavaString
  pub copy_to_java_byte_array : Bytes → Option JavaBytes

-- A Password object: what its handle points to, `none` for a missing one.
pub record JavaPassword : Type 0 where
  pub handle : Option Password

pub record JavaUnlockKeys : Type 0 where
  pub possession_unlock_key : Option JavaBytes
  pub biometry_unlock_key : Option JavaBytes
  pub user_password : Option JavaPassword

pub record JavaSetup : Type 0 where
  pub application_key : Option JavaString
  pub application_secret : Option JavaString
  pub master_server_public_key : Option JavaString
  pub session_identifier : ℕ
  pub external_encryption_key : Option JavaBytes

pub record JavaStep1Param : Type 0 where
  pub activation_id_short : Option JavaString
  pub activation_otp : Option JavaString
  pub activation_signature : Option JavaString

pub record JavaStep2Param : Type 0 where
  pub activation_id : Option JavaString
  pub ephemeral_nonce : Option JavaString
  pub ephemeral_public_key : Option JavaString
  pub encrypted_server_public_key : Option JavaString
  pub server_data_signature : Option JavaString

pub record JavaStep1Result : Type 0 where
  pub activation_nonce : Option JavaString
  pub c_device_public_key : Option JavaString
  pub application_signature : Option JavaString
  pub ephemeral_public_key : Option JavaString

-- A result object: its `errorCode`, and its other fields where they are set.
pub record JavaCoded (A : Type 0) : Type 0 where
  pub error_code : ErrorCode
  pub fields : Option A

-- The fields are set for EC_Ok only.
unfoldable pub if_ok : {A : Type 0} → ErrorCode → Option A → JavaCoded A
if_ok ErrorCode.ec_ok fields = record { error_code = ErrorCode.ec_ok; fields = fields }
if_ok ErrorCode.ec_encryption fields = record {
  error_code = ErrorCode.ec_encryption;
  fields = none;
}
if_ok ErrorCode.ec_wrong_state fields = record {
  error_code = ErrorCode.ec_wrong_state;
  fields = none;
}
if_ok ErrorCode.ec_wrong_param fields = record {
  error_code = ErrorCode.ec_wrong_param;
  fields = none;
}

data_of_handle : Option Password → Option Bytes
data_of_handle none = none
data_of_handle (some p) = some (password_data p)

-- `GetCppPasswordFromJavaObject` and the data of that password: `none` for a null object and for
-- one with a missing handle.
unfoldable pub cpp_password : Option JavaPassword → Option Bytes
unfolding data_of_handle
cpp_password none = none
cpp_password (some object) = data_of_handle (object.handle)

module _ ⦃jni : Jni⦄ where
  keys_with : JavaUnlockKeys → Option Bytes → Option SignatureUnlockKeys
  keys_with keys none = none
  keys_with keys (some password) = some (record {
    possession_unlock_key = jni.copy_from_java_byte_array (keys.possession_unlock_key);
    biometry_unlock_key = jni.copy_from_java_byte_array (keys.biometry_unlock_key);
    user_password = password;
  })

  -- A null password leaves the empty one, a password with a missing handle is a failure.
  password_of : Option JavaPassword → Option Bytes
  password_of none = some []
  password_of (some object) = cpp_password (some object)

  unfoldable pub load_signature_unlock_keys : Option JavaUnlockKeys → Option SignatureUnlockKeys
  unfolding keys_with password_of
  load_signature_unlock_keys none = none
  load_signature_unlock_keys (some keys) = keys_with keys (password_of (keys.user_password))

  unfoldable pub copied_setup : JavaSetup → SessionSetup
  copied_setup setup = record {
    application_key = jni.copy_from_java_string (setup.application_key);
    application_secret = jni.copy_from_java_string (setup.application_secret);
    master_server_public_key = jni.copy_from_java_string (setup.master_server_public_key);
    session_identifier = setup.session_identifier;
    external_encryption_key = jni.copy_from_java_byte_array (setup.external_encryption_key);
  }

  -- The external key is set in the new object only where the session has one.
  unfoldable pub java_setup : Bool → SessionSetup → JavaSetup
  java_setup has_key setup = record {
    application_key = jni.copy_to_java_string (setup.application_key);
    application_secret = jni.copy_to_java_string (setup.application_secret);
    master_server_public_key = jni.copy_to_java_string (setup.master_server_public_key);
    session_identifier = setup.session_identifier;
    external_encryption_key =
        if has_key then jni.copy_to_java_byte_array (setup.external_encryption_key) else none;
  }

  unfoldable pub copied_step1 : JavaStep1Param → ActivationStep1Param
  copied_step1 param = record {
    activation_id_short = jni.copy_from_java_string (param.activation_id_short);
    activation_otp = jni.copy_from_java_string (param.activation_otp);
    activation_signature = jni.copy_from_java_string (param.activation_signature);
  }

  unfoldable pub copied_step2 : JavaStep2Param → ActivationStep2Param
  copied_step2 param = record {
    activation_id = jni.copy_from_java_string (param.activation_id);
    ephemeral_nonce = jni.copy_from_java_string (param.ephemeral_nonce);
    ephemeral_public_key = jni.copy_from_java_string (param.ephemeral_public_key);
    encrypted_server_public_key = jni.copy_from_java_string (param.encrypted_server_public_key);
    server_data_signature = jni.copy_from_java_string (param.server_data_signature);
  }

  unfoldable pub java_step1 : Option ActivationStep1Result → Option JavaStep1Result
  java_step1 none = none
  java_step1 (some result) = some (record {
    activation_nonce = jni.copy_to_java_string (result.activation_nonce);
    c_device_public_key = jni.copy_to_java_string (result.c_device_public_key);
    application_signature = jni.copy_to_java_string (result.application_signature);
    ephemeral_public_key = jni.copy_to_java_string (result.ephemeral_public_key);
  })
