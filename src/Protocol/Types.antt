-- ===== src/Protocol/Types.antt =====
-- The structures of include/PowerAuth/PublicTypes.h and src/PowerAuth/protocol/PrivateTypes.h.
-- A pointer that may be null is an Option.
use lime_security_powerauth.Base.{
  ℕ, ◌+◌, ◌*◌, ◌/◌, ◌%◌, Bool, true, false, [], Option, none, ◌==◌, Bytes,
}
use lime_security_powerauth.Platform.{EcKey}

pub data ErrorCode : Type 0 where
  ec_ok ec_encryption ec_wrong_state ec_wrong_param : ErrorCode

pub record SessionSetup : Type 0 where
  pub application_key : Bytes
  pub application_secret : Bytes
  pub master_server_public_key : Bytes
  pub session_identifier : ℕ
  pub external_encryption_key : Bytes

pub record SignatureUnlockKeys : Type 0 where
  pub possession_unlock_key : Bytes
  pub biometry_unlock_key : Bytes
  pub user_password : Bytes

abbrev pub no_unlock_keys : SignatureUnlockKeys
no_unlock_keys = record { possession_unlock_key = []; biometry_unlock_key = []; user_password = [] }

pub record SignatureKeys : Type 0 where
  pub possession_key : Bytes
  pub knowledge_key : Bytes
  pub biometry_key : Bytes
  pub transport_key : Bytes
  pub uses_external_key : Bool

abbrev pub no_keys : SignatureKeys
no_keys = record {
  possession_key = [];
  knowledge_key = [];
  biometry_key = [];
  transport_key = [];
  uses_external_key = false;
}

pub record PersistentData : Type 0 where
  pub signature_counter : ℕ
  pub activation_id : Bytes
  pub password_iterations : ℕ
  pub password_salt : Bytes
  pub sk : SignatureKeys
  pub server_public_key : Bytes
  pub device_public_key : Bytes
  pub c_device_private_key : Bytes
  -- the union of the flags; the bit fields are laid out from the lowest bit
  pub flags_u32 : ℕ

abbrev pub no_data : PersistentData
no_data = record {
  signature_counter = 0;
  activation_id = [];
  password_iterations = 0;
  password_salt = [];
  sk = no_keys;
  server_public_key = [];
  device_public_key = [];
  c_device_private_key = [];
  flags_u32 = 0;
}

abbrev pub bit : Bool → ℕ
bit true = 1
bit false = 0

-- `flags.waitingForVaultUnlock` and `flags.usesExternalKey`, read and written.
abbrev pub waiting_for_vault_unlock : ℕ → Bool
waiting_for_vault_unlock flags = flags % 2 == 1

abbrev pub uses_external_key : ℕ → Bool
uses_external_key flags = flags / 2 % 2 == 1

abbrev pub set_waiting_for_vault_unlock : Bool → ℕ → ℕ
set_waiting_for_vault_unlock b flags = flags / 2 * 2 + bit b

abbrev pub set_uses_external_key : Bool → ℕ → ℕ
set_uses_external_key b flags = flags / 4 * 4 + bit b * 2 + flags % 2

pub record ActivationData : Type 0 where
  pub master_server_public_key : Option EcKey
  pub device_private_key : Option EcKey
  pub ephemeral_server_key : Option EcKey
  pub ephemeral_device_key : Option EcKey
  pub server_public_key : Option EcKey
  pub activation_id : Bytes
  pub server_public_key_data : Bytes
  pub device_public_key_data : Bytes
  pub activation_nonce : Bytes
  pub expanded_otp : Bytes
  pub master_shared_secret : Bytes

abbrev pub no_activation_data : ActivationData
no_activation_data = record {
  master_server_public_key = none;
  device_private_key = none;
  ephemeral_server_key = none;
  ephemeral_device_key = none;
  server_public_key = none;
  activation_id = [];
  server_public_key_data = [];
  device_public_key_data = [];
  activation_nonce = [];
  expanded_otp = [];
  master_shared_secret = [];
}

-- `SignatureUnlockKeysReq`. Every caller passes unlock keys, so `keys` is never null.
pub record SignatureUnlockKeysReq : Type 0 where
  pub factor : ℕ
  pub keys : SignatureUnlockKeys
  pub ext_key : Option Bytes
  pub pbkdf2_salt : Option Bytes
  pub pbkdf2_iter : ℕ
