-- ===== src/Session/Factors.antt =====
-- src/PowerAuth/Session.cpp: the password, the biometry key and the external encryption key.
pub mod Cases
pub mod PasswordChange
pub mod ExternalKey
pub mod Stored
use lime_security_powerauth.Base.{
  ℕ, Bool, true, false, not, ◌&&◌, ◌||◌, [], Option, none, some, ◌==◌, if◌then◌else◌, is_empty,
  equal, Bytes, length, take,
}
use lime_security_powerauth.Platform.{OpenSsl}
use lime_security_powerauth.Crypto.Digest.{sha256}
use lime_security_powerauth.Crypto.Prng.{Draws, get_random_data}
use lime_security_powerauth.Protocol.Constants.{
  signature_key_size, sf_knowledge, pbkdf2_salt_size, pbkdf2_pass_iterations,
}
use lime_security_powerauth.Protocol.Locking.{
  lock_signature_keys, unlock_signature_keys, protect_signature_keys_with_eek,
}
use lime_security_powerauth.Protocol.Types.{
  ErrorCode, PersistentData, SignatureKeys, SignatureUnlockKeys, SignatureUnlockKeysReq, no_keys,
  no_unlock_keys, uses_external_key, set_uses_external_key, set_waiting_for_vault_unlock,
}
use lime_security_powerauth.Session.{Session, activation_data, eek, has_external_encryption_key}

module _ ⦃ssl : OpenSsl⦄ where
  unfoldable pub password_request : Session → Bytes → Bytes → ℕ → SignatureUnlockKeysReq
  password_request s password salt iterations = record {
    factor = sf_knowledge;
    keys = record no_unlock_keys { user_password = password };
    ext_key = eek s;
    pbkdf2_salt = some salt;
    pbkdf2_iter = iterations;
  }

  relock : Session → PersistentData → Bytes → Draws → Option SignatureKeys → Session × ErrorCode
  unfolding password_request
  relock s pd new_password salt_draws none = (s, ErrorCode.ec_encryption)
  relock s pd new_password salt_draws (some plain_keys) =
      let new_salt = get_random_data pbkdf2_salt_size true salt_draws in
      let (encrypted_keys, locked) =
        lock_signature_keys no_keys plain_keys
          (password_request s new_password new_salt pbkdf2_pass_iterations) in
      if not locked then (s, ErrorCode.ec_encryption) else (
        record s {
          pd = some (record pd {
            sk = record (pd.sk) { knowledge_key = encrypted_keys.knowledge_key };
            password_salt = new_salt;
            password_iterations = pbkdf2_pass_iterations;
          });
        },
        ErrorCode.ec_ok,
      )

  change_activated : Session → Bytes → Bytes → Draws → Option PersistentData → Session × ErrorCode
  unfolding relock
  change_activated s old_password new_password salt_draws none = (s, ErrorCode.ec_wrong_state)
  change_activated s old_password new_password salt_draws (some pd) =
      relock s pd new_password salt_draws (
        unlock_signature_keys pd.sk
          (password_request s old_password pd.password_salt pd.password_iterations))

  unfoldable pub change_user_password : Session → Bytes → Bytes → Draws → Session × ErrorCode
  unfolding change_activated
  change_user_password s old_password new_password salt_draws =
      change_activated s old_password new_password salt_draws (activation_data s)

  add_eek_to : Session → Bytes → Option PersistentData → Session × ErrorCode
  add_eek_to s key none = (s, ErrorCode.ec_wrong_state)
  add_eek_to s key (some pd) =
      let (sk, done) = protect_signature_keys_with_eek pd.sk key true in
      if uses_external_key pd.flags_u32
      then (s, ErrorCode.ec_wrong_state)
      else if not (length key == signature_key_size)
      then (s, ErrorCode.ec_wrong_param)
      else if not done
      then (s, ErrorCode.ec_encryption)
      else (
        record s {
          setup = record (s.setup) { external_encryption_key = key };
          pd = some (record pd { sk = sk; flags_u32 = set_uses_external_key true pd.flags_u32 });
        },
        ErrorCode.ec_ok,
      )

  unfoldable pub add_external_encryption_key : Session → Bytes → Session × ErrorCode
  unfolding add_eek_to
  add_external_encryption_key s key = add_eek_to s key (activation_data s)

  remove_eek_from : Session → Option PersistentData → Session × ErrorCode
  remove_eek_from s none = (s, ErrorCode.ec_wrong_state)
  remove_eek_from s (some pd) =
      let (sk, done) =
        protect_signature_keys_with_eek pd.sk s.setup.external_encryption_key false in
      if not (uses_external_key pd.flags_u32)
      then (s, ErrorCode.ec_wrong_state)
      else if not (has_external_encryption_key s)
      then (s, ErrorCode.ec_wrong_state)
      else if not done
      then (s, ErrorCode.ec_encryption)
      else (
        record s {
          setup = record (s.setup) { external_encryption_key = [] };
          pd = some (record pd { sk = sk; flags_u32 = set_uses_external_key false pd.flags_u32 });
        },
        ErrorCode.ec_ok,
      )

  unfoldable pub remove_external_encryption_key : Session → Session × ErrorCode
  unfolding remove_eek_from
  remove_external_encryption_key s = remove_eek_from s (activation_data s)

  -- `key.resize(SIGNATURE_KEY_SIZE)` of a 32-byte digest
  unfoldable pub normalize_signature_unlock_key_from_data : Bytes → Bytes
  normalize_signature_unlock_key_from_data any_data = take signature_key_size (sha256 any_data)

-- Whether the session is activated with data that do not use an external key.
refuses_eek : Option PersistentData → Bool
refuses_eek none = false
refuses_eek (some pd) = not (uses_external_key pd.flags_u32)

unfoldable pub set_external_encryption_key : Session → Bytes → Session × ErrorCode
unfolding refuses_eek
set_external_encryption_key s key =
    if has_external_encryption_key s
    then (
      s,
      if equal s.setup.external_encryption_key key
          then ErrorCode.ec_ok
          else ErrorCode.ec_wrong_param,
    )
    else if refuses_eek (activation_data s)
    then (s, ErrorCode.ec_wrong_state)
    else if not (is_empty s.setup.external_encryption_key)
    then (s, ErrorCode.ec_wrong_param)
    else if not (length key == signature_key_size)
    then (s, ErrorCode.ec_wrong_param)
    else (record s { setup = record (s.setup) { external_encryption_key = key } }, ErrorCode.ec_ok)

has_biometry : Option PersistentData → ErrorCode × Bool
has_biometry none = (ErrorCode.ec_wrong_state, false)
has_biometry (some pd) = (ErrorCode.ec_ok, not (is_empty pd.sk.biometry_key))

unfoldable pub has_biometry_factor : Session → ErrorCode × Bool
unfolding has_biometry
has_biometry_factor s = has_biometry (activation_data s)

remove_biometry_from : Session → Option PersistentData → Session × ErrorCode
remove_biometry_from s none = (s, ErrorCode.ec_wrong_state)
remove_biometry_from s (some pd) = (
  record s {
    pd = some (record pd {
      sk = record (pd.sk) { biometry_key = [] };
      flags_u32 = set_waiting_for_vault_unlock false pd.flags_u32;
    });
  },
  ErrorCode.ec_ok,
)

unfoldable pub remove_biometry_factor : Session → Session × ErrorCode
unfolding remove_biometry_from
remove_biometry_factor s = remove_biometry_from s (activation_data s)

unfoldable pub generate_signature_unlock_key : Draws → Bytes
generate_signature_unlock_key key_draws = get_random_data signature_key_size true key_draws
