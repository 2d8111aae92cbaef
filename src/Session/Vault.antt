-- ===== src/Session/Vault.antt =====
-- src/PowerAuth/Session.cpp: the vault key and what it unlocks.
pub mod Opened
pub mod Cases
pub mod Biometry
pub mod Stored
use lime_security_powerauth.Base.{
  ℕ, ◌+◌, ◌-◌, ◌%◌, ◌^◌, Bool, true, false, not, ◌&&◌, ◌||◌, [], Option, none, some, ◌==◌,
  if◌then◌else◌, is_empty, equal, Bytes, length,
}
use lime_security_powerauth.Platform.{Cc7, OpenSsl, EcKey}
use lime_security_powerauth.Crypto.Aes.{cbc_decrypt_padding}
use lime_security_powerauth.Crypto.Ecc.{
  import_private_key, import_public_key, ecdh_shared_secret, ecdsa_compute_signature,
}
use lime_security_powerauth.Protocol.Constants.{sf_transport, sf_biometry, vault_key_size, zero_iv}
use lime_security_powerauth.Protocol.Derivation.{
  derive_secret_key, derive_all_secret_keys, reduce_shared_secret,
}
use lime_security_powerauth.Protocol.Locking.{
  is_present, unlock_signature_keys, lock_signature_keys,
}
use lime_security_powerauth.Protocol.Types.{
  ErrorCode, PersistentData, SignatureKeys, SignatureUnlockKeys, SignatureUnlockKeysReq, no_keys,
  waiting_for_vault_unlock, set_waiting_for_vault_unlock,
}
use lime_security_powerauth.Session.{Session, activation_data, eek}

unfoldable pub transport_request : Session → SignatureUnlockKeys → SignatureUnlockKeysReq
transport_request s keys = record {
  factor = sf_transport;
  keys = keys;
  ext_key = eek s;
  pbkdf2_salt = none;
  pbkdf2_iter = 0;
}

-- cc7::U64 `- 1`
abbrev pub previous_counter : ℕ → ℕ
previous_counter ctr = (ctr + 2 ^ 64 - 1) % 2 ^ 64

-- The vault key, or the code of a failure.
pub data Unlocked : Type 0 where
  key : Bytes → Unlocked
  failed : ErrorCode → Unlocked

module _ ⦃cc : Cc7⦄ ⦃ssl : OpenSsl⦄ where
  opened_vault : Bytes → Unlocked
  opened_vault out_key =
      if is_empty out_key
      then failed ErrorCode.ec_encryption
      else if not (length out_key == vault_key_size)
      then failed ErrorCode.ec_encryption
      else key out_key

  vault_with : PersistentData → Bytes → Option SignatureKeys → Unlocked
  unfolding opened_vault
  vault_with pd encrypted_vault_key none = failed ErrorCode.ec_wrong_param
  vault_with pd encrypted_vault_key (some plain) =
      let vault_transport_key =
        derive_secret_key plain.transport_key (previous_counter pd.signature_counter) in
      let out_key = (cbc_decrypt_padding vault_transport_key zero_iv encrypted_vault_key).0 in
      if is_empty vault_transport_key then failed ErrorCode.ec_encryption else opened_vault out_key

  vault_from : Session → PersistentData → SignatureUnlockKeys → Option Bytes → Unlocked
  unfolding vault_with
  vault_from s pd keys none = failed ErrorCode.ec_encryption
  vault_from s pd keys (some encrypted_vault_key) =
      if is_empty encrypted_vault_key
      then failed ErrorCode.ec_encryption
      else vault_with pd encrypted_vault_key
          (unlock_signature_keys pd.sk (transport_request s keys))

  vault_activated :
      Session → Bytes → SignatureUnlockKeys → Option PersistentData → Session × Unlocked
  unfolding vault_from
  vault_activated s c_vault_key keys none = (s, failed ErrorCode.ec_wrong_state)
  vault_activated s c_vault_key keys (some pd) =
      let pd' : PersistentData = record pd {
        flags_u32 = set_waiting_for_vault_unlock false pd.flags_u32;
      } in
      let s' : Session = record s { pd = some pd' } in
      if not (waiting_for_vault_unlock pd.flags_u32)
      then (s, failed ErrorCode.ec_wrong_state)
      else if is_empty c_vault_key
      then (s', failed ErrorCode.ec_wrong_param)
      else (s', vault_from s' pd' keys (cc.from_base64 c_vault_key))

  unfoldable pub decrypt_vault_key : Session → Bytes → SignatureUnlockKeys → Session × Unlocked
  unfolding vault_activated
  decrypt_vault_key s c_vault_key keys = vault_activated s c_vault_key keys (activation_data s)

  derive_with : ℕ → Unlocked → ErrorCode × Bytes
  derive_with key_index (failed code) = (code, [])
  derive_with key_index (key vault_key) =
      let out_key = derive_secret_key vault_key key_index in
      (if is_empty out_key then ErrorCode.ec_encryption else ErrorCode.ec_ok, out_key)

  -- The session, the code and the derived key.
  unfoldable pub derive_cryptographic_key_from_vault_key :
      Session → Bytes → SignatureUnlockKeys → ℕ → Session × (ErrorCode × Bytes)
  unfolding derive_with
  derive_cryptographic_key_from_vault_key s c_vault_key keys key_index =
      let (s', vault) = decrypt_vault_key s c_vault_key keys in (s', derive_with key_index vault)

  -- The device's private key from the persistent data, `none` where it cannot be decrypted.
  pub device_key_data : Option PersistentData → Bytes → Option Bytes
  device_key_data none vault_key = none
  device_key_data (some pd) vault_key =
      let device_private_key_data =
        (cbc_decrypt_padding vault_key zero_iv pd.c_device_private_key).0 in
      if is_empty device_private_key_data then none else some device_private_key_data

  signature_by : Bytes → Option Bytes → Option Bytes
  signature_by in_data none = none
  signature_by in_data (some device_private_key_data) =
      ecdsa_compute_signature in_data (import_private_key none device_private_key_data)

  reported : Option Bytes → ErrorCode × Bytes
  reported none = (ErrorCode.ec_encryption, [])
  reported (some out_signature) = (ErrorCode.ec_ok, out_signature)

  sign_with : Session → Bytes → Unlocked → ErrorCode × Bytes
  unfolding device_key_data signature_by reported
  sign_with s in_data (failed code) = (code, [])
  sign_with s in_data (key vault_key) =
      reported (signature_by in_data (device_key_data s.pd vault_key))

  -- The session, the code and the signature.
  unfoldable pub sign_data_with_device_private_key :
      Session → Bytes → SignatureUnlockKeys → Bytes → Session × (ErrorCode × Bytes)
  unfolding sign_with
  sign_data_with_device_private_key s c_vault_key keys in_data =
      let (s', vault) = decrypt_vault_key s c_vault_key keys in (s', sign_with s' in_data vault)

  -- The secret that the device shares with the server, `none` where a step of it fails.
  pub shared_with : PersistentData → Option Bytes → Option Bytes
  shared_with pd none = none
  shared_with pd (some device_private_key_data) =
      let device_private_key = import_private_key none device_private_key_data in
      let server_public_key = import_public_key none pd.server_public_key in
      let master_secret =
        reduce_shared_secret (ecdh_shared_secret server_public_key device_private_key) in
      if is_empty master_secret then none else some master_secret

  -- Locking the biometry key that the shared secret gives: the keys, and whether it succeeded.
  biometry_locked :
      Session → PersistentData → SignatureUnlockKeys → Bytes → Option Bytes → SignatureKeys × Bool
  biometry_locked s pd keys vault_key none = (pd.sk, false)
  biometry_locked s pd keys vault_key (some master_secret) =
      let plain0 : SignatureKeys = record no_keys { uses_external_key = is_present (eek s) } in
      let (plain, test_vault_key, derived) = derive_all_secret_keys plain0 master_secret in
      let lock_request : SignatureUnlockKeysReq = record {
        factor = sf_biometry;
        keys = keys;
        ext_key = eek s;
        pbkdf2_salt = none;
        pbkdf2_iter = 0;
      } in
      if not derived
      then (pd.sk, false)
      else if not (equal test_vault_key vault_key)
      then (pd.sk, false)
      else lock_signature_keys pd.sk plain lock_request

  add_biometry_to :
      Session → SignatureUnlockKeys → Bytes → Option PersistentData → Session × ErrorCode
  unfolding shared_with biometry_locked device_key_data
  add_biometry_to s keys vault_key none = (s, ErrorCode.ec_wrong_state)
  add_biometry_to s keys vault_key (some pd) =
      let (sk, locked) =
        biometry_locked s pd keys vault_key
          (shared_with pd (device_key_data (some pd) vault_key)) in
      (
        record s { pd = some (record pd { sk = sk }) },
        if locked then ErrorCode.ec_ok else ErrorCode.ec_encryption,
      )

  add_biometry_with : Session → SignatureUnlockKeys → Unlocked → Session × ErrorCode
  unfolding add_biometry_to
  add_biometry_with s keys (failed code) = (s, code)
  add_biometry_with s keys (key vault_key) = add_biometry_to s keys vault_key s.pd

  unfoldable pub add_biometry_factor : Session → Bytes → SignatureUnlockKeys → Session × ErrorCode
  unfolding add_biometry_with
  add_biometry_factor s c_vault_key keys =
      if is_empty keys.biometry_unlock_key
      then (s, ErrorCode.ec_wrong_param)
      else let (s', vault) = decrypt_vault_key s c_vault_key keys in add_biometry_with s' keys vault
