-- ===== src/Session/Status.antt =====
-- src/PowerAuth/Session.cpp: decodeActivationStatus.
pub mod Accepted
use lime_security_powerauth.Base.{
  ℕ, Bool, not, ◌&&◌, ◌||◌, Option, none, some, ltb, ◌==◌, if◌then◌else◌, is_empty, Bytes, length,
  get_or,
}
use lime_security_powerauth.Platform.{Cc7, OpenSsl}
use lime_security_powerauth.Crypto.Aes.{cbc_decrypt}
use lime_security_powerauth.Protocol.Constants.{status_blob_size, zero_iv}
use lime_security_powerauth.Protocol.Locking.{unlock_signature_keys}
use lime_security_powerauth.Protocol.Types.{
  ErrorCode, PersistentData, SignatureKeys, SignatureUnlockKeys,
}
use lime_security_powerauth.Session.{Session, activation_data}
use lime_security_powerauth.Session.Vault.{transport_request}
use lime_security_powerauth.Utils.Reader.{
  Read, reader, pure, fail, read_memory, read_byte, read_u64, ◌>>=◌,
}

-- The states of an activation are numbered from 1, `Created`, to 5, `Removed`.
pub record ActivationStatus : Type 0 where
  pub state : ℕ
  pub fail_count : ℕ
  pub max_fail_count : ℕ
  pub counter : ℕ

abbrev pub created : ℕ
created = 1

abbrev pub removed : ℕ
removed = 5

is_header : Bytes → Bool
is_header hdr =
    get_or hdr 0 0 == 0xDE
    && get_or hdr 1 0 == 0xC0
    && get_or hdr 2 0 == 0xDE
    && get_or hdr 3 0 == 0xD1

module _ ⦃cc : Cc7⦄ where
  -- The tests on the header and on the state.
  accept_status : Bytes → ActivationStatus → Read ActivationStatus
  unfolding pure fail is_header
  accept_status hdr status =
      if not (is_header hdr)
      then fail
      else if ltb status.state created || ltb removed status.state
      then fail
      else pure status

  -- `readMemoryRange`, `readByte`, `readU64`, `readByte`, `readByte`, then the tests.
  unfoldable pub read_status : Read ActivationStatus
  unfolding accept_status
  read_status = do
    hdr ← read_memory 4
    state ← read_byte
    counter ← read_u64
    fail_ctr ← read_byte
    max_fail_ctr ← read_byte
    let status : ActivationStatus = record {
      state = state;
      fail_count = fail_ctr;
      max_fail_count = max_fail_ctr;
      counter = counter;
    }
    accept_status hdr status

  status_of : Option ActivationStatus → ErrorCode × Option ActivationStatus
  status_of none = (ErrorCode.ec_encryption, none)
  status_of (some status) = (ErrorCode.ec_ok, some status)

  module _ ⦃ssl : OpenSsl⦄ where
    decrypt_status : SignatureKeys → Option Bytes → ErrorCode × Option ActivationStatus
    unfolding status_of
    decrypt_status keys none = (ErrorCode.ec_encryption, none)
    decrypt_status keys (some encrypted_status_blob) =
        let blob = cbc_decrypt keys.transport_key zero_iv encrypted_status_blob in
        if not (length encrypted_status_blob == status_blob_size)
        then (ErrorCode.ec_encryption, none)
        else status_of (read_status (reader blob)).0

    status_with : Bytes → Option SignatureKeys → ErrorCode × Option ActivationStatus
    unfolding decrypt_status
    status_with status_blob none = (ErrorCode.ec_wrong_param, none)
    status_with status_blob (some signature_keys) =
        decrypt_status signature_keys (cc.from_base64 status_blob)

    status_activated :
        Session
        → Bytes
        → SignatureUnlockKeys
        → Option PersistentData
        → ErrorCode × Option ActivationStatus
    unfolding status_with
    status_activated s status_blob keys none = (ErrorCode.ec_wrong_state, none)
    status_activated s status_blob keys (some pd) =
        if is_empty status_blob
        then (ErrorCode.ec_wrong_param, none)
        else status_with status_blob (unlock_signature_keys pd.sk (transport_request s keys))

    -- The code, and the status where the code is EC_Ok; the session does not change.
    unfoldable pub decode_activation_status :
        Session → Bytes → SignatureUnlockKeys → ErrorCode × Option ActivationStatus
    unfolding status_activated
    decode_activation_status s status_blob keys =
        status_activated s status_blob keys (activation_data s)
