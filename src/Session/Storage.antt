-- ===== src/Session/Storage.antt =====
-- src/PowerAuth/Session.cpp: saveSessionState and loadSessionState.
pub mod RoundTrip
pub mod Cases
pub mod Loaded
use lime_security_powerauth.Base.{
  ℕ, bit_and, bit_or, Bool, true, false, not, [], Option, none, some, ◌==◌, if◌then◌else◌, Bytes,
}
use lime_security_powerauth.Platform.{Cc7}
use lime_security_powerauth.Protocol.Types.{PersistentData, ErrorCode, no_data}
use lime_security_powerauth.Protocol.Persistence.{
  serialize_persistent_data, deserialize_persistent_data,
}
use lime_security_powerauth.Session.{Session, State, activation_data, commit_new_persistent_state}
use lime_security_powerauth.Utils.Reader.{Read, reader, pure, read_byte, ◌>>=◌, ◌>>◌}
use lime_security_powerauth.Utils.Reader
use lime_security_powerauth.Utils.Writer.{DataWriter, writer, write_byte, serialized_data}
use lime_security_powerauth.Utils.Writer

abbrev pub has_persistent_data : ℕ
has_persistent_data = 2

abbrev pub data_tag : ℕ
data_tag = b'P'

abbrev pub data_ver : ℕ
data_ver = b'A'

module _ ⦃cc : Cc7⦄ where
  -- The flags byte, and the data behind it where there are some.
  write_state : Option PersistentData → DataWriter → DataWriter
  write_state none w = write_byte 0 w
  write_state (some pd) w = serialize_persistent_data pd (write_byte has_persistent_data w)

  unfoldable pub save_session_state : Session → Bytes
  unfolding write_state
  save_session_state s =
      serialized_data
        (Writer.close_version
          (write_state (activation_data s) (Writer.open_version data_tag data_ver writer))).0

  -- After the version and the flags: `none` where no data are announced.
  read_data_if : ℕ → Read (Option PersistentData)
  unfolding pure
  read_data_if flags =
      if bit_and flags has_persistent_data == 0
      then pure none
      else deserialize_persistent_data >>= λ pd. pure (some pd)

  pub read_state : Read (Option PersistentData)
  unfolding read_data_if
  read_state = do Reader.open_version data_tag data_ver; flags ← read_byte; read_data_if flags

  -- `none` is a false result, and then there are no data to keep.
  load_result : Option (Option PersistentData) → Session → Session × ErrorCode
  load_result none s =
      (commit_new_persistent_state (some no_data) State.empty s, ErrorCode.ec_wrong_param)
  load_result (some none) s =
      (commit_new_persistent_state (some no_data) State.empty s, ErrorCode.ec_ok)
  load_result (some (some new_data)) s =
      (commit_new_persistent_state (some new_data) State.activated s, ErrorCode.ec_ok)

  unfoldable pub load_session_state : Bytes → Session → Session × ErrorCode
  unfolding load_result read_state
  load_session_state serialized_state s =
      let (result, r) = read_state (reader serialized_state) in load_result result s
