-- ===== src/Session/Storage/Cases.antt =====
-- What loading a state does on each branch.
use lime_security_powerauth.Base.{◌≡◌, refl, true, Option, none, some, Bytes}
use lime_security_powerauth.Platform.{Cc7}
use lime_security_powerauth.Protocol.Types.{PersistentData, ErrorCode}
use lime_security_powerauth.Protocol.Validation.{validate_persistent_data}
use lime_security_powerauth.Protocol.Validation.Whole.{validate_persistent_data-IsWhole}
use lime_security_powerauth.Session.{Session, State, commit_new_persistent_state}
use lime_security_powerauth.Session.Storage.{read_state, load_result, load_session_state}
use lime_security_powerauth.Session.Storage.Loaded.{Yields-read_state}
use lime_security_powerauth.Utils.Reader.{reader}

abbrev pub emptied : Session → Session
emptied s = record s { state = State.empty; pd = none; ad = none }

module _ ⦃cc : Cc7⦄ where
  -- The bytes are no saved state, one without an activation, or one with persistent data.
  pub data Loading (s : Session) (b : Bytes) : Session × ErrorCode → Type 0 where
    malformed : (read_state (reader b)).0 ≡ none → Loading s b (emptied s, ErrorCode.ec_wrong_param)
    without_activation :
        (read_state (reader b)).0 ≡ some none → Loading s b (emptied s, ErrorCode.ec_ok)
    restored :
        (pd : PersistentData)
        → (read_state (reader b)).0 ≡ some (some pd)
        → validate_persistent_data pd ≡ true
        → Loading s b
            (record s { state = State.activated; pd = some pd; ad = none }, ErrorCode.ec_ok)

  Loading-load_result :
      (s : Session) (b : Bytes) (o : Option (Option PersistentData))
      → (read_state (reader b)).0 ≡ o
      → Loading s b (load_result o s)
  unfolding load_result commit_new_persistent_state
  Loading-load_result s b none e = malformed e
  Loading-load_result s b (some none) e = without_activation e
  Loading-load_result s b (some (some pd)) e =
      restored pd e (validate_persistent_data-IsWhole pd (Yields-read_state (reader b) (some pd) e))

  -- Loading bytes that are no saved state empties the session with EC_WrongParam, bytes of a state
  -- without an activation empty it with EC_Ok, and those of one with persistent data make it
  -- activated with just the data that were read, which pass the validation. The setup is kept, and
  -- activation data are dropped whatever the bytes are.
  pub Loading-load_session_state : (s : Session) (b : Bytes) → Loading s b (load_session_state b s)
  unfolding load_session_state
  Loading-load_session_state s b = Loading-load_result s b (read_state (reader b)).0 refl
