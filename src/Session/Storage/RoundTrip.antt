-- ===== src/Session/Storage/RoundTrip.antt =====
-- Loading what was saved.
use lime_security_powerauth.Base.{
  ℕ, ◌+◌, ◌*◌, ◌≡◌, refl, sym, ap, ◌∙◌, false, List, [], ◌∷◌, ◌++◌, append-nil, Option, none, some,
  arith, Bytes,
}
use lime_security_powerauth.Platform.{Cc7, Cc7Laws}
use lime_security_powerauth.Protocol.Types.{PersistentData, ErrorCode}
use lime_security_powerauth.Protocol.Persistence.{
  serialize_persistent_data, deserialize_persistent_data,
}
use lime_security_powerauth.Protocol.Persistence.RoundTrip.{
  IsStorable, data_layout, serialize_persistent_data-append, Parses-deserialize_persistent_data,
}
use lime_security_powerauth.Session.{
  Session, State, activation_data, has_valid_activation, commit_new_persistent_state,
}
use lime_security_powerauth.Session.Storage.{
  save_session_state, load_session_state, write_state, read_state, read_data_if, load_result,
  has_persistent_data, data_tag, data_ver,
}
use lime_security_powerauth.Utils.Reader.{reader, pure}
use lime_security_powerauth.Utils.Reader.Parses.{
  Parses, Parses-bind, Parses-pure, Parses-read_byte, Parses-open_version,
}
use lime_security_powerauth.Utils.Writer.{DataWriter, writer, write_byte, serialized_data}
use lime_security_powerauth.Utils.Writer
use lime_security_powerauth.Utils.Writer.Layout.{open_version-append}

module _ ⦃cc : Cc7⦄ where
  abbrev IsKept : Option PersistentData → Type 0
  IsKept none = Unit {0}
  IsKept (some pd) = IsStorable pd

  state_layout : Option PersistentData → Bytes
  state_layout none = data_tag ∷ data_ver ∷ 0 ∷ []
  state_layout (some pd) = (data_tag ∷ data_ver ∷ has_persistent_data ∷ []) ++ data_layout pd

  opened : DataWriter
  opened = record {
    buffer = data_tag ∷ data_ver ∷ [];
    version_stack = (data_tag * 256 + data_ver) ∷ [];
  }

  closed-write_state :
      (o : Option PersistentData)
      → IsKept o
      → serialized_data
          (Writer.close_version (write_state o (Writer.open_version data_tag data_ver writer))).0
        ≡ state_layout o
  unfolding write_state state_layout serialized_data writer Writer.close_version write_byte opened
  closed-write_state none h = unfold Writer.open_version in refl
  closed-write_state (some pd) h =
      ap (λ w. (Writer.close_version w).0.buffer)
        (ap (λ w. serialize_persistent_data pd (write_byte has_persistent_data w))
            (open_version-append data_tag data_ver writer (omega arith))
          ∙ serialize_persistent_data-append pd (write_byte has_persistent_data opened) h.fits)

  module _ (laws : Cc7Laws cc) where
    Parses-read_data_if :
        (pd : PersistentData) (s : List ℕ)
        → IsStorable pd
        → Parses (read_data_if has_persistent_data) (data_layout pd) (some pd) s s
    unfolding read_data_if
    Parses-read_data_if pd s h = rw append-nil at (
        Parses-bind deserialize_persistent_data (λ d. pure (some d)) (data_layout pd) [] s s s
          (Parses-deserialize_persistent_data laws pd s h) (Parses-pure (some pd) s))

    Parses-read_state :
        (o : Option PersistentData)
        → IsKept o
        → Parses read_state (state_layout o) o [] ((data_tag * 256 + data_ver) ∷ [])
    unfolding read_state state_layout
    Parses-read_state none h =
        Parses-bind _ _ (data_tag ∷ data_ver ∷ []) (0 ∷ []) _ _ _
          (Parses-open_version data_tag data_ver data_ver [] (omega arith) (omega arith))
          (Parses-bind _ _ (0 ∷ []) [] _ _ _ (Parses-read_byte 0 _)
            (unfold read_data_if in Parses-pure none _))
    Parses-read_state (some pd) h =
        Parses-bind _ _ (data_tag ∷ data_ver ∷ []) (has_persistent_data ∷ data_layout pd) _ _ _
          (Parses-open_version data_tag data_ver data_ver [] (omega arith) (omega arith))
          (Parses-bind _ _ (has_persistent_data ∷ []) (data_layout pd) _ _ _ (Parses-read_byte 2 _)
            (Parses-read_data_if pd _ h))

    load-save :
        (s t : Session) (o : Option PersistentData)
        → activation_data s ≡ o
        → IsKept o
        → load_session_state (save_session_state s) t ≡ load_result (some o) t
    unfolding load_session_state save_session_state reader
    load-save s t o e h =
        ap (λ b. load_session_state b t)
          (ap
              (λ p.
                serialized_data
                  (Writer.close_version
                    (write_state p (Writer.open_version data_tag data_ver writer))).0)
              e
            ∙ closed-write_state o h)
        ∙ ap (λ x. load_result x.0 t)
            ((Parses-read_state o h).at (reader (state_layout o)) []
              (sym (append-nil (state_layout o))) refl)

    -- A session that is activated with storable data and saved restores those data, and the state
    -- Activated, in any session that loads the bytes; the loading session keeps its own setup and
    -- drops any activation data. Storable data are valid and fit their fields, and the byte order
    -- functions undo one another.
    pub load-save_activated :
        (s t : Session) (pd : PersistentData)
        → activation_data s ≡ some pd
        → IsStorable pd
        → load_session_state (save_session_state s) t ≡ (
          record { state = State.activated; setup = t.setup; pd = some pd; ad = none },
          ErrorCode.ec_ok,
        )
    load-save_activated s t pd e h =
        load-save s t (some pd) e h ∙ unfold load_result commit_new_persistent_state in refl

    -- A session without a valid activation, an activation in progress included, saves a state that
    -- any session loads as the empty state, with success and its own setup.
    pub load-save_empty :
        (s t : Session)
        → has_valid_activation s ≡ false
        → load_session_state (save_session_state s) t
          ≡ (record { state = State.empty; setup = t.setup; pd = none; ad = none }, ErrorCode.ec_ok)
    load-save_empty s t e =
        load-save s t none (unfold activation_data in rw e) tt
        ∙ unfold load_result commit_new_persistent_state in refl
