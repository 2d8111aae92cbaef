-- ===== src/Protocol/Persistence/RoundTrip.antt =====
-- The bytes of PersistentData, and reading them back.
use lime_security_powerauth.Base.{
  ℕ, ◌+◌, ◌*◌, ◌^◌, ◌≤◌, ◌<◌, ◌≡◌, refl, sym, ap, ◌∙◌, inl, inr, true, List, [], ◌∷◌, ◌++◌,
  append_assoc, append-nil, arith, if◌then◌else◌, Bytes, length,
}
use lime_security_powerauth.Platform.{Cc7, Cc7Laws}
use lime_security_powerauth.Protocol.Constants.{pbkdf2_salt_size, signature_key_size}
use lime_security_powerauth.Protocol.Types.{PersistentData, uses_external_key}
use lime_security_powerauth.Protocol.Validation.{validate_persistent_data}
use lime_security_powerauth.Protocol.Persistence.{
  serialize_persistent_data, deserialize_persistent_data, pd_version, write_fields,
}
use lime_security_powerauth.Utils.Reader.{pure, fail}
use lime_security_powerauth.Utils.Reader.Parses.{
  Parses, Parses-bind, Parses-pure, Parses-open_version, Parses-close_version, Parses-read_u32,
  Parses-read_u64, Parses-read_data, Parses-read_string,
}
use lime_security_powerauth.Utils.Writer.{
  DataWriter, write_u32, write_u64, write_data, write_string, write_memory, max_count,
}
use lime_security_powerauth.Utils.Writer
use lime_security_powerauth.Utils.Writer.Layout.{
  append, data_bytes, write_data-append, write_string-append, open_version-append, write_u32-append,
  write_u64-append,
}

-- The variable parts fit a count.
pub record FitsCounts (pd : PersistentData) : Type 0 where
  pub id_fits : length pd.activation_id ≤ max_count
  pub salt_fits : length pd.password_salt ≤ max_count
  pub possession_fits : length pd.sk.possession_key ≤ max_count
  pub knowledge_fits : length pd.sk.knowledge_key ≤ max_count
  pub biometry_fits : length pd.sk.biometry_key ≤ max_count
  pub transport_fits : length pd.sk.transport_key ≤ max_count
  pub server_fits : length pd.server_public_key ≤ max_count
  pub device_fits : length pd.device_public_key ≤ max_count
  pub private_fits : length pd.c_device_private_key ≤ max_count

-- What a session keeps of its data, and what the bytes can hold.
pub record IsStorable (pd : PersistentData) : Type 0 where
  pub valid : validate_persistent_data pd ≡ true
  pub counter_u64 : pd.signature_counter < 2 ^ 64
  pub iterations_u32 : pd.password_iterations < 2 ^ 32
  pub flags_u32_range : pd.flags_u32 < 2 ^ 32
  pub salt_size : length pd.password_salt ≡ pbkdf2_salt_size
  pub possession_size : length pd.sk.possession_key ≡ signature_key_size
  pub knowledge_size : length pd.sk.knowledge_key ≡ signature_key_size
  pub transport_size : length pd.sk.transport_key ≡ signature_key_size
  pub same_eek : pd.sk.uses_external_key ≡ uses_external_key pd.flags_u32
  pub fits : FitsCounts pd

module _ ⦃cc : Cc7⦄ where
  tail_bytes : PersistentData → Bytes
  tail_bytes pd =
      data_bytes pd.server_public_key
      ++ (data_bytes pd.device_public_key
          ++ (data_bytes pd.c_device_private_key ++ (cc.to_big_endian 4 pd.flags_u32 ++ [])))

  key_bytes : PersistentData → Bytes
  key_bytes pd =
      data_bytes pd.sk.possession_key
      ++ (data_bytes pd.sk.knowledge_key
          ++ (data_bytes pd.sk.biometry_key ++ (data_bytes pd.sk.transport_key ++ tail_bytes pd)))

  field_bytes : PersistentData → Bytes
  unfolding tail_bytes key_bytes
  field_bytes pd =
      cc.to_big_endian 8 pd.signature_counter
      ++ (data_bytes pd.activation_id
          ++ (cc.to_big_endian 4 pd.password_iterations
              ++ (data_bytes pd.password_salt ++ key_bytes pd)))

  unfoldable pub data_layout : PersistentData → Bytes
  unfolding field_bytes
  data_layout pd = (b'P' ∷ pd_version ∷ []) ++ field_bytes pd

  write_fields-append :
      (pd : PersistentData) (w : DataWriter)
      → FitsCounts pd
      → write_fields pd w ≡ append (field_bytes pd) w
  unfolding write_fields field_bytes
  write_fields-append pd w h = simp (
    write_u64-append,
    write_u32-append,
    write_string-append pd.activation_id _ h.id_fits,
    write_data-append pd.password_salt _ h.salt_fits,
    write_data-append pd.sk.possession_key _ h.possession_fits,
    write_data-append pd.sk.knowledge_key _ h.knowledge_fits,
    write_data-append pd.sk.biometry_key _ h.biometry_fits,
    write_data-append pd.sk.transport_key _ h.transport_fits,
    write_data-append pd.server_public_key _ h.server_fits,
    write_data-append pd.device_public_key _ h.device_fits,
    write_data-append pd.c_device_private_key _ h.private_fits,
    append_assoc,
    append-nil,
  )

  -- Serialization appends the layout and leaves the stack of versions as it was.
  pub serialize_persistent_data-append :
      (pd : PersistentData) (w : DataWriter)
      → FitsCounts pd
      → serialize_persistent_data pd w ≡ append (data_layout pd) w
  unfolding serialize_persistent_data data_layout Writer.close_version
  serialize_persistent_data-append pd w h =
      ap (λ x. (Writer.close_version x).0)
        (ap (write_fields pd) (open_version-append b'P' pd_version w (omega arith))
          ∙ write_fields-append pd opened h)
      ∙ ap (λ b. record w { buffer = b })
          (append_assoc w.buffer (b'P' ∷ pd_version ∷ []) (field_bytes pd))
    where
      opened : DataWriter
      opened = record {
        buffer = w.buffer ++ b'P' ∷ pd_version ∷ [];
        version_stack = (b'P' * 256 + pd_version) ∷ w.version_stack;
      }

  module _ (laws : Cc7Laws cc) where
    Parses-checked :
        (pd' pd : PersistentData) (s : List ℕ)
        → pd' ≡ pd
        → validate_persistent_data pd ≡ true
        → Parses (if validate_persistent_data pd' then pure pd' else fail) [] pd s s
    Parses-checked pd' pd s e h = rw (e, h) (Parses-pure pd s)

    -- From any position, what the layout of storable data holds is read back as those data.
    pub Parses-deserialize_persistent_data :
        (pd : PersistentData) (s : List ℕ)
        → IsStorable pd
        → Parses deserialize_persistent_data (data_layout pd) pd s s
    unfolding deserialize_persistent_data data_layout
    Parses-deserialize_persistent_data pd s h =
        Parses-bind _ _ _ _ _ _ s
          (Parses-open_version b'P' pd_version pd_version s (omega arith) (omega arith))
          (Parses-bind _ _ _ _ _ _ s (Parses-read_u64 laws pd.signature_counter _ h.counter_u64) (
            Parses-bind _ _ _ _ _ _ s (Parses-read_string pd.activation_id _ h.fits.id_fits) (
              Parses-bind _ _ _ _ _ _ s
                (Parses-read_u32 laws pd.password_iterations _ h.iterations_u32)
                (Parses-bind _ _ _ _ _ _ s
                  (Parses-read_data _ pd.password_salt _ h.fits.salt_fits (inr (sym h.salt_size)))
                  (Parses-bind _ _ _ _ _ _ s
                    (Parses-read_data _ pd.sk.possession_key _ h.fits.possession_fits
                      (inr (sym h.possession_size)))
                    (Parses-bind _ _ _ _ _ _ s
                      (Parses-read_data _ pd.sk.knowledge_key _ h.fits.knowledge_fits
                        (inr (sym h.knowledge_size)))
                      (Parses-bind _ _ _ _ _ _ s
                        (Parses-read_data _ pd.sk.biometry_key _ h.fits.biometry_fits (inl refl))
                        (Parses-bind _ _ _ _ _ _ s
                          (Parses-read_data _ pd.sk.transport_key _ h.fits.transport_fits
                            (inr (sym h.transport_size)))
                          (Parses-bind _ _ _ _ _ _ s
                            (Parses-read_data _ pd.server_public_key _ h.fits.server_fits
                              (inl refl))
                            (Parses-bind _ _ _ _ _ _ s
                              (Parses-read_data _ pd.device_public_key _ h.fits.device_fits
                                (inl refl))
                              (Parses-bind _ _ _ _ _ _ s
                                (Parses-read_data _ pd.c_device_private_key _ h.fits.private_fits
                                  (inl refl))
                                (Parses-bind _ _ _ [] _ _ s
                                  (Parses-read_u32 laws pd.flags_u32 _ h.flags_u32_range)
                                  (Parses-bind _ _ [] [] _ _ s (Parses-close_version _ s) (
                                    Parses-checked _ pd s
                                      (ap
                                        (λ b. record pd {
                                          sk = record (pd.sk) { uses_external_key = b };
                                        })
                                        (sym h.same_eek))
                                      h.valid))))))))))))))
