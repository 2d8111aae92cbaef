-- ===== src/Session/Factors/Stored.antt =====
-- The calls on factors keep the data whole.
use lime_security_powerauth.Base.{
  ◌≡◌, refl, ap, ◌≤◌, inl, true, false, not, [], ◌∷◌, Option, none, some, Bytes, arith, is_empty,
  length, ◌==◌, if-either, if-cases,
}
use lime_security_powerauth.Platform.{OpenSsl}
use lime_security_powerauth.Protocol.Types.{
  PersistentData, SignatureKeys, ErrorCode, no_keys, uses_external_key,
}
use lime_security_powerauth.Protocol.Validation.Whole.{IsWhole, IsStored, IsWhole-flags}
use lime_security_powerauth.Protocol.Locking.Sizes.{size-lock_knowledge, HasKeySizes-protect}
use lime_security_powerauth.Session.{Session, activation_data}
use lime_security_powerauth.Crypto.Prng.{Draws, get_random_data}
use lime_security_powerauth.Crypto.Prng.Laws.{AllDrawn, length-get_random_data}
use lime_security_powerauth.Protocol.Locking.{lock_signature_keys, protect_signature_keys_with_eek}
use lime_security_powerauth.Protocol.Constants.{
  signature_key_size, pbkdf2_salt_size, pbkdf2_pass_iterations,
}
use lime_security_powerauth.Session.{has_external_encryption_key}
use lime_security_powerauth.Session.Outcome.{IsWhole-activation_data, IsHeld}
use lime_security_powerauth.Session.Factors.{
  relock, change_activated, change_user_password, add_eek_to, add_external_encryption_key,
  remove_eek_from, remove_external_encryption_key, remove_biometry_from, remove_biometry_factor,
  password_request,
}

module _ (s : Session) (w : IsStored s.pd) where
  IsStored-remove_biometry_from :
      (o : Option PersistentData) → activation_data s ≡ o → IsStored (remove_biometry_from s o).0.pd
  unfolding remove_biometry_from
  IsStored-remove_biometry_from none e = w
  IsStored-remove_biometry_from (some pd) e =
      let whole = IsWhole-activation_data s e w in
      IsWhole-flags pd pd.signature_counter _ (record (pd.sk) { biometry_key = [] }) whole
        (record {
          possession_size = whole.key_sizes.possession_size;
          knowledge_size = whole.key_sizes.knowledge_size;
          biometry_size = inl refl;
        })

  pub IsStored-remove_biometry_factor : IsStored (remove_biometry_factor s).0.pd
  unfolding remove_biometry_factor
  IsStored-remove_biometry_factor = IsStored-remove_biometry_from (activation_data s) refl

  module _ ⦃ssl : OpenSsl⦄ where
    kept : (code : ErrorCode) → IsHeld (s, code)
    kept code = record { stored = w }

    IsHeld-add_eek_to :
        (key : Bytes) (o : Option PersistentData)
        → activation_data s ≡ o
        → IsHeld (add_eek_to s key o)
    unfolding add_eek_to
    IsHeld-add_eek_to key none e = kept ErrorCode.ec_wrong_state
    IsHeld-add_eek_to key (some pd) e =
        let whole = IsWhole-activation_data s e w in
        let sizes = HasKeySizes-protect pd.sk key true whole.key_sizes in
        if-either IsHeld (uses_external_key pd.flags_u32) (kept ErrorCode.ec_wrong_state) (
          if-either IsHeld (not (length key == signature_key_size)) (kept ErrorCode.ec_wrong_param)
            (if-either IsHeld (not (protect_signature_keys_with_eek pd.sk key true).1)
              (kept ErrorCode.ec_encryption)
              (record { stored = IsWhole-flags pd pd.signature_counter _ _ whole sizes })))

    pub IsStored-add_external_encryption_key :
        (key : Bytes) → IsStored (add_external_encryption_key s key).0.pd
    unfolding add_external_encryption_key
    IsStored-add_external_encryption_key key =
        (IsHeld-add_eek_to key (activation_data s) refl).stored

    IsHeld-remove_eek_from :
        (o : Option PersistentData) → activation_data s ≡ o → IsHeld (remove_eek_from s o)
    unfolding remove_eek_from
    IsHeld-remove_eek_from none e = kept ErrorCode.ec_wrong_state
    IsHeld-remove_eek_from (some pd) e =
        let whole = IsWhole-activation_data s e w in
        let sizes =
          HasKeySizes-protect pd.sk s.setup.external_encryption_key false whole.key_sizes in
        if-either IsHeld (not (uses_external_key pd.flags_u32)) (kept ErrorCode.ec_wrong_state) (
          if-either IsHeld (not (has_external_encryption_key s)) (kept ErrorCode.ec_wrong_state) (
            if-either IsHeld
              (not (protect_signature_keys_with_eek pd.sk s.setup.external_encryption_key false).1)
              (kept ErrorCode.ec_encryption)
              (record { stored = IsWhole-flags pd pd.signature_counter _ _ whole sizes })))

    pub IsStored-remove_external_encryption_key : IsStored (remove_external_encryption_key s).0.pd
    unfolding remove_external_encryption_key
    IsStored-remove_external_encryption_key =
        (IsHeld-remove_eek_from (activation_data s) refl).stored

    relocked-IsWhole :
        (new_password : Bytes) (draws : Draws) (pd : PersistentData) (plain : SignatureKeys)
        → AllDrawn (λ d. length d ≡ 16) draws
        → IsWhole pd
        → let salt = get_random_data pbkdf2_salt_size true draws in
          let r =
            lock_signature_keys no_keys plain
              (password_request s new_password salt pbkdf2_pass_iterations) in
          r.1 ≡ true
          → IsWhole (record pd {
            sk = record (pd.sk) { knowledge_key = r.0.knowledge_key };
            password_salt = salt;
            password_iterations = pbkdf2_pass_iterations;
          })
    unfolding password_request
    relocked-IsWhole new_password draws pd plain sized whole done =
        let salt = get_random_data pbkdf2_salt_size true draws in
        let request = password_request s new_password salt pbkdf2_pass_iterations in
        let r = lock_signature_keys no_keys plain request in
        let (key_size, salt_size) =
          size-lock_knowledge no_keys plain r.0 salt request refl refl (ap (λ b. (r.0, b)) done) in
        record {
          key_sizes = record {
            possession_size = whole.key_sizes.possession_size;
            knowledge_size = key_size;
            biometry_size = whole.key_sizes.biometry_size;
          };
          enough_iterations = omega arith;
          salt_size = length-get_random_data 16 true draws sized (nonempty salt salt_size);
          id_is_there = whole.id_is_there;
          server_key_is_there = whole.server_key_is_there;
          device_key_is_there = whole.device_key_is_there;
          private_key_is_there = whole.private_key_is_there;
        }
      where
        nonempty : (b : Bytes) → 16 ≤ length b → is_empty b ≡ false
        nonempty [] h = absurd (omega (arith, h))
        nonempty (x ∷ b) h = refl

    IsHeld-relock :
        (new_password : Bytes) (draws : Draws) (pd : PersistentData) (o : Option SignatureKeys)
        → AllDrawn (λ d. length d ≡ 16) draws
        → IsWhole pd
        → IsHeld (relock s pd new_password draws o)
    unfolding relock
    IsHeld-relock new_password draws pd none sized whole = kept ErrorCode.ec_encryption
    IsHeld-relock new_password draws pd (some plain) sized whole =
        let salt = get_random_data pbkdf2_salt_size true draws in
        let request = password_request s new_password salt pbkdf2_pass_iterations in
        let r = lock_signature_keys no_keys plain request in
        if-cases IsHeld (not r.1) (λ e. kept ErrorCode.ec_encryption)
          (λ e. record {
            stored = relocked-IsWhole new_password draws pd plain sized whole (ground (arith, e));
          })

    pub IsStored-change_user_password :
        (old_password new_password : Bytes) (draws : Draws)
        → AllDrawn (λ d. length d ≡ 16) draws
        → IsStored (change_user_password s old_password new_password draws).0.pd
    unfolding change_user_password change_activated
    IsStored-change_user_password old_password new_password draws sized =
        (go (activation_data s) refl).stored
      where
        go :
            (o : Option PersistentData)
            → activation_data s ≡ o
            → IsHeld (change_activated s old_password new_password draws o)
        go none e = kept ErrorCode.ec_wrong_state
        go (some pd) e = IsHeld-relock new_password draws pd _ sized (IsWhole-activation_data s e w)
