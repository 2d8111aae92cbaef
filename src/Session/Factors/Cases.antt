-- ===== src/Session/Factors/Cases.antt =====
-- What the calls on the password, the biometry key and the external key do on each branch.
use lime_security_powerauth.Base.{
  if-cases, ◌≡◌, refl, Bool, true, false, not, Option, none, some, ◌==◌, Bytes, length, arith,
  if-either,
}
use lime_security_powerauth.Platform.{OpenSsl}
use lime_security_powerauth.Crypto.Prng.{Draws, get_random_data}
use lime_security_powerauth.Protocol.Constants.{
  signature_key_size, pbkdf2_pass_iterations, pbkdf2_salt_size,
}
use lime_security_powerauth.Protocol.Locking.{
  protect_signature_keys_with_eek, lock_signature_keys, unlock_signature_keys,
}
use lime_security_powerauth.Protocol.Types.{
  ErrorCode, PersistentData, SignatureKeys, no_keys, uses_external_key, set_uses_external_key,
}
use lime_security_powerauth.Session.{Session, activation_data, has_external_encryption_key}
use lime_security_powerauth.Session.Outcome.{
  is_ok, Atomic, Keeps, refused, done, unchanged, updated,
}
use lime_security_powerauth.Session.Factors.{
  relock, change_activated, change_user_password, add_eek_to, add_external_encryption_key,
  remove_eek_from, remove_external_encryption_key, remove_biometry_from, remove_biometry_factor,
  set_external_encryption_key, password_request,
}

module _ ⦃ssl : OpenSsl⦄ where
  -- What unlocks with the old password, and its locking with the new password and a new salt.
  abbrev pub unlocked_with : Session → PersistentData → Bytes → Option SignatureKeys
  unlocked_with s pd old_password =
      unlock_signature_keys pd.sk
        (password_request s old_password pd.password_salt pd.password_iterations)

  abbrev pub relocked_with : Session → SignatureKeys → Bytes → Draws → SignatureKeys × Bool
  relocked_with s keys new_password draws = lock_signature_keys no_keys keys (
      password_request s new_password (get_random_data pbkdf2_salt_size true draws)
        pbkdf2_pass_iterations)

  -- A change of the password: nothing happens, or the knowledge key is locked anew, with a new salt
  -- and the default number of rounds.
  pub data Changing (s : Session) (old_password new_password : Bytes) (draws : Draws)
      : Session × ErrorCode → Type 0 where
    inactive :
        activation_data s ≡ none
        → Changing s old_password new_password draws (s, ErrorCode.ec_wrong_state)
    not_unlocked :
        (pd : PersistentData)
        → activation_data s ≡ some pd
        → unlocked_with s pd old_password ≡ none
        → Changing s old_password new_password draws (s, ErrorCode.ec_encryption)
    not_locked :
        (pd : PersistentData) (keys : SignatureKeys)
        → activation_data s ≡ some pd
        → unlocked_with s pd old_password ≡ some keys
        → (relocked_with s keys new_password draws).1 ≡ false
        → Changing s old_password new_password draws (s, ErrorCode.ec_encryption)
    changed :
        (pd : PersistentData) (keys : SignatureKeys)
        → activation_data s ≡ some pd
        → unlocked_with s pd old_password ≡ some keys
        → (relocked_with s keys new_password draws).1 ≡ true
        → Changing s old_password new_password draws (
          record s {
            pd = some (record pd {
              sk = record (pd.sk) {
                knowledge_key = (relocked_with s keys new_password draws).0.knowledge_key;
              };
              password_salt = get_random_data pbkdf2_salt_size true draws;
              password_iterations = pbkdf2_pass_iterations;
            });
          },
          ErrorCode.ec_ok,
        )

  pub Changing→Keeps :
      {s : Session} {old_password new_password : Bytes} {draws : Draws} {r : Session × ErrorCode}
      → Changing s old_password new_password draws r
      → Keeps s r.0
  Changing→Keeps (inactive e) = unchanged
  Changing→Keeps (not_unlocked pd e u) = unchanged
  Changing→Keeps (not_locked pd keys e u l) = unchanged
  Changing→Keeps {s = s} (changed pd keys e u l) = updated pd _ s.setup e

  -- An external key is added: nothing happens, or the setup holds the key, the signature keys are
  -- those that the key protects, and the data say so.
  pub data Adding (s : Session) (key : Bytes) : Session × ErrorCode → Type 0 where
    not_added : (code : ErrorCode) → is_ok code ≡ false → Adding s key (s, code)
    added :
        (pd : PersistentData)
        → activation_data s ≡ some pd
        → uses_external_key pd.flags_u32 ≡ false
        → (length key == signature_key_size) ≡ true
        → (protect_signature_keys_with_eek pd.sk key true).1 ≡ true
        → Adding s key (
          record s {
            setup = record (s.setup) { external_encryption_key = key };
            pd = some (record pd {
              sk = (protect_signature_keys_with_eek pd.sk key true).0;
              flags_u32 = set_uses_external_key true pd.flags_u32;
            });
          },
          ErrorCode.ec_ok,
        )

  pub Adding→Keeps :
      {s : Session} {key : Bytes} {r : Session × ErrorCode} → Adding s key r → Keeps s r.0
  Adding→Keeps (not_added code e) = unchanged
  Adding→Keeps {s = s} (added pd e u l d) = updated pd _ _ e

module _ ⦃ssl : OpenSsl⦄ (s : Session) where
  Changing-relock :
      (pd : PersistentData) (old_password new_password : Bytes) (draws : Draws)
      (o : Option SignatureKeys)
      → activation_data s ≡ some pd
      → unlocked_with s pd old_password ≡ o
      → Changing s old_password new_password draws (relock s pd new_password draws o)
  unfolding relock
  Changing-relock pd old_password new_password draws none e u = not_unlocked pd e u
  Changing-relock pd old_password new_password draws (some keys) e u =
      if-cases (Changing s old_password new_password draws)
        (not (relocked_with s keys new_password draws).1)
        (λ l. not_locked pd keys e u (ground (arith, l)))
        (λ l. changed pd keys e u (ground (arith, l)))

  Changing-change_activated :
      (old_password new_password : Bytes) (draws : Draws) (o : Option PersistentData)
      → activation_data s ≡ o
      → Changing s old_password new_password draws
          (change_activated s old_password new_password draws o)
  unfolding change_activated
  Changing-change_activated old_password new_password draws none e = inactive e
  Changing-change_activated old_password new_password draws (some pd) e =
      Changing-relock pd old_password new_password draws _ e refl

  -- Changing the password reports EC_WrongState without a valid activation, and EC_Encryption where
  -- the old password does not unlock the keys or they cannot be locked anew, and leaves the session
  -- as it was then. Otherwise it reports EC_Ok and replaces the knowledge key by that of the keys
  -- that the old password unlocks, locked with the new password, a new salt from the draws and the
  -- default number of rounds; it stores this salt and number, and changes nothing else.
  pub Changing-change_user_password :
      (old_password new_password : Bytes) (draws : Draws)
      → Changing s old_password new_password draws
          (change_user_password s old_password new_password draws)
  unfolding change_user_password
  Changing-change_user_password old_password new_password draws =
      Changing-change_activated old_password new_password draws (activation_data s) refl

  Adding-add_eek_to :
      (key : Bytes) (o : Option PersistentData)
      → activation_data s ≡ o
      → Adding s key (add_eek_to s key o)
  unfolding add_eek_to
  Adding-add_eek_to key none e = not_added ErrorCode.ec_wrong_state refl
  Adding-add_eek_to key (some pd) e =
      if-cases (Adding s key) (uses_external_key pd.flags_u32)
        (λ u. not_added ErrorCode.ec_wrong_state refl)
        λ u.
          if-cases (Adding s key) (not (length key == signature_key_size))
            (λ l. not_added ErrorCode.ec_wrong_param refl)
            λ l.
              if-cases (Adding s key) (not (protect_signature_keys_with_eek pd.sk key true).1)
                (λ d. not_added ErrorCode.ec_encryption refl)
                λ d. added pd e u (ground (arith, l)) (ground (arith, d))

  -- Adding an external key reports an error and leaves the session as it was, or reports EC_Ok for
  -- an activated session without such a key and a key of the right size: then the setup holds the
  -- key, the signature keys are those that ProtectSignatureKeysWithEEK gives, with success, and the
  -- flag says that an external key is used.
  pub Adding-add_external_encryption_key :
      (key : Bytes) → Adding s key (add_external_encryption_key s key)
  unfolding add_external_encryption_key
  Adding-add_external_encryption_key key = Adding-add_eek_to key (activation_data s) refl

  Atomic-remove_eek_from :
      (o : Option PersistentData) → activation_data s ≡ o → Atomic s (remove_eek_from s o)
  unfolding remove_eek_from
  Atomic-remove_eek_from none e = refused ErrorCode.ec_wrong_state refl
  Atomic-remove_eek_from (some pd) e =
      if-either (Atomic s) (not (uses_external_key pd.flags_u32))
        (refused ErrorCode.ec_wrong_state refl)
        (if-either (Atomic s) (not (has_external_encryption_key s))
          (refused ErrorCode.ec_wrong_state refl)
          (if-either (Atomic s)
            (not (protect_signature_keys_with_eek pd.sk s.setup.external_encryption_key false).1)
            (refused ErrorCode.ec_encryption refl) (done pd _ _ e)))

  pub Atomic-remove_external_encryption_key : Atomic s (remove_external_encryption_key s)
  unfolding remove_external_encryption_key
  Atomic-remove_external_encryption_key = Atomic-remove_eek_from (activation_data s) refl

Atomic-remove_biometry_from :
    (s : Session) (o : Option PersistentData)
    → activation_data s ≡ o
    → Atomic s (remove_biometry_from s o)
unfolding remove_biometry_from
Atomic-remove_biometry_from s none e = refused ErrorCode.ec_wrong_state refl
Atomic-remove_biometry_from s (some pd) e = done pd _ s.setup e

pub Atomic-remove_biometry_factor : (s : Session) → Atomic s (remove_biometry_factor s)
unfolding remove_biometry_factor
Atomic-remove_biometry_factor s = Atomic-remove_biometry_from s (activation_data s) refl

-- Setting the external key changes at most the setup: state, persistent data and activation data
-- are those of before.
pub set_external_encryption_key_keeps :
    (s : Session) (key : Bytes)
    → let t = (set_external_encryption_key s key).0 in
      (t.state ≡ s.state) × (t.pd ≡ s.pd) × (t.ad ≡ s.ad)
unfolding set_external_encryption_key
set_external_encryption_key_keeps s key = ground arith
