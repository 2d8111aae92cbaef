-- ===== src/Session/Factors/PasswordChange.antt =====
-- The keys that a password unlocks after it was changed.
use lime_security_powerauth.Base.{
  ◌≡◌, refl, sym, ap, ◌∙◌, Bool, true, false, Option, none, some, Bytes, arith,
}
use lime_security_powerauth.Platform.{OpenSsl, AesLaws, DigestLaws}
use lime_security_powerauth.Crypto.Prng.{Draws, get_random_data}
use lime_security_powerauth.Protocol.Constants.{
  sf_knowledge, pbkdf2_salt_size, pbkdf2_pass_iterations,
}
use lime_security_powerauth.Protocol.Locking.{lock_signature_keys, unlock_signature_keys}
use lime_security_powerauth.Protocol.Locking.AnyFactor.{unlock-lock}
use lime_security_powerauth.Protocol.Locking.Opens.{only}
use lime_security_powerauth.Protocol.Types.{
  ErrorCode, PersistentData, SignatureKeys, SignatureUnlockKeysReq, no_keys,
}
use lime_security_powerauth.Protocol.Validation.{validate_signature_keys}
use lime_security_powerauth.Session.{Session, activation_data, eek, has_valid_setup}
use lime_security_powerauth.Session.Factors.{
  password_request, relock, change_activated, change_user_password,
}

module _ ⦃ssl : OpenSsl⦄ where
  -- Unlocking for the knowledge factor alone looks at the knowledge key and the flag alone.
  unlock_knowledge_alone :
      (a b : SignatureKeys) (request : SignatureUnlockKeysReq)
      → a.knowledge_key ≡ b.knowledge_key
      → a.uses_external_key ≡ b.uses_external_key
      → let r : SignatureUnlockKeysReq = record request { factor = sf_knowledge } in
        unlock_signature_keys a r ≡ unlock_signature_keys b r
  unfolding unlock_signature_keys validate_signature_keys
  unlock_knowledge_alone a b request k u = rw (k, u) refl

  -- It gives no other key.
  unlocked_knowledge :
      (a plain : SignatureKeys) (request : SignatureUnlockKeysReq)
      → unlock_signature_keys a (record request { factor = sf_knowledge }) ≡ some plain
      → (only sf_knowledge plain ≡ plain) × (plain.uses_external_key ≡ a.uses_external_key)
  unfolding unlock_signature_keys only
  unlocked_knowledge a plain request h = ground (arith, h)

  -- Keys that the old password unlocks, and persistent data in which the new one unlocks them.
  pub record IsMoved (s t : Session) (pd : PersistentData) (old_password new_password : Bytes)
      : Type 0 where
    pub pd' : PersistentData
    pub keys : SignatureKeys
    pub stored : t ≡ record s { pd = some pd' }
    pub before :
        unlock_signature_keys pd.sk
          (password_request s old_password pd.password_salt pd.password_iterations)
        ≡ some keys
    pub after :
        unlock_signature_keys pd'.sk
          (password_request t new_password pd'.password_salt pd'.password_iterations)
        ≡ some keys

  module _ (aes : AesLaws ssl) (digest : DigestLaws ssl) (s : Session) (pd : PersistentData)
      (old_password new_password : Bytes) (draws : Draws) where
    new_request : SignatureUnlockKeysReq
    new_request =
        password_request s new_password (get_random_data pbkdf2_salt_size true draws)
          pbkdf2_pass_iterations

    new_pd : SignatureKeys → PersistentData
    new_pd locked = record pd {
      sk = record (pd.sk) { knowledge_key = locked.knowledge_key };
      password_salt = get_random_data pbkdf2_salt_size true draws;
      password_iterations = pbkdf2_pass_iterations;
    }

    opens_with_new :
        (plain locked : SignatureKeys)
        → unlock_signature_keys pd.sk
            (password_request s old_password pd.password_salt pd.password_iterations)
          ≡ some plain
        → lock_signature_keys no_keys plain new_request ≡ (locked, true)
        → unlock_signature_keys (new_pd locked).sk new_request ≡ some plain
    unfolding password_request new_request new_pd
    opens_with_new plain locked h l =
        let request = password_request s old_password pd.password_salt pd.password_iterations in
        let (only_plain, uses) = unlocked_knowledge pd.sk plain request h in
        let again =
          unlock-lock aes digest no_keys plain locked new_request refl l ∙ ap some only_plain in
        let (u, uses') = unlocked_knowledge locked plain new_request again in
        unlock_knowledge_alone (new_pd locked).sk locked new_request refl (sym uses ∙ uses') ∙ again

    relocked :
        (plain : SignatureKeys) (t : Session) (l : SignatureKeys × Bool)
        → lock_signature_keys no_keys plain new_request ≡ l
        → relock s pd new_password draws (some plain) ≡ (t, ErrorCode.ec_ok)
        → (l.1 ≡ true) × (t ≡ record s { pd = some (new_pd l.0) })
    unfolding relock new_request new_pd
    relocked plain t (locked, true) e h = ground (arith, e, h)
    relocked plain t (locked, false) e h = ground (arith, e, h)

    IsMoved-relock :
        (t : Session) (o : Option SignatureKeys)
        → unlock_signature_keys pd.sk
            (password_request s old_password pd.password_salt pd.password_iterations)
          ≡ o
        → relock s pd new_password draws o ≡ (t, ErrorCode.ec_ok)
        → IsMoved s t pd old_password new_password
    unfolding new_request new_pd password_request eek has_valid_setup
    IsMoved-relock t none u h = absurd (unfold relock in ground (arith, h))
    IsMoved-relock t (some plain) u h =
        let locked = lock_signature_keys no_keys plain new_request in
        let (done, stored) = relocked plain t locked refl h in
        let opens = opens_with_new plain locked.0 u (ground (arith, done)) in
        record {
          pd' = new_pd locked.0;
          keys = plain;
          stored = stored;
          before = u;
          after = rw stored opens;
        }

    -- A changed password unlocks the keys of the old one: where changing succeeds, the old password
    -- unlocks some keys of the old persistent data, and the new one unlocks the same keys of the
    -- new data with the salt and the rounds stored there, under the same external key, provided AES
    -- decrypts what it encrypts and PBKDF2 gives keys of the size asked for.
    pub IsMoved-change_user_password :
        (t : Session)
        → activation_data s ≡ some pd
        → change_user_password s old_password new_password draws ≡ (t, ErrorCode.ec_ok)
        → IsMoved s t pd old_password new_password
    unfolding change_user_password change_activated
    IsMoved-change_user_password t e h = IsMoved-relock t _ refl (rw e at h)
