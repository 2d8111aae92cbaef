-- ===== src/Session/Vault/Biometry.antt =====
-- What adding the biometry factor writes.
use lime_security_powerauth.Base.{
  ◌≡◌, refl, ap, sym, subst, equal→eq, ◌∙◌, Bool, true, false, not, Option, none, some, Bytes,
  arith, if◌then◌else◌,
}
use lime_security_powerauth.Platform.{Cc7, OpenSsl}
use lime_security_powerauth.Protocol.Derivation.{derive_all_secret_keys, derive_secret_key}
use lime_security_powerauth.Protocol.Locking.{is_present, encrypt_signature_key}
use lime_security_powerauth.Protocol.Locking.Written.{with_biometry, written-lock_biometry}
use lime_security_powerauth.Protocol.Types.{
  ErrorCode, PersistentData, SignatureKeys, SignatureUnlockKeys,
}
use lime_security_powerauth.Session.{Session, activation_data, has_valid_setup, eek}
use lime_security_powerauth.Session.Outcome.{is_ok}
use lime_security_powerauth.Session.Vault.{
  Unlocked, key, failed, decrypt_vault_key, biometry_locked, shared_with, device_key_data,
  vault_activated, vault_from, vault_with, opened_vault, add_biometry_to, add_biometry_with,
  add_biometry_factor,
}
use lime_security_powerauth.Session.Vault.Cases.{
  cleared, Vault, not_expected, taken, Vault-decrypt_vault_key,
}

module _ ⦃ssl : OpenSsl⦄ where
  guarded :
      (refused test : Bool) (before : SignatureKeys) (r : SignatureKeys × Bool) (sk : SignatureKeys)
      → (if refused then (before, false) else if not test then (before, false) else r) ≡ (sk, true)
      → (r ≡ (sk, true)) × (test ≡ true)
  guarded refused test before r sk h = (ground (arith, h), ground (arith, h))

  accepted :
      (b : Bool) (r : Session × ErrorCode) (s t : Session)
      → (if b then (s, ErrorCode.ec_wrong_param) else r) ≡ (t, ErrorCode.ec_ok)
      → r ≡ (t, ErrorCode.ec_ok)
  accepted b r s t h = ground (arith, h)

  module _ ⦃cc : Cc7⦄ where
    -- What the server and the device need for the key, and what is stored for it.
    pub record IsAdded (s t : Session) (c_vault_key : Bytes) (keys : SignatureUnlockKeys)
        (pd : PersistentData) : Type 0 where
      pub vault_key : Bytes
      pub secret : Bytes
      pub opened : (decrypt_vault_key s c_vault_key keys).1 ≡ key vault_key
      pub shared : shared_with pd (device_key_data (some pd) vault_key) ≡ some secret
      pub tested : derive_secret_key secret 2000 ≡ vault_key
      pub written : t ≡ record s {
        pd = some (record (cleared pd) {
          sk =
              with_biometry
                (encrypt_signature_key keys.biometry_unlock_key
                  (eek s)
                  (derive_secret_key secret 3))
                (is_present (eek s))
                pd.sk;
        });
      }

    locked_key : Session → SignatureUnlockKeys → Bytes → SignatureKeys → SignatureKeys
    locked_key s keys secret sk =
        with_biometry
          (encrypt_signature_key keys.biometry_unlock_key (eek s) (derive_secret_key secret 3))
          (is_present (eek s)) sk

    written-biometry_locked :
        (s : Session) (pd : PersistentData) (keys : SignatureUnlockKeys) (vault_key : Bytes)
        (o : Option Bytes) (sk : SignatureKeys)
        → biometry_locked s pd keys vault_key o ≡ (sk, true)
        → (secret : Bytes) × (o ≡ some secret)
          × (derive_secret_key secret 2000 ≡ vault_key)
          × (sk ≡ locked_key s keys secret pd.sk)
    unfolding biometry_locked derive_all_secret_keys locked_key
    written-biometry_locked s pd keys vault_key none sk h = absurd (ground (arith, h))
    written-biometry_locked s pd keys vault_key (some secret) sk h =
        let (l, e) = guarded _ _ pd.sk _ sk h in
        (
          secret,
          refl,
          equal→eq (derive_secret_key secret 2000) vault_key e,
          written-lock_biometry pd.sk _ sk _ refl l,
        )

    with_keys : Session → PersistentData → SignatureKeys → Session
    with_keys s pd sk = record s { pd = some (record pd { sk = sk }) }

    reported_ok :
        (s : Session) (pd : PersistentData) (r : SignatureKeys × Bool) (t : Session)
        → ◌≡◌ {A = Session × ErrorCode}
            (with_keys s pd r.0, if r.1 then ErrorCode.ec_ok else ErrorCode.ec_encryption)
            (t, ErrorCode.ec_ok)
        → (t ≡ with_keys s pd r.0) × (r.1 ≡ true)
    reported_ok s pd r t h = (sym (ap (λ x. x.0) h), ground (arith, h))

    -- The secret behind the key, and the session after the call.
    KeyWritten : Session → Session → SignatureUnlockKeys → PersistentData → Bytes → Type 0
    KeyWritten s t keys pd vault_key =
        (secret : Bytes) × (shared_with pd (device_key_data (some pd) vault_key) ≡ some secret)
        × (derive_secret_key secret 2000 ≡ vault_key)
        × (t ≡ with_keys s pd (locked_key s keys secret pd.sk))

    KeyWritten-add_biometry_to :
        (s t : Session) (keys : SignatureUnlockKeys) (pd : PersistentData) (vault_key : Bytes)
        → add_biometry_to s keys vault_key (some pd) ≡ (t, ErrorCode.ec_ok)
        → KeyWritten s t keys pd vault_key
    unfolding add_biometry_to with_keys KeyWritten
    KeyWritten-add_biometry_to s t keys pd vault_key h =
        let o = shared_with pd (device_key_data (some pd) vault_key) in
        let r = biometry_locked s pd keys vault_key o in
        let (e, l) = reported_ok s pd r t h in
        let (secret, f, d, w) =
          written-biometry_locked s pd keys vault_key o r.0 (ap (λ b. (r.0, b)) l) in
        (secret, f, d, e ∙ ap (with_keys s pd) w)

    some_same : {pd pd' : PersistentData} → some pd ≡ some pd' → pd ≡ pd'
    some_same h = ground (arith, h)

    -- A failure of the vault carries no EC_Ok.
    fails : Unlocked → Bool
    fails (key vault_key) = true
    fails (failed code) = not (is_ok code)

    fails-vault_activated :
        (s : Session) (c_vault_key : Bytes) (keys : SignatureUnlockKeys) (o : Option PersistentData)
        → fails (vault_activated s c_vault_key keys o).1 ≡ true
    unfolding fails vault_activated vault_from vault_with opened_vault
    fails-vault_activated s c_vault_key keys o = ground arith

    after_clearing :
        (pd : PersistentData) (vault_key : Bytes)
        → shared_with pd (device_key_data (some pd) vault_key)
          ≡ shared_with (cleared pd) (device_key_data (some (cleared pd)) vault_key)
    unfolding shared_with device_key_data
    after_clearing pd vault_key = go (device_key_data (some pd) vault_key)
      where
        go : (o : Option Bytes) → shared_with pd o ≡ shared_with (cleared pd) o
        go none = refl
        go (some d) = refl

    IsAdded-add_biometry_with :
        (s t : Session) (c_vault_key : Bytes) (keys : SignatureUnlockKeys) (pd : PersistentData)
        (r : Session × Unlocked)
        → decrypt_vault_key s c_vault_key keys ≡ r
        → Vault s r
        → fails r.1 ≡ true
        → activation_data s ≡ some pd
        → add_biometry_with r.0 keys r.1 ≡ (t, ErrorCode.ec_ok)
        → IsAdded s t c_vault_key keys pd
    unfolding add_biometry_with fails with_keys eek has_valid_setup KeyWritten locked_key
        shared_with device_key_data
    IsAdded-add_biometry_with s t c_vault_key keys pd r d (not_expected w) v e h =
        absurd (ground (arith, h))
    IsAdded-add_biometry_with s t c_vault_key keys pd r d (taken pd1 (failed code) e1 w) v e h =
        absurd (ground (arith, v, h))
    IsAdded-add_biometry_with s t c_vault_key keys pd r d (taken pd1 (key vault_key) e1 w) v e h =
        let (secret, f, g, q) =
          KeyWritten-add_biometry_to (record s { pd = some (cleared pd1) }) t keys (cleared pd1)
            vault_key h in
        let same = some_same (sym e1 ∙ e) in
        record {
          vault_key = vault_key;
          secret = secret;
          opened = ap (λ x. x.1) d;
          shared =
              subst (λ p. shared_with p (device_key_data (some p) vault_key) ≡ some secret) same
                (after_clearing pd1 vault_key ∙ f);
          tested = g;
          written = q ∙ ap (λ p. with_keys s (cleared p) (locked_key s keys secret p.sk)) same;
        }

    -- Adding the biometry factor with success to an activated session opens the vault key with the
    -- possession key, finds with it the secret that the device shares with the server, from which
    -- the vault key is derived too, and stores the biometry key that is derived from this secret,
    -- encrypted with the biometry unlock key and, if the session has one at the moment, the external
    -- key. It clears the waiting flag, and sets the keys' flag of the external key by whether the
    -- session has such a key at the moment, also where the flag of the persistent data, which is
    -- kept, says otherwise. All else is as before.
    pub add_biometry_factor_writes :
        (s t : Session) (c_vault_key : Bytes) (keys : SignatureUnlockKeys) (pd : PersistentData)
        → add_biometry_factor s c_vault_key keys ≡ (t, ErrorCode.ec_ok)
        → activation_data s ≡ some pd
        → IsAdded s t c_vault_key keys pd
    unfolding add_biometry_factor
    add_biometry_factor_writes s t c_vault_key keys pd h e =
        IsAdded-add_biometry_with s t c_vault_key keys pd (decrypt_vault_key s c_vault_key keys)
          refl (Vault-decrypt_vault_key s c_vault_key keys)
          (unfold decrypt_vault_key in fails-vault_activated s c_vault_key keys (activation_data s))
          e (accepted _ _ s t h)
