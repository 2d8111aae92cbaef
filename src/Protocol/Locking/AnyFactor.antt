-- ===== src/Protocol/Locking/AnyFactor.antt =====
-- Unlocking the signature keys that were locked, for every combination of factors.
use lime_security_powerauth.Base.{
  ℕ, ◌≡◌, refl, ap, ◌∙◌, true, false, not, Option, none, some, Bytes, length, arith, ◌==◌, bit_and,
  bit_or, is_empty,
}
use lime_security_powerauth.Platform.{OpenSsl, AesLaws, DigestLaws}
use lime_security_powerauth.Protocol.Constants.{
  has_factor, full_factor_mask, sf_possession, sf_knowledge, sf_biometry, sf_transport,
  sf_first_lock,
}
use lime_security_powerauth.Protocol.Types.{
  SignatureKeys, SignatureUnlockKeys, SignatureUnlockKeysReq,
}
use lime_security_powerauth.Protocol.Validation.{validate_unlock_keys}
use lime_security_powerauth.Protocol.Locking.{
  is_present, lock_signature_keys, unlock_signature_keys, encrypt_signature_key, password_key,
  unlock_key, unlock_knowledge,
}
use lime_security_powerauth.Protocol.Locking.RoundTrip.{
  HasSize, decrypt-encrypt_signature_key, length-derived,
}
use lime_security_powerauth.Protocol.Locking.Opens.{
  only, UnlockSizes, unlock_sizes, key_sizes, Opens, unlock_keys-Opens,
}
use lime_security_powerauth.Protocol.Locking.Locks.{
  Locks, Locks-lock_keys, accepted_lock, accepted_first_lock, accepted_unlock, Locks-factor,
  not_differs, covered, selected-valid, covers_biometry,
}

module _ ⦃ssl : OpenSsl⦄ where
  module _ (aes : AesLaws ssl) (digest : DigestLaws ssl) where
    length-password_key :
        (request : SignatureUnlockKeysReq) (o : Option Bytes) (k : Bytes)
        → password_key request o ≡ some k
        → length k ≡ 16
    unfolding password_key
    length-password_key request none k h = ground (arith, h)
    length-password_key request (some salt) k h =
        ground
          (arith, h, length-derived aes digest request.keys.user_password salt request.pbkdf2_iter)

    opened_knowledge :
        (request : SignatureUnlockKeysReq) (c d : Bytes)
        → HasSize request.ext_key
        → length d ≡ 16
        → (k : Bytes) → password_key request request.pbkdf2_salt ≡ some k
        → c ≡ encrypt_signature_key k request.ext_key d
        → unlock_knowledge true request c (password_key request request.pbkdf2_salt) ≡ some d
    unfolding unlock_knowledge unlock_key
    opened_knowledge request c d hs hd k e hc =
        rw
          (
            e,
            hc,
            decrypt-encrypt_signature_key aes k request.ext_key d
                (length-password_key request request.pbkdf2_salt k e) hs hd,
          )
          (ground (arith, hd))

    -- Locked for some factors, keys open for any selection of them.
    Opens-Locks :
        (secret plain locked : SignatureKeys) (request : SignatureUnlockKeysReq) (f g : ℕ)
        → Locks secret plain locked request f
        → UnlockSizes request.keys request.ext_key g
        → (has_factor g sf_possession ≡ true → has_factor f sf_possession ≡ true)
        → (has_factor g sf_knowledge ≡ true → has_factor f sf_knowledge ≡ true)
        → (has_factor g sf_biometry ≡ true → has_factor f sf_biometry ≡ true)
        → (has_factor g sf_transport ≡ true → has_factor f sf_transport ≡ true)
        → Opens plain locked request g
    Opens-Locks secret plain locked request f g l u pos kno bio tra =
        let sizes = key_sizes plain f l.plain_valid in
        record {
          sizes = record {
            possession_size = λ p. sizes.possession_size (pos p);
            knowledge_size = λ p. sizes.knowledge_size (kno p);
            biometry_size = λ p. sizes.biometry_size (bio p);
            transport_size = λ p. sizes.transport_size (tra p);
          };
          possession = λ p. rw (l.possession (pos p)) (
              decrypt-encrypt_signature_key aes request.keys.possession_unlock_key none
                plain.possession_key (u.possession_size (ground (arith, p))) tt
                (sizes.possession_size (pos p)));
          transport = λ p. rw (l.transport (tra p)) (
              decrypt-encrypt_signature_key aes request.keys.possession_unlock_key none
                plain.transport_key (u.possession_size (ground (arith, p))) tt
                (sizes.transport_size (tra p)));
          knowledge = λ p.
              let (k, e, c) = l.knowledge (kno p) in
              opened_knowledge request locked.knowledge_key plain.knowledge_key u.ext_size
                (sizes.knowledge_size (kno p)) k e c;
          biometry = λ p. rw (l.biometry (bio p)) (
              decrypt-encrypt_signature_key aes request.keys.biometry_unlock_key request.ext_key
                plain.biometry_key (u.biometry_size p) u.ext_size (sizes.biometry_size (bio p)));
        }

    -- The keys of a request unlock what they locked: where locking for any factors but the first
    -- lock succeeds, unlocking the result with the same request gives the keys of these factors
    -- back, and no other key, provided AES decrypts what it encrypts and PBKDF2 gives keys of the
    -- size asked for.
    pub unlock-lock :
        (secret plain locked : SignatureKeys) (request : SignatureUnlockKeysReq)
        → (request.factor == sf_first_lock) ≡ false
        → lock_signature_keys secret plain request ≡ (locked, true)
        → unlock_signature_keys locked request ≡ some (only request.factor plain)
    unfolding unlock_signature_keys only
    unlock-lock secret plain locked request e h =
        let (v, d, l) = accepted_lock secret plain locked request e h in
        let f = request.factor in
        let locks =
          Locks-lock_keys (record secret { uses_external_key = plain.uses_external_key }) plain
            locked request f false l in
        let opened = unlock_keys-Opens plain locked request (
          Opens-Locks (record secret { uses_external_key = plain.uses_external_key }) plain locked
            request f f locks (unlock_sizes request.keys request.ext_key f e v) (λ p. p) (λ p. p)
            (λ p. p) (λ p. p)) in
        let uses : locked.uses_external_key ≡ plain.uses_external_key = locks.uses in
        accepted_unlock locked request v locks.locked_valid (rw uses d)
        ∙ opened
        ∙ ap (λ u. some (record (only f plain) { uses_external_key = u })) uses

    -- Keys from the first lock of an activation open for any selection of the factors: with the same
    -- unlock keys, salt, rounds and external key, unlocking gives the keys of the factors asked for,
    -- and no other key, where the unlock keys are valid for these factors, which must be some of
    -- possession, knowledge, biometry and transport.
    pub unlock-first_lock :
        (secret plain locked : SignatureKeys) (keys : SignatureUnlockKeys) (ext salt : Option Bytes)
        (n factor : ℕ)
        → lock_signature_keys secret plain (record {
          factor = sf_first_lock;
          keys = keys;
          ext_key = ext;
          pbkdf2_salt = salt;
          pbkdf2_iter = n;
        })
          ≡ (locked, true)
        → (factor == sf_first_lock) ≡ false
        → (bit_and factor 0x4111 == 0) ≡ false
        → validate_unlock_keys keys ext factor ≡ true
        → unlock_signature_keys locked (record {
          factor = factor;
          keys = keys;
          ext_key = ext;
          pbkdf2_salt = salt;
          pbkdf2_iter = n;
        })
          ≡ some (record (only factor plain) { uses_external_key = is_present ext })
    unlock-first_lock secret plain locked keys ext salt n factor h e a v =
        let first : SignatureUnlockKeysReq = record {
          factor = sf_first_lock;
          keys = keys;
          ext_key = ext;
          pbkdf2_salt = salt;
          pbkdf2_iter = n;
        } in
        let request : SignatureUnlockKeysReq = record {
          factor = factor;
          keys = keys;
          ext_key = ext;
          pbkdf2_salt = salt;
          pbkdf2_iter = n;
        } in
        let mask =
          bit_or (full_factor_mask (not (is_empty keys.biometry_unlock_key))) sf_transport in
        let before : SignatureKeys = record secret { uses_external_key = is_present ext } in
        let locks = Locks-factor before plain locked keys ext salt n sf_first_lock factor mask (
          Locks-lock_keys before plain locked first mask true
            (accepted_first_lock secret plain locked first refl h)) in
        let sizes = unlock_sizes keys ext factor e v in
        let covers = covered (not (is_empty keys.biometry_unlock_key)) in
        let valid =
          selected-valid locked mask factor (key_sizes locked mask locks.locked_valid)
            (λ p. covers.0) (λ p. covers.1) (covers_biometry keys ext factor sizes) (λ p. covers.2)
            a in
        let opens =
          Opens-Locks before plain locked request mask factor locks sizes (λ p. covers.0)
            (λ p. covers.1) (covers_biometry keys ext factor sizes) (λ p. covers.2) in
        let uses : locked.uses_external_key ≡ is_present ext = locks.uses in
        accepted_unlock locked request v valid
          (rw uses (ground (arith, not_differs (is_present ext))))
        ∙ unlock_keys-Opens plain locked request opens
        ∙ ap (λ u. some (record (only factor plain) { uses_external_key = u })) uses
