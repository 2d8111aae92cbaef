-- ===== src/Protocol/Locking/Locks.antt =====
-- What locking for some factors leaves.
use lime_security_powerauth.Base.{
  ℕ, ◌≡◌, refl, sym, ◌∙◌, Bool, true, false, not, ◌&&◌, Option, none, some, Bytes, arith, ◌==◌,
  bit_and, bit_or, is_empty,
}
use lime_security_powerauth.Platform.{OpenSsl}
use lime_security_powerauth.Protocol.Constants.{
  has_factor, full_factor_mask, sf_possession, sf_knowledge, sf_biometry, sf_transport,
  sf_first_lock,
}
use lime_security_powerauth.Protocol.Types.{
  SignatureKeys, SignatureUnlockKeys, SignatureUnlockKeysReq,
}
use lime_security_powerauth.Protocol.Validation.{validate_unlock_keys, validate_signature_keys}
use lime_security_powerauth.Protocol.Locking.{
  is_present, needs_eek, differs, lock_signature_keys, unlock_signature_keys, encrypt_signature_key,
  password_key, lock_keys, lock_knowledge, lock_biometry, finish_lock, unlock_keys,
}
use lime_security_powerauth.Protocol.Locking.Opens.{UnlockSizes, KeySizes}

module _ ⦃ssl : OpenSsl⦄ where
  -- What a successful locking writes.
  pub record Locks (secret plain locked : SignatureKeys) (request : SignatureUnlockKeysReq)
      (factor : ℕ) : Type 0 where
    pub uses : locked.uses_external_key ≡ secret.uses_external_key
    pub plain_valid : validate_signature_keys plain factor ≡ true
    pub locked_valid : validate_signature_keys locked factor ≡ true
    pub possession :
        has_factor factor sf_possession ≡ true
        → locked.possession_key
          ≡ encrypt_signature_key request.keys.possession_unlock_key none plain.possession_key
    pub transport :
        has_factor factor sf_transport ≡ true
        → locked.transport_key
          ≡ encrypt_signature_key request.keys.possession_unlock_key none plain.transport_key
    pub knowledge :
        has_factor factor sf_knowledge ≡ true
        → (k : Bytes) × (password_key request request.pbkdf2_salt ≡ some k)
          × (locked.knowledge_key ≡ encrypt_signature_key k request.ext_key plain.knowledge_key)
    pub biometry :
        has_factor factor sf_biometry ≡ true
        → locked.biometry_key
          ≡ encrypt_signature_key request.keys.biometry_unlock_key request.ext_key
              plain.biometry_key

  pub locked_knowledge :
      (secret plain locked : SignatureKeys) (request : SignatureUnlockKeysReq) (factor : ℕ)
      (first : Bool) (o : Option Bytes)
      → password_key request request.pbkdf2_salt ≡ o
      → has_factor factor sf_knowledge ≡ true
      → lock_keys secret plain request factor first ≡ (locked, true)
      → (k : Bytes) × (password_key request request.pbkdf2_salt ≡ some k)
        × (locked.knowledge_key ≡ encrypt_signature_key k request.ext_key plain.knowledge_key)
  unfolding lock_keys lock_knowledge lock_biometry finish_lock
  locked_knowledge secret plain locked request factor first none e p h =
      absurd (ground (arith, e, p, h))
  locked_knowledge secret plain locked request factor first (some k) e p h =
      (k, e, ground (arith, e, p, h))

  pub Locks-lock_keys :
      (secret plain locked : SignatureKeys) (request : SignatureUnlockKeysReq) (factor : ℕ)
      (first : Bool)
      → lock_keys secret plain request factor first ≡ (locked, true)
      → Locks secret plain locked request factor
  unfolding lock_keys lock_knowledge lock_biometry finish_lock
  Locks-lock_keys secret plain locked request factor first h = record {
    uses = ground (arith, h);
    plain_valid = ground (arith, h);
    locked_valid = ground (arith, h);
    possession = λ p. ground (arith, h, p);
    transport = λ p. ground (arith, h, p);
    knowledge = λ p.
        locked_knowledge secret plain locked request factor first
          (password_key request request.pbkdf2_salt) refl p h;
    biometry = λ p. ground (arith, h, p);
  }

  pub password_key_factor :
      (keys : SignatureUnlockKeys) (ext o : Option Bytes) (n f g : ℕ)
      → password_key
          (record { factor = f; keys = keys; ext_key = ext; pbkdf2_salt = o; pbkdf2_iter = n })
          o
        ≡ password_key
            (record { factor = g; keys = keys; ext_key = ext; pbkdf2_salt = o; pbkdf2_iter = n })
            o
  unfolding password_key
  password_key_factor keys ext none n f g = refl
  password_key_factor keys ext (some salt) n f g = refl

  -- Locking once the request is accepted.
  pub accepted_lock :
      (secret plain locked : SignatureKeys) (request : SignatureUnlockKeysReq)
      → (request.factor == sf_first_lock) ≡ false
      → lock_signature_keys secret plain request ≡ (locked, true)
      → (validate_unlock_keys request.keys request.ext_key request.factor ≡ true)
        × ((needs_eek request.factor
              && differs plain.uses_external_key (is_present request.ext_key))
            ≡ false)
        × (lock_keys
              (record secret { uses_external_key = plain.uses_external_key })
              plain
              request
              request.factor
              false
            ≡ (locked, true))
  unfolding lock_signature_keys
  accepted_lock secret plain locked request e h = ground (arith, e, h)

  pub accepted_first_lock :
      (secret plain locked : SignatureKeys) (request : SignatureUnlockKeysReq)
      → (request.factor == sf_first_lock) ≡ true
      → lock_signature_keys secret plain request ≡ (locked, true)
      → lock_keys
          (record secret { uses_external_key = is_present request.ext_key })
          plain
          request
          (bit_or (full_factor_mask (not (is_empty request.keys.biometry_unlock_key))) sf_transport)
          true
        ≡ (locked, true)
  unfolding lock_signature_keys
  accepted_first_lock secret plain locked request e h = ground (arith, e, h)

  pub accepted_unlock :
      (locked : SignatureKeys) (request : SignatureUnlockKeysReq)
      → validate_unlock_keys request.keys request.ext_key request.factor ≡ true
      → validate_signature_keys locked request.factor ≡ true
      → (needs_eek request.factor && differs locked.uses_external_key (is_present request.ext_key))
        ≡ false
      → unlock_signature_keys locked request ≡ unlock_keys locked request
  unfolding unlock_signature_keys unlock_keys
  accepted_unlock locked request v l d = rw (v, l, d) refl

  pub Locks-factor :
      (secret plain locked : SignatureKeys) (keys : SignatureUnlockKeys) (ext salt : Option Bytes)
      (n f g h : ℕ)
      → Locks secret plain locked
          (record { factor = f; keys = keys; ext_key = ext; pbkdf2_salt = salt; pbkdf2_iter = n })
          h
      → Locks secret plain locked
          (record { factor = g; keys = keys; ext_key = ext; pbkdf2_salt = salt; pbkdf2_iter = n })
          h
  Locks-factor secret plain locked keys ext salt n f g h l = record {
    uses = l.uses;
    plain_valid = l.plain_valid;
    locked_valid = l.locked_valid;
    possession = l.possession;
    transport = l.transport;
    knowledge = λ p.
        let (k, e, c) = l.knowledge p in (k, sym (password_key_factor keys ext salt n f g) ∙ e, c);
    biometry = l.biometry;
  }

  pub not_differs : (b : Bool) → differs b b ≡ false
  not_differs true = refl
  not_differs false = refl

  pub covered :
      (b : Bool)
      → let mask = bit_or (full_factor_mask b) sf_transport in
        (has_factor mask sf_possession ≡ true)
        × (has_factor mask sf_knowledge ≡ true)
        × (has_factor mask sf_transport ≡ true)
  covered true = (refl, refl, refl)
  covered false = (refl, refl, refl)

  pub selected-valid :
      (keys : SignatureKeys) (f g : ℕ)
      → KeySizes keys f
      → (has_factor g sf_possession ≡ true → has_factor f sf_possession ≡ true)
      → (has_factor g sf_knowledge ≡ true → has_factor f sf_knowledge ≡ true)
      → (has_factor g sf_biometry ≡ true → has_factor f sf_biometry ≡ true)
      → (has_factor g sf_transport ≡ true → has_factor f sf_transport ≡ true)
      → (bit_and g 0x4111 == 0) ≡ false
      → validate_signature_keys keys g ≡ true
  unfolding validate_signature_keys
  selected-valid keys f g s pos kno bio tra a = ground (
    arith, a, pos, kno, bio, tra, s.possession_size, s.knowledge_size, s.biometry_size,
    s.transport_size,
  )

  -- The first lock covers every factor that valid unlock keys are for.
  pub covers_biometry :
      (keys : SignatureUnlockKeys) (ext : Option Bytes) (g : ℕ)
      → UnlockSizes keys ext g
      → has_factor g sf_biometry ≡ true
      → has_factor
          (bit_or (full_factor_mask (not (is_empty keys.biometry_unlock_key))) sf_transport)
          sf_biometry
        ≡ true
  covers_biometry keys ext g u p = ground (arith, u.biometry_size p)
