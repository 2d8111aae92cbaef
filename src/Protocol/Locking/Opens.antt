-- ===== src/Protocol/Locking/Opens.antt =====
-- What it takes to unlock the keys of some factors.
use lime_security_powerauth.Base.{
  ℕ, ◌≡◌, refl, Bool, true, false, ◌||◌, [], Option, none, some, Bytes, length, arith, ◌==◌,
  if◌then◌else◌,
}
use lime_security_powerauth.Platform.{OpenSsl}
use lime_security_powerauth.Protocol.Constants.{
  has_factor, sf_possession, sf_knowledge, sf_biometry, sf_transport, sf_first_lock,
}
use lime_security_powerauth.Protocol.Types.{
  SignatureKeys, SignatureUnlockKeys, SignatureUnlockKeysReq,
}
use lime_security_powerauth.Protocol.Validation.{validate_unlock_keys, validate_signature_keys}
use lime_security_powerauth.Protocol.Locking.{
  decrypt_signature_key, password_key, unlock_key, unlock_knowledge, unlock_keys,
}
use lime_security_powerauth.Protocol.Locking.RoundTrip.{HasSize}

-- The keys of the factors asked for, the others cleared.
unfoldable pub only : ℕ → SignatureKeys → SignatureKeys
only factor keys = record keys {
  possession_key = (if has_factor factor sf_possession then keys.possession_key else []);
  knowledge_key = (if has_factor factor sf_knowledge then keys.knowledge_key else []);
  biometry_key = (if has_factor factor sf_biometry then keys.biometry_key else []);
  transport_key = (if has_factor factor sf_transport then keys.transport_key else []);
}

-- What the validators say of sizes.
pub record UnlockSizes (keys : SignatureUnlockKeys) (ext : Option Bytes) (factor : ℕ) : Type 0 where
  pub ext_size : HasSize ext
  pub possession_size :
      (has_factor factor sf_possession || has_factor factor sf_transport) ≡ true
      → length keys.possession_unlock_key ≡ 16
  pub biometry_size : has_factor factor sf_biometry ≡ true → length keys.biometry_unlock_key ≡ 16

pub unlock_sizes :
    (keys : SignatureUnlockKeys) (ext : Option Bytes) (factor : ℕ)
    → (factor == sf_first_lock) ≡ false
    → validate_unlock_keys keys ext factor ≡ true
    → UnlockSizes keys ext factor
unfolding validate_unlock_keys
unlock_sizes keys none factor e h = record {
  ext_size = tt;
  possession_size = λ p. ground (arith, e, h, p);
  biometry_size = λ p. ground (arith, e, h, p);
}
unlock_sizes keys (some ext) factor e h = record {
  ext_size = ground (arith, e, h);
  possession_size = λ p. ground (arith, e, h, p);
  biometry_size = λ p. ground (arith, e, h, p);
}

pub record KeySizes (keys : SignatureKeys) (factor : ℕ) : Type 0 where
  pub possession_size : has_factor factor sf_possession ≡ true → length keys.possession_key ≡ 16
  pub knowledge_size : has_factor factor sf_knowledge ≡ true → length keys.knowledge_key ≡ 16
  pub biometry_size : has_factor factor sf_biometry ≡ true → length keys.biometry_key ≡ 16
  pub transport_size : has_factor factor sf_transport ≡ true → length keys.transport_key ≡ 16

pub key_sizes :
    (keys : SignatureKeys) (factor : ℕ)
    → validate_signature_keys keys factor ≡ true
    → KeySizes keys factor
unfolding validate_signature_keys
key_sizes keys factor h = record {
  possession_size = λ p. ground (arith, h, p);
  knowledge_size = λ p. ground (arith, h, p);
  biometry_size = λ p. ground (arith, h, p);
  transport_size = λ p. ground (arith, h, p);
}

module _ ⦃ssl : OpenSsl⦄ where
  -- What unlocking for `factor` needs of the keys that it is given.
  pub record Opens (plain locked : SignatureKeys) (request : SignatureUnlockKeysReq) (factor : ℕ)
      : Type 0 where
    pub sizes : KeySizes plain factor
    pub possession :
        has_factor factor sf_possession ≡ true
        → decrypt_signature_key request.keys.possession_unlock_key none locked.possession_key
          ≡ plain.possession_key
    pub transport :
        has_factor factor sf_transport ≡ true
        → decrypt_signature_key request.keys.possession_unlock_key none locked.transport_key
          ≡ plain.transport_key
    pub knowledge :
        has_factor factor sf_knowledge ≡ true
        → unlock_knowledge true request locked.knowledge_key
            (password_key request request.pbkdf2_salt)
          ≡ some plain.knowledge_key
    pub biometry :
        has_factor factor sf_biometry ≡ true
        → decrypt_signature_key request.keys.biometry_unlock_key request.ext_key locked.biometry_key
          ≡ plain.biometry_key

  pub unlock_key_lem :
      (b : Bool) (x k : Bytes)
      → (b ≡ true → x ≡ k)
      → (b ≡ true → length k ≡ 16)
      → unlock_key b x ≡ some (if b then k else [])
  unfolding unlock_key
  unlock_key_lem true x k h l = ground (arith, h refl, l refl)
  unlock_key_lem false x k h l = refl

  pub unlock_knowledge_lem :
      (b : Bool) (request : SignatureUnlockKeysReq) (c k : Bytes) (o : Option Bytes)
      → (b ≡ true → unlock_knowledge true request c o ≡ some k)
      → unlock_knowledge b request c o ≡ some (if b then k else [])
  unlock_knowledge_lem true request c k o h = h refl
  unlock_knowledge_lem false request c k o h = unfold unlock_knowledge in refl

  pub unlock_keys-Opens :
      (plain locked : SignatureKeys) (request : SignatureUnlockKeysReq)
      → Opens plain locked request request.factor
      → unlock_keys locked request
        ≡ some (record (only request.factor plain) { uses_external_key = locked.uses_external_key })
  unfolding unlock_keys only
  unlock_keys-Opens plain locked request o =
      rw
        (
          unlock_key_lem (has_factor request.factor sf_possession)
              (decrypt_signature_key request.keys.possession_unlock_key none locked.possession_key)
              plain.possession_key o.possession o.sizes.possession_size,
          unlock_key_lem (has_factor request.factor sf_transport)
              (decrypt_signature_key request.keys.possession_unlock_key none locked.transport_key)
              plain.transport_key o.transport o.sizes.transport_size,
          unlock_knowledge_lem (has_factor request.factor sf_knowledge) request locked.knowledge_key
              plain.knowledge_key (password_key request request.pbkdf2_salt) o.knowledge,
          unlock_key_lem (has_factor request.factor sf_biometry)
              (decrypt_signature_key request.keys.biometry_unlock_key request.ext_key
                locked.biometry_key)
              plain.biometry_key o.biometry o.sizes.biometry_size,
        )
        refl
