-- ===== src/Protocol/Locking.antt =====
-- src/PowerAuth/protocol/ProtocolUtils.cpp: the signature keys under their protection keys.
pub mod ExternalKey
pub mod RoundTrip
pub mod Opens
pub mod Locks
pub mod AnyFactor
pub mod Written
pub mod Sizes
use lime_security_powerauth.Base.{
  ℕ, ◌+◌, bit_and, bit_or, Bool, true, false, not, ◌&&◌, ◌||◌, [], Option, none, some, ◌==◌, leb,
  ltb, if◌then◌else◌, is_empty, Bytes, length,
}
use lime_security_powerauth.Platform.{OpenSsl}
use lime_security_powerauth.Crypto.Aes.{cbc_encrypt, cbc_decrypt}
use lime_security_powerauth.Protocol.Constants.{
  has_factor, full_factor_mask, sf_possession, sf_knowledge, sf_biometry, sf_transport,
  sf_first_lock, signature_key_size, pbkdf2_salt_size, zero_iv,
}
use lime_security_powerauth.Protocol.Types.{
  SignatureKeys, SignatureUnlockKeys, SignatureUnlockKeysReq, no_keys,
}
use lime_security_powerauth.Protocol.Validation.{validate_unlock_keys, validate_signature_keys}
use lime_security_powerauth.Protocol.Derivation.{derive_secret_key_from_password}

abbrev pub is_present : Option Bytes → Bool
is_present none = false
is_present (some key) = true

-- `a != b`
abbrev pub differs : Bool → Bool → Bool
differs true b = not b
differs false b = b

-- The factors that the external key protects.
abbrev needs_eek : ℕ → Bool
needs_eek factor =
    bit_and factor sf_biometry == sf_biometry || bit_and factor sf_knowledge == sf_knowledge

module _ ⦃ssl : OpenSsl⦄ where
  unfoldable pub encrypt_signature_key : Bytes → Option Bytes → Bytes → Bytes
  encrypt_signature_key protection_key none signature_key =
      cbc_encrypt protection_key zero_iv signature_key
  encrypt_signature_key protection_key (some ext_key) signature_key =
      cbc_encrypt ext_key zero_iv (cbc_encrypt protection_key zero_iv signature_key)

  unfoldable pub decrypt_signature_key : Bytes → Option Bytes → Bytes → Bytes
  decrypt_signature_key protection_key none c_signature_key =
      cbc_decrypt protection_key zero_iv c_signature_key
  decrypt_signature_key protection_key (some ext_key) c_signature_key =
      cbc_decrypt protection_key zero_iv (cbc_decrypt ext_key zero_iv c_signature_key)

  -- The key that the password gives, `none` where salt or rounds are missing or the salt is short.
  pub password_key : SignatureUnlockKeysReq → Option Bytes → Option Bytes
  password_key request none = none
  password_key request (some salt) =
      if request.pbkdf2_iter == 0
      then none
      else if ltb (length salt) pbkdf2_salt_size
      then none
      else some
          (derive_secret_key_from_password request.keys.user_password salt request.pbkdf2_iter)

  -- Locking from the knowledge key on.
  pub lock_knowledge :
      SignatureKeys → SignatureKeys → SignatureUnlockKeysReq → Option Bytes → Option SignatureKeys
  lock_knowledge secret plain request none = none
  lock_knowledge secret plain request (some derived_password) = some (record secret {
    knowledge_key = encrypt_signature_key derived_password request.ext_key plain.knowledge_key;
  })

  lock_biometry : SignatureKeys → SignatureKeys → SignatureUnlockKeysReq → ℕ → Bool → SignatureKeys
  lock_biometry secret plain request factor first_lock =
      if has_factor factor sf_biometry
      then record secret {
        biometry_key =
            encrypt_signature_key request.keys.biometry_unlock_key request.ext_key
              plain.biometry_key;
      }
      else if first_lock
      then record secret { biometry_key = [] }
      else secret

  finish_lock :
      SignatureKeys
      → SignatureKeys
      → SignatureUnlockKeysReq
      → ℕ
      → Bool
      → Option SignatureKeys
      → SignatureKeys × Bool
  finish_lock before plain request factor first_lock none = (before, false)
  finish_lock before plain request factor first_lock (some secret) =
      let secret' = lock_biometry secret plain request factor first_lock in
      (secret', validate_signature_keys secret' factor)

  -- Locking once the factors and the flag are settled.
  pub lock_keys :
      SignatureKeys → SignatureKeys → SignatureUnlockKeysReq → ℕ → Bool → SignatureKeys × Bool
  unfolding password_key lock_knowledge lock_biometry finish_lock
  lock_keys secret plain request factor first_lock =
      if not (validate_signature_keys plain factor)
      then (secret, false)
      else let possession_unlock_key = request.keys.possession_unlock_key in
        let secret1 : SignatureKeys = record secret {
          possession_key =
              (if has_factor factor sf_possession
                then encrypt_signature_key possession_unlock_key none plain.possession_key
                else secret.possession_key);
          transport_key =
              (if has_factor factor sf_transport
                then encrypt_signature_key possession_unlock_key none plain.transport_key
                else secret.transport_key);
        } in
        let locked : Option SignatureKeys =
          if has_factor factor sf_knowledge
          then lock_knowledge secret1 plain request (password_key request request.pbkdf2_salt)
          else some secret1 in
        finish_lock secret1 plain request factor first_lock locked

  -- The locked keys, and the result. A failure may come after some of the keys are written.
  unfoldable pub lock_signature_keys :
      SignatureKeys → SignatureKeys → SignatureUnlockKeysReq → SignatureKeys × Bool
  unfolding encrypt_signature_key lock_keys
  lock_signature_keys secret plain request =
      let ext = is_present request.ext_key in
      let has_biometry = not (is_empty request.keys.biometry_unlock_key) in
      if not (validate_unlock_keys request.keys request.ext_key request.factor)
      then (secret, false)
      else if request.factor == sf_first_lock
      then lock_keys (record secret { uses_external_key = ext }) plain request
          (bit_or (full_factor_mask has_biometry) sf_transport) true
      else if needs_eek request.factor && differs plain.uses_external_key ext
      then (secret, false)
      else lock_keys (record secret { uses_external_key = plain.uses_external_key }) plain request
          request.factor false

  -- One key unlocked if its factor is asked for, else cleared; `none` if it comes out empty.
  pub unlock_key : Bool → Bytes → Option Bytes
  unlock_key asked key = if not asked then some [] else if is_empty key then none else some key

  pub unlock_knowledge : Bool → SignatureUnlockKeysReq → Bytes → Option Bytes → Option Bytes
  unlock_knowledge false request c_key derived = some []
  unlock_knowledge true request c_key none = none
  unlock_knowledge true request c_key (some derived_password) =
      unlock_key true (decrypt_signature_key derived_password request.ext_key c_key)

  infixl 5 ◌>>=◌
  abbrev ◌>>=◌ {ℓ κ} : {A : Type ℓ} {B : Type κ} → Option A → (A → Option B) → Option B
  none >>= f = none
  some a >>= f = f a

  pub unlock_keys : SignatureKeys → SignatureUnlockKeysReq → Option SignatureKeys
  unfolding password_key unlock_key unlock_knowledge
  unlock_keys secret request = do
    let factor = request.factor
    let possession_unlock_key = request.keys.possession_unlock_key
    possession_key ←
        unlock_key (has_factor factor sf_possession)
          (decrypt_signature_key possession_unlock_key none secret.possession_key)
    transport_key ←
        unlock_key (has_factor factor sf_transport)
          (decrypt_signature_key possession_unlock_key none secret.transport_key)
    knowledge_key ←
        unlock_knowledge (has_factor factor sf_knowledge) request secret.knowledge_key
          (password_key request request.pbkdf2_salt)
    biometry_key ←
        unlock_key (has_factor factor sf_biometry) (
          decrypt_signature_key request.keys.biometry_unlock_key request.ext_key
            secret.biometry_key)
    some (record {
      possession_key = possession_key;
      knowledge_key = knowledge_key;
      biometry_key = biometry_key;
      transport_key = transport_key;
      uses_external_key = secret.uses_external_key;
    })

  -- The unlocked keys, `none` for false; the callers drop what a failed call wrote.
  unfoldable pub unlock_signature_keys :
      SignatureKeys → SignatureUnlockKeysReq → Option SignatureKeys
  unfolding decrypt_signature_key unlock_keys
  unlock_signature_keys secret request =
      if not (validate_unlock_keys request.keys request.ext_key request.factor)
      then none
      else if not (validate_signature_keys secret request.factor)
      then none
      else if needs_eek request.factor
          && differs secret.uses_external_key (is_present request.ext_key)
      then none
      else unlock_keys secret request

  eek_step : Bytes → Bool → Bytes → Bytes
  eek_step eek protect key =
      if protect then cbc_encrypt eek zero_iv key else cbc_decrypt eek zero_iv key

  -- The keys after the call, and the result; a failure leaves them as they were.
  unfoldable pub protect_signature_keys_with_eek :
      SignatureKeys → Bytes → Bool → SignatureKeys × Bool
  unfolding eek_step
  protect_signature_keys_with_eek secret eek protect =
      let c_knowledge_key = eek_step eek protect secret.knowledge_key in
      let c_biometry_key = eek_step eek protect secret.biometry_key in
      if not (differs secret.uses_external_key protect)
      then (secret, false)
      else if not (length c_knowledge_key == signature_key_size)
      then (secret, false)
      else if is_empty secret.biometry_key
      then (record secret { knowledge_key = c_knowledge_key; uses_external_key = protect }, true)
      else if not (length c_biometry_key == signature_key_size)
      then (secret, false)
      else (
        record secret {
          knowledge_key = c_knowledge_key;
          biometry_key = c_biometry_key;
          uses_external_key = protect;
        },
        true,
      )
