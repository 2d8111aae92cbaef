-- ===== src/Session/Vault/Cases.antt =====
-- The vault's permission is used up by one request, whatever its outcome.
use lime_security_powerauth.Base.{
  ℕ, ◌≡◌, refl, Bool, true, false, Option, none, some, Bytes, is_empty, arith, if-either,
}
use lime_security_powerauth.Platform.{Cc7, OpenSsl}
use lime_security_powerauth.Protocol.Types.{
  ErrorCode, PersistentData, SignatureUnlockKeys, waiting_for_vault_unlock,
  set_waiting_for_vault_unlock,
}
use lime_security_powerauth.Session.{Session, activation_data, has_valid_activation}
use lime_security_powerauth.Session.Outcome.{Keeps, unchanged, updated}
use lime_security_powerauth.Session.Vault.{
  Unlocked, key, failed, vault_activated, decrypt_vault_key, add_biometry_with, add_biometry_to,
  add_biometry_factor, derive_cryptographic_key_from_vault_key, sign_data_with_device_private_key,
}

abbrev pub cleared : PersistentData → PersistentData
cleared pd = record pd { flags_u32 = set_waiting_for_vault_unlock false pd.flags_u32 }

-- Whether an activated session waits for a vault request.
abbrev pub awaits_vault : Option PersistentData → Bool
awaits_vault none = false
awaits_vault (some pd) = waiting_for_vault_unlock pd.flags_u32

-- The session is refused because no vault request is expected, or the request is taken and the
-- waiting flag is cleared whatever comes of it.
pub data Vault (s : Session) : Session × Unlocked → Type 0 where
  not_expected :
      awaits_vault (activation_data s) ≡ false → Vault s (s, failed ErrorCode.ec_wrong_state)
  taken :
      (pd : PersistentData) (result : Unlocked)
      → activation_data s ≡ some pd
      → waiting_for_vault_unlock pd.flags_u32 ≡ true
      → Vault s (record s { pd = some (cleared pd) }, result)

not_awaited :
    (s : Session) (pd : PersistentData)
    → activation_data s ≡ some pd
    → awaits_vault (activation_data (record s { pd = some (cleared pd) })) ≡ false
unfolding activation_data has_valid_activation
not_awaited s pd e = ground arith

module _ ⦃cc : Cc7⦄ ⦃ssl : OpenSsl⦄ (s : Session) (c_vault_key : Bytes)
    (keys : SignatureUnlockKeys) where
  Vault-vault_activated :
      (o : Option PersistentData)
      → activation_data s ≡ o
      → Vault s (vault_activated s c_vault_key keys o)
  unfolding vault_activated
  Vault-vault_activated none e = not_expected (rw e)
  Vault-vault_activated (some pd) e = elim_flag (waiting_for_vault_unlock pd.flags_u32) refl
    where
      elim_flag :
          (b : Bool)
          → waiting_for_vault_unlock pd.flags_u32 ≡ b
          → Vault s (vault_activated s c_vault_key keys (some pd))
      elim_flag true w =
          rw w (if-either (Vault s) (is_empty c_vault_key) (taken pd _ e w) (taken pd _ e w))
      elim_flag false w = rw w (not_expected (rw (e, w)))

  -- A vault key is unlocked only for an activated session that waits for it. Without that the call
  -- reports EC_WrongState and changes nothing; with it the flag is cleared, whether the key could
  -- be unlocked or not, and nothing else changes.
  pub Vault-decrypt_vault_key : Vault s (decrypt_vault_key s c_vault_key keys)
  unfolding decrypt_vault_key
  Vault-decrypt_vault_key = Vault-vault_activated (activation_data s) refl

  refused-vault_activated :
      (o : Option PersistentData)
      → awaits_vault o ≡ false
      → vault_activated s c_vault_key keys o ≡ (s, failed ErrorCode.ec_wrong_state)
  unfolding vault_activated
  refused-vault_activated none w = refl
  refused-vault_activated (some pd) w = rw w

  refused-decrypt_vault_key :
      awaits_vault (activation_data s) ≡ false
      → decrypt_vault_key s c_vault_key keys ≡ (s, failed ErrorCode.ec_wrong_state)
  unfolding decrypt_vault_key
  refused-decrypt_vault_key w = refused-vault_activated (activation_data s) w

pub Vault→Keeps : {s : Session} {r : Session × Unlocked} → Vault s r → Keeps s r.0
Vault→Keeps (not_expected w) = unchanged
Vault→Keeps {s = s} (taken pd result e w) = updated pd _ s.setup e

Vault→not_awaited :
    {s : Session} {r : Session × Unlocked}
    → Vault s r
    → awaits_vault (activation_data (r.0)) ≡ false
Vault→not_awaited (not_expected w) = w
Vault→not_awaited {s = s} (taken pd result e w) = not_awaited s pd e

module _ ⦃cc : Cc7⦄ ⦃ssl : OpenSsl⦄ where
  -- The permission to open the vault is good for one request: after any call of decryptVaultKey, a
  -- failed one included, the next one reports EC_WrongState and changes nothing, whatever vault key
  -- and unlock keys it is given.
  pub decrypt_vault_key-decrypt_vault_key :
      (s : Session) (c_vault_key c_vault_key' : Bytes) (keys keys' : SignatureUnlockKeys)
      → let t = (decrypt_vault_key s c_vault_key keys).0 in
        decrypt_vault_key t c_vault_key' keys' ≡ (t, failed ErrorCode.ec_wrong_state)
  decrypt_vault_key-decrypt_vault_key s c_vault_key c_vault_key' keys keys' =
      refused-decrypt_vault_key (decrypt_vault_key s c_vault_key keys).0 c_vault_key' keys'
        (Vault→not_awaited (Vault-decrypt_vault_key s c_vault_key keys))

  pub Keeps-derive :
      (s : Session) (c_vault_key : Bytes) (keys : SignatureUnlockKeys) (i : ℕ)
      → Keeps s (derive_cryptographic_key_from_vault_key s c_vault_key keys i).0
  unfolding derive_cryptographic_key_from_vault_key
  Keeps-derive s c_vault_key keys i = Vault→Keeps (Vault-decrypt_vault_key s c_vault_key keys)

  pub Keeps-sign_data :
      (s : Session) (c_vault_key : Bytes) (keys : SignatureUnlockKeys) (in_data : Bytes)
      → Keeps s (sign_data_with_device_private_key s c_vault_key keys in_data).0
  unfolding sign_data_with_device_private_key
  Keeps-sign_data s c_vault_key keys in_data =
      Vault→Keeps (Vault-decrypt_vault_key s c_vault_key keys)

  Keeps-add_biometry_to :
      (s : Session) (pd : PersistentData) (keys : SignatureUnlockKeys) (vault_key : Bytes)
      → activation_data s ≡ some pd
      → Keeps s
          (add_biometry_to
            (record s { pd = some (cleared pd) })
            keys
            vault_key
            (some (cleared pd))).0
  unfolding add_biometry_to
  Keeps-add_biometry_to s pd keys vault_key e = updated pd _ s.setup e

  Keeps-add_biometry_with :
      (s : Session) (keys : SignatureUnlockKeys) (r : Session × Unlocked)
      → Vault s r
      → Keeps s (add_biometry_with r.0 keys r.1).0
  unfolding add_biometry_with
  Keeps-add_biometry_with s keys r (not_expected w) = unchanged
  Keeps-add_biometry_with s keys r (taken pd (failed code) e w) = updated pd _ s.setup e
  Keeps-add_biometry_with s keys r (taken pd (key vault_key) e w) =
      Keeps-add_biometry_to s pd keys vault_key e

  pub Keeps-add_biometry_factor :
      (s : Session) (c_vault_key : Bytes) (keys : SignatureUnlockKeys)
      → Keeps s (add_biometry_factor s c_vault_key keys).0
  unfolding add_biometry_factor
  Keeps-add_biometry_factor s c_vault_key keys =
      if-either (λ (r : Session × ErrorCode). Keeps s r.0) (is_empty keys.biometry_unlock_key)
        unchanged
        (Keeps-add_biometry_with s keys (decrypt_vault_key s c_vault_key keys)
          (Vault-decrypt_vault_key s c_vault_key keys))
