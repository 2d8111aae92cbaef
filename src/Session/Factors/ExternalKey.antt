-- ===== src/Session/Factors/ExternalKey.antt =====
-- Adding an external key to a session and removing it.
use lime_security_powerauth.Base.{
  ℕ, ◌≡◌, refl, ap, sym, ◌∙◌, true, false, [], Option, some, Bytes, length, arith,
}
use lime_security_powerauth.Platform.{OpenSsl, AesLaws}
use lime_security_powerauth.Protocol.Locking.{protect_signature_keys_with_eek}
use lime_security_powerauth.Protocol.Locking.ExternalKey.{HasSizes, unprotect-protect}
use lime_security_powerauth.Protocol.Types.{
  ErrorCode, PersistentData, SignatureKeys, uses_external_key, set_uses_external_key,
}
use lime_security_powerauth.Session.{
  Session, activation_data, has_valid_activation, has_valid_setup, has_external_encryption_key, eek,
}
use lime_security_powerauth.Session.Factors.{
  add_eek_to, add_external_encryption_key, remove_eek_from, remove_external_encryption_key,
}

-- The session with protected keys, its flag, and the external key in its setup.
abbrev with_eek : Session → PersistentData → Bytes → SignatureKeys → Session
with_eek s pd key sk = record s {
  setup = record (s.setup) { external_encryption_key = key };
  pd = some (record pd { sk = sk; flags_u32 = set_uses_external_key true pd.flags_u32 });
}

module _ ⦃ssl : OpenSsl⦄ (s : Session) (pd : PersistentData)
    (active : activation_data s ≡ some pd) where
  activation_data-with_eek :
      (key : Bytes) (sk : SignatureKeys)
      → activation_data (with_eek s pd key sk)
        ≡ some (record pd { sk = sk; flags_u32 = set_uses_external_key true pd.flags_u32 })
  unfolding activation_data has_valid_activation has_valid_setup
  activation_data-with_eek key sk = ground (arith, active)

  has_external_encryption_key-with_eek :
      (key : Bytes) (sk : SignatureKeys)
      → length key ≡ 16
      → has_external_encryption_key (with_eek s pd key sk) ≡ true
  unfolding has_external_encryption_key eek activation_data has_valid_activation has_valid_setup
  has_external_encryption_key-with_eek key sk h = ground (arith, active)

  pd-active : s.pd ≡ some pd
  unfolding activation_data
  pd-active = ground (arith, active)

  add_eek_to-with_eek :
      (key : Bytes)
      → length key ≡ 16
      → uses_external_key pd.flags_u32 ≡ false
      → (protect_signature_keys_with_eek pd.sk key true).1 ≡ true
      → add_external_encryption_key s key
        ≡ (with_eek s pd key (protect_signature_keys_with_eek pd.sk key true).0, ErrorCode.ec_ok)
  unfolding add_external_encryption_key add_eek_to
  add_eek_to-with_eek key h f p = rw (active, f, h, p) refl

  flag_set : (flags : ℕ) → uses_external_key (set_uses_external_key true flags) ≡ true
  flag_set flags = ground arith

  session_restored :
      s.setup.external_encryption_key ≡ []
      → record s { setup = record (s.setup) { external_encryption_key = [] }; pd = some pd } ≡ s
  session_restored setup =
      ap
        (λ (k : Bytes).
          let t : Session = record s {
            setup = record (s.setup) { external_encryption_key = k };
            pd = some pd;
          } in
          t)
        (sym setup)
      ∙ ap (λ (p : Option PersistentData). let t : Session = record s { pd = p } in t)
          (sym pd-active)

  flags_restored :
      (flags : ℕ)
      → uses_external_key flags ≡ false
      → set_uses_external_key false (set_uses_external_key true flags) ≡ flags
  flags_restored flags h = ground (arith, h)

  remove_eek_from-with_eek :
      (key : Bytes) (sk : SignatureKeys)
      → length key ≡ 16
      → s.setup.external_encryption_key ≡ []
      → uses_external_key pd.flags_u32 ≡ false
      → protect_signature_keys_with_eek sk key false ≡ (pd.sk, true)
      → remove_external_encryption_key (with_eek s pd key sk) ≡ (s, ErrorCode.ec_ok)
  unfolding remove_external_encryption_key remove_eek_from
  remove_eek_from-with_eek key sk h setup f p =
      rw
        (
          activation_data-with_eek key sk,
          has_external_encryption_key-with_eek key sk h,
          p,
          flag_set pd.flags_u32,
          flags_restored pd.flags_u32 f,
        )
        (ap (λ r. (r, ErrorCode.ec_ok)) (session_restored setup))

  -- Where the setup of an activated session holds no external key and its data use none, adding one
  -- of 16 bytes reports EC_Ok, and removing it then reports EC_Ok and restores the session as it was:
  -- keys, flags, counter and setup. The knowledge key has 16 bytes, the biometry key 16 or none, and
  -- AES decrypts what it encrypts.
  pub remove-add_external_encryption_key :
      AesLaws ssl
      → (key : Bytes) → length key ≡ 16
      → s.setup.external_encryption_key ≡ []
      → uses_external_key pd.flags_u32 ≡ false
      → pd.sk.uses_external_key ≡ false
      → HasSizes pd.sk
      → let (t, code) = add_external_encryption_key s key in
        (code ≡ ErrorCode.ec_ok) × (remove_external_encryption_key t ≡ (s, ErrorCode.ec_ok))
  remove-add_external_encryption_key aes key h setup f u sizes =
      let (done, restored) = unprotect-protect aes key h pd.sk u sizes in
      rw (add_eek_to-with_eek key h f done) (
        refl,
        remove_eek_from-with_eek key (protect_signature_keys_with_eek pd.sk key true).0 h setup f
            restored,
      )
