-- ===== src/Session/Vault/Opened.antt =====
-- The vault key that the server sends after a signature for unlocking the vault.
use lime_security_powerauth.Base.{
  ℕ, ◌+◌, ◌%◌, ◌^◌, ◌≡◌, refl, sym, ap, ◌∙◌, true, false, Option, some, Bytes, arith, length,
  is_empty,
}
use lime_security_powerauth.Platform.{Cc7, Cc7Laws, OpenSsl, AesLaws}
use lime_security_powerauth.Crypto.Aes.{cbc_encrypt_padding}
use lime_security_powerauth.Crypto.Aes.Laws.{
  cbc_decrypt_padding-cbc_encrypt_padding, length-cbc_encrypt, length-cbc_decrypt,
}
use lime_security_powerauth.Crypto.Padding.{get_padded_data}
use lime_security_powerauth.Crypto.Padding.Laws.{length-get_padded_data}
use lime_security_powerauth.Crypto.Prng.{Draws}
use lime_security_powerauth.Protocol.Constants.{
  has_factor, sf_prepare_for_vault_unlock, sf_transport, zero_iv,
}
use lime_security_powerauth.Protocol.Derivation.{derive_secret_key}
use lime_security_powerauth.Protocol.Derivation.Laws.{length-derive_secret_key}
use lime_security_powerauth.Protocol.Locking.{unlock_signature_keys, decrypt_signature_key}
use lime_security_powerauth.Protocol.Types.{
  ErrorCode, PersistentData, SignatureKeys, SignatureUnlockKeys, SignatureUnlockKeysReq,
  waiting_for_vault_unlock,
}
use lime_security_powerauth.Protocol.Validation.{validate_unlock_keys, validate_signature_keys}
use lime_security_powerauth.Session.{
  Session, activation_data, has_valid_activation, has_valid_setup, eek,
}
use lime_security_powerauth.Session.Signing.{HttpRequest, signed, sign_http_request}
use lime_security_powerauth.Session.Signing.Cases.{Signing, Signing-sign_http_request, signed_lem}
use lime_security_powerauth.Session.Vault.{
  transport_request, previous_counter, key, opened_vault, vault_with, vault_from, vault_activated,
  decrypt_vault_key,
}
use lime_security_powerauth.Session.Vault.Cases.{cleared}

module _ ⦃cc : Cc7⦄ ⦃ssl : OpenSsl⦄ where
  -- The vault key, encrypted for a counter.
  unfoldable pub sent_key : Bytes → ℕ → Bytes → Bytes
  sent_key transport_key counter vault_key =
      cbc_encrypt_padding (derive_secret_key transport_key counter) zero_iv vault_key

module _ ⦃cc : Cc7⦄ ⦃ssl : OpenSsl⦄ (laws : Cc7Laws cc) (aes : AesLaws ssl) where
  -- The transport key that is unlocked has the size of a key.
  pub length-transport_key :
      (sk plain : SignatureKeys) (request : SignatureUnlockKeysReq)
      → unlock_signature_keys sk (record request { factor = sf_transport }) ≡ some plain
      → length plain.transport_key ≡ 16
  unfolding unlock_signature_keys validate_unlock_keys validate_signature_keys decrypt_signature_key
  length-transport_key sk plain request h =
      ground (
        arith,
        h,
        length-cbc_decrypt aes request.keys.possession_unlock_key zero_iv sk.transport_key,
      )

  vault_with-sent_key :
      (pd : PersistentData) (plain : SignatureKeys) (vault_key : Bytes)
      → length plain.transport_key ≡ 16
      → length vault_key ≡ 16
      → vault_with pd
          (sent_key plain.transport_key (previous_counter pd.signature_counter) vault_key)
          (some plain)
        ≡ key vault_key
  unfolding vault_with opened_vault sent_key
  vault_with-sent_key pd plain vault_key ht hv =
      let k = derive_secret_key plain.transport_key (previous_counter pd.signature_counter) in
      ground (
        arith,
        length-derive_secret_key laws aes plain.transport_key
            (previous_counter pd.signature_counter) ht,
        cbc_decrypt_padding-cbc_encrypt_padding aes k zero_iv vault_key,
      )

  sent_key-is_empty :
      (transport_key vault_key : Bytes) (counter : ℕ)
      → length transport_key ≡ 16
      → is_empty (sent_key transport_key counter vault_key) ≡ false
  unfolding sent_key cbc_encrypt_padding
  sent_key-is_empty transport_key vault_key counter h =
      let k = derive_secret_key transport_key counter in
      ground (
        arith,
        length-cbc_encrypt aes k zero_iv (get_padded_data vault_key 16)
            (length-derive_secret_key laws aes transport_key counter h),
        length-get_padded_data vault_key,
      )

  -- What a signature for the vault leaves.
  signed_for_vault :
      (s t : Session) (factor : ℕ) (header : Bytes)
      → (r : Session × ErrorCode × Option Bytes) → Signing s factor r
      → r ≡ (t, ErrorCode.ec_ok, some header)
      → (pd : PersistentData) × (activation_data s ≡ some pd)
        × (t ≡ record s { pd = some (signed factor pd) })
  signed_for_vault s t factor header r (Signing.refused code e) h = absurd (ground (arith, e, h))
  signed_for_vault s t factor header r (Signing.signed_once pd header' e) h =
      (pd, e, sym (ap (λ x. x.0) h))

  still_activated :
      (s : Session) (pd pd' : PersistentData)
      → activation_data s ≡ some pd
      → activation_data (record s { pd = some pd' }) ≡ some pd'
  unfolding activation_data has_valid_activation
  still_activated s pd pd' e = ground (arith, e)

  signed-sk : (factor : ℕ) (pd : PersistentData) → (signed factor pd).sk ≡ pd.sk
  unfolding signed
  signed-sk factor pd = ground arith

  vault_activated-sent_key :
      (s : Session) (pd : PersistentData) (plain : SignatureKeys) (keys : SignatureUnlockKeys)
      (c_vault_key vault_key : Bytes)
      → waiting_for_vault_unlock pd.flags_u32 ≡ true
      → unlock_signature_keys pd.sk (transport_request s keys) ≡ some plain
      → is_empty c_vault_key ≡ false
      → cc.from_base64 c_vault_key
        ≡ some (sent_key plain.transport_key (previous_counter pd.signature_counter) vault_key)
      → length vault_key ≡ 16
      → vault_activated s c_vault_key keys (some pd)
        ≡ (record s { pd = some (cleared pd) }, key vault_key)
  unfolding vault_activated vault_from transport_request eek has_valid_setup
  vault_activated-sent_key s pd plain keys c_vault_key vault_key w u n f l =
      let ht = length-transport_key pd.sk plain (transport_request s keys) u in
      rw
        (
          w,
          n,
          f,
          sent_key-is_empty plain.transport_key vault_key (previous_counter pd.signature_counter)
              ht,
          u,
        )
        (ap (λ v. (record s { pd = some (cleared pd) }, v))
          (vault_with-sent_key (cleared pd) plain vault_key ht l))

  some_same : {pd pd' : PersistentData} → some pd ≡ some pd' → pd ≡ pd'
  some_same h = ground (arith, h)

  same_request :
      (s : Session) (pd : PersistentData) (keys : SignatureUnlockKeys)
      → transport_request (record s { pd = some pd }) keys ≡ transport_request s keys
  unfolding transport_request eek has_valid_setup
  same_request s pd keys = refl

  previous-next_vault :
      (factor : ℕ) (pd : PersistentData)
      → has_factor factor sf_prepare_for_vault_unlock ≡ true
      → previous_counter (signed factor pd).signature_counter ≡ (pd.signature_counter + 1) % 2 ^ 64
  previous-next_vault factor pd f = let (c, _, _) = signed_lem factor pd in rw (c, f) (omega arith)

  -- After a signature for unlocking the vault was calculated from a counter, the vault key of 16
  -- bytes that a server encrypts, under the key that it derives from the transport key and that
  -- counter plus one, is what decryptVaultKey gives, and only the waiting flag is cleared. The
  -- conditions: the unlock keys give the signature keys, the Base64 text that is received is not
  -- empty and is read as the encrypted key, and AES and Base64 keep their laws.
  pub decrypt_vault_key-sign_http_request :
      (s t : Session) (request : HttpRequest) (signing_keys keys : SignatureUnlockKeys) (factor : ℕ)
      (draws : Draws) (header c_vault_key vault_key : Bytes) (pd : PersistentData)
      (plain : SignatureKeys)
      → sign_http_request s request signing_keys factor draws ≡ (t, ErrorCode.ec_ok, some header)
      → has_factor factor sf_prepare_for_vault_unlock ≡ true
      → activation_data s ≡ some pd
      → unlock_signature_keys pd.sk (transport_request s keys) ≡ some plain
      → is_empty c_vault_key ≡ false
      → cc.from_base64 c_vault_key
        ≡ some (sent_key plain.transport_key ((pd.signature_counter + 1) % 2 ^ 64) vault_key)
      → length vault_key ≡ 16
      → decrypt_vault_key t c_vault_key keys
        ≡ (record s { pd = some (cleared (signed factor pd)) }, key vault_key)
  unfolding decrypt_vault_key
  decrypt_vault_key-sign_http_request s t request signing_keys keys factor draws header c_vault_key
        vault_key pd plain h f e u n b l =
      let (pd1, e1, q) =
        signed_for_vault s t factor header (sign_http_request s request signing_keys factor draws)
          (Signing-sign_http_request s request factor draws signing_keys) h in
      let same : pd1 ≡ pd = some_same (sym e1 ∙ e) in
      let pd' = signed factor pd in
      let s' : Session = record s { pd = some pd' } in
      let q' : t ≡ s' = q ∙ ap (λ p. record s { pd = some (signed factor p) }) same in
      rw (q', still_activated s pd pd' e)
        (vault_activated-sent_key s' pd' plain keys c_vault_key vault_key
          ((signed_lem factor pd).1 ∙ f) (rw (same_request s pd' keys, signed-sk factor pd) u) n
          (rw (previous-next_vault factor pd f) b) l)
