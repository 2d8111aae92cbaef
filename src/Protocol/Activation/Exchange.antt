-- ===== src/Protocol/Activation/Exchange.antt =====
-- The two sides of the exchange of public keys: what the device encrypts the server reads, and what
-- the server encrypts the device reads.
use lime_security_powerauth.Base.{
  ◌≡◌, refl, ap, ◌∙◌, false, Option, some, none, Bytes, length, is_empty, arith,
}
use lime_security_powerauth.Platform.{OpenSsl, EcKey, AesLaws, DigestLaws}
use lime_security_powerauth.Crypto.Aes.{cbc_encrypt_padding, cbc_decrypt_padding}
use lime_security_powerauth.Crypto.Aes.Laws.{cbc_decrypt_padding-cbc_encrypt_padding}
use lime_security_powerauth.Crypto.Ecc.{import_public_key, ecdh_shared_secret}
use lime_security_powerauth.Protocol.Types.{ActivationData}
use lime_security_powerauth.Protocol.Derivation.{reduce_shared_secret, expand_otp_key}
use lime_security_powerauth.Protocol.Derivation.Laws.{
  size-reduce_shared_secret, length-expand_otp_key,
}
use lime_security_powerauth.Protocol.Activation.{
  is_null, encrypt_device_public_key, with_server_key, decrypt_server_public_key,
}

module _ ⦃ssl : OpenSsl⦄ where
  -- Data under both keys of the exchange: the expanded OTP inside, the shared secret outside.
  unfoldable pub twice_encrypted : Bytes → Bytes → Bytes → Bytes → Bytes
  twice_encrypted shared_secret expanded_otp nonce d =
      cbc_encrypt_padding shared_secret nonce (cbc_encrypt_padding expanded_otp nonce d)

  unfoldable pub twice_decrypted : Bytes → Bytes → Bytes → Bytes → Bytes
  twice_decrypted shared_secret expanded_otp nonce d =
      (cbc_decrypt_padding expanded_otp nonce (cbc_decrypt_padding shared_secret nonce d).0).0

module _ ⦃ssl : OpenSsl⦄ (aes : AesLaws ssl) where
  twice_decrypted-twice_encrypted :
      (shared_secret expanded_otp nonce d : Bytes)
      → length shared_secret ≡ 16
      → length expanded_otp ≡ 16
      → length nonce ≡ 16
      → twice_decrypted shared_secret expanded_otp nonce
          (twice_encrypted shared_secret expanded_otp nonce d)
        ≡ d
  unfolding twice_decrypted twice_encrypted
  twice_decrypted-twice_encrypted shared_secret expanded_otp nonce d hs ho hn =
      ap (λ r. (cbc_decrypt_padding expanded_otp nonce (r.0)).0)
        (cbc_decrypt_padding-cbc_encrypt_padding aes shared_secret nonce
          (cbc_encrypt_padding expanded_otp nonce d) hs hn)
      ∙ ap (λ r. r.0) (cbc_decrypt_padding-cbc_encrypt_padding aes expanded_otp nonce d ho hn)

  -- Where the device's public key is encrypted, a server that has the same short activation id and
  -- OTP, and whose ECDH gives the secret that the device's gave, decrypts it to the device's public
  -- key; the activation data then hold the expanded OTP and are unchanged otherwise. AES decrypts
  -- what it encrypts, and PBKDF2 gives keys of the size asked for.
  pub twice_decrypted-encrypt_device_public_key :
      DigestLaws ssl
      → (ad : ActivationData) (activation_id_short otp : Bytes)
        (master_private_key device_ephemeral_key : Option EcKey)
      → let (ad', c_device_public_key) = encrypt_device_public_key ad activation_id_short otp in
        let server_secret = ecdh_shared_secret device_ephemeral_key master_private_key in
        let expanded_otp = expand_otp_key activation_id_short otp in
        is_empty c_device_public_key ≡ false
        → server_secret ≡ ecdh_shared_secret ad.master_server_public_key ad.ephemeral_device_key
        → (twice_decrypted
              (reduce_shared_secret server_secret)
              expanded_otp
              ad.activation_nonce
              c_device_public_key
            ≡ ad.device_public_key_data)
          × (ad' ≡ record ad { expanded_otp = expanded_otp })
  unfolding encrypt_device_public_key twice_encrypted
  twice_decrypted-encrypt_device_public_key digests ad activation_id_short otp master_private_key
        device_ephemeral_key e same =
      let shared =
        reduce_shared_secret
          (ecdh_shared_secret ad.master_server_public_key ad.ephemeral_device_key) in
      rw same (
        ground (
          arith,
          e,
          size-reduce_shared_secret
              (ecdh_shared_secret ad.master_server_public_key ad.ephemeral_device_key),
          length-expand_otp_key digests activation_id_short otp,
          twice_decrypted-twice_encrypted shared (expand_otp_key activation_id_short otp)
              ad.activation_nonce ad.device_public_key_data,
        ))

  -- The server's public key, encrypted by a server that has the expanded OTP and whose ECDH gives
  -- the secret that the device's gives for the ephemeral key, is what the device decrypts: the
  -- ephemeral key and the server's key are imported, and the rest of the activation data is kept.
  -- Both keys can be imported, OTP key and nonce have 16 bytes, and AES decrypts what it encrypts.
  pub decrypt_server_public_key-twice_encrypted :
      (ad : ActivationData) (ephemeral nonce server_public_key_data server_secret : Bytes)
      → let ephemeral_key = import_public_key none ephemeral in
        let server_key = import_public_key none server_public_key_data in
        is_null ephemeral_key ≡ false
        → is_null server_key ≡ false
        → length ad.expanded_otp ≡ 16
        → length nonce ≡ 16
        → server_secret ≡ ecdh_shared_secret ephemeral_key ad.device_private_key
        → is_empty (reduce_shared_secret server_secret) ≡ false
        → decrypt_server_public_key ad ephemeral
            (twice_encrypted
              (reduce_shared_secret server_secret)
              ad.expanded_otp
              nonce
              server_public_key_data)
            nonce
          ≡ some (record ad {
            ephemeral_server_key = ephemeral_key;
            server_public_key = server_key;
            server_public_key_data = server_public_key_data;
          })
  unfolding decrypt_server_public_key with_server_key twice_decrypted
  decrypt_server_public_key-twice_encrypted ad ephemeral nonce server_public_key_data server_secret
        hi hs ho hn same n =
      let shared = reduce_shared_secret server_secret in
      rw (← same) (
        rw
          (
            hi,
            n,
            twice_decrypted-twice_encrypted shared ad.expanded_otp nonce server_public_key_data
                (size-reduce_shared_secret server_secret n) ho hn,
            hs,
          )
          refl)
