-- ===== src/Protocol/Activation.antt =====
-- src/PowerAuth/protocol/ProtocolUtils.cpp: the exchange of public keys during an activation.
pub mod Exchange
use lime_security_powerauth.Base.{
  Bool, true, false, not, ◌||◌, [], Option, none, some, ◌==◌, if◌then◌else◌, is_empty, equal, Bytes,
  length,
}
use lime_security_powerauth.Platform.{OpenSsl, EcKey}
use lime_security_powerauth.Crypto.Aes.{cbc_encrypt_padding, cbc_decrypt_padding}
use lime_security_powerauth.Crypto.Ecc.{import_public_key, ecdh_shared_secret}
use lime_security_powerauth.Protocol.Constants.{activation_nonce_size, zero_iv}
use lime_security_powerauth.Protocol.Types.{ActivationData}
use lime_security_powerauth.Protocol.Derivation.{reduce_shared_secret, expand_otp_key}

abbrev pub is_null : Option EcKey → Bool
is_null none = true
is_null (some key) = false

module _ ⦃ssl : OpenSsl⦄ where
  -- The activation data with the expanded OTP, and the encrypted key, empty for a failure.
  unfoldable pub encrypt_device_public_key : ActivationData → Bytes → Bytes → ActivationData × Bytes
  encrypt_device_public_key ad activation_id_short otp =
      let ephemeral_shared_secret =
        reduce_shared_secret
          (ecdh_shared_secret ad.master_server_public_key ad.ephemeral_device_key) in
      let expanded_otp = expand_otp_key activation_id_short otp in
      let tmp_data =
        cbc_encrypt_padding expanded_otp ad.activation_nonce ad.device_public_key_data in
      if is_empty ad.device_public_key_data
        || not (length ad.activation_nonce == activation_nonce_size)
        || equal ad.activation_nonce zero_iv
        || is_null ad.ephemeral_device_key
      then (ad, [])
      else if is_empty ephemeral_shared_secret
      then (ad, [])
      else (
        record ad { expanded_otp = expanded_otp },
        cbc_encrypt_padding ephemeral_shared_secret ad.activation_nonce tmp_data,
      )

  with_server_key : ActivationData → Bytes → Bytes → Bytes → Bytes → Option ActivationData
  with_server_key ad ephemeral_shared_secret encrypted_pk nonce server_public_key_data =
      let server_public_key = import_public_key none server_public_key_data in
      if is_null server_public_key
      then none
      else some (record ad {
        server_public_key = server_public_key;
        server_public_key_data = server_public_key_data;
      })

  -- The activation data with the server's keys, `none` for false; a failure is followed by a reset.
  unfoldable pub decrypt_server_public_key :
      ActivationData → Bytes → Bytes → Bytes → Option ActivationData
  unfolding with_server_key
  decrypt_server_public_key ad ephemeral encrypted_pk nonce =
      let ephemeral_server_key = import_public_key none ephemeral in
      let ephemeral_shared_secret =
        reduce_shared_secret (ecdh_shared_secret ephemeral_server_key ad.device_private_key) in
      let tmp_data = (cbc_decrypt_padding ephemeral_shared_secret nonce encrypted_pk).0 in
      let server_public_key_data = (cbc_decrypt_padding ad.expanded_otp nonce tmp_data).0 in
      if is_null ephemeral_server_key
      then none
      else if is_empty ephemeral_shared_secret
      then none
      else with_server_key (record ad { ephemeral_server_key = ephemeral_server_key })
          ephemeral_shared_secret encrypted_pk nonce server_public_key_data
