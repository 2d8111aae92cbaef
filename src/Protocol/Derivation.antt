-- ===== src/Protocol/Derivation.antt =====
-- src/PowerAuth/protocol/ProtocolUtils.cpp: keys derived from secrets, passwords and indexes.
pub mod Laws
use lime_security_powerauth.Base.{
  ℕ, zero, suc, ◌+◌, bit_xor, Bool, true, false, ◌&&◌, [], ◌∷◌, ◌++◌, ◌==◌, if◌then◌else◌, Bytes,
  length, get_or, take, replicate,
}
use lime_security_powerauth.Platform.{Cc7, OpenSsl}
use lime_security_powerauth.Crypto.Aes.{cbc_encrypt}
use lime_security_powerauth.Crypto.Digest.{hmac_sha256, pbkdf2_hmac_sha_1}
use lime_security_powerauth.Protocol.Constants.{
  zero_iv, signature_key_size, shared_secret_key_size, pbkdf2_otp_expand_iterations,
}
use lime_security_powerauth.Protocol.Types.{SignatureKeys}

-- `out[i] = in[i] ^ in[i + 16]` for the rounds left.
xor_loop : ℕ → ℕ → Bytes → Bytes
xor_loop zero i secret = []
xor_loop (suc rounds) i secret =
    bit_xor (get_or secret i 0) (get_or secret (i + 16) 0) ∷ xor_loop rounds (suc i) secret

unfoldable pub reduce_shared_secret : Bytes → Bytes
unfolding xor_loop
reduce_shared_secret secret =
    if length secret == shared_secret_key_size then xor_loop 16 0 secret else []

module _ ⦃cc : Cc7⦄ where
  unfoldable pub u64_to_data : ℕ → Bytes
  u64_to_data n = replicate 8 0 ++ cc.to_big_endian 8 n

module _ ⦃ssl : OpenSsl⦄ where
  unfoldable pub expand_otp_key : Bytes → Bytes → Bytes
  expand_otp_key activation_id_short otp =
      pbkdf2_hmac_sha_1 otp activation_id_short pbkdf2_otp_expand_iterations signature_key_size

  unfoldable pub derive_secret_key_from_password : Bytes → Bytes → ℕ → Bytes
  derive_secret_key_from_password password salt iterations =
      pbkdf2_hmac_sha_1 password salt iterations signature_key_size

  folded : Bytes → Bytes
  unfolding xor_loop
  folded result = if length result == 32 then xor_loop 16 0 result else []

  unfoldable pub derive_secret_key_from_index : Bytes → Bytes → Bytes
  unfolding folded
  derive_secret_key_from_index master_key index =
      if length master_key == signature_key_size && length index == signature_key_size
      then folded (hmac_sha256 master_key index 0)
      else []

  module _ ⦃cc : Cc7⦄ where
    unfoldable pub derive_secret_key : Bytes → ℕ → Bytes
    derive_secret_key secret index = cbc_encrypt secret zero_iv (u64_to_data index)

    -- The keys, which keep their flag, the vault key, and the result.
    unfoldable pub derive_all_secret_keys : SignatureKeys → Bytes → SignatureKeys × Bytes × Bool
    derive_all_secret_keys keys master_secret =
        let possession_key = derive_secret_key master_secret 1 in
        let knowledge_key = derive_secret_key master_secret 2 in
        let biometry_key = derive_secret_key master_secret 3 in
        let transport_key = derive_secret_key master_secret 1000 in
        let vault_key = derive_secret_key master_secret 2000 in
        (
          record keys {
            possession_key = possession_key;
            knowledge_key = knowledge_key;
            biometry_key = biometry_key;
            transport_key = transport_key;
          },
          vault_key,
          length possession_key == signature_key_size
              && length knowledge_key == signature_key_size
              && length biometry_key == signature_key_size
              && length transport_key == signature_key_size
              && length vault_key == signature_key_size,
        )
