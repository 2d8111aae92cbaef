-- ===== src/Protocol/Derivation/Laws.antt =====
-- The sizes of derived keys.
use lime_security_powerauth.Base.{
  ◌+◌, ◌++◌, ◌∙◌, replicate, length-append, ℕ, zero, suc, ◌≡◌, refl, ap, false, is_empty, Bytes,
  length, arith,
}
use lime_security_powerauth.Platform.{Cc7, Cc7Laws, OpenSsl, AesLaws, DigestLaws}
use lime_security_powerauth.Crypto.Aes.Laws.{length-cbc_encrypt}
use lime_security_powerauth.Protocol.Constants.{zero_iv}
use lime_security_powerauth.Crypto.Digest.{hmac_sha256, pbkdf2_hmac_sha_1}
use lime_security_powerauth.Protocol.Derivation.{
  derive_secret_key, u64_to_data, xor_loop, folded, reduce_shared_secret, expand_otp_key,
  derive_secret_key_from_index,
}

length-xor_loop : (n i : ℕ) (s : Bytes) → length (xor_loop n i s) ≡ n
unfolding xor_loop
length-xor_loop zero i s = refl
length-xor_loop (suc n) i s = ap suc (length-xor_loop n (suc i) s)

pub length-reduce_shared_secret : (s : Bytes) → length s ≡ 32 → length (reduce_shared_secret s) ≡ 16
unfolding reduce_shared_secret
length-reduce_shared_secret s h = ground (arith, length-xor_loop 16 0 s)

-- A reduced secret that is not empty has 16 bytes.
pub size-reduce_shared_secret :
    (s : Bytes) → is_empty (reduce_shared_secret s) ≡ false → length (reduce_shared_secret s) ≡ 16
unfolding reduce_shared_secret
size-reduce_shared_secret s h = ground (arith, length-xor_loop 16 0 s)

pub length-expand_otp_key :
    ⦃ssl : OpenSsl⦄ (digests : DigestLaws ssl) (activation_id_short otp : Bytes)
    → length (expand_otp_key activation_id_short otp) ≡ 16
unfolding expand_otp_key pbkdf2_hmac_sha_1
length-expand_otp_key digests activation_id_short otp =
    digests.length-pbkdf2 otp activation_id_short 10000 16

length-folded : ⦃ssl : OpenSsl⦄ (s : Bytes) → is_empty (folded s) ≡ false → length (folded s) ≡ 16
unfolding folded
length-folded s h = ground (arith, length-xor_loop 16 0 s)

-- A key that is derived from an index and is not empty has 16 bytes.
pub length-derive_secret_key_from_index :
    ⦃ssl : OpenSsl⦄ (key index : Bytes)
    → is_empty (derive_secret_key_from_index key index) ≡ false
    → length (derive_secret_key_from_index key index) ≡ 16
unfolding derive_secret_key_from_index
length-derive_secret_key_from_index key index h =
    ground (arith, length-folded (hmac_sha256 key index 0))

-- A key that is derived from a 16-byte secret has 16 bytes.
pub length-derive_secret_key :
    ⦃cc : Cc7⦄ ⦃ssl : OpenSsl⦄ (laws : Cc7Laws cc) (aes : AesLaws ssl) (secret : Bytes) (i : ℕ)
    → length secret ≡ 16
    → length (derive_secret_key secret i) ≡ 16
unfolding derive_secret_key u64_to_data
length-derive_secret_key ⦃cc⦄ laws aes secret i h =
    length-cbc_encrypt aes secret zero_iv (replicate 8 0 ++ cc.to_big_endian 8 i) h
    ∙ length-append (replicate 8 0) (cc.to_big_endian 8 i)
    ∙ ap (λ (n : ℕ). 8 + n) (laws.length-to_big_endian 8 i)
