-- ===== src/Examples/Parts.antt =====
-- The theorems on padding, random data, bytes, keys, messages, passwords and strings at concrete
-- data.
use lime_security_powerauth.Base.{
  none, if◌then◌else◌, ◌==◌, ℕ, ◌+◌, ◌*◌, ◌%◌, ◌^◌, ◌<◌, ◌≡◌, refl, inl, true, false, [], ◌∷◌, some,
  arith, length, replicate, ◌≢◌, equal,
}
use lime_security_powerauth.Crypto.Aes.{cbc_encrypt, cbc_encrypt_padding, cbc_decrypt_padding}
use lime_security_powerauth.Crypto.Aes.Laws.{cbc_decrypt_padding-cbc_encrypt_padding}
use lime_security_powerauth.Crypto.Digest.{hmac_sha256}
use lime_security_powerauth.Crypto.Padding.{get_padded_data}
use lime_security_powerauth.Crypto.Padding.Laws.{
  validate_and_update_data-get_padded_data, validate_and_update_data_sound,
}
use lime_security_powerauth.Crypto.Prng.{Draws, get_random_data, get_unique_random_data}
use lime_security_powerauth.Crypto.Prng.Reseed.{
  SystemGenerator, AreSeeds, reseeds, AreSeeds-reseeds,
}
use lime_security_powerauth.Crypto.Prng.Laws.{AllDrawn, get_random_data_finds}
use lime_security_powerauth.Encryptor.{
  Mode, Encryptor, EncryptedMessage, EncryptRandom, encrypt, decrypt,
}
use lime_security_powerauth.Encryptor.RoundTrip.{decrypt-encrypt}
use lime_security_powerauth.Protocol.Constants.{sf_knowledge}
use lime_security_powerauth.Protocol.Derivation.{derive_secret_key_from_index}
use lime_security_powerauth.Protocol.Locking.{
  lock_signature_keys, unlock_signature_keys, protect_signature_keys_with_eek,
}
use lime_security_powerauth.Protocol.Locking.ExternalKey.{unprotect-protect}
use lime_security_powerauth.Protocol.Locking.AnyFactor.{unlock-lock}
use lime_security_powerauth.Protocol.Locking.Opens.{only}
use lime_security_powerauth.Encryptor.Accepted.{IsAuthentic, IsAuthentic-decrypt}
use lime_security_powerauth.Protocol.Signature.{calculate_decimalized_signature}
use lime_security_powerauth.Protocol.Signature.Decimal.{
  digits_value, calculate_decimalized_signature_lem,
}
use lime_security_powerauth.Protocol.Types.{
  ErrorCode, SignatureKeys, SignatureUnlockKeysReq, no_keys,
}
use lime_security_powerauth.Protocol.Validation.{validate_unlock_keys, validate_signature_keys}
use lime_security_powerauth.Protocol.Derivation.{derive_secret_key_from_password}
use lime_security_powerauth.Crypto.Digest.{pbkdf2_hmac_sha_1}
use lime_security_powerauth.Utils.Reader.{
  read_byte, read_memory, skip_bytes, read_count, read_data, read_range, read_memory_range,
  read_string, read_u16, read_u32, read_u64,
}
use lime_security_powerauth.Utils.Reader
use lime_security_powerauth.Utils.Reader.Moves.{Moves, reads-Moves}
use lime_security_powerauth.Utils.Url.{convert_string_to_url_encoded_data}
use lime_security_powerauth.Utils.Url.Laws.{encode_each, convert_lem}
use lime_security_powerauth.Examples.Instances.{
  test_cc, test_ssl, test_cc_laws, test_aes, test_digests,
}
use lime_security_powerauth.Examples.Data.{
  sixteen, test_draws, test_signature_keys, test_unlock_keys,
}

cbc_decrypt_padding-cbc_encrypt_padding_example :
    cbc_decrypt_padding ⦃ssl = test_ssl⦄
      (sixteen 1)
      (sixteen 2)
      (cbc_encrypt_padding ⦃ssl = test_ssl⦄ (sixteen 1) (sixteen 2) (1 ∷ 2 ∷ 3 ∷ []))
    ≡ (1 ∷ 2 ∷ 3 ∷ [], false)
cbc_decrypt_padding-cbc_encrypt_padding_example =
    cbc_decrypt_padding-cbc_encrypt_padding ⦃ssl = test_ssl⦄ test_aes (sixteen 1) (sixteen 2)
      (1 ∷ 2 ∷ 3 ∷ []) refl refl

validate_and_update_data_sound_example :
    get_padded_data (1 ∷ 2 ∷ []) 16 ≡ get_padded_data (1 ∷ 2 ∷ []) 16
validate_and_update_data_sound_example =
    validate_and_update_data_sound (get_padded_data (1 ∷ 2 ∷ []) 16) (1 ∷ 2 ∷ [])
      (validate_and_update_data-get_padded_data (1 ∷ 2 ∷ []))

-- The first draw is all zeros, the second one is not.
abbrev second_draw : Draws
second_draw i = some (sixteen (5 * i))

before : (k : ℕ) → k < 1 → second_draw k ≡ some (replicate 16 0)
before k h = ground (arith, h)

not_zeros : sixteen 5 ≢ replicate 16 0
not_zeros e = ground (arith, e)

get_random_data_finds_example : get_random_data 16 true second_draw ≡ sixteen 5
get_random_data_finds_example =
    get_random_data_finds 16 1 second_draw (sixteen 5) (omega arith) (omega arith) before refl
      not_zeros

reads-Moves_example :
    Moves read_byte
    × Moves (read_memory 3)
    × Moves (skip_bytes 3)
    × Moves read_count
    × Moves (read_data 3)
    × Moves read_string
    × Moves (read_range 3)
    × Moves (read_memory_range 3)
    × Moves (read_u16 ⦃cc = test_cc⦄)
    × Moves (read_u32 ⦃cc = test_cc⦄)
    × Moves (read_u64 ⦃cc = test_cc⦄)
    × Moves (Reader.open_version 80 65)
    × Moves Reader.close_version
reads-Moves_example = reads-Moves ⦃cc = test_cc⦄ 3 80 65

abbrev knowledge_request : SignatureUnlockKeysReq
knowledge_request = record {
  factor = sf_knowledge;
  keys = test_unlock_keys;
  ext_key = some (sixteen 6);
  pbkdf2_salt = some (sixteen 8);
  pbkdf2_iter = 10000;
}

abbrev external_keys : SignatureKeys
external_keys = record test_signature_keys { uses_external_key = true }

abbrev locked_keys : SignatureKeys
locked_keys = record no_keys { knowledge_key = sixteen 2; uses_external_key = true }

is_locked :
    lock_signature_keys ⦃ssl = test_ssl⦄ no_keys external_keys knowledge_request
    ≡ (locked_keys, true)
unfolding lock_signature_keys validate_unlock_keys validate_signature_keys cbc_encrypt equal
    derive_secret_key_from_password pbkdf2_hmac_sha_1
is_locked = refl

unlock-lock_example :
    unlock_signature_keys ⦃ssl = test_ssl⦄ locked_keys knowledge_request
    ≡ some (only sf_knowledge external_keys)
unlock-lock_example =
    unlock-lock ⦃ssl = test_ssl⦄ test_aes test_digests no_keys external_keys locked_keys
      knowledge_request refl is_locked

unprotect-protect_example :
    let (protected, done) =
      protect_signature_keys_with_eek ⦃ssl = test_ssl⦄ test_signature_keys (sixteen 6) true in
    (done ≡ true)
    × (protect_signature_keys_with_eek ⦃ssl = test_ssl⦄ protected (sixteen 6) false
        ≡ (test_signature_keys, true))
unprotect-protect_example =
    unprotect-protect ⦃ssl = test_ssl⦄ test_aes (sixteen 6) refl test_signature_keys refl
      (refl, inl refl)

abbrev test_encryptor : Encryptor
test_encryptor = record {
  mode = Mode.nonpersonalized;
  session_index = sixteen 1;
  key_transport_partial = sixteen 2;
  app_key_or_activation_id = 7 ∷ [];
  ephemeral_public_key = 8 ∷ [];
}

abbrev encrypt_random : EncryptRandom
encrypt_random = record {
  ad_hoc_draws = test_draws;
  mac_draws = test_draws;
  nonce_draws = test_draws;
}

abbrev test_message : EncryptedMessage
test_message = record {
  application_key = 7 ∷ [];
  activation_id = [];
  encrypted_data = 1 ∷ 2 ∷ replicate 14 14;
  mac = replicate 32 9;
  session_index = sixteen 1;
  ad_hoc_index = sixteen 3;
  mac_index = sixteen 4;
  nonce = sixteen 3;
  ephemeral_public_key = 8 ∷ [];
}

is_encrypted :
    encrypt ⦃cc = test_cc⦄ ⦃ssl = test_ssl⦄ test_encryptor encrypt_random (1 ∷ 2 ∷ [])
    ≡ some test_message
unfolding encrypt get_random_data get_unique_random_data equal derive_secret_key_from_index
    hmac_sha256 cbc_encrypt_padding cbc_encrypt get_padded_data
is_encrypted = refl

full_draws : AllDrawn (λ d. length d ≡ 16) test_draws
full_draws j d e = ground (arith, e)

is_decrypted :
    decrypt ⦃cc = test_cc⦄ ⦃ssl = test_ssl⦄ test_encryptor test_message
    ≡ (ErrorCode.ec_ok, 1 ∷ 2 ∷ [])
is_decrypted =
    decrypt-encrypt ⦃cc = test_cc⦄ ⦃ssl = test_ssl⦄ test_cc_laws test_aes test_encryptor
      encrypt_random (1 ∷ 2 ∷ []) test_message refl full_draws full_draws full_draws is_encrypted

IsAuthentic-decrypt_example :
    IsAuthentic ⦃cc = test_cc⦄ ⦃ssl = test_ssl⦄ test_encryptor test_message (1 ∷ 2 ∷ [])
IsAuthentic-decrypt_example =
    IsAuthentic-decrypt ⦃cc = test_cc⦄ ⦃ssl = test_ssl⦄ test_encryptor test_message (1 ∷ 2 ∷ [])
      is_decrypted

decrypt-encrypt_example :
    decrypt ⦃cc = test_cc⦄ ⦃ssl = test_ssl⦄ test_encryptor test_message
    ≡ (ErrorCode.ec_ok, 1 ∷ 2 ∷ [])
decrypt-encrypt_example =
    decrypt-encrypt ⦃cc = test_cc⦄ ⦃ssl = test_ssl⦄ test_cc_laws test_aes test_encryptor
      encrypt_random (1 ∷ 2 ∷ []) test_message refl full_draws full_draws full_draws is_encrypted

convert_lem_example :
    convert_string_to_url_encoded_data (65 ∷ 32 ∷ 47 ∷ []) ≡ encode_each (65 ∷ 32 ∷ 47 ∷ [])
convert_lem_example = convert_lem (65 ∷ 32 ∷ 47 ∷ [])

calculate_decimalized_signature_lem_example :
    let s = calculate_decimalized_signature (9 ∷ 255 ∷ 1 ∷ 2 ∷ 3 ∷ []) in
    (length s ≡ 8) × (digits_value s 0 ≡ (255 % 128 * 2 ^ 24 + 1 * 2 ^ 16 + 2 * 2 ^ 8 + 3) % 10 ^ 8)
calculate_decimalized_signature_lem_example =
    calculate_decimalized_signature_lem (9 ∷ []) 255 1 2 3 (omega arith) (omega arith) (omega arith)
      (omega arith)

-- The second read of /dev/urandom is short.
abbrev short_urandom : SystemGenerator
short_urandom n = if n == 20 then none else some (replicate n 1)

AreSeeds-reseeds_example : AreSeeds (reseeds short_urandom true (0 ∷ 20 ∷ 99 ∷ []))
AreSeeds-reseeds_example = AreSeeds-reseeds short_urandom (0 ∷ 20 ∷ 99 ∷ [])
