-- ===== src/Examples/Texts.antt =====
-- The theorems on texts, messages and key exchange at concrete data.
use lime_security_powerauth.Base.{
  ℕ, ◌≡◌, ◌↔◌, refl, true, false, List, Bytes, equal, [], ◌∷◌, Option, none, some, arith, replicate,
  length, is_empty,
}
use lime_security_powerauth.Protocol.Types.{ActivationData, no_activation_data}
use lime_security_powerauth.Platform.{EcKey}
use lime_security_powerauth.Crypto.Aes.{cbc_encrypt_padding, cbc_encrypt}
use lime_security_powerauth.Crypto.Digest.{pbkdf2_hmac_sha_1}
use lime_security_powerauth.Crypto.Padding.{get_padded_data}
use lime_security_powerauth.Crypto.Ecc.{ecdh_shared_secret, import_public_key}
use lime_security_powerauth.Protocol.Activation.{
  is_null, encrypt_device_public_key, decrypt_server_public_key,
}
use lime_security_powerauth.Protocol.Activation.Exchange.{
  twice_encrypted, twice_decrypted, twice_decrypted-encrypt_device_public_key,
  decrypt_server_public_key-twice_encrypted,
}
use lime_security_powerauth.Protocol.Derivation.{reduce_shared_secret, expand_otp_key}
use lime_security_powerauth.Password.{password_length, is_equal_to_password}
use lime_security_powerauth.Password.Edits.{
  add, insert, remove, edits, edits_text, of_text, edits-of_text, is_equal_to_password-of_text,
}
use lime_security_powerauth.Session.KeyValues.{prepare_key_value_map_for_data_signing}
use lime_security_powerauth.Session.KeyValues.Lookup.{HasDistinctKeys, value_of, SameMap}
use lime_security_powerauth.Session.KeyValues.Text.{prepare-SameMap}
use lime_security_powerauth.Examples.Instances.{test_ssl, test_aes, test_digests}
use lime_security_powerauth.Examples.Data.{sixteen}

-- A euro sign typed before a letter, an index out of range, and the letter taken away.
edits-of_text_example :
    let es = insert 0x20AC 0 ∷ remove 7 ∷ remove 1 ∷ add 0x110000 ∷ [] in
    let (text, results) = edits_text es (65 ∷ []) in
    (edits es (of_text (65 ∷ [])) ≡ (of_text text, results))
    × (password_length (edits es (of_text (65 ∷ []))).0 ≡ length text)
edits-of_text_example =
    edits-of_text (insert 0x20AC 0 ∷ remove 7 ∷ remove 1 ∷ add 0x110000 ∷ []) (65 ∷ [])

is_equal_to_password-of_text_example :
    (is_equal_to_password (of_text (65 ∷ 0x20AC ∷ [])) (of_text (65 ∷ 0xAC ∷ [])) ≡ true)
    ↔ (◌≡◌ {A = List ℕ} (65 ∷ 0x20AC ∷ []) (65 ∷ 0xAC ∷ []))
is_equal_to_password-of_text_example =
    is_equal_to_password-of_text (65 ∷ 0x20AC ∷ []) (65 ∷ 0xAC ∷ [])
      (omega arith, (omega arith, tt)) (omega arith, (omega arith, tt))

abbrev pairs : List (Bytes × Bytes)
pairs = (65 ∷ [], 61 ∷ []) ∷ (38 ∷ [], []) ∷ []

abbrev other_order : List (Bytes × Bytes)
other_order = (38 ∷ [], []) ∷ (65 ∷ [], 61 ∷ []) ∷ []

distinct : HasDistinctKeys pairs × HasDistinctKeys other_order
unfolding HasDistinctKeys value_of equal
distinct = ((refl, (refl, tt)), (refl, (refl, tt)))

prepare-SameMap_example :
    (prepare_key_value_map_for_data_signing pairs
      ≡ prepare_key_value_map_for_data_signing other_order)
    ↔ SameMap pairs other_order
prepare-SameMap_example =
    prepare-SameMap pairs other_order distinct.0 distinct.1
      (((omega arith, tt), (omega arith, tt)), (((omega arith, tt), tt), tt))
      (((omega arith, tt), tt), (((omega arith, tt), (omega arith, tt)), tt))

abbrev exchange_data : ActivationData
exchange_data = record no_activation_data {
  master_server_public_key = some (record { point = 3 ∷ []; number = [] });
  ephemeral_device_key = some (record { point = 6 ∷ []; number = 7 ∷ [] });
  device_private_key = some (record { point = 4 ∷ []; number = 5 ∷ [] });
  device_public_key_data = 4 ∷ [];
  activation_nonce = sixteen 3;
  expanded_otp = sixteen 1;
}

abbrev server_key : Option EcKey
server_key = some (record { point = 3 ∷ []; number = 2 ∷ [] })

is_sent :
    is_empty (encrypt_device_public_key ⦃ssl = test_ssl⦄ exchange_data (1 ∷ []) (2 ∷ [])).1 ≡ false
unfolding encrypt_device_public_key equal reduce_shared_secret ecdh_shared_secret
    cbc_encrypt_padding cbc_encrypt get_padded_data expand_otp_key pbkdf2_hmac_sha_1
is_sent = refl

same_secret :
    ecdh_shared_secret ⦃ssl = test_ssl⦄ (exchange_data.ephemeral_device_key) server_key
    ≡ ecdh_shared_secret ⦃ssl = test_ssl⦄
        (exchange_data.master_server_public_key)
        (exchange_data.ephemeral_device_key)
unfolding ecdh_shared_secret
same_secret = refl

twice_decrypted-encrypt_device_public_key_example :
    let (ad', c_device_public_key) =
      encrypt_device_public_key ⦃ssl = test_ssl⦄ exchange_data (1 ∷ []) (2 ∷ []) in
    let server_secret =
      ecdh_shared_secret ⦃ssl = test_ssl⦄ (exchange_data.ephemeral_device_key) server_key in
    let expanded_otp = expand_otp_key ⦃ssl = test_ssl⦄ (1 ∷ []) (2 ∷ []) in
    (twice_decrypted ⦃ssl = test_ssl⦄
        (reduce_shared_secret server_secret)
        expanded_otp
        (sixteen 3)
        c_device_public_key
      ≡ 4 ∷ [])
    × (ad' ≡ record exchange_data { expanded_otp = expanded_otp })
twice_decrypted-encrypt_device_public_key_example =
    twice_decrypted-encrypt_device_public_key ⦃ssl = test_ssl⦄ test_aes test_digests exchange_data
      (1 ∷ []) (2 ∷ []) server_key (exchange_data.ephemeral_device_key) is_sent same_secret

abbrev ephemeral : Option EcKey
ephemeral = import_public_key ⦃ssl = test_ssl⦄ none (8 ∷ [])

imported_keys :
    (is_null ephemeral ≡ false)
    × (is_null (import_public_key ⦃ssl = test_ssl⦄ none (9 ∷ [])) ≡ false)
    × (replicate 32 5
        ≡ ecdh_shared_secret ⦃ssl = test_ssl⦄ ephemeral (exchange_data.device_private_key))
    × (is_empty (reduce_shared_secret (replicate 32 5)) ≡ false)
unfolding import_public_key ecdh_shared_secret reduce_shared_secret
imported_keys = (refl, refl, refl, refl)

decrypt_server_public_key-twice_encrypted_example :
    decrypt_server_public_key ⦃ssl = test_ssl⦄ exchange_data
      (8 ∷ [])
      (twice_encrypted ⦃ssl = test_ssl⦄
        (reduce_shared_secret (replicate 32 5))
        (sixteen 1)
        (sixteen 3)
        (9 ∷ []))
      (sixteen 3)
    ≡ some (record exchange_data {
      ephemeral_server_key = ephemeral;
      server_public_key = import_public_key ⦃ssl = test_ssl⦄ none (9 ∷ []);
      server_public_key_data = 9 ∷ [];
    })
decrypt_server_public_key-twice_encrypted_example =
    decrypt_server_public_key-twice_encrypted ⦃ssl = test_ssl⦄ test_aes exchange_data (8 ∷ [])
      (sixteen 3) (9 ∷ []) (replicate 32 5) imported_keys.0 imported_keys.1 refl refl
      imported_keys.2 imported_keys.3
