-- ===== src/Protocol/Signature.antt =====
-- src/PowerAuth/protocol/ProtocolUtils.cpp: signatures and the data they are calculated from.
pub mod Decimal
use lime_security_powerauth.Base.{
  ℕ, zero, suc, ◌+◌, ◌-◌, ◌*◌, ◌/◌, ◌%◌, ◌^◌, bit_and, bit_or, Bool, true, false, not, ◌&&◌, ◌||◌,
  List, [], ◌∷◌, ◌++◌, Option, none, some, ltb, ◌==◌, if◌then◌else◌, is_empty, Bytes, length,
  get_or, take, drop, replicate,
}
use lime_security_powerauth.Platform.{Cc7, OpenSsl, EcKey}
use lime_security_powerauth.Crypto.Digest.{hmac_sha256}
use lime_security_powerauth.Crypto.Ecc.{ecdsa_validate_signature}
use lime_security_powerauth.Protocol.Constants.{
  codes, amp, dash, has_factor, sf_possession, sf_knowledge, sf_biometry, sf_possession_biometry,
  sf_possession_knowledge, sf_possession_knowledge_biometry, hk_device_public_key_size,
}
use lime_security_powerauth.Protocol.Types.{SignatureKeys}
use lime_security_powerauth.Protocol.Derivation.{u64_to_data}

-- `std::to_string`: the decimal digits of a number below 10 ^ (fuel + 1).
pub to_string : ℕ → ℕ → Bytes
to_string zero n = (n + b'0') ∷ []
to_string (suc fuel) n =
    let front = to_string fuel (n / 10) in
    if ltb n 10 then (n + b'0') ∷ [] else front ++ (n % 10 + b'0') ∷ []

-- `val` is a cc7::U32, so ten digits are enough.
unfoldable pub val_to_norm_string : ℕ → Bytes
unfolding to_string
val_to_norm_string val =
    let result = to_string 9 val in
    if ltb (length result) hk_device_public_key_size
    then take (hk_device_public_key_size - length result) (replicate 8 b'0') ++ result
    else result

unfoldable pub calculate_decimalized_signature : Bytes → Bytes
calculate_decimalized_signature signature =
    let offset = length signature - 4 in
    let dbc =
      bit_or
        (bit_or
          (bit_or (bit_and (get_or signature offset 0) 0x7F * 2 ^ 24)
            (get_or signature (offset + 1) 0 * 2 ^ 16))
          (get_or signature (offset + 2) 0 * 2 ^ 8))
        (get_or signature (offset + 3) 0) in
    if ltb (length signature) 4 then [] else val_to_norm_string (dbc % 100000000)

signature_keys : SignatureKeys → ℕ → List Bytes
signature_keys sk factor =
    (if has_factor factor sf_possession then sk.possession_key ∷ [] else [])
    ++ ((if has_factor factor sf_knowledge then sk.knowledge_key ∷ [] else [])
        ++ (if has_factor factor sf_biometry then sk.biometry_key ∷ [] else []))

module _ ⦃ssl : OpenSsl⦄ where
  -- The inner loop over j: `inner_keys` are keys[j + 1] for the rounds left. `none` is the early
  -- return of an empty string.
  mix_keys : Bytes → Bytes → List Bytes → Option Bytes
  mix_keys counter derived_key [] = some derived_key
  mix_keys counter derived_key (key ∷ inner_keys) =
      let mixed = hmac_sha256 derived_key (hmac_sha256 counter key 0) 0 in
      let rest = mix_keys counter mixed inner_keys in if is_empty mixed then none else rest

  unfoldable pub calculate_decimal : Bytes → Option Bytes → Option Bytes
  calculate_decimal d none = none
  calculate_decimal d (some derived_key) =
      let signature_long = hmac_sha256 d derived_key 0 in
      if is_empty signature_long
      then none
      else some (calculate_decimalized_signature signature_long)

  -- One round of the outer loop for `keys[i]`.
  key_signature : Bytes → Bytes → Bytes → List Bytes → Option Bytes
  unfolding mix_keys calculate_decimal
  key_signature counter d key inner_keys =
      let derived_key = hmac_sha256 counter key 0 in
      if is_empty derived_key
      then none
      else calculate_decimal d (mix_keys counter derived_key inner_keys)

  joined : Bytes → Bytes → Bytes
  joined result signature = if is_empty result then signature else result ++ (dash ++ signature)

  -- The outer loop: `i` rounds are done, `keys` is the whole vector.
  sign_loop : Bytes → Bytes → List Bytes → List Bytes → ℕ → Bytes → Bytes
  unfolding key_signature joined
  sign_loop counter d keys [] i result = result
  sign_loop counter d keys (key ∷ rest) i result =
      elim (key_signature counter d key (take i (drop 1 keys))) [
        | none ↦ []
        | some signature ↦ sign_loop counter d keys rest (suc i) (joined result signature)
      ]

  module _ ⦃cc : Cc7⦄ where
    unfoldable pub calculate_signature : SignatureKeys → ℕ → ℕ → Bytes → Bytes
    unfolding signature_keys sign_loop
    calculate_signature sk factor ctr d =
        let keys = signature_keys sk factor in sign_loop (u64_to_data ctr) d keys keys 0 []

    keyed : Bytes → Option Bytes → Bytes
    keyed d none = []
    keyed d (some app_secret) =
        if is_empty app_secret then [] else cc.to_base64 (hmac_sha256 d app_secret 0)

    unfoldable pub calculate_application_signature : Bytes → Bytes → Bytes → Bytes → Bytes → Bytes
    unfolding keyed
    calculate_application_signature activation_id_short activation_nonce c_device_public_key
          application_key application_secret =
        keyed
          (activation_id_short
            ++ (amp
                ++ (activation_nonce
                    ++ (amp ++ (c_device_public_key ++ (amp ++ application_key))))))
          (cc.from_base64 application_secret)

    checked_signature : Bytes → Option EcKey → Option Bytes → Bool
    checked_signature signed_data mk none = false
    checked_signature signed_data mk (some signature) =
        if is_empty signature then false else ecdsa_validate_signature signed_data signature mk

    -- An empty signature is accepted: it is optional.
    unfoldable pub validate_short_id_and_otp_signature : Bytes → Bytes → Bytes → Option EcKey → Bool
    unfolding checked_signature
    validate_short_id_and_otp_signature sid otp sig mk =
        if is_empty sig
        then true
        else checked_signature (sid ++ (dash ++ otp)) mk (cc.from_base64 sig)

    unfoldable pub validate_activation_data_signature : Bytes → Bytes → Bytes → Option EcKey → Bool
    validate_activation_data_signature activation_id c_server_public_key_b64 sig mk =
        ecdsa_validate_signature (cc.to_base64 activation_id ++ (amp ++ c_server_public_key_b64))
          sig mk

module _ ⦃cc : Cc7⦄ where
  unfoldable pub normalize_data_for_signature : Bytes → Bytes → Bytes → Bytes → Bytes → Bytes
  normalize_data_for_signature method uri nonce_b64 body app_secret =
      method
      ++ (b'&'
          ∷ (cc.to_base64 uri
              ++ (b'&' ∷ (nonce_b64 ++ (b'&' ∷ (cc.to_base64 body ++ (b'&' ∷ app_secret)))))))

-- `switch (factor & 0x0fff)`; an unknown factor gives the empty string.
unfoldable pub convert_signature_factor_to_string : ℕ → Bytes
convert_signature_factor_to_string factor =
    let f = bit_and factor 0x0FFF in
    if f == sf_possession
    then codes "possession"
    else if f == sf_knowledge
    then codes "knowledge"
    else if f == sf_biometry
    then codes "biometry"
    else if f == sf_possession_biometry
    then codes "possession_biometry"
    else if f == sf_possession_knowledge
    then codes "possession_knowledge"
    else if f == sf_possession_knowledge_biometry
    then codes "possession_knowledge_biometry"
    else []
