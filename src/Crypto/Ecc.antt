-- ===== src/Crypto/Ecc.antt =====
-- src/PowerAuth/crypto/ECC.cpp: keys on the curve prime256v1. A null key is `none`.
use lime_security_powerauth.Base.{
  ℕ, ◌+◌, ◌/◌, Bool, false, [], Option, none, some, ◌==◌, is_empty, if◌then◌else◌, Bytes, length,
}
use lime_security_powerauth.Platform.{Cc7, OpenSsl, EcKey}
use lime_security_powerauth.Crypto.Digest.{sha256}

abbrev or_new : Option EcKey → Option EcKey → Option EcKey
or_new new_key none = new_key
or_new new_key (some key) = some key

abbrev bind_key {ℓ} : {A : Type ℓ} → Option EcKey → (EcKey → Option A) → Option A
bind_key none f = none
bind_key (some key) f = f key

module _ ⦃ssl : OpenSsl⦄ where
  unfoldable pub import_public_key : Option EcKey → Bytes → Option EcKey
  import_public_key key public_key =
      bind_key (or_new ssl.new_key key) (λ k. ssl.set_public k public_key)

  unfoldable pub import_private_key : Option EcKey → Bytes → Option EcKey
  import_private_key key private_key_data =
      bind_key (or_new ssl.new_key key) (λ k. ssl.set_private k private_key_data)

  -- `generated` is the key that `EC_KEY_generate_key` leaves, `none` if it fails.
  unfoldable pub generate_key_pair : Option EcKey → Option EcKey
  generate_key_pair generated = bind_key ssl.new_key (λ key. generated)

  unfoldable pub export_public_key : Option EcKey → Bytes
  export_public_key none = []
  export_public_key (some key) =
      if ssl.public_size key == 0
      then []
      else if ssl.public_size key == length (ssl.public_octets key)
      then ssl.public_octets key
      else []

  -- The source does not test for a null key: the sessions that call this hold one (Session/Invariant).
  unfoldable pub export_private_key : Option EcKey → Bytes
  export_private_key none = []
  export_private_key (some key) = ssl.private_octets key

  unfoldable pub ecdsa_validate_signature : Bytes → Bytes → Option EcKey → Bool
  ecdsa_validate_signature signed_data signature none = false
  ecdsa_validate_signature signed_data signature (some public_key) =
      let signed_data_hash = sha256 signed_data in
      if is_empty signed_data_hash
      then false
      else ssl.ecdsa_verify signed_data_hash signature public_key

  -- The signature, `none` for false.
  unfoldable pub ecdsa_compute_signature : Bytes → Option EcKey → Option Bytes
  ecdsa_compute_signature d none = none
  ecdsa_compute_signature d (some private_key) =
      let data_hash = sha256 d in
      if is_empty data_hash
      then none
      else if ssl.ecdsa_size private_key == 0
      then none
      else ssl.ecdsa_sign data_hash private_key

  of_size : ℕ → Option Bytes → Bytes
  of_size expected_size none = []
  of_size expected_size (some secret) = if length secret == expected_size then secret else []

  unfoldable pub ecdh_shared_secret : Option EcKey → Option EcKey → Bytes
  unfolding of_size
  ecdh_shared_secret none pri_key = []
  ecdh_shared_secret (some pub_key) none = []
  ecdh_shared_secret (some pub_key) (some pri_key) =
      of_size ((ssl.group_degree pri_key + 7) / 8) (ssl.ecdh pub_key pri_key)

  module _ ⦃cc : Cc7⦄ where
    from_octets : Option EcKey → Option Bytes → Option EcKey
    unfolding import_public_key
    from_octets key none = none
    from_octets key (some key_data) =
        if is_empty key_data then none else import_public_key key key_data

    unfoldable pub import_public_key_from_b64 : Option EcKey → Bytes → Option EcKey
    unfolding from_octets
    import_public_key_from_b64 key public_key = from_octets key (cc.from_base64 public_key)

    unfoldable pub export_public_key_to_b64 : Option EcKey → Bytes
    export_public_key_to_b64 key = cc.to_base64 (export_public_key key)
