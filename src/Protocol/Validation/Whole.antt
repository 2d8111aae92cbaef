-- ===== src/Protocol/Validation/Whole.antt =====
-- What the validation of persistent data asks for, field by field.
use lime_security_powerauth.Base.{
  Option, none, some, ℕ, ◌≡◌, ◌⊎◌, inl, inr, refl, ◌≤◌, ◌<◌, true, length, arith, Bytes, [], ◌∷◌,
}
use lime_security_powerauth.Protocol.Locking.Sizes.{HasKeySizes}
use lime_security_powerauth.Protocol.Types.{PersistentData, SignatureKeys}
use lime_security_powerauth.Protocol.Validation.{validate_persistent_data, validate_signature_keys}

pub record IsWhole (pd : PersistentData) : Type 0 where
  pub key_sizes : HasKeySizes pd.sk
  pub enough_iterations : 10000 ≤ pd.password_iterations
  pub salt_size : length pd.password_salt ≡ 16
  pub id_is_there : 0 < length pd.activation_id
  pub server_key_is_there : 0 < length pd.server_public_key
  pub device_key_is_there : 0 < length pd.device_public_key
  pub private_key_is_there : 0 < length pd.c_device_private_key

pub validate_persistent_data-IsWhole :
    (pd : PersistentData) → IsWhole pd → validate_persistent_data pd ≡ true
unfolding validate_persistent_data validate_signature_keys
validate_persistent_data-IsWhole pd w = ground (arith, w)

biometry_sizes :
    (pd : PersistentData)
    → validate_persistent_data pd ≡ true
    → (b : Bytes) → pd.sk.biometry_key ≡ b
    → (b ≡ []) ⊎ (length b ≡ 16)
unfolding validate_persistent_data validate_signature_keys
biometry_sizes pd h [] e = inl refl
biometry_sizes pd h (x ∷ b) e = inr (ground (arith, h, e))

pub IsWhole-validate_persistent_data :
    (pd : PersistentData) → validate_persistent_data pd ≡ true → IsWhole pd
unfolding validate_persistent_data validate_signature_keys
IsWhole-validate_persistent_data pd h = record {
  key_sizes = record {
    possession_size = ground (arith, h);
    knowledge_size = ground (arith, h);
    biometry_size = biometry_sizes pd h pd.sk.biometry_key refl;
  };
  enough_iterations = ground (arith, h);
  salt_size = ground (arith, h);
  id_is_there = ground (arith, h);
  server_key_is_there = ground (arith, h);
  device_key_is_there = ground (arith, h);
  private_key_is_there = ground (arith, h);
}

-- Data that are whole, if there are some.
abbrev pub IsStored : Option PersistentData → Type 0
IsStored none = Unit {0}
IsStored (some pd) = IsWhole pd

-- Other counters, flags and keys of the right sizes.
pub IsWhole-flags :
    (pd : PersistentData) (counter flags : ℕ) (sk : SignatureKeys)
    → IsWhole pd
    → HasKeySizes sk
    → IsWhole (record pd { signature_counter = counter; flags_u32 = flags; sk = sk })
IsWhole-flags pd counter flags sk w k = record {
  key_sizes = k;
  enough_iterations = w.enough_iterations;
  salt_size = w.salt_size;
  id_is_there = w.id_is_there;
  server_key_is_there = w.server_key_is_there;
  device_key_is_there = w.device_key_is_there;
  private_key_is_there = w.private_key_is_there;
}
