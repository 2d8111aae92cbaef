-- ===== src/Protocol/Constants.antt =====
-- src/PowerAuth/protocol/Constants.h and Constants.cpp, and the signature factors of
-- include/PowerAuth/PublicTypes.h and protocol/PrivateTypes.h. A factor is a bit mask.
use Prim.Native.Char.{code}
use Prim.Native.String.{String}
use lime_security_powerauth.Base.{
  ℕ, [], ◌∷◌, Bool, true, false, Bytes, replicate, bit_and, ◌==◌, not,
}

-- The bytes of an ASCII text.
abbrev pub codes : String → Bytes
codes String.[] = []
codes (String.◌∷◌ c s) = code c ∷ codes s

unfoldable pub pa_auth_header_name : Bytes
pa_auth_header_name = codes "X-PowerAuth-Authorization"

abbrev pub fragment_activation_id : Bytes
fragment_activation_id = codes "PowerAuth pa_activation_id=\""

abbrev pub fragment_application_key : Bytes
fragment_application_key = codes "\", pa_application_key=\""

abbrev pub fragment_nonce : Bytes
fragment_nonce = codes "\", pa_nonce=\""

abbrev pub fragment_signature_type : Bytes
fragment_signature_type = codes "\", pa_signature_type=\""

abbrev pub fragment_signature : Bytes
fragment_signature = codes "\", pa_signature=\""

abbrev pub fragment_version : Bytes
fragment_version = codes "\", pa_version=\"2.0\""

abbrev pub amp : Bytes
amp = b'&' ∷ []

abbrev pub dash : Bytes
dash = b'-' ∷ []

abbrev pub zero_iv : Bytes
zero_iv = replicate 16 0

abbrev pub pbkdf2_pass_iterations : ℕ
pbkdf2_pass_iterations = 10000

abbrev pub pbkdf2_otp_expand_iterations : ℕ
pbkdf2_otp_expand_iterations = 10000

abbrev pub pbkdf2_salt_size : ℕ
pbkdf2_salt_size = 16

abbrev pub signature_key_size : ℕ
signature_key_size = 16

abbrev pub vault_key_size : ℕ
vault_key_size = 16

abbrev pub minimal_password_length : ℕ
minimal_password_length = 4

abbrev pub shared_secret_key_size : ℕ
shared_secret_key_size = 32

abbrev pub activation_nonce_size : ℕ
activation_nonce_size = 16

abbrev pub hk_device_public_key_size : ℕ
hk_device_public_key_size = 8

abbrev pub status_blob_size : ℕ
status_blob_size = 32

abbrev pub sf_possession : ℕ
sf_possession = 0x0001

abbrev pub sf_knowledge : ℕ
sf_knowledge = 0x0010

abbrev pub sf_biometry : ℕ
sf_biometry = 0x0100

abbrev pub sf_possession_knowledge : ℕ
sf_possession_knowledge = 0x0011

abbrev pub sf_possession_biometry : ℕ
sf_possession_biometry = 0x0101

abbrev pub sf_possession_knowledge_biometry : ℕ
sf_possession_knowledge_biometry = 0x0111

abbrev pub sf_prepare_for_vault_unlock : ℕ
sf_prepare_for_vault_unlock = 0x1000

abbrev pub sf_transport : ℕ
sf_transport = 0x4000

abbrev pub sf_first_lock : ℕ
sf_first_lock = 0x8000

-- `(factor & mask) != 0`
abbrev pub has_factor : ℕ → ℕ → Bool
has_factor factor mask = not (bit_and factor mask == 0)

-- `FullFactorMask`
abbrev pub full_factor_mask : Bool → ℕ
full_factor_mask true = sf_possession_knowledge_biometry
full_factor_mask false = sf_possession_knowledge
