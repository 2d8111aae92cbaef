-- ===== src/Utils/Url.antt =====
-- src/PowerAuth/utils/URLEncoding.cpp.
pub mod Laws
pub mod Injective
use lime_security_powerauth.Base.{
  ℕ, ◌+◌, ◌-◌, ◌/◌, ◌%◌, bit_and, Bool, true, false, not, ◌&&◌, ◌||◌, [], ◌∷◌, ◌++◌, ltb, leb, ◌==◌,
  if◌then◌else◌, is_empty, Bytes,
}

-- Characters that stand for themselves.
unfoldable pub is_plain : ℕ → Bool
is_plain c =
    (leb b'0' c && leb c b'9')
    || (leb b'A' c && leb c b'Z')
    || (leb b'a' c && leb c b'z')
    || (c == b'-' || c == b'_' || c == b'.' || c == b'*')

-- The loop of `_URLEncodingEstimateResultLength`: the length so far, and whether one is escaped.
estimate_loop : Bytes → ℕ → Bool → ℕ
estimate_loop [] result escape = if not escape then 0 else result
estimate_loop (c ∷ str) result escape =
    estimate_loop str (if is_plain c || c == b' ' then result + 1 else result + 3)
      (if is_plain c then escape else true)

unfoldable pub url_encoding_estimate_result_length : Bytes → ℕ
unfolding estimate_loop
url_encoding_estimate_result_length str = estimate_loop str 0 false

unfoldable pub hexadecimal_char : ℕ → ℕ
hexadecimal_char c = if ltb c 10 then c + b'0' else b'A' - 10 + c

-- What one character adds to the buffer.
unfoldable pub encode_char : ℕ → Bytes
unfolding hexadecimal_char
encode_char c =
    if is_plain c
    then c ∷ []
    else if c == b' '
    then b'+' ∷ []
    else b'%' ∷ hexadecimal_char (bit_and (c / 16) 0xF) ∷ hexadecimal_char (bit_and c 0xF) ∷ []

encode_loop : Bytes → Bytes → Bytes
encode_loop [] buffer = buffer
encode_loop (c ∷ str) buffer = encode_loop str (buffer ++ encode_char c)

unfoldable pub convert_string_to_url_encoded_data : Bytes → Bytes
unfolding encode_loop
convert_string_to_url_encoded_data str =
    if is_empty str
    then []
    else if url_encoding_estimate_result_length str == 0
    then str
    else encode_loop str []
