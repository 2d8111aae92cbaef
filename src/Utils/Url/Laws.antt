-- ===== src/Utils/Url/Laws.antt =====
-- The URL encoding is the concatenation of the encoded characters.
use lime_security_powerauth.Base.{
  ℕ, ◌+◌, ◌≡◌, refl, sym, ◌∙◌, Bool, true, false, not, [], ◌∷◌, ◌++◌, append_assoc, append-nil,
  arith, Bytes, length, length-append, ◌==◌, ◌||◌, ◌&&◌, if◌then◌else◌,
}
use lime_security_powerauth.Utils.Url.{
  is_plain, estimate_loop, url_encoding_estimate_result_length, encode_char, encode_loop,
  convert_string_to_url_encoded_data,
}

-- Each character encoded by itself.
unfoldable pub encode_each : Bytes → Bytes
encode_each [] = []
encode_each (c ∷ str) = encode_char c ++ encode_each str

-- Whether no character has to be escaped.
pub all_plain : Bytes → Bool
all_plain [] = true
all_plain (c ∷ str) = if is_plain c then all_plain str else false

encode_loop_lem : (str buffer : Bytes) → encode_loop str buffer ≡ buffer ++ encode_each str
unfolding encode_loop encode_each
encode_loop_lem [] buffer = sym (append-nil buffer)
encode_loop_lem (c ∷ str) buffer =
    encode_loop_lem str (buffer ++ encode_char c)
    ∙ append_assoc buffer (encode_char c) (encode_each str)

encode_each-plain : (str : Bytes) → all_plain str ≡ true → encode_each str ≡ str
unfolding encode_each all_plain encode_char
encode_each-plain [] h = refl
encode_each-plain (c ∷ str) h = ground (arith, encode_each-plain str)

length-encode_char : (c : ℕ) → length (encode_char c) ≡ (if is_plain c || c == b' ' then 1 else 3)
unfolding encode_char
length-encode_char c = ground arith

estimate_loop_lem :
    (str : Bytes) (n : ℕ) (escape : Bool)
    → estimate_loop str n escape
      ≡ (if all_plain str && not escape then 0 else n + length (encode_each str))
unfolding estimate_loop all_plain encode_each
estimate_loop_lem [] n escape = ground arith
estimate_loop_lem (c ∷ str) n escape = ground (
  arith,
  length-encode_char c,
  length-append (encode_char c) (encode_each str),
  estimate_loop_lem str (n + 1) escape,
  estimate_loop_lem str (n + 1) true,
  estimate_loop_lem str (n + 3) true,
)

-- The estimate of the result's length is the length of the encoded string where a character has to
-- be escaped, and 0 where none has.
pub estimate_lem :
    (str : Bytes)
    → url_encoding_estimate_result_length str
      ≡ (if all_plain str then 0 else length (encode_each str))
unfolding url_encoding_estimate_result_length
estimate_lem str = ground (arith, estimate_loop_lem str 0 false)

-- Encoding a string gives the encodings of its characters in their order, on the fast path for
-- strings without a character to escape as on the slow one.
pub convert_lem : (str : Bytes) → convert_string_to_url_encoded_data str ≡ encode_each str
unfolding convert_string_to_url_encoded_data
convert_lem [] = unfold encode_each in refl
convert_lem (c ∷ str) = ground (
  arith,
  estimate_lem (c ∷ str),
  encode_loop_lem (c ∷ str) [],
  encode_each-plain (c ∷ str),
  length-encode_each c str,
)
  where
    length-encode_each : (c : ℕ) (str : Bytes) → (length (encode_each (c ∷ str)) == 0) ≡ false
    length-encode_each c str =
        unfold encode_each in
        ground (arith, length-encode_char c, length-append (encode_char c) (encode_each str))
