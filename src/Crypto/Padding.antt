-- ===== src/Crypto/Padding.antt =====
-- src/PowerAuth/crypto/PKCS7Padding.cpp. `uint8_t` and `& 0xff` keep the low byte.
pub mod Laws
use lime_security_powerauth.Base.{
  ℕ, suc, ◌+◌, ◌-◌, ◌*◌, ◌%◌, bit_and, Bool, true, false, not, ◌&&◌, ◌||◌, List, [], ◌∷◌, ◌++◌, ltb,
  leb, ◌==◌, if◌then◌else◌, Bytes, length, take, drop, get_or, replicate,
}

additional : ℕ → ℕ → ℕ
additional size padding_size =
    let additional_bytes = padding_size - bit_and size (padding_size - 1) in
    if additional_bytes == 0 then padding_size else additional_bytes

unfoldable pub add : Bytes → ℕ → Bytes
unfolding additional
add inout_data padding_size =
    let additional_bytes = additional (length inout_data) padding_size in
    inout_data ++ replicate additional_bytes (bit_and additional_bytes 0xFF)

unfoldable pub get_padded_data : Bytes → ℕ → Bytes
unfolding add
get_padded_data data_range padding_size = add data_range padding_size

-- The loop over the padding, which leaves out the last byte.
same_bytes : ℕ → Bytes → Bool
same_bytes additional_bytes [] = true
same_bytes additional_bytes (x ∷ []) = true
same_bytes additional_bytes (x ∷ y ∷ rest) =
    x == additional_bytes && same_bytes additional_bytes (y ∷ rest)

-- The number of padding bytes, or 0.
unfoldable pub validate : Bytes → ℕ → ℕ
unfolding same_bytes
validate data_range padding_size =
    let size = length data_range in
    let additional_bytes = get_or data_range (size - 1) 0 in
    if ltb size padding_size
    then 0
    else if not (bit_and size (padding_size - 1) == 0)
    then 0
    else if ltb padding_size additional_bytes || additional_bytes == 0
    then 0
    else if ltb size additional_bytes
    then 0
    else if same_bytes additional_bytes (drop (size - additional_bytes) data_range)
    then additional_bytes
    else 0

-- The data after the call, and the result.
unfoldable pub validate_and_update_data : Bytes → ℕ → Bytes × Bool
validate_and_update_data inout_data padding_size =
    let additional_data = validate inout_data padding_size in
    if additional_data == 0
    then (inout_data, false)
    else (take (length inout_data - additional_data) inout_data, true)
