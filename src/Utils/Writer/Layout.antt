-- ===== src/Utils/Writer/Layout.antt =====
-- What each operation of the writer appends, in plain arithmetic.
use lime_security_powerauth.Base.{
  ℕ, ◌+◌, ◌*◌, ◌/◌, ◌%◌, ◌^◌, ◌≤◌, ◌<◌, ◌≡◌, refl, bit_and, bit_or, true, [], ◌∷◌, ◌++◌,
  append_assoc, arith, leb, if◌then◌else◌, Bytes, length,
}
use lime_security_powerauth.Base.Bits.{bit_and-ones, bit_or_80, bit_or_c0, bit_or-shift}
use lime_security_powerauth.Platform.{Cc7}
use lime_security_powerauth.Utils.Writer.{
  DataWriter, write_count, write_data, write_string, open_version, write_u32, write_u64,
  current_tag, current_version, max_count,
}

-- A count in one, two or four bytes: the two high bits of the first byte tell which.
unfoldable pub count_bytes : ℕ → Bytes
count_bytes n =
    if leb n 0x7F
    then n ∷ []
    else if leb n 0x3FFF
    then (n / 256 + 0x80) ∷ n % 256 ∷ []
    else (n / 16777216 + 0xC0) ∷ n / 65536 % 256 ∷ n / 256 % 256 ∷ n % 256 ∷ []

abbrev pub append : Bytes → DataWriter → DataWriter
append bs w = record w { buffer = w.buffer ++ bs }

two_byte_head : (n : ℕ) → n ≤ 0x3FFF → bit_or (bit_and (n / 2 ^ 8) 0x3F) 0x80 ≡ n / 256 + 0x80
two_byte_head n h = ground (
  arith,
  bit_and-ones 6 0x3F (n / 256) refl,
  bit_or_80 (bit_and (n / 256) 0x3F) (omega (arith, bit_and-ones 6 0x3F (n / 256) refl)),
)

four_byte_head :
    (n : ℕ) → n ≤ max_count → bit_or (bit_and (n / 2 ^ 24) 0x3F) 0xC0 ≡ n / 16777216 + 0xC0
four_byte_head n h = ground (
  arith,
  bit_and-ones 6 0x3F (n / 16777216) refl,
  bit_or_c0 (bit_and (n / 16777216) 0x3F) (omega (arith, bit_and-ones 6 0x3F (n / 16777216) refl)),
)

low_byte : (n : ℕ) → bit_and n 0xFF ≡ n % 256
low_byte n = bit_and-ones 8 0xFF n refl

pub write_count-append :
    (n : ℕ) (w : DataWriter) → n ≤ max_count → write_count n w ≡ (append (count_bytes n) w, true)
unfolding write_count count_bytes
write_count-append n w h =
    let b = w.buffer in
    ground (
      arith,
      two_byte_head n,
      four_byte_head n,
      low_byte n,
      low_byte (n / 256),
      low_byte (n / 65536),
      append_assoc b (bit_or (bit_and (n / 256) 63) 128 ∷ []) (bit_and n 255 ∷ []),
      append_assoc b (bit_or (bit_and (n / 16777216) 63) 192 ∷ []) (bit_and (n / 65536) 255 ∷ []),
      append_assoc b (bit_or (bit_and (n / 16777216) 63) 192 ∷ bit_and (n / 65536) 255 ∷ [])
          (bit_and (n / 256) 255 ∷ []),
      append_assoc b
          (bit_or (bit_and (n / 16777216) 63) 192
            ∷ bit_and (n / 65536) 255
            ∷ bit_and (n / 256) 255
            ∷ [])
          (bit_and n 255 ∷ []),
    )

-- The size as a count, then the bytes.
unfoldable pub data_bytes : Bytes → Bytes
data_bytes d = count_bytes (length d) ++ d

pub write_data-append :
    (d : Bytes) (w : DataWriter) → length d ≤ max_count → write_data d w ≡ append (data_bytes d) w
unfolding write_data data_bytes
write_data-append d w h = rw (write_count-append (length d) w h, append_assoc)

pub write_string-append :
    (d : Bytes) (w : DataWriter) → length d ≤ max_count → write_string d w ≡ append (data_bytes d) w
unfolding write_string data_bytes
write_string-append d w h = rw (write_count-append (length d) w h, append_assoc)

module _ ⦃cc : Cc7⦄ where
  pub write_u32-append : (v : ℕ) (w : DataWriter) → write_u32 v w ≡ append (cc.to_big_endian 4 v) w
  unfolding write_u32
  write_u32-append v w = refl

  pub write_u64-append : (v : ℕ) (w : DataWriter) → write_u64 v w ≡ append (cc.to_big_endian 8 v) w
  unfolding write_u64
  write_u64-append v w = refl

pub open_version-append :
    (tag v : ℕ) (w : DataWriter)
    → v < 256
    → open_version tag v w ≡ record {
      buffer = w.buffer ++ tag ∷ v ∷ [];
      version_stack = (tag * 256 + v) ∷ w.version_stack;
    }
unfolding open_version
open_version-append tag v w h =
    ground (arith, bit_or-shift 8 tag v, append_assoc w.buffer (tag ∷ []) (v ∷ []))

-- The tag and the version that a byte pair opened are those that the writer then reports.
pub current-open_version :
    (tag v : ℕ) (w : DataWriter)
    → tag < 256
    → v < 256
    → (current_tag (open_version tag v w) ≡ tag) × (current_version (open_version tag v w) ≡ v)
unfolding current_tag current_version
current-open_version tag v w ht hv =
    rw (open_version-append tag v w hv) (omega (arith, low_byte (tag * 256 + v)))
