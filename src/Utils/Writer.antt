-- ===== src/Utils/Writer.antt =====
-- src/PowerAuth/utils/DataWriter.h and DataWriter.cpp. A writer is its buffer and its stack of
-- versions, last opened first. CC7_ASSERT does nothing in a release build.
pub mod Layout
use lime_security_powerauth.Base.{
  ℕ, suc, ◌+◌, ◌*◌, ◌/◌, ◌%◌, ◌^◌, bit_and, bit_or, Bool, true, false, List, [], ◌∷◌, ◌++◌, leb,
  if◌then◌else◌, Bytes, length,
}
use lime_security_powerauth.Platform.{Cc7}

pub record DataWriter : Type 0 where
  pub buffer : Bytes
  pub version_stack : List ℕ

unfoldable pub writer : DataWriter
writer = record { buffer = []; version_stack = [] }

-- `_data->clear()`; the stack of versions stays.
pub reset : DataWriter → DataWriter
reset w = record w { buffer = [] }

unfoldable pub serialized_data : DataWriter → Bytes
serialized_data w = w.buffer

unfoldable pub write_memory : Bytes → DataWriter → DataWriter
write_memory range w = record w { buffer = w.buffer ++ range }

unfoldable pub write_byte : ℕ → DataWriter → DataWriter
write_byte byte w = record w { buffer = w.buffer ++ byte ∷ [] }

abbrev pub max_count : ℕ
max_count = 0x3FFFFFFF

unfoldable pub write_count : ℕ → DataWriter → DataWriter × Bool
unfolding write_byte
write_count n w =
    if leb n 0x7F
    then (write_byte n w, true)
    else if leb n 0x3FFF
    then (write_byte (bit_and n 0xFF) (write_byte (bit_or (bit_and (n / 2 ^ 8) 0x3F) 0x80) w), true)
    else if leb n 0x3FFFFFFF
    then (
      write_byte (bit_and n 0xFF) (
          write_byte (bit_and (n / 2 ^ 8) 0xFF) (
            write_byte (bit_and (n / 2 ^ 16) 0xFF)
              (write_byte (bit_or (bit_and (n / 2 ^ 24) 0x3F) 0xC0) w))),
      true,
    )
    else (w, false)

-- Nothing is written if the size does not fit a count.
unfoldable pub write_data : Bytes → DataWriter → DataWriter
unfolding write_memory
write_data range w =
    let (w', done) = write_count (length range) w in if done then write_memory range w' else w'

unfoldable pub write_string : Bytes → DataWriter → DataWriter
unfolding write_memory
write_string str w =
    let (w', done) = write_count (length str) w in if done then write_memory str w' else w'

module _ ⦃cc : Cc7⦄ where
  unfoldable pub write_u16 : ℕ → DataWriter → DataWriter
  unfolding write_memory
  write_u16 value = write_memory (cc.to_big_endian 2 value)

  unfoldable pub write_u32 : ℕ → DataWriter → DataWriter
  unfolding write_memory
  write_u32 value = write_memory (cc.to_big_endian 4 value)

  unfoldable pub write_u64 : ℕ → DataWriter → DataWriter
  unfolding write_memory
  write_u64 value = write_memory (cc.to_big_endian 8 value)

unfoldable pub open_version : ℕ → ℕ → DataWriter → DataWriter
unfolding write_byte
open_version tag v w =
    let w' = write_byte v (write_byte tag w) in
    record w' { version_stack = bit_or (tag * 2 ^ 8) v ∷ w'.version_stack }

pop_version : Bytes → List ℕ → DataWriter × Bool
pop_version b [] = (record { buffer = b; version_stack = [] }, false)
pop_version b (v ∷ vs) = (record { buffer = b; version_stack = vs }, true)

unfoldable pub close_version : DataWriter → DataWriter × Bool
unfolding pop_version
close_version w = pop_version w.buffer w.version_stack

top_tag : List ℕ → ℕ
top_tag [] = 0
top_tag (v ∷ vs) = v / 2 ^ 8 % 256

top_version : List ℕ → ℕ
top_version [] = 0
top_version (v ∷ vs) = bit_and v 0xFF

unfoldable pub current_tag : DataWriter → ℕ
unfolding top_tag
current_tag w = top_tag w.version_stack

unfoldable pub current_version : DataWriter → ℕ
unfolding top_version
current_version w = top_version w.version_stack
