-- ===== src/Utils/Reader.antt =====
-- src/PowerAuth/utils/DataReader.h and DataReader.cpp. A reader is its bytes, its offset and its
-- stack of versions, last opened first. A read returns `none` for false, and the reader that the
-- call leaves, which may have moved on before the failure. `_data_copy` only owns the bytes.
pub mod Moves
pub mod Parses
use lime_security_powerauth.Base.{
  ℕ, suc, ◌+◌, ◌-◌, ◌*◌, ◌/◌, ◌%◌, ◌^◌, bit_and, bit_or, Bool, true, false, not, ◌&&◌, ◌||◌, List,
  [], ◌∷◌, Option, none, some, ltb, leb, ◌==◌, if◌then◌else◌, Bytes, length, take, drop, get_elem?,
  get_or,
}
use lime_security_powerauth.Platform.{Cc7}

pub record DataReader : Type 0 where
  pub bytes : Bytes
  pub offset : ℕ
  pub version_stack : List ℕ

unfoldable pub reader : Bytes → DataReader
reader d = record { bytes = d; offset = 0; version_stack = [] }

pub reset : DataReader → DataReader
reset r = record r { offset = 0 }

-- The stack of versions stays.
pub reset_with_new_byte_range : Bytes → DataReader → DataReader
reset_with_new_byte_range d r = record r { bytes = d; offset = 0 }

-- `resetWithNewByteArray` does the same to a copy that the reader owns.
pub reset_with_new_byte_array : Bytes → DataReader → DataReader
reset_with_new_byte_array d r = record r { bytes = d; offset = 0 }

pub current_offset : DataReader → ℕ
current_offset r = r.offset

abbrev pub Read {ℓ} : Type ℓ → Type ℓ
Read A = DataReader → Option A × DataReader

module _ {ℓ} {A : Type ℓ} where
  unfoldable pub pure : A → Read A
  pure a r = (some a, r)

  unfoldable pub fail : Read A
  fail r = (none, r)

module _ {ℓ κ} {A : Type ℓ} {B : Type κ} where
  abbrev pub continue : Option A → (A → Read B) → Read B
  continue none f r = (none, r)
  continue (some a) f r = f a r

  infixl 10 ◌>>=◌
  abbrev pub ◌>>=◌ : Read A → (A → Read B) → Read B
  ◌>>=◌ m f r = let (o, r') = m r in continue o f r'

infixl 10 ◌>>◌
abbrev pub ◌>>◌ {ℓ} : {B : Type ℓ} → Read (Unit {0}) → Read B → Read B
m >> k = m >>= λ _. k

-- The offset never passes the size (Moves), so the unsigned difference does not wrap.
unfoldable pub remaining_size : DataReader → ℕ
remaining_size r = length r.bytes - r.offset

unfoldable pub can_read_size : DataReader → ℕ → Bool
unfolding remaining_size
can_read_size r size = leb size (remaining_size r)

-- `subRange(_offset, size)`, `_offset += size`
advance : ℕ → Read Bytes
advance size r = (some (take size (drop r.offset r.bytes)), record r { offset = r.offset + size })

unfoldable pub skip_bytes : ℕ → Read (Unit {0})
unfolding can_read_size
skip_bytes size r =
    if can_read_size r size then (some tt, record r { offset = r.offset + size }) else (none, r)

-- `readMemory`, `readMemoryRange` and the private `readRawMemory`.
unfoldable pub read_memory : ℕ → Read Bytes
unfolding can_read_size advance
read_memory size r = if can_read_size r size then advance size r else (none, r)

unfoldable pub read_byte : Read ℕ
unfolding can_read_size
read_byte r =
    if can_read_size r 1
    then (get_elem? r.bytes r.offset, record r { offset = r.offset + 1 })
    else (none, r)

two_byte_count : ℕ → Bytes → ℕ
two_byte_count tmp0 tmp = bit_or (bit_and tmp0 0x3F * 2 ^ 8) (get_or tmp 0 0)

four_byte_count : ℕ → Bytes → ℕ
four_byte_count tmp0 tmp =
    bit_or
      (bit_or (bit_or (bit_and tmp0 0x3F * 2 ^ 24) (get_or tmp 0 0 * 2 ^ 16))
        (get_or tmp 1 0 * 2 ^ 8))
      (get_or tmp 2 0)

long_count : ℕ → Read ℕ
unfolding two_byte_count four_byte_count pure
long_count tmp0 = do
  let four = bit_and tmp0 0xC0 == 0xC0
  tmp ← read_memory (if four then 3 else 1)
  pure (if four then four_byte_count tmp0 tmp else two_byte_count tmp0 tmp)

-- `readCount` once the first byte is read.
count_from : ℕ → Read ℕ
unfolding long_count pure
count_from tmp0 =
    let marker = bit_and tmp0 0xC0 in
    if marker == 0x00 || marker == 0x40 then pure tmp0 else long_count tmp0

unfoldable pub read_count : Read ℕ
unfolding count_from
read_count = do tmp0 ← read_byte; count_from tmp0

sized : ℕ → ℕ → Read Bytes
unfolding can_read_size advance
sized expected_size size r =
    if not (can_read_size r size)
    then (none, r)
    else if ltb 0 expected_size && not (expected_size == size)
    then (none, r)
    else advance size r

-- An expected size of 0 takes any size.
unfoldable pub read_data : ℕ → Read Bytes
unfolding sized
read_data expected_size = do size ← read_count; sized expected_size size

-- The ranges are parts of the reader's bytes.
unfoldable pub read_range : ℕ → Read Bytes
unfolding sized
read_range expected_size = do size ← read_count; sized expected_size size

unfoldable pub read_memory_range : ℕ → Read Bytes
unfolding can_read_size advance
read_memory_range size r = if can_read_size r size then advance size r else (none, r)

unfoldable pub read_string : Read Bytes
read_string = do size ← read_count; read_memory size

module _ ⦃cc : Cc7⦄ where
  unfoldable pub read_u16 : Read ℕ
  unfolding pure
  read_u16 = do tmp ← read_memory 2; pure (cc.from_big_endian tmp)

  unfoldable pub read_u32 : Read ℕ
  unfolding pure
  read_u32 = do tmp ← read_memory 4; pure (cc.from_big_endian tmp)

  unfoldable pub read_u64 : Read ℕ
  unfolding pure
  read_u64 = do tmp ← read_memory 8; pure (cc.from_big_endian tmp)

push_version : ℕ → Read (Unit {0})
push_version v r = (some tt, record r { version_stack = v ∷ r.version_stack })

unfoldable pub open_version : ℕ → ℕ → Read (Unit {0})
unfolding push_version fail
open_version expected_tag min_supported_version = do
  tag ← read_byte
  version ← read_byte
  if (tag == expected_tag) && leb min_supported_version version
      then push_version (bit_or (tag * 2 ^ 8) version)
      else fail

pop_version : List ℕ → Read (Unit {0})
pop_version [] r = (none, r)
pop_version (v ∷ vs) r = (some tt, record r { version_stack = vs })

unfoldable pub close_version : Read (Unit {0})
unfolding pop_version
close_version r = pop_version r.version_stack r

top_tag : List ℕ → ℕ
top_tag [] = 0
top_tag (v ∷ vs) = v / 2 ^ 8 % 256

top_version : List ℕ → ℕ
top_version [] = 0
top_version (v ∷ vs) = bit_and v 0xFF

unfoldable pub current_tag : DataReader → ℕ
unfolding top_tag
current_tag r = top_tag r.version_stack

unfoldable pub current_version : DataReader → ℕ
unfolding top_version
current_version r = top_version r.version_stack
