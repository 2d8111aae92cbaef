-- ===== src/Password.antt =====
-- include/PowerAuth/Password.h and src/PowerAuth/Password.cpp. A password is its UTF-8 bytes and,
-- if it is mutable, the position of each character.
pub mod Utf8
pub mod Characters
pub mod Edits
use lime_security_powerauth.Base.{
  ℕ, zero, suc, ◌+◌, ◌-◌, ◌*◌, ◌/◌, ◌%◌, ◌^◌, bit_and, Bool, true, false, not, List, [], ◌∷◌, ◌++◌,
  Option, none, some, ltb, leb, ◌==◌, if◌then◌else◌, equal, Bytes, length, take, drop, get_elem?,
}

pub record Password : Type 0 where
  pub pass : Bytes
  pub char_pos : Option (List ℕ)

-- `_UTF8Encode`: `none` for a code point out of range.
unfoldable pub utf8_encode : ℕ → Option Bytes
utf8_encode codepoint =
    if ltb codepoint 0x80
    then some (codepoint ∷ [])
    else if ltb codepoint 0x800
    then some ((0xC0 + bit_and codepoint 0x7C0 / 2 ^ 6) ∷ (0x80 + bit_and codepoint 0x03F) ∷ [])
    else if ltb codepoint 0x10000
    then some (
        (0xE0 + bit_and codepoint 0xF000 / 2 ^ 12)
        ∷ (0x80 + bit_and codepoint 0x0FC0 / 2 ^ 6)
        ∷ (0x80 + bit_and codepoint 0x003F)
        ∷ [])
    else if leb codepoint 0x10FFFF
    then some (
        (0xF0 + bit_and codepoint 0x1C0000 / 2 ^ 18)
        ∷ (0x80 + bit_and codepoint 0x03F000 / 2 ^ 12)
        ∷ (0x80 + bit_and codepoint 0x000FC0 / 2 ^ 6)
        ∷ (0x80 + bit_and codepoint 0x00003F)
        ∷ [])
    else none

unfoldable pub init_as_immutable : Bytes → Password
init_as_immutable d = record { pass = d; char_pos = none }

unfoldable pub init_as_mutable : Password
init_as_mutable = record { pass = []; char_pos = some [] }

abbrev pub is_mutable_positions : Option (List ℕ) → Bool
is_mutable_positions none = false
is_mutable_positions (some positions) = true

unfoldable pub is_mutable : Password → Bool
is_mutable p = is_mutable_positions p.char_pos

size_of : Bytes → Option (List ℕ) → ℕ
size_of pass none = length pass
size_of pass (some positions) = length positions

-- The number of bytes, or of characters if the password is mutable.
unfoldable pub password_length : Password → ℕ
unfolding size_of
password_length p = size_of p.pass p.char_pos

pub password_data : Password → Bytes
password_data p = p.pass

unfoldable pub is_equal_to_password : Password → Password → Bool
is_equal_to_password p q = equal p.pass q.pass

unfoldable pub clear : Password → Password × Bool
clear p = if is_mutable p then (init_as_mutable, true) else (p, false)

found_or : Option ℕ → ℕ → ℕ
found_or none size = size
found_or (some pos) size = pos

-- `indexToPos`: the position of a character, or the end of the bytes.
unfoldable pub index_to_pos : Bytes → List ℕ → ℕ → ℕ
unfolding found_or
index_to_pos pass positions index = found_or (get_elem? positions index) (length pass)

-- `updateIndexes(begin, offset)` with `op` to add or take away the offset.
unfoldable pub update_indexes : (ℕ → ℕ) → List ℕ → ℕ → List ℕ
update_indexes op [] begin = []
update_indexes op (x ∷ positions) zero = op x ∷ update_indexes op positions zero
update_indexes op (x ∷ positions) (suc begin) = x ∷ update_indexes op positions begin

insert_encoded : Password → List ℕ → ℕ → Option Bytes → Password × Bool
insert_encoded p positions index none = (p, false)
insert_encoded p positions index (some bytes) =
    let offset = index_to_pos p.pass positions index in
    (
      record {
        pass = take offset p.pass ++ (bytes ++ drop offset p.pass);
        char_pos = some (
            update_indexes (λ x. x + length bytes)
              (take index positions ++ offset ∷ drop index positions) (index + 1));
      },
      true,
    )

insert_at : Password → Option (List ℕ) → ℕ → ℕ → Password × Bool
unfolding insert_encoded
insert_at p none utf_codepoint index = (p, false)
insert_at p (some positions) utf_codepoint index =
    if leb index (length positions)
    then insert_encoded p positions index (utf8_encode utf_codepoint)
    else (p, false)

unfoldable pub insert_character : ℕ → ℕ → Password → Password × Bool
unfolding insert_at
insert_character utf_codepoint index p = insert_at p p.char_pos utf_codepoint index

add_encoded : Password → List ℕ → Option Bytes → Password × Bool
add_encoded p positions none = (p, false)
add_encoded p positions (some bytes) =
    (record { pass = p.pass ++ bytes; char_pos = some (positions ++ length p.pass ∷ []) }, true)

add_to : Password → Option (List ℕ) → ℕ → Password × Bool
unfolding add_encoded
add_to p none utf_codepoint = (p, false)
add_to p (some positions) utf_codepoint = add_encoded p positions (utf8_encode utf_codepoint)

unfoldable pub add_character : ℕ → Password → Password × Bool
unfolding add_to
add_character utf_codepoint p = add_to p p.char_pos utf_codepoint

remove_last_from : Password → Option (List ℕ) → Password × Bool
remove_last_from p none = (p, false)
remove_last_from p (some positions) =
    let offset = index_to_pos p.pass positions (length positions - 1) in
    if ltb 0 (length positions)
    then (
      record { pass = take offset p.pass; char_pos = some (take (length positions - 1) positions) },
      true,
    )
    else (p, false)

unfoldable pub remove_last_character : Password → Password × Bool
unfolding remove_last_from
remove_last_character p = remove_last_from p p.char_pos

remove_from : Password → Option (List ℕ) → ℕ → Password × Bool
remove_from p none index = (p, false)
remove_from p (some positions) index =
    let offset = index_to_pos p.pass positions index in
    let bytes = index_to_pos p.pass positions (index + 1) - offset in
    if ltb index (length positions)
    then (
      record {
        pass = take offset p.pass ++ drop (offset + bytes) p.pass;
        char_pos = some (
            update_indexes (λ x. x - bytes) (take index positions ++ drop (index + 1) positions)
              index);
      },
      true,
    )
    else (p, false)

unfoldable pub remove_character : ℕ → Password → Password × Bool
unfolding remove_from
remove_character index p = remove_from p p.char_pos index
