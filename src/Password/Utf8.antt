-- ===== src/Password/Utf8.antt =====
-- The UTF-8 encoding of code points and a decoder for it.
use lime_security_powerauth.Base.{
  ℕ, ◌+◌, ◌-◌, ◌*◌, ◌/◌, ◌%◌, ◌≤◌, ◌≡◌, refl, sym, ap, ◌∙◌, false, [], ◌∷◌, ◌++◌, Option, none,
  some, arith, Bytes, ltb, leb, if◌then◌else◌, is_empty,
}
use lime_security_powerauth.Base.Bits.{bit_and-ones, bit_and-field}
use lime_security_powerauth.Password.{utf8_encode}

-- A continuation byte that holds six bits.
abbrev tail : ℕ → ℕ
tail x = 0x80 + x % 64

-- The encoding by its arithmetic.
unfoldable pub encoded : ℕ → Bytes
encoded codepoint =
    if ltb codepoint 0x80
    then codepoint ∷ []
    else if ltb codepoint 0x800
    then (0xC0 + codepoint / 64) ∷ tail codepoint ∷ []
    else if ltb codepoint 0x10000
    then (0xE0 + codepoint / 4096) ∷ tail (codepoint / 64) ∷ tail codepoint ∷ []
    else (0xF0 + codepoint / 262144)
      ∷ tail (codepoint / 4096)
      ∷ tail (codepoint / 64)
      ∷ tail codepoint
      ∷ []

-- Every code point up to 0x10FFFF is encoded, and no other.
pub utf8_encode_lem :
    (codepoint : ℕ)
    → utf8_encode codepoint ≡ (if leb codepoint 0x10FFFF then some (encoded codepoint) else none)
unfolding utf8_encode encoded
utf8_encode_lem c = ground (
  arith,
  bit_and-field 5 6 0x1F c refl,
  bit_and-ones 6 0x3F c refl,
  bit_and-field 4 12 0xF c refl,
  bit_and-field 6 6 0x3F c refl,
  bit_and-field 3 18 0x7 c refl,
  bit_and-field 6 12 0x3F c refl,
)

-- Reads one character: its code point and the bytes behind it.
decode_character : Bytes → Option (ℕ × Bytes)
decode_character [] = none
decode_character (a ∷ rest) =
    if ltb a 0x80
    then some (a, rest)
    else if ltb a 0xE0
    then two a rest
    else if ltb a 0xF0
    then three a rest
    else four a rest
  where
    two : ℕ → Bytes → Option (ℕ × Bytes)
    two a (b ∷ rest) = some ((a - 0xC0) * 64 + (b - 0x80), rest)
    two a _ = none

    three : ℕ → Bytes → Option (ℕ × Bytes)
    three a (b ∷ c ∷ rest) = some (((a - 0xE0) * 64 + (b - 0x80)) * 64 + (c - 0x80), rest)
    three a _ = none

    four : ℕ → Bytes → Option (ℕ × Bytes)
    four a (b ∷ c ∷ d ∷ rest) =
        some ((((a - 0xF0) * 64 + (b - 0x80)) * 64 + (c - 0x80)) * 64 + (d - 0x80), rest)
    four a _ = none

decode_character-encoded :
    (codepoint : ℕ) (rest : Bytes)
    → codepoint ≤ 0x10FFFF
    → decode_character (encoded codepoint ++ rest) ≡ some (codepoint, rest)
unfolding decode_character encoded
decode_character-encoded c rest h = ground arith

-- The character that an encoded code point begins with can be told apart from what follows.
pub encoded-append-inj :
    (c c' : ℕ) (rest rest' : Bytes)
    → c ≤ 0x10FFFF
    → c' ≤ 0x10FFFF
    → encoded c ++ rest ≡ encoded c' ++ rest'
    → (c ≡ c') × (rest ≡ rest')
encoded-append-inj c c' rest rest' h h' e = same (
    sym (decode_character-encoded c rest h)
    ∙ ap decode_character e
    ∙ decode_character-encoded c' rest' h')
  where
    same : {p q : ℕ × Bytes} → some p ≡ some q → (p.0 ≡ q.0) × (p.1 ≡ q.1)
    same e = (ground (arith, e), ground (arith, e))

pub encoded-is_empty : (c : ℕ) (rest : Bytes) → is_empty (encoded c ++ rest) ≡ false
unfolding encoded
encoded-is_empty c rest = ground arith
