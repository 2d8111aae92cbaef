-- ===== src/Utils/Url/Injective.antt =====
-- The URL encoding loses nothing, and leaves separators to the strings that it goes into.
use lime_security_powerauth.Base.{
  ℕ, ◌/◌, ◌%◌, ◌<◌, ◌≡◌, ◌≢◌, refl, sym, ap, ◌∙◌, Bool, true, false, [], ◌∷◌, ◌++◌, arith, Bytes,
  All, All-append, ◌==◌, is_empty,
}
use lime_security_powerauth.Base.Bits.{bit_and-ones}
use lime_security_powerauth.Utils.Url.{
  is_plain, hexadecimal_char, encode_char, convert_string_to_url_encoded_data,
}
use lime_security_powerauth.Utils.Url.Laws.{encode_each, convert_lem}

-- How a character is encoded.
data Encoding (c : ℕ) : Bytes → Type 0 where
  plain : is_plain c ≡ true → Encoding c (c ∷ [])
  space : c ≡ b' ' → Encoding c (b'+' ∷ [])
  escaped :
      is_plain c ≡ false
      → Encoding c (b'%' ∷ hexadecimal_char (c / 16 % 16) ∷ hexadecimal_char (c % 16) ∷ [])

Encoding-encode_char : (c : ℕ) → Encoding c (encode_char c)
unfolding encode_char
Encoding-encode_char c = split (is_plain c) refl (c == b' ') refl
  where
    split : (p : Bool) → is_plain c ≡ p → (s : Bool) → (c == b' ') ≡ s → Encoding c (encode_char c)
    split true hp s hs = rw hp (plain hp)
    split false hp true hs = rw (hp, hs) (space (ground (arith, hs)))
    split false hp false hs =
        rw (hp, hs, bit_and-ones 4 0xF (c / 16) refl, bit_and-ones 4 0xF c refl) (escaped hp)

hexadecimal_char_inj : (a b : ℕ) → a < 16 → b < 16 → hexadecimal_char a ≡ hexadecimal_char b → a ≡ b
unfolding hexadecimal_char
hexadecimal_char_inj a b ha hb e = ground arith

-- The first characters, and what is behind them.
cons_inj : {a b : ℕ} {xs ys : Bytes} → a ∷ xs ≡ b ∷ ys → (a ≡ b) × (xs ≡ ys)
cons_inj e = (ground (arith, e), ground (arith, e))

plain-ne : (c d : ℕ) → is_plain c ≡ true → is_plain d ≡ false → c ≢ d
plain-ne c d h k e = absurd (ground (arith, ap is_plain e))

Encoding-append_inj :
    (c d : ℕ) (bs cs rest rest' : Bytes)
    → c < 256
    → d < 256
    → Encoding c bs
    → Encoding d cs
    → bs ++ rest ≡ cs ++ rest'
    → (c ≡ d) × (rest ≡ rest')
unfolding is_plain
Encoding-append_inj c d bs cs rest rest' hc hd (plain p) (plain q) e = cons_inj e
Encoding-append_inj c d bs cs rest rest' hc hd (plain p) (space q) e =
    absurd (plain-ne c b'+' p refl (cons_inj e).0)
Encoding-append_inj c d bs cs rest rest' hc hd (plain p) (escaped q) e =
    absurd (plain-ne c b'%' p refl (cons_inj e).0)
Encoding-append_inj c d bs cs rest rest' hc hd (space p) (plain q) e =
    absurd (plain-ne d b'+' q refl (sym (cons_inj e).0))
Encoding-append_inj c d bs cs rest rest' hc hd (space p) (space q) e = (p ∙ sym q, (cons_inj e).1)
Encoding-append_inj c d bs cs rest rest' hc hd (space p) (escaped q) e = absurd (ground (arith, e))
Encoding-append_inj c d bs cs rest rest' hc hd (escaped p) (plain q) e =
    absurd (plain-ne d b'%' q refl (sym (cons_inj e).0))
Encoding-append_inj c d bs cs rest rest' hc hd (escaped p) (space q) e = absurd (ground (arith, e))
Encoding-append_inj c d bs cs rest rest' hc hd (escaped p) (escaped q) e =
    let (high, tail) = cons_inj (cons_inj e).1 in
    let (low, same) = cons_inj tail in
    let h = hexadecimal_char_inj (c / 16 % 16) (d / 16 % 16) (omega arith) (omega arith) high in
    let l = hexadecimal_char_inj (c % 16) (d % 16) (omega arith) (omega arith) low in
    (omega (arith, h, l, hc, hd), same)

encode_char-is_empty : (c : ℕ) (r : Bytes) → is_empty (encode_char c ++ r) ≡ false
encode_char-is_empty c r = nonempty (Encoding-encode_char c)
  where
    nonempty : {bs : Bytes} → Encoding c bs → is_empty (bs ++ r) ≡ false
    nonempty (plain p) = refl
    nonempty (space p) = refl
    nonempty (escaped p) = refl

-- The bytes of a string.
abbrev pub IsBytes : Bytes → Type 0
IsBytes = All (λ c. c < 256)

encode_each_inj : (s t : Bytes) → IsBytes s → IsBytes t → encode_each s ≡ encode_each t → s ≡ t
unfolding encode_each
encode_each_inj [] [] hs ht e = refl
encode_each_inj [] (d ∷ t) hs ht e =
    absurd (ground (arith, ap is_empty e, encode_char-is_empty d (encode_each t)))
encode_each_inj (c ∷ s) [] hs ht e =
    absurd (ground (arith, ap is_empty e, encode_char-is_empty c (encode_each s)))
encode_each_inj (c ∷ s) (d ∷ t) hs ht e =
    let (p, q) =
      Encoding-append_inj c d (encode_char c) (encode_char d) (encode_each s) (encode_each t) hs.0
        ht.0 (Encoding-encode_char c) (Encoding-encode_char d) e in
    ap (λ x. x ∷ s) p ∙ ap (λ x. d ∷ x) (encode_each_inj s t hs.1 ht.1 q)

-- A URL encoded string determines the bytes that it was made from.
pub convert_inj :
    (s t : Bytes)
    → IsBytes s
    → IsBytes t
    → convert_string_to_url_encoded_data s ≡ convert_string_to_url_encoded_data t
    → s ≡ t
convert_inj s t hs ht e = encode_each_inj s t hs ht (sym (convert_lem s) ∙ e ∙ convert_lem t)

-- A character that no encoding contains.
pub record IsSeparator (sep : ℕ) : Type 0 where
  pub not_plain : is_plain sep ≡ false
  pub not_space : b'+' ≢ sep
  pub not_percent : b'%' ≢ sep

abbrev pub Avoids : ℕ → Bytes → Type 0
Avoids sep = All (λ c. c ≢ sep)

hexadecimal_char-is_plain : (x : ℕ) → x < 16 → is_plain (hexadecimal_char x) ≡ true
unfolding is_plain hexadecimal_char
hexadecimal_char-is_plain x h = ground arith

module _ (sep : ℕ) (h : IsSeparator sep) where
  hexadecimal_char-ne : (x : ℕ) → x < 16 → hexadecimal_char x ≢ sep
  hexadecimal_char-ne x hx =
      plain-ne (hexadecimal_char x) sep (hexadecimal_char-is_plain x hx) h.not_plain

  Avoids-Encoding : (c : ℕ) {bs : Bytes} → Encoding c bs → Avoids sep bs
  Avoids-Encoding c (plain p) = (plain-ne c sep p h.not_plain, tt)
  Avoids-Encoding c (space p) = (h.not_space, tt)
  Avoids-Encoding c (escaped p) = (
    h.not_percent,
    (
      hexadecimal_char-ne (c / 16 % 16) (omega arith),
      (hexadecimal_char-ne (c % 16) (omega arith), tt),
    ),
  )

  Avoids-encode_each : (s : Bytes) → Avoids sep (encode_each s)
  unfolding encode_each
  Avoids-encode_each [] = tt
  Avoids-encode_each (c ∷ s) =
      All-append (λ d. d ≢ sep) (encode_char c) (encode_each s)
        (Avoids-Encoding c (Encoding-encode_char c)) (Avoids-encode_each s)

  pub Avoids-convert : (s : Bytes) → Avoids sep (convert_string_to_url_encoded_data s)
  Avoids-convert s = rw (convert_lem s) (Avoids-encode_each s)
