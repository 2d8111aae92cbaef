-- ===== src/Protocol/Signature/Decimal.antt =====
-- The decimal string of a signature: eight digits and their value.
use lime_security_powerauth.Base.{
  ℕ, zero, suc, ◌+◌, ◌-◌, ◌*◌, ◌/◌, ◌%◌, ◌^◌, ◌≤◌, ◌<◌, ◌≡◌, refl, ap, ◌∙◌, [], ◌∷◌, ◌++◌, arith,
  Bytes, length, length-append, take, replicate, get_or, bit_and, bit_or,
}
use native.Mathlib.Nat.{suc-add}
use lime_security_powerauth.Base.Bits.{bit_or-shift, bit_and-ones}
use lime_security_powerauth.Protocol.Signature.{
  to_string, val_to_norm_string, calculate_decimalized_signature,
}

-- The number that decimal digits stand for, behind those read so far.
unfoldable pub digits_value : Bytes → ℕ → ℕ
digits_value [] n = n
digits_value (c ∷ cs) n = digits_value cs (n * 10 + (c - b'0'))

digits_value-append :
    (xs ys : Bytes) (n : ℕ) → digits_value (xs ++ ys) n ≡ digits_value ys (digits_value xs n)
unfolding digits_value
digits_value-append [] ys n = refl
digits_value-append (x ∷ xs) ys n = digits_value-append xs ys (n * 10 + (x - b'0'))

to_string-value : (fuel n : ℕ) → n < 10 ^ suc fuel → digits_value (to_string fuel n) 0 ≡ n
unfolding to_string digits_value
to_string-value zero n h = omega arith
to_string-value (suc fuel) n h = ground (
  arith,
  to_string-value fuel (n / 10),
  digits_value-append (to_string fuel (n / 10)) ((n % 10 + b'0') ∷ []) 0,
)

-- With `d` digits of room the string has at least one digit and at most `d`.
length-to_string :
    (fuel d n : ℕ)
    → n < 10 ^ suc d
    → (0 < length (to_string fuel n)) × (length (to_string fuel n) ≤ suc d)
unfolding to_string
length-to_string zero d n h = (omega arith, omega arith)
length-to_string (suc fuel) zero n h = ground (arith, h)
length-to_string (suc fuel) (suc d) n h = ground (
  arith,
  length-to_string fuel d (n / 10),
  length-append (to_string fuel (n / 10)) ((n % 10 + b'0') ∷ []),
)

zeros-value : (k m : ℕ) → digits_value (take k (replicate m b'0')) 0 ≡ 0
unfolding digits_value
zeros-value zero m = refl
zeros-value (suc k) zero = refl
zeros-value (suc k) (suc m) = zeros-value k m

length-zeros : (k m : ℕ) → k ≤ m → length (take {A = ℕ} k (replicate m b'0')) ≡ k
length-zeros zero m h = refl
length-zeros (suc k) zero h = omega (arith, h)
length-zeros (suc k) (suc m) h = ap suc (length-zeros k m (omega (arith, h)))

-- A number below 10 ^ 8 becomes eight digits, whose value it is.
pub val_to_norm_string_lem :
    (val : ℕ)
    → val < 10 ^ 8
    → (length (val_to_norm_string val) ≡ 8) × (digits_value (val_to_norm_string val) 0 ≡ val)
unfolding val_to_norm_string
val_to_norm_string_lem val h =
    let t = to_string 9 val in
    ground (
      arith,
      to_string-value 9 val,
      length-to_string 9 7 val,
      zeros-value (8 - length t) 8,
      length-zeros (8 - length t) 8,
      length-append (take (8 - length t) (replicate 8 b'0')) t,
      digits_value-append (take (8 - length t) (replicate 8 b'0')) t 0,
    )

get_or-append :
    (front rest : Bytes) (i : ℕ) → get_or (front ++ rest) (length front + i) 0 ≡ get_or rest i 0
get_or-append [] rest i = ap (λ (n : ℕ). get_or rest n 0) (omega arith)
get_or-append (x ∷ front) rest i = rw suc-add (get_or-append front rest i)

-- The dynamic binary code, with the bytes put together by `|` and `<<`.
code_of_bytes :
    (a b c d : ℕ)
    → b < 256
    → c < 256
    → d < 256
    → bit_or (bit_or (bit_or (bit_and a 0x7F * 2 ^ 24) (b * 2 ^ 16)) (c * 2 ^ 8)) d
      ≡ a % 128 * 2 ^ 24 + b * 2 ^ 16 + c * 2 ^ 8 + d
code_of_bytes a b c d hb hc hd =
    let x = bit_and a 0x7F in
    let first = bit_or-shift 24 x (b * 2 ^ 16) (omega (arith, hb)) in
    let second = bit_or-shift 16 (x * 2 ^ 8 + b) (c * 2 ^ 8) (omega (arith, hc)) in
    let third = bit_or-shift 8 (x * 2 ^ 16 + b * 2 ^ 8 + c) d (omega (arith, hd)) in
    ap (λ y. bit_or (bit_or y (c * 2 ^ 8)) d) (first ∙ omega arith)
    ∙ ap (λ y. bit_or y d) (second ∙ omega arith)
    ∙ third
    ∙ ap (λ y. (y * 2 ^ 16 + b * 2 ^ 8 + c) * 2 ^ 8 + d) (bit_and-ones 7 127 a refl)
    ∙ omega arith

-- The decimal form of a signature that ends in the bytes a, b, c and d has eight digits, and their
-- value is that of the number of these four bytes, without its highest bit, modulo 10 ^ 8.
pub calculate_decimalized_signature_lem :
    (front : Bytes) (a b c d : ℕ)
    → a < 256
    → b < 256
    → c < 256
    → d < 256
    → let s = calculate_decimalized_signature (front ++ a ∷ b ∷ c ∷ d ∷ []) in
      (length s ≡ 8) × (digits_value s 0 ≡ (a % 128 * 2 ^ 24 + b * 2 ^ 16 + c * 2 ^ 8 + d) % 10 ^ 8)
unfolding calculate_decimalized_signature
calculate_decimalized_signature_lem front a b c d ha hb hc hd =
    let s = front ++ a ∷ b ∷ c ∷ d ∷ [] in
    let get = get_or-append front (a ∷ b ∷ c ∷ d ∷ []) in
    let code = a % 128 * 2 ^ 24 + b * 2 ^ 16 + c * 2 ^ 8 + d in
    ground (
      arith,
      length-append front (a ∷ b ∷ c ∷ d ∷ []),
      get 0,
      get 1,
      get 2,
      get 3,
      code_of_bytes a b c d hb hc hd,
      val_to_norm_string_lem (code % 10 ^ 8),
    )
