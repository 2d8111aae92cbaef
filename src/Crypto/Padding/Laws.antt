-- ===== src/Crypto/Padding/Laws.antt =====
-- Padding to blocks of 16 bytes, the only size in use (AES_BLOCK_SIZE), and taking it off again.
use lime_security_powerauth.Base.{
  ℕ, zero, suc, ◌+◌, ◌-◌, ◌%◌, ◌≤◌, ◌<◌, ◌≡◌, refl, sym, ap, ◌∙◌, bit_and, true, [], ◌∷◌, ◌++◌,
  arith, Bytes, length, length-append, length-replicate, length-drop, length-take, take,
  take-append, take-append-drop, drop, drop-append, get_or, replicate,
}
use native.Mathlib.Nat.{suc-add}
use lime_security_powerauth.Base.Bits.{bit_and-ones}
use lime_security_powerauth.Crypto.Padding.{
  additional, add, get_padded_data, same_bytes, validate, validate_and_update_data,
}

low_nibble : (n : ℕ) → bit_and n 15 ≡ n % 16
low_nibble n = bit_and-ones 4 15 n refl

additional-eq : (n : ℕ) → additional n 16 ≡ 16 - n % 16
unfolding additional
additional-eq n = ground (arith, low_nibble n)

abbrev padding : ℕ → Bytes
padding n = replicate (16 - n % 16) (16 - n % 16)

add-eq : (d : Bytes) → add d 16 ≡ d ++ padding (length d)
unfolding add
add-eq d = rw (additional-eq (length d), bit_and-ones 8 0xFF (16 - length d % 16) refl, small) refl
  where
    small : (16 - length d % 16) % 256 ≡ 16 - length d % 16
    small = omega arith

-- Padded data fill whole blocks, by 1 to 16 bytes.
pub length-get_padded_data :
    (d : Bytes)
    → (length (get_padded_data d 16) % 16 ≡ 0)
      × (length d < length (get_padded_data d 16))
      × (length (get_padded_data d 16) ≤ length d + 16)
unfolding get_padded_data
length-get_padded_data d = rw (add-eq d) (
    omega (
      arith,
      length-append d (padding (length d)),
      length-replicate (16 - length d % 16) (16 - length d % 16),
    ))

get_or-append : (d ys : Bytes) (i : ℕ) → get_or (d ++ ys) (length d + i) 0 ≡ get_or ys i 0
get_or-append [] ys i = ap (λ (k : ℕ). get_or ys k 0) (omega arith)
get_or-append (x ∷ d) ys i = rw suc-add (get_or-append d ys i)

get_or-replicate : (n v : ℕ) → get_or (replicate (suc n) v) n 0 ≡ v
get_or-replicate zero v = refl
get_or-replicate (suc n) v = get_or-replicate n v

same_bytes-replicate : (n v : ℕ) → same_bytes v (replicate n v) ≡ true
unfolding same_bytes
same_bytes-replicate zero v = refl
same_bytes-replicate (suc zero) v = refl
same_bytes-replicate (suc (suc n)) v = ground (arith, same_bytes-replicate (suc n) v)

module _ (d : Bytes) (n : ℕ) (block : (length d + suc n) % 16 ≡ 0) (small : suc n ≤ 16) where
  padded : Bytes
  padded = d ++ replicate (suc n) (suc n)

  length-padded : length padded ≡ length d + suc n
  unfolding padded
  length-padded =
      omega (arith, length-append d (replicate (suc n) (suc n)), length-replicate n (suc n))

  last-padded : get_or padded (length d + suc n - 1) 0 ≡ suc n
  unfolding padded
  last-padded =
      ap (λ (k : ℕ). get_or padded k 0) (omega arith)
      ∙ get_or-append d (replicate (suc n) (suc n)) n
      ∙ get_or-replicate n (suc n)

  front : length d + suc n - suc n ≡ length d
  front = omega arith

  tail-padded : same_bytes (suc n) (drop (length d + suc n - suc n) padded) ≡ true
  unfolding padded
  tail-padded =
      rw (front, drop-append d (replicate (suc n) (suc n))) (same_bytes-replicate (suc n) (suc n))

  validate-padded : validate padded 16 ≡ suc n
  unfolding validate
  validate-padded =
      rw (length-padded, last-padded, tail-padded) (ground (arith, low_nibble (length d + suc n)))

  take-padded : take (length d) padded ≡ d
  unfolding padded
  take-padded = take-append d (replicate (suc n) (suc n))

  update-padded : validate_and_update_data padded 16 ≡ (d, true)
  unfolding validate_and_update_data
  update-padded = rw (validate-padded, length-padded, front) (ground (arith, take-padded))

-- Removing the padding gives back the data that were padded.
pub validate_and_update_data-get_padded_data :
    (d : Bytes) → validate_and_update_data (get_padded_data d 16) 16 ≡ (d, true)
unfolding get_padded_data
validate_and_update_data-get_padded_data d =
    let n = 15 - length d % 16 in
    let e : 16 - length d % 16 ≡ suc n = omega arith in
    rw (add-eq d, e) (unfold padded in update-padded d n (omega arith) (omega arith))

same_bytes_sound :
    (v : ℕ) (x : ℕ) (xs : Bytes)
    → same_bytes v (x ∷ xs) ≡ true
    → get_or (x ∷ xs) (length xs) 0 ≡ v
    → x ∷ xs ≡ replicate (length (x ∷ xs)) v
unfolding same_bytes
same_bytes_sound v x [] h e = ground arith
same_bytes_sound v x (y ∷ xs) h e = ground (arith, same_bytes_sound v y xs)

get_or-drop : (n k : ℕ) (xs : Bytes) → get_or (drop n xs) k 0 ≡ get_or xs (n + k) 0
get_or-drop zero k xs = ap (λ (i : ℕ). get_or xs i 0) (omega arith)
get_or-drop (suc n) k [] = refl
get_or-drop (suc n) k (x ∷ xs) = rw suc-add (get_or-drop n k xs)

-- What a validated padding of `k` bytes is.
record IsPadded (p : Bytes) (k : ℕ) : Type 0 where
  blocks : length p % 16 ≡ 0
  small : k ≤ 16
  inside : k ≤ length p
  last : get_or p (length p - 1) 0 ≡ k
  same : same_bytes k (drop (length p - k) p) ≡ true

validate-IsPadded : (p : Bytes) (k : ℕ) → validate p 16 ≡ suc k → IsPadded p (suc k)
unfolding validate
validate-IsPadded p k h = ground (arith, low_nibble (length p))

tail-replicate :
    (k : ℕ) (t : Bytes)
    → length t ≡ suc k
    → get_or t k 0 ≡ suc k
    → same_bytes (suc k) t ≡ true
    → t ≡ replicate (suc k) (suc k)
tail-replicate k [] e l h = absurd (omega arith)
tail-replicate k (x ∷ xs) e l h =
    same_bytes_sound (suc k) x xs h (ap (λ (i : ℕ). get_or (x ∷ xs) i 0) (omega arith) ∙ l)
    ∙ ap (λ (i : ℕ). replicate i (suc k)) e

IsPadded-eq :
    (p : Bytes) (k : ℕ)
    → IsPadded p (suc k)
    → p ≡ take (length p - suc k) p ++ replicate (suc k) (suc k)
IsPadded-eq p k h =
    sym (take-append-drop (length p - suc k) p)
    ∙ ap (λ t. take (length p - suc k) p ++ t)
        (tail-replicate k (drop (length p - suc k) p)
          (omega (arith, length-drop (length p - suc k) p, h.inside)) last_byte h.same)
  where
    last_byte : get_or (drop (length p - suc k) p) k 0 ≡ suc k
    last_byte =
        get_or-drop (length p - suc k) k p
        ∙ ap (λ (i : ℕ). get_or p i 0) (omega (arith, h.inside))
        ∙ h.last

repadded :
    (p d : Bytes) (k : ℕ)
    → IsPadded p (suc k)
    → take (length p - suc k) p ≡ d
    → p ≡ get_padded_data d 16
unfolding get_padded_data
repadded p d k h e =
    IsPadded-eq p k h ∙ ap (λ t. t ++ replicate (suc k) (suc k)) e ∙ rw (add-eq d, count) refl
  where
    count : 16 - length d % 16 ≡ suc k
    count =
        omega (arith, ap length e, length-take (length p - suc k) p, h.inside, h.small, h.blocks)

update_cases :
    (p d : Bytes) (k : ℕ)
    → validate p 16 ≡ k
    → validate_and_update_data p 16 ≡ (d, true)
    → p ≡ get_padded_data d 16
unfolding validate_and_update_data
update_cases p d zero v h = ground arith
update_cases p d (suc k) v h = repadded p d k (validate-IsPadded p k v) (ground arith)

-- Nothing but padded data is accepted: where validation succeeds with `d`, the input was `d` padded.
pub validate_and_update_data_sound :
    (p d : Bytes) → validate_and_update_data p 16 ≡ (d, true) → p ≡ get_padded_data d 16
validate_and_update_data_sound p d h = update_cases p d (validate p 16) refl h
