-- ===== src/Base/Bits.antt =====
-- Shifts, masks and disjoint fields of unsigned integers as arithmetic. The native operations stand
-- for a recursion on binary digits with fuel; each gets one equation for its lowest digit here.
use Prim.Native.Nat.{ℕ, zero, suc, ◌+◌, ◌*◌, ◌/◌, ◌%◌, ◌^◌, ◌≤◌, ◌<◌, min, max}
use Prim.Native.Nat.{digits, bit_and, bit_or}
use Prim.Native.Nat.{bit_and-bitwise, bit_or-bitwise}
use mathlib.Core.Path.{◌≡◌, refl, ap, sym, ◌∙◌}
use mathlib.Core.Bool.{Bool, true, ◌&&◌}
use native.Mathlib.Nat.{
  pow-suc, pow-succ', one-le-pow, mul-div_cancel, mul-div_cancel_left, div-div-eq-div-mul,
}
use native.Mathlib.Omega.{arith}
use lime_security_powerauth.Base.Tests.{◌==◌}

module _ (z : ℕ → ℕ) (f : ℕ → ℕ → ℕ) where
  -- Any fuel from the first number up gives the same digits.
  same_digits : (n m a b : ℕ) → a ≤ n → a ≤ m → digits z f n a b ≡ digits z f m a b
  same_digits zero zero zero b p q = refl
  same_digits zero (suc m) zero b p q = refl
  same_digits (suc n) zero zero b p q = refl
  same_digits (suc n) (suc m) zero b p q = refl
  same_digits zero m (suc a) b p q = absurd (omega arith)
  same_digits (suc n) zero (suc a) b p q = absurd (omega arith)
  same_digits (suc n) (suc m) (suc a) b p q =
      ap (λ (t : ℕ). t * 2 + f (suc a % 2) (b % 2))
        (same_digits n m (suc a / 2) (b / 2) (omega arith) (omega arith))

  lowest_digit :
      (a b : ℕ)
      → digits z f (suc a) (suc a) b
        ≡ digits z f (suc a / 2) (suc a / 2) (b / 2) * 2 + f (suc a % 2) (b % 2)
  lowest_digit a b =
      ap (λ (t : ℕ). t * 2 + f (suc a % 2) (b % 2))
        (same_digits a (suc a / 2) (suc a / 2) (b / 2) (omega arith) (omega arith))

or_digit : (a b : ℕ) → bit_or a b ≡ bit_or (a / 2) (b / 2) * 2 + max (a % 2) (b % 2)
or_digit zero b = simp bit_or-bitwise (omega arith)
or_digit (suc a) b = simp bit_or-bitwise (lowest_digit (λ y. y) max a b)

and_digit : (a b : ℕ) → bit_and a b ≡ bit_and (a / 2) (b / 2) * 2 + min (a % 2) (b % 2)
and_digit zero b = simp bit_and-bitwise (omega arith)
and_digit (suc a) b = simp bit_and-bitwise (lowest_digit (λ y. 0) min a b)

zero-bit_or : (b : ℕ) → bit_or 0 b ≡ b
zero-bit_or b = bit_or-bitwise 0 b

zero-bit_and : (b : ℕ) → bit_and 0 b ≡ 0
zero-bit_and b = bit_and-bitwise 0 b

bit_or-zero_below : (n a : ℕ) → a ≤ n → bit_or a 0 ≡ a
bit_or-zero_below n zero h = refl
bit_or-zero_below zero (suc a) h = absurd (omega arith)
bit_or-zero_below (suc n) (suc a) h =
    omega (arith, or_digit (suc a) 0, bit_or-zero_below n (suc a / 2) (omega arith))

two_pow-suc : (q k : ℕ) → q * 2 ^ suc k ≡ 2 * (q * 2 ^ k)
two_pow-suc q k = omega (arith, ap (λ (t : ℕ). q * t) (pow-suc 2 k))

-- `(q << k) | r` is a sum where `r` fits `k` bits.
pub bit_or-shift : (k q r : ℕ) → r < 2 ^ k → bit_or (q * 2 ^ k) r ≡ q * 2 ^ k + r
bit_or-shift zero q r h = ground (arith, bit_or-zero_below q q (omega arith))
bit_or-shift (suc k) q r h =
    ground
      (arith, or_digit (q * 2 ^ suc k) r, two_pow-suc q k, bit_or-shift k q (r / 2) (omega arith))

bit_and-zero_below : (n a : ℕ) → a ≤ n → bit_and a 0 ≡ 0
bit_and-zero_below n zero h = refl
bit_and-zero_below zero (suc a) h = absurd (omega arith)
bit_and-zero_below (suc n) (suc a) h =
    omega (arith, and_digit (suc a) 0, bit_and-zero_below n (suc a / 2) (omega arith))

bit_and-low_field : (k m q r : ℕ) → m + 1 ≡ 2 ^ k → r < 2 ^ k → bit_and (q * 2 ^ k + r) m ≡ r
bit_and-low_field zero m q r hm h =
    let e : m ≡ 0 = omega arith in
    let x : ℕ = q * 2 ^ 0 + r in rw e (omega (arith, bit_and-zero_below x x (omega arith)))
bit_and-low_field (suc k) m q r hm h = ground (
  arith,
  and_digit (q * 2 ^ suc k + r) m,
  two_pow-suc q k,
  pow-suc 2 k,
  one-le-pow k 2,
  bit_and-low_field k (m / 2) q (r / 2),
)

-- A mask of `k` ones takes the remainder by `2 ^ k`.
pub bit_and-ones : (k m x : ℕ) → m + 1 ≡ 2 ^ k → bit_and x m ≡ x % 2 ^ k
bit_and-ones k m x hm =
    ground (arith, one-le-pow k 2, bit_and-low_field k m (x / 2 ^ k) (x % 2 ^ k))

bit_and_double : (x m : ℕ) → bit_and x (2 * m) ≡ 2 * bit_and (x / 2) m
bit_and_double x m =
    omega (
      arith,
      and_digit x (2 * m),
      ap (bit_and (x / 2)) (mul-div_cancel_left m {n = 2} (omega arith)),
    )

halved : (k x : ℕ) → x / 2 / 2 ^ k ≡ x / 2 ^ suc k
halved k x = div-div-eq-div-mul x 2 (2 ^ k) ∙ ap (λ (t : ℕ). x / t) (sym (pow-succ' 2 k))

bit_and-shifted : (k m x : ℕ) → bit_and x (m * 2 ^ k) ≡ bit_and (x / 2 ^ k) m * 2 ^ k
bit_and-shifted zero m x = rw (times_one m, over_one x, times_one (bit_and x m)) refl
  where
    times_one : (n : ℕ) → n * 2 ^ 0 ≡ n
    times_one n = omega arith

    over_one : (n : ℕ) → n / 2 ^ 0 ≡ n
    over_one n = omega arith
bit_and-shifted (suc k) m x =
    ap (bit_and x) (two_pow-suc m k)
    ∙ bit_and_double x (m * 2 ^ k)
    ∙ ap (λ (t : ℕ). 2 * t) (bit_and-shifted k m (x / 2))
    ∙ ap (λ (t : ℕ). 2 * (bit_and t m * 2 ^ k)) (halved k x)
    ∙ sym (two_pow-suc (bit_and (x / 2 ^ suc k) m) k)

-- A field of a word: masked in its place and moved down.
pub bit_and-field :
    (j k ones x : ℕ) → ones + 1 ≡ 2 ^ j → bit_and x (ones * 2 ^ k) / 2 ^ k ≡ x / 2 ^ k % 2 ^ j
bit_and-field j k ones x h =
    ap (λ (t : ℕ). t / 2 ^ k) (bit_and-shifted k ones x)
    ∙ mul-div_cancel (bit_and (x / 2 ^ k) ones) (one-le-pow k 2 (omega arith))
    ∙ bit_and-ones j ones (x / 2 ^ k) h

-- Over one byte, check every value by evaluation.
pub holds_below : ℕ → (ℕ → ℕ) → (ℕ → ℕ) → Bool
holds_below zero f g = true
holds_below (suc n) f g = (f n == g n) && holds_below n f g

pub eq_below : (n : ℕ) (f g : ℕ → ℕ) (x : ℕ) → holds_below n f g ≡ true → x < n → f x ≡ g x
unfolding holds_below
eq_below zero f g x h lt = absurd (omega arith)
eq_below (suc n) f g x h lt = ground (arith, eq_below n f g x)

-- The marker of a count byte.
pub bit_and_c0 : (b : ℕ) → b < 256 → bit_and b 0xC0 ≡ b / 64 * 64
unfolding holds_below
bit_and_c0 b h = eq_below 256 (λ x. bit_and x 0xC0) (λ x. x / 64 * 64) b refl h

pub bit_or_80 : (b : ℕ) → b < 64 → bit_or b 0x80 ≡ b + 0x80
unfolding holds_below
bit_or_80 b h = eq_below 64 (λ x. bit_or x 0x80) (λ x. x + 0x80) b refl h

pub bit_or_c0 : (b : ℕ) → b < 64 → bit_or b 0xC0 ≡ b + 0xC0
unfolding holds_below
bit_or_c0 b h = eq_below 64 (λ x. bit_or x 0xC0) (λ x. x + 0xC0) b refl h
