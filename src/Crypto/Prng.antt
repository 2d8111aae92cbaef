-- ===== src/Crypto/Prng.antt =====
-- src/PowerAuth/crypto/PRNG.cpp. `RAND_bytes` is the stream of its results during one call: `none`
-- for a result other than 1, else the bytes that it left in the buffer.
pub mod Laws
pub mod Reseed
use lime_security_powerauth.Base.{
  ℕ, zero, suc, ◌+◌, ◌≡◌, refl, Bool, true, false, not, ◌&&◌, ◌||◌, List, [], ◌∷◌, Option, none,
  some, ◌==◌, arith, if◌then◌else◌, Bytes, equal, length, replicate,
}

abbrev pub Draws : Type 0
Draws = ℕ → Option Bytes

-- Both loops: draw until `good`, or until a draw fails or comes when no attempts are left.
draw_loop : (Bytes → Bool) → ℕ → ℕ → Draws → Bytes
draw_loop good zero i rand_bytes = []
draw_loop good (suc attempts) i rand_bytes =
    let rest = draw_loop good attempts (suc i) rand_bytes in
    elim (rand_bytes i) [ none ↦ [] | some drawn ↦ if good drawn then drawn else rest ]

unfoldable pub get_random_data : ℕ → Bool → Draws → Bytes
unfolding draw_loop
get_random_data size reject_sequence_of_zeros rand_bytes =
    if size == 0
    then []
    else draw_loop (λ drawn. not reject_sequence_of_zeros || not (equal drawn (replicate size 0)))
        16 0 rand_bytes

-- The loop over the sequences to reject.
is_rejected : Bytes → List Bytes → Bool
is_rejected d [] = false
is_rejected d (other ∷ others) = equal d other || is_rejected d others

unfoldable pub get_unique_random_data : ℕ → List Bytes → Draws → Bytes
unfolding draw_loop is_rejected
get_unique_random_data size reject_byte_sequences rand_bytes =
    if size == 0
    then []
    else draw_loop (λ drawn. not (is_rejected drawn reject_byte_sequences)) 16 0 rand_bytes
