-- ===== src/Crypto/Prng/Reseed.antt =====
-- src/PowerAuth/crypto/PRNG.cpp: ReseedPRNG. A system generator is what opening /dev/urandom and
-- reading some number of bytes from it gives, `none` where it cannot be opened.
use lime_security_powerauth.Base.{
  ℕ, ◌≤◌, ◌≡◌, refl, Bool, true, false, List, [], ◌∷◌, All, Option, none, some, ltb, ◌==◌, arith,
  if◌then◌else◌, Bytes, length,
}

abbrev pub SystemGenerator : Type 0
SystemGenerator = ℕ → Option Bytes

full : ℕ → Option Bytes → Option Bytes
full nbytes none = none
full nbytes (some readed) = if length readed == nbytes then some readed else none

-- The bytes, `none` for false.
unfoldable pub get_bytes_from_system_generator : SystemGenerator → ℕ → Option Bytes
unfolding full
get_bytes_from_system_generator urandom nbytes = full nbytes (urandom nbytes)

-- `count` is the byte that `RAND_bytes` leaves; its result is not looked at.
seed_size : Bool → ℕ → ℕ
seed_size true count = 1024
seed_size false count = if ltb count 16 then 16 else if ltb 64 count then 64 else count

-- The new `s_initial_seed`, and what goes to `RAND_seed`, if anything does.
unfoldable pub reseed_prng : SystemGenerator → Bool → ℕ → Bool × Option Bytes
unfolding seed_size
reseed_prng urandom s_initial_seed count =
    (false, get_bytes_from_system_generator urandom (seed_size s_initial_seed count))

-- A sequence of calls: the seeds that they use.
unfoldable pub reseeds : SystemGenerator → Bool → List ℕ → List (Option Bytes)
reseeds urandom s_initial_seed [] = []
reseeds urandom s_initial_seed (count ∷ counts) =
    let (flag, seed) = reseed_prng urandom s_initial_seed count in
    seed ∷ reseeds urandom flag counts

-- A seed of the first call, and one of a later call, if there is one at all.
abbrev pub IsFirstSeed : Option Bytes → Type 0
IsFirstSeed none = Unit {0}
IsFirstSeed (some seed) = length seed ≡ 1024

abbrev pub IsLaterSeed : Option Bytes → Type 0
IsLaterSeed none = Unit {0}
IsLaterSeed (some seed) = (16 ≤ length seed) × (length seed ≤ 64)

abbrev pub AreSeeds : List (Option Bytes) → Type 0
AreSeeds [] = Unit {0}
AreSeeds (first ∷ later) = IsFirstSeed first × All IsLaterSeed later

IsFirstSeed-full : (o : Option Bytes) → IsFirstSeed (full 1024 o)
unfolding full
IsFirstSeed-full none = tt
IsFirstSeed-full (some b) = seed (length b == 1024) refl
  where
    seed : (t : Bool) → (length b == 1024) ≡ t → IsFirstSeed (if t then some b else none)
    seed true e = ground (arith, e)
    seed false e = tt

IsLaterSeed-full : (n : ℕ) (o : Option Bytes) → 16 ≤ n → n ≤ 64 → IsLaterSeed (full n o)
unfolding full
IsLaterSeed-full n none h k = tt
IsLaterSeed-full n (some b) h k = seed (length b == n) refl
  where
    seed : (t : Bool) → (length b == n) ≡ t → IsLaterSeed (if t then some b else none)
    seed true e = (ground (arith, e, h), ground (arith, e, k))
    seed false e = tt

All-reseeds :
    (urandom : SystemGenerator) (counts : List ℕ) → All IsLaterSeed (reseeds urandom false counts)
unfolding reseeds reseed_prng seed_size get_bytes_from_system_generator
All-reseeds urandom [] = tt
All-reseeds urandom (count ∷ counts) = (
  IsLaterSeed-full (seed_size false count) _ (ground arith) (ground arith),
  All-reseeds urandom counts,
)

-- Whatever the generators give, the seed of the first call has 1024 bytes and that of every later
-- one from 16 to 64, or there is none, since /dev/urandom did not give so many.
pub AreSeeds-reseeds :
    (urandom : SystemGenerator) (counts : List ℕ) → AreSeeds (reseeds urandom true counts)
unfolding reseeds reseed_prng seed_size get_bytes_from_system_generator
AreSeeds-reseeds urandom [] = tt
AreSeeds-reseeds urandom (count ∷ counts) =
    (IsFirstSeed-full (urandom 1024), All-reseeds urandom counts)
