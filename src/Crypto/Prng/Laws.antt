-- ===== src/Crypto/Prng/Laws.antt =====
-- What the two generators return, whatever OpenSSL draws.
use lime_security_powerauth.Base.{
  ℕ, zero, suc, ◌+◌, ◌≡◌, ◌≢◌, refl, ◌⊎◌, inl, inr, Bool, true, false, not, ◌||◌, List, [], ◌∷◌,
  some, ◌==◌, arith, Bool-cases, Option-cases, Bytes, is_empty, equal, equal_refl, equal→eq, ap,
  ◌∙◌, ◌<◌, length, replicate, All,
}
use lime_security_powerauth.Crypto.Prng.{
  Draws, draw_loop, get_random_data, is_rejected, get_unique_random_data,
}

-- Nothing, or a draw that passed the test.
draw_loop_cases :
    (good : Bytes → Bool) (n i : ℕ) (rand_bytes : Draws)
    → (draw_loop good n i rand_bytes ≡ [])
      ⊎ ((j : ℕ) × (rand_bytes j ≡ some (draw_loop good n i rand_bytes))
          × (good (draw_loop good n i rand_bytes) ≡ true))
unfolding draw_loop
draw_loop_cases good zero i rand_bytes = inl refl
draw_loop_cases good (suc n) i rand_bytes = elim (Option-cases (rand_bytes i)) [
  | inl e ↦ inl (rw (e, draw_loop))
  | inr (d, e) ↦ elim (Bool-cases (good d)) [
    | inl g ↦ inr (i, rw (e, draw_loop, g), rw (e, draw_loop, g) g)
    | inr b ↦ rw (e, draw_loop, b) (draw_loop_cases good n (suc i) rand_bytes)
  ]
]

draw_loop_finds :
    (good : Bytes → Bool) (n i j : ℕ) (rand_bytes : Draws) (d : Bytes)
    → j < n
    → ((k : ℕ) → k < j → (bad : Bytes) × (rand_bytes (i + k) ≡ some bad) × (good bad ≡ false))
    → rand_bytes (i + j) ≡ some d
    → good d ≡ true
    → draw_loop good n i rand_bytes ≡ d
unfolding draw_loop
draw_loop_finds good zero i j rand_bytes d h before e g = absurd (omega arith)
draw_loop_finds good (suc n) i zero rand_bytes d h before e g =
    let e' : rand_bytes i ≡ some d = ap rand_bytes (omega arith) ∙ e in rw (e', draw_loop, g)
draw_loop_finds good (suc n) i (suc j) rand_bytes d h before e g =
    let (bad, drawn, no_good) = before 0 (omega arith) in
    let drawn' : rand_bytes i ≡ some bad = ap rand_bytes (omega arith) ∙ drawn in
    rw (drawn', draw_loop, no_good)
      (draw_loop_finds good n (suc i) j rand_bytes d (omega arith)
        (λ k hk. shifted k (before (suc k) (omega arith))) (ap rand_bytes (omega arith) ∙ e) g)
  where
    shifted :
        (k : ℕ)
        → (bad : Bytes) × (rand_bytes (i + suc k) ≡ some bad) × (good bad ≡ false)
        → (bad : Bytes) × (rand_bytes (suc i + k) ≡ some bad) × (good bad ≡ false)
    shifted k (bad, drawn, no_good) = (bad, ap rand_bytes (omega arith) ∙ drawn, no_good)

is_rejected-All :
    (d : Bytes) (others : List Bytes)
    → is_rejected d others ≡ false
    → All (λ other. d ≢ other) others
unfolding is_rejected
is_rejected-All d [] h = tt
is_rejected-All d (other ∷ others) h = (λ e. differs e, is_rejected-All d others (ground arith))
  where
    differs : d ≡ other → ⊥
    differs e = ground (arith, h, equal_refl d, ap (equal d) e)

suc-ne-zero : (n : ℕ) → (suc n == 0) ≡ false
suc-ne-zero n = ground arith

-- A sequence that must differ from `others` is empty, which reports a failure, or one of the
-- sequences that the generator drew, and then it differs from each of `others`.
pub get_unique_random_data_cases :
    (size : ℕ) (others : List Bytes) (rand_bytes : Draws)
    → (get_unique_random_data size others rand_bytes ≡ [])
      ⊎ ((j : ℕ) × (rand_bytes j ≡ some (get_unique_random_data size others rand_bytes))
          × All (λ other. get_unique_random_data size others rand_bytes ≢ other) others)
unfolding get_unique_random_data
get_unique_random_data_cases zero others rand_bytes = inl refl
get_unique_random_data_cases (suc size) others rand_bytes =
    rw (suc-ne-zero size)
      (elim (draw_loop_cases (λ drawn. not (is_rejected drawn others)) 16 0 rand_bytes) [
        | inl e ↦ inl e
        | inr (j, e, g) ↦ inr (j, e, is_rejected-All _ others (ground (arith, g)))
      ])

-- If the first draw that is not all zeros is among the first 16, and none before it fails, then it
-- is the result.
pub get_random_data_finds :
    (size j : ℕ) (rand_bytes : Draws) (d : Bytes)
    → 0 < size
    → j < 16
    → ((k : ℕ) → k < j → rand_bytes k ≡ some (replicate size 0))
    → rand_bytes j ≡ some d
    → d ≢ replicate size 0
    → get_random_data size true rand_bytes ≡ d
unfolding get_random_data
get_random_data_finds zero j rand_bytes d hs hj before e ne = absurd (omega arith)
get_random_data_finds (suc size) j rand_bytes d hs hj before e ne = rw (suc-ne-zero size) (
    draw_loop_finds (λ drawn. not true || not (equal drawn (replicate (suc size) 0))) 16 0 j
      rand_bytes d hj
      (λ k hk. (replicate (suc size) 0, ap rand_bytes (omega arith) ∙ before k hk, zeros))
      (ap rand_bytes (omega arith) ∙ e) differs)
  where
    zeros : (not true || not (equal (replicate (suc size) 0) (replicate (suc size) 0))) ≡ false
    zeros = ground (arith, equal_refl (replicate (suc size) 0))

    differs : (not true || not (equal d (replicate (suc size) 0))) ≡ true
    differs = elim (Bool-cases (equal d (replicate (suc size) 0))) [
      | inl same ↦ absurd (ne (equal→eq d _ same))
      | inr other ↦ rw other
    ]

abbrev pub AllDrawn : (Bytes → Type 0) → Draws → Type 0
AllDrawn P rand_bytes = (j : ℕ) (d : Bytes) → rand_bytes j ≡ some d → P d

pub length-get_unique_random_data :
    (size : ℕ) (others : List Bytes) (rand_bytes : Draws)
    → AllDrawn (λ d. length d ≡ size) rand_bytes
    → is_empty (get_unique_random_data size others rand_bytes) ≡ false
    → length (get_unique_random_data size others rand_bytes) ≡ size
length-get_unique_random_data size others rand_bytes h e =
    elim (get_unique_random_data_cases size others rand_bytes) [
      | inl n ↦ ground (arith, n, e)
      | inr (j, d, u) ↦ h j _ d
    ]

pub length-get_random_data :
    (size : ℕ) (reject : Bool) (rand_bytes : Draws)
    → AllDrawn (λ d. length d ≡ size) rand_bytes
    → is_empty (get_random_data size reject rand_bytes) ≡ false
    → length (get_random_data size reject rand_bytes) ≡ size
unfolding get_random_data
length-get_random_data zero reject rand_bytes h = λ e. refl
length-get_random_data (suc size) reject rand_bytes h = rw (suc-ne-zero size) λ e.
    elim (draw_loop_cases (λ drawn. not reject || not (equal drawn (replicate (suc size) 0))) 16 0
      rand_bytes) [ inl n ↦ ground (arith, n, e) | inr (j, d, u) ↦ h j _ d ]
