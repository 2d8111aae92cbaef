-- ===== src/Session/KeyValues/Lookup.antt =====
-- A list of pairs as a map, and its sorted list as the one listing of that map.
use lime_security_powerauth.Base.{
  ◌≡◌, ◌↔◌, refl, sym, ap, ◌∙◌, inl, inr, Bool-cases, true, false, List, [], ◌∷◌, All, Option, some,
  none, arith, Bytes, if-either, if◌then◌else◌, equal, equal_refl, equal→eq,
}
use lime_security_powerauth.Session.KeyValues.{less, insert_pair, sort_pairs}
use lime_security_powerauth.Session.KeyValues.Order.{less_trans, less_total, less-equal}

-- The value of a key: what `map.find` gives.
unfoldable pub value_of : Bytes → List (Bytes × Bytes) → Option Bytes
value_of k [] = none
value_of k (p ∷ rest) = if equal p.0 k then some p.1 else value_of k rest

-- No key is listed twice, as in a std::map.
unfoldable pub HasDistinctKeys : List (Bytes × Bytes) → Type 0
HasDistinctKeys [] = Unit {0}
HasDistinctKeys (p ∷ rest) = (value_of p.0 rest ≡ none) × HasDistinctKeys rest

-- Each key is less than all that follow.
abbrev IsAbove : Bytes → Bytes × Bytes → Type 0
IsAbove k p = less k p.0 ≡ true

pub IsAscending : List (Bytes × Bytes) → Type 0
IsAscending [] = Unit {0}
IsAscending (p ∷ rest) = All (IsAbove p.0) rest × IsAscending rest

equal_join : (a b k : Bytes) → equal a k ≡ true → equal b k ≡ true → equal a b ≡ true
equal_join a b k h h' = ap (λ t. equal a t) (equal→eq b k h' ∙ sym (equal→eq a k h)) ∙ equal_refl a

value_of-insert_pair :
    (k : Bytes) (p : Bytes × Bytes) (l : List (Bytes × Bytes))
    → value_of p.0 l ≡ none
    → value_of k (insert_pair p l) ≡ (if equal p.0 k then some p.1 else value_of k l)
unfolding value_of insert_pair
value_of-insert_pair k p [] h = refl
value_of-insert_pair k p (q ∷ rest) h =
    ground (arith, value_of-insert_pair k p rest, equal_join q.0 p.0 k)

-- Keys that a list does not have.
absent :
    (k : Bytes) (q : Bytes × Bytes) (rest : List (Bytes × Bytes))
    → value_of k (q ∷ rest) ≡ none
    → (equal q.0 k ≡ false) × (value_of k rest ≡ none)
unfolding value_of
absent k q rest h = (ground (arith, h), ground (arith, h))

above_head :
    (p q : Bytes × Bytes) → less q.0 p.0 ≡ false → equal q.0 p.0 ≡ false → less p.0 q.0 ≡ true
above_head p q ge ne = elim (Bool-cases (less p.0 q.0)) [
  | inl lt ↦ lt
  | inr le ↦
      let same = less_total q.0 p.0 ge le in
      absurd (ground (arith, ne, ap (λ t. equal q.0 t) (sym same) ∙ equal_refl q.0))
]

HasDistinctKeys-insert_pair :
    (p : Bytes × Bytes) (l : List (Bytes × Bytes))
    → value_of p.0 l ≡ none
    → HasDistinctKeys l
    → HasDistinctKeys (insert_pair p l)
unfolding insert_pair value_of HasDistinctKeys
HasDistinctKeys-insert_pair p [] h d = (refl, tt)
HasDistinctKeys-insert_pair p (q ∷ rest) h (dq, d) = elim (Bool-cases (less q.0 p.0)) [
  | inl lt ↦ rw lt (
    value_of-insert_pair q.0 p rest (absent p.0 q rest h).1
        ∙ ground (arith, dq, less-equal q.0 p.0 lt),
    HasDistinctKeys-insert_pair p rest (absent p.0 q rest h).1 d,
  )
  | inr ge ↦ rw ge (h, (dq, d))
]

value_of-sort_pairs :
    (k : Bytes) (l : List (Bytes × Bytes))
    → HasDistinctKeys l
    → value_of k (sort_pairs l) ≡ value_of k l
unfolding value_of sort_pairs HasDistinctKeys
value_of-sort_pairs k [] d = refl
value_of-sort_pairs k (p ∷ rest) (h, d) =
    value_of-insert_pair k p (sort_pairs rest) (value_of-sort_pairs p.0 rest d ∙ h)
    ∙ ap (λ o. if equal p.0 k then some p.1 else o) (value_of-sort_pairs k rest d)

-- Ascending lists.
All-insert_pair :
    (k : Bytes) (p : Bytes × Bytes) (l : List (Bytes × Bytes))
    → IsAbove k p
    → All (IsAbove k) l
    → All (IsAbove k) (insert_pair p l)
unfolding insert_pair
All-insert_pair k p [] h a = (h, tt)
All-insert_pair k p (q ∷ rest) h (hq, a) =
    if-either (All (IsAbove k)) (less q.0 p.0) (hq, All-insert_pair k p rest h a) (h, (hq, a))

All-weaken :
    (a b : Bytes) (l : List (Bytes × Bytes))
    → less a b ≡ true
    → All (IsAbove b) l
    → All (IsAbove a) l
All-weaken a b [] h s = tt
All-weaken a b (q ∷ l) h (hq, s) = (less_trans a b q.0 h hq, All-weaken a b l h s)

IsAscending-insert_pair :
    (p : Bytes × Bytes) (l : List (Bytes × Bytes))
    → value_of p.0 l ≡ none
    → IsAscending l
    → IsAscending (insert_pair p l)
unfolding insert_pair value_of IsAscending
IsAscending-insert_pair p [] h s = (tt, tt)
IsAscending-insert_pair p (q ∷ rest) h (a, s) = elim (Bool-cases (less q.0 p.0)) [
  | inl lt ↦
      rw lt
        (All-insert_pair q.0 p rest lt a, IsAscending-insert_pair p rest (absent p.0 q rest h).1 s)
  | inr ge ↦
      let lt = above_head p q ge (absent p.0 q rest h).0 in
      rw ge ((lt, All-weaken p.0 q.0 rest lt a), (a, s))
]

pub IsAscending-sort_pairs :
    (l : List (Bytes × Bytes)) → HasDistinctKeys l → IsAscending (sort_pairs l)
unfolding sort_pairs IsAscending HasDistinctKeys
IsAscending-sort_pairs [] d = tt
IsAscending-sort_pairs (p ∷ rest) (h, d) =
    IsAscending-insert_pair p (sort_pairs rest) (value_of-sort_pairs p.0 rest d ∙ h)
      (IsAscending-sort_pairs rest d)

-- Two ascending listings of one map are the same.
value_of-above : (k : Bytes) (l : List (Bytes × Bytes)) → All (IsAbove k) l → value_of k l ≡ none
unfolding value_of
value_of-above k [] a = refl
value_of-above k (q ∷ l) (h, a) = rw (less-equal k q.0 h) (value_of-above k l a)

value_of-head : (p : Bytes × Bytes) (l : List (Bytes × Bytes)) → value_of p.0 (p ∷ l) ≡ some p.1
unfolding value_of
value_of-head p l = rw (equal_refl p.0) refl

-- The maps of two listings agree.
abbrev pub SameMap : List (Bytes × Bytes) → List (Bytes × Bytes) → Type 0
SameMap l m = (k : Bytes) → value_of k l ≡ value_of k m

first_is_listed :
    (p q : Bytes × Bytes) (l m : List (Bytes × Bytes))
    → IsAscending (q ∷ m)
    → SameMap (p ∷ l) (q ∷ m)
    → less p.0 q.0 ≡ false
unfolding IsAscending
first_is_listed p q l m (a, s) same = elim (Bool-cases (less p.0 q.0)) [
  | inl lt ↦ absurd (
      ground (
        arith,
        value_of-head p l,
        same p.0,
        value_of-above p.0 (q ∷ m) ((lt, All-weaken p.0 q.0 m lt a)),
      ))
  | inr ge ↦ ge
]

same_tail :
    (p q : Bytes × Bytes) (l m : List (Bytes × Bytes))
    → p.0 ≡ q.0
    → All (IsAbove p.0) l
    → All (IsAbove q.0) m
    → SameMap (p ∷ l) (q ∷ m)
    → SameMap l m
unfolding value_of
same_tail p q l m e al am same k = elim (Bool-cases (equal p.0 k)) [
  | inl here ↦
      let at_p = equal→eq p.0 k here in
      ap (λ t. value_of t l) (sym at_p)
      ∙ value_of-above p.0 l al
      ∙ sym (value_of-above q.0 m am)
      ∙ ap (λ t. value_of t m) (sym e ∙ at_p)
  | inr there ↦ ground (arith, same k, ap (λ t. equal t k) e, there)
]

pub pair_same : {p q : Bytes × Bytes} → p.0 ≡ q.0 → p.1 ≡ q.1 → p ≡ q
pair_same {p} {q} h k = ap (λ a. (a, p.1)) h ∙ ap (λ b. (q.0, b)) k

pub same_cons : {p q : Bytes × Bytes} {l m : List (Bytes × Bytes)} → p ≡ q → l ≡ m → p ∷ l ≡ q ∷ m
same_cons {p} {q} {l} {m} h k = ap (λ r. r ∷ l) h ∙ ap (λ r. q ∷ r) k

IsAscending-SameMap :
    (l m : List (Bytes × Bytes)) → IsAscending l → IsAscending m → SameMap l m → l ≡ m
unfolding IsAscending value_of
IsAscending-SameMap [] [] sl sm same = refl
IsAscending-SameMap [] (q ∷ m) sl sm same = absurd (ground (arith, value_of-head q m, same q.0))
IsAscending-SameMap (p ∷ l) [] sl sm same = absurd (ground (arith, value_of-head p l, same p.0))
IsAscending-SameMap (p ∷ l) (q ∷ m) (al, sl) (am, sm) same =
    let e =
      less_total p.0 q.0 (first_is_listed p q l m (am, sm) same)
        (first_is_listed q p m l (al, sl) (λ k. sym (same k))) in
    same_cons
      (pair_same e (
        ground
          (arith, value_of-head p l, value_of-head q m, same p.0, ap (λ t. value_of t (q ∷ m)) e)))
      (IsAscending-SameMap l m sl sm (same_tail p q l m e al am same))

-- Sorting forgets just the order of a listing.
pub sort_pairs-SameMap :
    (l m : List (Bytes × Bytes))
    → HasDistinctKeys l
    → HasDistinctKeys m
    → (sort_pairs l ≡ sort_pairs m) ↔ SameMap l m
sort_pairs-SameMap l m dl dm = (
  λ e k. sym (value_of-sort_pairs k l dl) ∙ ap (value_of k) e ∙ value_of-sort_pairs k m dm,
  λ same.
      IsAscending-SameMap (sort_pairs l) (sort_pairs m) (IsAscending-sort_pairs l dl)
        (IsAscending-sort_pairs m dm)
        (λ k. value_of-sort_pairs k l dl ∙ same k ∙ sym (value_of-sort_pairs k m dm)),
)
