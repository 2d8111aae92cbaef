-- ===== src/Password/Characters.antt =====
-- A mutable password as the list of its encoded characters.
use lime_security_powerauth.Base.{
  ℕ, zero, suc, ◌+◌, ◌-◌, ◌≤◌, ◌<◌, ◌≡◌, refl, sym, ap, ◌∙◌, true, List, [], ◌∷◌, ◌++◌,
  append_assoc, append-nil, some, arith, Bytes, length, take, drop, get_elem?, length-append,
  drop-append, drop-add,
}
use native.Mathlib.Nat.{suc-add}
use lime_security_powerauth.Password.{
  Password, utf8_encode, add_character, insert_character, remove_character, remove_last_character,
  index_to_pos, update_indexes, found_or,
}

unfoldable pub concat : List Bytes → Bytes
concat [] = []
concat (c ∷ cs) = c ++ concat cs

total : List Bytes → ℕ
total [] = 0
total (c ∷ cs) = length c + total cs

unfoldable pub positions : ℕ → List Bytes → List ℕ
positions a [] = []
positions a (c ∷ cs) = a ∷ positions (a + length c) cs

-- The mutable password that holds the characters `cs`.
unfoldable pub of_characters : List Bytes → Password
unfolding concat positions
of_characters cs = record { pass = concat cs; char_pos = some (positions 0 cs) }

length-concat : (cs : List Bytes) → length (concat cs) ≡ total cs
unfolding concat total
length-concat [] = refl
length-concat (c ∷ cs) = ground (arith, length-append c (concat cs), length-concat cs)

pub length-positions : (a : ℕ) (cs : List Bytes) → length (positions a cs) ≡ length cs
unfolding positions
length-positions a [] = refl
length-positions a (c ∷ cs) = ap suc (length-positions (a + length c) cs)

found_or-positions :
    (a i : ℕ) (cs : List Bytes)
    → found_or (get_elem? (positions a cs) i) (a + total cs) ≡ a + total (take i cs)
unfolding positions total found_or
found_or-positions a zero [] = refl
found_or-positions a (suc i) [] = refl
found_or-positions a zero (c ∷ cs) = omega arith
found_or-positions a (suc i) (c ∷ cs) =
    ap (λ n. found_or (get_elem? (positions (a + length c) cs) i) n) (omega arith)
    ∙ found_or-positions (a + length c) i cs
    ∙ omega arith

index_to_pos-positions :
    (i : ℕ) (cs : List Bytes) → index_to_pos (concat cs) (positions 0 cs) i ≡ total (take i cs)
unfolding index_to_pos
index_to_pos-positions i cs =
    ap (λ n. found_or (get_elem? (positions 0 cs) i) n) (length-concat cs ∙ omega arith)
    ∙ found_or-positions 0 i cs
    ∙ omega arith

concat-append : (xs ys : List Bytes) → concat (xs ++ ys) ≡ concat xs ++ concat ys
unfolding concat
concat-append [] ys = refl
concat-append (x ∷ xs) ys =
    ap (λ t. x ++ t) (concat-append xs ys) ∙ sym (append_assoc x (concat xs) (concat ys))

take-append_add : (xs ys : Bytes) (n : ℕ) → take (length xs + n) (xs ++ ys) ≡ xs ++ take n ys
take-append_add [] ys n = ap (λ (m : ℕ). take m ys) (omega arith)
take-append_add (x ∷ xs) ys n = rw suc-add (ap (λ t. x ∷ t) (take-append_add xs ys n))

take-concat : (i : ℕ) (cs : List Bytes) → take (total (take i cs)) (concat cs) ≡ concat (take i cs)
unfolding concat total
take-concat zero cs = refl
take-concat (suc i) [] = refl
take-concat (suc i) (c ∷ cs) =
    take-append_add c (concat cs) (total (take i cs)) ∙ ap (λ t. c ++ t) (take-concat i cs)

drop-concat : (i : ℕ) (cs : List Bytes) → drop (total (take i cs)) (concat cs) ≡ concat (drop i cs)
unfolding concat total
drop-concat zero cs = refl
drop-concat (suc i) [] = refl
drop-concat (suc i) (c ∷ cs) =
    drop-add (length c) (total (take i cs)) (c ++ concat cs)
    ∙ ap (drop (total (take i cs))) (drop-append c (concat cs))
    ∙ drop-concat i cs

update_indexes-positions :
    (k a : ℕ) (cs : List Bytes)
    → update_indexes (λ x. x + k) (positions a cs) 0 ≡ positions (a + k) cs
unfolding update_indexes positions
update_indexes-positions k a [] = refl
update_indexes-positions k a (c ∷ cs) =
    ap (λ t. (a + k) ∷ t)
      (update_indexes-positions k (a + length c) cs ∙ ap (λ (n : ℕ). positions n cs) (omega arith))

insert-positions :
    (a i : ℕ) (b : Bytes) (cs : List Bytes)
    → i ≤ length cs
    → update_indexes
        (λ x. x + length b)
        (take i (positions a cs) ++ (a + total (take i cs)) ∷ drop i (positions a cs))
        (suc i)
      ≡ positions a (take i cs ++ b ∷ drop i cs)
unfolding update_indexes positions total
insert-positions a zero b cs h =
    ap (λ n. n ∷ update_indexes (λ x. x + length b) (positions a cs) 0) (omega arith)
    ∙ ap (λ t. a ∷ t) (update_indexes-positions (length b) a cs)
insert-positions a (suc i) b [] h = absurd (omega (arith, h))
insert-positions a (suc i) b (c ∷ cs) h =
    ap
      (λ n.
        a
        ∷ update_indexes (λ x. x + length b)
            (take i (positions (a + length c) cs) ++ n ∷ drop i (positions (a + length c) cs))
            (suc i))
      (omega arith)
    ∙ ap (λ t. a ∷ t) (insert-positions (a + length c) i b cs (omega (arith, h)))

lower-positions :
    (k a : ℕ) (cs : List Bytes)
    → update_indexes (λ x. x - k) (positions (a + k) cs) 0 ≡ positions a cs
unfolding update_indexes positions
lower-positions k a [] = refl
lower-positions k a (c ∷ cs) =
    ap (λ n. n ∷ update_indexes (λ x. x - k) (positions (a + k + length c) cs) 0) (omega arith)
    ∙ ap (λ t. a ∷ t)
        (ap (λ (n : ℕ). update_indexes (λ x. x - k) (positions n cs) 0) (omega arith)
          ∙ lower-positions k (a + length c) cs)

remove-positions :
    (a i k : ℕ) (cs : List Bytes)
    → i < length cs
    → total (take i cs) + k ≡ total (take (suc i) cs)
    → update_indexes (λ x. x - k) (take i (positions a cs) ++ drop (suc i) (positions a cs)) i
      ≡ positions a (take i cs ++ drop (suc i) cs)
unfolding update_indexes positions total
remove-positions a i k [] h e = absurd (omega (arith, h))
remove-positions a zero k (c ∷ cs) h e =
    ap (λ (n : ℕ). update_indexes (λ x. x - k) (positions n cs) 0) (omega (arith, e))
    ∙ lower-positions k a cs
remove-positions a (suc i) k (c ∷ cs) h e =
    ap (λ t. a ∷ t) (remove-positions (a + length c) i k cs (omega (arith, h)) (omega (arith, e)))

total-take-suc : (i : ℕ) (cs : List Bytes) → total (take i cs) ≤ total (take (suc i) cs)
unfolding total
total-take-suc zero cs = omega arith
total-take-suc (suc i) [] = omega arith
total-take-suc (suc i) (c ∷ cs) = omega (arith, total-take-suc i cs)

-- Inserting a code point at an index up to the number of characters puts its encoding there among
-- the characters and succeeds; the bytes and the positions are those of the new list.
pub insert_character-of_characters :
    (codepoint i : ℕ) (b : Bytes) (cs : List Bytes)
    → utf8_encode codepoint ≡ some b
    → i ≤ length cs
    → insert_character codepoint i (of_characters cs)
      ≡ (of_characters (take i cs ++ b ∷ drop i cs), true)
unfolding insert_character of_characters concat
insert_character-of_characters codepoint i b cs e h = ground (
  arith,
  length-positions 0 cs,
  index_to_pos-positions i cs,
  take-concat i cs,
  drop-concat i cs,
  insert-positions 0 i b cs h,
  concat-append (take i cs) (b ∷ drop i cs),
)

-- Removing the character at an index below their number takes it out of the list and succeeds.
pub remove_character-of_characters :
    (i : ℕ) (cs : List Bytes)
    → i < length cs
    → remove_character i (of_characters cs) ≡ (of_characters (take i cs ++ drop (suc i) cs), true)
unfolding remove_character of_characters concat
remove_character-of_characters i cs h = ground (
  arith,
  length-positions 0 cs,
  index_to_pos-positions i cs,
  index_to_pos-positions (suc i) cs,
  take-concat i cs,
  drop-concat (suc i) cs,
  total-take-suc i cs,
  remove-positions 0 i (total (take (suc i) cs) - total (take i cs)) cs h,
  concat-append (take i cs) (drop (suc i) cs),
)

positions-append :
    (a : ℕ) (xs ys : List Bytes)
    → positions a (xs ++ ys) ≡ positions a xs ++ positions (a + total xs) ys
unfolding positions total
positions-append a [] ys = ap (λ (n : ℕ). positions n ys) (omega arith)
positions-append a (x ∷ xs) ys =
    ap (λ t. a ∷ t)
      (positions-append (a + length x) xs ys
        ∙ ap (λ (n : ℕ). positions (a + length x) xs ++ positions n ys) (omega arith))

take-positions : (a i : ℕ) (cs : List Bytes) → take i (positions a cs) ≡ positions a (take i cs)
unfolding positions
take-positions a zero cs = refl
take-positions a (suc i) [] = refl
take-positions a (suc i) (c ∷ cs) = ap (λ t. a ∷ t) (take-positions (a + length c) i cs)

-- Adding a code point puts its encoding behind the characters and succeeds.
pub add_character-of_characters :
    (codepoint : ℕ) (b : Bytes) (cs : List Bytes)
    → utf8_encode codepoint ≡ some b
    → add_character codepoint (of_characters cs) ≡ (of_characters (cs ++ b ∷ []), true)
unfolding add_character of_characters concat positions
add_character-of_characters codepoint b cs e = ground (
  arith,
  length-concat cs,
  concat-append cs (b ∷ []),
  append-nil b,
  positions-append 0 cs (b ∷ []),
)

-- Removing the last character of a password that is not empty leaves the characters before it and
-- succeeds.
pub remove_last_character-of_characters :
    (cs : List Bytes)
    → 0 < length cs
    → remove_last_character (of_characters cs) ≡ (of_characters (take (length cs - 1) cs), true)
unfolding remove_last_character of_characters
remove_last_character-of_characters cs h = ground (
  arith,
  length-positions 0 cs,
  index_to_pos-positions (length cs - 1) cs,
  take-concat (length cs - 1) cs,
  take-positions 0 (length cs - 1) cs,
)
