-- ===== src/Password/Edits.antt =====
-- A mutable password as a text: a list of code points that is edited.
use lime_security_powerauth.Base.{
  ℕ, zero, suc, ◌-◌, ◌≤◌, ◌≡◌, refl, sym, ap, ◌∙◌, ◌↔◌, Bool, true, false, List, [], ◌∷◌, ◌++◌, All,
  arith, Bytes, length, take, drop, ltb, leb, is_empty, equal, equal→eq, equal_refl, if◌then◌else◌,
}
use lime_security_powerauth.Password.{
  Password, init_as_mutable, add_character, add_to, insert_character, insert_at, remove_character,
  remove_from, remove_last_character, remove_last_from, clear, is_mutable, password_length, size_of,
  is_equal_to_password, insert_encoded, add_encoded,
}
use lime_security_powerauth.Password.Characters.{
  of_characters, concat, positions, length-positions, insert_character-of_characters,
  remove_character-of_characters, add_character-of_characters, remove_last_character-of_characters,
}
use lime_security_powerauth.Password.Utf8.{
  encoded, utf8_encode_lem, encoded-append-inj, encoded-is_empty,
}

-- A call of one of the mutable operations.
pub data Edit : Type 0 where
  add : ℕ → Edit
  insert : ℕ → ℕ → Edit
  remove_last : Edit
  remove : ℕ → Edit
  wipe : Edit

-- The call, with what it returns.
unfoldable pub edit : Edit → Password → Password × Bool
edit (add codepoint) p = add_character codepoint p
edit (insert codepoint index) p = insert_character codepoint index p
edit remove_last p = remove_last_character p
edit (remove index) p = remove_character index p
edit wipe p = clear p

-- The same on a text: what a user of the class may expect.
unfoldable pub edit_text : Edit → List ℕ → List ℕ × Bool
edit_text (add codepoint) cs =
    if leb codepoint 0x10FFFF then (cs ++ codepoint ∷ [], true) else (cs, false)
edit_text (insert codepoint index) cs =
    if leb index (length cs)
    then if leb codepoint 0x10FFFF
      then (take index cs ++ codepoint ∷ drop index cs, true)
      else (cs, false)
    else (cs, false)
edit_text remove_last cs =
    if ltb 0 (length cs) then (take (length cs - 1) cs, true) else (cs, false)
edit_text (remove index) cs =
    if ltb index (length cs) then (take index cs ++ drop (suc index) cs, true) else (cs, false)
edit_text wipe cs = ([], true)

encodings : List ℕ → List Bytes
encodings [] = []
encodings (c ∷ cs) = encoded c ∷ encodings cs

-- The mutable password that holds a text.
unfoldable pub of_text : List ℕ → Password
unfolding encodings
of_text cs = of_characters (encodings cs)

length-encodings : (cs : List ℕ) → length (encodings cs) ≡ length cs
unfolding encodings
length-encodings [] = refl
length-encodings (c ∷ cs) = ap suc (length-encodings cs)

encodings-append : (cs ds : List ℕ) → encodings (cs ++ ds) ≡ encodings cs ++ encodings ds
unfolding encodings
encodings-append [] ds = refl
encodings-append (c ∷ cs) ds = ap (λ t. encoded c ∷ t) (encodings-append cs ds)

take-encodings : (i : ℕ) (cs : List ℕ) → take i (encodings cs) ≡ encodings (take i cs)
unfolding encodings
take-encodings zero cs = refl
take-encodings (suc i) [] = refl
take-encodings (suc i) (c ∷ cs) = ap (λ t. encoded c ∷ t) (take-encodings i cs)

drop-encodings : (i : ℕ) (cs : List ℕ) → drop i (encodings cs) ≡ encodings (drop i cs)
unfolding encodings
drop-encodings zero cs = refl
drop-encodings (suc i) [] = refl
drop-encodings (suc i) (c ∷ cs) = drop-encodings i cs

-- The result of an edit on a text, as a password.
abbrev of_result : List ℕ × Bool → Password × Bool
of_result r = (of_text r.0, r.1)

add-of_text : (c : ℕ) (cs : List ℕ) → edit (add c) (of_text cs) ≡ of_result (edit_text (add c) cs)
unfolding edit edit_text of_text encodings add_character add_to add_encoded of_characters
add-of_text c cs = ground (
  arith,
  utf8_encode_lem c,
  add_character-of_characters c (encoded c) (encodings cs),
  encodings-append cs (c ∷ []),
)

insert-of_text :
    (c i : ℕ) (cs : List ℕ) → edit (insert c i) (of_text cs) ≡ of_result (edit_text (insert c i) cs)
unfolding edit edit_text of_text encodings insert_character insert_at insert_encoded of_characters
insert-of_text c i cs = ground (
  arith,
  utf8_encode_lem c,
  length-encodings cs,
  length-positions 0 (encodings cs),
  insert_character-of_characters c i (encoded c) (encodings cs),
  take-encodings i cs,
  drop-encodings i cs,
  encodings-append (take i cs) (c ∷ drop i cs),
)

remove_last-of_text :
    (cs : List ℕ) → edit remove_last (of_text cs) ≡ of_result (edit_text remove_last cs)
unfolding edit edit_text of_text remove_last_character remove_last_from of_characters
remove_last-of_text cs = ground (
  arith,
  length-encodings cs,
  length-positions 0 (encodings cs),
  remove_last_character-of_characters (encodings cs),
  take-encodings (length cs - 1) cs,
)

remove-of_text :
    (i : ℕ) (cs : List ℕ) → edit (remove i) (of_text cs) ≡ of_result (edit_text (remove i) cs)
unfolding edit edit_text of_text remove_character remove_from of_characters
remove-of_text i cs = ground (
  arith,
  length-encodings cs,
  length-positions 0 (encodings cs),
  remove_character-of_characters i (encodings cs),
  take-encodings i cs,
  drop-encodings (suc i) cs,
  encodings-append (take i cs) (drop (suc i) cs),
)

edit-of_text : (e : Edit) (cs : List ℕ) → edit e (of_text cs) ≡ of_result (edit_text e cs)
edit-of_text (add c) cs = add-of_text c cs
edit-of_text (insert c i) cs = insert-of_text c i cs
edit-of_text remove_last cs = remove_last-of_text cs
edit-of_text (remove i) cs = remove-of_text i cs
edit-of_text wipe cs =
    unfold edit edit_text of_text encodings clear is_mutable init_as_mutable of_characters concat
      positions in
    refl

-- A sequence of calls, with what each returns.
unfoldable pub edits : List Edit → Password → Password × List Bool
edits [] p = (p, [])
edits (e ∷ es) p =
    let (p', done) = edit e p in let (p'', results) = edits es p' in (p'', done ∷ results)

unfoldable pub edits_text : List Edit → List ℕ → List ℕ × List Bool
edits_text [] cs = (cs, [])
edits_text (e ∷ es) cs =
    let (cs', done) = edit_text e cs in
    let (cs'', results) = edits_text es cs' in (cs'', done ∷ results)

edits-of_text_same :
    (es : List Edit) (cs : List ℕ)
    → edits es (of_text cs) ≡ (of_text (edits_text es cs).0, (edits_text es cs).1)
unfolding edits edits_text
edits-of_text_same [] cs = refl
edits-of_text_same (e ∷ es) cs =
    rw (edit-of_text e cs, edits-of_text_same es (edit_text e cs).0) refl

password_length-of_text : (cs : List ℕ) → password_length (of_text cs) ≡ length cs
unfolding password_length size_of of_text of_characters
password_length-of_text cs = length-positions 0 (encodings cs) ∙ length-encodings cs

-- Whatever calls edit a mutable password that holds a text, each returns what the same edit of the
-- text returns, failures for code points and indexes out of range included, and the password then
-- holds the edited text: its bytes, its positions and, for its length, the number of characters.
pub edits-of_text :
    (es : List Edit) (cs : List ℕ)
    → let (text, results) = edits_text es cs in
      (edits es (of_text cs) ≡ (of_text text, results))
      × (password_length (edits es (of_text cs)).0 ≡ length text)
edits-of_text es cs =
    let same = edits-of_text_same es cs in
    (same, ap (λ r. password_length (r.0)) same ∙ password_length-of_text (edits_text es cs).0)

-- A text of Unicode code points.
abbrev pub IsText : List ℕ → Type 0
IsText = All (λ c. c ≤ 0x10FFFF)

concat-encodings_inj :
    (cs ds : List ℕ)
    → IsText cs
    → IsText ds
    → concat (encodings cs) ≡ concat (encodings ds)
    → cs ≡ ds
unfolding concat encodings
concat-encodings_inj [] [] hc hd e = refl
concat-encodings_inj [] (d ∷ ds) hc hd e =
    absurd (ground (arith, ap is_empty e, encoded-is_empty d (concat (encodings ds))))
concat-encodings_inj (c ∷ cs) [] hc hd e =
    absurd (ground (arith, ap is_empty e, encoded-is_empty c (concat (encodings cs))))
concat-encodings_inj (c ∷ cs) (d ∷ ds) hc hd e =
    let (p, q) =
      encoded-append-inj c d (concat (encodings cs)) (concat (encodings ds)) hc.0 hd.0 e in
    ap (λ t. t ∷ cs) p ∙ ap (λ t. d ∷ t) (concat-encodings_inj cs ds hc.1 hd.1 q)

-- Two passwords that hold texts of Unicode code points are equal, byte by byte, just if the texts
-- are.
pub is_equal_to_password-of_text :
    (cs ds : List ℕ)
    → IsText cs
    → IsText ds
    → (is_equal_to_password (of_text cs) (of_text ds) ≡ true) ↔ (cs ≡ ds)
unfolding is_equal_to_password of_text of_characters
is_equal_to_password-of_text cs ds hc hd = (
  λ e. concat-encodings_inj cs ds hc hd (equal→eq _ _ e),
  λ e. ap (λ t. equal (concat (encodings cs)) (concat (encodings t))) (sym e) ∙ equal_refl _,
)
