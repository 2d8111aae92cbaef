-- ===== src/Session/KeyValues/Text.antt =====
-- The text that is signed for a map of keys and values determines the map.
use lime_security_powerauth.Base.{
  ℕ, ◌≡◌, ◌↔◌, refl, sym, ap, ◌∙◌, false, List, [], ◌∷◌, ◌++◌, append_assoc, append-nil, All,
  if-either, arith, Bytes, is_empty,
}
use lime_security_powerauth.Utils.Url.{is_plain, convert_string_to_url_encoded_data}
use lime_security_powerauth.Utils.Url.Injective.{
  IsBytes, IsSeparator, Avoids, Avoids-convert, convert_inj,
}
use lime_security_powerauth.Session.KeyValues.{
  insert_pair, sort_pairs, less, encode_pair, concat_loop, prepare_key_value_map_for_data_signing,
}
use lime_security_powerauth.Session.KeyValues.Lookup.{
  HasDistinctKeys, SameMap, pair_same, same_cons, sort_pairs-SameMap,
}

-- What stands behind the first pair.
behind : List (Bytes × Bytes) → Bytes
behind [] = []
behind (p ∷ rest) = b'&' ∷ (encode_pair p ++ behind rest)

written : List (Bytes × Bytes) → Bytes
unfolding behind
written [] = []
written (p ∷ rest) = encode_pair p ++ behind rest

concat_loop-behind :
    (l : List (Bytes × Bytes)) (r : Bytes) → is_empty r ≡ false → concat_loop l r ≡ r ++ behind l
unfolding concat_loop behind
concat_loop-behind [] r h = sym (append-nil r)
concat_loop-behind (p ∷ rest) [] h = absurd (ground (arith, h))
concat_loop-behind (p ∷ rest) (c ∷ r) h =
    concat_loop-behind rest (((c ∷ r) ++ b'&' ∷ []) ++ encode_pair p) refl
    ∙ append_assoc ((c ∷ r) ++ b'&' ∷ []) (encode_pair p) (behind rest)
    ∙ append_assoc (c ∷ r) (b'&' ∷ []) (encode_pair p ++ behind rest)

append-is_empty : (xs ys : Bytes) (c : ℕ) → is_empty (xs ++ c ∷ ys) ≡ false
append-is_empty [] ys c = refl
append-is_empty (x ∷ xs) ys c = refl

concat_loop-written : (l : List (Bytes × Bytes)) → concat_loop l [] ≡ written l
unfolding concat_loop written encode_pair
concat_loop-written [] = refl
concat_loop-written (p ∷ rest) = concat_loop-behind rest (encode_pair p) (
    append-is_empty (convert_string_to_url_encoded_data p.0)
      (convert_string_to_url_encoded_data p.1) b'=')

-- Texts without a separator, and what begins with it or is empty.
Starts : ℕ → Bytes → Type 0
Starts sep [] = Unit {0}
Starts sep (c ∷ rest) = c ≡ sep

break_inj :
    (sep : ℕ) (xs ys t u : Bytes)
    → Avoids sep xs
    → Avoids sep ys
    → Starts sep t
    → Starts sep u
    → xs ++ t ≡ ys ++ u
    → (xs ≡ ys) × (t ≡ u)
unfolding Starts
break_inj sep [] [] t u ax ay st su e = (refl, e)
break_inj sep [] (y ∷ ys) [] u ax ay st su e = absurd (ground (arith, e))
break_inj sep [] (y ∷ ys) (c ∷ t) u ax ay st su e = absurd (ay.0 (ground (arith, e, st)))
break_inj sep (x ∷ xs) [] t [] ax ay st su e = absurd (ground (arith, e))
break_inj sep (x ∷ xs) [] t (c ∷ u) ax ay st su e = absurd (ax.0 (ground (arith, e, su)))
break_inj sep (x ∷ xs) (y ∷ ys) t u ax ay st su e =
    let h : x ≡ y = ground (arith, e) in
    let (p, q) = break_inj sep xs ys t u ax.1 ay.1 st su (ground (arith, e)) in
    (ap (λ z. z ∷ xs) h ∙ ap (λ z. y ∷ z) p, q)

equals_sign : IsSeparator b'='
unfolding is_plain
equals_sign = record {
  not_plain = refl;
  not_space = λ e. absurd (omega (arith, e));
  not_percent = λ e. absurd (omega (arith, e));
}

ampersand : IsSeparator b'&'
unfolding is_plain
ampersand = record {
  not_plain = refl;
  not_space = λ e. absurd (omega (arith, e));
  not_percent = λ e. absurd (omega (arith, e));
}

-- Both parts of a pair are strings of bytes.
abbrev pub IsPair : Bytes × Bytes → Type 0
IsPair p = IsBytes p.0 × IsBytes p.1

Starts-behind : (l : List (Bytes × Bytes)) → Starts b'&' (behind l)
unfolding behind Starts
Starts-behind [] = tt
Starts-behind (p ∷ l) = refl

tail_same : {a : ℕ} {xs ys : Bytes} → a ∷ xs ≡ a ∷ ys → xs ≡ ys
tail_same e = ground (arith, e)

encode_pair-append_inj :
    (p q : Bytes × Bytes) (l m : List (Bytes × Bytes))
    → IsPair p
    → IsPair q
    → encode_pair p ++ behind l ≡ encode_pair q ++ behind m
    → (p ≡ q) × (behind l ≡ behind m)
unfolding encode_pair Starts
encode_pair-append_inj p q l m (pk, pv) (qk, qv) e =
    let key = convert_string_to_url_encoded_data in
    let (k, e') =
      break_inj b'=' (key p.0) (key q.0) (b'=' ∷ (key p.1 ++ behind l))
        (b'=' ∷ (key q.1 ++ behind m)) (Avoids-convert b'=' equals_sign p.0)
        (Avoids-convert b'=' equals_sign q.0) refl refl
        (sym (append_assoc (key p.0) (b'=' ∷ key p.1) (behind l))
          ∙ e
          ∙ append_assoc (key q.0) (b'=' ∷ key q.1) (behind m)) in
    let (v, rest) =
      break_inj b'&' (key p.1) (key q.1) (behind l) (behind m) (Avoids-convert b'&' ampersand p.1)
        (Avoids-convert b'&' ampersand q.1) (Starts-behind l) (Starts-behind m) (tail_same e') in
    (pair_same (convert_inj p.0 q.0 pk qk k) (convert_inj p.1 q.1 pv qv v), rest)

behind_inj :
    (l m : List (Bytes × Bytes)) → All IsPair l → All IsPair m → behind l ≡ behind m → l ≡ m
unfolding behind
behind_inj [] [] al am e = refl
behind_inj [] (q ∷ m) al am e = absurd (ground (arith, e))
behind_inj (p ∷ l) [] al am e = absurd (ground (arith, e))
behind_inj (p ∷ l) (q ∷ m) (ap', al) (aq, am) e =
    let (h, t) = encode_pair-append_inj p q l m ap' aq (tail_same e) in
    same_cons h (behind_inj l m al am t)

encode_pair-is_empty : (p : Bytes × Bytes) (r : Bytes) → is_empty (encode_pair p ++ r) ≡ false
unfolding encode_pair
encode_pair-is_empty p r =
    let key = convert_string_to_url_encoded_data in
    ap is_empty (append_assoc (key p.0) (b'=' ∷ key p.1) r)
    ∙ append-is_empty (key p.0) (key p.1 ++ r) b'='

written_inj :
    (l m : List (Bytes × Bytes)) → All IsPair l → All IsPair m → written l ≡ written m → l ≡ m
unfolding written encode_pair
written_inj [] [] al am e = refl
written_inj [] (q ∷ m) al am e =
    absurd (ground (arith, ap is_empty e, encode_pair-is_empty q (behind m)))
written_inj (p ∷ l) [] al am e =
    absurd (ground (arith, ap is_empty e, encode_pair-is_empty p (behind l)))
written_inj (p ∷ l) (q ∷ m) (ap', al) (aq, am) e =
    let (h, t) = encode_pair-append_inj p q l m ap' aq e in same_cons h (behind_inj l m al am t)

All-insert_pair :
    (p : Bytes × Bytes) (l : List (Bytes × Bytes))
    → IsPair p
    → All IsPair l
    → All IsPair (insert_pair p l)
unfolding insert_pair
All-insert_pair p [] h a = (h, tt)
All-insert_pair p (q ∷ rest) h (hq, a) =
    if-either (All IsPair) (less q.0 p.0) (hq, All-insert_pair p rest h a) (h, (hq, a))

All-sort_pairs : (l : List (Bytes × Bytes)) → All IsPair l → All IsPair (sort_pairs l)
unfolding sort_pairs
All-sort_pairs [] a = tt
All-sort_pairs (p ∷ rest) (h, a) = All-insert_pair p (sort_pairs rest) h (All-sort_pairs rest a)

-- Two listings of keys and values, each without a key twice, are written as the same bytes for
-- signing just if they are listings of the same map: the order of the listing does not matter, and
-- no two maps are confused, whatever bytes their keys and values are made of.
pub prepare-SameMap :
    (l m : List (Bytes × Bytes))
    → HasDistinctKeys l
    → HasDistinctKeys m
    → All IsPair l
    → All IsPair m
    → (prepare_key_value_map_for_data_signing l ≡ prepare_key_value_map_for_data_signing m)
      ↔ SameMap l m
unfolding prepare_key_value_map_for_data_signing
prepare-SameMap l m dl dm al am =
    let sorted = sort_pairs-SameMap l m dl dm in
    (
      λ e. sorted.0 (
          written_inj (sort_pairs l) (sort_pairs m) (All-sort_pairs l al) (All-sort_pairs m am)
            (sym (concat_loop-written (sort_pairs l)) ∙ e ∙ concat_loop-written (sort_pairs m))),
      λ same. ap (λ s. concat_loop s []) (sorted.1 same),
    )
