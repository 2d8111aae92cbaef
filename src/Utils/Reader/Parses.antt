-- ===== src/Utils/Reader/Parses.antt =====
-- Reading from a known front of the bytes: each operation takes what the writer lays out for it.
use lime_security_powerauth.Base.{
  ℕ, ◌+◌, ◌-◌, ◌*◌, ◌/◌, ◌%◌, ◌^◌, ◌≤◌, ◌<◌, ◌≡◌, refl, sym, ap, subst, ◌⊎◌, ◌&&◌, ◌∙◌, bit_or,
  List, [], ◌∷◌, ◌++◌, append_assoc, append-nil, Bool-cases, inl, inr, some, arith, tests, leb,
  ◌==◌, if◌then◌else◌, Bytes, length, length-append, length-drop, take, take-append, drop,
  drop-append, drop-add, get_elem?-drop,
}
use lime_security_powerauth.Base.Bits.{bit_and-ones, bit_and_c0, bit_or-shift}
use lime_security_powerauth.Platform.{Cc7, Cc7Laws}
use lime_security_powerauth.Utils.Reader.{
  DataReader, Read, pure, ◌>>=◌, read_memory, read_byte, read_count, read_data, read_string,
  read_u16, read_u32, push_version, fail, read_u64, open_version, close_version, sized, count_from,
  long_count, two_byte_count, four_byte_count,
}
use lime_security_powerauth.Utils.Writer.{max_count}
use lime_security_powerauth.Utils.Writer.Layout.{count_bytes, data_bytes}

-- `r` after taking `n` bytes, with the versions `s`.
abbrev pub past : ℕ → List ℕ → DataReader → DataReader
past n s r = record { bytes = r.bytes; offset = r.offset + n; version_stack = s }

-- From the versions `s`, `m` takes exactly `bs`, returns `a` and leaves the versions `s'`.
pub record Parses {A : Type 0} (m : Read A) (bs : Bytes) (a : A) (s s' : List ℕ) : Type 0 where
  pub at :
      (r : DataReader) (rest : Bytes)
      → drop r.offset r.bytes ≡ bs ++ rest
      → r.version_stack ≡ s
      → m r ≡ (some a, past (length bs) s' r)

rest_size :
    (r : DataReader) (bs rest : Bytes)
    → drop r.offset r.bytes ≡ bs ++ rest
    → length r.bytes - r.offset ≡ length bs + length rest
rest_size r bs rest h = sym (length-drop r.offset r.bytes) ∙ ap length h ∙ length-append bs rest

rest_past :
    (r : DataReader) (bs rest : Bytes) (s : List ℕ)
    → drop r.offset r.bytes ≡ bs ++ rest
    → drop (past (length bs) s r).offset (past (length bs) s r).bytes ≡ rest
rest_past r bs rest s h =
    drop-add r.offset (length bs) r.bytes ∙ ap (drop (length bs)) h ∙ drop-append bs rest

module _ {A B : Type 0} where
  pub Parses-bind :
      (m : Read A) (f : A → Read B) (bs cs : Bytes) {a : A} {b : B} (s s' s'' : List ℕ)
      → Parses m bs a s s'
      → Parses (f a) cs b s' s''
      → Parses (m >>= f) (bs ++ cs) b s s''
  Parses-bind m f bs cs {a} {b} s s' s'' p q = record {
    at = λ r rest h hs. rw (p.at r (cs ++ rest) (h ∙ append_assoc bs cs rest) hs) (
        q.at (past (length bs) s' r) rest
          (rest_past r bs (cs ++ rest) s' (h ∙ append_assoc bs cs rest)) refl
        ∙ ground (arith, length-append bs cs));
  }

pub Parses-pure : {A : Type 0} (a : A) (s : List ℕ) → Parses (pure a) [] a s s
unfolding pure
Parses-pure a s = record { at = λ r rest h hs. ground arith }

pub Parses-map :
    {A B : Type 0} (m : Read A) (f : A → B) (bs : Bytes) {a : A} {v : B} (s s' : List ℕ)
    → Parses m bs a s s'
    → f a ≡ v
    → Parses (m >>= λ t. pure (f t)) bs v s s'
Parses-map m f bs {a} {v} s s' p e = rw append-nil at (
    Parses-bind m (λ t. pure (f t)) bs [] s s' s' p
      (subst (λ x. Parses (pure x) [] v s' s') (sym e) (Parses-pure v s')))

pub Parses-read_byte : (b : ℕ) (s : List ℕ) → Parses read_byte (b ∷ []) b s s
unfolding read_byte
Parses-read_byte b s = record {
  at = λ r rest h hs.
      ground (arith, rest_size r (b ∷ []) rest h, get_elem?-drop r.offset r.bytes rest b h);
}

pub Parses-read_memory :
    (n : ℕ) (bs : Bytes) (s : List ℕ) → length bs ≡ n → Parses (read_memory n) bs bs s s
unfolding read_memory
Parses-read_memory n bs s e = record {
  at = λ r rest h hs. ground (arith, rest_size r bs rest h, taken r rest h);
}
  where
    taken :
        (r : DataReader) (rest : Bytes)
        → drop r.offset r.bytes ≡ bs ++ rest
        → take n (drop r.offset r.bytes) ≡ bs
    taken r rest h = rw (h, ← e) (take-append bs rest)

abbrev BitField : ℕ → ℕ → ℕ → ℕ → Type 0
BitField k q x r = x ≡ q * 2 ^ k → r < 2 ^ k → bit_or x r ≡ x + r

bit_or-field : (k q x r : ℕ) → BitField k q x r
bit_or-field k q x r e h = rw e (bit_or-shift k q r h)

two_byte_count_lem : (q r : ℕ) → q < 64 → r < 256 → two_byte_count (q + 0x80) (r ∷ []) ≡ q * 256 + r
unfolding two_byte_count
two_byte_count_lem q r hq hr =
    ground (arith, bit_and-ones 6 0x3F (q + 0x80) refl, bit_or-shift 8 q r)

four_byte_count_lem :
    (q b c d : ℕ)
    → q < 64
    → b < 256
    → c < 256
    → d < 256
    → four_byte_count (q + 0xC0) (b ∷ c ∷ d ∷ []) ≡ q * 16777216 + b * 65536 + c * 256 + d
unfolding four_byte_count
four_byte_count_lem q b c d hq hb hc hd = ground (
  arith,
  bit_and-ones 6 0x3F (q + 0xC0) refl,
  bit_or-field 24 q (q * 16777216) (b * 65536),
  bit_or-field 16 (q * 256 + b) (q * 16777216 + b * 65536) (c * 256),
  bit_or-field 8 (q * 65536 + b * 256 + c) (q * 16777216 + b * 65536 + c * 256) d,
)

pub Parses-eq :
    {A : Type 0} {m m' : Read A} {bs : Bytes} {a : A} {s s' : List ℕ}
    → m ≡ m'
    → Parses m' bs a s s'
    → Parses m bs a s s'
Parses-eq e p = rw e p

Parses-count_short : (n : ℕ) (s : List ℕ) → n < 128 → Parses (count_from n) [] n s s
Parses-count_short n s h = Parses-eq short (Parses-pure n s)
  where
    short : count_from n ≡ pure n
    short = unfold count_from in ground (arith, bit_and_c0 n)

Parses-long_two :
    (q r : ℕ) (s : List ℕ)
    → q < 64
    → r < 256
    → Parses (count_from (q + 0x80)) (r ∷ []) (q * 256 + r) s s
Parses-long_two q r s hq hr = Parses-eq two (
    Parses-map (read_memory 1) (two_byte_count (q + 0x80)) (r ∷ []) s s
      (Parses-read_memory 1 (r ∷ []) s refl) (two_byte_count_lem q r hq hr))
  where
    two : count_from (q + 0x80) ≡ (read_memory 1 >>= λ t. pure (two_byte_count (q + 0x80) t))
    two = unfold count_from long_count in ground (arith, bit_and_c0 (q + 0x80))

Parses-long_four :
    (q b c d : ℕ) (s : List ℕ)
    → q < 64
    → b < 256
    → c < 256
    → d < 256
    → Parses (count_from (q + 0xC0)) (b ∷ c ∷ d ∷ []) (q * 16777216 + b * 65536 + c * 256 + d) s s
Parses-long_four q b c d s hq hb hc hd = Parses-eq four (
    Parses-map (read_memory 3) (four_byte_count (q + 0xC0)) (b ∷ c ∷ d ∷ []) s s
      (Parses-read_memory 3 (b ∷ c ∷ d ∷ []) s refl) (four_byte_count_lem q b c d hq hb hc hd))
  where
    four : count_from (q + 0xC0) ≡ (read_memory 3 >>= λ t. pure (four_byte_count (q + 0xC0) t))
    four = unfold count_from long_count in ground (arith, bit_and_c0 (q + 0xC0))

Parses-count :
    (b v n : ℕ) (bs : Bytes) (s : List ℕ)
    → v ≡ n
    → Parses (count_from b) bs v s s
    → Parses read_count (b ∷ bs) n s s
unfolding read_count
Parses-count b v n bs s e p =
    subst (λ x. Parses (read_byte >>= count_from) (b ∷ bs) x s s) e
      (Parses-bind read_byte count_from (b ∷ []) bs s s s (Parses-read_byte b s) p)

Parses-sized :
    (expected_size : ℕ) (d : Bytes) (s : List ℕ)
    → (expected_size ≡ 0) ⊎ (expected_size ≡ length d)
    → Parses (sized expected_size (length d)) d d s s
unfolding sized
Parses-sized expected_size d s size = record {
  at = λ r rest h hs. ground (arith, rest_size r d rest h, taken r rest h);
}
  where
    taken :
        (r : DataReader) (rest : Bytes)
        → drop r.offset r.bytes ≡ d ++ rest
        → take (length d) (drop r.offset r.bytes) ≡ d
    taken r rest h = rw h (take-append d rest)

Parses-four :
    (n : ℕ) (s : List ℕ)
    → n ≤ max_count
    → Parses
        (count_from (n / 16777216 + 0xC0))
        (n / 65536 % 256 ∷ n / 256 % 256 ∷ n % 256 ∷ [])
        (n / 16777216 * 16777216 + n / 65536 % 256 * 65536 + n / 256 % 256 * 256 + n % 256)
        s
        s
Parses-four n s h =
    Parses-long_four (n / 16777216) (n / 65536 % 256) (n / 256 % 256) (n % 256) s (omega arith)
      (omega arith) (omega arith) (omega arith)

pub Parses-read_count :
    (n : ℕ) (s : List ℕ) → n ≤ max_count → Parses read_count (count_bytes n) n s s
unfolding count_bytes
Parses-read_count n s h = elim (Bool-cases (leb n 0x7F)) [
  | inl short ↦ rw short (Parses-count n n n [] s refl (Parses-count_short n s (omega tests)))
  | inr more ↦ rw more (elim (Bool-cases (leb n 0x3FFF)) [
    | inl two ↦ rw two (
        Parses-count _ _ n _ s (omega arith)
          (Parses-long_two (n / 256) (n % 256) s (omega tests) (omega arith)))
    | inr four ↦ rw four (Parses-count _ _ n _ s (omega arith) (Parses-four n s h))
  ])
]

pub Parses-read_data :
    (expected_size : ℕ) (d : Bytes) (s : List ℕ)
    → length d ≤ max_count
    → (expected_size ≡ 0) ⊎ (expected_size ≡ length d)
    → Parses (read_data expected_size) (data_bytes d) d s s
unfolding read_data data_bytes
Parses-read_data expected_size d s h size =
    Parses-bind read_count (sized expected_size) (count_bytes (length d)) d s s s
      (Parses-read_count (length d) s h) (Parses-sized expected_size d s size)

pub Parses-read_string :
    (d : Bytes) (s : List ℕ) → length d ≤ max_count → Parses read_string (data_bytes d) d s s
unfolding read_string data_bytes
Parses-read_string d s h =
    Parses-bind read_count read_memory (count_bytes (length d)) d s s s
      (Parses-read_count (length d) s h) (Parses-read_memory (length d) d s refl)

module _ ⦃cc : Cc7⦄ (laws : Cc7Laws cc) where
  pub Parses-read_u16 :
      (v : ℕ) (s : List ℕ) → v < 2 ^ 16 → Parses read_u16 (cc.to_big_endian 2 v) v s s
  unfolding read_u16
  Parses-read_u16 v s h =
      Parses-map (read_memory 2) cc.from_big_endian (cc.to_big_endian 2 v) s s
        (Parses-read_memory 2 _ s (laws.length-to_big_endian 2 v))
        (laws.from-to_big_endian 2 v (omega arith))

  pub Parses-read_u32 :
      (v : ℕ) (s : List ℕ) → v < 2 ^ 32 → Parses read_u32 (cc.to_big_endian 4 v) v s s
  unfolding read_u32
  Parses-read_u32 v s h =
      Parses-map (read_memory 4) cc.from_big_endian (cc.to_big_endian 4 v) s s
        (Parses-read_memory 4 _ s (laws.length-to_big_endian 4 v))
        (laws.from-to_big_endian 4 v (omega arith))

  pub Parses-read_u64 :
      (v : ℕ) (s : List ℕ) → v < 2 ^ 64 → Parses read_u64 (cc.to_big_endian 8 v) v s s
  unfolding read_u64
  Parses-read_u64 v s h =
      Parses-map (read_memory 8) cc.from_big_endian (cc.to_big_endian 8 v) s s
        (Parses-read_memory 8 _ s (laws.length-to_big_endian 8 v))
        (laws.from-to_big_endian 8 v (omega arith))

Parses-push_version : (v : ℕ) (s : List ℕ) → Parses (push_version v) [] tt s (v ∷ s)
unfolding push_version
Parses-push_version v s = record { at = λ r rest h hs. ground arith }

pub Parses-open_version :
    (tag min_supported v : ℕ) (s : List ℕ)
    → min_supported ≤ v
    → v < 256
    → Parses (open_version tag min_supported) (tag ∷ v ∷ []) tt s ((tag * 256 + v) ∷ s)
unfolding open_version
Parses-open_version tag min_supported v s h hv =
    Parses-bind read_byte _ (tag ∷ []) (v ∷ []) s s _ (Parses-read_byte tag s) (
      Parses-bind read_byte _ (v ∷ []) [] s s _ (Parses-read_byte v s)
        (Parses-eq opened (Parses-push_version _ s)))
  where
    opened :
        (if (tag == tag) && leb min_supported v
          then push_version (bit_or (tag * 2 ^ 8) v)
          else fail)
        ≡ push_version (tag * 256 + v)
    opened = ground (arith, bit_or-shift 8 tag v)

pub Parses-close_version : (v : ℕ) (s : List ℕ) → Parses close_version [] tt (v ∷ s) s
unfolding close_version
Parses-close_version v s = record { at = λ r rest h hs. ground arith }
