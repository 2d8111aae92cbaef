-- ===== src/Utils/Reader/Moves.antt =====
-- No read leaves the bytes: the offset only grows, and never passes the size.
use lime_security_powerauth.Base.{
  ℕ, ◌≤◌, ◌≡◌, refl, ◌∙◌, List, [], ◌∷◌, Bool, true, false, Option, none, some, arith,
  if◌then◌else◌, length,
}
use lime_security_powerauth.Platform.{Cc7}
use lime_security_powerauth.Utils.Reader.{
  DataReader, Read, pure, fail, ◌>>=◌, skip_bytes, read_memory, read_byte, read_count, count_from,
  long_count, sized, read_range, read_memory_range, read_data, read_string, read_u16, read_u32,
  read_u64, open_version, push_version, close_version, pop_version, continue,
}

abbrev pub IsWithin : DataReader → Type 0
IsWithin r = r.offset ≤ length r.bytes

-- From inside its bytes `m` stays inside, moves forward or not at all, and keeps the bytes.
pub record Moves {ℓ} {A : Type ℓ} (m : Read A) : Type ℓ where
  pub within : (r : DataReader) → IsWithin r → IsWithin (m r).1
  pub forward : (r : DataReader) → IsWithin r → r.offset ≤ (m r).1.offset
  pub same_bytes : (r : DataReader) → (m r).1.bytes ≡ r.bytes

module _ {ℓ} {A : Type ℓ} where
  Moves-pure : (a : A) → Moves (pure a)
  unfolding pure
  Moves-pure a = record { within = λ r h. h; forward = λ r h. omega arith; same_bytes = λ r. refl }

  Moves-fail : Moves (fail {A = A})
  unfolding fail
  Moves-fail = record { within = λ r h. h; forward = λ r h. omega arith; same_bytes = λ r. refl }

  Moves-if : (b : Bool) (m n : Read A) → Moves m → Moves n → Moves (if b then m else n)
  Moves-if true m n p q = p
  Moves-if false m n p q = q

module _ {ℓ κ} {A : Type ℓ} {B : Type κ} (m : Read A) (f : A → Read B) (p : Moves m)
    (q : (a : A) → Moves (f a)) where
  IsWithin-bind :
      (r : DataReader) (x : Option A × DataReader) → IsWithin x.1 → IsWithin (continue x.0 f x.1).1
  IsWithin-bind r (none, r') h = h
  IsWithin-bind r (some a, r') h = (q a).within r' h

  forward_bind :
      (r : DataReader) (x : Option A × DataReader)
      → IsWithin x.1
      → r.offset ≤ x.1.offset
      → r.offset ≤ (continue x.0 f x.1).1.offset
  forward_bind r (none, r') w h = h
  forward_bind r (some a, r') w h = omega (arith, (q a).forward r' w)

  bytes_bind :
      (r : DataReader) (x : Option A × DataReader)
      → x.1.bytes ≡ r.bytes
      → (continue x.0 f x.1).1.bytes ≡ r.bytes
  bytes_bind r (none, r') h = h
  bytes_bind r (some a, r') h = (q a).same_bytes r' ∙ h

  Moves-bind : Moves (m >>= f)
  Moves-bind = record {
    within = λ r h. IsWithin-bind r (m r) (p.within r h);
    forward = λ r h. forward_bind r (m r) (p.within r h) (p.forward r h);
    same_bytes = λ r. bytes_bind r (m r) (p.same_bytes r);
  }

Moves-read_byte : Moves read_byte
unfolding read_byte
Moves-read_byte = record {
  within = λ r h. ground arith;
  forward = λ r h. ground arith;
  same_bytes = λ r. ground arith;
}

Moves-read_memory : (n : ℕ) → Moves (read_memory n)
unfolding read_memory
Moves-read_memory n = record {
  within = λ r h. ground arith;
  forward = λ r h. ground arith;
  same_bytes = λ r. ground arith;
}

Moves-skip_bytes : (n : ℕ) → Moves (skip_bytes n)
unfolding skip_bytes
Moves-skip_bytes n = record {
  within = λ r h. ground arith;
  forward = λ r h. ground arith;
  same_bytes = λ r. ground arith;
}

Moves-sized : (e n : ℕ) → Moves (sized e n)
unfolding sized
Moves-sized e n = record {
  within = λ r h. ground arith;
  forward = λ r h. ground arith;
  same_bytes = λ r. ground arith;
}

Moves-long_count : (b : ℕ) → Moves (long_count b)
unfolding long_count
Moves-long_count b = Moves-bind (read_memory _) _ (Moves-read_memory _) (λ t. Moves-pure _)

Moves-read_count : Moves read_count
unfolding read_count
Moves-read_count =
    Moves-bind read_byte count_from Moves-read_byte
      (λ b. unfold count_from in Moves-if _ _ _ (Moves-pure b) (Moves-long_count b))

Moves-push_version : (v : ℕ) → Moves (push_version v)
unfolding push_version
Moves-push_version v = record {
  within = λ r h. h;
  forward = λ r h. omega arith;
  same_bytes = λ r. refl;
}

Moves-open_version : (tag v : ℕ) → Moves (open_version tag v)
unfolding open_version
Moves-open_version tag v = Moves-bind read_byte _ Moves-read_byte λ t.
    Moves-bind read_byte _ Moves-read_byte λ u. Moves-if _ _ _ (Moves-push_version _) Moves-fail

popped-IsWithin : (s : List ℕ) (r : DataReader) → IsWithin r → IsWithin (pop_version s r).1
unfolding pop_version
popped-IsWithin [] r h = h
popped-IsWithin (v ∷ vs) r h = h

popped_forward : (s : List ℕ) (r : DataReader) → r.offset ≤ (pop_version s r).1.offset
unfolding pop_version
popped_forward [] r = omega arith
popped_forward (v ∷ vs) r = omega arith

popped_bytes : (s : List ℕ) (r : DataReader) → (pop_version s r).1.bytes ≡ r.bytes
unfolding pop_version
popped_bytes [] r = refl
popped_bytes (v ∷ vs) r = refl

Moves-close_version : Moves close_version
unfolding close_version
Moves-close_version = record {
  within = λ r h. popped-IsWithin r.version_stack r h;
  forward = λ r h. popped_forward r.version_stack r;
  same_bytes = λ r. popped_bytes r.version_stack r;
}

module _ ⦃cc : Cc7⦄ where
  -- Every read, of any size and whatever the bytes are, keeps the bytes, does not move back, and
  -- leaves the offset within the bytes if it was there.
  pub reads-Moves :
      (n tag v : ℕ)
      → Moves read_byte
        × Moves (read_memory n)
        × Moves (skip_bytes n)
        × Moves read_count
        × Moves (read_data n)
        × Moves read_string
        × Moves (read_range n)
        × Moves (read_memory_range n)
        × Moves read_u16
        × Moves read_u32
        × Moves read_u64
        × Moves (open_version tag v)
        × Moves close_version
  unfolding read_data read_range read_memory_range read_memory read_string read_u16 read_u32
      read_u64
  reads-Moves n tag v = (
    Moves-read_byte,
    Moves-read_memory n,
    Moves-skip_bytes n,
    Moves-read_count,
    Moves-bind read_count (sized n) Moves-read_count (Moves-sized n),
    Moves-bind read_count read_memory Moves-read_count Moves-read_memory,
    Moves-bind read_count (sized n) Moves-read_count (Moves-sized n),
    Moves-read_memory n,
    Moves-bind (read_memory 2) _ (Moves-read_memory 2) (λ t. Moves-pure _),
    Moves-bind (read_memory 4) _ (Moves-read_memory 4) (λ t. Moves-pure _),
    Moves-bind (read_memory 8) _ (Moves-read_memory 8) (λ t. Moves-pure _),
    Moves-open_version tag v,
    Moves-close_version,
  )
