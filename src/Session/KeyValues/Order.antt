-- ===== src/Session/KeyValues/Order.antt =====
-- The order of keys is strict and total.
use lime_security_powerauth.Base.{◌≡◌, refl, true, false, [], ◌∷◌, arith, Bytes, equal}
use lime_security_powerauth.Session.KeyValues.{less}

pub less_irrefl : (a : Bytes) → less a a ≡ false
unfolding less
less_irrefl [] = refl
less_irrefl (x ∷ a) = ground (arith, less_irrefl a)

pub less_trans : (a b c : Bytes) → less a b ≡ true → less b c ≡ true → less a c ≡ true
unfolding less
less_trans [] [] c h k = absurd (ground (arith, h))
less_trans [] (y ∷ b) [] h k = absurd (ground (arith, k))
less_trans [] (y ∷ b) (z ∷ c) h k = refl
less_trans (x ∷ a) [] c h k = absurd (ground (arith, h))
less_trans (x ∷ a) (y ∷ b) [] h k = absurd (ground (arith, k))
less_trans (x ∷ a) (y ∷ b) (z ∷ c) h k = ground (arith, less_trans a b c)

pub less_total : (a b : Bytes) → less a b ≡ false → less b a ≡ false → a ≡ b
unfolding less
less_total [] [] h k = refl
less_total [] (y ∷ b) h k = absurd (ground (arith, h))
less_total (x ∷ a) [] h k = absurd (ground (arith, k))
less_total (x ∷ a) (y ∷ b) h k = ground (arith, less_total a b)

-- A smaller key is another key.
pub less-equal : (a b : Bytes) → less a b ≡ true → equal b a ≡ false
unfolding less equal
less-equal [] [] h = absurd (ground (arith, h))
less-equal [] (y ∷ b) h = refl
less-equal (x ∷ a) [] h = absurd (ground (arith, h))
less-equal (x ∷ a) (y ∷ b) h = ground (arith, less-equal a b)
