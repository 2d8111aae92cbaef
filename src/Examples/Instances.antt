-- ===== src/Examples/Instances.antt =====
-- Instances of the parameters that keep the laws: byte order by digits, an encoding that changes
-- nothing, a cipher that changes nothing, and digests of the right size.
use lime_security_powerauth.Base.{
  ℕ, zero, suc, ◌+◌, ◌*◌, ◌/◌, ◌%◌, ◌^◌, ◌<◌, ◌≡◌, refl, true, [], ◌∷◌, ◌++◌, some, arith, ◌==◌,
  Bytes, length, length-append, length-replicate, replicate,
}
use lime_security_powerauth.Platform.{Cc7, Cc7Laws, OpenSsl, AesLaws, DigestLaws}

unfoldable pub big_endian : ℕ → ℕ → Bytes
big_endian zero v = []
big_endian (suc w) v = big_endian w (v / 256) ++ (v % 256 ∷ [])

unfoldable pub from_digits : Bytes → ℕ → ℕ
from_digits [] n = n
from_digits (b ∷ bs) n = from_digits bs (n * 256 + b)

from_digits-append :
    (xs ys : Bytes) (n : ℕ) → from_digits (xs ++ ys) n ≡ from_digits ys (from_digits xs n)
unfolding from_digits
from_digits-append [] ys n = refl
from_digits-append (x ∷ xs) ys n = from_digits-append xs ys (n * 256 + x)

from_digits-big_endian : (w v : ℕ) → v < 256 ^ w → from_digits (big_endian w v) 0 ≡ v
unfolding from_digits big_endian
from_digits-big_endian zero v h = omega (arith, h)
from_digits-big_endian (suc w) v h = ground (
  arith,
  from_digits-append (big_endian w (v / 256)) (v % 256 ∷ []) 0,
  from_digits-big_endian w (v / 256),
)

length-big_endian : (w v : ℕ) → length (big_endian w v) ≡ w
unfolding big_endian
length-big_endian zero v = refl
length-big_endian (suc w) v =
    ground
      (arith, length-append (big_endian w (v / 256)) (v % 256 ∷ []), length-big_endian w (v / 256))

abbrev pub test_cc : Cc7
test_cc = record {
  to_big_endian = big_endian;
  from_big_endian = λ b. from_digits b 0;
  to_base64 = λ d. d;
  from_base64 = λ d. some d;
}

pub test_cc_laws : Cc7Laws test_cc
test_cc_laws = record {
  length-to_big_endian = length-big_endian;
  from-to_big_endian = from_digits-big_endian;
  from-to_base64 = λ d. refl;
}

abbrev pub test_ssl : OpenSsl
test_ssl = record {
  accepts_encrypt_key = λ k. length k == 16;
  accepts_decrypt_key = λ k. length k == 16;
  cbc_encrypt = λ k iv d. d;
  cbc_decrypt = λ k iv d. d;
  sha256_digest = λ d. replicate 32 7;
  hmac = λ d k. some (replicate 32 9);
  pbkdf2 = λ p s n size. replicate size 1;
  new_key = some (record { point = []; number = [] });
  set_public = λ k b. some (record k { point = b });
  set_private = λ k b. some (record k { number = b });
  public_size = λ k. length k.point;
  public_octets = λ k. k.point;
  private_octets = λ k. k.number;
  group_degree = λ k. 256;
  ecdh = λ k l. some (replicate 32 5);
  ecdsa_verify = λ d s k. true;
  ecdsa_size = λ k. 72;
  ecdsa_sign = λ d k. some (1 ∷ 2 ∷ 3 ∷ []);
}

pub test_aes : AesLaws test_ssl
test_aes = record {
  accepts-encrypt = λ k h. ground (arith, h);
  accepts-decrypt = λ k h. ground (arith, h);
  length-cbc_encrypt = λ k iv d. refl;
  length-cbc_decrypt = λ k iv d. refl;
  decrypt-encrypt = λ k iv d h v e. refl;
  encrypt-decrypt = λ k iv d h v e. refl;
}

pub test_digests : DigestLaws test_ssl
test_digests = record {
  length-sha256_digest = λ d. refl;
  length-hmac = λ d k e. ground (arith, e);
  length-pbkdf2 = λ p s n size. length-replicate size 1;
}
