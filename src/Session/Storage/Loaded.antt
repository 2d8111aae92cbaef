-- ===== src/Session/Storage/Loaded.antt =====
-- Data that are loaded have passed the validation.
use lime_security_powerauth.Base.{
  ◌≡◌, refl, Option, none, some, Bytes, arith, bit_and, ◌==◌, if◌then◌else◌, if-cases, if-either,
  subst,
}
use lime_security_powerauth.Platform.{Cc7}
use lime_security_powerauth.Protocol.Constants.{pbkdf2_salt_size, signature_key_size}
use lime_security_powerauth.Protocol.Persistence.{deserialize_persistent_data, pd_version}
use lime_security_powerauth.Protocol.Types.{PersistentData}
use lime_security_powerauth.Protocol.Validation.{validate_persistent_data}
use lime_security_powerauth.Session.{Session, commit_new_persistent_state}
use lime_security_powerauth.Protocol.Validation.Whole.{
  IsStored, IsWhole, IsWhole-validate_persistent_data,
}
use lime_security_powerauth.Session.Storage.{
  load_session_state, load_result, read_state, read_data_if, has_persistent_data, data_tag,
  data_ver,
}
use lime_security_powerauth.Utils.Reader.{
  DataReader, Read, reader, continue, pure, fail, ◌>>=◌, ◌>>◌, read_byte, read_u32, read_u64,
  read_data, read_string,
}
use lime_security_powerauth.Utils.Reader

-- Whatever `m` gives has `P`.
abbrev pub Yields : {A : Type 0} → (A → Type 0) → Read A → Type 0
Yields {A} P m = (r : DataReader) (a : A) → (m r).0 ≡ some a → P a

some_inj : {A : Type 0} {x y : A} → some x ≡ some y → x ≡ y
some_inj h = ground (arith, h)

Yields-bind_of :
    {A B : Type 0} (Q : A → Type 0) (P : B → Type 0) (m : Read A) (f : A → Read B)
    → Yields Q m
    → ((a : A) → Q a → Yields P (f a))
    → Yields P (m >>= f)
Yields-bind_of {A} Q P m f g h r b e = go (m r).0 refl e
  where
    go : (o : Option A) → (m r).0 ≡ o → (continue o f (m r).1).0 ≡ some b → P b
    go none k e = absurd (ground (arith, e))
    go (some a) k e = h a (g r a k) (m r).1 b e

Yields-bind :
    {A B : Type 0} (P : B → Type 0) (m : Read A) (f : A → Read B)
    → ((a : A) → Yields P (f a))
    → Yields P (m >>= f)
Yields-bind P m f h = Yields-bind_of (λ a. Unit {0}) P m f (λ r a e. tt) (λ a q. h a)

Yields-pure : {A : Type 0} (P : A → Type 0) (a : A) → P a → Yields P (pure a)
unfolding pure
Yields-pure P a p r b e = subst P (some_inj e) p

Yields-fail : {A : Type 0} (P : A → Type 0) → Yields P fail
unfolding fail
Yields-fail P r a e = absurd (ground (arith, e))

module _ ⦃cc : Cc7⦄ where
  Yields-validated :
      (pd : PersistentData) → Yields IsWhole (if validate_persistent_data pd then pure pd else fail)
  Yields-validated pd =
      if-cases (Yields IsWhole) (validate_persistent_data pd)
        (λ v. Yields-pure IsWhole pd (IsWhole-validate_persistent_data pd v))
        (λ v. Yields-fail IsWhole)

  Yields-deserialize_persistent_data : Yields IsWhole deserialize_persistent_data
  unfolding deserialize_persistent_data
  Yields-deserialize_persistent_data =
      Yields-bind IsWhole (Reader.open_version b'P' pd_version) _ λ opened.
        Yields-bind IsWhole read_u64 _ λ signature_counter.
          Yields-bind IsWhole read_string _ λ activation_id.
            Yields-bind IsWhole read_u32 _ λ password_iterations.
              Yields-bind IsWhole (read_data pbkdf2_salt_size) _ λ password_salt.
                Yields-bind IsWhole (read_data signature_key_size) _ λ possession_key.
                  Yields-bind IsWhole (read_data signature_key_size) _ λ knowledge_key.
                    Yields-bind IsWhole (read_data 0) _ λ biometry_key.
                      Yields-bind IsWhole (read_data signature_key_size) _ λ transport_key.
                        Yields-bind IsWhole (read_data 0) _ λ server_public_key.
                          Yields-bind IsWhole (read_data 0) _ λ device_public_key.
                            Yields-bind IsWhole (read_data 0) _ λ c_device_private_key.
                              Yields-bind IsWhole read_u32 _ λ flags_u32.
                                Yields-bind IsWhole Reader.close_version _
                                  λ closed. Yields-validated _

  pub Yields-read_state : Yields IsStored read_state
  unfolding read_state read_data_if
  Yields-read_state = Yields-bind IsStored (Reader.open_version data_tag data_ver) _ λ opened.
      Yields-bind IsStored read_byte _ λ flags.
        if-either (Yields IsStored) (bit_and flags has_persistent_data == 0)
          (Yields-pure IsStored none tt)
          (Yields-bind_of IsWhole IsStored deserialize_persistent_data (λ pd. pure (some pd))
            Yields-deserialize_persistent_data (λ pd w. Yields-pure IsStored (some pd) w))

  pub IsStored-load_session_state :
      (b : Bytes) (s : Session) → IsStored (load_session_state b s).0.pd
  unfolding load_session_state load_result commit_new_persistent_state
  IsStored-load_session_state b s = go (read_state (reader b)).0 refl
    where
      go :
          (o : Option (Option PersistentData))
          → (read_state (reader b)).0 ≡ o
          → IsStored (load_result o s).0.pd
      go none e = tt
      go (some none) e = tt
      go (some (some pd)) e = Yields-read_state (reader b) (some pd) e
