-- ===== src/Jni/Passwords.antt =====
-- src/PowerAuth/jni/PasswordJNI.cpp: the native methods of the Java class Password.
use lime_security_powerauth.Base.{
  ℕ, ◌+◌, ◌-◌, ◌%◌, ◌^◌, Bool, false, Option, none, some, Bytes, ltb, if◌then◌else◌,
}
use lime_security_powerauth.Password.{
  Password, init_as_immutable, init_as_mutable, is_mutable, password_length, is_equal_to_password,
  clear, add_character, insert_character, remove_last_character, remove_character,
}
use lime_security_powerauth.Jni.Objects.{Jni, JavaString, JavaBytes, JavaPassword}

-- What the handle of `this` points to, and the result of a call of it; false for a missing handle.
edit : (Password → Password × Bool) → Option Password → Option Password × Bool
edit call none = (none, false)
edit call (some p) = let r = call p in (some r.0, r.1)

-- `(size_t)index` of a 32-bit number for a size_t of `w` bits: its sign is extended.
unfoldable pub size_of_int : ℕ → ℕ → ℕ
size_of_int w index = if ltb index (2 ^ 31) then index else index + (2 ^ w - 2 ^ 32)

unfoldable pub is_mutable_native : Option Password → Bool
is_mutable_native none = false
is_mutable_native (some p) = is_mutable p

unfoldable pub length_native : Option Password → ℕ
length_native none = 0
length_native (some p) = password_length p % 2 ^ 32

-- The other object, and what its handle points to.
equals : Password → Option JavaPassword → Bool
equals p none = false
equals p (some other) = with_handle (other.handle)
  where
    with_handle : Option Password → Bool
    with_handle none = false
    with_handle (some q) = is_equal_to_password p q

unfoldable pub is_equal_to_password_native : Option Password → Option JavaPassword → Bool
unfolding equals
is_equal_to_password_native none other = false
is_equal_to_password_native (some p) other = equals p other

unfoldable pub clear_native : Option Password → Option Password × Bool
unfolding edit
clear_native = edit clear

unfoldable pub add_character_native : ℕ → Option Password → Option Password × Bool
unfolding edit
add_character_native utf_codepoint = edit (add_character utf_codepoint)

-- For a size_t of `w` bits.
unfoldable pub insert_character_native : ℕ → ℕ → ℕ → Option Password → Option Password × Bool
unfolding edit
insert_character_native w utf_codepoint index =
    edit (insert_character utf_codepoint (size_of_int w index))

unfoldable pub remove_last_character_native : Option Password → Option Password × Bool
unfolding edit
remove_last_character_native = edit remove_last_character

unfoldable pub remove_character_native : ℕ → ℕ → Option Password → Option Password × Bool
unfolding edit
remove_character_native w index = edit (remove_character (size_of_int w index))

module _ ⦃jni : Jni⦄ (copy_from_java_string_to_byte_array : JavaString → Bytes) where
  -- A string or an array gives an immutable password, neither an empty mutable one, and both none.
  unfoldable pub init_password : Option JavaString → Option JavaBytes → Option Password
  init_password (some str_pass) none =
      some (init_as_immutable (copy_from_java_string_to_byte_array str_pass))
  init_password none (some data_pass) =
      some (init_as_immutable (jni.copy_from_java_byte_array (some data_pass)))
  init_password none none = some init_as_mutable
  init_password (some str_pass) (some data_pass) = none
