-- ===== src/Session/KeyValues.antt =====
-- src/PowerAuth/Session.cpp: prepareKeyValueMapForDataSigning. A std::map is the list of its pairs.
pub mod Order
pub mod Lookup
pub mod Text
use lime_security_powerauth.Base.{
  Bool, true, false, List, [], ◌∷◌, ◌++◌, ltb, if◌then◌else◌, is_empty, Bytes,
}
use lime_security_powerauth.Utils.Url.{convert_string_to_url_encoded_data}

-- `a->compare(*b) < 0`
unfoldable pub less : Bytes → Bytes → Bool
less a [] = false
less [] (y ∷ b) = true
less (x ∷ a) (y ∷ b) = if ltb x y then true else if ltb y x then false else less a b

insert_pair : Bytes × Bytes → List (Bytes × Bytes) → List (Bytes × Bytes)
insert_pair p [] = p ∷ []
insert_pair p (q ∷ rest) = if less q.0 p.0 then q ∷ insert_pair p rest else p ∷ q ∷ rest

-- `std::sort` of the keys, each with the value that `map.find(key)` gives; keys are distinct.
unfoldable pub sort_pairs : List (Bytes × Bytes) → List (Bytes × Bytes)
unfolding insert_pair
sort_pairs [] = []
sort_pairs (p ∷ rest) = insert_pair p (sort_pairs rest)

unfoldable pub encode_pair : Bytes × Bytes → Bytes
encode_pair (k, v) =
    convert_string_to_url_encoded_data k ++ (b'=' ∷ convert_string_to_url_encoded_data v)

concat_loop : List (Bytes × Bytes) → Bytes → Bytes
concat_loop [] result = result
concat_loop (p ∷ rest) result =
    concat_loop rest ((if is_empty result then [] else result ++ b'&' ∷ []) ++ encode_pair p)

unfoldable pub prepare_key_value_map_for_data_signing : List (Bytes × Bytes) → Bytes
unfolding concat_loop
prepare_key_value_map_for_data_signing pairs = concat_loop (sort_pairs pairs) []
