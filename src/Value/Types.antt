-- ===== src/Value/Types.antt =====
-- The two conversions of include/kcenon/container/value_types.h between types and strings.
use container_system.Base.{◌≡◌, refl, ◌===◌}
use container_system.Value.{
  ValueTypes, null_value, bool_value, short_value, ushort_value, int_value, uint_value, long_value,
  ulong_value, llong_value, ullong_value, float_value, double_value, string_value, bytes_value,
  container_value, array_value, find_type, find_key, get_type_from_string, get_string_from_type,
}

-- The string of a type names that type.
pub get_type_from_string-get_string_from_type :
    (type : ValueTypes) → get_type_from_string (get_string_from_type type) ≡ type
unfolding get_type_from_string get_string_from_type find_type find_key ◌===◌
get_type_from_string-get_string_from_type null_value = refl
get_type_from_string-get_string_from_type bool_value = refl
get_type_from_string-get_string_from_type short_value = refl
get_type_from_string-get_string_from_type ushort_value = refl
get_type_from_string-get_string_from_type int_value = refl
get_type_from_string-get_string_from_type uint_value = refl
get_type_from_string-get_string_from_type long_value = refl
get_type_from_string-get_string_from_type ulong_value = refl
get_type_from_string-get_string_from_type llong_value = refl
get_type_from_string-get_string_from_type ullong_value = refl
get_type_from_string-get_string_from_type float_value = refl
get_type_from_string-get_string_from_type double_value = refl
get_type_from_string-get_string_from_type string_value = refl
get_type_from_string-get_string_from_type bytes_value = refl
get_type_from_string-get_string_from_type container_value = refl
get_type_from_string-get_string_from_type array_value = refl
