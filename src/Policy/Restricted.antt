-- ===== src/Policy/Restricted.antt =====
-- class static_storage_policy of include/kcenon/container/storage_policy.h. `AllowedTypes...` is the list of their
-- alternatives of the variant.
use container_system.Base.{
  ℕ, Bool, false, Option, none, some, List, [], ◌∷◌, Bytes, length, ◌==◌, ◌||◌, get_elem?,
  if◌then◌else◌,
}
use container_system.Value.{
  OptimizedValue, optimized_value, data_of, ValueVariant, ValueTypes, index, type_code,
}
use container_system.Policy.{
  StoragePolicy, find_by_key, set_found, get_found, is_found, remove_found,
}

-- `is_variant_type_allowed`, the fold over the pack
unfoldable pub is_variant_type_allowed : List ValueTypes → ValueVariant → Bool
is_variant_type_allowed [] v = false
is_variant_type_allowed (T ∷ Ts) v =
    (type_code T == type_code (index v)) || is_variant_type_allowed Ts v

unfoldable pub static_storage_policy : List ValueTypes → StoragePolicy (List OptimizedValue)
static_storage_policy AllowedTypes = record {
  set = λ key value values.
      if is_variant_type_allowed AllowedTypes (data_of value)
      then set_found value values (find_by_key key values)
      else some values;
  get = λ key values. get_found values (find_by_key key values);
  contains = λ key values. is_found (find_by_key key values);
  remove = λ key values. remove_found values (find_by_key key values);
  clear = λ values. [];
  range = λ values. values;
  size = length;
  empty = λ values. length values == 0;
}

-- `set_typed<T>` for a `T` of the pack (another one does not compile), which gets the data of that alternative.
unfoldable pub set_typed : Bytes → ValueVariant → List OptimizedValue → Option (List OptimizedValue)
set_typed key typed_value values =
    set_found (optimized_value key (index typed_value) typed_value) values (find_by_key key values)

-- `get_typed<T>` at the position that was found
abbrev typed_at : ValueTypes → Option OptimizedValue → Option (Option ValueVariant)
typed_at T none = none
typed_at T (some v) =
    some (if type_code (index (data_of v)) == type_code T then some (data_of v) else none)

abbrev typed_found : ValueTypes → List OptimizedValue → Option ℕ → Option (Option ValueVariant)
typed_found T values none = some none
typed_found T values (some i) = typed_at T (get_elem? values i)

unfoldable pub get_typed : ValueTypes → Bytes → List OptimizedValue → Option (Option ValueVariant)
get_typed T key values = typed_found T values (find_by_key key values)
