-- ===== src/Value.antt =====
-- The value types of include/kcenon/container/value_types.h and
-- include/kcenon/container/container/types.h. A `std::shared_ptr` is what it points at, or null: no
-- operation modelled here writes through such a pointer that it shares. A float is its bit pattern.
pub mod Types
use container_system.Base.{
  ℕ, Bool, true, false, Bytes, List, [], ◌∷◌, codes, ◌==◌, ◌===◌, if◌then◌else◌,
}
use container_system.Base.Int.{ℤ}

-- enum class value_types
pub data ValueTypes : Type 0 where
  null_value bool_value short_value ushort_value int_value uint_value : ValueTypes
  long_value ulong_value llong_value ullong_value float_value double_value : ValueTypes
  string_value bytes_value container_value array_value : ValueTypes

-- The six strings of a container's header.
pub record Header : Type 0 where
  pub source_id : Bytes
  pub source_sub_id : Bytes
  pub target_id : Bytes
  pub target_sub_id : Bytes
  pub message_type : Bytes
  pub version : Bytes

-- The flags and counters of a container, and its cached text.
pub record Status : Type 0 where
  pub parsed_data : Bool
  pub changed_data : Bool
  pub data_string : Bytes
  pub use_soo : Bool
  pub heap_allocations : ℕ
  pub stack_allocations : ℕ

mutual
  -- using value_variant = std::variant<...>
  pub data ValueVariant : Type 0 where
    monostate null_container null_array : ValueVariant
    bool : Bool → ValueVariant
    short int long llong : ℤ → ValueVariant
    ushort uint ulong ullong : ℕ → ValueVariant
    float double : ℕ → ValueVariant
    string bytes : Bytes → ValueVariant
    container : ValueContainer → ValueVariant
    array : Items → ValueVariant

  -- struct array_values
  pub data Items : Type 0 where
    no_items : Items
    item : ValueVariant → Items → Items

  -- struct optimized_value: the name, the type and the data
  pub data OptimizedValue : Type 0 where
    optimized_value : Bytes → ValueTypes → ValueVariant → OptimizedValue

  -- std::vector<optimized_value>
  pub data Units : Type 0 where
    no_units : Units
    unit : OptimizedValue → Units → Units

  -- class value_container
  pub data ValueContainer : Type 0 where
    value_container : Header → Status → Units → ValueContainer

-- `data.index()`, cast to `value_types`
unfoldable pub index : ValueVariant → ValueTypes
index monostate = null_value
index (bool _) = bool_value
index (short _) = short_value
index (ushort _) = ushort_value
index (int _) = int_value
index (uint _) = uint_value
index (long _) = long_value
index (ulong _) = ulong_value
index (llong _) = llong_value
index (ullong _) = ullong_value
index (float _) = float_value
index (double _) = double_value
index (string _) = string_value
index (bytes _) = bytes_value
index (container _) = container_value
index null_container = container_value
index (array _) = array_value
index null_array = array_value

abbrev pub name_of : OptimizedValue → Bytes
name_of (optimized_value n t d) = n

abbrev pub type_of : OptimizedValue → ValueTypes
type_of (optimized_value n t d) = t

abbrev pub data_of : OptimizedValue → ValueVariant
data_of (optimized_value n t d) = d

-- optimized_value::is_stack_allocated
unfoldable pub is_stack_allocated : OptimizedValue → Bool
is_stack_allocated (optimized_value n string_value d) = false
is_stack_allocated (optimized_value n bytes_value d) = false
is_stack_allocated (optimized_value n container_value d) = false
is_stack_allocated (optimized_value n _ d) = true

-- The table `type_map`.
abbrev pub type_map : List (Bytes × ValueTypes)
type_map =
    (codes "0", null_value)
    ∷ (codes "1", bool_value)
    ∷ (codes "2", short_value)
    ∷ (codes "3", ushort_value)
    ∷ (codes "4", int_value)
    ∷ (codes "5", uint_value)
    ∷ (codes "6", long_value)
    ∷ (codes "7", ulong_value)
    ∷ (codes "8", llong_value)
    ∷ (codes "9", ullong_value)
    ∷ (codes "10", float_value)
    ∷ (codes "11", double_value)
    ∷ (codes "12", string_value)
    ∷ (codes "13", bytes_value)
    ∷ (codes "14", container_value)
    ∷ (codes "15", array_value)
    ∷ []

-- The number of the enumerator.
abbrev pub type_code : ValueTypes → ℕ
type_code null_value = 0
type_code bool_value = 1
type_code short_value = 2
type_code ushort_value = 3
type_code int_value = 4
type_code uint_value = 5
type_code long_value = 6
type_code ulong_value = 7
type_code llong_value = 8
type_code ullong_value = 9
type_code float_value = 10
type_code double_value = 11
type_code string_value = 12
type_code bytes_value = 13
type_code container_value = 14
type_code array_value = 15

-- get_type_from_string: the first entry of that key, or null_value.
unfoldable pub find_type : Bytes → List (Bytes × ValueTypes) → ValueTypes
find_type str [] = null_value
find_type str ((key, t) ∷ table) = if key === str then t else find_type str table

unfoldable pub get_type_from_string : Bytes → ValueTypes
unfolding find_type
get_type_from_string str = find_type str type_map

-- get_string_from_type: the key of the first entry of that type, or "0".
unfoldable pub find_key : ValueTypes → List (Bytes × ValueTypes) → Bytes
find_key t [] = codes "0"
find_key t ((key, t') ∷ table) = if type_code t' == type_code t then key else find_key t table

unfoldable pub get_string_from_type : ValueTypes → Bytes
unfolding find_key
get_string_from_type t = find_key t type_map
