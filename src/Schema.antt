-- ===== src/Schema.antt =====
-- class container_schema (core/container_schema.cpp, include/kcenon/container/container/schema.h): the fields of a schema
-- and the methods that define and constrain them.
pub mod Codes
pub mod Errors
pub mod Validate
pub mod Conforms
pub mod Checks
pub mod Held
pub mod Fields
pub mod Decides
pub mod Ranges
pub mod Patterns
mod Examples
use container_system.Base.{
  ℕ, suc, Bool, true, false, Option, none, some, List, [], ◌∷◌, ◌++◌, Bytes, ◌===◌, if◌then◌else◌,
}
use container_system.Base.Int.{ℤ}
use container_system.Value.{OptimizedValue, ValueTypes}

-- What the code calls of the C++ library: `std::to_string`, `<` on doubles, the cast of a float, and
-- `std::regex`, whose compiled patterns are the type `R`. A double is its bit pattern. `none` stands
-- for a `std::regex_error`.
pub record Library (R : Type 0) : Type 0 where
  pub to_string : ℤ → Bytes
  pub double_to_string : ℕ → Bytes
  pub double_lt : ℕ → ℕ → Bool
  pub float_to_double : ℕ → ℕ
  pub regex : Bytes → Option R
  pub regex_match : Bytes → R → Option Bool

-- What a validator_fn gives: std::nullopt, a reason, or an exception.
pub data Verdict : Type 0 where
  accepted : Verdict
  rejected : Bytes → Verdict
  threw : Verdict

abbrev pub ValidatorFn : Type 0
ValidatorFn = OptimizedValue → Verdict

-- struct field_def, less the pointer `nested_schema`
pub record FieldDef (R : Type 0) : Type 0 where
  pub name : Bytes
  pub type : ValueTypes
  pub required : Bool
  pub min_int : Option ℤ
  pub max_int : Option ℤ
  pub min_double : Option ℕ
  pub max_double : Option ℕ
  pub min_length : Option ℕ
  pub max_length : Option ℕ
  pub pattern_str : Option Bytes
  pub compiled_pattern : Option R
  pub allowed_values : Option (List Bytes)
  pub custom_validators : List ValidatorFn

-- The vector `fields_`: a field with no nested schema, or with one. A copy of a schema copies the nested
-- ones.
pub data ContainerSchema (R : Type 0) : Type 0 where
  empty_vector : ContainerSchema R
  field : FieldDef R → ContainerSchema R → ContainerSchema R
  nested_field : FieldDef R → ContainerSchema R → ContainerSchema R → ContainerSchema R

abbrev is_some {ℓ} : {A : Type ℓ} → Option A → Bool
is_some none = false
is_some (some a) = true

module _ {R : Type 0} where
  abbrev pub new_field : Bytes → ValueTypes → Bool → FieldDef R
  new_field n t req = record {
    name = n;
    type = t;
    required = req;
    min_int = none;
    max_int = none;
    min_double = none;
    max_double = none;
    min_length = none;
    max_length = none;
    pattern_str = none;
    compiled_pattern = none;
    allowed_values = none;
    custom_validators = [];
  }

  -- `fields_.push_back`
  unfoldable pub append : ContainerSchema R → ContainerSchema R → ContainerSchema R
  append empty_vector new = new
  append (field f fields) new = field f (append fields new)
  append (nested_field f nested fields) new = nested_field f nested (append fields new)

  unfoldable pub require : Bytes → ValueTypes → ContainerSchema R → ContainerSchema R
  require key type fields = append fields (field (new_field key type true) empty_vector)

  unfoldable pub optional : Bytes → ValueTypes → ContainerSchema R → ContainerSchema R
  optional key type fields = append fields (field (new_field key type false) empty_vector)

  unfoldable pub require_nested :
      Bytes → ValueTypes → ContainerSchema R → ContainerSchema R → ContainerSchema R
  require_nested key type nested_schema fields =
      append fields (nested_field (new_field key type true) nested_schema empty_vector)

  unfoldable pub optional_nested :
      Bytes → ValueTypes → ContainerSchema R → ContainerSchema R → ContainerSchema R
  optional_nested key type nested_schema fields =
      append fields (nested_field (new_field key type false) nested_schema empty_vector)

  -- `find_field`: the first field of that name, to read or to write through.
  unfoldable pub find_field : Bytes → ContainerSchema R → Option (FieldDef R)
  find_field key empty_vector = none
  find_field key (field f fields) = if f.name === key then some f else find_field key fields
  find_field key (nested_field f nested fields) =
      if f.name === key then some f else find_field key fields

  unfoldable pub update_field :
      Bytes → (FieldDef R → FieldDef R) → ContainerSchema R → ContainerSchema R
  update_field key g empty_vector = empty_vector
  update_field key g (field f fields) =
      let rest = update_field key g fields in
      if f.name === key then field (g f) fields else field f rest
  update_field key g (nested_field f nested fields) =
      let rest = update_field key g fields in
      if f.name === key then nested_field (g f) nested fields else nested_field f nested rest

  unfoldable pub range_int64 : Bytes → ℤ → ℤ → ContainerSchema R → ContainerSchema R
  range_int64 key min max =
      update_field key (λ f. record f { min_int = some min; max_int = some max })

  unfoldable pub range_double : Bytes → ℕ → ℕ → ContainerSchema R → ContainerSchema R
  range_double key min max =
      update_field key (λ f. record f { min_double = some min; max_double = some max })

  unfoldable pub length : Bytes → ℕ → ℕ → ContainerSchema R → ContainerSchema R
  length key min max =
      update_field key (λ f. record f { min_length = some min; max_length = some max })

  -- A `std::regex_error` leaves no compiled pattern.
  unfoldable pub pattern : Library R → Bytes → Bytes → ContainerSchema R → ContainerSchema R
  pattern L key regex_pattern =
      update_field key (λ f. record f {
        pattern_str = some regex_pattern;
        compiled_pattern = L.regex regex_pattern;
      })

  unfoldable pub one_of : Bytes → List Bytes → ContainerSchema R → ContainerSchema R
  one_of key allowed = update_field key (λ f. record f { allowed_values = some allowed })

  unfoldable pub custom : Bytes → ValidatorFn → ContainerSchema R → ContainerSchema R
  custom key validator =
      update_field key
        (λ f. record f { custom_validators = f.custom_validators ++ (validator ∷ []) })

  unfoldable pub field_count : ContainerSchema R → ℕ
  field_count empty_vector = 0
  field_count (field f fields) = suc (field_count fields)
  field_count (nested_field f nested fields) = suc (field_count fields)

  unfoldable pub has_field : Bytes → ContainerSchema R → Bool
  has_field key fields = is_some (find_field key fields)

  abbrev required_of : Option (FieldDef R) → Bool
  required_of none = false
  required_of (some f) = f.required

  unfoldable pub is_required : Bytes → ContainerSchema R → Bool
  is_required key fields = required_of (find_field key fields)
