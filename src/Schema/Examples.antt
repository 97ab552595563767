-- ===== src/Schema/Examples.antt =====
-- Runs of class container_schema (core/container_schema.cpp) on concrete schemas and containers.
use container_system.Base.{
  ◌≡◌, refl, ◌↔◌, true, false, Option, none, some, [], ◌∷◌, Bytes, codes, ◌===◌, arith,
}
use container_system.Base.Int.{pos, negsuc, ◌≤ℤ◌}
use container_system.Value.{
  OptimizedValue, optimized_value, ValueContainer, int_value, string_value, container_value,
  ulong_value, int, string, container, ulong, index, is_stack_allocated,
}
use container_system.Container.{new_container, get, set_unit_impl, count_allocation, set_typed}
use container_system.Container.Storage.{find_unit, replace_unit, append_unit}
use container_system.Schema.{
  Library, FieldDef, ContainerSchema, empty_vector, append, update_field, require, optional,
  require_nested, range_int64, pattern, find_field, new_field,
}
use container_system.Schema.Validate.{
  Errors, container_of, int64_of, length_of, string_of, double_of, find_allowed, custom_error,
  validate, validate_range, validate_pattern,
}
use container_system.Schema.Conforms.{Conforms}
use container_system.Schema.Decides.{validate-Conforms}
use container_system.Schema.Ranges.{validate_range-ulong}
use container_system.Schema.Patterns.{pattern-passes}

-- A library whose patterns are literals, of which the empty one does not compile, and that prints
-- no number.
abbrev compiled : Bytes → Option Bytes
compiled [] = none
compiled (b ∷ bs) = some (b ∷ bs)

abbrev sample_library : Library Bytes
sample_library = record {
  to_string = λ z. [];
  double_to_string = λ d. [];
  double_lt = λ d e. false;
  float_to_double = λ x. x;
  regex = compiled;
  regex_match = λ s r. some (s === r);
}

abbrev person : ContainerSchema Bytes
person = pattern sample_library (codes "name") (codes "Ann") (
    range_int64 (codes "age") (pos 0) (pos 150)
      (optional (codes "age") int_value (require (codes "name") string_value empty_vector)))

abbrev message : ContainerSchema Bytes
message = require_nested (codes "from") container_value person empty_vector

abbrev named_ann : ValueContainer
named_ann =
    set_typed (codes "age") (int (pos 7))
      (set_typed (codes "name") (string (codes "Ann")) new_container)

abbrev good : ValueContainer
good = set_typed (codes "from") (container named_ann) new_container

validate-good : validate sample_library message good ≡ none
unfolding validate require_nested append get set_typed set_unit_impl new_container replace_unit
    find_unit append_unit ◌===◌ container_of index pattern update_field range_int64 optional require
    count_allocation int64_of length_of string_of is_stack_allocated double_of find_allowed
    custom_error
validate-good = refl

validate-Conforms_example :
    (validate sample_library message good ≡ none) ↔ Conforms sample_library message good
validate-Conforms_example = validate-Conforms sample_library message good

abbrev small_range : FieldDef Bytes
small_range = record (new_field (codes "n") ulong_value true) {
  min_int = some (negsuc 0);
  max_int = some (pos 5);
}

validate_range-ulong_example :
    ((validate_range sample_library small_range
        (optimized_value (codes "n") ulong_value (ulong 18446744073709551615))
        []).1
      ≡ true)
    ↔ ((negsuc 0 ≤ℤ negsuc 0) × (negsuc 0 ≤ℤ pos 5))
validate_range-ulong_example =
    validate_range-ulong sample_library small_range (codes "n") 18446744073709551615 (negsuc 0)
      (pos 5) [] refl refl (omega arith)

abbrev name_field : FieldDef Bytes
name_field = record (new_field (codes "name") string_value true) {
  pattern_str = some (codes "Ann");
  compiled_pattern = some (codes "Ann");
}

find_field-person : find_field (codes "name") person ≡ some name_field
unfolding find_field pattern update_field range_int64 optional append require ◌===◌
find_field-person = refl

pattern-passes_example :
    (f' : FieldDef Bytes) × (find_field
        (codes "name")
        (pattern sample_library (codes "name") [] person)
      ≡ some f')
    × ((v : OptimizedValue) (errors : Errors)
        → validate_pattern sample_library f' v errors ≡ (errors, true))
pattern-passes_example =
    pattern-passes sample_library (codes "name") [] person name_field refl find_field-person
