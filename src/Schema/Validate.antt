-- ===== src/Schema/Validate.antt =====
-- Validation in class container_schema (core/container_schema.cpp). A vector of errors that a function appends to is
-- passed on.
use container_system.Base.{
  ℕ, ◌^◌, Bool, true, false, not, Option, none, some, List, [], ◌∷◌, ◌++◌, Bytes, codes, map,
  length, ltb, ◌==◌, ◌===◌, ◌&&◌, ◌||◌, if◌then◌else◌,
}
use container_system.Base.Int.{ℤ, pos, leb_ℤ, to_signed}
use container_system.Value.{
  short_value, ushort_value, int_value, uint_value, long_value, ulong_value, llong_value,
  ullong_value, float_value, double_value, string_value, bytes_value, container_value, short,
  ushort, int, uint, long, ulong, llong, ullong, float, double, string, bytes, container,
  OptimizedValue, optimized_value, ValueContainer, type_of, type_code,
}
use container_system.Container.{get}
use container_system.Schema.{
  Library, Verdict, accepted, rejected, threw, ValidatorFn, FieldDef, ContainerSchema, empty_vector,
  field, nested_field,
}
use container_system.Schema.Errors.{
  ValidationError, missing_required_error, type_mismatch_error, out_of_range_error,
  invalid_length_error, not_allowed_error, pattern_mismatch_error, custom_failed_error,
  nested_failed_error,
}

abbrev pub Errors : Type 0
Errors = List ValidationError

-- A check that pushes the error it found, if any, and returns whether there was none.
abbrev pub report : Option ValidationError → Errors → Errors × Bool
report none errors = (errors, true)
report (some e) errors = (errors ++ (e ∷ []), false)

-- The switch of `validate_range` on the type: the value as an int64_t, where the data is of that type.
unfoldable pub int64_of : OptimizedValue → Option ℤ
int64_of (optimized_value n short_value (short x)) = some x
int64_of (optimized_value n ushort_value (ushort x)) = some (pos x)
int64_of (optimized_value n int_value (int x)) = some x
int64_of (optimized_value n uint_value (uint x)) = some (pos x)
int64_of (optimized_value n long_value (long x)) = some x
int64_of (optimized_value n ulong_value (ulong x)) = some (to_signed (2 ^ 64) x)
int64_of (optimized_value n llong_value (llong x)) = some x
int64_of (optimized_value n ullong_value (ullong x)) = some (to_signed (2 ^ 64) x)
int64_of v = none

-- The length of a string or of bytes, and a string.
unfoldable pub length_of : OptimizedValue → Option ℕ
length_of (optimized_value n string_value (string s)) = some (length s)
length_of (optimized_value n bytes_value (bytes bs)) = some (length bs)
length_of v = none

unfoldable pub string_of : OptimizedValue → Option Bytes
string_of (optimized_value n string_value (string s)) = some s
string_of v = none

-- A container, where the type says so: `some none` is data of another type, or a null pointer.
unfoldable pub container_of : OptimizedValue → Option (Option ValueContainer)
container_of (optimized_value n container_value (container c)) = some (some c)
container_of (optimized_value n container_value d) = some none
container_of v = none

-- `std::find` of a string
unfoldable pub find_allowed : Bytes → List Bytes → Bool
find_allowed s [] = false
find_allowed s (a ∷ allowed) = (a === s) || find_allowed s allowed

-- An error of the first returns at once.
abbrev pub either_error : Option ValidationError → Option ValidationError → Option ValidationError
either_error none e = e
either_error (some d) e = some d

abbrev or_empty : Option Bytes → Bytes
or_empty none = []
or_empty (some s) = s

-- A match that throws is a mismatch.
abbrev pub match_error : Bytes → Option Bytes → Option Bool → Option ValidationError
match_error key pattern_str (some true) = none
match_error key pattern_str (some false) = some (pattern_mismatch_error key (or_empty pattern_str))
match_error key pattern_str none = some (pattern_mismatch_error key (or_empty pattern_str))

abbrev pub allowed_error : Bytes → Option (List Bytes) → Option Bytes → Option ValidationError
allowed_error key (some allowed) (some s) =
    if find_allowed s allowed then none else some (not_allowed_error key s)
allowed_error key allowed s = none

abbrev pub verdict_error : Bytes → Verdict → Option ValidationError
verdict_error key accepted = none
verdict_error key (rejected reason) = some (custom_failed_error key reason)
verdict_error key threw = some (custom_failed_error key (codes "Validator threw an exception"))

-- The loop ends at the first error.
unfoldable pub custom_error : Bytes → OptimizedValue → List ValidatorFn → Option ValidationError
custom_error key value [] = none
custom_error key value (validator ∷ validators) =
    either_error (verdict_error key (validator value)) (custom_error key value validators)

abbrev pub prefixed : Bytes → ValidationError → ValidationError
prefixed key err = record err { field = key ++ (codes "." ++ err.field) }

abbrev pub front : Errors → Option ValidationError
front [] = none
front (e ∷ es) = some e

module _ {R : Type 0} (L : Library R) where
  unfoldable pub validate_type : FieldDef R → OptimizedValue → Errors → Errors × Bool
  validate_type f value errors =
      if type_code (type_of value) == type_code f.type
      then report none errors
      else report (some (type_mismatch_error f.name f.type (type_of value))) errors

  unfoldable pub double_of : OptimizedValue → Option ℕ
  double_of (optimized_value n float_value (float x)) = some (L.float_to_double x)
  double_of (optimized_value n double_value (double x)) = some x
  double_of v = none

  -- The two range checks, on the bounds and on the value.
  abbrev pub int_range_error : Bytes → Option ℤ → Option ℤ → Option ℤ → Option ValidationError
  int_range_error key (some min) (some max) (some val) =
      if not (leb_ℤ min val) || not (leb_ℤ val max)
      then some (out_of_range_error key (L.to_string val) (L.to_string min) (L.to_string max))
      else none
  int_range_error key min max val = none

  abbrev pub double_range_error : Bytes → Option ℕ → Option ℕ → Option ℕ → Option ValidationError
  double_range_error key (some min) (some max) (some val) =
      if L.double_lt val min || L.double_lt max val
      then some (
          out_of_range_error key (L.double_to_string val) (L.double_to_string min)
            (L.double_to_string max))
      else none
  double_range_error key min max val = none

  unfoldable pub validate_range : FieldDef R → OptimizedValue → Errors → Errors × Bool
  validate_range f value errors =
      report
        (either_error (int_range_error f.name f.min_int f.max_int (int64_of value))
          (double_range_error f.name f.min_double f.max_double (double_of value)))
        errors

  abbrev pub length_error : Bytes → Option ℕ → Option ℕ → Option ℕ → Option ValidationError
  length_error key (some min) (some max) (some len) =
      if ltb len min || ltb max len then some (invalid_length_error L key len min max) else none
  length_error key min max len = none

  unfoldable pub validate_length : FieldDef R → OptimizedValue → Errors → Errors × Bool
  validate_length f value errors =
      report (length_error f.name f.min_length f.max_length (length_of value)) errors

  abbrev pub pattern_error : Bytes → Option Bytes → Option R → Option Bytes → Option ValidationError
  pattern_error key pattern_str (some r) (some s) = match_error key pattern_str (L.regex_match s r)
  pattern_error key pattern_str r s = none

  unfoldable pub validate_pattern : FieldDef R → OptimizedValue → Errors → Errors × Bool
  validate_pattern f value errors =
      report (pattern_error f.name f.pattern_str f.compiled_pattern (string_of value)) errors

  unfoldable pub validate_allowed : FieldDef R → OptimizedValue → Errors → Errors × Bool
  validate_allowed f value errors =
      report (allowed_error f.name f.allowed_values (string_of value)) errors

  unfoldable pub validate_custom : FieldDef R → OptimizedValue → Errors → Errors × Bool
  validate_custom f value errors = report (custom_error f.name value f.custom_validators) errors

  abbrev pub nested_report : Bytes → Errors → Errors → Errors × Bool
  nested_report key [] errors = (errors, true)
  nested_report key (e ∷ es) errors =
      ((errors ++ (nested_failed_error L key (e ∷ es) ∷ [])) ++ map (prefixed key) (e ∷ es), false)

  -- `validate_nested`, given the `validate_all` of the nested schema, if there is one.
  abbrev pub nested_value :
      (ValueContainer → Errors) → Bytes → Option (Option ValueContainer) → Errors → Errors × Bool
  nested_value validate_all key none errors = (errors, true)
  nested_value validate_all key (some none) errors =
      report (some (nested_failed_error L key [])) errors
  nested_value validate_all key (some (some c)) errors = nested_report key (validate_all c) errors

  unfoldable pub validate_nested :
      Option (ValueContainer → Errors) → FieldDef R → OptimizedValue → Errors → Errors × Bool
  validate_nested none f value errors = (errors, true)
  validate_nested (some validate_all) f value errors =
      nested_value validate_all f.name (container_of value) errors

  unfoldable pub validate_field :
      Option (ValueContainer → Errors) → FieldDef R → OptimizedValue → Errors → Errors × Bool
  unfolding validate_type validate_range validate_length validate_pattern validate_allowed
      validate_custom validate_nested
  validate_field nested f value errors =
      let (errors, a) = validate_type f value errors in
      let (errors, b) = validate_range f value errors in
      let (errors, c) = validate_length f value errors in
      let (errors, d) = validate_pattern f value errors in
      let (errors, e) = validate_allowed f value errors in
      let (errors, g) = validate_custom f value errors in
      let (errors, h) = validate_nested nested f value errors in
      (errors, a && (b && (c && (d && (e && (g && h))))))

  -- The body of the loop of `validate_all`, on what `get` returned.
  unfoldable pub check_value :
      Option (ValueContainer → Errors) → FieldDef R → Option OptimizedValue → Errors → Errors
  unfolding validate_field
  check_value nested f none errors =
      if f.required then errors ++ (missing_required_error f.name ∷ []) else errors
  check_value nested f (some value) errors = (validate_field nested f value errors).0

  unfoldable pub validate_fields : ContainerSchema R → ValueContainer → Errors → Errors
  unfolding check_value
  validate_fields empty_vector c errors = errors
  validate_fields (field f fields) c errors =
      validate_fields fields c (check_value none f (get f.name c) errors)
  validate_fields (nested_field f nested fields) c errors =
      validate_fields fields c
        (check_value (some (λ d. validate_fields nested d [])) f (get f.name c) errors)

  unfoldable pub validate_all : ContainerSchema R → ValueContainer → Errors
  unfolding validate_fields
  validate_all schema c = validate_fields schema c []

  unfoldable pub validate : ContainerSchema R → ValueContainer → Option ValidationError
  unfolding validate_all
  validate schema c = front (validate_all schema c)
