-- ===== src/Schema/Fields.antt =====
-- The checks of one field in class container_schema (core/container_schema.cpp) that need more than one
-- constraint.
use container_system.Base.{
  ◌≡◌, refl, sym, ap, ◌∙◌, ◌↔◌, inl, inr, Bool, true, false, Option, none, some, List, [], ◌∷◌,
  ◌++◌, append-nil, append_assoc, Bytes, map, get_elem?, All, ◌==◌, ==_iff, if◌then◌else◌,
  Bool-cases, arith,
}
use container_system.Value.{
  ValueTypes, container_value, OptimizedValue, ValueContainer, type_of, type_code, null_value,
  bool_value, short_value, ushort_value, int_value, uint_value, long_value, ulong_value,
  llong_value, ullong_value, float_value, double_value, string_value, bytes_value, array_value,
}
use mathlib.Core.Option.{some-injective}
use container_system.Schema.{Library, accepted, FieldDef}
use container_system.Schema.Errors.{
  missing_required_error, type_mismatch_error, nested_failed_error,
}
use container_system.Schema.Validate.{
  Errors, either_error, int_range_error, double_range_error, nested_report, prefixed, nested_value,
  validate_type, validate_range, validate_length, validate_pattern, validate_allowed,
}
use container_system.Schema.Conforms.{
  InInts, InLengths, InAllowed, InDoubles, Matches, Fits, InNested, integer, size, text, real, held,
}
use container_system.Schema.Checks.{
  Reports, report-Reports, either_iff, int_range_iff, double_range_iff, length_iff, pattern_iff,
  allowed_iff,
}
use container_system.Schema.Held.{int64_of-held, double_of-held, length_of-held, string_of-held}
use container_system.Base.{ℕ}
use container_system.Base.Int.{ℤ}

-- The number of a type determines it.
abbrev all_types : List ValueTypes
all_types =
    null_value ∷ bool_value ∷ short_value ∷ ushort_value ∷ int_value ∷ uint_value ∷ long_value
    ∷ ulong_value ∷ llong_value ∷ ullong_value ∷ float_value ∷ double_value ∷ string_value
    ∷ bytes_value ∷ container_value ∷ array_value ∷ []

get_elem?-type_code : (t : ValueTypes) → get_elem? all_types (type_code t) ≡ some t
get_elem?-type_code null_value = refl
get_elem?-type_code bool_value = refl
get_elem?-type_code short_value = refl
get_elem?-type_code ushort_value = refl
get_elem?-type_code int_value = refl
get_elem?-type_code uint_value = refl
get_elem?-type_code long_value = refl
get_elem?-type_code ulong_value = refl
get_elem?-type_code llong_value = refl
get_elem?-type_code ullong_value = refl
get_elem?-type_code float_value = refl
get_elem?-type_code double_value = refl
get_elem?-type_code string_value = refl
get_elem?-type_code bytes_value = refl
get_elem?-type_code container_value = refl
get_elem?-type_code array_value = refl

type_code-injective : (s t : ValueTypes) → type_code s ≡ type_code t → s ≡ t
type_code-injective s t e =
    some-injective _ _
      (sym (get_elem?-type_code s) ∙ (ap (get_elem? all_types) e ∙ get_elem?-type_code t))

module _ {R : Type 0} (L : Library R) where
  nested_report-Reports :
      (key : Bytes) (es errors : Errors) (C : Type 0)
      → (es ≡ []) ↔ C
      → Reports errors (nested_report L key es errors).0 C
  nested_report-Reports key [] errors C h = ([], sym (append-nil errors), h)
  nested_report-Reports key (e ∷ es) errors C h =
      let fail = nested_failed_error L key (e ∷ es) in
      (
        fail ∷ map (prefixed key) (e ∷ es),
        append_assoc errors (fail ∷ []) (map (prefixed key) (e ∷ es)),
        (λ z. absurd (cc), λ c. absurd (let z = h.1 c in cc)),
      )

  pub nested_value-Reports :
      (g : ValueContainer → Errors) (P : ValueContainer → Type 0) (key : Bytes)
      (o : Option (Option ValueContainer)) (errors : Errors)
      → ((c : ValueContainer) → (g c ≡ []) ↔ P c)
      → Reports errors (nested_value L g key o errors).0 (InNested (some P) o)
  nested_value-Reports g P key none errors h = ([], sym (append-nil errors), (λ e. tt, λ u. refl))
  nested_value-Reports g P key (some none) errors h =
      (nested_failed_error L key [] ∷ [], refl, (λ e. absurd (cc), λ u. absurd u))
  nested_value-Reports g P key (some (some c)) errors h =
      nested_report-Reports key (g c) errors (P c) (h c)

  pub validate_type-Reports :
      (f : FieldDef R) (v : OptimizedValue) (errors : Errors)
      → Reports errors (validate_type L f v errors).0 (type_of v ≡ f.type)
  unfolding validate_type
  validate_type-Reports f v errors = elim (Bool-cases (type_code (type_of v) == type_code f.type)) [
    | inl e ↦ (
      [],
      rw e (sym (append-nil errors)),
      (
        λ z.
            type_code-injective (type_of v) f.type
              ((==_iff (type_code (type_of v)) (type_code f.type)).0 e),
        λ z. refl,
      ),
    )
    | inr e ↦ (
      type_mismatch_error f.name f.type (type_of v) ∷ [],
      rw e refl,
      (λ z. absurd cc, λ z. absurd (ground (arith, ap type_code z))),
    )
  ]

  pub validate_range-Reports :
      (f : FieldDef R) (v : OptimizedValue) (errors : Errors)
      → Reports errors (validate_range L f v errors).0 (
          InInts f.min_int f.max_int (held integer v)
          × InDoubles L f.min_double f.max_double (held (real L) v))
  unfolding validate_range
  validate_range-Reports f v errors =
      let x : Option ℤ = held integer v in
      let y : Option ℕ = held (real L) v in
      let ints = int_range_error L f.name f.min_int f.max_int x in
      let doubles = double_range_error L f.name f.min_double f.max_double y in
      let (a, b) = either_iff ints doubles in
      let (c, d) = int_range_iff L f.name f.min_int f.max_int x in
      let (h, k) = double_range_iff L f.name f.min_double f.max_double y in
      rw (int64_of-held v, double_of-held L v)
        (report-Reports (either_error ints doubles) errors _
          (λ z. let (p, q) = a z in (c p, h q), λ (p, q). b (d p, k q)))

  pub validate_length-Reports :
      (f : FieldDef R) (v : OptimizedValue) (errors : Errors)
      → Reports errors
          (validate_length L f v errors).0
          (InLengths f.min_length f.max_length (held size v))
  unfolding validate_length
  validate_length-Reports f v errors =
      rw (length_of-held v)
        (report-Reports _ errors _ (length_iff L f.name f.min_length f.max_length (held size v)))

  pub validate_pattern-Reports :
      (f : FieldDef R) (v : OptimizedValue) (errors : Errors)
      → Reports errors
          (validate_pattern L f v errors).0
          (Matches L f.compiled_pattern (held text v))
  unfolding validate_pattern
  validate_pattern-Reports f v errors = rw (string_of-held v) (
      report-Reports _ errors _
        (pattern_iff L f.name f.pattern_str f.compiled_pattern (held text v)))

  pub validate_allowed-Reports :
      (f : FieldDef R) (v : OptimizedValue) (errors : Errors)
      → Reports errors (validate_allowed L f v errors).0 (InAllowed f.allowed_values (held text v))
  unfolding validate_allowed
  validate_allowed-Reports f v errors =
      rw (string_of-held v)
        (report-Reports _ errors _ (allowed_iff f.name f.allowed_values (held text v)))

  pub Fits-iff :
      (f : FieldDef R) (v : OptimizedValue) (N : Type 0)
      → ((type_of v ≡ f.type)
          × ((InInts f.min_int f.max_int (held integer v)
                × InDoubles L f.min_double f.max_double (held (real L) v))
              × (InLengths f.min_length f.max_length (held size v)
                  × (Matches L f.compiled_pattern (held text v)
                      × (InAllowed f.allowed_values (held text v)
                          × (All (λ validator. validator v ≡ accepted) f.custom_validators × N))))))
        ↔ (Fits L f v × N)
  Fits-iff f v N = (
    λ (a, ((b, c), (d, (e, (g, (h, n)))))). (
      record {
        type = a;
        ints = b;
        doubles = c;
        lengths = d;
        matches = e;
        allowed = g;
        accepts = h;
      },
      n,
    ),
    λ (x, n).
        (x.type, ((x.ints, x.doubles), (x.lengths, (x.matches, (x.allowed, (x.accepts, n)))))),
  )

  pub missing-Reports :
      (key : Bytes) (required : Bool) (errors : Errors)
      → Reports errors
          (if required then errors ++ (missing_required_error key ∷ []) else errors)
          (required ≡ false)
  missing-Reports key true errors =
      (missing_required_error key ∷ [], refl, (λ z. absurd cc, λ z. absurd cc))
  missing-Reports key false errors = ([], sym (append-nil errors), (λ z. refl, λ z. refl))
