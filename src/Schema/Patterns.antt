-- ===== src/Schema/Patterns.antt =====
-- The patterns of class container_schema (core/container_schema.cpp).
use container_system.Base.{
  ◌≡◌, refl, ap, Bool, true, false, Option, none, some, Bytes, ◌===◌, if◌then◌else◌, inl, inr,
}
use mathlib.Core.Logic.{◌⊎◌}
use mathlib.Core.Option.{some-injective}
use container_system.Value.{OptimizedValue}
use container_system.Schema.{
  Library, FieldDef, ContainerSchema, empty_vector, field, nested_field, find_field, update_field,
  pattern,
}
use container_system.Schema.Validate.{Errors, report, string_of, pattern_error, validate_pattern}

first-found :
    {R : Type 0} (key : Bytes) (g : FieldDef R → FieldDef R) (h f : FieldDef R) (b : Bool)
    (rest : Option (FieldDef R))
    → (if b then some h else rest) ≡ some f
    → ((b ≡ true) × (h ≡ f)) ⊎ ((b ≡ false) × (rest ≡ some f))
first-found key g h f true rest e = inl (refl, some-injective _ _ e)
first-found key g h f false rest e = inr (refl, e)

-- A change of the field of a key that keeps its name is what `find_field` then finds.
pub update_field-find_field :
    {R : Type 0} (key : Bytes) (g : FieldDef R → FieldDef R) (schema : ContainerSchema R)
    (f : FieldDef R)
    → ((h : FieldDef R) → (g h).name ≡ h.name)
    → find_field key schema ≡ some f
    → find_field key (update_field key g schema) ≡ some (g f)
unfolding find_field update_field
update_field-find_field key g empty_vector f k e = cc
update_field-find_field key g (field h fields) f k e =
    elim (first-found key g h f (h.name === key) (find_field key fields) e) [
      | inl (n, same) ↦
          let m : ((g h).name === key) ≡ true = rw (k h) n in rw (n, m) (ap some (ap g same))
      | inr (n, later) ↦ rw (n, n) (update_field-find_field key g fields f k later)
    ]
update_field-find_field key g (nested_field h inner fields) f k e =
    elim (first-found key g h f (h.name === key) (find_field key fields) e) [
      | inl (n, same) ↦
          let m : ((g h).name === key) ≡ true = rw (k h) n in rw (n, m) (ap some (ap g same))
      | inr (n, later) ↦ rw (n, n) (update_field-find_field key g fields f k later)
    ]

pattern_error-none :
    {R : Type 0} (L : Library R) (key : Bytes) (p s : Option Bytes)
    → pattern_error L key p none s ≡ none
pattern_error-none L key p s = refl

-- When the regular expression that `pattern` gets does not compile, every value passes the pattern of that field.
pub pattern-passes :
    {R : Type 0} (L : Library R) (key regex_pattern : Bytes) (schema : ContainerSchema R)
    (f : FieldDef R)
    → L.regex regex_pattern ≡ none
    → find_field key schema ≡ some f
    → (f' : FieldDef R) × (find_field key (pattern L key regex_pattern schema) ≡ some f')
      × ((v : OptimizedValue) (errors : Errors) → validate_pattern L f' v errors ≡ (errors, true))
unfolding pattern validate_pattern
pattern-passes {R = R} L key regex_pattern schema f bad e =
    let g = λ (f : FieldDef R). record f {
      pattern_str = some regex_pattern;
      compiled_pattern = L.regex regex_pattern;
    } in
    (
      g f,
      update_field-find_field key g schema f (λ h. refl) e,
      λ v errors. rw bad (
          ap (λ o. report o errors)
            (pattern_error-none L f.name (some regex_pattern) (string_of v))),
    )
