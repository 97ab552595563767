-- ===== src/Schema/Decides.antt =====
-- What validation of class container_schema (core/container_schema.cpp) says of a container.
use container_system.Base.{◌≡◌, refl, sym, ◌↔◌, Option, none, some, [], ◌∷◌, append-nil}
use container_system.Value.{OptimizedValue, ValueContainer}
use container_system.Container.{get, units_of}
use mathlib.Core.Path.{subst}
use container_system.Schema.{Library, FieldDef, ContainerSchema, empty_vector, field, nested_field}
use container_system.Schema.Validate.{
  Errors, validate_type, validate_range, validate_length, validate_pattern, validate_allowed,
  validate_custom, validate_nested, validate_field, check_value, validate_fields, validate_all,
  validate, front,
}
use container_system.Schema.Conforms.{
  Fits, InNested, FieldFits, Conforms, held_container, first_named,
}
use container_system.Schema.Held.{container_of-held, get-first_named}
use container_system.Schema.Checks.{
  Reports, report-Reports, then-Reports, Reports_iff, custom_iff, Reports-empty,
}
use container_system.Schema.Fields.{
  nested_value-Reports, validate_type-Reports, validate_range-Reports, validate_length-Reports,
  validate_pattern-Reports, validate_allowed-Reports, Fits-iff, missing-Reports,
}

module _ {R : Type 0} (L : Library R) where
  -- A field whose nested schema `g` decides `P`.
  module _ (g : Option (ValueContainer → Errors)) (P : Option (ValueContainer → Type 0))
      (nested : (f : FieldDef R) (v : OptimizedValue) (errors : Errors)
        → Reports errors (validate_nested L g f v errors).0 (InNested P (held_container v))) where
    validate_field-Reports :
        (f : FieldDef R) (v : OptimizedValue) (errors : Errors)
        → Reports errors
            (validate_field L g f v errors).0
            (Fits L f v × InNested P (held_container v))
    unfolding validate_field validate_custom
    validate_field-Reports f v errors =
        let a = (validate_type L f v errors).0 in
        let b = (validate_range L f v a).0 in
        let c = (validate_length L f v b).0 in
        let d = (validate_pattern L f v c).0 in
        let e = (validate_allowed L f v d).0 in
        let k = (validate_custom L f v e).0 in
        let z = (validate_nested L g f v k).0 in
        Reports_iff errors z (Fits-iff L f v (InNested P (held_container v))) (
          then-Reports errors a z (validate_type-Reports L f v errors) (
            then-Reports a b z (validate_range-Reports L f v a) (
              then-Reports b c z (validate_length-Reports L f v b) (
                then-Reports c d z (validate_pattern-Reports L f v c) (
                  then-Reports d e z (validate_allowed-Reports L f v d) (
                    then-Reports e k z
                      (report-Reports _ e _ (custom_iff f.name v f.custom_validators))
                      (nested f v k)))))))

    check_value-Reports :
        (f : FieldDef R) (o : Option OptimizedValue) (errors : Errors)
        → Reports errors (check_value L g f o errors) (FieldFits L P f o)
    unfolding check_value
    check_value-Reports f none errors = missing-Reports L f.name f.required errors
    check_value-Reports f (some v) errors = validate_field-Reports f v errors

  plain-Reports :
      (f : FieldDef R) (v : OptimizedValue) (errors : Errors)
      → Reports errors (validate_nested L none f v errors).0 (InNested none (held_container v))
  unfolding validate_nested
  plain-Reports f v errors = ([], sym (append-nil errors), (λ e. tt, λ u. refl))

  inner-Reports :
      (g : ValueContainer → Errors) (P : ValueContainer → Type 0)
      → ((c : ValueContainer) → (g c ≡ []) ↔ P c)
      → (f : FieldDef R) (v : OptimizedValue) (errors : Errors)
      → Reports errors
          (validate_nested L (some g) f v errors).0
          (InNested (some P) (held_container v))
  unfolding validate_nested
  inner-Reports g P h f v errors =
      rw (container_of-held v) (nested_value-Reports L g P f.name (held_container v) errors h)

  fits-get :
      (P : Option (ValueContainer → Type 0)) (f : FieldDef R) (c : ValueContainer) (a b : Errors)
      → Reports a b (FieldFits L P f (get f.name c))
      → Reports a b (FieldFits L P f (first_named f.name (units_of c)))
  fits-get P f c a b = subst (λ o. Reports a b (FieldFits L P f o)) (get-first_named f.name c)

  front_iff : (es : Errors) → (front es ≡ none) ↔ (es ≡ [])
  front_iff [] = (λ z. refl, λ z. refl)
  front_iff (e ∷ es) = (λ z. cc, λ z. cc)

  validate_fields-Reports :
      (schema : ContainerSchema R) (c : ValueContainer) (errors : Errors)
      → Reports errors (validate_fields L schema c errors) (Conforms L schema c)
  unfolding validate_fields Conforms
  validate_fields-Reports empty_vector c errors =
      ([], sym (append-nil errors), (λ e. tt, λ u. refl))
  validate_fields-Reports (field f fields) c errors =
      let after = check_value L none f (get f.name c) errors in
      then-Reports errors after (validate_fields L fields c after)
        (fits-get none f c errors after (
          check_value-Reports none none (λ f v errors. plain-Reports f v errors) f (get f.name c)
            errors))
        (validate_fields-Reports fields c after)
  validate_fields-Reports (nested_field f inner fields) c errors =
      let g : ValueContainer → Errors = λ d. validate_fields L inner d [] in
      let after = check_value L (some g) f (get f.name c) errors in
      then-Reports errors after (validate_fields L fields c after)
        (fits-get (some (Conforms L inner)) f c errors after (
          check_value-Reports (some g) (some (Conforms L inner))
            (λ f v errors.
              inner-Reports g (Conforms L inner)
                (λ d.
                  Reports-empty (validate_fields L inner d []) _
                    (validate_fields-Reports inner d []))
                f v errors)
            f (get f.name c) errors))
        (validate_fields-Reports fields c after)

  -- `validate` finds no error exactly in the containers that conform to the schema: every required field is
  -- there, and the first value of every field that is there has its type, its number is within its range,
  -- where an unsigned number of 2^63 or more counts as the number less 2^64, and it has its length, its
  -- pattern, a value of its list, its validators and its nested schema, at any depth.
  pub validate-Conforms :
      (schema : ContainerSchema R) (c : ValueContainer)
      → (validate L schema c ≡ none) ↔ Conforms L schema c
  unfolding validate validate_all
  validate-Conforms schema c =
      let (a, b) =
        Reports-empty (validate_fields L schema c []) _ (validate_fields-Reports schema c []) in
      let (d, e) = front_iff (validate_fields L schema c []) in (λ z. a (d z), λ z. e (b z))
