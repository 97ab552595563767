-- ===== src/Schema/Ranges.antt =====
-- The range check of class container_schema (core/container_schema.cpp) on unsigned values.
use container_system.Base.{ℕ, ◌-◌, ◌^◌, ◌≤◌, ◌≡◌, refl, ◌↔◌, true, Option, none, some, Bytes, arith}
use container_system.Base.Int.{ℤ, negsuc, ◌≤ℤ◌, to_signed}
use container_system.Value.{optimized_value, ulong_value, ulong}
use container_system.Schema.{Library, FieldDef}
use container_system.Schema.Errors.{ValidationError}
use container_system.Schema.Validate.{
  Errors, report, either_error, int64_of, double_of, int_range_error, double_range_error,
  validate_range,
}
use container_system.Schema.Checks.{int_range_iff}

report-true :
    (o : Option ValidationError) (errors : Errors) → ((report o errors).1 ≡ true) ↔ (o ≡ none)
report-true none errors = (λ e. refl, λ e. refl)
report-true (some e) errors = (λ e. cc, λ e. cc)

either-none : (o : Option ValidationError) → either_error o none ≡ o
either-none none = refl
either-none (some e) = refl

no_double :
    {R : Type 0} (L : Library R) (key : Bytes) (min max : Option ℕ)
    → double_range_error L key min max none ≡ none
no_double L key none max = refl
no_double L key (some min) none = refl
no_double L key (some min) (some max) = refl

to_signed-large : (x : ℕ) → 2 ^ 63 ≤ x → to_signed (2 ^ 64) x ≡ negsuc (2 ^ 64 - 1 - x)
to_signed-large x h = ground arith

-- An unsigned long of 2^63 or more passes the integer range of its field exactly when the number less 2^64,
-- which is negative, is within the range, whatever the number itself is.
pub validate_range-ulong :
    {R : Type 0} (L : Library R) (f : FieldDef R) (n : Bytes) (x : ℕ) (min max : ℤ)
    (errors : Errors)
    → f.min_int ≡ some min
    → f.max_int ≡ some max
    → 2 ^ 63 ≤ x
    → ((validate_range L f (optimized_value n ulong_value (ulong x)) errors).1 ≡ true)
      ↔ ((min ≤ℤ negsuc (2 ^ 64 - 1 - x)) × (negsuc (2 ^ 64 - 1 - x) ≤ℤ max))
unfolding validate_range int64_of double_of
validate_range-ulong L f n x min max errors a b h =
    let (p, q) = int_range_iff L f.name (some min) (some max) (some (negsuc (2 ^ 64 - 1 - x))) in
    rw
      (
        a,
        b,
        to_signed-large x h,
        no_double L f.name f.min_double f.max_double,
        either-none
            (int_range_error L f.name (some min) (some max) (some (negsuc (2 ^ 64 - 1 - x)))),
      )
      (let (r, s) =
          report-true
            (int_range_error L f.name (some min) (some max) (some (negsuc (2 ^ 64 - 1 - x))))
            errors in
        (λ z. p (r z), λ z. s (q z)))
