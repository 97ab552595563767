-- ===== src/Schema/Conforms.antt =====
-- What a schema asks of a container, and `validate_all` of class container_schema (core/container_schema.cpp).
use container_system.Base.{
  ℕ, ◌-◌, ◌^◌, ◌≤◌, ◌≡◌, true, false, Option, none, some, List, Bytes, get_elem?, All, length, ltb,
  ◌==◌, ◌===◌, if◌then◌else◌,
}
use container_system.Base.Int.{ℤ, pos, negsuc, ◌≤ℤ◌}
use container_system.Value.{
  ValueVariant, short, ushort, int, uint, long, ulong, llong, ullong, float, double, string, bytes,
  container, container_value, OptimizedValue, optimized_value, ValueContainer, type_of, type_code,
  index, Units, no_units, unit,
}
use container_system.Container.{units_of}
use container_system.Schema.{
  Library, accepted, FieldDef, ContainerSchema, empty_vector, field, nested_field,
}

-- The first value of a name.
unfoldable pub first_named : Bytes → Units → Option OptimizedValue
first_named key no_units = none
first_named key (unit (optimized_value n t d) us) =
    if n === key then some (optimized_value n t d) else first_named key us

-- What data of a number, a text or a container hold. An unsigned number is read as an int64_t: one of
-- 2 ^ 63 or more is less by 2 ^ 64.
abbrev pub as_signed : ℕ → ℤ
as_signed n = if ltb n (2 ^ 63) then pos n else negsuc (2 ^ 64 - 1 - n)

abbrev pub integer : ValueVariant → Option ℤ
integer (short x) = some x
integer (int x) = some x
integer (long x) = some x
integer (llong x) = some x
integer (ushort x) = some (pos x)
integer (uint x) = some (pos x)
integer (ulong x) = some (as_signed x)
integer (ullong x) = some (as_signed x)
integer d = none

abbrev pub size : ValueVariant → Option ℕ
size (string s) = some (length s)
size (bytes s) = some (length s)
size d = none

abbrev pub text : ValueVariant → Option Bytes
text (string s) = some s
text d = none

abbrev pub inner : ValueVariant → Option ValueContainer
inner (container c) = some c
inner d = none

-- The data of a value that has the type of its data.
abbrev pub held {ℓ} : {A : Type ℓ} → (ValueVariant → Option A) → OptimizedValue → Option A
held f (optimized_value n t d) = if type_code t == type_code (index d) then f d else none

-- What a value of the type of containers holds: `some none` where that is no container.
abbrev pub held_container : OptimizedValue → Option (Option ValueContainer)
held_container (optimized_value n t d) =
    if type_code t == type_code container_value then some (inner d) else none

-- What each constraint asks, where it is set and the value is of a kind it is about.
abbrev pub InInts : Option ℤ → Option ℤ → Option ℤ → Type 0
InInts (some min) (some max) (some x) = (min ≤ℤ x) × (x ≤ℤ max)
InInts min max x = Unit

abbrev pub InLengths : Option ℕ → Option ℕ → Option ℕ → Type 0
InLengths (some min) (some max) (some n) = (min ≤ n) × (n ≤ max)
InLengths min max n = Unit

abbrev pub InAllowed : Option (List Bytes) → Option Bytes → Type 0
InAllowed (some allowed) (some s) = (i : ℕ) × (get_elem? allowed i ≡ some s)
InAllowed allowed s = Unit

abbrev pub InNested : Option (ValueContainer → Type 0) → Option (Option ValueContainer) → Type 0
InNested none d = Unit
InNested (some P) none = Unit
InNested (some P) (some none) = ⊥
InNested (some P) (some (some c)) = P c

module _ {R : Type 0} (L : Library R) where
  abbrev pub real : ValueVariant → Option ℕ
  real (float x) = some (L.float_to_double x)
  real (double x) = some x
  real d = none

  abbrev pub InDoubles : Option ℕ → Option ℕ → Option ℕ → Type 0
  InDoubles (some min) (some max) (some x) =
      (L.double_lt x min ≡ false) × (L.double_lt max x ≡ false)
  InDoubles min max x = Unit

  abbrev pub Matches : Option R → Option Bytes → Type 0
  Matches (some r) (some s) = L.regex_match s r ≡ some true
  Matches r s = Unit

  -- All constraints of a field but the nested schema.
  pub record Fits (f : FieldDef R) (v : OptimizedValue) : Type 0 where
    pub type : type_of v ≡ f.type
    pub ints : InInts f.min_int f.max_int (held integer v)
    pub doubles : InDoubles f.min_double f.max_double (held real v)
    pub lengths : InLengths f.min_length f.max_length (held size v)
    pub matches : Matches f.compiled_pattern (held text v)
    pub allowed : InAllowed f.allowed_values (held text v)
    pub accepts : All (λ validator. validator v ≡ accepted) f.custom_validators

  abbrev pub FieldFits :
      Option (ValueContainer → Type 0) → FieldDef R → Option OptimizedValue → Type 0
  FieldFits nested f none = f.required ≡ false
  FieldFits nested f (some v) = Fits f v × InNested nested (held_container v)

  -- A container conforms when each field is there, if it is required, and fits, if it is there.
  unfoldable pub Conforms : ContainerSchema R → ValueContainer → Type 0
  Conforms empty_vector c = Unit
  Conforms (field f fields) c =
      FieldFits none f (first_named f.name (units_of c)) × Conforms fields c
  Conforms (nested_field f nested fields) c =
      FieldFits (some (Conforms nested)) f (first_named f.name (units_of c)) × Conforms fields c
