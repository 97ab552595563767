-- ===== src/Text/Removal.antt =====
-- What `remove_batch` and `remove_result` of core/container.cpp leave.
use container_system.Base.{
  ℕ, ◌+◌, ◌-◌, ◌≤◌, ◌≡◌, refl, ◌∙◌, Bool, true, false, none, List, [], ◌∷◌, Bytes, ◌===◌, ===_sound,
  ◌||◌, ltb, if◌then◌else◌, inl, inr, arith, Bool-cases,
}
use container_system.ErrorCodes.{key_not_found}
use container_system.Value.{
  Header, Status, optimized_value, Units, no_units, unit, ValueContainer, value_container,
}
use container_system.Container.{get, contains, units_of, header_of, status_of, set_changed}
use container_system.Container.Storage.{find_unit, has_unit}
use container_system.Container.Results.{ok, error, container_error}
use container_system.Serializer.Write.{count_units}
use container_system.Text.Write.{FloatText}
use container_system.Text.Calls.{
  done, with_values, in_keys, remove_units, mark_if, erase_keys, remove_batch, erase_name,
  remove_result,
}

find_unit-remove_units :
    (drops : Bytes → Bool) (key : Bytes) (us : Units)
    → find_unit key (remove_units drops us) ≡ (if drops key then none else find_unit key us)
unfolding find_unit remove_units
find_unit-remove_units drops key no_units = elim (Bool-cases (drops key)) [
  | inl e ↦ rw e refl
  | inr e ↦ rw e refl
]
find_unit-remove_units drops key (unit (optimized_value n t d) us) = elim (Bool-cases (n === key)) [
  | inl e ↦
      let f : n ≡ key = ===_sound n key e in
      ground (arith, find_unit-remove_units drops key us, e, f)
  | inr e ↦ ground (arith, find_unit-remove_units drops key us, e)
]

count-remove_units :
    (drops : Bytes → Bool) (us : Units) → count_units (remove_units drops us) ≤ count_units us
unfolding remove_units
count-remove_units drops no_units = omega arith
count-remove_units drops (unit v us) = ground (arith, count-remove_units drops us)

get-mark_if : (b : Bool) (key : Bytes) (c : ValueContainer) → get key (mark_if b c) ≡ get key c
unfolding get set_changed
get-mark_if true key (value_container h s us) = refl
get-mark_if false key c = refl

mark_if-fields :
    (b : Bool) (c : ValueContainer)
    → (header_of (mark_if b c) ≡ header_of c)
      × (units_of (mark_if b c) ≡ units_of c)
      × ((status_of (mark_if b c)).changed_data ≡ (b || (status_of c).changed_data))
unfolding set_changed
mark_if-fields true (value_container h s us) = (refl, refl, refl)
mark_if-fields false (value_container h s us) = (refl, refl, refl)

-- On a container whose values are parsed, `remove_batch` returns, and keeps the header. A key of the
-- list then has no value and any other key the value it had. The number it returns and the number of
-- values that are left make up the number of values that were there, and the container counts as
-- changed exactly when it did before or that number is not zero.
pub remove_batch-get :
    (lib : FloatText) (fuel : ℕ) (keys : List Bytes) (h : Header) (s : Status) (us : Units)
    (key : Bytes)
    → s.parsed_data ≡ true
    → (c : ValueContainer) × (n : ℕ) × (remove_batch lib fuel keys (value_container h s us)
        ≡ done c n)
      × (header_of c ≡ h)
      × (get key c ≡ (if in_keys key keys then none else get key (value_container h s us)))
      × (n + count_units (units_of c) ≡ count_units us)
      × ((status_of c).changed_data ≡ (ltb 0 n || s.changed_data))
unfolding remove_batch with_values get erase_keys in_keys
remove_batch-get lib fuel [] h s us key e =
    (value_container h s us, 0, refl, refl, refl, omega arith, refl)
remove_batch-get lib fuel (k ∷ keys) h s us key e =
    let left : Units = remove_units (λ name. in_keys name (k ∷ keys)) us in
    let n : ℕ = count_units us - count_units left in
    let c : ValueContainer = mark_if (ltb 0 n) (value_container h s left) in
    let f : (header_of c ≡ h)
        × (units_of c ≡ left)
        × ((status_of c).changed_data ≡ (ltb 0 n || s.changed_data)) =
      mark_if-fields (ltb 0 n) (value_container h s left) in
    (
      c,
      n,
      rw e refl,
      f.0,
      get-mark_if (ltb 0 n) key (value_container h s left)
          ∙ find_unit-remove_units (λ name. in_keys name (k ∷ keys)) key us,
      rw (f.1) (omega (arith, count-remove_units (λ name. in_keys name (k ∷ keys)) us)),
      f.2,
    )

has_unit-absent : (key : Bytes) (us : Units) → has_unit key us ≡ false → find_unit key us ≡ none
unfolding has_unit find_unit
has_unit-absent key no_units h = refl
has_unit-absent key (unit v us) h = ground (arith, h, has_unit-absent key us)

absent-if :
    (name key : Bytes) (us : Units)
    → has_unit name us ≡ false
    → find_unit key us ≡ (if key === name then none else find_unit key us)
absent-if name key us f = elim (Bool-cases (key === name)) [
  | inl e ↦ let g : key ≡ name = ===_sound key name e in rw e (rw g (has_unit-absent name us f))
  | inr e ↦ rw e refl
]

-- On a container whose values are parsed, `remove_result` succeeds exactly if the name has a value,
-- and the error is that the key was not found. The header is kept, the name then has no value and any
-- other key the value it had, and the container counts as changed exactly when it did before or the
-- name had a value.
pub remove_result-get :
    (lib : FloatText) (fuel : ℕ) (name : Bytes) (h : Header) (s : Status) (us : Units) (key : Bytes)
    → s.parsed_data ≡ true
    → (c : ValueContainer) × (remove_result lib fuel name (value_container h s us)
        ≡ done c (
            if contains name (value_container h s us)
            then ok tt
            else error (container_error key_not_found name)))
      × (header_of c ≡ h)
      × (get key c ≡ (if key === name then none else get key (value_container h s us)))
      × ((status_of c).changed_data ≡ (contains name (value_container h s us) || s.changed_data))
unfolding remove_result with_values erase_name get contains set_changed
remove_result-get lib fuel name h s us key e = elim (Bool-cases (has_unit name us)) [
  | inl f ↦ (
    value_container h (record s { changed_data = true }) (remove_units (λ n. n === name) us),
    rw (e, f) refl,
    refl,
    find_unit-remove_units (λ n. n === name) key us,
    rw f refl,
  )
  | inr f ↦ (value_container h s us, rw (e, f) refl, refl, absent-if name key us f, rw f refl)
]
