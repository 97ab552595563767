-- ===== src/Container/Names.antt =====
-- The names of the values of a container (core/container.cpp).
use container_system.Base.{
  ℕ, suc, ◌≡◌, refl, ◌∙◌, ap, true, false, none, some, Option-cases, inl, inr, Bytes, List, [], ◌∷◌,
  ◌===◌, ===_iff, if◌then◌else◌, arith,
}
use container_system.Value.{
  OptimizedValue, Units, no_units, unit, ValueContainer, value_container, name_of,
}
use container_system.Container.Storage.{has_unit, replace_unit, append_unit}
use container_system.Container.{units_of, contains, set_unit_impl, set_all}

-- No name stands twice.
abbrev pub DistinctNames : Units → Type 0
DistinctNames no_units = Unit
DistinctNames (unit x us) = (has_unit (name_of x) us ≡ false) × DistinctNames us

abbrev pub count_units : Units → ℕ
count_units no_units = 0
count_units (unit x us) = suc (count_units us)

module _ (val : OptimizedValue) where
  has_unit-append_unit :
      (key : Bytes) (us : Units)
      → has_unit key (append_unit us val)
        ≡ (if has_unit key us then true else if name_of val === key then true else false)
  unfolding has_unit append_unit
  has_unit-append_unit key no_units = refl
  has_unit-append_unit key (unit x us) = ground (arith, has_unit-append_unit key us)

  append_unit-DistinctNames :
      (us : Units)
      → has_unit (name_of val) us ≡ false
      → DistinctNames us
      → DistinctNames (append_unit us val)
  unfolding has_unit append_unit
  append_unit-DistinctNames no_units h d = (refl, tt)
  append_unit-DistinctNames (unit x us) h d = ground (
    arith,
    append_unit-DistinctNames us,
    has_unit-append_unit (name_of x) us,
    ===_iff (name_of x) (name_of val),
    ===_iff (name_of val) (name_of x),
  )

  -- What a replacement leaves as it was.
  replace_unit-same :
      (us us' : Units)
      → replace_unit val us ≡ some us'
      → (has_unit (name_of val) us ≡ true)
        × (count_units us' ≡ count_units us)
        × ((key : Bytes) → has_unit key us' ≡ has_unit key us)
  unfolding has_unit replace_unit
  replace_unit-same no_units us' h = cc
  replace_unit-same (unit x us) us' h = elim (Option-cases (replace_unit val us)) [
    | inl absent ↦
        (ground arith, ground arith, λ key. ground (arith, ===_iff (name_of x) (name_of val)))
    | inr (us2, there) ↦
        let (a, b, c) = replace_unit-same us us2 there in
        (
          ground arith,
          ground arith,
          λ key. ground (arith, c key, ===_iff (name_of x) (name_of val)),
        )
  ]

  replace_unit-absent :
      (us : Units) → replace_unit val us ≡ none → has_unit (name_of val) us ≡ false
  unfolding has_unit replace_unit
  replace_unit-absent no_units h = refl
  replace_unit-absent (unit x us) h = ground (arith, replace_unit-absent us)

  replace_unit-DistinctNames :
      (us us' : Units) → replace_unit val us ≡ some us' → DistinctNames us → DistinctNames us'
  unfolding replace_unit
  replace_unit-DistinctNames no_units us' h d = cc
  replace_unit-DistinctNames (unit x us) us' h d = elim (Option-cases (replace_unit val us)) [
    | inl absent ↦ ground (arith, ===_iff (name_of x) (name_of val))
    | inr (us2, there) ↦ ground (
      arith,
      replace_unit-DistinctNames us us2 there,
      ===_iff (name_of x) (name_of val),
      (replace_unit-same us us2 there).2 (name_of x),
    )
  ]

  count_units-append_unit : (us : Units) → count_units (append_unit us val) ≡ suc (count_units us)
  unfolding append_unit
  count_units-append_unit no_units = refl
  count_units-append_unit (unit x us) = ap suc (count_units-append_unit us)

-- `set` keeps the names distinct. It adds one value if the name is new, and none otherwise, and the
-- name is there afterwards.
pub set_unit_impl-DistinctNames :
    (val : OptimizedValue) (c : ValueContainer)
    → DistinctNames (units_of c)
    → DistinctNames (units_of (set_unit_impl val c))
      × (count_units (units_of (set_unit_impl val c)) ≡ (
          if contains (name_of val) c
          then count_units (units_of c)
          else suc (count_units (units_of c))))
      × (contains (name_of val) (set_unit_impl val c) ≡ true)
unfolding set_unit_impl contains
set_unit_impl-DistinctNames val (value_container h s us) d =
    elim (Option-cases (replace_unit val us)) [
      | inl absent ↦
          let new = replace_unit-absent val us absent in
          rw absent (
            append_unit-DistinctNames val us new d,
            rw new (count_units-append_unit val us),
            ground (
              arith,
              has_unit-append_unit val (name_of val) us,
              ===_iff (name_of val) (name_of val),
            ),
          )
      | inr (us', there) ↦
          let (old, count, same) = replace_unit-same val us us' there in
          rw there
            (replace_unit-DistinctNames val us us' there d, rw old count, same (name_of val) ∙ old)
    ]

-- `set_all` keeps the names distinct.
pub set_all-DistinctNames :
    (vals : List OptimizedValue) (c : ValueContainer)
    → DistinctNames (units_of c)
    → DistinctNames (units_of (set_all vals c))
unfolding set_all
set_all-DistinctNames [] c d = d
set_all-DistinctNames (val ∷ vals) c d =
    set_all-DistinctNames vals (set_unit_impl val c) (set_unit_impl-DistinctNames val c d).0
