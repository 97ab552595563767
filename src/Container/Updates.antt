-- ===== src/Container/Updates.antt =====
-- `update_if` of core/container.cpp.
use container_system.Base.{
  ◌≡◌, ◌∙◌, refl, Bool, true, false, Option, none, some, Bytes, ◌===◌, ===_iff, if◌then◌else◌, ◌&&◌,
  arith,
}
use container_system.Value.{
  Header, Status, ValueVariant, OptimizedValue, optimized_value, Units, no_units, unit,
  ValueContainer, value_container, data_of, index,
}
use container_system.Container.Storage.{
  find_unit, Update, missing, differs, updated, under, update_unit,
}
use container_system.Container.{get, update_if, finish_update}

module _ (equal : ValueVariant → ValueVariant → Bool) where
  -- Whether a value is there and its data are as expected.
  abbrev pub as_expected : ValueVariant → Option OptimizedValue → Bool
  as_expected expected none = false
  as_expected expected (some v) = equal (data_of v) expected

  abbrev succeeded : Update → Bool
  succeeded missing = false
  succeeded differs = false
  succeeded (updated us) = true

  abbrev units_after : Units → Update → Units
  units_after us missing = us
  units_after us differs = us
  units_after us (updated us') = us'

module _ (equal : ValueVariant → ValueVariant → Bool) (key : Bytes)
    (expected new_value : ValueVariant) where
  succeeded-under :
      (x : OptimizedValue) (u : Update) → succeeded equal (under x u) ≡ succeeded equal u
  succeeded-under x missing = refl
  succeeded-under x differs = refl
  succeeded-under x (updated us) = refl

  units_after-under :
      (x : OptimizedValue) (us : Units) (u : Update)
      → units_after equal (unit x us) (under x u) ≡ unit x (units_after equal us u)
  units_after-under x us missing = refl
  units_after-under x us differs = refl
  units_after-under x us (updated us') = refl

  update_unit-succeeded :
      (us : Units)
      → succeeded equal (update_unit equal key expected new_value us)
        ≡ as_expected equal expected (find_unit key us)
  unfolding update_unit find_unit
  update_unit-succeeded no_units = refl
  update_unit-succeeded (unit (optimized_value n t d) us) = ground (
    arith,
    update_unit-succeeded us,
    succeeded-under (optimized_value n t d) (update_unit equal key expected new_value us),
  )

  find_unit-update_unit :
      (j : Bytes) (us : Units)
      → find_unit j (units_after equal us (update_unit equal key expected new_value us)) ≡ (
          if succeeded equal (update_unit equal key expected new_value us) && key === j
          then some (optimized_value key (index new_value) new_value)
          else find_unit j us)
  unfolding update_unit find_unit
  find_unit-update_unit j no_units = refl
  find_unit-update_unit j (unit (optimized_value n t d) us) = ground (
    arith,
    find_unit-update_unit j us,
    ===_iff n key,
    ===_iff n j,
    ===_iff key j,
    succeeded-under (optimized_value n t d) (update_unit equal key expected new_value us),
    units_after-under (optimized_value n t d) us (update_unit equal key expected new_value us),
  )

module _ (equal : ValueVariant → ValueVariant → Bool) where
  finish_update_lem :
      (h : Header) (s : Status) (us : Units) (u : Update) (j : Bytes)
      → ((finish_update equal h s us u).1 ≡ succeeded equal u)
        × (get j (finish_update equal h s us u).0 ≡ find_unit j (units_after equal us u))
  unfolding get
  finish_update_lem h s us missing j = (refl, refl)
  finish_update_lem h s us differs j = (refl, refl)
  finish_update_lem h s us (updated us') j = (refl, refl)

  finish_update-same :
      (h : Header) (s : Status) (us : Units) (u : Update)
      → succeeded equal u ≡ false
      → finish_update equal h s us u ≡ (value_container h s us, false)
  finish_update-same h s us missing e = refl
  finish_update-same h s us differs e = refl
  finish_update-same h s us (updated us') e = cc

  -- `update_if` reports success exactly when the key has a value whose data are as expected. Then
  -- the key has the new data under their type and no other key changes; otherwise every key has
  -- what it had.
  pub update_if-outcome :
      (key : Bytes) (expected new_value : ValueVariant) (c : ValueContainer) (j : Bytes)
      → ((update_if equal key expected new_value c).1 ≡ as_expected equal expected (get key c))
        × (get j (update_if equal key expected new_value c).0 ≡ (
            if as_expected equal expected (get key c) && key === j
            then some (optimized_value key (index new_value) new_value)
            else get j c))
  unfolding update_if get
  update_if-outcome key expected new_value (value_container h s us) j =
      let u : Update = update_unit equal key expected new_value us in
      let (a, b) = finish_update_lem h s us u j in
      let e = update_unit-succeeded equal key expected new_value us in
      rw (← e) (a, b ∙ find_unit-update_unit equal key expected new_value j us)

  -- If the key has no value, or one whose data are not as expected, `update_if` leaves the whole
  -- container as it was.
  pub update_if-refused :
      (key : Bytes) (expected new_value : ValueVariant) (c : ValueContainer)
      → as_expected equal expected (get key c) ≡ false
      → update_if equal key expected new_value c ≡ (c, false)
  unfolding update_if get
  update_if-refused key expected new_value (value_container h s us) e =
      finish_update-same h s us _ (update_unit-succeeded equal key expected new_value us ∙ e)
