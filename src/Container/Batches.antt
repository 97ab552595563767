-- ===== src/Container/Batches.antt =====
-- `update_batch_if` of core/container.cpp.
use container_system.Base.{
  ◌≡◌, refl, sym, Bool, true, false, List, [], ◌∷◌, Bytes, ◌===◌, if◌then◌else◌, inl, inr,
  Bool-cases,
}
use container_system.Value.{
  Header, Status, ValueTypes, ValueVariant, optimized_value, Units, no_units, unit, ValueContainer,
  value_container, index,
}
use container_system.Container.{mark_changed, finish_update, update_if}
use container_system.Container.Storage.{Update, missing, differs, updated, under, update_unit}

-- struct update_spec
pub record UpdateSpec : Type 0 where
  pub key : Bytes
  pub expected : ValueVariant
  pub new_value : ValueVariant

module _ (equal : ValueVariant → ValueVariant → Bool) where
  -- The inner loop, which ends at the first unit of the name: the units it leaves, and `updated`.
  unfoldable pub update_first : UpdateSpec → Units → Units × Bool
  update_first update no_units = (no_units, false)
  update_first update (unit (optimized_value n t d) us) =
      let rest = update_first update us in
      if n === update.key
      then (if equal d update.expected
          then (unit (optimized_value n (index update.new_value) update.new_value) us, true)
          else (unit (optimized_value n t d) us, false))
      else (unit (optimized_value n t d) rest.0, rest.1)

  unfoldable pub update_batch_if : List UpdateSpec → ValueContainer → ValueContainer × List Bool
  update_batch_if [] c = (c, [])
  update_batch_if (update ∷ updates) (value_container h s us) =
      let now = update_first update us in
      let later =
        update_batch_if updates (value_container h (if now.1 then mark_changed s else s) now.0) in
      (later.0, now.1 ∷ later.1)

  -- `update_if` for one update after the other.
  abbrev pub each_update : List UpdateSpec → ValueContainer → ValueContainer × List Bool
  each_update [] c = (c, [])
  each_update (update ∷ updates) c =
      let now = update_if equal update.key update.expected update.new_value c in
      let later = each_update updates now.0 in (later.0, now.1 ∷ later.1)

  abbrev first_outcome : Units → Update → Units × Bool
  first_outcome us missing = (us, false)
  first_outcome us differs = (us, false)
  first_outcome us (updated us') = (us', true)

  first_outcome-under :
      (n : Bytes) (t : ValueTypes) (d : ValueVariant) (us : Units) (u : Update)
      → first_outcome (unit (optimized_value n t d) us) (under (optimized_value n t d) u)
        ≡ (unit (optimized_value n t d) (first_outcome us u).0, (first_outcome us u).1)
  first_outcome-under n t d us missing = refl
  first_outcome-under n t d us differs = refl
  first_outcome-under n t d us (updated us') = refl

  -- The loops of both functions agree.
  update_first-update_unit :
      (update : UpdateSpec) (us : Units)
      → update_first update us
        ≡ first_outcome us (update_unit equal update.key update.expected update.new_value us)
  unfolding update_first update_unit
  update_first-update_unit update no_units = refl
  update_first-update_unit update (unit (optimized_value n t d) us) =
      elim (Bool-cases (n === update.key)) [
        | inl e ↦ elim (Bool-cases (equal d update.expected)) [
          | inl f ↦ rw (e, f) refl
          | inr f ↦ rw (e, f) refl
        ]
        | inr e ↦
            rw e (rw (update_first-update_unit update us) (sym (first_outcome-under n t d us _)))
      ]

  finish_update-first_outcome :
      (h : Header) (s : Status) (us : Units) (u : Update)
      → finish_update equal h s us u ≡ (
        value_container h
            (if (first_outcome us u).1 then mark_changed s else s)
            (first_outcome us u).0,
        (first_outcome us u).1,
      )
  finish_update-first_outcome h s us missing = refl
  finish_update-first_outcome h s us differs = refl
  finish_update-first_outcome h s us (updated us') = refl

  update_if-update_first :
      (update : UpdateSpec) (h : Header) (s : Status) (us : Units)
      → update_if equal update.key update.expected update.new_value (value_container h s us) ≡ (
        value_container h
            (if (update_first update us).1 then mark_changed s else s)
            (update_first update us).0,
        (update_first update us).1,
      )
  unfolding update_if
  update_if-update_first update h s us = rw (update_first-update_unit update us) (
      finish_update-first_outcome h s us
        (update_unit equal update.key update.expected update.new_value us))

  -- `update_batch_if`, which has a loop of its own, leaves the container that `update_if` leaves when it is
  -- called for one update after the other, and its results are in order those of these calls.
  pub update_batch_if-update_if :
      (updates : List UpdateSpec) (c : ValueContainer)
      → update_batch_if updates c ≡ each_update updates c
  unfolding update_batch_if
  update_batch_if-update_if [] c = refl
  update_batch_if-update_if (update ∷ updates) (value_container h s us) =
      rw (update_if-update_first update h s us) (
        rw
          (update_batch_if-update_if updates (
            value_container h (if (update_first update us).1 then mark_changed s else s)
              (update_first update us).0))
          refl)
