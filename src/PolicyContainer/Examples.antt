-- ===== src/PolicyContainer/Examples.antt =====
-- Runs of class basic_value_container (include/kcenon/container/policy_container.h) on concrete calls.
use container_system.Base.{◌≡◌, refl, true, false, some, List, [], ◌∷◌, codes, ◌===◌}
use container_system.Value.{
  OptimizedValue, optimized_value, ValueTypes, string_value, bool_value, string, bool, index,
}
use container_system.PolicyContainer.{PolicyContainer, new_policy_container}
use container_system.Policy.Restricted.{static_storage_policy}
use container_system.PolicyContainer.Restricted.{Allowed, run-Allowed}
use container_system.Policy.{dynamic_storage_policy, find_by_key, erase, assign}
use container_system.Policy.Indexed.{IndexedStorage}
use container_system.Policy.Simulation.{IsIndexed}
use container_system.PolicyContainer.Follows.{indexed, dynamic, dynamic_of}
use container_system.PolicyContainer.Calls.{
  Call, Answer, run, set_call, set_typed_call, remove_batch_call, remove_call, get_call,
  contains_batch_call, range_call, nothing, flag, number, found_value, flags, iterated,
}
use container_system.PolicyContainer.Refines.{run-refines, indexed_new, dynamic_new}

abbrev a_value : OptimizedValue
a_value = optimized_value (codes "a") string_value (string (codes "x"))

abbrev b_value : OptimizedValue
b_value = optimized_value (codes "b") string_value (string (codes "y"))

-- Two keys are set, the first is removed, and the second is read and set again.
abbrev sample_calls : List Call
sample_calls =
    set_call a_value
    ∷ set_call b_value
    ∷ remove_call (codes "a")
    ∷ get_call (codes "b")
    ∷ set_typed_call (codes "b") (bool true)
    ∷ contains_batch_call (codes "a" ∷ codes "b" ∷ [])
    ∷ range_call
    ∷ remove_batch_call (codes "b" ∷ codes "b" ∷ [])
    ∷ []

sample_answers :
    run dynamic sample_calls dynamic_new
    ≡ some (
      dynamic_new,
      nothing
          ∷ nothing
          ∷ flag true
          ∷ found_value (some b_value)
          ∷ nothing
          ∷ flags (false ∷ true ∷ [])
          ∷ iterated (optimized_value (codes "b") bool_value (bool true) ∷ [])
          ∷ number 1
          ∷ [],
    )
unfolding run dynamic_storage_policy find_by_key ◌===◌ erase assign index
sample_answers = refl

run-refines_example :
    (c : PolicyContainer IndexedStorage) × (answers : List Answer) × (run indexed sample_calls
        indexed_new
      ≡ some (c, answers))
    × (run dynamic sample_calls dynamic_new ≡ some (dynamic_of c, answers))
    × IsIndexed c.storage
run-refines_example = run-refines sample_calls

abbrev strings_only : List ValueTypes
strings_only = string_value ∷ []

run-Allowed_example :
    (c : PolicyContainer (List OptimizedValue)) × (answers : List Answer) × (run
        (static_storage_policy strings_only)
        sample_calls
        (new_policy_container (static_storage_policy strings_only) [])
      ≡ some (c, answers))
    × Allowed strings_only c.storage
run-Allowed_example = run-Allowed strings_only sample_calls
