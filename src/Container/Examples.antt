-- ===== src/Container/Examples.antt =====
-- Runs of class value_container (core/container.cpp) on concrete values.
use container_system.Base.{
  suc, ◌≡◌, refl, Bool, true, false, some, Bytes, [], ◌∷◌, codes, map, ◌===◌, if◌then◌else◌, ◌&&◌,
}
use container_system.Base.Int.{pos, leb_ℤ}
use container_system.Value.{
  no_units, Header, ValueVariant, string, int, bool, string_value, int_value, OptimizedValue,
  optimized_value, ValueContainer, index, name_of,
}
use container_system.Container.{
  header_of, units_of, new_container, get, contains, get_batch, contains_batch, set_unit_impl,
  set_all, bulk_insert, update_if, move_construct, move_assign,
}
use container_system.Container.Storage.{has_unit, replace_unit, append_unit}
use container_system.Container.Lookup.{
  ◌or_else◌, first_of_name, last_of_name, get-set_unit_impl, get-set_all, get-bulk_insert,
}
use container_system.Container.Updates.{as_expected, update_if-outcome}
use container_system.Container.Names.{DistinctNames, count_units, set_unit_impl-DistinctNames}
use container_system.Container.Results.{
  lookups, Answers, set_all_result, before_nameless, outcome_of, set_all_result-set_all,
}
use container_system.Container.Batches.{
  UpdateSpec, update_batch_if, each_update, update_batch_if-update_if,
}
use container_system.Container.Moves.{move_construct-contains}

abbrev host : Bytes
host = codes "host"

abbrev port : Bytes
port = codes "port"

abbrev host_value : OptimizedValue
host_value = optimized_value host string_value (string (codes "a"))

abbrev new_host : OptimizedValue
new_host = optimized_value host string_value (string (codes "b"))

abbrev port_value : OptimizedValue
port_value = optimized_value port int_value (int (pos 80))

abbrev sample : ValueContainer
sample = set_unit_impl port_value (set_unit_impl host_value new_container)

-- `operator==` on two values of which each is an int or none is.
abbrev equal_ints : ValueVariant → ValueVariant → Bool
equal_ints (int a) (int b) = leb_ℤ a b && leb_ℤ b a
equal_ints _ _ = false

get-set_unit_impl_example :
    get host (set_unit_impl new_host sample)
    ≡ (if name_of new_host === host then some new_host else get host sample)
get-set_unit_impl_example = get-set_unit_impl host new_host sample

get-set_all_example :
    get host (set_all (host_value ∷ port_value ∷ new_host ∷ []) sample)
    ≡ (last_of_name host (host_value ∷ port_value ∷ new_host ∷ []) or_else get host sample)
get-set_all_example = get-set_all host (host_value ∷ port_value ∷ new_host ∷ []) sample

get-bulk_insert_example :
    get host (bulk_insert (new_host ∷ host_value ∷ []) new_container)
    ≡ (get host new_container or_else first_of_name host (new_host ∷ host_value ∷ []))
get-bulk_insert_example = get-bulk_insert host (new_host ∷ host_value ∷ []) new_container

update_if-outcome_example :
    ((update_if equal_ints port (int (pos 80)) (bool true) sample).1
      ≡ as_expected equal_ints (int (pos 80)) (get port sample))
    × (get port (update_if equal_ints port (int (pos 80)) (bool true) sample).0 ≡ (
        if as_expected equal_ints (int (pos 80)) (get port sample) && port === port
        then some (optimized_value port (index (bool true)) (bool true))
        else get port sample))
update_if-outcome_example = update_if-outcome equal_ints port (int (pos 80)) (bool true) sample port

new_container-DistinctNames : DistinctNames (units_of new_container)
unfolding new_container
new_container-DistinctNames = tt

sample-DistinctNames : DistinctNames (units_of sample)
unfolding set_unit_impl new_container has_unit replace_unit append_unit ◌===◌
sample-DistinctNames = (refl, (refl, tt))

set_unit_impl-DistinctNames_example :
    DistinctNames (units_of (set_unit_impl new_host sample))
    × (count_units (units_of (set_unit_impl new_host sample)) ≡ (
        if contains (name_of new_host) sample
        then count_units (units_of sample)
        else suc (count_units (units_of sample))))
    × (contains (name_of new_host) (set_unit_impl new_host sample) ≡ true)
set_unit_impl-DistinctNames_example =
    set_unit_impl-DistinctNames new_host sample sample-DistinctNames

abbrev empty_header : Header
empty_header = header_of new_container

move_construct-contains_example :
    (contains port (move_construct empty_header [] sample).0 ≡ false)
    × (contains port (move_construct empty_header [] sample).1 ≡ true)
    × (header_of (move_construct empty_header [] sample).0 ≡ header_of sample)
    × (contains port (move_assign empty_header [] no_units new_container sample).0 ≡ true)
    × (header_of (move_assign empty_header [] no_units new_container sample).0 ≡ header_of sample)
unfolding contains set_unit_impl new_container has_unit replace_unit append_unit ◌===◌
move_construct-contains_example =
    move_construct-contains empty_header [] no_units new_container sample port refl

abbrev nameless : OptimizedValue
nameless = optimized_value [] int_value (int (pos 1))

set_all_result-set_all_example : set_all_result (new_host ∷ nameless ∷ port_value ∷ []) sample ≡ (
  set_all (before_nameless (new_host ∷ nameless ∷ port_value ∷ [])) sample,
  outcome_of (new_host ∷ nameless ∷ port_value ∷ []),
)
set_all_result-set_all_example =
    set_all_result-set_all (new_host ∷ nameless ∷ port_value ∷ []) sample

abbrev open_port : UpdateSpec
open_port = record { key = port; expected = int (pos 80); new_value = bool true }

abbrev close_port : UpdateSpec
close_port = record { key = port; expected = int (pos 81); new_value = bool false }

update_batch_if-update_if_example :
    update_batch_if equal_ints (close_port ∷ open_port ∷ []) sample
    ≡ each_update equal_ints (close_port ∷ open_port ∷ []) sample
update_batch_if-update_if_example =
    update_batch_if-update_if equal_ints (close_port ∷ open_port ∷ []) sample

lookups_example :
    Answers port sample
    × (get_batch (port ∷ [] ∷ host ∷ []) sample ≡ map (λ k. get k sample) (port ∷ [] ∷ host ∷ []))
    × (contains_batch (port ∷ [] ∷ host ∷ []) sample
        ≡ map (λ k. contains k sample) (port ∷ [] ∷ host ∷ []))
lookups_example = lookups port (port ∷ [] ∷ host ∷ []) sample
