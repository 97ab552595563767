-- ===== src/Container/Storage.antt =====
-- The loops over `optimized_units_` of core/container.cpp.
use container_system.Base.{Bool, true, false, Option, none, some, Bytes, ◌===◌, if◌then◌else◌}
use container_system.Value.{
  ValueVariant, OptimizedValue, optimized_value, Units, no_units, unit, index, name_of,
}

-- The first unit of that name.
unfoldable pub find_unit : Bytes → Units → Option OptimizedValue
find_unit key no_units = none
find_unit key (unit val us) = if name_of val === key then some val else find_unit key us

unfoldable pub has_unit : Bytes → Units → Bool
has_unit key no_units = false
has_unit key (unit val us) = if name_of val === key then true else has_unit key us

-- The loops of `get` and `contains_batch` over several keys for one key, which set `found`.
unfoldable pub find_found : Bytes → Units → Option OptimizedValue
find_found key no_units = none
find_found key (unit val us) = if name_of val === key then some val else find_found key us

unfoldable pub has_found : Bytes → Units → Bool
has_found key no_units = false
has_found key (unit val us) = if name_of val === key then true else has_found key us

-- `existing = val` on the first unit of the name of `val`; `none` if there is no such unit.
unfoldable pub replace_unit : OptimizedValue → Units → Option Units
replace_unit val no_units = none
replace_unit val (unit existing us) =
    let rest = replace_unit val us in
    if name_of existing === name_of val
    then some (unit val us)
    else elim rest [ none ↦ none | some us' ↦ some (unit existing us') ]

-- `optimized_units_.push_back(val)`
unfoldable pub append_unit : Units → OptimizedValue → Units
append_unit no_units val = unit val no_units
append_unit (unit x us) val = unit x (append_unit us val)

-- Whether the loop of `update_if` finds the name, and whether the data are as expected there.
pub data Update : Type 0 where
  missing differs : Update
  updated : Units → Update

abbrev pub under : OptimizedValue → Update → Update
under x missing = missing
under x differs = differs
under x (updated us) = updated (unit x us)

-- `equal` is `operator==` of `value_variant`, which compares floats by value and the two kinds of
-- pointer by address.
module _ (equal : ValueVariant → ValueVariant → Bool) where
  unfoldable pub update_unit : Bytes → ValueVariant → ValueVariant → Units → Update
  update_unit key expected new_value no_units = missing
  update_unit key expected new_value (unit (optimized_value n t d) us) =
      let rest = update_unit key expected new_value us in
      if n === key
      then (if equal d expected
          then updated (unit (optimized_value n (index new_value) new_value) us)
          else differs)
      else under (optimized_value n t d) rest
