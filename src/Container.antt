-- ===== src/Container.antt =====
-- class value_container (core/container.cpp, include/kcenon/container/container.h): the header, the
-- values and the flags. A method that takes the lock is one step. The process-wide metrics counters
-- are not part of the state.
pub mod Storage
pub mod Join
pub mod Lookup
pub mod Updates
pub mod Names
pub mod Moves
pub mod Results
pub mod Headers
pub mod Batches
mod Examples
use container_system.Base.{
  ℕ, ◌+◌, ◌%◌, ◌^◌, Bool, true, false, Option, none, some, List, [], ◌∷◌, Bytes, codes, ◌===◌,
  if◌then◌else◌, ◌&&◌, map,
}
use container_system.Value.{
  ValueTypes, Header, Status, ValueVariant, OptimizedValue, optimized_value, Units, no_units, unit,
  ValueContainer, value_container, index, name_of, is_stack_allocated,
}
use container_system.Container.Storage.{
  find_unit, has_unit, find_found, has_found, replace_unit, append_unit, Update, missing, differs,
  updated, update_unit,
}

abbrev pub units_of : ValueContainer → Units
units_of (value_container h s us) = us

abbrev pub header_of : ValueContainer → Header
header_of (value_container h s us) = h

abbrev pub status_of : ValueContainer → Status
status_of (value_container h s us) = s

abbrev pub data_container : Bytes
data_container = codes "data_container"

-- The default constructor.
unfoldable pub new_container : ValueContainer
new_container =
    value_container
      (record {
        source_id = [];
        source_sub_id = [];
        target_id = [];
        target_sub_id = [];
        message_type = data_container;
        version = codes "1.0.0.0";
      })
      (record {
        parsed_data = true;
        changed_data = false;
        data_string = codes "@data={{}};";
        use_soo = true;
        heap_allocations = 0;
        stack_allocations = 0;
      })
      no_units

-- The move constructor: the new container, and the other one. The initialiser list leaves out the
-- values, which stay where they are. `header_left` and `text_left` are what std::string leaves in a
-- string that was moved from, which it does not say.
unfoldable pub move_construct : Header → Bytes → ValueContainer → ValueContainer × ValueContainer
move_construct header_left text_left (value_container h s us) = (
  value_container h
      (record {
        parsed_data = s.parsed_data;
        changed_data = s.changed_data;
        data_string = s.data_string;
        use_soo = true;
        heap_allocations = 0;
        stack_allocations = 0;
      })
      no_units,
  value_container header_left
      (record s { parsed_data = true; changed_data = false; data_string = text_left }) us,
)

-- Move assignment from another container: this one, and the other one. `units_left` is what
-- std::vector leaves in a vector that was moved from.
unfoldable pub move_assign :
    Header → Bytes → Units → ValueContainer → ValueContainer → ValueContainer × ValueContainer
move_assign header_left text_left units_left (value_container h s us) (value_container h' s' us') =
    (
      value_container h'
          (record s {
            parsed_data = s'.parsed_data;
            changed_data = s'.changed_data;
            data_string = s'.data_string;
            use_soo = s'.use_soo;
          })
          us',
      value_container header_left
          (record s' { parsed_data = true; changed_data = false; data_string = text_left })
          units_left,
    )

unfoldable pub set_source : Bytes → Bytes → ValueContainer → ValueContainer
set_source sid ssubid (value_container h s us) =
    value_container (record h { source_id = sid; source_sub_id = ssubid }) s us

unfoldable pub set_target : Bytes → Bytes → ValueContainer → ValueContainer
set_target tid tsubid (value_container h s us) =
    value_container (record h { target_id = tid; target_sub_id = tsubid }) s us

unfoldable pub set_message_type : Bytes → ValueContainer → ValueContainer
set_message_type msg_type (value_container h s us) =
    value_container (record h { message_type = msg_type }) s us

unfoldable pub swap_header : ValueContainer → ValueContainer
swap_header (value_container h s us) =
    value_container
      (record h {
        source_id = h.target_id;
        target_id = h.source_id;
        source_sub_id = h.target_sub_id;
        target_sub_id = h.source_sub_id;
      })
      s us

unfoldable pub clear_value : ValueContainer → ValueContainer
clear_value (value_container h s us) =
    value_container h
      (record s { parsed_data = true; changed_data = false; data_string = codes "@data={{}};" })
      no_units

unfoldable pub initialize : ValueContainer → ValueContainer
unfolding clear_value
initialize (value_container h s us) = clear_value (
    value_container
      (record {
        source_id = [];
        source_sub_id = [];
        target_id = [];
        target_sub_id = [];
        message_type = data_container;
        version = codes "1.0";
      })
      s us)

unfoldable pub get : Bytes → ValueContainer → Option OptimizedValue
get key (value_container h s us) = find_unit key us

unfoldable pub contains : Bytes → ValueContainer → Bool
contains key (value_container h s us) = has_unit key us

-- `get` and `contains_batch` over several keys.
unfoldable pub get_batch : List Bytes → ValueContainer → List (Option OptimizedValue)
get_batch [] c = []
get_batch (key ∷ keys) c = find_found key (units_of c) ∷ get_batch keys c

unfoldable pub contains_batch : List Bytes → ValueContainer → List Bool
contains_batch [] c = []
contains_batch (key ∷ keys) c = has_found key (units_of c) ∷ contains_batch keys c

abbrev pub mark_changed : Status → Status
mark_changed s = record s { changed_data = true }

-- The counter of a new value.
unfoldable pub count_allocation : OptimizedValue → Status → Status
count_allocation val s =
    if s.use_soo && is_stack_allocated val
    then record s { stack_allocations = (s.stack_allocations + 1) % 2 ^ 64 }
    else record s { heap_allocations = (s.heap_allocations + 1) % 2 ^ 64 }

-- The name was found, and its value replaced, or the value is added and counted.
abbrev finish_set : Header → Status → Units → OptimizedValue → Option Units → ValueContainer
finish_set h s us val (some us') = value_container h (mark_changed s) us'
finish_set h s us val none =
    value_container h (count_allocation val (mark_changed s)) (append_unit us val)

unfoldable pub set_unit_impl : OptimizedValue → ValueContainer → ValueContainer
set_unit_impl val (value_container h s us) = finish_set h s us val (replace_unit val us)

-- `set(key, value)`, and `set(val)`, which is `set_unit_impl`
unfoldable pub set_typed : Bytes → ValueVariant → ValueContainer → ValueContainer
set_typed key data_val c = set_unit_impl (optimized_value key (index data_val) data_val) c

unfoldable pub set_all : List OptimizedValue → ValueContainer → ValueContainer
set_all [] c = c
set_all (val ∷ vals) c = set_all vals (set_unit_impl val c)

unfoldable pub insert_each : List OptimizedValue → ValueContainer → ValueContainer
insert_each [] c = c
insert_each (val ∷ vals) (value_container h s us) =
    insert_each vals (value_container h (count_allocation val s) (append_unit us val))

unfoldable pub set_changed : ValueContainer → ValueContainer
set_changed (value_container h s us) = value_container h (mark_changed s) us

-- Both overloads of `bulk_insert`: they differ in what they reserve.
unfoldable pub bulk_insert : List OptimizedValue → ValueContainer → ValueContainer
bulk_insert [] c = c
bulk_insert (val ∷ vals) c = set_changed (insert_each (val ∷ vals) c)

module _ (equal : ValueVariant → ValueVariant → Bool) where
  abbrev finish_update : Header → Status → Units → Update → ValueContainer × Bool
  finish_update h s us missing = (value_container h s us, false)
  finish_update h s us differs = (value_container h s us, false)
  finish_update h s us (updated us') = (value_container h (mark_changed s) us', true)

  unfoldable pub update_if :
      Bytes → ValueVariant → ValueVariant → ValueContainer → ValueContainer × Bool
  update_if key expected new_value (value_container h s us) =
      finish_update h s us (update_unit equal key expected new_value us)
