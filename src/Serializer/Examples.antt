-- ===== src/Serializer/Examples.antt =====
-- Runs of the serializer (core/serializers/msgpack_serializer.cpp and core/container.cpp) on concrete
-- containers.
use container_system.Base.{ℕ, Bytes, [], ◌∷◌, arith}
use container_system.Container.{new_container}
use container_system.Value.{
  Header, Status, Units, no_units, unit, optimized_value, short_value, short, string_value, string,
  value_container, index,
}
use container_system.Base.{◌===◌, some, refl, codes, ◌≡◌, ◌^◌, ◌<◌, length, true, false}
use container_system.Base.Int.{negsuc}
use container_system.Serializer.Write.{serialize_container}
use container_system.Serializer.Wire.{IsFlat, wire}
use container_system.Serializer.Scalars.{read_units}
use container_system.Serializer.Entries.{IsShort, read_header}
use container_system.Serializer.RoundTrip.{read_status, from_msgpack_impl-serialize_container}
use container_system.Serializer.Read.{from_msgpack_impl, returned}
use container_system.Serializer.Steps.{Returns}
use container_system.Serializer.Total.{from_msgpack_impl-Returns}

-- A conversion of a float's bits to a double's for the runs, which never read one.
abbrev keep_bits : ℕ → ℕ
keep_bits n = n

abbrev damaged_map : Bytes
damaged_map = 0x82 ∷ 0xa6 ∷ 104 ∷ []

-- A map whose first key is longer than the data.
from_msgpack_impl-Returns_example :
    Returns (from_msgpack_impl keep_bits 4 damaged_map new_container)
from_msgpack_impl-Returns_example =
    from_msgpack_impl-Returns keep_bits 4 damaged_map new_container
      (omega arith, (omega arith, (omega arith, tt))) (omega arith) (omega arith)

abbrev message_header : Header
message_header = record {
  source_id = codes "a";
  source_sub_id = [];
  target_id = codes "b";
  target_sub_id = [];
  message_type = codes "greeting";
  version = codes "1.0";
}

abbrev status : Status
status = record {
  parsed_data = true;
  changed_data = false;
  data_string = [];
  use_soo = true;
  heap_allocations = 0;
  stack_allocations = 0;
}

abbrev values : Units
values =
    unit (optimized_value (codes "n") short_value (short (negsuc 4)))
      (unit (optimized_value (codes "s") string_value (string (codes "hi"))) no_units)

values-IsFlat : IsFlat values
unfolding index
values-IsFlat = (omega arith, (refl, (omega arith, (omega arith, (refl, (omega arith, tt))))))

header-IsShort : IsShort message_header
header-IsShort = (omega arith, omega arith, omega arith, omega arith, omega arith, omega arith)

wire-small : length (wire message_header values) < 2 ^ 63
unfolding ◌===◌
wire-small = omega arith

from_msgpack_impl-serialize_container_example :
    (serialize_container (value_container message_header status values)
      ≡ some (wire message_header values))
    × (from_msgpack_impl keep_bits 1
          (wire message_header values)
          (value_container message_header status no_units)
        ≡ returned
            (value_container (read_header message_header) (read_status status) (read_units values))
            true)
from_msgpack_impl-serialize_container_example =
    from_msgpack_impl-serialize_container keep_bits 0 message_header status values message_header
      status no_units header-IsShort values-IsFlat (omega arith) wire-small
