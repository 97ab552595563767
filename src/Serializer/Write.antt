-- ===== src/Serializer/Write.antt =====
-- core/serializers/msgpack_serializer.cpp. `none` stands for the exception that `std::get` throws
-- where the type of a unit is not that of its data; `serialize` turns it into the error -1.
use container_system.Base.{
  ℕ, suc, ◌%◌, ◌^◌, Option, none, some, Bytes, codes, ◌===◌, ◌==◌, if◌then◌else◌, ◌>>=◌,
}
use container_system.Base.Int.{ℤ, negsuc}
use container_system.Value.{
  ValueTypes, Header, ValueVariant, monostate, null_container, null_array, bool, short, int, long,
  llong, ushort, uint, ulong, ullong, float, double, string, bytes, container, array, Items,
  no_items, item, OptimizedValue, optimized_value, Units, no_units, unit, ValueContainer,
  value_container, index, type_code,
}
use container_system.Container.{data_container}
use container_system.Msgpack.Encoder.{
  MsgpackEncoder, new_encoder, write_nil, write_bool, write_uint, write_int, write_float,
  write_double, write_string, write_binary, write_array_header, write_map_header, finish,
}

-- The case of `write_value_to_encoder` that `type` selects: null_value is written as nil whatever the
-- data are, and every other type wants the data to hold its alternative.
abbrev pub typed :
    ValueTypes → ValueTypes → MsgpackEncoder → Option MsgpackEncoder → Option MsgpackEncoder
typed type held e written =
    if type_code type == 0
    then some (write_nil e)
    else if type_code type == type_code held
    then written
    else none

abbrev pub count_items : Items → ℕ
count_items no_items = 0
count_items (item d ds) = suc (count_items ds)

abbrev pub count_units : Units → ℕ
count_units no_units = 0
count_units (unit v us) = suc (count_units us)

abbrev pub write_pair : Bytes → Bytes → MsgpackEncoder → MsgpackEncoder
write_pair key value e = write_string value (write_string key e)

-- The part of serialize_container_to_msgpack before the values.
unfoldable pub write_header : Header → MsgpackEncoder → MsgpackEncoder
write_header h e =
    let plain = h.message_type === data_container in
    let opened =
      write_map_header (if plain then 2 else 6)
        (write_string (codes "header") (write_map_header 2 e)) in
    let addressed =
      if plain
      then opened
      else write_pair (codes "source_sub_id") h.source_sub_id (
          write_pair (codes "source_id") h.source_id (
            write_pair (codes "target_sub_id") h.target_sub_id
              (write_pair (codes "target_id") h.target_id opened))) in
    write_string (codes "values") (
      write_pair (codes "version") h.version
        (write_pair (codes "message_type") h.message_type addressed))

unfoldable mutual
  -- What write_value_to_encoder writes for data under their own type.
  pub write_data : ValueVariant → MsgpackEncoder → Option MsgpackEncoder
  write_data monostate e = some (write_nil e)
  write_data (bool b) e = some (write_bool b e)
  write_data (short n) e = some (write_int n e)
  write_data (ushort n) e = some (write_uint n e)
  write_data (int n) e = some (write_int n e)
  write_data (uint n) e = some (write_uint n e)
  write_data (long n) e = some (write_int n e)
  write_data (ulong n) e = some (write_uint n e)
  write_data (llong n) e = some (write_int n e)
  write_data (ullong n) e = some (write_uint n e)
  write_data (float n) e = some (write_float n e)
  write_data (double n) e = some (write_double n e)
  write_data (string s) e = some (write_string s e)
  write_data (bytes s) e = some (write_binary s e)
  write_data (container c) e = do
    nested_data ← serialize_container c
    some (write_binary nested_data e)
  write_data null_container e = some (write_nil e)
  write_data (array ds) e = write_items ds (write_array_header (count_items ds % 2 ^ 32) e)
  write_data null_array e = some (write_array_header 0 e)

  pub write_items : Items → MsgpackEncoder → Option MsgpackEncoder
  write_items no_items e = some e
  write_items (item d ds) e = do
    e' ← typed (index d) (index d) e (write_data d e)
    write_items ds e'

  pub write_units : Units → MsgpackEncoder → Option MsgpackEncoder
  write_units no_units e = some e
  write_units (unit v us) e = do e' ← write_unit v e; write_units us e'

  pub write_unit : OptimizedValue → MsgpackEncoder → Option MsgpackEncoder
  write_unit (optimized_value name type d) e =
      let keyed = write_string name e in typed type (index d) keyed (write_data d keyed)

  -- serialize_container_to_msgpack
  pub serialize_container : ValueContainer → Option Bytes
  serialize_container (value_container h s us) = do
    e ← write_units us (write_map_header (count_units us) (write_header h new_encoder))
    some (finish e).0

-- `Result<std::vector<uint8_t>>`, with the code of the error.
pub data Serialized : Type 0 where
  ok : Bytes → Serialized
  error : ℤ → Serialized

-- msgpack_serializer::serialize
unfoldable pub serialize : ValueContainer → Serialized
serialize c = elim (serialize_container c) [
  | some data_bytes ↦ ok data_bytes
  | none ↦ error (negsuc 0)
]
