-- ===== src/Text/Write.antt =====
-- What writes the text format: variant_helpers::to_string of container/variant_helpers.h,
-- value_container::datas and core/serializers/binary_serializer.cpp.
use container_system.Base.{ℕ, Option, none, some, [], ◌∷◌, ◌++◌, Bytes, codes, ◌===◌, if◌then◌else◌}
use container_system.Value.{
  ValueTypes, null_value, bool_value, short_value, ushort_value, int_value, uint_value, long_value,
  ulong_value, llong_value, ullong_value, float_value, double_value, string_value, bytes_value,
  container_value, array_value, Header, ValueVariant, bool, short, ushort, int, uint, long, ulong,
  llong, ullong, float, double, string, OptimizedValue, optimized_value, Units, no_units, unit,
  ValueContainer, value_container, get_string_from_type,
}
use container_system.Container.{data_container}
use container_system.Text.Numbers.{print_nat, print_int}

-- std::to_string of floats, std::stof and std::stod, whose `none` is an exception, and what the
-- exception of a reader of numbers says.
pub record FloatText : Type 0 where
  pub print_float : ℕ → Bytes
  pub print_double : ℕ → Bytes
  pub read_float : Bytes → Option ℕ
  pub read_double : Bytes → Option ℕ
  pub what : Bytes → Bytes

-- `std::get` of another alternative than the one there throws: `none`.
unfoldable pub to_string : FloatText → ValueTypes → ValueVariant → Option Bytes
to_string lib null_value d = some []
to_string lib bool_value (bool x) = some (if x then codes "true" else codes "false")
to_string lib short_value (short x) = some (print_int x)
to_string lib ushort_value (ushort x) = some (print_nat x)
to_string lib int_value (int x) = some (print_int x)
to_string lib uint_value (uint x) = some (print_nat x)
to_string lib long_value (long x) = some (print_int x)
to_string lib ulong_value (ulong x) = some (print_nat x)
to_string lib llong_value (llong x) = some (print_int x)
to_string lib ullong_value (ullong x) = some (print_nat x)
to_string lib float_value (float x) = some (lib.print_float x)
to_string lib double_value (double x) = some (lib.print_double x)
to_string lib string_value (string s) = some s
to_string lib bytes_value d = some []
to_string lib container_value d = some []
to_string lib array_value d = some []
to_string lib _ d = none

-- `[{},{},{}];`
abbrev pub item_line : Bytes → Bytes → Bytes → Bytes
item_line n t v = b'[' ∷ (n ++ (b',' ∷ (t ++ (b',' ∷ (v ++ (b']' ∷ b';' ∷ []))))))

abbrev pub add_line : OptimizedValue → Option Bytes → Option Bytes → Option Bytes
add_line (optimized_value n t d) (some v) (some rest) =
    some (item_line n (get_string_from_type t) v ++ rest)
add_line u v rest = none

-- The loop of `datas`, and the closing braces.
unfoldable pub lines : FloatText → Units → Option Bytes
lines lib no_units = some (codes "}};")
lines lib (unit (optimized_value n t d) us) =
    add_line (optimized_value n t d) (to_string lib t d) (lines lib us)

abbrev pub after_text : Bytes → Option Bytes → Option Bytes
after_text s none = none
after_text s (some t) = some (s ++ t)

unfoldable pub datas : FloatText → ValueContainer → Option Bytes
datas lib (value_container h s us) =
    if s.parsed_data then after_text (codes "@data={{") (lines lib us) else some s.data_string

-- `[{},{}];`
abbrev pub pair_line : Bytes → Bytes → Bytes
pair_line key v = b'[' ∷ (key ++ (b',' ∷ (v ++ (b']' ∷ b';' ∷ []))))

abbrev pub id_lines : Header → Bytes
id_lines h =
    pair_line (codes "1") h.target_id
    ++ (pair_line (codes "2") h.target_sub_id
        ++ (pair_line (codes "3") h.source_id ++ pair_line (codes "4") h.source_sub_id))

unfoldable pub header_text : Header → Bytes
header_text h =
    codes "@header={{"
    ++ ((if h.message_type === data_container then [] else id_lines h)
        ++ (pair_line (codes "5") h.message_type
            ++ (pair_line (codes "6") h.version ++ codes "}};")))

-- binary_serializer::serialize_to_string
unfoldable pub serialize_to_string : FloatText → ValueContainer → Option Bytes
unfolding datas
serialize_to_string lib (value_container h s us) =
    after_text (header_text h) (datas lib (value_container h s us))
