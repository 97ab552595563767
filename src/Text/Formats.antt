-- ===== src/Text/Formats.antt =====
-- The choice of a format in core/container.cpp: detect_format, serialize, serialize_string and the
-- overloads of deserialize with and without a format, the packet files, the copies, and
-- core/serializers/serializer_factory.cpp. The allocations that they catch failures of do not fail
-- here.
use container_system.Base.{
  ℕ, Bool, true, false, Option, none, some, [], ◌∷◌, ◌++◌, Bytes, codes, ◌==◌, leb, ◌===◌, ◌&&◌,
  ◌||◌, if◌then◌else◌, take,
}
use container_system.Base.Int.{ℤ, negsuc}
use container_system.ErrorCodes.{serialization_failed, deserialization_failed, invalid_format}
use container_system.Value.{ValueContainer}
use container_system.Container.Results.{ErrorInfo, Result, ok, error, container_error}
use container_system.Serializer.Write.{serialize_container}
use container_system.Serializer.Read.{
  Outcome as MsgpackOutcome, returned as read_returned, outside as read_outside,
  out_of_fuel as read_out_of_fuel, from_msgpack_impl,
}
use container_system.Text.{span_space}
use container_system.Text.Write.{FloatText, serialize_to_string}
use container_system.Text.Markup.{json_text, xml_text}
use container_system.Text.Calls.{Called, done, outside, no_fuel, deserialize_result}

-- enum class serialization_format
pub data SerializationFormat : Type 0 where
  binary json xml msgpack auto_detect unknown : SerializationFormat

-- detect_format of a text, behind the spaces in front.
unfoldable pub first_char : Bytes → SerializationFormat
first_char [] = unknown
first_char (c ∷ s) =
    if (c == b'{') || (c == b'[')
    then json
    else if c == b'<'
    then xml
    else if take 7 (c ∷ s) === codes "@header"
    then binary
    else if take 5 (c ∷ s) === codes "@data"
    then binary
    else unknown

unfoldable pub detect_text : Bytes → SerializationFormat
unfolding first_char
detect_text s = first_char (span_space s).1

unfoldable pub is_map_byte : ℕ → Bool
is_map_byte c = (leb 128 c && leb c 143) || ((c == 222) || (c == 223))

-- detect_format of bytes
unfoldable pub detect_bytes : Bytes → SerializationFormat
unfolding detect_text is_map_byte
detect_bytes [] = unknown
detect_bytes (c ∷ s) = if is_map_byte c then msgpack else detect_text (c ∷ s)

-- The serializers that `serializer_factory::create` makes.
pub data Serializer : Type 0 where
  binary_serializer json_serializer xml_serializer msgpack_serializer : Serializer

unfoldable pub create : SerializationFormat → Option Serializer
create binary = some binary_serializer
create json = some json_serializer
create xml = some xml_serializer
create msgpack = some msgpack_serializer
create auto_detect = none
create unknown = none

unfoldable pub is_supported : SerializationFormat → Bool
is_supported binary = true
is_supported json = true
is_supported xml = true
is_supported msgpack = true
is_supported auto_detect = false
is_supported unknown = false

-- The result of a serializer whose body gives a text, or throws from `std::get`.
abbrev pub written : FloatText → ℤ → Bytes → Bytes → Option Bytes → Result Bytes
written lib code message reporter none =
    error (record { code = code; message = message ++ lib.what (codes "get"); reporter = reporter })
written lib code message reporter (some text) = ok text

-- `serialize` of each serializer.
unfoldable pub serialize_with : FloatText → Serializer → ValueContainer → Result Bytes
serialize_with lib binary_serializer c =
    written lib (negsuc 0) (codes "Binary serialization failed: ") (codes "binary_serializer")
      (serialize_to_string lib c)
serialize_with lib json_serializer c =
    written lib (negsuc 0) (codes "JSON serialization failed: ") (codes "json_serializer")
      (json_text lib c)
serialize_with lib xml_serializer c =
    written lib (negsuc 0) (codes "XML serialization failed: ") (codes "xml_serializer")
      (xml_text lib c)
serialize_with lib msgpack_serializer c =
    written lib (negsuc 0) (codes "MessagePack serialization failed: ") (codes "msgpack_serializer")
      (serialize_container c)

abbrev pub no_format : ErrorInfo
no_format = record {
  code = invalid_format;
  message = codes "Cannot serialize with auto_detect or unknown format";
  reporter = codes "container_system";
}

abbrev pub serialize_made : FloatText → Option Serializer → ValueContainer → Result Bytes
serialize_made lib none c = error no_format
serialize_made lib (some serializer) c = serialize_with lib serializer c

-- `serialize(fmt)`
unfoldable pub serialize : FloatText → SerializationFormat → ValueContainer → Result Bytes
unfolding create
serialize lib fmt c = serialize_made lib (create fmt) c

-- `serialize_string(fmt)`
abbrev pub string_written : FloatText → Option Bytes → Result Bytes
string_written lib text =
    written lib serialization_failed (codes "Serialization failed: ") (codes "container_system")
      text

unfoldable pub serialize_string : FloatText → SerializationFormat → ValueContainer → Result Bytes
unfolding serialize_with
serialize_string lib binary c = string_written lib (serialize_to_string lib c)
serialize_string lib json c = string_written lib (json_text lib c)
serialize_string lib xml c = string_written lib (xml_text lib c)
serialize_string lib msgpack c = serialize_with lib msgpack_serializer c
serialize_string lib auto_detect c = error no_format
serialize_string lib unknown c = error no_format

-- The result of `from_msgpack_impl` in the switch.
abbrev pub from_msgpack : MsgpackOutcome → Called (Result (Unit {0}))
from_msgpack (read_returned c true) = done c (ok tt)
from_msgpack (read_returned c false) =
    done c (error (container_error deserialization_failed (codes "Invalid MessagePack data")))
from_msgpack read_outside = outside
from_msgpack read_out_of_fuel = no_fuel

abbrev pub unsupported : ErrorInfo
unsupported = record {
  code = invalid_format;
  message = codes "Unknown or unsupported serialization format";
  reporter = codes "container_system";
}

module _ (lib : FloatText) (widen : ℕ → ℕ) (fuel : ℕ) where
  -- The switch on the format, behind the detection; `auto_detect` is no case of it.
  unfoldable pub deserialize_as :
      Bytes → SerializationFormat → ValueContainer → Called (Result (Unit {0}))
  unfolding deserialize_result
  deserialize_as text binary c = deserialize_result lib fuel text false c
  deserialize_as text json c = deserialize_result lib fuel text false c
  deserialize_as text xml c = deserialize_result lib fuel text false c
  deserialize_as text msgpack c = from_msgpack (from_msgpack_impl widen fuel text c)
  deserialize_as text auto_detect c = done c (error unsupported)
  deserialize_as text unknown c = done c (error unsupported)

  abbrev pub resolve : SerializationFormat → SerializationFormat → SerializationFormat
  resolve auto_detect detected = detected
  resolve fmt detected = fmt

  -- `deserialize(span, fmt)` and `deserialize(string_view, fmt)`
  unfoldable pub deserialize_span :
      Bytes → SerializationFormat → ValueContainer → Called (Result (Unit {0}))
  unfolding deserialize_as detect_bytes
  deserialize_span text fmt c = deserialize_as text (resolve fmt (detect_bytes text)) c

  unfoldable pub deserialize_view :
      Bytes → SerializationFormat → ValueContainer → Called (Result (Unit {0}))
  unfolding deserialize_as detect_text
  deserialize_view text fmt c = deserialize_as text (resolve fmt (detect_text text)) c

  -- The overloads without a format.
  unfoldable pub deserialize_any : Bytes → ValueContainer → Called (Result (Unit {0}))
  unfolding deserialize_span detect_bytes
  deserialize_any text c = deserialize_span text (detect_bytes text) c

  unfoldable pub deserialize_any_view : Bytes → ValueContainer → Called (Result (Unit {0}))
  unfolding deserialize_view detect_text
  deserialize_any_view text c = deserialize_view text (detect_text text) c
