-- ===== src/Text/Markup.antt =====
-- What variant_helpers of container/variant_helpers.h and the serializers for JSON and XML write
-- (core/serializers/json_serializer.cpp, core/serializers/xml_serializer.cpp).
use container_system.Base.{
  ℕ, ◌+◌, ◌-◌, ◌/◌, ◌%◌, Bool, true, false, Option, none, some, [], ◌∷◌, ◌++◌, Bytes, codes, ◌==◌,
  ◌===◌, ◌&&◌, ◌||◌, not, ltb, if◌then◌else◌,
}
use container_system.Value.{
  ValueTypes, string_value, bytes_value, Header, OptimizedValue, optimized_value, Units, no_units,
  unit, ValueContainer, value_container,
}
use container_system.Container.{data_container, units_of}
use container_system.Text.Write.{FloatText, to_string, after_text}

-- A digit of `%x`.
abbrev pub hex_digit : ℕ → ℕ
hex_digit n = if ltb n 10 then b'0' + n else b'a' + (n - 10)

-- The switch of `json_escape` on one character.
unfoldable pub json_char : ℕ → Bytes
json_char c =
    if c == b'"'
    then codes "\\\""
    else if c == b'\\'
    then codes "\\\\"
    else if c == 8
    then codes "\\b"
    else if c == 12
    then codes "\\f"
    else if c == 10
    then codes "\\n"
    else if c == 13
    then codes "\\r"
    else if c == 9
    then codes "\\t"
    else if ltb c 32
    then codes "\\u00" ++ (hex_digit (c / 16) ∷ hex_digit (c % 16) ∷ [])
    else c ∷ []

unfoldable pub json_escape : Bytes → Bytes
json_escape [] = []
json_escape (c ∷ input) = json_char c ++ json_escape input

-- The switch of `xml_encode` on one character.
unfoldable pub xml_char : ℕ → Bytes
xml_char c =
    if c == b'&'
    then codes "&amp;"
    else if c == b'<'
    then codes "&lt;"
    else if c == b'>'
    then codes "&gt;"
    else if c == b'"'
    then codes "&quot;"
    else if c == 39
    then codes "&apos;"
    else if ltb c 32 && not ((c == 9) || ((c == 10) || (c == 13)))
    then codes "&#x" ++ (hex_digit (c / 16) ∷ hex_digit (c % 16) ∷ b';' ∷ [])
    else c ∷ []

unfoldable pub xml_encode : Bytes → Bytes
xml_encode [] = []
xml_encode (c ∷ input) = xml_char c ++ xml_encode input

-- get_variant_values
unfoldable pub get_variant_values : ValueContainer → Units
get_variant_values c = units_of c

-- `"name":"value",`
abbrev pub json_field : Bytes → Bytes → Bytes
json_field name v = b'"' ∷ (name ++ (codes "\":\"" ++ (json_escape v ++ codes "\",")))

abbrev pub json_ids : Header → Bytes
json_ids h =
    json_field (codes "target_id") h.target_id
    ++ (json_field (codes "target_sub_id") h.target_sub_id
        ++ (json_field (codes "source_id") h.source_id
            ++ json_field (codes "source_sub_id") h.source_sub_id))

unfoldable pub json_header : Header → Bytes
unfolding json_escape
json_header h =
    codes "{\"header\":{"
    ++ ((if h.message_type === data_container then [] else json_ids h)
        ++ (codes "\"message_type\":\""
            ++ (json_escape h.message_type
                ++ (codes "\",\"version\":\""
                    ++ (json_escape h.version ++ codes "\"},\"values\":{")))))

abbrev pub quoted : ValueTypes → Bytes → Bytes
quoted string_value v = b'"' ∷ (json_escape v ++ (b'"' ∷ []))
quoted bytes_value v = b'"' ∷ (json_escape v ++ (b'"' ∷ []))
quoted t v = v

abbrev pub add_json : Bool → OptimizedValue → Option Bytes → Option Bytes → Option Bytes
add_json first (optimized_value n t d) (some v) (some rest) = some (
    (if first then [] else codes ",")
    ++ (b'"' ∷ (json_escape n ++ (codes "\":" ++ (quoted t v ++ rest)))))
add_json first u v rest = none

-- The loop over the values, and the closing braces.
unfoldable pub json_values : FloatText → Bool → Units → Option Bytes
json_values lib first no_units = some (codes "}}")
json_values lib first (unit (optimized_value n t d) us) =
    add_json first (optimized_value n t d) (to_string lib t d) (json_values lib false us)

-- json_serializer::serialize_to_string
unfoldable pub json_text : FloatText → ValueContainer → Option Bytes
unfolding json_header json_values get_variant_values
json_text lib (value_container h s us) =
    after_text (json_header h) (json_values lib true (get_variant_values (value_container h s us)))

-- `<name>value</name>`
abbrev pub xml_field : Bytes → Bytes → Bytes
xml_field name v = b'<' ∷ (name ++ (b'>' ∷ (xml_encode v ++ (codes "</" ++ (name ++ (b'>' ∷ []))))))

abbrev pub xml_ids : Header → Bytes
xml_ids h =
    xml_field (codes "target_id") h.target_id
    ++ (xml_field (codes "target_sub_id") h.target_sub_id
        ++ (xml_field (codes "source_id") h.source_id
            ++ xml_field (codes "source_sub_id") h.source_sub_id))

unfoldable pub xml_header : Header → Bytes
unfolding xml_encode
xml_header h =
    codes "<container><header>"
    ++ ((if h.message_type === data_container then [] else xml_ids h)
        ++ (xml_field (codes "message_type") h.message_type
            ++ (xml_field (codes "version") h.version ++ codes "</header><values>")))

abbrev pub add_xml : Bytes → Option Bytes → Option Bytes → Option Bytes
add_xml n (some v) (some rest) = some (xml_field n v ++ rest)
add_xml n v rest = none

unfoldable pub xml_values : FloatText → Units → Option Bytes
unfolding xml_encode
xml_values lib no_units = some (codes "</values></container>")
xml_values lib (unit (optimized_value n t d) us) = add_xml n (to_string lib t d) (xml_values lib us)

-- xml_serializer::serialize_to_string
unfoldable pub xml_text : FloatText → ValueContainer → Option Bytes
unfolding xml_header xml_values get_variant_values
xml_text lib (value_container h s us) =
    after_text (xml_header h) (xml_values lib (get_variant_values (value_container h s us)))
