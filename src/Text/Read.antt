-- ===== src/Text/Read.antt =====
-- value_container::deserialize and deserialize_values of core/container.cpp. A nested container is
-- read by a call of `deserialize` itself; the calls are bounded by fuel.
use container_system.Base.{
  ℕ, zero, suc, ◌%◌, ◌^◌, Bool, true, false, Option, none, some, List, [], ◌∷◌, Bytes, codes, ◌==◌,
  ◌===◌, ◌||◌, if◌then◌else◌,
}
use container_system.Base.Int.{to_unsigned, to_signed}
use container_system.Value.{
  ValueTypes, null_value, bool_value, short_value, ushort_value, int_value, uint_value, long_value,
  ulong_value, llong_value, ullong_value, float_value, double_value, string_value, bytes_value,
  container_value, array_value, Header, Status, ValueVariant, monostate, bool, short, ushort, int,
  uint, long, ulong, llong, ullong, float, double, string, bytes, container, optimized_value,
  no_units, ValueContainer, value_container, get_type_from_string,
}
use container_system.Container.{new_container, initialize}
use container_system.Container.Storage.{append_unit}
use container_system.Text.{Item, remove_newlines, search_section, find_pairs, find_items}
use container_system.Text.Numbers.{stoi, stol, stoll, stoul, stoull}
use container_system.Text.Write.{FloatText}

-- A call leaves a container and returns, or throws what the text says. `out_of_fuel` is no result of
-- the code.
pub data Outcome : Type 0 where
  returned : ValueContainer → Bool → Outcome
  threw : ValueContainer → Bytes → Outcome
  out_of_fuel : Outcome

-- The reading of one value.
pub data Parsed : Type 0 where
  parsed : ValueVariant → Parsed
  raised : Bytes → Parsed
  no_fuel : Parsed

-- `find_first_not_of(' ')` and `find_last_not_of(' ')`
unfoldable pub trim_start : Bytes → Bytes
trim_start [] = []
trim_start (c ∷ s) = let rest = trim_start s in if c == b' ' then rest else c ∷ s

abbrev pub keep_end : ℕ → Bytes → Bytes
keep_end c [] = if c == b' ' then [] else c ∷ []
keep_end c (d ∷ s) = c ∷ d ∷ s

unfoldable pub trim_end : Bytes → Bytes
trim_end [] = []
trim_end (c ∷ s) = keep_end c (trim_end s)

unfoldable pub trim : Bytes → Bytes
trim s = trim_end (trim_start s)

-- `parsing(source_name, target_name, target_value, target_variable)`: the variable.
unfoldable pub parsing : Bytes → Bytes → Bytes → Bytes → Bytes
parsing source_name target_name target_value target_variable =
    if source_name === target_name then trim target_value else target_variable

unfoldable pub parse_pair : Bytes × Bytes → Header → Header
unfolding parsing
parse_pair (key, v) h = record {
  target_id = parsing key (codes "1") v h.target_id;
  target_sub_id = parsing key (codes "2") v h.target_sub_id;
  source_id = parsing key (codes "3") v h.source_id;
  source_sub_id = parsing key (codes "4") v h.source_sub_id;
  message_type = parsing key (codes "5") v h.message_type;
  version = parsing key (codes "6") v h.version;
}

unfoldable pub parse_pairs : List (Bytes × Bytes) → Header → Header
parse_pairs [] h = h
parse_pairs (p ∷ ps) h = parse_pairs ps (parse_pair p h)

-- A number that is not there, or not in range, throws from the function of that name.
abbrev pub or_raise {ℓ} : {A : Type ℓ} → FloatText → Bytes → Option A → (A → ValueVariant) → Parsed
or_raise lib reader none k = raised (lib.what reader)
or_raise lib reader (some x) k = parsed (k x)

-- `if (!dataStr.empty() && nested->deserialize(dataStr, false))`
abbrev pub nested_data : Bytes → Outcome → Parsed
nested_data [] r = parsed monostate
nested_data (c ∷ s) (returned nested true) = parsed (container nested)
nested_data (c ∷ s) (returned nested false) = parsed monostate
nested_data (c ∷ s) (threw nested w) = raised w
nested_data (c ∷ s) out_of_fuel = no_fuel

-- The switch on the type; `nested` is the call for a nested container.
unfoldable pub parse_data : FloatText → (Bytes → Outcome) → ValueTypes → Bytes → Parsed
parse_data lib nested null_value s = parsed monostate
parse_data lib nested bool_value s = parsed (bool ((s === codes "true") || (s === codes "1")))
parse_data lib nested short_value s =
    or_raise lib (codes "stoi") (stoi s) λ x. short (to_signed (2 ^ 16) (to_unsigned (2 ^ 16) x))
parse_data lib nested ushort_value s =
    or_raise lib (codes "stoul") (stoul s) λ x. ushort (x % 2 ^ 16)
parse_data lib nested int_value s = or_raise lib (codes "stoi") (stoi s) int
parse_data lib nested uint_value s = or_raise lib (codes "stoul") (stoul s) λ x. uint (x % 2 ^ 32)
parse_data lib nested long_value s = or_raise lib (codes "stol") (stol s) long
parse_data lib nested ulong_value s = or_raise lib (codes "stoul") (stoul s) ulong
parse_data lib nested llong_value s = or_raise lib (codes "stoll") (stoll s) llong
parse_data lib nested ullong_value s = or_raise lib (codes "stoull") (stoull s) ullong
parse_data lib nested float_value s = or_raise lib (codes "stof") (lib.read_float s) float
parse_data lib nested double_value s = or_raise lib (codes "stod") (lib.read_double s) double
parse_data lib nested string_value s = parsed (string s)
parse_data lib nested bytes_value s = parsed (bytes s)
parse_data lib nested container_value s = nested_data s (nested s)
parse_data lib nested array_value s = parsed monostate

abbrev pub push_parsed : Item → Parsed → ValueContainer → (ValueContainer → Outcome) → Outcome
push_parsed it (parsed d) (value_container h s us) k = k (
    value_container h s
      (append_unit us (optimized_value it.item_name (get_type_from_string it.item_type) d)))
push_parsed it (raised w) c k = threw c w
push_parsed it no_fuel c k = out_of_fuel

-- The loop over the items.
unfoldable pub push_items : FloatText → (Bytes → Outcome) → List Item → ValueContainer → Outcome
push_items lib nested [] c = returned c true
push_items lib nested (it ∷ items) c =
    push_parsed it (parse_data lib nested (get_type_from_string it.item_type) it.item_text) c
      λ c'. push_items lib nested items c'

abbrev pub no_data : Bytes
no_data = codes "@data={{}}"

-- What follows the search for the data section.
abbrev pub parse_section :
    FloatText → (Bytes → Outcome) → Bool → Header → Status → Option (Bytes × Bytes) → Outcome
parse_section lib nested parse_only_header h s none =
    returned
      (value_container h
        (record s { parsed_data = true; changed_data = false; data_string = no_data }) no_units)
      false
parse_section lib nested true h s (some (text, inside)) =
    returned
      (value_container h
        (record s { parsed_data = false; changed_data = false; data_string = text }) no_units)
      true
parse_section lib nested false h s (some (text, inside)) = push_items lib nested (find_items text) (
    value_container h (record s { parsed_data = true; changed_data = false; data_string = text })
      no_units)

abbrev pub data_tag : Bytes
data_tag = codes "@data="

abbrev pub header_tag : Bytes
header_tag = codes "@header="

unfoldable pub values_with : FloatText → (Bytes → Outcome) → Bytes → Bool → ValueContainer → Outcome
values_with lib nested text parse_only_header (value_container h s us) =
    parse_section lib nested parse_only_header h s (search_section data_tag text)

-- What follows the search for the header.
abbrev pub parse_header : Option (Bytes × Bytes) → ValueContainer → ValueContainer
parse_header none c = c
parse_header (some (text, inside)) (value_container h s us) =
    value_container (parse_pairs (find_pairs inside) h) s us

abbrev pub parse_clean : FloatText → (Bytes → Outcome) → Bytes → Bool → ValueContainer → Outcome
parse_clean lib nested clean parse_only_header c =
    values_with lib nested clean parse_only_header
      (parse_header (search_section header_tag clean) c)

unfoldable pub text_with : FloatText → (Bytes → Outcome) → Bytes → Bool → ValueContainer → Outcome
text_with lib nested [] parse_only_header c = returned (initialize c) false
text_with lib nested (b ∷ text) parse_only_header c =
    parse_clean lib nested (remove_newlines (b ∷ text)) parse_only_header (initialize c)

unfoldable pub deserialize : FloatText → ℕ → Bytes → Bool → ValueContainer → Outcome
deserialize lib zero text parse_only_header c = out_of_fuel
deserialize lib (suc fuel) text parse_only_header c =
    text_with lib (λ s. deserialize lib fuel s false new_container) text parse_only_header c

unfoldable pub deserialize_values : FloatText → ℕ → Bytes → Bool → ValueContainer → Outcome
unfolding values_with
deserialize_values lib fuel text parse_only_header c =
    values_with lib (λ s. deserialize lib fuel s false new_container) text parse_only_header c
