-- ===== src/Text/RoundTrip.antt =====
-- Reading what the writer of core/serializers/binary_serializer.cpp makes of a container.
use container_system.Base.{ℕ, suc, ◌≡◌, refl, ap, ◌∙◌, true, false, some, List, [], Bytes, codes}
use container_system.Value.{Header, Status, Units, no_units, ValueContainer, value_container}
use container_system.Container.{data_container, initialize, clear_value}
use container_system.Container.Join.{join}
use container_system.Text.{search_section}
use container_system.Text.Written.{
  PlainItems, find_pairs-text, items_of, data_text, find_items-data_text,
}
use container_system.Text.Searches.{
  whole_text, remove_newlines-whole_text, search-header, search-whole_text,
}
use container_system.Text.Write.{FloatText, serialize_to_string}
use container_system.Text.Read.{
  returned, parse_pairs, push_items, parse_section, parse_header, parse_clean, header_tag,
  values_with, text_with, deserialize,
}
use container_system.Text.Nested.{refuse, deserialize-refuse}
use container_system.Text.Printed.{
  IsTextUnits, IsTextHeader, text_units, text_header, Line, Printed, lines-Printed, pairs_of,
  pairs_of-Plain, parse_pairs-pairs_of, serialize_to_string-whole,
}

abbrev pub text_status : Status → Bytes → Status
text_status s text = record s { parsed_data = true; changed_data = false; data_string = text }

abbrev pub waiting_status : Status → Bytes → Status
waiting_status s text = record s { parsed_data = false; changed_data = false; data_string = text }

-- The header that `initialize` sets.
abbrev fresh_header : Header
fresh_header = record {
  source_id = [];
  source_sub_id = [];
  target_id = [];
  target_sub_id = [];
  message_type = data_container;
  version = codes "1.0";
}

module _ (lib : FloatText) (h : Header) (rows : List Line) (us' : Units) (k : IsTextHeader h)
    (p : PlainItems rows)
    (r : (c : Header) (s : Status)
      → push_items lib refuse (items_of rows) (value_container c s no_units)
        ≡ returned (value_container c s us') true) where
  -- The values behind the header.
  values_with-whole :
      (c : Header) (s : Status) (us : Units)
      → values_with lib refuse (whole_text (pairs_of h) rows) false (value_container c s us)
        ≡ returned (value_container c (text_status s (data_text rows)) us') true
  unfolding values_with
  values_with-whole c s us =
      ap (λ o. parse_section lib refuse false c s o)
        (search-whole_text (pairs_of h) rows (pairs_of-Plain h k).0 (pairs_of-Plain h k).1 p)
      ∙ ap
          (λ items.
            push_items lib refuse items
              (value_container c (text_status s (data_text rows)) no_units))
          (find_items-data_text rows p)
      ∙ r c (text_status s (data_text rows))

  values_with-header :
      (c : Header) (s : Status) (us : Units)
      → values_with lib refuse (whole_text (pairs_of h) rows) true (value_container c s us)
        ≡ returned (value_container c (waiting_status s (data_text rows)) no_units) true
  unfolding values_with
  values_with-header c s us =
      ap (λ o. parse_section lib refuse true c s o)
        (search-whole_text (pairs_of h) rows (pairs_of-Plain h k).0 (pairs_of-Plain h k).1 p)

  parse_header-whole :
      (s : Status) (us : Units)
      → parse_header
          (search_section header_tag (whole_text (pairs_of h) rows))
          (value_container fresh_header s us)
        ≡ value_container (text_header h) s us
  parse_header-whole s us =
      ap (λ o. parse_header o (value_container fresh_header s us))
        (search-header (pairs_of h) rows (pairs_of-Plain h k).0).1
      ∙ ap (λ ps. value_container (parse_pairs ps fresh_header) s us)
          (find_pairs-text (pairs_of h) (pairs_of-Plain h k).0)
      ∙ ap (λ c. value_container c s us) (parse_pairs-pairs_of h fresh_header refl refl refl refl)

  deserialize-header :
      (fuel : ℕ) (h0 : Header) (s0 : Status) (us0 : Units)
      → deserialize lib
          (suc (suc fuel))
          (whole_text (pairs_of h) rows)
          true
          (value_container h0 s0 us0)
        ≡ returned
            (value_container (text_header h) (waiting_status s0 (data_text rows)) no_units)
            true
  unfolding text_with whole_text initialize clear_value
  deserialize-header fuel h0 s0 us0 =
      let c : ValueContainer = initialize (value_container h0 s0 us0) in
      deserialize-refuse lib fuel (whole_text (pairs_of h) rows) true (value_container h0 s0 us0)
      ∙ ap (λ w. parse_clean lib refuse w true c)
          (remove_newlines-whole_text (pairs_of h) rows (pairs_of-Plain h k).0 p)
      ∙ ap (values_with lib refuse (whole_text (pairs_of h) rows) true)
          (parse_header-whole _ no_units)
      ∙ values_with-header (text_header h) _ no_units

  deserialize-whole :
      (fuel : ℕ) (h0 : Header) (s0 : Status) (us0 : Units)
      → deserialize lib
          (suc (suc fuel))
          (whole_text (pairs_of h) rows)
          false
          (value_container h0 s0 us0)
        ≡ returned (value_container (text_header h) (text_status s0 (data_text rows)) us') true
  unfolding text_with whole_text initialize clear_value
  deserialize-whole fuel h0 s0 us0 =
      let c : ValueContainer = initialize (value_container h0 s0 us0) in
      deserialize-refuse lib fuel (whole_text (pairs_of h) rows) false (value_container h0 s0 us0)
      ∙ ap (λ w. parse_clean lib refuse w false c)
          (remove_newlines-whole_text (pairs_of h) rows (pairs_of-Plain h k).0 p)
      ∙ ap (values_with lib refuse (whole_text (pairs_of h) rows) false)
          (parse_header-whole _ no_units)
      ∙ values_with-whole (text_header h) _ no_units

-- Writing a container in the text format succeeds, and reading the text into any container succeeds,
-- where the container is not waiting for its values to be parsed, the fields of its header hold no
-- semicolon, line end or at sign, the names are letters, digits and underscores, each value has the
-- type of its data, integers are in the range of their type, there is no float, and strings hold no
-- semicolon or line end. What is read is the header without the spaces around its fields, and without
-- the ids if the message type is "data_container", and the values in their order: a string without
-- the white space in front, bytes empty, a container or an array null, and every other value as it was.
pub deserialize-serialize_to_string :
    (lib : FloatText) (fuel : ℕ) (h : Header) (s : Status) (us : Units) (h0 : Header) (s0 : Status)
    (us0 : Units)
    → s.parsed_data ≡ true
    → IsTextHeader h
    → IsTextUnits us
    → (text data_part : Bytes) × (serialize_to_string lib (value_container h s us) ≡ some text)
      × (deserialize lib (suc (suc fuel)) text false (value_container h0 s0 us0)
          ≡ returned
              (value_container (text_header h) (text_status s0 data_part) (text_units us))
              true)
unfolding join
deserialize-serialize_to_string lib fuel h s us h0 s0 us0 e k u =
    let p : Printed lib us = lines-Printed lib us u in
    (
      whole_text (pairs_of h) p.rows,
      data_text p.rows,
      serialize_to_string-whole lib h s us p.rows e p.prints,
      deserialize-whole lib h p.rows (text_units us) k p.plain (λ c s'. p.reads c s' no_units) fuel
          h0 s0 us0,
    )

-- The same with `parse_only_header`: what is read is the header, and no value.
pub deserialize_header-serialize_to_string :
    (lib : FloatText) (fuel : ℕ) (h : Header) (s : Status) (us : Units) (h0 : Header) (s0 : Status)
    (us0 : Units)
    → s.parsed_data ≡ true
    → IsTextHeader h
    → IsTextUnits us
    → (text data_part : Bytes) × (serialize_to_string lib (value_container h s us) ≡ some text)
      × (deserialize lib (suc (suc fuel)) text true (value_container h0 s0 us0)
          ≡ returned (value_container (text_header h) (waiting_status s0 data_part) no_units) true)
unfolding join
deserialize_header-serialize_to_string lib fuel h s us h0 s0 us0 e k u =
    let p : Printed lib us = lines-Printed lib us u in
    (
      whole_text (pairs_of h) p.rows,
      data_text p.rows,
      serialize_to_string-whole lib h s us p.rows e p.prints,
      deserialize-header lib h p.rows (text_units us) k p.plain (λ c s'. p.reads c s' no_units) fuel
          h0 s0 us0,
    )
