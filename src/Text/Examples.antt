-- ===== src/Text/Examples.antt =====
-- Runs of the text format (core/container.cpp, core/serializers/binary_serializer.cpp) on concrete
-- containers.
use container_system.Base.{
  ℕ, ◌+◌, ◌<◌, ◌^◌, ◌≡◌, refl, true, false, none, some, [], ◌∷◌, ◌++◌, Bytes, codes, ◌===◌, ltb,
  ◌||◌, if◌then◌else◌, length, arith,
}
use container_system.Base.Int.{negsuc}
use container_system.ErrorCodes.{key_not_found}
use container_system.Value.{
  Header, Status, Units, no_units, unit, optimized_value, short_value, short, string_value, string,
  container_value, container, value_container, index, ValueContainer,
}
use container_system.Container.{new_container, get, contains, units_of, header_of, status_of}
use container_system.Container.Results.{ok, error, container_error}
use container_system.Serializer.Write.{count_units}
use container_system.Serializer.Wire.{IsFlat, wire}
use container_system.Serializer.Scalars.{read_units}
use container_system.Serializer.Entries.{IsShort, read_header}
use container_system.Serializer.RoundTrip.{read_status}
use container_system.Text.{is_line_end, is_word}
use container_system.Text.Write.{FloatText, serialize_to_string}
use container_system.Text.Read.{returned, deserialize}
use container_system.Text.Flat.{EndsFlat, deserialize-EndsFlat}
use container_system.Text.Printed.{IsTextHeader, IsTextUnits, text_header, text_units}
use container_system.Text.RoundTrip.{text_status, deserialize-serialize_to_string}
use container_system.Text.Calls.{done, after_values, in_keys, remove_batch, remove_result}
use container_system.Text.Lazy.{remove_batch-lazy}
use container_system.Text.Removal.{remove_batch-get, remove_result-get}
use container_system.Text.Markup.{json_escape}
use container_system.Text.Escapes.{json_unescape, json_unescape-json_escape}
use container_system.Text.Formats.{binary, msgpack, serialize, deserialize_any}
use container_system.Text.Transport.{deserialize_any-msgpack, deserialize_any-binary}
use container_system.Text.Copies.{made, copy, copy-both}

-- Floats without a text, for runs without floats.
abbrev no_floats : FloatText
no_floats = record {
  print_float = λ x. [];
  print_double = λ x. [];
  read_float = λ s. none;
  read_double = λ s. none;
  what = λ reader. reader;
}

abbrev keep_bits : ℕ → ℕ
keep_bits n = n

-- A header, values, and a nested container, which the text does not keep.
abbrev ping : Header
ping = record {
  source_id = codes "me";
  source_sub_id = [];
  target_id = codes " you ";
  target_sub_id = [];
  message_type = codes "ping";
  version = codes "1.0";
}

abbrev plain_status : Status
plain_status = record {
  parsed_data = true;
  changed_data = false;
  data_string = [];
  use_soo = true;
  heap_allocations = 0;
  stack_allocations = 0;
}

abbrev two_values : Units
two_values =
    unit (optimized_value (codes "n") short_value (short (negsuc 4)))
      (unit (optimized_value (codes "s") string_value (string (codes " hi"))) no_units)

abbrev values : Units
values = unit (optimized_value (codes "c") container_value (container new_container)) two_values

ping-IsTextHeader : IsTextHeader ping
unfolding is_line_end
ping-IsTextHeader = record {
  source_id_field = ((refl, refl, (refl, refl, tt)), (refl, (refl, tt)));
  source_sub_id_field = (tt, tt);
  target_id_field = (
    (refl, refl, (refl, refl, (refl, refl, (refl, refl, (refl, refl, tt))))),
    (refl, (refl, (refl, (refl, (refl, tt))))),
  );
  target_sub_id_field = (tt, tt);
  message_type_field = (
    (refl, refl, (refl, refl, (refl, refl, (refl, refl, tt)))),
    (refl, (refl, (refl, (refl, tt)))),
  );
  version_field = ((refl, refl, (refl, refl, (refl, refl, tt))), (refl, (refl, (refl, tt))));
}

values-IsTextUnits : IsTextUnits values
unfolding is_word index is_line_end
values-IsTextUnits = (
  (refl, tt),
  (
    refl,
    (
      tt,
      (
        (refl, tt),
        (
          refl,
          (omega arith, ((refl, tt), (refl, ((refl, refl, (refl, refl, (refl, refl, tt))), tt)))),
        ),
      ),
    ),
  ),
)

deserialize-serialize_to_string_example :
    (text data_part : Bytes) × (serialize_to_string no_floats
        (value_container ping plain_status values)
      ≡ some text)
    × (deserialize no_floats 2 text false new_container
        ≡ returned
            (value_container
              (text_header ping)
              (text_status (status_of new_container) data_part)
              (text_units values))
            true)
unfolding new_container
deserialize-serialize_to_string_example =
    deserialize-serialize_to_string no_floats 0 ping plain_status values (header_of new_container)
      (status_of new_container) no_units refl ping-IsTextHeader values-IsTextUnits

-- A nested container with a data section of its own, in a text that ends at the first mark.
abbrev nested_text : Bytes
nested_text = codes "@data={{[c,14,@data={{}}];[n,2,x];}};"

deserialize-EndsFlat_example :
    (deserialize no_floats 5 nested_text false new_container
      ≡ deserialize no_floats 2 nested_text false new_container)
    × EndsFlat (deserialize no_floats 5 nested_text false new_container)
deserialize-EndsFlat_example = deserialize-EndsFlat no_floats 3 nested_text false new_container

remove_batch-lazy_example :
    after_values
      (deserialize no_floats 2 (codes "@data={{[a,2,-5];[b,12,x];}};") true new_container)
      (remove_batch no_floats 1 (codes "a" ∷ []))
    ≡ after_values
        (deserialize no_floats 2 (codes "@data={{[a,2,-5];[b,12,x];}};") false new_container)
        (remove_batch no_floats 1 (codes "a" ∷ []))
remove_batch-lazy_example =
    remove_batch-lazy no_floats 0 (codes "@data={{[a,2,-5];[b,12,x];}};") (codes "a") []
      new_container

remove_batch-get_example :
    (c : ValueContainer) × (n : ℕ) × (remove_batch no_floats 1
        (codes "n" ∷ [])
        (value_container ping plain_status values)
      ≡ done c n)
    × (header_of c ≡ ping)
    × (get (codes "s") c ≡ (
        if in_keys (codes "s") (codes "n" ∷ [])
        then none
        else get (codes "s") (value_container ping plain_status values)))
    × (n + count_units (units_of c) ≡ 3)
    × ((status_of c).changed_data ≡ (ltb 0 n || false))
remove_batch-get_example =
    remove_batch-get no_floats 1 (codes "n" ∷ []) ping plain_status values (codes "s") refl

remove_result-get_example :
    (c : ValueContainer) × (remove_result no_floats 1
        (codes "n")
        (value_container ping plain_status values)
      ≡ done c (
          if contains (codes "n") (value_container ping plain_status values)
          then ok tt
          else error (container_error key_not_found (codes "n"))))
    × (header_of c ≡ ping)
    × (get (codes "s") c ≡ (
        if codes "s" === codes "n"
        then none
        else get (codes "s") (value_container ping plain_status values)))
    × ((status_of c).changed_data
        ≡ (contains (codes "n") (value_container ping plain_status values) || false))
remove_result-get_example =
    remove_result-get no_floats 1 (codes "n") ping plain_status values (codes "s") refl

json_unescape-json_escape_example :
    json_unescape (json_escape (codes "a\"\\" ++ (10 ∷ 1 ∷ [])))
    ≡ some (codes "a\"\\" ++ (10 ∷ 1 ∷ []))
json_unescape-json_escape_example = json_unescape-json_escape (codes "a\"\\" ++ (10 ∷ 1 ∷ []))

two_values-IsFlat : IsFlat two_values
unfolding index
two_values-IsFlat = (omega arith, (refl, (omega arith, (omega arith, (refl, (omega arith, tt))))))

ping-IsShort : IsShort ping
ping-IsShort = (omega arith, omega arith, omega arith, omega arith, omega arith, omega arith)

two_values-small : length (wire ping two_values) < 2 ^ 63
unfolding ◌===◌
two_values-small = omega arith

deserialize_any-msgpack_example :
    (serialize no_floats msgpack (value_container ping plain_status two_values)
      ≡ ok (wire ping two_values))
    × (deserialize_any no_floats keep_bits 1
          (wire ping two_values)
          (value_container ping plain_status no_units)
        ≡ done
            (value_container (read_header ping) (read_status plain_status) (read_units two_values))
            (ok tt))
deserialize_any-msgpack_example =
    deserialize_any-msgpack no_floats keep_bits 0 ping plain_status two_values ping plain_status
      no_units ping-IsShort two_values-IsFlat (omega arith) two_values-small

deserialize_any-binary_example :
    (text data_part : Bytes) × (serialize no_floats binary
        (value_container ping plain_status values)
      ≡ ok text)
    × (deserialize_any no_floats keep_bits 2 text (value_container ping plain_status no_units)
        ≡ done
            (value_container
              (text_header ping)
              (text_status plain_status data_part)
              (text_units values))
            (ok tt))
deserialize_any-binary_example =
    deserialize_any-binary no_floats keep_bits 0 ping plain_status values ping plain_status no_units
      refl ping-IsTextHeader values-IsTextUnits

copy-both_example :
    (s1 s2 : Status) × (copy no_floats 2 true (value_container ping plain_status values)
      ≡ made (value_container (text_header ping) s1 (text_units values)))
    × (copy no_floats 2 false (value_container ping plain_status values)
        ≡ made (value_container (text_header ping) s2 no_units))
copy-both_example =
    copy-both no_floats 0 ping plain_status values refl ping-IsTextHeader values-IsTextUnits
