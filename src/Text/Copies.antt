-- ===== src/Text/Copies.antt =====
-- The constructors of core/container.cpp that read a text, its copies, and its packet files. The shared
-- text and the index of the zero-copy mode are not part of the state.
use container_system.Base.{
  ℕ, suc, ◌≡◌, ap, Bool, true, false, not, Option, none, some, Bytes, codes,
}
use container_system.ErrorCodes.{file_not_found, file_read_error, file_write_error}
use container_system.Value.{Header, Status, Units, no_units, ValueContainer, value_container}
use container_system.Container.{new_container, clear_value, status_of, header_of}
use container_system.Container.Results.{Result, ok, error, container_error}
use container_system.Text.Write.{FloatText, serialize_to_string}
use container_system.Text.Read.{Outcome, returned, threw, out_of_fuel, deserialize}
use container_system.Text.Calls.{Called, done, deserialize_result}
use container_system.Text.Formats.{binary, serialize_string}
use container_system.Text.Printed.{IsTextHeader, IsTextUnits, text_header, text_units}
use container_system.Text.RoundTrip.{
  text_status, deserialize-serialize_to_string, deserialize_header-serialize_to_string,
}

-- The container that a constructor makes; an exception leaves none.
pub data Constructed : Type 0 where
  made : ValueContainer → Constructed
  refused : Bytes → Constructed
  unfinished : Constructed

abbrev pub constructed : Outcome → Constructed
constructed (returned c b) = made c
constructed (threw c w) = refused w
constructed out_of_fuel = unfinished

-- The constructor from a text, and the one from bytes.
unfoldable pub from_text : FloatText → ℕ → Bytes → Bool → Constructed
from_text lib fuel data_str parse_only_header =
    constructed (deserialize lib fuel data_str parse_only_header new_container)

-- The copy constructor from a container; a null pointer makes a default container.
abbrev pub from_written : FloatText → ℕ → Option Bytes → Bool → Constructed
from_written lib fuel none parse_only_header = refused (lib.what (codes "get"))
from_written lib fuel (some text) parse_only_header =
    constructed (deserialize lib fuel text parse_only_header new_container)

unfoldable pub copy_construct : FloatText → ℕ → ValueContainer → Bool → Constructed
copy_construct lib fuel other parse_only_header =
    from_written lib fuel (serialize_to_string lib other) parse_only_header

unfoldable pub copy_pointer : FloatText → ℕ → Option ValueContainer → Bool → Constructed
unfolding copy_construct
copy_pointer lib fuel none parse_only_header = made new_container
copy_pointer lib fuel (some other) parse_only_header =
    copy_construct lib fuel other parse_only_header

abbrev pub without_values : Bool → Constructed → Constructed
without_values true c = c
without_values false (made c) = made (clear_value c)
without_values false (refused w) = refused w
without_values false unfinished = unfinished

-- `copy(containing_values)`
unfoldable pub copy : FloatText → ℕ → Bool → ValueContainer → Constructed
copy lib fuel containing_values c =
    without_values containing_values
      (from_written lib fuel (serialize_to_string lib c) (not containing_values))

-- What reading a file gives.
pub data FileRead : Type 0 where
  no_file bad_read : FileRead
  content : Bytes → FileRead

unfoldable pub load_packet_result :
    FloatText → ℕ → Bytes → FileRead → ValueContainer → Called (Result (Unit {0}))
unfolding deserialize_result
load_packet_result lib fuel file_path no_file c =
    done c (error (container_error file_not_found file_path))
load_packet_result lib fuel file_path bad_read c =
    done c (error (container_error file_read_error file_path))
load_packet_result lib fuel file_path (content text) c = deserialize_result lib fuel text false c

-- What is written to the file, if anything, and the result. `opens` and `writes` say whether the file
-- can be opened and written to.
abbrev pub save_written : Bytes → Bool → Bool → Result Bytes → Option Bytes × Result (Unit {0})
save_written file_path opens writes (error e) = (none, error e)
save_written file_path false writes (ok text) =
    (none, error (container_error file_write_error file_path))
save_written file_path true false (ok text) =
    (some text, error (container_error file_write_error file_path))
save_written file_path true true (ok text) = (some text, ok tt)

unfoldable pub save_packet_result :
    FloatText → Bytes → Bool → Bool → ValueContainer → Option Bytes × Result (Unit {0})
unfolding serialize_string
save_packet_result lib file_path opens writes c =
    save_written file_path opens writes (serialize_string lib binary c)

-- A copy of a container with the conditions of the text round trip is made. With the values it has
-- the header and the values that the text round trip gives; without them it has that header and no
-- value.
pub copy-both :
    (lib : FloatText) (fuel : ℕ) (h : Header) (s : Status) (us : Units)
    → s.parsed_data ≡ true
    → IsTextHeader h
    → IsTextUnits us
    → (s1 s2 : Status) × (copy lib (suc (suc fuel)) true (value_container h s us)
        ≡ made (value_container (text_header h) s1 (text_units us)))
      × (copy lib (suc (suc fuel)) false (value_container h s us)
          ≡ made (value_container (text_header h) s2 no_units))
unfolding copy new_container clear_value
copy-both lib fuel h s us e k u =
    let (t1, d1, p1, q1) =
      deserialize-serialize_to_string lib fuel h s us (header_of new_container)
        (status_of new_container) no_units e k u in
    let (t2, d2, p2, q2) =
      deserialize_header-serialize_to_string lib fuel h s us (header_of new_container)
        (status_of new_container) no_units e k u in
    (
      text_status (status_of new_container) d1,
      record (status_of new_container) {
        parsed_data = true;
        changed_data = false;
        data_string = codes "@data={{}};";
      },
      rw p1 (ap constructed q1),
      rw p2 (ap (λ r. without_values false (constructed r)) q2),
    )
