-- ===== src/Serializer/RoundTrip.antt =====
-- Whole containers: value_container::from_msgpack_impl (core/container.cpp) on the bytes of
-- core/serializers/msgpack_serializer.cpp.
use container_system.Base.{
  ℕ, suc, ◌<◌, ◌^◌, ◌≡◌, sym, ap, ◌∙◌, true, false, some, [], Bytes, length, length-append, codes,
  append-nil, arith,
}
use container_system.Value.{Header, Status, Units, no_units, value_container}
use container_system.Container.{initialize, clear_value}
use container_system.Msgpack.Payloads.{read_string, read_map_header}
use container_system.Msgpack.Cursor.{at}
use container_system.Msgpack.RoundTrip.Payloads.{read_string-bytes, read_map_header-bytes}
use container_system.Serializer.Write.{count_units, serialize_container}
use container_system.Serializer.Read.{
  Outcome, returned, or_fail, finish_call, outer_entry, outer_entries, from_msgpack_body,
  from_msgpack_impl,
}
use container_system.Serializer.Runs.{Runs, Runs-done, Runs-or_fail, Runs-then_step}
use container_system.Serializer.Wire.{IsFlat, wire, serialize_container_lem}
use container_system.Serializer.Scalars.{read_units}
use container_system.Serializer.Entries.{
  IsShort, empty_header, read_header, outer_entry-header, outer_entry-values,
}

module _ (widen : ℕ → ℕ) (nested : Bytes → Outcome) (h : Header) (us : Units) (s : Status) where
  whole :
      IsShort h
      → IsFlat us
      → count_units us < 2 ^ 32
      → Runs
          (λ d.
            or_fail
              (read_map_header d)
              (value_container empty_header s no_units)
              λ n d'. outer_entries widen nested n (value_container empty_header s no_units) d')
          (value_container (read_header h) s (read_units us))
          (wire h us)
  unfolding outer_entries
  whole strings flat few =
      let c1 = value_container empty_header s no_units in
      let c2 = value_container (read_header h) s no_units in
      let c3 = value_container (read_header h) s (read_units us) in
      Runs-or_fail read_map_header 2 c1 c3 (λ n d. outer_entries widen nested n c1 d) _ _
        (read_map_header-bytes 2 (omega arith))
        (Runs-or_fail read_string (codes "header") c1 c3 _ _ _
          (read_string-bytes (codes "header") (omega arith))
          (Runs-then_step (outer_entry widen nested (codes "header") c1) c2 c3
            (outer_entries widen nested 1) _ _ (outer_entry-header widen nested h us s strings)
            (Runs-or_fail read_string (codes "values") c2 c3 _ _ _
              (read_string-bytes (codes "values") (omega arith))
              (Runs-then_step (outer_entry widen nested (codes "values") c2) c3 c3
                (outer_entries widen nested 0) _ []
                (outer_entry-values widen nested h us s (read_header h) flat few) (Runs-done c3)))))

-- The flags and counters that a reading leaves.
abbrev pub read_status : Status → Status
read_status s = record s {
  parsed_data = true;
  changed_data = false;
  data_string = codes "@data={{}};";
}

body-wire :
    (widen : ℕ → ℕ) (nested : Bytes → Outcome) (h : Header) (us : Units) (h0 : Header) (s0 : Status)
    (us0 : Units)
    → IsShort h
    → IsFlat us
    → count_units us < 2 ^ 32
    → length (wire h us) < 2 ^ 63
    → from_msgpack_body widen nested (wire h us) (value_container h0 s0 us0)
      ≡ returned (value_container (read_header h) (read_status s0) (read_units us)) true
unfolding from_msgpack_body initialize clear_value
body-wire widen nested h us h0 s0 us0 strings flat few small =
    let c1 = value_container empty_header (read_status s0) no_units in
    let run =
      whole widen nested h us (read_status s0) strings flat few [] []
        (omega (arith, length-append (wire h us) [])) in
    ap
      (λ bs.
        finish_call
          (or_fail (read_map_header (at [] bs)) c1 λ n d. outer_entries widen nested n c1 d))
      (sym (append-nil (wire h us)))
    ∙ ap finish_call run

-- Serializing a container of scalars and strings and reading the bytes into any container succeed,
-- where the strings of its header, its names and its string values are below 2 ^ 32 bytes, its values
-- are fewer than 2 ^ 32 and have the type of their data, its unsigned values are below 2 ^ 63, and
-- the bytes are fewer than 2 ^ 63. The container then has the header, without the ids if the message
-- type is "data_container", and the values in their order, each integer with the type for its size.
pub from_msgpack_impl-serialize_container :
    (widen : ℕ → ℕ) (fuel : ℕ) (h : Header) (s : Status) (us : Units) (h0 : Header) (s0 : Status)
    (us0 : Units)
    → IsShort h
    → IsFlat us
    → count_units us < 2 ^ 32
    → length (wire h us) < 2 ^ 63
    → (serialize_container (value_container h s us) ≡ some (wire h us))
      × (from_msgpack_impl widen (suc fuel) (wire h us) (value_container h0 s0 us0)
          ≡ returned (value_container (read_header h) (read_status s0) (read_units us)) true)
unfolding from_msgpack_impl
from_msgpack_impl-serialize_container widen fuel h s us h0 s0 us0 strings flat few small =
    (serialize_container_lem h s us flat, body-wire widen _ h us h0 s0 us0 strings flat few small)
