-- ===== src/Text/Transport.antt =====
-- Containers written in a format and read by the overloads of `deserialize` of core/container.cpp.
use container_system.Base.{
  ℕ, suc, ◌<◌, ◌^◌, ◌≡◌, refl, ap, ◌∙◌, true, Option, none, some, ◌++◌, Bytes, codes, length, arith,
  ◌===◌,
}
use container_system.Value.{Header, Status, Units, ValueContainer, value_container}
use container_system.Container.Results.{ok}
use container_system.Serializer.Write.{count_units, serialize_container}
use container_system.Serializer.Wire.{IsFlat, wire}
use container_system.Serializer.Read.{returned as read_returned, from_msgpack_impl}
use container_system.Serializer.Entries.{IsShort, read_header}
use container_system.Serializer.Scalars.{read_units}
use container_system.Serializer.RoundTrip.{read_status, from_msgpack_impl-serialize_container}
use container_system.Text.{is_space, span_space}
use container_system.Text.Write.{FloatText, after_text, datas, header_text, serialize_to_string}
use container_system.Text.Printed.{IsTextHeader, IsTextUnits, text_header, text_units}
use container_system.Text.RoundTrip.{text_status, deserialize-serialize_to_string}
use container_system.Text.Calls.{done, deserialize_result, deserialized}
use container_system.Text.Formats.{
  SerializationFormat, binary, json, xml, msgpack, auto_detect, unknown, create, detect_bytes,
  detect_text, first_char, is_map_byte, serialize, deserialize_as, deserialize_span,
  deserialize_any, serialize_with, resolve, from_msgpack,
}

detect_bytes-wire : (h : Header) (us : Units) → detect_bytes (wire h us) ≡ msgpack
unfolding detect_bytes is_map_byte
detect_bytes-wire h us = refl

module _ (lib : FloatText) (widen : ℕ → ℕ) (fuel : ℕ) where
  resolve-same : (f : SerializationFormat) → resolve lib widen fuel f f ≡ f
  resolve-same binary = refl
  resolve-same json = refl
  resolve-same xml = refl
  resolve-same msgpack = refl
  resolve-same auto_detect = refl
  resolve-same unknown = refl

  deserialize_any-as :
      (text : Bytes) (f : SerializationFormat) (c : ValueContainer)
      → detect_bytes text ≡ f
      → deserialize_any lib widen fuel text c ≡ deserialize_as lib widen fuel text f c
  unfolding deserialize_any deserialize_span
  deserialize_any-as text f c e =
      ap (λ g. deserialize_as lib widen fuel text g c) (resolve-same (detect_bytes text) ∙ e)

-- A container of scalars and strings, with the bounds of the MessagePack round trip, serialized as
-- MessagePack: reading the bytes into any container, with the format found by `deserialize` itself,
-- succeeds and gives what reading them as MessagePack gives.
pub deserialize_any-msgpack :
    (lib : FloatText) (widen : ℕ → ℕ) (fuel : ℕ) (h : Header) (s : Status) (us : Units)
    (h0 : Header) (s0 : Status) (us0 : Units)
    → IsShort h
    → IsFlat us
    → count_units us < 2 ^ 32
    → length (wire h us) < 2 ^ 63
    → (serialize lib msgpack (value_container h s us) ≡ ok (wire h us))
      × (deserialize_any lib widen (suc fuel) (wire h us) (value_container h0 s0 us0)
          ≡ done (value_container (read_header h) (read_status s0) (read_units us)) (ok tt))
unfolding serialize serialize_with create deserialize_any deserialize_span deserialize_as
deserialize_any-msgpack lib widen fuel h s us h0 s0 us0 strings flat few small =
    let p : (serialize_container (value_container h s us) ≡ some (wire h us))
        × (from_msgpack_impl widen (suc fuel) (wire h us) (value_container h0 s0 us0)
            ≡ read_returned (value_container (read_header h) (read_status s0) (read_units us))
                true) =
      from_msgpack_impl-serialize_container widen fuel h s us h0 s0 us0 strings flat few small in
    (
      rw (p.0) refl,
      deserialize_any-as lib widen (suc fuel) (wire h us) msgpack (value_container h0 s0 us0)
            (detect_bytes-wire h us)
          ∙ ap from_msgpack (p.1),
    )

after_text-detect :
    (h : Header) (o : Option Bytes) (text : Bytes)
    → after_text (header_text h) o ≡ some text
    → detect_bytes text ≡ binary
unfolding detect_bytes detect_text first_char is_map_byte span_space is_space ◌===◌ header_text
after_text-detect h none text e = cc
after_text-detect h (some t) text e =
    let f : header_text h ++ t ≡ text = ground (arith, e) in rw (← f) refl

-- A container with the conditions of the text round trip, serialized in the binary format: reading the
-- text into any container, with the format found by `deserialize` itself, succeeds and gives what
-- reading it as text gives.
pub deserialize_any-binary :
    (lib : FloatText) (widen : ℕ → ℕ) (fuel : ℕ) (h : Header) (s : Status) (us : Units)
    (h0 : Header) (s0 : Status) (us0 : Units)
    → s.parsed_data ≡ true
    → IsTextHeader h
    → IsTextUnits us
    → (text data_part : Bytes) × (serialize lib binary (value_container h s us) ≡ ok text)
      × (deserialize_any lib widen (suc (suc fuel)) text (value_container h0 s0 us0)
          ≡ done
              (value_container (text_header h) (text_status s0 data_part) (text_units us))
              (ok tt))
unfolding serialize serialize_with create deserialize_any deserialize_span deserialize_as
    deserialize_result serialize_to_string
deserialize_any-binary lib widen fuel h s us h0 s0 us0 e k u =
    let (text, data_part, p, q) = deserialize-serialize_to_string lib fuel h s us h0 s0 us0 e k u in
    let f : detect_bytes text ≡ binary =
      after_text-detect h (datas lib (value_container h s us)) text p in
    (
      text,
      data_part,
      rw (p) refl,
      deserialize_any-as lib widen (suc (suc fuel)) text binary (value_container h0 s0 us0) f
          ∙ ap (deserialized (codes "string data")) q,
    )
