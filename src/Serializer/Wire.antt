-- ===== src/Serializer/Wire.antt =====
-- The bytes of core/serializers/msgpack_serializer.cpp for a container whose values are scalars and
-- strings.
use container_system.Base.{
  ◌<◌, ◌^◌, ◌≡◌, refl, ap, ◌∙◌, true, false, Bool-cases, inl, inr, some, List, [], ◌∷◌, ◌++◌, Bytes,
  length, codes, ◌===◌, if◌then◌else◌, append_assoc, append-nil,
}
use container_system.Base.Int.{InSigned}
use container_system.Value.{
  ValueTypes, Header, Status, ValueVariant, monostate, bool, short, int, long, llong, ushort, uint,
  ulong, ullong, float, double, string, bytes, container, array, null_container, null_array,
  optimized_value, Units, no_units, unit, value_container, index,
}
use container_system.Container.{data_container}
use container_system.Msgpack.Format
use container_system.Msgpack.Encoder.{
  MsgpackEncoder, new_encoder, insert_end, write_nil, write_bool, finish,
}
use container_system.Msgpack.Cursor.{be32_bytes, be64_bytes}
use container_system.Msgpack.Encodings.{
  uint_bytes, int_bytes, string_bytes, map_header_bytes, write_uint_lem, write_int_lem,
  write_float_lem, write_double_lem, write_string_lem, write_map_header_lem,
}
use container_system.Serializer.Write.{
  typed, count_units, write_header, write_data, write_unit, write_units, serialize_container,
}
use container_system.Serializer.Runs.{pairs_bytes}

abbrev pub data_bytes : ValueVariant → Bytes
data_bytes monostate = Format.nil_byte ∷ []
data_bytes (bool b) = (if b then Format.true_byte else Format.false_byte) ∷ []
data_bytes (short n) = int_bytes n
data_bytes (int n) = int_bytes n
data_bytes (long n) = int_bytes n
data_bytes (llong n) = int_bytes n
data_bytes (ushort n) = uint_bytes n
data_bytes (uint n) = uint_bytes n
data_bytes (ulong n) = uint_bytes n
data_bytes (ullong n) = uint_bytes n
data_bytes (float f) = Format.float32 ∷ be32_bytes f
data_bytes (double f) = Format.float64 ∷ be64_bytes f
data_bytes (string s) = string_bytes s
data_bytes _ = []

-- A scalar in the range of its type, where an unsigned one is below 2 ^ 63, or a string below 4 GiB.
abbrev pub IsScalar : ValueVariant → Type 0
IsScalar monostate = Unit
IsScalar (bool b) = Unit
IsScalar (short n) = InSigned (2 ^ 16) n
IsScalar (int n) = InSigned (2 ^ 32) n
IsScalar (long n) = InSigned (2 ^ 64) n
IsScalar (llong n) = InSigned (2 ^ 64) n
IsScalar (ushort n) = n < 2 ^ 16
IsScalar (uint n) = n < 2 ^ 32
IsScalar (ulong n) = n < 2 ^ 63
IsScalar (ullong n) = n < 2 ^ 63
IsScalar (float f) = f < 2 ^ 32
IsScalar (double f) = f < 2 ^ 64
IsScalar (string s) = length s < 2 ^ 32
IsScalar _ = false ≡ true

-- Every value has a short name, the type of its data, and a scalar or a string for its data.
abbrev pub IsFlat : Units → Type 0
IsFlat no_units = Unit
IsFlat (unit (optimized_value name type d) us) =
    (length name < 2 ^ 32) × ((type ≡ index d) × (IsScalar d × IsFlat us))

abbrev pub units_bytes : Units → Bytes
units_bytes no_units = []
units_bytes (unit (optimized_value name type d) us) =
    string_bytes name ++ (data_bytes d ++ units_bytes us)

write_data-own :
    (d : ValueVariant) (e : MsgpackEncoder)
    → IsScalar d
    → typed (index d) (index d) e (write_data d e) ≡ some (insert_end (data_bytes d) e)
unfolding write_data index write_nil write_bool
write_data-own monostate e h = refl
write_data-own (bool b) e h = refl
write_data-own (short n) e h = ap some (write_int_lem e n)
write_data-own (int n) e h = ap some (write_int_lem e n)
write_data-own (long n) e h = ap some (write_int_lem e n)
write_data-own (llong n) e h = ap some (write_int_lem e n)
write_data-own (ushort n) e h = ap some (write_uint_lem e n)
write_data-own (uint n) e h = ap some (write_uint_lem e n)
write_data-own (ulong n) e h = ap some (write_uint_lem e n)
write_data-own (ullong n) e h = ap some (write_uint_lem e n)
write_data-own (float f) e h = ap some (write_float_lem e f)
write_data-own (double f) e h = ap some (write_double_lem e f)
write_data-own (string s) e h = ap some (write_string_lem e s)
write_data-own (bytes b) e h = cc
write_data-own (container c) e h = cc
write_data-own (array ds) e h = cc
write_data-own null_container e h = cc
write_data-own null_array e h = cc

write_unit_lem :
    (name : Bytes) (type : ValueTypes) (d : ValueVariant) (e : MsgpackEncoder)
    → type ≡ index d
    → IsScalar d
    → write_unit (optimized_value name type d) e
      ≡ some (insert_end (data_bytes d) (insert_end (string_bytes name) e))
unfolding write_unit
write_unit_lem name type d e t h =
    rw (t, write_string_lem e name) (write_data-own d (insert_end (string_bytes name) e) h)

write_units_lem :
    (us : Units) (e : MsgpackEncoder)
    → IsFlat us
    → write_units us e ≡ some (insert_end (units_bytes us) e)
unfolding write_units
write_units_lem no_units e h = rw (append-nil e.buffer) refl
write_units_lem (unit (optimized_value name type d) us) e (hn, (t, (hd, h))) =
    rw (write_unit_lem name type d e t hd) (
      write_units_lem us (insert_end (data_bytes d) (insert_end (string_bytes name) e)) h
      ∙ simp append_assoc)

-- The entries of the header.
abbrev pub header_pairs : Header → List (Bytes × Bytes)
header_pairs h =
    if h.message_type === data_container
    then (codes "message_type", h.message_type) ∷ (codes "version", h.version) ∷ []
    else (codes "target_id", h.target_id)
      ∷ (codes "target_sub_id", h.target_sub_id)
      ∷ (codes "source_id", h.source_id)
      ∷ (codes "source_sub_id", h.source_sub_id)
      ∷ (codes "message_type", h.message_type)
      ∷ (codes "version", h.version)
      ∷ []

-- The bytes of the whole container, grouped as they are read.
abbrev pub wire : Header → Units → Bytes
wire h us =
    map_header_bytes 2
    ++ (string_bytes (codes "header")
        ++ ((map_header_bytes (length (header_pairs h)) ++ pairs_bytes (header_pairs h))
            ++ (string_bytes (codes "values")
                ++ ((map_header_bytes (count_units us) ++ units_bytes us) ++ []))))

write_header_lem :
    (h : Header) (e : MsgpackEncoder)
    → write_header h e
      ≡ insert_end
          (map_header_bytes 2
            ++ (string_bytes (codes "header")
                ++ ((map_header_bytes (length (header_pairs h)) ++ pairs_bytes (header_pairs h))
                    ++ string_bytes (codes "values"))))
          e
unfolding write_header
write_header_lem h e = elim (Bool-cases (h.message_type === data_container)) [
  | inl p ↦ rw p (simp (write_string_lem, write_map_header_lem, append_assoc))
  | inr p ↦ rw p (simp (write_string_lem, write_map_header_lem, append_assoc))
]

-- What the serializer writes for such a container.
pub serialize_container_lem :
    (h : Header) (s : Status) (us : Units)
    → IsFlat us
    → serialize_container (value_container h s us) ≡ some (wire h us)
unfolding serialize_container finish
serialize_container_lem h s us f =
    rw
      (
        write_header_lem h new_encoder,
        write_map_header_lem
            (insert_end
              (map_header_bytes 2
                ++ (string_bytes (codes "header")
                    ++ ((map_header_bytes (length (header_pairs h)) ++ pairs_bytes (header_pairs h))
                        ++ string_bytes (codes "values"))))
              new_encoder)
            (count_units us),
        write_units_lem us _ f,
      )
      (simp (append_assoc, append-nil))
