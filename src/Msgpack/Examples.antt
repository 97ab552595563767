-- ===== src/Msgpack/Examples.antt =====
-- Runs of class msgpack_encoder and class msgpack_decoder (include/kcenon/container/container/msgpack.h) on
-- concrete values.
use container_system.Base.{ℕ, ◌^◌, ◌≡◌, refl, true, false, some, none, Bytes, [], ◌∷◌, codes, arith}
use container_system.Base.Int.{pos, negsuc}
use container_system.Msgpack.Format.{positive_int, negative_int, str, bin, array, map}
use container_system.Msgpack.Encoder.{
  MsgpackEncoder, new_encoder, finish, write_nil, write_bool, write_uint, write_int, write_float,
  write_double, write_string_header, write_string, write_binary_header, write_binary,
  write_array_header, write_map_header, write_be16, write_be32, write_be64,
}
use container_system.Msgpack.Decoder.{
  MsgpackDecoder, ret, new_decoder, peek_type, read_nil, read_bool,
}
use container_system.Msgpack.Numbers.{read_int, read_uint, read_float, read_double}
use container_system.Msgpack.Payloads.{
  read_string_length, read_string_length_byte, read_payload, read_string, read_binary,
  read_array_header, read_map_header,
}
use container_system.Msgpack.Safety.{IsValid, Safe}
use container_system.Msgpack.Safety.Words.{Below, Any}
use container_system.Msgpack.Safety.Readers.{IsInt64}
use container_system.Msgpack.Safety.Payloads.{Part}
use container_system.Msgpack.Safety.Decoder.{readers-Safe}
use container_system.Msgpack.WriteRead.{
  reader, ReadsBack, read_uint-write_uint, read_int-write_int, read_int-write_uint_overflow,
  read_string-write_string, read_binary-write_binary, read-write_headers, read-write_scalars,
}

-- A conversion of a float's bits to a double's for the runs, which never read one.
abbrev same_bits : ℕ → ℕ
same_bits n = n

abbrev before : MsgpackEncoder
before = write_bool true new_encoder

abbrev rest : Bytes
rest = 0xc0 ∷ []

abbrev damaged : MsgpackDecoder
damaged = new_decoder (0xa5 ∷ 104 ∷ [])

damaged-IsValid : IsValid damaged
damaged-IsValid = record {
  within = omega arith;
  whole = refl;
  small = omega arith;
  octets = (omega arith, (omega arith, tt));
}

-- The greatest int64.
int64_max :
    (finish (write_int (pos 9223372036854775807) new_encoder)).0
    ≡ 0xcf ∷ 0x7f ∷ 255 ∷ 255 ∷ 255 ∷ 255 ∷ 255 ∷ 255 ∷ 255 ∷ []
unfolding finish write_int write_uint write_be64
int64_max = refl

-- A length beyond the data is refused.
truncated_string : read_string damaged ≡ ret none (record damaged { offset = 1 })
unfolding read_string read_string_length read_string_length_byte read_payload
truncated_string = refl

readers-Safe_example :
    Safe Any 1 damaged (read_nil damaged)
    × Safe Any 1 damaged (read_bool damaged)
    × Safe IsInt64 1 damaged (read_int damaged)
    × Safe (Below (2 ^ 64)) 1 damaged (read_uint damaged)
    × Safe (Below (2 ^ 32)) 1 damaged (read_float damaged)
    × Safe Any 1 damaged (read_double same_bits damaged)
    × Safe (Part damaged.bytes) 1 damaged (read_string damaged)
    × Safe (Part damaged.bytes) 1 damaged (read_binary damaged)
    × Safe (Below (2 ^ 32)) 1 damaged (read_array_header damaged)
    × Safe (Below (2 ^ 32)) 1 damaged (read_map_header damaged)
readers-Safe_example = readers-Safe same_bits damaged damaged-IsValid

read_uint-write_uint_example :
    (peek_type (reader before (write_uint 300 before) rest) ≡ some positive_int)
    × ReadsBack read_uint (some 300) before (write_uint 300 before) rest
unfolding write_uint write_bool write_be16
read_uint-write_uint_example = read_uint-write_uint before rest 300 (omega arith) (omega arith)

read_int-write_int_example :
    (peek_type (reader before (write_int (negsuc 299) before) rest) ≡ some negative_int)
    × ReadsBack read_int (some (negsuc 299)) before (write_int (negsuc 299) before) rest
unfolding write_int write_bool write_be16
read_int-write_int_example = read_int-write_int before rest (negsuc 299) (omega arith) (omega arith)

read_int-write_uint_overflow_example :
    (peek_type (reader before (write_uint (2 ^ 63) before) rest) ≡ some positive_int)
    × ReadsBack read_int none before (write_uint (2 ^ 63) before) rest
unfolding write_uint write_bool write_be64
read_int-write_uint_overflow_example =
    read_int-write_uint_overflow before rest (2 ^ 63) (omega arith) (omega arith) (omega arith)

read_string-write_string_example :
    (peek_type (reader before (write_string (codes "key") before) rest) ≡ some str)
    × ReadsBack read_string (some (codes "key")) before (write_string (codes "key") before) rest
unfolding write_string write_bool write_string_header
read_string-write_string_example =
    read_string-write_string before rest (codes "key") (omega arith) (omega arith)

read_binary-write_binary_example :
    (peek_type (reader before (write_binary (1 ∷ 2 ∷ []) before) rest) ≡ some bin)
    × ReadsBack read_binary (some (1 ∷ 2 ∷ [])) before (write_binary (1 ∷ 2 ∷ []) before) rest
unfolding write_binary write_bool write_binary_header
read_binary-write_binary_example =
    read_binary-write_binary before rest (1 ∷ 2 ∷ []) (omega arith) (omega arith)

read-write_headers_example :
    (peek_type (reader before (write_array_header 16 before) rest) ≡ some array)
    × ReadsBack read_array_header (some 16) before (write_array_header 16 before) rest
    × (peek_type (reader before (write_map_header 3 before) rest) ≡ some map)
    × ReadsBack read_map_header (some 3) before (write_map_header 3 before) rest
unfolding write_array_header write_map_header write_bool write_be16
read-write_headers_example =
    read-write_headers before rest 16 3 (omega arith) (omega arith) (omega arith) (omega arith)

read-write_scalars_example :
    ReadsBack read_nil (some tt) before (write_nil before) rest
    × ReadsBack read_bool (some false) before (write_bool false before) rest
    × ReadsBack read_float (some 0x3f800000) before (write_float 0x3f800000 before) rest
    × ReadsBack (read_double same_bits) (some 7) before (write_double 7 before) rest
unfolding write_nil write_bool write_float write_double write_be32 write_be64
read-write_scalars_example =
    read-write_scalars before rest same_bits false 0x3f800000 7 (omega arith) (omega arith)
      (omega arith) (omega arith) (omega arith) (omega arith)
