-- ===== src/Msgpack/Numbers.antt =====
-- The number readers of class msgpack_decoder (include/kcenon/container/container/msgpack.h).
use container_system.Base.{ℕ, ◌^◌, ◌-◌, none, some, ltb, leb, ◌==◌, not, if◌then◌else◌}
use container_system.Base.Int.{ℤ, pos, to_signed}
use container_system.Msgpack.Format
use container_system.Msgpack.Decoder.{
  MsgpackDecoder, Read, ret, map_read, bind_read, advance, at_byte, guarded, read_byte, read_be16,
  read_be32, read_be64,
}

-- The cast of an `int64_t` from a `uint64_t` that is in its range, or else nothing.
abbrev pub in_int64 : ℕ → MsgpackDecoder → Read ℤ
in_int64 val d = if ltb (2 ^ 63 - 1) val then ret none d else ret (some (to_signed (2 ^ 64) val)) d

-- The `switch` of `read_int`.
unfoldable pub read_int_body : ℕ → MsgpackDecoder → Read ℤ
read_int_body byte d =
    if byte == Format.int8
    then guarded 2 (λ d'. map_read (to_signed (2 ^ 8)) (read_byte d')) d
    else if byte == Format.int16
    then guarded 3 (λ d'. map_read (to_signed (2 ^ 16)) (read_be16 d')) d
    else if byte == Format.int32
    then guarded 5 (λ d'. map_read (to_signed (2 ^ 32)) (read_be32 d')) d
    else if byte == Format.int64
    then guarded 9 (λ d'. map_read (to_signed (2 ^ 64)) (read_be64 d')) d
    else if byte == Format.uint8
    then guarded 2 (λ d'. map_read pos (read_byte d')) d
    else if byte == Format.uint16
    then guarded 3 (λ d'. map_read pos (read_be16 d')) d
    else if byte == Format.uint32
    then guarded 5 (λ d'. map_read pos (read_be32 d')) d
    else if byte == Format.uint64
    then guarded 9 (λ d'. bind_read (read_be64 d') in_int64) d
    else ret none d

unfoldable pub read_int_byte : ℕ → MsgpackDecoder → Read ℤ
read_int_byte byte d =
    if leb byte Format.positive_fixint_max
    then ret (some (pos byte)) (advance 1 d)
    else if leb Format.negative_fixint_prefix byte
    then ret (some (to_signed (2 ^ 8) byte)) (advance 1 d)
    else read_int_body byte d

unfoldable pub read_int : MsgpackDecoder → Read ℤ
read_int d = at_byte d (λ byte. read_int_byte byte d)

unfoldable pub read_uint_byte : ℕ → MsgpackDecoder → Read ℕ
read_uint_byte byte d =
    if leb byte Format.positive_fixint_max
    then ret (some byte) (advance 1 d)
    else if byte == Format.uint8
    then guarded 2 read_byte d
    else if byte == Format.uint16
    then guarded 3 read_be16 d
    else if byte == Format.uint32
    then guarded 5 read_be32 d
    else if byte == Format.uint64
    then guarded 9 read_be64 d
    else ret none d

unfoldable pub read_uint : MsgpackDecoder → Read ℕ
read_uint d = at_byte d (λ byte. read_uint_byte byte d)

-- A float is its bit pattern.
unfoldable pub read_float : MsgpackDecoder → Read ℕ
read_float d =
    at_byte d λ byte. if not (byte == Format.float32) then ret none d else guarded 5 read_be32 d

-- `widen` is the conversion of the bit pattern of a float to that of a double.
module _ (widen : ℕ → ℕ) where
  unfoldable pub read_double : MsgpackDecoder → Read ℕ
  read_double d = at_byte d λ byte.
      if byte == Format.float32
      then map_read widen (read_float d)
      else if not (byte == Format.float64)
      then ret none d
      else guarded 9 read_be64 d
