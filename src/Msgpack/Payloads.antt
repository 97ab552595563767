-- ===== src/Msgpack/Payloads.antt =====
-- The readers of strings, of binary data and of the headers of arrays and maps, of class
-- msgpack_decoder (include/kcenon/container/container/msgpack.h).
use container_system.Base.{
  ℕ, ◌+◌, Option, none, some, length, take, drop, Bytes, bit_and, leb, ◌==◌, if◌then◌else◌,
}
use container_system.Msgpack.Format
use container_system.Msgpack.Decoder.{
  MsgpackDecoder, Read, ret, bind_read, advance, loaded, short, at_byte, guarded, read_byte,
  read_be16, read_be32,
}

-- The `len` bytes from `data_ + offset_` on.
abbrev pub slice : ℕ → ℕ → Bytes → Option Bytes
slice offset len bs =
    if leb (offset + len) (length bs) then some (take len (drop offset bs)) else none

unfoldable pub read_payload : ℕ → MsgpackDecoder → Read Bytes
read_payload len d = if short len d then ret none d else loaded len (slice d.offset len d.bytes) d

unfoldable pub read_string_length_byte : ℕ → MsgpackDecoder → Read ℕ
read_string_length_byte byte d =
    if bit_and byte 0xe0 == Format.fixstr_prefix
    then ret (some (bit_and byte 0x1f)) (advance 1 d)
    else if byte == Format.str8
    then guarded 2 read_byte d
    else if byte == Format.str16
    then guarded 3 read_be16 d
    else if byte == Format.str32
    then guarded 5 read_be32 d
    else ret none d

unfoldable pub read_string_length : MsgpackDecoder → Read ℕ
read_string_length d = at_byte d (λ byte. read_string_length_byte byte d)

unfoldable pub read_string : MsgpackDecoder → Read Bytes
read_string d = bind_read (read_string_length d) read_payload

unfoldable pub read_binary_length_byte : ℕ → MsgpackDecoder → Read ℕ
read_binary_length_byte byte d =
    if byte == Format.bin8
    then guarded 2 read_byte d
    else if byte == Format.bin16
    then guarded 3 read_be16 d
    else if byte == Format.bin32
    then guarded 5 read_be32 d
    else ret none d

unfoldable pub read_binary_length : MsgpackDecoder → Read ℕ
read_binary_length d = at_byte d (λ byte. read_binary_length_byte byte d)

unfoldable pub read_binary : MsgpackDecoder → Read Bytes
read_binary d = bind_read (read_binary_length d) read_payload

unfoldable pub read_array_header_byte : ℕ → MsgpackDecoder → Read ℕ
read_array_header_byte byte d =
    if bit_and byte 0xf0 == Format.fixarray_prefix
    then ret (some (bit_and byte 0x0f)) (advance 1 d)
    else if byte == Format.array16
    then guarded 3 read_be16 d
    else if byte == Format.array32
    then guarded 5 read_be32 d
    else ret none d

unfoldable pub read_array_header : MsgpackDecoder → Read ℕ
read_array_header d = at_byte d (λ byte. read_array_header_byte byte d)

unfoldable pub read_map_header_byte : ℕ → MsgpackDecoder → Read ℕ
read_map_header_byte byte d =
    if bit_and byte 0xf0 == Format.fixmap_prefix
    then ret (some (bit_and byte 0x0f)) (advance 1 d)
    else if byte == Format.map16
    then guarded 3 read_be16 d
    else if byte == Format.map32
    then guarded 5 read_be32 d
    else ret none d

unfoldable pub read_map_header : MsgpackDecoder → Read ℕ
read_map_header d = at_byte d (λ byte. read_map_header_byte byte d)
