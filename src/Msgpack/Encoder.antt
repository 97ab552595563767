-- ===== src/Msgpack/Encoder.antt =====
-- class msgpack_encoder of include/kcenon/container/container/msgpack.h. `buffer_` is a list of
-- bytes, and every method returns the encoder that it leaves. A float or a double is its bit
-- pattern, which is all that `memcpy` hands over.
use container_system.Base.{
  ℕ, ◌/◌, ◌%◌, ◌^◌, Bool, [], ◌∷◌, ◌++◌, length, Bytes, bit_or, leb, if◌then◌else◌,
}
use container_system.Base.Int.{ℤ, pos, negsuc, leb_ℤ, to_unsigned}
use container_system.Msgpack.Format.{
  positive_fixint_max, fixmap_prefix, fixmap_max_size, fixarray_prefix, fixarray_max_size,
  fixstr_prefix, fixstr_max_size, nil_byte, false_byte, true_byte, bin8, bin16, bin32, float32,
  float64, uint8, uint16, uint32, uint64, int8, int16, int32, int64, str8, str16, str32, array16,
  array32, map16, map32,
}

pub record MsgpackEncoder : Type 0 where
  pub buffer : Bytes

abbrev pub new_encoder : MsgpackEncoder
new_encoder = record { buffer = [] }

-- `buffer_.push_back(b)`
abbrev pub push_back : ℕ → MsgpackEncoder → MsgpackEncoder
push_back b e = record { buffer = e.buffer ++ (b ∷ []) }

-- `buffer_.insert(buffer_.end(), bs.begin(), bs.end())`
abbrev pub insert_end : Bytes → MsgpackEncoder → MsgpackEncoder
insert_end bs e = record { buffer = e.buffer ++ bs }

-- The cast of `value >> k` to a byte.
abbrev pub byte_of : ℕ → ℕ → ℕ
byte_of value k = value / 2 ^ k % 2 ^ 8

unfoldable pub write_be16 : ℕ → MsgpackEncoder → MsgpackEncoder
write_be16 value e = push_back (byte_of value 0) (push_back (byte_of value 8) e)

unfoldable pub write_be32 : ℕ → MsgpackEncoder → MsgpackEncoder
write_be32 value e =
    push_back (byte_of value 0)
      (push_back (byte_of value 8) (push_back (byte_of value 16) (push_back (byte_of value 24) e)))

unfoldable pub write_be64 : ℕ → MsgpackEncoder → MsgpackEncoder
write_be64 value e = push_back (byte_of value 0) (
    push_back (byte_of value 8) (
      push_back (byte_of value 16) (
        push_back (byte_of value 24) (
          push_back (byte_of value 32) (
            push_back (byte_of value 40)
              (push_back (byte_of value 48) (push_back (byte_of value 56) e)))))))

unfoldable pub write_nil : MsgpackEncoder → MsgpackEncoder
write_nil e = push_back nil_byte e

unfoldable pub write_bool : Bool → MsgpackEncoder → MsgpackEncoder
write_bool value e = push_back (if value then true_byte else false_byte) e

unfoldable pub write_uint : ℕ → MsgpackEncoder → MsgpackEncoder
write_uint value e =
    if leb value positive_fixint_max
    then push_back (value % 2 ^ 8) e
    else if leb value 0xff
    then push_back (value % 2 ^ 8) (push_back uint8 e)
    else if leb value 0xffff
    then write_be16 (value % 2 ^ 16) (push_back uint16 e)
    else if leb value 0xffff_ffff
    then write_be32 (value % 2 ^ 32) (push_back uint32 e)
    else write_be64 value (push_back uint64 e)

-- -32, INT8_MIN, INT16_MIN and INT32_MIN are `negsuc` of one less than their size.
unfoldable pub write_int : ℤ → MsgpackEncoder → MsgpackEncoder
write_int value e =
    if leb_ℤ (pos 0) value
    then write_uint (to_unsigned (2 ^ 64) value) e
    else if leb_ℤ (negsuc 31) value
    then push_back (to_unsigned (2 ^ 8) value) e
    else if leb_ℤ (negsuc 0x7f) value
    then push_back (to_unsigned (2 ^ 8) value) (push_back int8 e)
    else if leb_ℤ (negsuc 0x7fff) value
    then write_be16 (to_unsigned (2 ^ 16) value) (push_back int16 e)
    else if leb_ℤ (negsuc 0x7fff_ffff) value
    then write_be32 (to_unsigned (2 ^ 32) value) (push_back int32 e)
    else write_be64 (to_unsigned (2 ^ 64) value) (push_back int64 e)

unfoldable pub write_float : ℕ → MsgpackEncoder → MsgpackEncoder
write_float bits e = write_be32 bits (push_back float32 e)

unfoldable pub write_double : ℕ → MsgpackEncoder → MsgpackEncoder
write_double bits e = write_be64 bits (push_back float64 e)

-- What `write_string` writes before the characters.
unfoldable pub write_string_header : ℕ → MsgpackEncoder → MsgpackEncoder
write_string_header len e =
    if leb len fixstr_max_size
    then push_back (bit_or fixstr_prefix len % 2 ^ 8) e
    else if leb len 0xff
    then push_back (len % 2 ^ 8) (push_back str8 e)
    else if leb len 0xffff
    then write_be16 (len % 2 ^ 16) (push_back str16 e)
    else write_be32 (len % 2 ^ 32) (push_back str32 e)

unfoldable pub write_string : Bytes → MsgpackEncoder → MsgpackEncoder
write_string value e = insert_end value (write_string_header (length value) e)

-- What `write_binary` writes before the data.
unfoldable pub write_binary_header : ℕ → MsgpackEncoder → MsgpackEncoder
write_binary_header len e =
    if leb len 0xff
    then push_back (len % 2 ^ 8) (push_back bin8 e)
    else if leb len 0xffff
    then write_be16 (len % 2 ^ 16) (push_back bin16 e)
    else write_be32 (len % 2 ^ 32) (push_back bin32 e)

unfoldable pub write_binary : Bytes → MsgpackEncoder → MsgpackEncoder
write_binary value e = insert_end value (write_binary_header (length value) e)

unfoldable pub write_array_header : ℕ → MsgpackEncoder → MsgpackEncoder
write_array_header count e =
    if leb count fixarray_max_size
    then push_back (bit_or fixarray_prefix count % 2 ^ 8) e
    else if leb count 0xffff
    then write_be16 (count % 2 ^ 16) (push_back array16 e)
    else write_be32 (count % 2 ^ 32) (push_back array32 e)

unfoldable pub write_map_header : ℕ → MsgpackEncoder → MsgpackEncoder
write_map_header count e =
    if leb count fixmap_max_size
    then push_back (bit_or fixmap_prefix count % 2 ^ 8) e
    else if leb count 0xffff
    then write_be16 (count % 2 ^ 16) (push_back map16 e)
    else write_be32 (count % 2 ^ 32) (push_back map32 e)

-- The encoded data, and the encoder with its buffer moved from.
unfoldable pub finish : MsgpackEncoder → Bytes × MsgpackEncoder
finish e = (e.buffer, new_encoder)
