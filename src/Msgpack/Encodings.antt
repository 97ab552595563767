-- ===== src/Msgpack/Encodings.antt =====
-- What the writers of class msgpack_encoder (include/kcenon/container/container/msgpack.h) append to
-- the buffer, as functions into byte strings.
use container_system.Base.{
  ℕ, ◌^◌, ◌%◌, ◌≡◌, ap, ◌∙◌, [], ◌∷◌, ◌++◌, append_assoc, length, Bytes, bit_or, leb, if◌then◌else◌,
  arith,
}
use container_system.Base.Int.{ℤ, pos, negsuc, to_unsigned}
use container_system.Msgpack.Format
use container_system.Msgpack.Encoder.{
  MsgpackEncoder, insert_end, write_be16, write_be32, write_be64, write_uint, write_int,
  write_float, write_double, write_string_header, write_string, write_binary_header, write_binary,
  write_array_header, write_map_header,
}
use container_system.Msgpack.Cursor.{be16_bytes, be32_bytes, be64_bytes}

abbrev pub uint_bytes : ℕ → Bytes
uint_bytes v =
    if leb v 0x7f
    then v % 2 ^ 8 ∷ []
    else if leb v 0xff
    then Format.uint8 ∷ v % 2 ^ 8 ∷ []
    else if leb v 0xffff
    then Format.uint16 ∷ be16_bytes (v % 2 ^ 16)
    else if leb v 0xffff_ffff
    then Format.uint32 ∷ be32_bytes (v % 2 ^ 32)
    else Format.uint64 ∷ be64_bytes v

abbrev pub int_bytes : ℤ → Bytes
int_bytes (pos n) = uint_bytes (n % 2 ^ 64)
int_bytes (negsuc n) =
    if leb n 31
    then to_unsigned (2 ^ 8) (negsuc n) ∷ []
    else if leb n 0x7f
    then Format.int8 ∷ to_unsigned (2 ^ 8) (negsuc n) ∷ []
    else if leb n 0x7fff
    then Format.int16 ∷ be16_bytes (to_unsigned (2 ^ 16) (negsuc n))
    else if leb n 0x7fff_ffff
    then Format.int32 ∷ be32_bytes (to_unsigned (2 ^ 32) (negsuc n))
    else Format.int64 ∷ be64_bytes (to_unsigned (2 ^ 64) (negsuc n))

abbrev pub string_header_bytes : ℕ → Bytes
string_header_bytes len =
    if leb len 0x1f
    then bit_or 0xa0 len % 2 ^ 8 ∷ []
    else if leb len 0xff
    then Format.str8 ∷ len % 2 ^ 8 ∷ []
    else if leb len 0xffff
    then Format.str16 ∷ be16_bytes (len % 2 ^ 16)
    else Format.str32 ∷ be32_bytes (len % 2 ^ 32)

abbrev pub string_bytes : Bytes → Bytes
string_bytes s = string_header_bytes (length s) ++ s

abbrev pub binary_header_bytes : ℕ → Bytes
binary_header_bytes len =
    if leb len 0xff
    then Format.bin8 ∷ len % 2 ^ 8 ∷ []
    else if leb len 0xffff
    then Format.bin16 ∷ be16_bytes (len % 2 ^ 16)
    else Format.bin32 ∷ be32_bytes (len % 2 ^ 32)

abbrev pub binary_bytes : Bytes → Bytes
binary_bytes s = binary_header_bytes (length s) ++ s

abbrev pub header_bytes : ℕ → ℕ → ℕ → ℕ → Bytes
header_bytes prefix t16 t32 count =
    if leb count 0x0f
    then bit_or prefix count % 2 ^ 8 ∷ []
    else if leb count 0xffff
    then t16 ∷ be16_bytes (count % 2 ^ 16)
    else t32 ∷ be32_bytes (count % 2 ^ 32)

abbrev pub array_header_bytes : ℕ → Bytes
array_header_bytes = header_bytes 0x90 Format.array16 Format.array32

abbrev pub map_header_bytes : ℕ → Bytes
map_header_bytes = header_bytes 0x80 Format.map16 Format.map32

abbrev encoder : Bytes → MsgpackEncoder
encoder bs = record { buffer = bs }

module _ (e : MsgpackEncoder) where
  write_be16_lem :
      (t v : ℕ) → write_be16 v (insert_end (t ∷ []) e) ≡ insert_end (t ∷ be16_bytes v) e
  unfolding write_be16
  write_be16_lem t v = simp append_assoc

  write_be32_lem :
      (t v : ℕ) → write_be32 v (insert_end (t ∷ []) e) ≡ insert_end (t ∷ be32_bytes v) e
  unfolding write_be32
  write_be32_lem t v = simp append_assoc

  write_be64_lem :
      (t v : ℕ) → write_be64 v (insert_end (t ∷ []) e) ≡ insert_end (t ∷ be64_bytes v) e
  unfolding write_be64
  write_be64_lem t v = simp append_assoc

  pub write_uint_lem : (v : ℕ) → write_uint v e ≡ insert_end (uint_bytes v) e
  unfolding write_uint
  write_uint_lem v = ground (
    arith,
    write_be16_lem Format.uint16 (v % 2 ^ 16),
    write_be32_lem Format.uint32 (v % 2 ^ 32),
    write_be64_lem Format.uint64 v,
    append_assoc e.buffer (Format.uint8 ∷ []) (v % 2 ^ 8 ∷ []),
  )

  pub write_int_lem : (v : ℤ) → write_int v e ≡ insert_end (int_bytes v) e
  unfolding write_int
  write_int_lem (pos n) = ground (arith, write_uint_lem (n % 2 ^ 64))
  write_int_lem (negsuc n) = ground (
    arith,
    append_assoc e.buffer (Format.int8 ∷ []) (to_unsigned (2 ^ 8) (negsuc n) ∷ []),
    write_be16_lem Format.int16 (to_unsigned (2 ^ 16) (negsuc n)),
    write_be32_lem Format.int32 (to_unsigned (2 ^ 32) (negsuc n)),
    write_be64_lem Format.int64 (to_unsigned (2 ^ 64) (negsuc n)),
  )

  pub write_float_lem : (v : ℕ) → write_float v e ≡ insert_end (Format.float32 ∷ be32_bytes v) e
  unfolding write_float
  write_float_lem v = write_be32_lem Format.float32 v

  pub write_double_lem : (v : ℕ) → write_double v e ≡ insert_end (Format.float64 ∷ be64_bytes v) e
  unfolding write_double
  write_double_lem v = write_be64_lem Format.float64 v

  write_string_header_lem : (n : ℕ) → write_string_header n e ≡ insert_end (string_header_bytes n) e
  unfolding write_string_header
  write_string_header_lem n = ground (
    arith,
    append_assoc e.buffer (Format.str8 ∷ []) (n % 2 ^ 8 ∷ []),
    write_be16_lem Format.str16 (n % 2 ^ 16),
    write_be32_lem Format.str32 (n % 2 ^ 32),
  )

  pub write_string_lem : (s : Bytes) → write_string s e ≡ insert_end (string_bytes s) e
  unfolding write_string
  write_string_lem s =
      ap (insert_end s) (write_string_header_lem (length s))
      ∙ ap encoder (append_assoc e.buffer (string_header_bytes (length s)) s)

  write_binary_header_lem : (n : ℕ) → write_binary_header n e ≡ insert_end (binary_header_bytes n) e
  unfolding write_binary_header
  write_binary_header_lem n = ground (
    arith,
    append_assoc e.buffer (Format.bin8 ∷ []) (n % 2 ^ 8 ∷ []),
    write_be16_lem Format.bin16 (n % 2 ^ 16),
    write_be32_lem Format.bin32 (n % 2 ^ 32),
  )

  pub write_binary_lem : (s : Bytes) → write_binary s e ≡ insert_end (binary_bytes s) e
  unfolding write_binary
  write_binary_lem s =
      ap (insert_end s) (write_binary_header_lem (length s))
      ∙ ap encoder (append_assoc e.buffer (binary_header_bytes (length s)) s)

  pub write_array_header_lem :
      (n : ℕ) → write_array_header n e ≡ insert_end (array_header_bytes n) e
  unfolding write_array_header
  write_array_header_lem n = ground (
    arith,
    write_be16_lem Format.array16 (n % 2 ^ 16),
    write_be32_lem Format.array32 (n % 2 ^ 32),
  )

  pub write_map_header_lem : (n : ℕ) → write_map_header n e ≡ insert_end (map_header_bytes n) e
  unfolding write_map_header
  write_map_header_lem n =
      ground
        (arith, write_be16_lem Format.map16 (n % 2 ^ 16), write_be32_lem Format.map32 (n % 2 ^ 32))
