-- ===== src/Msgpack/WriteRead.antt =====
-- The readers of class msgpack_decoder behind the writers of class msgpack_encoder
-- (include/kcenon/container/container/msgpack.h).
use container_system.Base.{
  ℕ, ◌≤◌, ◌<◌, ◌^◌, ◌≡◌, ◌∙◌, Option, some, none, ◌++◌, append_assoc, length, length-append, Bytes,
  Bool, refl, arith,
}
use container_system.Base.Int.{ℤ, InSigned}
use container_system.Msgpack.Format.{MsgpackType, positive_int, str, bin, array, map}
use container_system.Msgpack.Encoder.{
  MsgpackEncoder, insert_end, write_nil, write_bool, write_float, write_double, write_uint,
  write_int, write_string, write_binary, write_array_header, write_map_header,
}
use container_system.Msgpack.Decoder.{MsgpackDecoder, Read, ret, peek_type, read_nil, read_bool}
use container_system.Msgpack.Numbers.{read_int, read_uint, read_float, read_double}
use container_system.Msgpack.Payloads.{read_string, read_binary, read_array_header, read_map_header}
use container_system.Msgpack.Encodings.{
  uint_bytes, write_uint_lem, write_int_lem, write_float_lem, write_double_lem, write_string_lem,
  write_binary_lem, write_array_header_lem, write_map_header_lem,
}
use container_system.Msgpack.Cursor.{over}
use container_system.Msgpack.RoundTrip.{Reads, read_uint-bytes}
use container_system.Msgpack.RoundTrip.Integers.{read_int-bytes, read_int-overflow}
use container_system.Msgpack.RoundTrip.Scalars.{
  read_nil-bytes, read_bool-bytes, read_float-bytes, read_double-bytes,
}
use container_system.Msgpack.RoundTrip.Payloads.{
  read_string-bytes, read_binary-bytes, read_array_header-bytes, read_map_header-bytes,
}
use container_system.Msgpack.Peek.{
  Peeks, sign_type, peek-uint_bytes, peek-int_bytes, peek-string_bytes, peek-binary_bytes,
  peek-array_header_bytes, peek-map_header_bytes,
}

-- The data that `after` holds, with `rest` behind them, seen from where `before` ends.
abbrev pub reader : MsgpackEncoder → MsgpackEncoder → Bytes → MsgpackDecoder
reader before after rest = over (after.buffer ++ rest) (length before.buffer)

-- The value is read back, and the decoder stands behind what was written.
abbrev pub ReadsBack {ℓ} :
    {A : Type ℓ}
    → (MsgpackDecoder → Read A)
    → Option A
    → MsgpackEncoder
    → MsgpackEncoder
    → Bytes
    → Type ℓ
ReadsBack read o before after rest =
    read (reader before after rest) ≡ ret o (reader after after rest)

abbrev pub Small : MsgpackEncoder → Bytes → Type 0
Small e rest = length (e.buffer ++ rest) < 2 ^ 63

module _ {ℓ} {A : Type ℓ} (read : MsgpackDecoder → Read A) (bs : Bytes) (e : MsgpackEncoder) where
  reads_back :
      (a : A) {e' : MsgpackEncoder} (rest : Bytes)
      → Reads read a bs
      → e' ≡ insert_end bs e
      → Small e' rest
      → ReadsBack read (some a) e e' rest
  reads_back a rest r w = rw w λ s. rw (append_assoc e.buffer bs rest) (
      r e.buffer rest (
        omega (
          arith,
          length-append (e.buffer ++ bs) rest,
          length-append e.buffer bs,
          length-append bs rest,
        ))
      ∙ rw (append_assoc e.buffer bs rest))

Peeks-back :
    (t : MsgpackType) (bs : Bytes) (e : MsgpackEncoder) {e' : MsgpackEncoder} (rest : Bytes)
    → Peeks t bs
    → e' ≡ insert_end bs e
    → Small e' rest
    → peek_type (reader e e' rest) ≡ some t
Peeks-back t bs e rest p w = rw w λ s. rw (append_assoc e.buffer bs rest) (
    p.peeked e.buffer rest (
      omega (
        arith,
        length-append (e.buffer ++ bs) rest,
        length-append e.buffer bs,
        length-append bs rest,
      )))

module _ (e : MsgpackEncoder) (rest : Bytes) where
  -- For every uint64 that `write_uint` appended, `peek_type` says positive_int and `read_uint` gives
  -- it back, leaving the decoder behind it.
  pub read_uint-write_uint :
      (v : ℕ)
      → v < 2 ^ 64
      → Small (write_uint v e) rest
      → (peek_type (reader e (write_uint v e) rest) ≡ some positive_int)
        × ReadsBack read_uint (some v) e (write_uint v e) rest
  read_uint-write_uint v h s = (
    Peeks-back positive_int (uint_bytes v) e rest (peek-uint_bytes v) (write_uint_lem e v) s,
    reads_back read_uint (uint_bytes v) e v rest (read_uint-bytes v h) (write_uint_lem e v) s,
  )

  -- For every int64 that `write_int` appended, `peek_type` tells its sign and `read_int` gives it
  -- back, leaving the decoder behind it.
  pub read_int-write_int :
      (v : ℤ)
      → InSigned (2 ^ 64) v
      → Small (write_int v e) rest
      → (peek_type (reader e (write_int v e) rest) ≡ some (sign_type v))
        × ReadsBack read_int (some v) e (write_int v e) rest
  read_int-write_int v h s = (
    Peeks-back (sign_type v) _ e rest (peek-int_bytes v) (write_int_lem e v) s,
    reads_back read_int _ e v rest (read_int-bytes v h) (write_int_lem e v) s,
  )

  -- `read_int` refuses every uint64 that `write_uint` appended and that is not below 2 ^ 63, though
  -- `peek_type` announced a positive integer; the decoder has moved over it.
  pub read_int-write_uint_overflow :
      (v : ℕ)
      → 2 ^ 63 ≤ v
      → v < 2 ^ 64
      → Small (write_uint v e) rest
      → (peek_type (reader e (write_uint v e) rest) ≡ some positive_int)
        × ReadsBack read_int none e (write_uint v e) rest
  read_int-write_uint_overflow v lo hi s = (
    Peeks-back positive_int (uint_bytes v) e rest (peek-uint_bytes v) (write_uint_lem e v) s,
    refused v lo hi (write_uint_lem e v) s,
  )
    where
      refused :
          (v : ℕ)
          → 2 ^ 63 ≤ v
          → v < 2 ^ 64
          → {e' : MsgpackEncoder} → e' ≡ insert_end (uint_bytes v) e
          → Small e' rest
          → ReadsBack read_int none e e' rest
      refused v lo hi w = rw w λ s. rw (append_assoc e.buffer (uint_bytes v) rest) (
          read_int-overflow v e.buffer rest lo hi (
            omega (
              arith,
              length-append (e.buffer ++ uint_bytes v) rest,
              length-append e.buffer (uint_bytes v),
              length-append (uint_bytes v) rest,
            ))
          ∙ rw (append_assoc e.buffer (uint_bytes v) rest))

  -- Every string below 4 GiB that `write_string` appended is announced as a string and read back.
  pub read_string-write_string :
      (v : Bytes)
      → length v < 2 ^ 32
      → Small (write_string v e) rest
      → (peek_type (reader e (write_string v e) rest) ≡ some str)
        × ReadsBack read_string (some v) e (write_string v e) rest
  read_string-write_string v h s = (
    Peeks-back str _ e rest (peek-string_bytes v) (write_string_lem e v) s,
    reads_back read_string _ e v rest (read_string-bytes v h) (write_string_lem e v) s,
  )

  -- Binary data below 4 GiB that `write_binary` appended are announced as such and read back.
  pub read_binary-write_binary :
      (v : Bytes)
      → length v < 2 ^ 32
      → Small (write_binary v e) rest
      → (peek_type (reader e (write_binary v e) rest) ≡ some bin)
        × ReadsBack read_binary (some v) e (write_binary v e) rest
  read_binary-write_binary v h s = (
    Peeks-back bin _ e rest (peek-binary_bytes v) (write_binary_lem e v) s,
    reads_back read_binary _ e v rest (read_binary-bytes v h) (write_binary_lem e v) s,
  )

  -- The count of an array header below 2 ^ 32 is announced as an array and read back.
  pub read_array_header-write_array_header :
      (n : ℕ)
      → n < 2 ^ 32
      → Small (write_array_header n e) rest
      → (peek_type (reader e (write_array_header n e) rest) ≡ some array)
        × ReadsBack read_array_header (some n) e (write_array_header n e) rest
  read_array_header-write_array_header n h s = (
    Peeks-back array _ e rest (peek-array_header_bytes n) (write_array_header_lem e n) s,
    reads_back read_array_header _ e n rest (read_array_header-bytes n h)
        (write_array_header_lem e n) s,
  )

  -- The count of a map header below 2 ^ 32 is announced as a map and read back.
  pub read_map_header-write_map_header :
      (n : ℕ)
      → n < 2 ^ 32
      → Small (write_map_header n e) rest
      → (peek_type (reader e (write_map_header n e) rest) ≡ some map)
        × ReadsBack read_map_header (some n) e (write_map_header n e) rest
  read_map_header-write_map_header n h s = (
    Peeks-back map _ e rest (peek-map_header_bytes n) (write_map_header_lem e n) s,
    reads_back read_map_header _ e n rest (read_map_header-bytes n h) (write_map_header_lem e n) s,
  )

  -- A count below 2 ^ 32 of an array header is announced as an array and read back, and one of a map
  -- header as a map.
  pub read-write_headers :
      (n m : ℕ)
      → n < 2 ^ 32
      → m < 2 ^ 32
      → Small (write_array_header n e) rest
      → Small (write_map_header m e) rest
      → (peek_type (reader e (write_array_header n e) rest) ≡ some array)
        × ReadsBack read_array_header (some n) e (write_array_header n e) rest
        × (peek_type (reader e (write_map_header m e) rest) ≡ some map)
        × ReadsBack read_map_header (some m) e (write_map_header m e) rest
  read-write_headers n m h g s t =
      let (a, b) = read_array_header-write_array_header n h s in
      let (c, d) = read_map_header-write_map_header m g t in (a, b, c, d)

  -- What `write_nil`, `write_bool`, `write_float` and `write_double` appended is read back, a float by
  -- its 32 bits and a double by its 64.
  pub read-write_scalars :
      (widen : ℕ → ℕ) (b : Bool) (f g : ℕ)
      → f < 2 ^ 32
      → g < 2 ^ 64
      → Small (write_nil e) rest
      → Small (write_bool b e) rest
      → Small (write_float f e) rest
      → Small (write_double g e) rest
      → ReadsBack read_nil (some tt) e (write_nil e) rest
        × ReadsBack read_bool (some b) e (write_bool b e) rest
        × ReadsBack read_float (some f) e (write_float f e) rest
        × ReadsBack (read_double widen) (some g) e (write_double g e) rest
  unfolding write_nil write_bool
  read-write_scalars widen b f g h i s t u w = (
    reads_back read_nil _ e tt rest read_nil-bytes refl s,
    reads_back read_bool _ e b rest (read_bool-bytes b) refl t,
    reads_back read_float _ e f rest (read_float-bytes f h) (write_float_lem e f) u,
    reads_back (read_double widen) _ e g rest (read_double-bytes widen g i) (write_double_lem e g)
        w,
  )
