-- ===== src/Msgpack/RoundTrip/Payloads.antt =====
-- The readers of class msgpack_decoder for strings, binary data and headers on the bytes of their
-- writers (include/kcenon/container/container/msgpack.h).
use container_system.Base.{
  ℕ, ◌≤◌, ◌<◌, ◌^◌, ◌%◌, ◌≡◌, ap, ◌∙◌, some, [], ◌∷◌, ◌++◌, append_assoc, length, length-append,
  Bytes, bit_or, bit_or-lt, fixstr_prefix, fixstr_size, fixarray_prefix, fixarray_size,
  fixmap_prefix, fixmap_size, leb, if◌then◌else◌, arith,
}
use container_system.Msgpack.Format
use container_system.Msgpack.Decoder.{MsgpackDecoder, Read, ret, bind_read}
use container_system.Msgpack.Payloads.{
  read_payload, read_string_length_byte, read_string_length, read_string, read_binary_length_byte,
  read_binary_length, read_binary, read_array_header_byte, read_array_header, read_map_header_byte,
  read_map_header,
}
use container_system.Msgpack.Encodings.{
  string_header_bytes, string_bytes, binary_header_bytes, binary_bytes, array_header_bytes,
  map_header_bytes,
}
use container_system.Msgpack.Cursor.{
  at, Fits, at_byte-at, advance-at, be16_bytes, be32_bytes, read_payload-at,
}
use container_system.Msgpack.RoundTrip.{Reads, Reads-if, byte-behind, be16-behind, be32-behind}

-- A header whose length is read, and the payload behind it.
Reads-payload :
    (read : MsgpackDecoder → Read ℕ) (header s : Bytes)
    → Reads read (length s) header
    → Reads (λ d. bind_read (read d) read_payload) s (header ++ s)
Reads-payload read header s r pre xs f = rw (append_assoc header s xs) (
    let g : Fits pre (header ++ (s ++ xs)) = omega (
      arith,
      length-append (header ++ s) xs,
      length-append header s,
      length-append header (s ++ xs),
      length-append s xs,
    ) in
    rw (r pre (s ++ xs) g) (
      read_payload-at (pre ++ header) s xs
        (omega (arith, length-append pre header, length-append header (s ++ xs)))
      ∙ ap (λ p. ret (some s) (at p xs)) (append_assoc pre header s)))

module _ (pre xs : Bytes) where
  string_length-at :
      (b : ℕ)
      → Fits pre (b ∷ xs)
      → read_string_length (at pre (b ∷ xs)) ≡ read_string_length_byte b (at pre (b ∷ xs))
  unfolding read_string_length
  string_length-at b f =
      at_byte-at pre b xs (λ byte. read_string_length_byte byte (at pre (b ∷ xs))) f

  binary_length-at :
      (b : ℕ)
      → Fits pre (b ∷ xs)
      → read_binary_length (at pre (b ∷ xs)) ≡ read_binary_length_byte b (at pre (b ∷ xs))
  unfolding read_binary_length
  binary_length-at b f =
      at_byte-at pre b xs (λ byte. read_binary_length_byte byte (at pre (b ∷ xs))) f

  array_header-at :
      (b : ℕ)
      → Fits pre (b ∷ xs)
      → read_array_header (at pre (b ∷ xs)) ≡ read_array_header_byte b (at pre (b ∷ xs))
  unfolding read_array_header
  array_header-at b f =
      at_byte-at pre b xs (λ byte. read_array_header_byte byte (at pre (b ∷ xs))) f

  map_header-at :
      (b : ℕ)
      → Fits pre (b ∷ xs)
      → read_map_header (at pre (b ∷ xs)) ≡ read_map_header_byte b (at pre (b ∷ xs))
  unfolding read_map_header
  map_header-at b f = at_byte-at pre b xs (λ byte. read_map_header_byte byte (at pre (b ∷ xs))) f

-- The short forms, whose first byte holds the length.
module _ (n : ℕ) where
  fixstr : n < 32 → Reads read_string_length n (bit_or 0xa0 n ∷ [])
  unfolding read_string_length_byte
  fixstr h pre xs f =
      string_length-at pre xs (bit_or 0xa0 n) f
      ∙ rw (fixstr_prefix n h, fixstr_size n h)
          (ap (ret (some n)) (advance-at pre (bit_or 0xa0 n ∷ []) xs f))

  fixarray : n < 16 → Reads read_array_header n (bit_or 0x90 n ∷ [])
  unfolding read_array_header_byte
  fixarray h pre xs f =
      array_header-at pre xs (bit_or 0x90 n) f
      ∙ rw (fixarray_prefix n h, fixarray_size n h)
          (ap (ret (some n)) (advance-at pre (bit_or 0x90 n ∷ []) xs f))

  fixmap : n < 16 → Reads read_map_header n (bit_or 0x80 n ∷ [])
  unfolding read_map_header_byte
  fixmap h pre xs f =
      map_header-at pre xs (bit_or 0x80 n) f
      ∙ rw (fixmap_prefix n h, fixmap_size n h)
          (ap (ret (some n)) (advance-at pre (bit_or 0x80 n ∷ []) xs f))

-- The forms with the length behind the format byte.
module _ (n : ℕ) where
  str8_bytes : Reads read_string_length n (Format.str8 ∷ n ∷ [])
  unfolding read_string_length_byte
  str8_bytes pre xs f =
      string_length-at pre (n ∷ xs) Format.str8 f ∙ byte-behind (λ r. r) Format.str8 n pre xs f

  bin8_bytes : Reads read_binary_length n (Format.bin8 ∷ n ∷ [])
  unfolding read_binary_length_byte
  bin8_bytes pre xs f =
      binary_length-at pre (n ∷ xs) Format.bin8 f ∙ byte-behind (λ r. r) Format.bin8 n pre xs f

module _ (n : ℕ) (h : n < 2 ^ 16) where
  str16_bytes : Reads read_string_length n (Format.str16 ∷ be16_bytes n)
  unfolding read_string_length_byte
  str16_bytes pre xs f =
      string_length-at pre (be16_bytes n ++ xs) Format.str16 f
      ∙ be16-behind (λ r. r) Format.str16 n pre xs h f

  bin16_bytes : Reads read_binary_length n (Format.bin16 ∷ be16_bytes n)
  unfolding read_binary_length_byte
  bin16_bytes pre xs f =
      binary_length-at pre (be16_bytes n ++ xs) Format.bin16 f
      ∙ be16-behind (λ r. r) Format.bin16 n pre xs h f

  array16_bytes : Reads read_array_header n (Format.array16 ∷ be16_bytes n)
  unfolding read_array_header_byte
  array16_bytes pre xs f =
      array_header-at pre (be16_bytes n ++ xs) Format.array16 f
      ∙ be16-behind (λ r. r) Format.array16 n pre xs h f

  map16_bytes : Reads read_map_header n (Format.map16 ∷ be16_bytes n)
  unfolding read_map_header_byte
  map16_bytes pre xs f =
      map_header-at pre (be16_bytes n ++ xs) Format.map16 f
      ∙ be16-behind (λ r. r) Format.map16 n pre xs h f

module _ (n : ℕ) (h : n < 2 ^ 32) where
  str32_bytes : Reads read_string_length n (Format.str32 ∷ be32_bytes n)
  unfolding read_string_length_byte
  str32_bytes pre xs f =
      string_length-at pre (be32_bytes n ++ xs) Format.str32 f
      ∙ be32-behind (λ r. r) Format.str32 n pre xs h f

  bin32_bytes : Reads read_binary_length n (Format.bin32 ∷ be32_bytes n)
  unfolding read_binary_length_byte
  bin32_bytes pre xs f =
      binary_length-at pre (be32_bytes n ++ xs) Format.bin32 f
      ∙ be32-behind (λ r. r) Format.bin32 n pre xs h f

  array32_bytes : Reads read_array_header n (Format.array32 ∷ be32_bytes n)
  unfolding read_array_header_byte
  array32_bytes pre xs f =
      array_header-at pre (be32_bytes n ++ xs) Format.array32 f
      ∙ be32-behind (λ r. r) Format.array32 n pre xs h f

  map32_bytes : Reads read_map_header n (Format.map32 ∷ be32_bytes n)
  unfolding read_map_header_byte
  map32_bytes pre xs f =
      map_header-at pre (be32_bytes n ++ xs) Format.map32 f
      ∙ be32-behind (λ r. r) Format.map32 n pre xs h f

-- The sizes of two and of four bytes, and of one as well.
Reads-words :
    (read : MsgpackDecoder → Read ℕ) (n : ℕ) (t16 t32 : ℕ)
    → (n < 2 ^ 16 → Reads read n (t16 ∷ be16_bytes n))
    → (n < 2 ^ 32 → Reads read n (t32 ∷ be32_bytes n))
    → n < 2 ^ 32
    → Reads read n
        (if leb n 0xffff then t16 ∷ be16_bytes (n % 2 ^ 16) else t32 ∷ be32_bytes (n % 2 ^ 32))
Reads-words read n t16 t32 r16 r32 h =
    Reads-if read n (leb n 0xffff) _ _
      (λ p. rw (let e : n % 2 ^ 16 ≡ n = ground arith in e) (r16 (ground arith)))
      λ _. rw (let e : n % 2 ^ 32 ≡ n = omega arith in e) (r32 h)

Reads-sizes :
    (read : MsgpackDecoder → Read ℕ) (n : ℕ) (t8 t16 t32 : ℕ)
    → (n ≤ 0xff → Reads read n (t8 ∷ n ∷ []))
    → (n < 2 ^ 16 → Reads read n (t16 ∷ be16_bytes n))
    → (n < 2 ^ 32 → Reads read n (t32 ∷ be32_bytes n))
    → n < 2 ^ 32
    → Reads read n (
        if leb n 0xff
        then t8 ∷ n % 2 ^ 8 ∷ []
        else if leb n 0xffff
        then t16 ∷ be16_bytes (n % 2 ^ 16)
        else t32 ∷ be32_bytes (n % 2 ^ 32))
Reads-sizes read n t8 t16 t32 r8 r16 r32 h =
    Reads-if read n (leb n 0xff) _ _
      (λ p. rw (let e : n % 2 ^ 8 ≡ n = ground arith in e) (r8 (ground arith)))
      λ _. Reads-words read n t16 t32 r16 r32 h

pub read_string-bytes : (s : Bytes) → length s < 2 ^ 32 → Reads read_string s (string_bytes s)
unfolding read_string
read_string-bytes s h = Reads-payload read_string_length (string_header_bytes (length s)) s (
    Reads-if read_string_length (length s) (leb (length s) 0x1f) _ _
      (λ p.
        let small : length s < 32 = ground arith in
        rw
          (let e : bit_or 0xa0 (length s) % 2 ^ 8 ≡ bit_or 0xa0 (length s) =
              omega (arith, bit_or-lt 8 0xa0 (length s) (omega arith) (omega arith)) in
            e)
          (fixstr (length s) small))
      λ _.
        Reads-sizes read_string_length (length s) Format.str8 Format.str16 Format.str32
          (λ _. str8_bytes (length s)) (str16_bytes (length s)) (str32_bytes (length s)) h)

pub read_binary-bytes : (s : Bytes) → length s < 2 ^ 32 → Reads read_binary s (binary_bytes s)
unfolding read_binary
read_binary-bytes s h = Reads-payload read_binary_length (binary_header_bytes (length s)) s (
    Reads-sizes read_binary_length (length s) Format.bin8 Format.bin16 Format.bin32
      (λ _. bin8_bytes (length s)) (bin16_bytes (length s)) (bin32_bytes (length s)) h)

pub read_array_header-bytes :
    (n : ℕ) → n < 2 ^ 32 → Reads read_array_header n (array_header_bytes n)
read_array_header-bytes n h =
    Reads-if read_array_header n (leb n 0x0f) _ _
      (λ p.
        let small : n < 16 = ground arith in
        rw
          (let e : bit_or 0x90 n % 2 ^ 8 ≡ bit_or 0x90 n =
              omega (arith, bit_or-lt 8 0x90 n (omega arith) (omega arith)) in
            e)
          (fixarray n small))
      λ _.
        Reads-words read_array_header n Format.array16 Format.array32 (array16_bytes n)
          (array32_bytes n) h

pub read_map_header-bytes : (n : ℕ) → n < 2 ^ 32 → Reads read_map_header n (map_header_bytes n)
read_map_header-bytes n h =
    Reads-if read_map_header n (leb n 0x0f) _ _
      (λ p.
        let small : n < 16 = ground arith in
        rw
          (let e : bit_or 0x80 n % 2 ^ 8 ≡ bit_or 0x80 n =
              omega (arith, bit_or-lt 8 0x80 n (omega arith) (omega arith)) in
            e)
          (fixmap n small))
      λ _. Reads-words read_map_header n Format.map16 Format.map32 (map16_bytes n) (map32_bytes n) h
