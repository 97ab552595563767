-- ===== src/Msgpack/Safety/Payloads.antt =====
-- The readers of strings, binary data and headers of class msgpack_decoder
-- (include/kcenon/container/container/msgpack.h) on any bytes.
use container_system.Base.{
  ℕ, ◌+◌, ◌≤◌, ◌<◌, ◌^◌, ◌≡◌, some, take, drop, length, Bytes, leb-true, arith, bit_and, bit_and-lt,
  All, All-take, All-drop, length-take-le, ap,
}
use container_system.Msgpack.Decoder.{
  MsgpackDecoder, Read, ret, advance, short, guarded, read_byte, read_be16,
}
use container_system.Msgpack.Payloads.{
  slice, read_payload, read_string_length, read_string_length_byte, read_string, read_binary_length,
  read_binary_length_byte, read_binary, read_array_header, read_array_header_byte, read_map_header,
  read_map_header_byte,
}
use container_system.Msgpack.Safety.{
  IsByte, IsValid, Safe, given, refused, Safe-if, Safe-cond, Safe-refused, Safe-bind, Safe-weaken,
  Safe-loaded, Safe-advance, Safe-at_byte,
}
use container_system.Msgpack.Safety.Words.{
  Below, guarded_byte-Safe, guarded_be16-Safe, guarded_be32-Safe,
}

slice-within :
    (d : MsgpackDecoder) (len : ℕ)
    → IsValid d
    → d.offset + len ≤ d.size
    → slice d.offset len d.bytes ≡ some (take len (drop d.offset d.bytes))
slice-within d len v h = rw (leb-true (d.offset + len) (length d.bytes) (omega arith))

weaken {ℓ} :
    {A : Type ℓ} {P : A → Type 0} {n : ℕ} {d : MsgpackDecoder} {r : Read A}
    → Safe P n d r
    → Safe P 0 d r
weaken (given a d' p w b l) = given a d' p w b (omega arith)
weaken (refused d' w b l) = refused d' w b l

-- Bytes that are fewer than those of the data.
abbrev pub Part : Bytes → Bytes → Type 0
Part whole b = (length b < length whole) × All IsByte b

read_payload-Safe :
    (len : ℕ) (d : MsgpackDecoder) (whole : Bytes)
    → Below (2 ^ 32) len
    → IsValid d
    → d.bytes ≡ whole
    → 0 < d.offset
    → Safe (Part whole) 0 d (read_payload len d)
unfolding read_payload
read_payload-Safe len d whole small v e pos_offset =
    Safe-if (short len d) (λ _. Safe-refused 0 d v)
      λ t.
        let h : d.offset + len ≤ d.size = ground arith in
        let part : Bytes = take len (drop d.offset d.bytes) in
        let fewer : length part < length whole =
          omega (arith, length-take-le len (drop d.offset d.bytes), ap length e) in
        let octets : All IsByte part =
          All-take IsByte len _ (All-drop IsByte d.offset _ v.octets) in
        weaken (Safe-loaded len d part (fewer, octets) v h (slice-within d len v h))

module _ (d : MsgpackDecoder) (v : IsValid d) where
  word8 : Safe (Below (2 ^ 32)) 1 d (guarded 2 read_byte d)
  word8 = Safe-weaken (λ a p. omega arith) (guarded_byte-Safe d v)

  word16 : Safe (Below (2 ^ 32)) 1 d (guarded 3 read_be16 d)
  word16 = Safe-weaken (λ a p. omega arith) (guarded_be16-Safe d v)

  masked :
      (b m : ℕ)
      → b < 256
      → m < 256
      → d.offset + 1 ≤ d.size
      → Safe (Below (2 ^ 32)) 1 d (ret (some (bit_and b m)) (advance 1 d))
  masked b m s t h = Safe-advance 1 d _ (omega (arith, bit_and-lt 8 b m s)) v h

  payload-Safe :
      (len : ℕ) (d' : MsgpackDecoder)
      → Below (2 ^ 32) len
      → IsValid d'
      → d'.bytes ≡ d.bytes
      → d.offset + 1 ≤ d'.offset
      → Safe (Part d.bytes) 0 d' (read_payload len d')
  payload-Safe len d' p v' e h = read_payload-Safe len d' d.bytes p v' e (omega arith)

  read_string_length-Safe : Safe (Below (2 ^ 32)) 1 d (read_string_length d)
  unfolding read_string_length read_string_length_byte
  read_string_length-Safe = Safe-at_byte 1 d _ v λ h b s. search (
    Safe-cond,
    Safe-refused {0} 1 d v,
    masked b 0x1f s (omega arith) h,
    word8,
    word16,
    guarded_be32-Safe d v,
  )

  pub read_string-Safe : Safe (Part d.bytes) 1 d (read_string d)
  unfolding read_string
  read_string-Safe = Safe-bind read_payload payload-Safe read_string_length-Safe

  read_binary_length-Safe : Safe (Below (2 ^ 32)) 1 d (read_binary_length d)
  unfolding read_binary_length read_binary_length_byte
  read_binary_length-Safe =
      Safe-at_byte 1 d _ v
        λ h b s. search (Safe-cond, Safe-refused {0} 1 d v, word8, word16, guarded_be32-Safe d v)

  pub read_binary-Safe : Safe (Part d.bytes) 1 d (read_binary d)
  unfolding read_binary
  read_binary-Safe = Safe-bind read_payload payload-Safe read_binary_length-Safe

  pub read_array_header-Safe : Safe (Below (2 ^ 32)) 1 d (read_array_header d)
  unfolding read_array_header read_array_header_byte
  read_array_header-Safe = Safe-at_byte 1 d _ v λ h b s. search (
    Safe-cond,
    Safe-refused {0} 1 d v,
    masked b 0x0f s (omega arith) h,
    word16,
    guarded_be32-Safe d v,
  )

  pub read_map_header-Safe : Safe (Below (2 ^ 32)) 1 d (read_map_header d)
  unfolding read_map_header read_map_header_byte
  read_map_header-Safe = Safe-at_byte 1 d _ v λ h b s. search (
    Safe-cond,
    Safe-refused {0} 1 d v,
    masked b 0x0f s (omega arith) h,
    word16,
    guarded_be32-Safe d v,
  )
