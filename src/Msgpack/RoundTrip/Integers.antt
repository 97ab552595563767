-- ===== src/Msgpack/RoundTrip/Integers.antt =====
-- `read_int` of class msgpack_decoder on the bytes of `write_int` and `write_uint`
-- (include/kcenon/container/container/msgpack.h).
use container_system.Base.{
  ℕ, ◌-◌, ◌≤◌, ◌<◌, ◌^◌, ◌%◌, ◌≡◌, ap, ◌∙◌, some, none, [], ◌∷◌, ◌++◌, Bytes, leb, leb-true,
  leb-false, ltb-true, ltb-false, arith,
}
use container_system.Base.Int.{ℤ, pos, negsuc, to_signed, to_unsigned, InSigned}
use container_system.Msgpack.Format
use container_system.Msgpack.Decoder.{ret, map_read, bind_read}
use container_system.Msgpack.Numbers.{in_int64, read_int_body, read_int_byte, read_int}
use container_system.Msgpack.Encodings.{uint_bytes, int_bytes}
use container_system.Msgpack.Cursor.{
  at, Fits, at_byte-at, advance-at, be16_bytes, be32_bytes, be64_bytes,
}
use container_system.Msgpack.RoundTrip.{
  Reads, Reads-if, byte-behind, be16-behind, be32-behind, be64-behind,
}

read_int-at :
    (b : ℕ) (pre xs : Bytes)
    → Fits pre (b ∷ xs)
    → read_int (at pre (b ∷ xs)) ≡ read_int_byte b (at pre (b ∷ xs))
unfolding read_int
read_int-at b pre xs f = at_byte-at pre b xs (λ byte. read_int_byte byte (at pre (b ∷ xs))) f

positive_fixint : (n : ℕ) → n ≤ 0x7f → Reads read_int (pos n) (n ∷ [])
unfolding read_int_byte
positive_fixint n h pre xs f =
    read_int-at n pre xs f
    ∙ rw (leb-true n 0x7f h) (ap (ret (some (pos n))) (advance-at pre (n ∷ []) xs f))

negative_fixint : (b : ℕ) → 0xe0 ≤ b → Reads read_int (to_signed (2 ^ 8) b) (b ∷ [])
unfolding read_int_byte
negative_fixint b h pre xs f =
    read_int-at b pre xs f
    ∙ rw (leb-false b 0x7f (omega arith), leb-true 0xe0 b h)
        (ap (ret (some (to_signed (2 ^ 8) b))) (advance-at pre (b ∷ []) xs f))

-- The format bytes of one byte, two, four and eight.
module _ (w : ℕ) where
  int8_bytes : Reads read_int (to_signed (2 ^ 8) w) (Format.int8 ∷ w ∷ [])
  unfolding read_int_byte read_int_body
  int8_bytes pre xs f =
      read_int-at Format.int8 pre (w ∷ xs) f
      ∙ byte-behind (map_read (to_signed (2 ^ 8))) Format.int8 w pre xs f

  int16_bytes : w < 2 ^ 16 → Reads read_int (to_signed (2 ^ 16) w) (Format.int16 ∷ be16_bytes w)
  unfolding read_int_byte read_int_body
  int16_bytes h pre xs f =
      read_int-at Format.int16 pre (be16_bytes w ++ xs) f
      ∙ be16-behind (map_read (to_signed (2 ^ 16))) Format.int16 w pre xs h f

  int32_bytes : w < 2 ^ 32 → Reads read_int (to_signed (2 ^ 32) w) (Format.int32 ∷ be32_bytes w)
  unfolding read_int_byte read_int_body
  int32_bytes h pre xs f =
      read_int-at Format.int32 pre (be32_bytes w ++ xs) f
      ∙ be32-behind (map_read (to_signed (2 ^ 32))) Format.int32 w pre xs h f

  int64_bytes : w < 2 ^ 64 → Reads read_int (to_signed (2 ^ 64) w) (Format.int64 ∷ be64_bytes w)
  unfolding read_int_byte read_int_body
  int64_bytes h pre xs f =
      read_int-at Format.int64 pre (be64_bytes w ++ xs) f
      ∙ be64-behind (map_read (to_signed (2 ^ 64))) Format.int64 w pre xs h f

  uint8_bytes : Reads read_int (pos w) (Format.uint8 ∷ w ∷ [])
  unfolding read_int_byte read_int_body
  uint8_bytes pre xs f =
      read_int-at Format.uint8 pre (w ∷ xs) f ∙ byte-behind (map_read pos) Format.uint8 w pre xs f

  uint16_bytes : w < 2 ^ 16 → Reads read_int (pos w) (Format.uint16 ∷ be16_bytes w)
  unfolding read_int_byte read_int_body
  uint16_bytes h pre xs f =
      read_int-at Format.uint16 pre (be16_bytes w ++ xs) f
      ∙ be16-behind (map_read pos) Format.uint16 w pre xs h f

  uint32_bytes : w < 2 ^ 32 → Reads read_int (pos w) (Format.uint32 ∷ be32_bytes w)
  unfolding read_int_byte read_int_body
  uint32_bytes h pre xs f =
      read_int-at Format.uint32 pre (be32_bytes w ++ xs) f
      ∙ be32-behind (map_read pos) Format.uint32 w pre xs h f

  -- The check of `read_int` behind UINT64.
  uint64_checked :
      (pre xs : Bytes)
      → w < 2 ^ 64
      → Fits pre (Format.uint64 ∷ be64_bytes w ++ xs)
      → read_int (at pre (Format.uint64 ∷ be64_bytes w ++ xs))
        ≡ in_int64 w (at (pre ++ (Format.uint64 ∷ be64_bytes w)) xs)
  unfolding read_int_byte read_int_body
  uint64_checked pre xs h f =
      read_int-at Format.uint64 pre (be64_bytes w ++ xs) f
      ∙ be64-behind (λ r. bind_read r in_int64) Format.uint64 w pre xs h f

uint64_fits : (w : ℕ) → w < 2 ^ 63 → Reads read_int (pos w) (Format.uint64 ∷ be64_bytes w)
uint64_fits w h pre xs f =
    uint64_checked w pre xs (omega arith) f
    ∙ rw (ltb-false (2 ^ 63 - 1) w (omega arith), ltb-true w (2 ^ 63) h)

pub read_int-uint_bytes : (n : ℕ) → n < 2 ^ 63 → Reads read_int (pos n) (uint_bytes n)
read_int-uint_bytes n h =
    Reads-if read_int (pos n) (leb n 0x7f) _ _
      (λ p. rw (let e : n % 2 ^ 8 ≡ n = ground arith in e) (positive_fixint n (ground arith)))
      λ _.
        Reads-if read_int (pos n) (leb n 0xff) _ _
          (λ p. rw (let e : n % 2 ^ 8 ≡ n = ground arith in e) (uint8_bytes n))
          λ _.
            Reads-if read_int (pos n) (leb n 0xffff) _ _
              (λ p. rw (let e : n % 2 ^ 16 ≡ n = ground arith in e) (uint16_bytes n (ground arith)))
              λ _.
                Reads-if read_int (pos n) (leb n 0xffff_ffff) _ _
                  (λ p.
                    rw (let e : n % 2 ^ 32 ≡ n = ground arith in e) (uint32_bytes n (ground arith)))
                  λ _. uint64_fits n h

-- The cast to a word and back.
pub signed-unsigned8 :
    (n : ℕ) → n < 2 ^ 7 → to_signed (2 ^ 8) (to_unsigned (2 ^ 8) (negsuc n)) ≡ negsuc n
signed-unsigned8 n h = ground arith

signed-unsigned16 :
    (n : ℕ) → n < 2 ^ 15 → to_signed (2 ^ 16) (to_unsigned (2 ^ 16) (negsuc n)) ≡ negsuc n
signed-unsigned16 n h = ground arith

signed-unsigned32 :
    (n : ℕ) → n < 2 ^ 31 → to_signed (2 ^ 32) (to_unsigned (2 ^ 32) (negsuc n)) ≡ negsuc n
signed-unsigned32 n h = ground arith

signed-unsigned64 :
    (n : ℕ) → n < 2 ^ 63 → to_signed (2 ^ 64) (to_unsigned (2 ^ 64) (negsuc n)) ≡ negsuc n
signed-unsigned64 n h = ground arith

pub read_int-bytes : (v : ℤ) → InSigned (2 ^ 64) v → Reads read_int v (int_bytes v)
read_int-bytes (pos n) h = rw (let e : n % 2 ^ 64 ≡ n = omega arith in e) (read_int-uint_bytes n h)
read_int-bytes (negsuc n) h =
    Reads-if read_int (negsuc n) (leb n 31) _ _
      (λ p.
        let small : n ≤ 31 = ground arith in
        rw (signed-unsigned8 n (omega arith)) at
          (negative_fixint (to_unsigned (2 ^ 8) (negsuc n)) (omega arith)))
      λ _.
        Reads-if read_int (negsuc n) (leb n 0x7f) _ _
          (λ p.
            let small : n ≤ 0x7f = ground arith in
            rw (signed-unsigned8 n (omega arith)) at (int8_bytes (to_unsigned (2 ^ 8) (negsuc n))))
          λ _.
            Reads-if read_int (negsuc n) (leb n 0x7fff) _ _
              (λ p.
                let small : n ≤ 0x7fff = ground arith in
                rw (signed-unsigned16 n (omega arith)) at
                  (int16_bytes (to_unsigned (2 ^ 16) (negsuc n)) (omega arith)))
              λ _.
                Reads-if read_int (negsuc n) (leb n 0x7fff_ffff) _ _
                  (λ p.
                    let small : n ≤ 0x7fff_ffff = ground arith in
                    rw (signed-unsigned32 n (omega arith)) at
                      (int32_bytes (to_unsigned (2 ^ 32) (negsuc n)) (omega arith)))
                  λ _.
                    rw (signed-unsigned64 n h) at
                      (int64_bytes (to_unsigned (2 ^ 64) (negsuc n)) (omega arith))

-- A number from 2 ^ 63 on is refused, and the cursor is left behind it.
pub read_int-overflow :
    (n : ℕ) (pre xs : Bytes)
    → 2 ^ 63 ≤ n
    → n < 2 ^ 64
    → Fits pre (uint_bytes n ++ xs)
    → read_int (at pre (uint_bytes n ++ xs)) ≡ ret none (at (pre ++ uint_bytes n) xs)
read_int-overflow n pre xs lo hi =
    rw
      (
        leb-false n 0x7f (omega arith),
        leb-false n 0xff (omega arith),
        leb-false n 0xffff (omega arith),
        leb-false n 0xffff_ffff (omega arith),
      )
      (λ f. uint64_checked n pre xs hi f ∙ rw (ltb-true (2 ^ 63 - 1) n (omega arith)))
