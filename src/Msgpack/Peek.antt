-- ===== src/Msgpack/Peek.antt =====
-- `peek_type` of class msgpack_decoder on the byte strings of the writers of class msgpack_encoder
-- (include/kcenon/container/container/msgpack.h).
use container_system.Base.{
  ℕ, ◌-◌, append_assoc, ◌≤◌, ◌<◌, ◌^◌, ◌%◌, ◌≡◌, refl, Bool, true, false, some, [], ◌∷◌, ◌++◌,
  length, Bytes, length-append, passes, passes_sound, bit_or, bit_or-lt, leb, leb-true, leb-false,
  if◌then◌else◌, arith,
}
use container_system.Base.Int.{ℤ, pos, negsuc}
use container_system.Msgpack.Format
use container_system.Msgpack.Format.{
  MsgpackType, nil_type, boolean, positive_int, negative_int, float32_type, float64_type, str, bin,
  array, map,
}
use container_system.Msgpack.Decoder.{classify, peek_type}
use container_system.Msgpack.Encodings.{
  uint_bytes, int_bytes, string_header_bytes, string_bytes, binary_header_bytes, binary_bytes,
  array_header_bytes, map_header_bytes,
}
use container_system.Msgpack.Cursor.{at, Fits, load-at}

MsgpackType-discrete : Discrete MsgpackType
MsgpackType-discrete = hlevel

same_type : MsgpackType → MsgpackType → Bool
unfolding MsgpackType-discrete
same_type a b = elim (MsgpackType-discrete a b) [ yes _ ↦ true | no _ ↦ false ]

same_type_sound : (a b : MsgpackType) → same_type a b ≡ true → a ≡ b
unfolding same_type
same_type_sound a b h = ground arith

-- The first byte decides.
pub record Peeks (t : MsgpackType) (bs : Bytes) : Type 0 where
  pub peeked : (pre xs : Bytes) → Fits pre (bs ++ xs) → peek_type (at pre (bs ++ xs)) ≡ some t

pub peek-first : (t : MsgpackType) (b : ℕ) (bs : Bytes) → classify b ≡ t → Peeks t (b ∷ bs)
unfolding peek_type
peek-first t b bs e = record {
  peeked = λ pre xs f. rw (
    leb-false (length (pre ++ (b ∷ bs ++ xs))) (length pre)
        (omega (arith, length-append pre (b ∷ bs ++ xs))),
    load-at 0 pre (b ∷ bs ++ xs) f (omega arith),
    e,
  );
}

Peeks-if :
    (t : MsgpackType) (b : Bool) (s u : Bytes)
    → (b ≡ true → Peeks t s)
    → (b ≡ false → Peeks t u)
    → Peeks t (if b then s else u)
Peeks-if t true s u p q = p refl
Peeks-if t false s u p q = q refl

-- The tables of the bytes that hold a length or a small negative number.
fixstr_class : (n : ℕ) → n < 32 → classify (bit_or 0xa0 n) ≡ str
unfolding passes same_type classify
fixstr_class n h =
    same_type_sound _ str (passes_sound (λ x. same_type (classify (bit_or 0xa0 x)) str) 32 n refl h)

fixarray_class : (n : ℕ) → n < 16 → classify (bit_or 0x90 n) ≡ array
unfolding passes same_type classify
fixarray_class n h =
    same_type_sound _ array
      (passes_sound (λ x. same_type (classify (bit_or 0x90 x)) array) 16 n refl h)

fixmap_class : (n : ℕ) → n < 16 → classify (bit_or 0x80 n) ≡ map
unfolding passes same_type classify
fixmap_class n h =
    same_type_sound _ map (passes_sound (λ x. same_type (classify (bit_or 0x80 x)) map) 16 n refl h)

negative_class : (n : ℕ) → n < 32 → classify (0xff - n) ≡ negative_int
unfolding passes same_type classify
negative_class n h =
    same_type_sound _ negative_int
      (passes_sound (λ x. same_type (classify (0xff - x)) negative_int) 32 n refl h)

fixint_class : (n : ℕ) → n ≤ 0x7f → classify n ≡ positive_int
unfolding classify
fixint_class n h = rw (leb-true n 0x7f h)

pub peek-uint_bytes : (v : ℕ) → Peeks positive_int (uint_bytes v)
unfolding classify
peek-uint_bytes v =
    Peeks-if positive_int (leb v 0x7f) _ _
      (λ p. peek-first _ (v % 2 ^ 8) [] (fixint_class (v % 2 ^ 8) (ground arith)))
      λ _.
        Peeks-if positive_int (leb v 0xff) _ _ (λ _. peek-first _ Format.uint8 _ refl)
          λ _.
            Peeks-if positive_int (leb v 0xffff) _ _ (λ _. peek-first _ Format.uint16 _ refl)
              λ _.
                Peeks-if positive_int (leb v 0xffff_ffff) _ _
                  (λ _. peek-first _ Format.uint32 _ refl) λ _. peek-first _ Format.uint64 _ refl

-- What `peek_type` says of a number that `write_int` wrote.
abbrev pub sign_type : ℤ → MsgpackType
sign_type (pos n) = positive_int
sign_type (negsuc n) = negative_int

pub peek-int_bytes : (v : ℤ) → Peeks (sign_type v) (int_bytes v)
unfolding classify
peek-int_bytes (pos n) = peek-uint_bytes (n % 2 ^ 64)
peek-int_bytes (negsuc n) =
    Peeks-if negative_int (leb n 31) _ _
      (λ p.
        let small : n < 32 = ground arith in
        peek-first negative_int _ [] (
          rw (let e : 2 ^ 8 - 1 - n % 2 ^ 8 ≡ 0xff - n = omega arith in e)
            (negative_class n small)))
      λ _.
        Peeks-if negative_int (leb n 0x7f) _ _ (λ _. peek-first _ Format.int8 _ refl)
          λ _.
            Peeks-if negative_int (leb n 0x7fff) _ _ (λ _. peek-first _ Format.int16 _ refl)
              λ _.
                Peeks-if negative_int (leb n 0x7fff_ffff) _ _
                  (λ _. peek-first _ Format.int32 _ refl) λ _. peek-first _ Format.int64 _ refl

-- A type that is read off the header is read off the header with a payload.
Peeks-payload : (t : MsgpackType) (h s : Bytes) → Peeks t h → Peeks t (h ++ s)
Peeks-payload t h s p = record {
  peeked =
      λ pre xs f. rw (append_assoc h s xs) (p.peeked pre (s ++ xs) (rw (append_assoc h s xs) at f));
}

pub peek-string_bytes : (s : Bytes) → Peeks str (string_bytes s)
unfolding classify
peek-string_bytes s = Peeks-payload str (string_header_bytes (length s)) s (
    Peeks-if str (leb (length s) 0x1f) _ _
      (λ p.
        let small : length s < 32 = ground arith in
        peek-first str _ [] (
          rw
            (let e : bit_or 0xa0 (length s) % 2 ^ 8 ≡ bit_or 0xa0 (length s) =
                omega (arith, bit_or-lt 8 0xa0 (length s) (omega arith) (omega arith)) in
              e)
            (fixstr_class (length s) small)))
      λ _.
        Peeks-if str (leb (length s) 0xff) _ _ (λ _. peek-first _ Format.str8 _ refl)
          λ _.
            Peeks-if str (leb (length s) 0xffff) _ _ (λ _. peek-first _ Format.str16 _ refl)
              λ _. peek-first _ Format.str32 _ refl)

pub peek-binary_bytes : (s : Bytes) → Peeks bin (binary_bytes s)
unfolding classify
peek-binary_bytes s = Peeks-payload bin (binary_header_bytes (length s)) s (
    Peeks-if bin (leb (length s) 0xff) _ _ (λ _. peek-first _ Format.bin8 _ refl)
      λ _.
        Peeks-if bin (leb (length s) 0xffff) _ _ (λ _. peek-first _ Format.bin16 _ refl)
          λ _. peek-first _ Format.bin32 _ refl)

pub peek-array_header_bytes : (n : ℕ) → Peeks array (array_header_bytes n)
unfolding classify
peek-array_header_bytes n =
    Peeks-if array (leb n 0x0f) _ _
      (λ p.
        let small : n < 16 = ground arith in
        peek-first array _ [] (
          rw
            (let e : bit_or 0x90 n % 2 ^ 8 ≡ bit_or 0x90 n =
                omega (arith, bit_or-lt 8 0x90 n (omega arith) (omega arith)) in
              e)
            (fixarray_class n small)))
      λ _.
        Peeks-if array (leb n 0xffff) _ _ (λ _. peek-first _ Format.array16 _ refl)
          λ _. peek-first _ Format.array32 _ refl

pub peek-map_header_bytes : (n : ℕ) → Peeks map (map_header_bytes n)
unfolding classify
peek-map_header_bytes n =
    Peeks-if map (leb n 0x0f) _ _
      (λ p.
        let small : n < 16 = ground arith in
        peek-first map _ [] (
          rw
            (let e : bit_or 0x80 n % 2 ^ 8 ≡ bit_or 0x80 n =
                omega (arith, bit_or-lt 8 0x80 n (omega arith) (omega arith)) in
              e)
            (fixmap_class n small)))
      λ _.
        Peeks-if map (leb n 0xffff) _ _ (λ _. peek-first _ Format.map16 _ refl)
          λ _. peek-first _ Format.map32 _ refl

-- The types that a format byte alone tells.
pub peek_tag : (b : ℕ) (bs : Bytes) → Peeks (classify b) (b ∷ bs)
peek_tag b bs = peek-first (classify b) b bs refl
