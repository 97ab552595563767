-- ===== src/Msgpack/RoundTrip.antt =====
-- The readers of class msgpack_decoder on the byte strings of the writers of class msgpack_encoder
-- (include/kcenon/container/container/msgpack.h).
pub mod Integers
pub mod Payloads
pub mod Scalars
use container_system.Base.{
  ℕ, suc, ◌+◌, ◌-◌, ◌≤◌, ◌<◌, ◌^◌, ◌%◌, ◌≡◌, refl, ap, ◌∙◌, Bool, true, false, some, [], ◌∷◌, ◌++◌,
  append_assoc, length, length-append, Bytes, leb, leb-true, if◌then◌else◌, arith,
}
use container_system.Base.Int.{ℤ, pos, negsuc, to_signed, to_unsigned, InSigned}
use container_system.Msgpack.Format
use container_system.Msgpack.Decoder.{
  MsgpackDecoder, Read, ret, map_read, bind_read, guarded, read_byte, read_be16, read_be32,
  read_be64,
}
use container_system.Msgpack.Numbers.{
  in_int64, read_int_body, read_int_byte, read_int, read_uint_byte, read_uint,
}
use container_system.Msgpack.Encodings.{uint_bytes, int_bytes}
use container_system.Msgpack.Cursor.{
  at, Fits, at_byte-at, guarded-at, advance-at, read_byte-at, be16_bytes, be32_bytes, be64_bytes,
  read_be16-at, read_be32-at, read_be64-at,
}

-- Wherever the cursor stands before `bs`, the reader gives `a` and goes on behind `bs`.
abbrev pub Reads {ℓ} : {A : Type ℓ} → (MsgpackDecoder → Read A) → A → Bytes → Type ℓ
Reads read a bs =
    (pre xs : Bytes)
    → Fits pre (bs ++ xs)
    → read (at pre (bs ++ xs)) ≡ ret (some a) (at (pre ++ bs) xs)

pub Reads-if {ℓ} :
    {A : Type ℓ} (read : MsgpackDecoder → Read A) (a : A) (b : Bool) (s t : Bytes)
    → (b ≡ true → Reads read a s)
    → (b ≡ false → Reads read a t)
    → Reads read a (if b then s else t)
Reads-if read a true s t p q = p refl
Reads-if read a false s t p q = q refl

-- A format byte and the number behind it, whose reader's result goes through `g`.
module _ {ℓ} {A : Type ℓ} (g : Read ℕ → Read A) (t w : ℕ) (pre xs : Bytes) where
  pub byte-behind :
      Fits pre (t ∷ w ∷ xs)
      → guarded 2 (λ d. g (read_byte d)) (at pre (t ∷ w ∷ xs))
        ≡ g (ret (some w) (at (pre ++ (t ∷ w ∷ [])) xs))
  byte-behind f =
      guarded-at 2 pre t (w ∷ xs) (λ d. g (read_byte d)) f (omega arith)
      ∙ ap g (
          read_byte-at (pre ++ (t ∷ [])) w xs (omega (arith, length-append pre (t ∷ [])))
          ∙ ap (λ p. ret (some w) (at p xs)) (append_assoc pre (t ∷ []) (w ∷ [])))

  pub be16-behind :
      w < 2 ^ 16
      → Fits pre (t ∷ be16_bytes w ++ xs)
      → guarded 3 (λ d. g (read_be16 d)) (at pre (t ∷ be16_bytes w ++ xs))
        ≡ g (ret (some w) (at (pre ++ (t ∷ be16_bytes w)) xs))
  be16-behind h f =
      guarded-at 3 pre t (be16_bytes w ++ xs) (λ d. g (read_be16 d)) f (omega arith)
      ∙ ap g (
          read_be16-at (pre ++ (t ∷ [])) w xs h (omega (arith, length-append pre (t ∷ [])))
          ∙ ap (λ p. ret (some w) (at p xs)) (append_assoc pre (t ∷ []) (be16_bytes w)))

  pub be32-behind :
      w < 2 ^ 32
      → Fits pre (t ∷ be32_bytes w ++ xs)
      → guarded 5 (λ d. g (read_be32 d)) (at pre (t ∷ be32_bytes w ++ xs))
        ≡ g (ret (some w) (at (pre ++ (t ∷ be32_bytes w)) xs))
  be32-behind h f =
      guarded-at 5 pre t (be32_bytes w ++ xs) (λ d. g (read_be32 d)) f (omega arith)
      ∙ ap g (
          read_be32-at (pre ++ (t ∷ [])) w xs h (omega (arith, length-append pre (t ∷ [])))
          ∙ ap (λ p. ret (some w) (at p xs)) (append_assoc pre (t ∷ []) (be32_bytes w)))

  pub be64-behind :
      w < 2 ^ 64
      → Fits pre (t ∷ be64_bytes w ++ xs)
      → guarded 9 (λ d. g (read_be64 d)) (at pre (t ∷ be64_bytes w ++ xs))
        ≡ g (ret (some w) (at (pre ++ (t ∷ be64_bytes w)) xs))
  be64-behind h f =
      guarded-at 9 pre t (be64_bytes w ++ xs) (λ d. g (read_be64 d)) f (omega arith)
      ∙ ap g (
          read_be64-at (pre ++ (t ∷ [])) w xs h (omega (arith, length-append pre (t ∷ [])))
          ∙ ap (λ p. ret (some w) (at p xs)) (append_assoc pre (t ∷ []) (be64_bytes w)))

read_uint-at :
    (b : ℕ) (pre xs : Bytes)
    → Fits pre (b ∷ xs)
    → read_uint (at pre (b ∷ xs)) ≡ read_uint_byte b (at pre (b ∷ xs))
unfolding read_uint
read_uint-at b pre xs f = at_byte-at pre b xs (λ byte. read_uint_byte byte (at pre (b ∷ xs))) f

uint_fixint : (v : ℕ) → v ≤ 0x7f → Reads read_uint v (v ∷ [])
unfolding read_uint_byte
uint_fixint v h pre xs f =
    read_uint-at v pre xs f
    ∙ rw (leb-true v 0x7f h) (ap (ret (some v)) (advance-at pre (v ∷ []) xs f))

uint_byte : (v : ℕ) → Reads read_uint v (Format.uint8 ∷ v ∷ [])
unfolding read_uint_byte
uint_byte v pre xs f =
    read_uint-at Format.uint8 pre (v ∷ xs) f ∙ byte-behind (λ r. r) Format.uint8 v pre xs f

uint_be16 : (v : ℕ) → v < 2 ^ 16 → Reads read_uint v (Format.uint16 ∷ be16_bytes v)
unfolding read_uint_byte
uint_be16 v h pre xs f =
    read_uint-at Format.uint16 pre (be16_bytes v ++ xs) f
    ∙ be16-behind (λ r. r) Format.uint16 v pre xs h f

uint_be32 : (v : ℕ) → v < 2 ^ 32 → Reads read_uint v (Format.uint32 ∷ be32_bytes v)
unfolding read_uint_byte
uint_be32 v h pre xs f =
    read_uint-at Format.uint32 pre (be32_bytes v ++ xs) f
    ∙ be32-behind (λ r. r) Format.uint32 v pre xs h f

uint_be64 : (v : ℕ) → v < 2 ^ 64 → Reads read_uint v (Format.uint64 ∷ be64_bytes v)
unfolding read_uint_byte
uint_be64 v h pre xs f =
    read_uint-at Format.uint64 pre (be64_bytes v ++ xs) f
    ∙ be64-behind (λ r. r) Format.uint64 v pre xs h f

-- A word that the cast does not change.
abbrev Same : ℕ → ℕ → Type 0
Same m v = v % m ≡ v

pub read_uint-bytes : (v : ℕ) → v < 2 ^ 64 → Reads read_uint v (uint_bytes v)
read_uint-bytes v h =
    Reads-if read_uint v (leb v 0x7f) _ _
      (λ p. rw (let e : Same (2 ^ 8) v = ground arith in e) (uint_fixint v (ground arith)))
      λ _.
        Reads-if read_uint v (leb v 0xff) _ _
          (λ p. rw (let e : Same (2 ^ 8) v = ground arith in e) (uint_byte v))
          λ _.
            Reads-if read_uint v (leb v 0xffff) _ _
              (λ p. rw (let e : Same (2 ^ 16) v = ground arith in e) (uint_be16 v (ground arith)))
              λ _.
                Reads-if read_uint v (leb v 0xffff_ffff) _ _
                  (λ p.
                    rw (let e : Same (2 ^ 32) v = ground arith in e) (uint_be32 v (ground arith)))
                  λ _. uint_be64 v h
