-- ===== src/Msgpack/Cursor.antt =====
-- A decoder (include/kcenon/container/container/msgpack.h) that stands behind the bytes `pre` and
-- before the bytes `xs`, and what its primitive steps do there.
use container_system.Base.{
  ℕ, suc, ◌+◌, ◌%◌, ◌≤◌, ◌<◌, ◌^◌, ◌≡◌, sym, ap, ap₂, false, ◌∙◌, Option, some, [], ◌∷◌, ◌++◌,
  append_assoc, length, length-append, get_elem?, get_elem?-append, drop-append, take-append, Bytes,
  ltb-false, leb-true, leb-false, bit_or, bit_or-eq-add, arith,
}
use container_system.Msgpack.Encoder.{byte_of}
use container_system.Msgpack.Decoder.{
  MsgpackDecoder, Read, ret, load, advance, short, loaded, at_byte, guarded, shl, read_byte,
  read_be16, read_be32, read_be64,
}
use container_system.Msgpack.Safety.Words.{join32, join64}
use container_system.Msgpack.Payloads.{read_payload}

-- A decoder over `bs` at the offset `n`.
abbrev pub over : Bytes → ℕ → MsgpackDecoder
over bs n = record { bytes = bs; size = length bs; offset = n }

abbrev pub at : Bytes → Bytes → MsgpackDecoder
at pre xs = over (pre ++ xs) (length pre)

-- The data are smaller than 2 ^ 63 bytes.
abbrev pub Fits : Bytes → Bytes → Type 0
Fits pre xs = length pre + length xs < 2 ^ 63

pub load-at :
    (k : ℕ) (pre xs : Bytes) → Fits pre xs → k < length xs → load k (at pre xs) ≡ get_elem? xs k
load-at k pre xs f h =
    ap (get_elem? (pre ++ xs))
      (let e : (length pre + k) % 2 ^ 64 ≡ length pre + k = omega arith in e)
    ∙ get_elem?-append pre xs k

pub advance-at :
    (pre ys xs : Bytes)
    → Fits pre (ys ++ xs)
    → advance (length ys) (at pre (ys ++ xs)) ≡ at (pre ++ ys) xs
advance-at pre ys xs f =
    ap₂ over (sym (append_assoc pre ys xs))
      (omega (arith, length-append pre ys, length-append ys xs))

-- A value that is read at `length ys` bytes leaves the cursor behind them.
pub loaded-at {ℓ} :
    {A : Type ℓ} (pre ys xs : Bytes) (a : A) {o : Option A}
    → Fits pre (ys ++ xs)
    → o ≡ some a
    → loaded (length ys) o (at pre (ys ++ xs)) ≡ ret (some a) (at (pre ++ ys) xs)
loaded-at pre ys xs a f e = rw e (ap (ret (some a)) (advance-at pre ys xs f))

pub at_byte-at {ℓ} :
    {A : Type ℓ} (pre : Bytes) (b : ℕ) (xs : Bytes) (f : ℕ → Read A)
    → Fits pre (b ∷ xs)
    → at_byte (at pre (b ∷ xs)) f ≡ f b
at_byte-at pre b xs f h = rw (
  leb-false (length (pre ++ (b ∷ xs))) (length pre) (omega (arith, length-append pre (b ∷ xs))),
  load-at 0 pre (b ∷ xs) h (omega arith),
)

pub short-at : (n : ℕ) (pre xs : Bytes) → Fits pre xs → n ≤ length xs → short n (at pre xs) ≡ false
short-at n pre xs f h =
    ltb-false (length (pre ++ xs)) ((length pre + n) % 2 ^ 64) (omega (arith, length-append pre xs))

pub guarded-at {ℓ} :
    {A : Type ℓ} (n : ℕ) (pre : Bytes) (b : ℕ) (xs : Bytes) (k : MsgpackDecoder → Read A)
    → Fits pre (b ∷ xs)
    → n ≤ suc (length xs)
    → guarded n k (at pre (b ∷ xs)) ≡ k (at (pre ++ (b ∷ [])) xs)
guarded-at n pre b xs k f h = rw (short-at n pre (b ∷ xs) f h) (ap k (advance-at pre (b ∷ []) xs f))

pub read_byte-at :
    (pre : Bytes) (b : ℕ) (xs : Bytes)
    → Fits pre (b ∷ xs)
    → read_byte (at pre (b ∷ xs)) ≡ ret (some b) (at (pre ++ (b ∷ [])) xs)
unfolding read_byte
read_byte-at pre b xs f = loaded-at pre (b ∷ []) xs b f (load-at 0 pre (b ∷ xs) f (omega arith))

-- The words in network order.
abbrev pub be16_bytes : ℕ → Bytes
be16_bytes v = byte_of v 8 ∷ byte_of v 0 ∷ []

abbrev pub be32_bytes : ℕ → Bytes
be32_bytes v = byte_of v 24 ∷ byte_of v 16 ∷ byte_of v 8 ∷ byte_of v 0 ∷ []

abbrev pub be64_bytes : ℕ → Bytes
be64_bytes v =
    byte_of v 56
    ∷ byte_of v 48
    ∷ byte_of v 40
    ∷ byte_of v 32
    ∷ byte_of v 24
    ∷ byte_of v 16
    ∷ byte_of v 8
    ∷ byte_of v 0
    ∷ []

-- The bytes of a word, put together again.
join16-bytes : (v : ℕ) → v < 2 ^ 16 → bit_or (shl 32 (byte_of v 8) 8) (byte_of v 0) % 2 ^ 16 ≡ v
join16-bytes v h =
    omega
      (arith, bit_or-eq-add 8 (shl 32 (byte_of v 8) 8) (byte_of v 0) (omega arith) (omega arith))

join32-bytes :
    (v : ℕ) → v < 2 ^ 32 → join32 (byte_of v 24) (byte_of v 16) (byte_of v 8) (byte_of v 0) ≡ v
join32-bytes v h =
    let a = shl 32 (byte_of v 24) 24 in
    let b = shl 32 (byte_of v 16) 16 in
    let c = shl 32 (byte_of v 8) 8 in
    rw
      (
        bit_or-eq-add 24 a b (omega arith) (omega arith),
        bit_or-eq-add 16 (a + b) c (omega arith) (omega arith),
        bit_or-eq-add 8 (a + b + c) (byte_of v 0) (omega arith) (omega arith),
      )
      (omega arith)

join64-bytes :
    (v : ℕ)
    → v < 2 ^ 64
    → join64
        (byte_of v 56)
        (byte_of v 48)
        (byte_of v 40)
        (byte_of v 32)
        (byte_of v 24)
        (byte_of v 16)
        (byte_of v 8)
        (byte_of v 0)
      ≡ v
join64-bytes v h =
    let a = shl 64 (byte_of v 56) 56 in
    let b = shl 64 (byte_of v 48) 48 in
    let c = shl 64 (byte_of v 40) 40 in
    let d = shl 64 (byte_of v 32) 32 in
    let e = shl 64 (byte_of v 24) 24 in
    let f = shl 64 (byte_of v 16) 16 in
    let g = shl 64 (byte_of v 8) 8 in
    rw
      (
        bit_or-eq-add 56 a b (omega arith) (omega arith),
        bit_or-eq-add 48 (a + b) c (omega arith) (omega arith),
        bit_or-eq-add 40 (a + b + c) d (omega arith) (omega arith),
        bit_or-eq-add 32 (a + b + c + d) e (omega arith) (omega arith),
        bit_or-eq-add 24 (a + b + c + d + e) f (omega arith) (omega arith),
        bit_or-eq-add 16 (a + b + c + d + e + f) g (omega arith) (omega arith),
        bit_or-eq-add 8 (a + b + c + d + e + f + g) (byte_of v 0) (omega arith) (omega arith),
      )
      (omega arith)

pub read_be16-at :
    (pre : Bytes) (v : ℕ) (xs : Bytes)
    → v < 2 ^ 16
    → Fits pre (be16_bytes v ++ xs)
    → read_be16 (at pre (be16_bytes v ++ xs)) ≡ ret (some v) (at (pre ++ be16_bytes v) xs)
unfolding read_be16
read_be16-at pre v xs h f =
    let bs : Bytes = be16_bytes v ++ xs in
    loaded-at pre (be16_bytes v) xs v f (
      rw (load-at 0 pre bs f (omega arith), load-at 1 pre bs f (omega arith))
        (ap some (join16-bytes v h)))

pub read_be32-at :
    (pre : Bytes) (v : ℕ) (xs : Bytes)
    → v < 2 ^ 32
    → Fits pre (be32_bytes v ++ xs)
    → read_be32 (at pre (be32_bytes v ++ xs)) ≡ ret (some v) (at (pre ++ be32_bytes v) xs)
unfolding read_be32
read_be32-at pre v xs h f =
    let bs : Bytes = be32_bytes v ++ xs in
    loaded-at pre (be32_bytes v) xs v f (
      rw
        (
          load-at 0 pre bs f (omega arith),
          load-at 1 pre bs f (omega arith),
          load-at 2 pre bs f (omega arith),
          load-at 3 pre bs f (omega arith),
        )
        (ap some (join32-bytes v h)))

pub read_be64-at :
    (pre : Bytes) (v : ℕ) (xs : Bytes)
    → v < 2 ^ 64
    → Fits pre (be64_bytes v ++ xs)
    → read_be64 (at pre (be64_bytes v ++ xs)) ≡ ret (some v) (at (pre ++ be64_bytes v) xs)
unfolding read_be64
read_be64-at pre v xs h f =
    let bs : Bytes = be64_bytes v ++ xs in
    loaded-at pre (be64_bytes v) xs v f (
      rw
        (
          load-at 0 pre bs f (omega arith),
          load-at 1 pre bs f (omega arith),
          load-at 2 pre bs f (omega arith),
          load-at 3 pre bs f (omega arith),
          load-at 4 pre bs f (omega arith),
          load-at 5 pre bs f (omega arith),
          load-at 6 pre bs f (omega arith),
          load-at 7 pre bs f (omega arith),
        )
        (ap some (join64-bytes v h)))

-- The payload of a string or of binary data.
pub read_payload-at :
    (pre s xs : Bytes)
    → Fits pre (s ++ xs)
    → read_payload (length s) (at pre (s ++ xs)) ≡ ret (some s) (at (pre ++ s) xs)
unfolding read_payload
read_payload-at pre s xs f =
    rw (short-at (length s) pre (s ++ xs) f (omega (arith, length-append s xs))) (
      loaded-at pre s xs s f (
        rw (
          leb-true (length pre + length s) (length (pre ++ (s ++ xs)))
              (omega (arith, length-append pre (s ++ xs), length-append s xs)),
          drop-append pre (s ++ xs),
          take-append s xs,
        )))
