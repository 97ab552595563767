-- ===== src/Msgpack/Safety/Words.antt =====
-- read_be16, read_be32 and read_be64 of class msgpack_decoder
-- (include/kcenon/container/container/msgpack.h) inside the data.
use container_system.Base.{
  ℕ, ◌+◌, ◌≤◌, ◌<◌, ◌^◌, ◌≡◌, refl, Option, some, ◌>>=◌, arith, bit_or-lt, bit_or,
}
use container_system.Msgpack.Decoder.{
  MsgpackDecoder, shl, read_byte, read_be16, read_be32, read_be64, guarded,
}
use container_system.Msgpack.Safety.{IsByte, IsValid, Safe, Safe-loaded, Safe-guarded, load-within}

bind-some {ℓ κ} :
    {A : Type ℓ} {B : Type κ} {o : Option A} {a : A} (f : A → Option B) {b : B}
    → o ≡ some a
    → f a ≡ some b
    → (o >>= f) ≡ some b
bind-some f p q = rw p q

abbrev pub Below : ℕ → ℕ → Type 0
Below m n = n < m

abbrev pub Any {ℓ} : {A : Type ℓ} → A → Type 0
Any a = Unit

abbrev pub join32 : ℕ → ℕ → ℕ → ℕ → ℕ
join32 b0 b1 b2 b3 = bit_or (bit_or (bit_or (shl 32 b0 24) (shl 32 b1 16)) (shl 32 b2 8)) b3

abbrev pub join64 : ℕ → ℕ → ℕ → ℕ → ℕ → ℕ → ℕ → ℕ → ℕ
join64 b0 b1 b2 b3 b4 b5 b6 b7 =
    let high =
      bit_or (bit_or (bit_or (shl 64 b0 56) (shl 64 b1 48)) (shl 64 b2 40)) (shl 64 b3 32) in
    bit_or (bit_or (bit_or (bit_or high (shl 64 b4 24)) (shl 64 b5 16)) (shl 64 b6 8)) b7

join64-lt : (b0 b1 b2 b3 b4 b5 b6 b7 : ℕ) → IsByte b7 → join64 b0 b1 b2 b3 b4 b5 b6 b7 < 2 ^ 64
join64-lt b0 b1 b2 b3 b4 b5 b6 b7 h =
    or _ _ (or _ _ (or _ _ (or _ _ high (low b4 24)) (low b5 16)) (low b6 8)) (omega arith)
  where
    or : (a b : ℕ) → a < 2 ^ 64 → b < 2 ^ 64 → bit_or a b < 2 ^ 64
    or a b = bit_or-lt 64 a b

    low : (b k : ℕ) → shl 64 b k < 2 ^ 64
    low b k = omega arith

    high :
        bit_or (bit_or (bit_or (shl 64 b0 56) (shl 64 b1 48)) (shl 64 b2 40)) (shl 64 b3 32)
        < 2 ^ 64
    high = or _ _ (or _ _ (or _ _ (low b0 56) (low b1 48)) (low b2 40)) (low b3 32)

join32-lt : (b0 b1 b2 b3 : ℕ) → IsByte b3 → join32 b0 b1 b2 b3 < 2 ^ 32
join32-lt b0 b1 b2 b3 h =
    bit_or-lt 32 _ _ (bit_or-lt 32 _ _ (bit_or-lt 32 _ _ (omega arith) (omega arith)) (omega arith))
      (omega arith)

module _ (d : MsgpackDecoder) (v : IsValid d) where
  pub byte-Safe : d.offset + 1 ≤ d.size → Safe (Below (2 ^ 8)) 1 d (read_byte d)
  unfolding read_byte
  byte-Safe h = let (b, p, small) = load-within 0 d v (omega arith) in Safe-loaded 1 d b small v h p

  pub be16-Safe : d.offset + 2 ≤ d.size → Safe (Below (2 ^ 16)) 2 d (read_be16 d)
  unfolding read_be16
  be16-Safe h =
      let (b0, p0, s0) = load-within 0 d v (omega arith) in
      let (b1, p1, s1) = load-within 1 d v (omega arith) in
      Safe-loaded 2 d _ (omega arith) v h (bind-some _ p0 (bind-some _ p1 refl))

  pub be32-Safe : d.offset + 4 ≤ d.size → Safe (Below (2 ^ 32)) 4 d (read_be32 d)
  unfolding read_be32
  be32-Safe h =
      let (b0, p0, s0) = load-within 0 d v (omega arith) in
      let (b1, p1, s1) = load-within 1 d v (omega arith) in
      let (b2, p2, s2) = load-within 2 d v (omega arith) in
      let (b3, p3, s3) = load-within 3 d v (omega arith) in
      Safe-loaded 4 d (join32 b0 b1 b2 b3) (join32-lt b0 b1 b2 b3 s3) v h
        (bind-some _ p0 (bind-some _ p1 (bind-some _ p2 (bind-some _ p3 refl))))

  pub be64-Safe : d.offset + 8 ≤ d.size → Safe (Below (2 ^ 64)) 8 d (read_be64 d)
  unfolding read_be64
  be64-Safe h =
      let (b0, p0, s0) = load-within 0 d v (omega arith) in
      let (b1, p1, s1) = load-within 1 d v (omega arith) in
      let (b2, p2, s2) = load-within 2 d v (omega arith) in
      let (b3, p3, s3) = load-within 3 d v (omega arith) in
      let (b4, p4, s4) = load-within 4 d v (omega arith) in
      let (b5, p5, s5) = load-within 5 d v (omega arith) in
      let (b6, p6, s6) = load-within 6 d v (omega arith) in
      let (b7, p7, s7) = load-within 7 d v (omega arith) in
      Safe-loaded 8 d (join64 b0 b1 b2 b3 b4 b5 b6 b7) (join64-lt b0 b1 b2 b3 b4 b5 b6 b7 s7) v h (
        bind-some _ p0 (
          bind-some _ p1 (
            bind-some _ p2 (
              bind-some _ p3
                (bind-some _ p4 (bind-some _ p5 (bind-some _ p6 (bind-some _ p7 refl))))))))

-- The reads behind a guard for the format byte and the word.
module _ (d : MsgpackDecoder) (v : IsValid d) where
  pub guarded_byte-Safe : Safe (Below (2 ^ 8)) 1 d (guarded 2 read_byte d)
  guarded_byte-Safe = Safe-guarded 1 d read_byte (omega arith) v byte-Safe

  pub guarded_be16-Safe : Safe (Below (2 ^ 16)) 1 d (guarded 3 read_be16 d)
  guarded_be16-Safe = Safe-guarded 2 d read_be16 (omega arith) v be16-Safe

  pub guarded_be32-Safe : Safe (Below (2 ^ 32)) 1 d (guarded 5 read_be32 d)
  guarded_be32-Safe = Safe-guarded 4 d read_be32 (omega arith) v be32-Safe

  pub guarded_be64-Safe : Safe (Below (2 ^ 64)) 1 d (guarded 9 read_be64 d)
  guarded_be64-Safe = Safe-guarded 8 d read_be64 (omega arith) v be64-Safe
