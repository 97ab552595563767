-- ===== src/Msgpack/Safety/Readers.antt =====
-- The readers of nil, booleans, unsigned integers and floats of class msgpack_decoder
-- (include/kcenon/container/container/msgpack.h) on any bytes.
use container_system.Base.{ℕ, ◌+◌, ◌≤◌, ◌<◌, ◌^◌, Bool, some, arith}
use container_system.Base.Int.{ℤ, InSigned}
use container_system.Msgpack.Decoder.{
  MsgpackDecoder, ret, advance, read_byte, read_be16, read_be32, read_nil, read_bool, guarded,
}
use container_system.Msgpack.Numbers.{read_uint, read_uint_byte, read_float, read_double}
use container_system.Msgpack.Safety.{
  IsValid, Safe, Safe-cond, Safe-refused, Safe-map, Safe-weaken, Safe-advance, Safe-at_byte,
}
use container_system.Msgpack.Safety.Words.{
  Below, Any, guarded_byte-Safe, guarded_be16-Safe, guarded_be32-Safe, guarded_be64-Safe,
}

-- The range of `int64_t`.
abbrev pub IsInt64 : ℤ → Type 0
IsInt64 = InSigned (2 ^ 64)

module _ (d : MsgpackDecoder) (v : IsValid d) where
  pub read_nil-Safe : Safe Any 1 d (read_nil d)
  unfolding read_nil
  read_nil-Safe =
      Safe-at_byte 1 d _ v λ h b s.
        search (Safe-cond, Safe-refused {0} 1 d v, Safe-advance {0} {P = Any} 1 d tt tt v h)

  pub read_bool-Safe : Safe Any 1 d (read_bool d)
  unfolding read_bool
  read_bool-Safe = Safe-at_byte 1 d _ v λ h b s.
      search
        (Safe-cond, Safe-refused {0} 1 d v, λ (x : Bool). Safe-advance {0} {P = Any} 1 d x tt v h)

  pub read_uint-Safe : Safe (Below (2 ^ 64)) 1 d (read_uint d)
  unfolding read_uint read_uint_byte
  read_uint-Safe = Safe-at_byte 1 d _ v λ h b s.
      search
        (
          Safe-cond,
          Safe-refused {0} 1 d v,
          fixint h b s,
          word8,
          word16,
          word32,
          guarded_be64-Safe d v,
        )
        depth 9
    where
      fixint :
          d.offset + 1 ≤ d.size
          → (b : ℕ) → b < 256
          → Safe (Below (2 ^ 64)) 1 d (ret (some b) (advance 1 d))
      fixint h b s = Safe-advance 1 d b (omega arith) v h

      word8 : Safe (Below (2 ^ 64)) 1 d (guarded 2 read_byte d)
      word8 = Safe-weaken (λ a p. omega arith) (guarded_byte-Safe d v)

      word16 : Safe (Below (2 ^ 64)) 1 d (guarded 3 read_be16 d)
      word16 = Safe-weaken (λ a p. omega arith) (guarded_be16-Safe d v)

      word32 : Safe (Below (2 ^ 64)) 1 d (guarded 5 read_be32 d)
      word32 = Safe-weaken (λ a p. omega arith) (guarded_be32-Safe d v)

  pub read_float-Safe : Safe (Below (2 ^ 32)) 1 d (read_float d)
  unfolding read_float
  read_float-Safe =
      Safe-at_byte 1 d _ v
        λ h b s. search (Safe-cond, Safe-refused {0} 1 d v, guarded_be32-Safe d v)

  pub read_double-Safe :
      (Q : ℕ → Type 0) (widen : ℕ → ℕ)
      → ((n : ℕ) → n < 2 ^ 32 → Q (widen n))
      → ((n : ℕ) → n < 2 ^ 64 → Q n)
      → Safe Q 1 d (read_double widen d)
  unfolding read_double
  read_double-Safe Q widen w i = Safe-at_byte 1 d _ v λ h b s. search (
    Safe-cond,
    Safe-refused {0} 1 d v,
    Safe-weaken i (guarded_be64-Safe d v),
    Safe-map {Q = Q} widen w read_float-Safe,
  )
