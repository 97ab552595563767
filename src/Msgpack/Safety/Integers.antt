-- ===== src/Msgpack/Safety/Integers.antt =====
-- `read_int` of class msgpack_decoder (include/kcenon/container/container/msgpack.h) on any bytes.
use container_system.Base.{ℕ, ◌-◌, ◌<◌, ◌^◌, refl, ltb, arith}
use container_system.Base.Int.{ℤ, pos, to_signed}
use container_system.Msgpack.Decoder.{
  MsgpackDecoder, map_read, bind_read, read_byte, read_be16, read_be32, read_be64, guarded,
}
use container_system.Msgpack.Numbers.{in_int64, read_int_body, read_int, read_int_byte}
use container_system.Msgpack.Safety.{
  IsValid, Safe, given, Safe-cond, Safe-refused, Safe-bind, Safe-map, Safe-advance, Safe-if,
  Safe-at_byte, Safe-guarded,
}
use container_system.Msgpack.Safety.Words.{byte-Safe, be16-Safe, be32-Safe, be64-Safe}
use container_system.Msgpack.Safety.Readers.{IsInt64}

-- A word behind its guard, cast by `f` to an `int64_t`.
module _ (d : MsgpackDecoder) (v : IsValid d) (f : ℕ → ℤ) where
  cast8 :
      ((a : ℕ) → a < 2 ^ 8 → IsInt64 (f a))
      → Safe IsInt64 1 d (guarded 2 (λ e. map_read f (read_byte e)) d)
  cast8 c = Safe-guarded 1 d _ (omega arith) v λ d' v' h. Safe-map f c (byte-Safe d' v' h)

  cast16 :
      ((a : ℕ) → a < 2 ^ 16 → IsInt64 (f a))
      → Safe IsInt64 1 d (guarded 3 (λ e. map_read f (read_be16 e)) d)
  cast16 c = Safe-guarded 2 d _ (omega arith) v λ d' v' h. Safe-map f c (be16-Safe d' v' h)

  cast32 :
      ((a : ℕ) → a < 2 ^ 32 → IsInt64 (f a))
      → Safe IsInt64 1 d (guarded 5 (λ e. map_read f (read_be32 e)) d)
  cast32 c = Safe-guarded 4 d _ (omega arith) v λ d' v' h. Safe-map f c (be32-Safe d' v' h)

  cast64 :
      ((a : ℕ) → a < 2 ^ 64 → IsInt64 (f a))
      → Safe IsInt64 1 d (guarded 9 (λ e. map_read f (read_be64 e)) d)
  cast64 c = Safe-guarded 8 d _ (omega arith) v λ d' v' h. Safe-map f c (be64-Safe d' v' h)

in_int64-Safe :
    (a : ℕ) (d : MsgpackDecoder) → a < 2 ^ 64 → IsValid d → Safe IsInt64 0 d (in_int64 a d)
in_int64-Safe a d s v =
    Safe-if (ltb (2 ^ 63 - 1) a) (λ _. Safe-refused 0 d v)
      λ e. given (to_signed (2 ^ 64) a) d (ground arith) v refl (omega arith)

module _ (d : MsgpackDecoder) (v : IsValid d) where
  unsigned64 : Safe IsInt64 1 d (guarded 9 (λ e. bind_read (read_be64 e) in_int64) d)
  unsigned64 =
      Safe-guarded 8 d _ (omega arith) v
        λ d' v' h. Safe-bind in_int64 (λ a e p w _ _. in_int64-Safe a e p w) (be64-Safe d' v' h)

  read_int_body-Safe : (b : ℕ) → Safe IsInt64 1 d (read_int_body b d)
  unfolding read_int_body
  read_int_body-Safe b =
      search
        (
          Safe-cond,
          Safe-refused {0} 1 d v,
          unsigned64,
          cast8 d v (to_signed (2 ^ 8)) (λ a h. ground arith),
          cast16 d v (to_signed (2 ^ 16)) (λ a h. ground arith),
          cast32 d v (to_signed (2 ^ 32)) (λ a h. ground arith),
          cast64 d v (to_signed (2 ^ 64)) (λ a h. ground arith),
          cast8 d v pos (λ a h. omega arith),
          cast16 d v pos (λ a h. omega arith),
          cast32 d v pos (λ a h. omega arith),
        )
        depth 10

  pub read_int-Safe : Safe IsInt64 1 d (read_int d)
  unfolding read_int read_int_byte
  read_int-Safe = Safe-at_byte 1 d _ v λ h b s.
      let fixint = Safe-advance {0} {P = IsInt64} 1 d (pos b) (omega arith) v h in
      let negative = Safe-advance {0} {P = IsInt64} 1 d (to_signed (2 ^ 8) b) (ground arith) v h in
      search (Safe-cond, fixint, negative, read_int_body-Safe b)
