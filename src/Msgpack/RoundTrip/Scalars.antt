-- ===== src/Msgpack/RoundTrip/Scalars.antt =====
-- The readers of class msgpack_decoder for nil, booleans and floats on the bytes of their writers
-- (include/kcenon/container/container/msgpack.h).
use container_system.Base.{
  ℕ, ◌<◌, ◌^◌, ap, ◌∙◌, Bool, true, false, some, [], ◌∷◌, ◌++◌, if◌then◌else◌,
}
use container_system.Msgpack.Format
use container_system.Msgpack.Decoder.{ret, read_nil, read_bool}
use container_system.Msgpack.Numbers.{read_float, read_double}
use container_system.Msgpack.Cursor.{at_byte-at, advance-at, be32_bytes, be64_bytes}
use container_system.Msgpack.RoundTrip.{Reads, be32-behind, be64-behind}

pub read_nil-bytes : Reads read_nil tt (Format.nil_byte ∷ [])
unfolding read_nil
read_nil-bytes pre xs f =
    at_byte-at pre Format.nil_byte xs _ f
    ∙ ap (ret (some tt)) (advance-at pre (Format.nil_byte ∷ []) xs f)

read_bool-true : Reads read_bool true (Format.true_byte ∷ [])
unfolding read_bool
read_bool-true pre xs f =
    at_byte-at pre Format.true_byte xs _ f
    ∙ ap (ret (some true)) (advance-at pre (Format.true_byte ∷ []) xs f)

read_bool-false : Reads read_bool false (Format.false_byte ∷ [])
unfolding read_bool
read_bool-false pre xs f =
    at_byte-at pre Format.false_byte xs _ f
    ∙ ap (ret (some false)) (advance-at pre (Format.false_byte ∷ []) xs f)

pub read_bool-bytes :
    (b : Bool) → Reads read_bool b ((if b then Format.true_byte else Format.false_byte) ∷ [])
read_bool-bytes true = read_bool-true
read_bool-bytes false = read_bool-false

pub read_float-bytes : (v : ℕ) → v < 2 ^ 32 → Reads read_float v (Format.float32 ∷ be32_bytes v)
unfolding read_float
read_float-bytes v h pre xs f =
    at_byte-at pre Format.float32 (be32_bytes v ++ xs) _ f
    ∙ be32-behind (λ r. r) Format.float32 v pre xs h f

pub read_double-bytes :
    (widen : ℕ → ℕ) (v : ℕ)
    → v < 2 ^ 64
    → Reads (read_double widen) v (Format.float64 ∷ be64_bytes v)
unfolding read_double
read_double-bytes widen v h pre xs f =
    at_byte-at pre Format.float64 (be64_bytes v ++ xs) _ f
    ∙ be64-behind (λ r. r) Format.float64 v pre xs h f
