-- ===== src/Serializer/Scalars.antt =====
-- Single values: value_container::from_msgpack_impl (core/container.cpp) on the bytes of
-- core/serializers/msgpack_serializer.cpp.
use container_system.Base.{
  ℕ, ◌≤◌, ◌<◌, ◌^◌, ◌≡◌, refl, ap, Bool, true, false, [], ◌∷◌, Bytes, ltb, if◌then◌else◌, arith,
}
use mathlib.Core.Path.{subst}
use container_system.Base.Int.{ℤ, pos, negsuc, InSigned}
use container_system.Value.{
  ValueTypes, null_value, bool_value, int_value, llong_value, float_value, double_value,
  string_value, ValueVariant, monostate, bool, short, int, long, llong, ushort, uint, ulong, ullong,
  float, double, string, bytes, container, array, null_container, null_array, optimized_value,
  Units, no_units, unit,
}
use container_system.Msgpack.Format
use container_system.Msgpack.Format.{
  MsgpackType, nil_type, boolean, positive_int, negative_int, float32_type, float64_type, str,
  unknown,
}
use container_system.Msgpack.Decoder.{classify, read_bool}
use container_system.Msgpack.Numbers.{read_int, read_float, read_double}
use container_system.Msgpack.Payloads.{read_string}
use container_system.Msgpack.Encodings.{int_bytes, uint_bytes}
use container_system.Msgpack.RoundTrip.Integers.{read_int-bytes, read_int-uint_bytes}
use container_system.Msgpack.RoundTrip.Scalars.{
  read_nil-bytes, read_bool-bytes, read_float-bytes, read_double-bytes,
}
use container_system.Msgpack.RoundTrip.Payloads.{read_string-bytes}
use container_system.Msgpack.Peek.{
  Peeks, peek-first, sign_type, peek-int_bytes, peek-uint_bytes, peek-string_bytes,
}
use container_system.Serializer.Read.{Outcome, int_type, int_variant, ignore_nil, read_value}
use container_system.Serializer.Runs.{Decodes, Decodes-or_reject}
use container_system.Serializer.Wire.{data_bytes, IsScalar}

-- An integer of 32 bits is an int, and any other one a long long.
abbrev pub sized_type : ℤ → ValueTypes
sized_type (pos n) = if ltb n (2 ^ 31) then int_value else llong_value
sized_type (negsuc n) = if ltb n (2 ^ 31) then int_value else llong_value

abbrev pub sized_variant : ℤ → ValueVariant
sized_variant (pos n) = if ltb n (2 ^ 31) then int (pos n) else llong (pos n)
sized_variant (negsuc n) = if ltb n (2 ^ 31) then int (negsuc n) else llong (negsuc n)

int_type-sized_type : (n : ℤ) → int_type n ≡ sized_type n
unfolding int_type
int_type-sized_type (pos n) = ground arith
int_type-sized_type (negsuc n) = ground arith

int_variant-sized_variant : (n : ℤ) → int_variant (sized_type n) n ≡ sized_variant n
int_variant-sized_variant (pos n) = ground arith
int_variant-sized_variant (negsuc n) = ground arith

-- The type and the data that a value has after it was read: an integer has the type for its size.
abbrev pub read_type : ValueVariant → ValueTypes
read_type monostate = null_value
read_type (bool b) = bool_value
read_type (float f) = float_value
read_type (double f) = double_value
read_type (string s) = string_value
read_type (short n) = sized_type n
read_type (int n) = sized_type n
read_type (long n) = sized_type n
read_type (llong n) = sized_type n
read_type (ushort n) = sized_type (pos n)
read_type (uint n) = sized_type (pos n)
read_type (ulong n) = sized_type (pos n)
read_type (ullong n) = sized_type (pos n)
read_type _ = null_value

abbrev pub read_data : ValueVariant → ValueVariant
read_data (short n) = sized_variant n
read_data (int n) = sized_variant n
read_data (long n) = sized_variant n
read_data (llong n) = sized_variant n
read_data (ushort n) = sized_variant (pos n)
read_data (uint n) = sized_variant (pos n)
read_data (ulong n) = sized_variant (pos n)
read_data (ullong n) = sized_variant (pos n)
read_data d = d

abbrev pub read_units : Units → Units
read_units no_units = no_units
read_units (unit (optimized_value name type d) us) =
    unit (optimized_value name (read_type d) (read_data d)) (read_units us)

abbrev pub announced : ValueVariant → MsgpackType
announced monostate = nil_type
announced (bool b) = boolean
announced (short n) = sign_type n
announced (int n) = sign_type n
announced (long n) = sign_type n
announced (llong n) = sign_type n
announced (ushort n) = positive_int
announced (uint n) = positive_int
announced (ulong n) = positive_int
announced (ullong n) = positive_int
announced (float f) = float32_type
announced (double f) = float64_type
announced (string s) = str
announced _ = unknown

peek-bool : (b : Bool) → Peeks boolean ((if b then Format.true_byte else Format.false_byte) ∷ [])
unfolding classify
peek-bool true = peek-first boolean Format.true_byte [] refl
peek-bool false = peek-first boolean Format.false_byte [] refl

pub peek-data_bytes : (d : ValueVariant) → IsScalar d → Peeks (announced d) (data_bytes d)
unfolding classify
peek-data_bytes monostate h = peek-first nil_type Format.nil_byte [] refl
peek-data_bytes (bool b) h = peek-bool b
peek-data_bytes (short n) h = peek-int_bytes n
peek-data_bytes (int n) h = peek-int_bytes n
peek-data_bytes (long n) h = peek-int_bytes n
peek-data_bytes (llong n) h = peek-int_bytes n
peek-data_bytes (ushort n) h = peek-uint_bytes n
peek-data_bytes (uint n) h = peek-uint_bytes n
peek-data_bytes (ulong n) h = peek-uint_bytes n
peek-data_bytes (ullong n) h = peek-uint_bytes n
peek-data_bytes (float f) h = peek-first float32_type Format.float32 _ refl
peek-data_bytes (double f) h = peek-first float64_type Format.float64 _ refl
peek-data_bytes (string s) h = peek-string_bytes s
peek-data_bytes (bytes b) h = cc
peek-data_bytes (container c) h = cc
peek-data_bytes (array ds) h = cc
peek-data_bytes null_container h = cc
peek-data_bytes null_array h = cc

widen_signed : (m : ℕ) (n : ℤ) → m ≤ 2 ^ 64 → InSigned m n → InSigned (2 ^ 64) n
widen_signed m (pos n) h i = omega arith
widen_signed m (negsuc n) h i = omega arith

module _ (widen : ℕ → ℕ) (nested : Bytes → Outcome) where
  sized :
      (type : MsgpackType) (n : ℤ) (bs : Bytes)
      → Decodes (read_value widen nested type) (int_type n) (int_variant (int_type n) n) bs
      → Decodes (read_value widen nested type) (sized_type n) (sized_variant n) bs
  sized type n bs =
      subst
        (λ d.
          Decodes (read_value widen nested type) (int_type n) (int_variant (int_type n) n) bs
          → Decodes (read_value widen nested type) (sized_type n) d bs)
        (int_variant-sized_variant n)
        (subst (λ t. Decodes (read_value widen nested type) t (int_variant t n) bs)
          (int_type-sized_type n))

  read_value-int :
      (n : ℤ)
      → InSigned (2 ^ 64) n
      → Decodes
          (read_value widen nested (sign_type n))
          (sized_type n)
          (sized_variant n)
          (int_bytes n)
  unfolding read_value
  read_value-int (pos n) h = sized positive_int (pos n) _ (
      Decodes-or_reject read_int (pos n) int_type (λ n. int_variant (int_type n) n) _
        (read_int-bytes (pos n) h))
  read_value-int (negsuc n) h = sized negative_int (negsuc n) _ (
      Decodes-or_reject read_int (negsuc n) int_type (λ n. int_variant (int_type n) n) _
        (read_int-bytes (negsuc n) h))

  read_value-uint :
      (n : ℕ)
      → n < 2 ^ 63
      → Decodes
          (read_value widen nested positive_int)
          (sized_type (pos n))
          (sized_variant (pos n))
          (uint_bytes n)
  unfolding read_value
  read_value-uint n h = sized positive_int (pos n) _ (
      Decodes-or_reject read_int (pos n) int_type (λ n. int_variant (int_type n) n) _
        (read_int-uint_bytes n h))

  pub read_value-data_bytes :
      (d : ValueVariant)
      → IsScalar d
      → Decodes (read_value widen nested (announced d)) (read_type d) (read_data d) (data_bytes d)
  unfolding read_value
  read_value-data_bytes monostate h = λ pre xs f. ap ignore_nil (read_nil-bytes pre xs f)
  read_value-data_bytes (bool b) h =
      Decodes-or_reject read_bool b (λ _. bool_value) bool _ (read_bool-bytes b)
  read_value-data_bytes (short n) h = read_value-int n (widen_signed (2 ^ 16) n (omega arith) h)
  read_value-data_bytes (int n) h = read_value-int n (widen_signed (2 ^ 32) n (omega arith) h)
  read_value-data_bytes (long n) h = read_value-int n h
  read_value-data_bytes (llong n) h = read_value-int n h
  read_value-data_bytes (ushort n) h = read_value-uint n (omega arith)
  read_value-data_bytes (uint n) h = read_value-uint n (omega arith)
  read_value-data_bytes (ulong n) h = read_value-uint n h
  read_value-data_bytes (ullong n) h = read_value-uint n h
  read_value-data_bytes (float f) h =
      Decodes-or_reject read_float f (λ _. float_value) float _ (read_float-bytes f h)
  read_value-data_bytes (double f) h =
      Decodes-or_reject (read_double widen) f (λ _. double_value) double _
        (read_double-bytes widen f h)
  read_value-data_bytes (string s) h =
      Decodes-or_reject read_string s (λ _. string_value) string _ (read_string-bytes s h)
  read_value-data_bytes (bytes b) h = cc
  read_value-data_bytes (container c) h = cc
  read_value-data_bytes (array ds) h = cc
  read_value-data_bytes null_container h = cc
  read_value-data_bytes null_array h = cc
