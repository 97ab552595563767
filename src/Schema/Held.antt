-- ===== src/Schema/Held.antt =====
-- What the checks of class container_schema (core/container_schema.cpp) take out of a value is what it holds.
use container_system.Base.{ℕ, ◌^◌, ◌≡◌, refl, ap, some, arith}
use container_system.Base.Int.{to_signed}
use container_system.Value.{
  array_value, monostate, null_value, bool_value, short_value, ushort_value, int_value, uint_value,
  long_value, ulong_value, llong_value, ullong_value, float_value, double_value, string_value,
  bytes_value, container_value, short, ushort, int, uint, long, ulong, llong, ullong, float, double,
  string, bytes, container, OptimizedValue, optimized_value, index,
}
use container_system.Base.{Bytes}
use container_system.Value.{Units, no_units, unit, ValueContainer, value_container}
use container_system.Container.{get, units_of}
use container_system.Container.Storage.{find_unit}
use container_system.Schema.{Library}
use container_system.Schema.Validate.{int64_of, double_of, length_of, string_of, container_of}
use container_system.Schema.Conforms.{
  first_named, as_signed, integer, size, text, real, held, held_container,
}

find_unit-first_named : (key : Bytes) (us : Units) → find_unit key us ≡ first_named key us
unfolding find_unit first_named
find_unit-first_named key no_units = refl
find_unit-first_named key (unit (optimized_value n t d) us) =
    ground (arith, find_unit-first_named key us)

pub get-first_named : (key : Bytes) (c : ValueContainer) → get key c ≡ first_named key (units_of c)
unfolding get
get-first_named key (value_container h s us) = find_unit-first_named key us

to_signed-as_signed : (x : ℕ) → to_signed (2 ^ 64) x ≡ as_signed x
to_signed-as_signed x = ground arith

pub int64_of-held : (v : OptimizedValue) → int64_of v ≡ held integer v
unfolding int64_of index
int64_of-held (optimized_value n short_value (short x)) = refl
int64_of-held (optimized_value n ushort_value (ushort x)) = refl
int64_of-held (optimized_value n int_value (int x)) = refl
int64_of-held (optimized_value n uint_value (uint x)) = refl
int64_of-held (optimized_value n long_value (long x)) = refl
int64_of-held (optimized_value n llong_value (llong x)) = refl
int64_of-held (optimized_value n ulong_value (ulong x)) = ap some (to_signed-as_signed x)
int64_of-held (optimized_value n ullong_value (ullong x)) = ap some (to_signed-as_signed x)
int64_of-held (optimized_value n null_value monostate) = refl
int64_of-held (optimized_value n bool_value monostate) = refl
int64_of-held (optimized_value n float_value monostate) = refl
int64_of-held (optimized_value n double_value monostate) = refl
int64_of-held (optimized_value n string_value monostate) = refl
int64_of-held (optimized_value n bytes_value monostate) = refl
int64_of-held (optimized_value n container_value monostate) = refl
int64_of-held (optimized_value n array_value monostate) = refl
int64_of-held (optimized_value n t d) = refl

pub length_of-held : (v : OptimizedValue) → length_of v ≡ held size v
unfolding length_of index
length_of-held (optimized_value n string_value (string s)) = refl
length_of-held (optimized_value n bytes_value (bytes s)) = refl
length_of-held (optimized_value n null_value monostate) = refl
length_of-held (optimized_value n bool_value monostate) = refl
length_of-held (optimized_value n short_value monostate) = refl
length_of-held (optimized_value n ushort_value monostate) = refl
length_of-held (optimized_value n int_value monostate) = refl
length_of-held (optimized_value n uint_value monostate) = refl
length_of-held (optimized_value n long_value monostate) = refl
length_of-held (optimized_value n ulong_value monostate) = refl
length_of-held (optimized_value n llong_value monostate) = refl
length_of-held (optimized_value n ullong_value monostate) = refl
length_of-held (optimized_value n float_value monostate) = refl
length_of-held (optimized_value n double_value monostate) = refl
length_of-held (optimized_value n container_value monostate) = refl
length_of-held (optimized_value n array_value monostate) = refl
length_of-held (optimized_value n t d) = refl

pub string_of-held : (v : OptimizedValue) → string_of v ≡ held text v
unfolding string_of index
string_of-held (optimized_value n string_value (string s)) = refl
string_of-held (optimized_value n null_value monostate) = refl
string_of-held (optimized_value n bool_value monostate) = refl
string_of-held (optimized_value n short_value monostate) = refl
string_of-held (optimized_value n ushort_value monostate) = refl
string_of-held (optimized_value n int_value monostate) = refl
string_of-held (optimized_value n uint_value monostate) = refl
string_of-held (optimized_value n long_value monostate) = refl
string_of-held (optimized_value n ulong_value monostate) = refl
string_of-held (optimized_value n llong_value monostate) = refl
string_of-held (optimized_value n ullong_value monostate) = refl
string_of-held (optimized_value n float_value monostate) = refl
string_of-held (optimized_value n double_value monostate) = refl
string_of-held (optimized_value n bytes_value monostate) = refl
string_of-held (optimized_value n container_value monostate) = refl
string_of-held (optimized_value n array_value monostate) = refl
string_of-held (optimized_value n t d) = refl

pub container_of-held : (v : OptimizedValue) → container_of v ≡ held_container v
unfolding container_of
container_of-held (optimized_value n container_value (container c)) = refl
container_of-held (optimized_value n t d) = refl

pub double_of-held :
    {R : Type 0} (L : Library R) (v : OptimizedValue) → double_of L v ≡ held (real L) v
unfolding double_of index
double_of-held L (optimized_value n float_value (float x)) = refl
double_of-held L (optimized_value n double_value (double x)) = refl
double_of-held L (optimized_value n null_value monostate) = refl
double_of-held L (optimized_value n bool_value monostate) = refl
double_of-held L (optimized_value n short_value monostate) = refl
double_of-held L (optimized_value n ushort_value monostate) = refl
double_of-held L (optimized_value n int_value monostate) = refl
double_of-held L (optimized_value n uint_value monostate) = refl
double_of-held L (optimized_value n long_value monostate) = refl
double_of-held L (optimized_value n ulong_value monostate) = refl
double_of-held L (optimized_value n llong_value monostate) = refl
double_of-held L (optimized_value n ullong_value monostate) = refl
double_of-held L (optimized_value n string_value monostate) = refl
double_of-held L (optimized_value n bytes_value monostate) = refl
double_of-held L (optimized_value n container_value monostate) = refl
double_of-held L (optimized_value n array_value monostate) = refl
double_of-held L (optimized_value n t d) = refl
