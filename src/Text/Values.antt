-- ===== src/Text/Values.antt =====
-- The text of one value, and what is read of it.
use container_system.Base.{
  ℕ, suc, ◌^◌, ◌≤◌, ◌<◌, ◌≡◌, refl, ap, ◌∙◌, true, false, some, [], ◌∷◌, Bytes, codes, ◌==◌, ◌===◌,
  arith,
}
use container_system.Base.Int.{ℤ, pos, negsuc, InSigned, to_signed, to_unsigned}
use container_system.Value.{
  ValueTypes, ValueVariant, monostate, bool, short, ushort, int, uint, long, ulong, llong, ullong,
  float, double, string, bytes, container, null_container, array, null_array, index,
}
use container_system.Text.{is_space, is_line_end, span_space}
use container_system.Text.Lines.{IsPlain}
use container_system.Text.Numbers.{print_nat, print_int, is_digit, read_signed, read_unsigned}
use container_system.Text.Decimals.{
  IsDigits, IsNumeral, print_nat-IsNumeral, read_unsigned-print_nat, read_signed-print_int,
}
use container_system.Text.Write.{FloatText, to_string}
use container_system.Text.Read.{parsed, parse_data, or_raise}
use container_system.Text.Nested.{refuse}
use container_system.Text.Spaces.{whitespace, without_front, span_space-without_front}

-- Data within the range of its C++ type; no float; a string without a semicolon or a line end.
abbrev pub IsTextData : ValueVariant → Type 0
IsTextData (short x) = InSigned (2 ^ 16) x
IsTextData (ushort x) = x < 2 ^ 16
IsTextData (int x) = InSigned (2 ^ 32) x
IsTextData (uint x) = x < 2 ^ 32
IsTextData (long x) = InSigned (2 ^ 64) x
IsTextData (ulong x) = x < 2 ^ 64
IsTextData (llong x) = InSigned (2 ^ 64) x
IsTextData (ullong x) = x < 2 ^ 64
IsTextData (float x) = ⊥
IsTextData (double x) = ⊥
IsTextData (string s) = IsPlain s
IsTextData d = Unit

-- What comes back: a string without the white space in front, bytes empty, and null for a container or an
-- array.
abbrev pub read_back : ValueVariant → ValueVariant
read_back (string s) = string (without_front whitespace s)
read_back (bytes bs) = bytes []
read_back (container c) = monostate
read_back null_container = monostate
read_back (array items) = monostate
read_back null_array = monostate
read_back d = d

-- What the writer prints and the reader makes of it.
pub record ReadsBack (lib : FloatText) (t : ValueTypes) (d : ValueVariant) : Type 0 where
  pub text : Bytes
  pub prints : to_string lib t d ≡ some text
  pub plain : IsPlain text
  pub reads : parse_data lib refuse t (span_space text).1 ≡ parsed (read_back d)

digit-plain :
    (c : ℕ)
    → is_digit c ≡ true
    → ((c == b';') ≡ false) × (is_line_end c ≡ false) × (is_space c ≡ false)
unfolding is_line_end is_space
digit-plain c h = ((ground (arith, h)), (ground (arith, h)), (ground (arith, h)))

IsDigits-IsPlain : (s : Bytes) → IsDigits s → IsPlain s
IsDigits-IsPlain [] h = tt
IsDigits-IsPlain (c ∷ s) h =
    let p : ((c == b';') ≡ false) × (is_line_end c ≡ false) × (is_space c ≡ false) =
      digit-plain c h.0 in
    (p.0, p.1, IsDigits-IsPlain s h.1)

IsNumeral-IsPlain : (s : Bytes) → IsNumeral s → IsPlain s
IsNumeral-IsPlain [] h = tt
IsNumeral-IsPlain (c ∷ s) h = IsDigits-IsPlain (c ∷ s) h

IsNumeral-span : (s : Bytes) → IsNumeral s → (span_space s).1 ≡ s
unfolding span_space
IsNumeral-span [] h = refl
IsNumeral-span (c ∷ s) h = rw ((digit-plain c h.0).2) refl

print_int-IsPlain : (z : ℤ) → IsPlain (print_int z)
unfolding print_int is_line_end
print_int-IsPlain (pos n) = IsNumeral-IsPlain (print_nat n) (print_nat-IsNumeral n)
print_int-IsPlain (negsuc n) =
    (refl, refl, IsNumeral-IsPlain (print_nat (suc n)) (print_nat-IsNumeral (suc n)))

print_int-span : (z : ℤ) → (span_space (print_int z)).1 ≡ print_int z
unfolding print_int span_space is_space
print_int-span (pos n) = IsNumeral-span (print_nat n) (print_nat-IsNumeral n)
print_int-span (negsuc n) = refl

short-int : (z : ℤ) → InSigned (2 ^ 16) z → InSigned (2 ^ 32) z
short-int (pos n) h = omega arith
short-int (negsuc n) h = omega arith

short-cast : (z : ℤ) → InSigned (2 ^ 16) z → to_signed (2 ^ 16) (to_unsigned (2 ^ 16) z) ≡ z
short-cast (pos n) h = ground arith
short-cast (negsuc n) h = ground arith

-- The signed types.
signed_back :
    (lib : FloatText) (t : ValueTypes) (d : ValueVariant) (m : ℕ) (z : ℤ) (reader : Bytes)
    (k : ℤ → ValueVariant)
    → to_string lib t d ≡ some (print_int z)
    → ((s : Bytes) → parse_data lib refuse t s ≡ or_raise lib reader (read_signed m s) k)
    → m ≤ 2 ^ 64
    → InSigned m z
    → k z ≡ read_back d
    → ReadsBack lib t d
signed_back lib t d m z reader k e f w h g = record {
  text = print_int z;
  prints = e;
  plain = print_int-IsPlain z;
  reads = rw (print_int-span z) (f (print_int z) ∙ rw (read_signed-print_int m z w h) (rw g refl));
}

-- The unsigned types.
unsigned_back :
    (lib : FloatText) (t : ValueTypes) (d : ValueVariant) (n : ℕ) (reader : Bytes)
    (k : ℕ → ValueVariant)
    → to_string lib t d ≡ some (print_nat n)
    → ((s : Bytes) → parse_data lib refuse t s ≡ or_raise lib reader (read_unsigned s) k)
    → n < 2 ^ 64
    → k n ≡ read_back d
    → ReadsBack lib t d
unsigned_back lib t d n reader k e f h g = record {
  text = print_nat n;
  prints = e;
  plain = IsNumeral-IsPlain (print_nat n) (print_nat-IsNumeral n);
  reads =
      rw (IsNumeral-span (print_nat n) (print_nat-IsNumeral n))
        (f (print_nat n) ∙ rw (read_unsigned-print_nat n h) (rw g refl));
}

-- Nothing is printed.
empty_back :
    (lib : FloatText) (t : ValueTypes) (d : ValueVariant)
    → to_string lib t d ≡ some []
    → parse_data lib refuse t [] ≡ parsed (read_back d)
    → ReadsBack lib t d
unfolding span_space
empty_back lib t d e f = record { text = []; prints = e; plain = tt; reads = f }

pub to_string-ReadsBack :
    (lib : FloatText) (d : ValueVariant) → IsTextData d → ReadsBack lib (index d) d
unfolding to_string parse_data index span_space is_space is_line_end ◌===◌
to_string-ReadsBack lib monostate h = empty_back lib _ _ refl refl
to_string-ReadsBack lib (bool true) h = record {
  text = codes "true";
  prints = refl;
  plain = (refl, refl, (refl, refl, (refl, refl, (refl, refl, tt))));
  reads = refl;
}
to_string-ReadsBack lib (bool false) h = record {
  text = codes "false";
  prints = refl;
  plain = (refl, refl, (refl, refl, (refl, refl, (refl, refl, (refl, refl, tt)))));
  reads = refl;
}
to_string-ReadsBack lib (short z) h =
    signed_back lib _ _ (2 ^ 32) z (codes "stoi") _ refl (λ s. refl) (omega arith) (short-int z h)
      (ap short (short-cast z h))
to_string-ReadsBack lib (ushort n) h =
    unsigned_back lib _ _ n (codes "stoul") _ refl (λ s. refl) (omega arith)
      (ap ushort (omega arith))
to_string-ReadsBack lib (int z) h =
    signed_back lib _ _ (2 ^ 32) z (codes "stoi") int refl (λ s. refl) (omega arith) h refl
to_string-ReadsBack lib (uint n) h =
    unsigned_back lib _ _ n (codes "stoul") _ refl (λ s. refl) (omega arith) (ap uint (omega arith))
to_string-ReadsBack lib (long z) h =
    signed_back lib _ _ (2 ^ 64) z (codes "stol") long refl (λ s. refl) (omega arith) h refl
to_string-ReadsBack lib (ulong n) h =
    unsigned_back lib _ _ n (codes "stoul") ulong refl (λ s. refl) h refl
to_string-ReadsBack lib (llong z) h =
    signed_back lib _ _ (2 ^ 64) z (codes "stoll") llong refl (λ s. refl) (omega arith) h refl
to_string-ReadsBack lib (ullong n) h =
    unsigned_back lib _ _ n (codes "stoull") ullong refl (λ s. refl) h refl
to_string-ReadsBack lib (float x) h = absurd h
to_string-ReadsBack lib (double x) h = absurd h
to_string-ReadsBack lib (string s) h = record {
  text = s;
  prints = refl;
  plain = h;
  reads = ap (λ r. parsed (string r)) (span_space-without_front s);
}
to_string-ReadsBack lib (bytes bs) h = empty_back lib _ _ refl refl
to_string-ReadsBack lib (container c) h = empty_back lib _ _ refl refl
to_string-ReadsBack lib null_container h = empty_back lib _ _ refl refl
to_string-ReadsBack lib (array items) h = empty_back lib _ _ refl refl
to_string-ReadsBack lib null_array h = empty_back lib _ _ refl refl
