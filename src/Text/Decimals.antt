-- ===== src/Text/Decimals.antt =====
-- The integers that std::to_string prints are read back by std::stoi and the other readers.
use container_system.Base.{
  ℕ, zero, suc, ◌+◌, ◌*◌, ◌/◌, ◌%◌, ◌^◌, ◌≤◌, ◌<◌, ◌≡◌, refl, ap, ◌∙◌, true, false, some, [], ◌∷◌,
  Bytes, ltb, inl, inr, arith, Bool-cases, leb-true, ltb-true,
}
use container_system.Base.Int.{ℤ, pos, negsuc, InSigned}
use container_system.Text.{is_space, span_space}
use container_system.Text.Numbers.{
  digits, print_nat, print_int, is_digit, read_digits, read_number, read_signed, read_unsigned,
}

-- A text of one digit and more, all of whose bytes are digits.
abbrev pub IsDigits : Bytes → Type 0
IsDigits [] = Unit
IsDigits (c ∷ s) = (is_digit c ≡ true) × IsDigits s

abbrev pub IsNumeral : Bytes → Type 0
IsNumeral [] = ⊥
IsNumeral (c ∷ s) = (is_digit c ≡ true) × IsDigits s

digits-IsNumeral :
    (fuel n : ℕ) (c : ℕ) (out : Bytes) → IsNumeral (c ∷ out) → IsNumeral (digits fuel n (c ∷ out))
unfolding digits
digits-IsNumeral zero n c out h = h
digits-IsNumeral (suc fuel) n c out h = elim (Bool-cases (ltb n 10)) [
  | inl e ↦ rw e ((ground (arith, e)), h)
  | inr e ↦ rw e (digits-IsNumeral fuel (n / 10) (b'0' + n % 10) (c ∷ out) ((ground arith), h))
]

read_last :
    (d : ℕ) (out : Bytes) (m n : ℕ)
    → d < 10
    → m * 10 + d ≡ n
    → read_digits ((b'0' + d) ∷ out) m ≡ read_digits out n
unfolding read_digits
read_last d out m n h e =
    rw (leb-true 48 (48 + d) (omega arith), leb-true (48 + d) 57 (omega arith))
      (ap (read_digits out) (omega arith))

read_digits-digits :
    (fuel n : ℕ) (out : Bytes)
    → n < 10 ^ fuel
    → read_digits (digits fuel n out) 0 ≡ read_digits out n
unfolding digits
read_digits-digits zero n out h = ap (read_digits out) (omega arith)
read_digits-digits (suc fuel) n out h = elim (Bool-cases (ltb n 10)) [
  | inl e ↦ rw e (read_last n out 0 n (ground (arith, e)) (omega arith))
  | inr e ↦ rw e (
      read_digits-digits fuel (n / 10) ((b'0' + n % 10) ∷ out) (omega arith)
      ∙ read_last (n % 10) out (n / 10) n (omega arith) (omega arith))
]

pub print_nat-IsNumeral : (n : ℕ) → IsNumeral (print_nat n)
unfolding digits print_nat
print_nat-IsNumeral n = elim (Bool-cases (ltb n 10)) [
  | inl e ↦ rw e ((ground (arith, e)), tt)
  | inr e ↦ rw e (digits-IsNumeral 19 (n / 10) (b'0' + n % 10) [] ((ground arith), tt))
]

-- A numeral is read without a sign, a space or a rest.
read_number-numeral : (s : Bytes) → IsNumeral s → read_number s ≡ some (false, read_digits s 0)
unfolding read_number span_space is_space
read_number-numeral [] h = elim h [ ]
read_number-numeral (c ∷ s) h = ground (arith, h.0)

read_number-minus :
    (s : Bytes) → IsNumeral s → read_number (b'-' ∷ s) ≡ some (true, read_digits s 0)
unfolding read_number span_space is_space
read_number-minus [] h = elim h [ ]
read_number-minus (c ∷ s) h = ground (arith, h.0)

print_nat-read : (n : ℕ) → n < 2 ^ 64 → read_digits (print_nat n) 0 ≡ n
unfolding print_nat read_digits
print_nat-read n h = read_digits-digits 20 n [] (omega arith)

pub read_unsigned-print_nat : (n : ℕ) → n < 2 ^ 64 → read_unsigned (print_nat n) ≡ some n
unfolding read_unsigned
read_unsigned-print_nat n h =
    rw (read_number-numeral (print_nat n) (print_nat-IsNumeral n))
      (rw (print_nat-read n h) (rw (ltb-true n (2 ^ 64) h) refl))

-- A type of at most 64 bits.
pub read_signed-print_int :
    (m : ℕ) (z : ℤ) → m ≤ 2 ^ 64 → InSigned m z → read_signed m (print_int z) ≡ some z
unfolding read_signed print_int
read_signed-print_int m (pos n) w h =
    rw (read_number-numeral (print_nat n) (print_nat-IsNumeral n))
      (rw (print_nat-read n (omega arith)) (rw (ltb-true n (m / 2) h) refl))
read_signed-print_int m (negsuc n) w h =
    rw (read_number-minus (print_nat (suc n)) (print_nat-IsNumeral (suc n)))
      (rw (print_nat-read (suc n) (omega arith)) (rw (ltb-true n (m / 2) h) refl))
