-- ===== src/Text/Numbers.antt =====
-- std::to_string and std::stoi, stol, stoll, stoul and stoull of integers in base ten.
use container_system.Base.{
  ℕ, zero, suc, ◌+◌, ◌-◌, ◌*◌, ◌/◌, ◌%◌, ◌^◌, Bool, true, false, Option, none, some, [], ◌∷◌, Bytes,
  ◌==◌, ltb, leb, ◌&&◌, if◌then◌else◌,
}
use container_system.Base.Int.{ℤ, pos, negsuc}
use container_system.Text.{span_space}

-- The digits of a number, in front of `out`: at most `fuel` of them.
unfoldable pub digits : ℕ → ℕ → Bytes → Bytes
digits zero n out = out
digits (suc fuel) n out =
    let rest = digits fuel (n / 10) ((b'0' + n % 10) ∷ out) in
    if ltb n 10 then (b'0' + n) ∷ out else rest

-- std::to_string of an unsigned integer: twenty digits are enough for 64 bits.
unfoldable pub print_nat : ℕ → Bytes
unfolding digits
print_nat n = digits 20 n []

-- std::to_string of a signed integer
unfoldable pub print_int : ℤ → Bytes
print_int (pos n) = print_nat n
print_int (negsuc n) = b'-' ∷ print_nat (suc n)

abbrev pub is_digit : ℕ → Bool
is_digit c = leb b'0' c && leb c b'9'

-- The number that the digits at the start spell behind `n`.
unfoldable pub read_digits : Bytes → ℕ → ℕ
read_digits [] n = n
read_digits (c ∷ s) n =
    let rest = read_digits s (n * 10 + (c - b'0')) in if is_digit c then rest else n

-- A sign and digits: whether there is a minus sign, and the number. There is none without a digit.
abbrev pub magnitude : Bool → Bytes → Option (Bool × ℕ)
magnitude negative [] = none
magnitude negative (c ∷ s) = if is_digit c then some (negative, read_digits (c ∷ s) 0) else none

abbrev pub after_sign : Bytes → Option (Bool × ℕ)
after_sign [] = none
after_sign (c ∷ s) =
    if c == b'-'
    then magnitude true s
    else if c == b'+'
    then magnitude false s
    else magnitude false (c ∷ s)

unfoldable pub read_number : Bytes → Option (Bool × ℕ)
read_number s = after_sign (span_space s).1

abbrev pub signed : Bool → ℕ → ℤ
signed false n = pos n
signed true zero = pos 0
signed true (suc n) = negsuc n

abbrev pub in_signed : ℕ → ℤ → Bool
in_signed m (pos n) = ltb n (m / 2)
in_signed m (negsuc n) = ltb n (m / 2)

-- The signed readers, for the type of modulus `m`; `none` is an exception.
abbrev pub checked : ℕ → ℤ → Option ℤ
checked m z = if in_signed m z then some z else none

abbrev pub signed_result : ℕ → Option (Bool × ℕ) → Option ℤ
signed_result m none = none
signed_result m (some (negative, n)) = checked m (signed negative n)

unfoldable pub read_signed : ℕ → Bytes → Option ℤ
read_signed m s = signed_result m (read_number s)

-- The unsigned readers of 64 bits: a minus sign negates in that type.
abbrev pub unsigned_result : Option (Bool × ℕ) → Option ℕ
unsigned_result none = none
unsigned_result (some (negative, n)) =
    if ltb n (2 ^ 64) then some (if negative then (2 ^ 64 - n) % 2 ^ 64 else n) else none

unfoldable pub read_unsigned : Bytes → Option ℕ
read_unsigned s = unsigned_result (read_number s)

abbrev pub stoi : Bytes → Option ℤ
stoi = read_signed (2 ^ 32)

abbrev pub stol : Bytes → Option ℤ
stol = read_signed (2 ^ 64)

abbrev pub stoll : Bytes → Option ℤ
stoll = read_signed (2 ^ 64)

abbrev pub stoul : Bytes → Option ℕ
stoul = read_unsigned

abbrev pub stoull : Bytes → Option ℕ
stoull = read_unsigned
