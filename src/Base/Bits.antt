-- ===== src/Base/Bits.antt =====
-- The bit operations of the codec as arithmetic.
use Prim.Native.Nat.{
  ℕ, zero, suc, ◌+◌, ◌*◌, ◌/◌, ◌%◌, ◌^◌, ◌≤◌, ◌<◌, max, bit_and, bit_or, digits, bit_or-bitwise,
  bit_and-bitwise, min,
}
use mathlib.Core.Path.{◌≡◌, refl, ◌∙◌}
use native.Mathlib.Nat.{pow-suc, div-add-mod}
use mathlib.Core.Bool.{Bool, true, ◌&&◌}
use native.Mathlib.Omega.{arith}
use container_system.Base.Tests.{◌==◌, ==_iff}

-- A test is run on a small range.
unfoldable pub passes : (ℕ → Bool) → ℕ → Bool
passes test zero = true
passes test (suc limit) = passes test limit && test limit

pub passes_sound :
    (test : ℕ → Bool) (limit v : ℕ) → passes test limit ≡ true → v < limit → test v ≡ true
unfolding passes
passes_sound test (suc limit) v e below = ground (arith, passes_sound test limit v)
passes_sound test zero v e below = absurd (omega arith)

agree_sound :
    (f g : ℕ → ℕ) (limit v : ℕ) → passes (λ x. f x == g x) limit ≡ true → v < limit → f v ≡ g v
agree_sound f g limit v e below = (==_iff _ _).0 (passes_sound (λ x. f x == g x) limit v e below)

-- A fixstr byte is the prefix and the length.
pub fixstr_prefix : (n : ℕ) → n < 32 → bit_and (bit_or 0xa0 n) 0xe0 ≡ 0xa0
unfolding passes
fixstr_prefix n h = agree_sound (λ x. bit_and (bit_or 0xa0 x) 0xe0) (λ x. 0xa0) 32 n refl h

pub fixstr_size : (n : ℕ) → n < 32 → bit_and (bit_or 0xa0 n) 0x1f ≡ n
unfolding passes
fixstr_size n h = agree_sound (λ x. bit_and (bit_or 0xa0 x) 0x1f) (λ x. x) 32 n refl h

pub fixarray_prefix : (n : ℕ) → n < 16 → bit_and (bit_or 0x90 n) 0xf0 ≡ 0x90
unfolding passes
fixarray_prefix n h = agree_sound (λ x. bit_and (bit_or 0x90 x) 0xf0) (λ x. 0x90) 16 n refl h

pub fixarray_size : (n : ℕ) → n < 16 → bit_and (bit_or 0x90 n) 0x0f ≡ n
unfolding passes
fixarray_size n h = agree_sound (λ x. bit_and (bit_or 0x90 x) 0x0f) (λ x. x) 16 n refl h

pub fixmap_prefix : (n : ℕ) → n < 16 → bit_and (bit_or 0x80 n) 0xf0 ≡ 0x80
unfolding passes
fixmap_prefix n h = agree_sound (λ x. bit_and (bit_or 0x80 x) 0xf0) (λ x. 0x80) 16 n refl h

pub fixmap_size : (n : ℕ) → n < 16 → bit_and (bit_or 0x80 n) 0x0f ≡ n
unfolding passes
fixmap_size n h = agree_sound (λ x. bit_and (bit_or 0x80 x) 0x0f) (λ x. x) 16 n refl h

-- The law for the lowest digit, from the definition that the native operation stands for.
abbrev or_digits : ℕ → ℕ → ℕ → ℕ
or_digits n a b = digits (λ b. b) max n a b

or_digits_fuel : (n m a b : ℕ) → a ≤ n → a ≤ m → or_digits n a b ≡ or_digits m a b
or_digits_fuel zero zero a b p q = refl
or_digits_fuel zero (suc m) zero b p q = refl
or_digits_fuel zero (suc m) (suc a) b p q = absurd (omega arith)
or_digits_fuel (suc n) zero zero b p q = refl
or_digits_fuel (suc n) zero (suc a) b p q = absurd (omega arith)
or_digits_fuel (suc n) (suc m) zero b p q = refl
or_digits_fuel (suc n) (suc m) (suc a) b p q =
    omega (arith, or_digits_fuel n m (suc a / 2) (b / 2) (omega arith) (omega arith))

zero-bit_or : (b : ℕ) → bit_or 0 b ≡ b
zero-bit_or b = bit_or-bitwise 0 b

bit_or_step : (u v : ℕ) → bit_or u v ≡ max (u % 2) (v % 2) + 2 * bit_or (u / 2) (v / 2)
bit_or_step (suc u) v =
    let half = suc u / 2 in
    let enough = or_digits_fuel u half half (v / 2) (omega arith) (omega arith) in
    omega (arith, enough, bit_or-bitwise half (v / 2), bit_or-bitwise (suc u) v)
bit_or_step zero v = omega (arith, zero-bit_or (v / 2), zero-bit_or v)

bit_or-zero_fuel : (n a : ℕ) → a ≤ n → bit_or a 0 ≡ a
bit_or-zero_fuel n zero h = refl
bit_or-zero_fuel zero (suc a) h = absurd (omega arith)
bit_or-zero_fuel (suc n) (suc a) h =
    omega (arith, bit_or_step (suc a) 0, bit_or-zero_fuel n (suc a / 2) (omega arith))

bit_or-zero : (a : ℕ) → bit_or a 0 ≡ a
bit_or-zero a = bit_or-zero_fuel a a (omega arith)

-- Bit ranges that do not overlap are joined by a sum.
pub bit_or_disjoint : (k a b : ℕ) → b < 2 ^ k → bit_or (a * 2 ^ k) b ≡ a * 2 ^ k + b
bit_or_disjoint zero a zero h = rw bit_or-zero (omega arith)
bit_or_disjoint zero a (suc b) h = absurd (omega arith)
bit_or_disjoint (suc k) a b h =
    let w : ℕ = a * 2 ^ k in
    let double : a * 2 ^ suc k ≡ w * 2 = rw pow-suc (omega arith) in
    let fits : b / 2 < 2 ^ k = omega (arith, pow-suc 2 k) in
    let half : w * 2 / 2 ≡ w = omega arith in
    rw double (bit_or_step (w * 2) b ∙ rw half (omega (arith, bit_or_disjoint k a (b / 2) fits)))

-- The same where the high part is known by its remainder.
pub bit_or-eq-add : (k x b : ℕ) → x % 2 ^ k ≡ 0 → b < 2 ^ k → bit_or x b ≡ x + b
bit_or-eq-add k x b h f =
    let e : x ≡ x / 2 ^ k * 2 ^ k = omega (arith, div-add-mod x (2 ^ k)) in
    rw e (bit_or_disjoint k (x / 2 ^ k) b f)

-- The bits of both numbers fit in k digits, and so do those of the result.
pub bit_or-lt : (k a b : ℕ) → a < 2 ^ k → b < 2 ^ k → bit_or a b < 2 ^ k
bit_or-lt zero zero b h f = rw zero-bit_or f
bit_or-lt zero (suc a) b h f = absurd (omega arith)
bit_or-lt (suc k) a b h f = omega (
  arith,
  bit_or_step a b,
  pow-suc 2 k,
  bit_or-lt k (a / 2) (b / 2) (omega (arith, pow-suc 2 k)) (omega (arith, pow-suc 2 k)),
)

abbrev and_digits : ℕ → ℕ → ℕ → ℕ
and_digits n a b = digits (λ b. zero) min n a b

and_digits-lt : (k n a b : ℕ) → a < 2 ^ k → and_digits n a b < 2 ^ k
and_digits-lt k zero a b h = omega arith
and_digits-lt k (suc n) zero b h = h
and_digits-lt zero (suc n) (suc a) b h = absurd (omega arith)
and_digits-lt (suc k) (suc n) (suc a) b h =
    omega (arith, pow-suc 2 k, and_digits-lt k n (suc a / 2) (b / 2) (omega (arith, pow-suc 2 k)))

-- A mask does not enlarge the number of digits.
pub bit_and-lt : (k a b : ℕ) → a < 2 ^ k → bit_and a b < 2 ^ k
bit_and-lt k a b h = rw (bit_and-bitwise a b) (and_digits-lt k a a b h)
