-- ===== src/Base/Int.antt =====
-- Signed integers over the native numbers, and the casts between them and machine words.
use Prim.Native.Nat.{ℕ, suc, ◌+◌, ◌-◌, ◌/◌, ◌%◌, ◌≤◌, ◌<◌}
use mathlib.Core.Bool.{Bool}
use container_system.Base.Tests.{ltb, leb, if◌then◌else◌}

-- `negsuc n` is -(n + 1).
pub data ℤ : Type 0 where
  pos : ℕ → ℤ
  negsuc : ℕ → ℤ

abbrev pub pos_part : ℤ → ℕ
pos_part (pos n) = n
pos_part (negsuc n) = 0

abbrev pub neg_part : ℤ → ℕ
neg_part (pos n) = 0
neg_part (negsuc n) = suc n

infix 50 ◌≤ℤ◌
abbrev pub ◌≤ℤ◌ : ℤ → ℤ → Type 0
a ≤ℤ b = pos_part a + neg_part b ≤ pos_part b + neg_part a

abbrev pub leb_ℤ : ℤ → ℤ → Bool
leb_ℤ a b = leb (pos_part a + neg_part b) (pos_part b + neg_part a)

-- The cast of a signed integer to the unsigned type of modulus `m`.
abbrev pub to_unsigned : ℕ → ℤ → ℕ
to_unsigned m (pos n) = n % m
to_unsigned m (negsuc n) = m - 1 - n % m

-- The cast of a word of modulus `m` to the signed type of that width.
abbrev pub to_signed : ℕ → ℕ → ℤ
to_signed m x = if ltb x (m / 2) then pos x else negsuc (m - 1 - x)

-- The range of the signed type of modulus `m`.
abbrev pub InSigned : ℕ → ℤ → Type 0
InSigned m (pos n) = n < m / 2
InSigned m (negsuc n) = n < m / 2
