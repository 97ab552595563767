-- ===== src/InternalValue/Words.antt =====
-- Words in memory and sized texts, as internal/value.cpp copies them with std::memcpy.
use container_system.Base.{
  ℕ, zero, suc, ◌+◌, ◌/◌, ◌%◌, ◌^◌, ◌<◌, ◌≡◌, refl, ap, false, Bytes, ◌∷◌, ◌++◌, ltb, length,
  length-append, take, drop, take-append, append_assoc, ltb-false, arith,
}
use container_system.Base.Int.{ℤ, pos, negsuc, InSigned, to_unsigned, to_signed}
use container_system.InternalValue.{Data, word_bytes, word_of, sized, Read, with_word, with_sized}

pub word_of-word_bytes : (k n : ℕ) → n < 256 ^ k → word_of (word_bytes k n) ≡ n
unfolding word_of word_bytes
word_of-word_bytes zero n h = omega arith
word_of-word_bytes (suc k) n h = rw (word_of-word_bytes k (n / 256) (omega arith)) (omega arith)

pub length-word_bytes : (k n : ℕ) → length (word_bytes k n) ≡ k
unfolding word_bytes
length-word_bytes zero n = refl
length-word_bytes (suc k) n = ap suc (length-word_bytes k (n / 256))

pub take-word_bytes : (k n : ℕ) (r : Bytes) → take k (word_bytes k n ++ r) ≡ word_bytes k n
unfolding word_bytes
take-word_bytes zero n r = refl
take-word_bytes (suc k) n r = ap (λ s. (n % 256) ∷ s) (take-word_bytes k (n / 256) r)

pub drop-word_bytes : (k n : ℕ) (r : Bytes) → drop k (word_bytes k n ++ r) ≡ r
unfolding word_bytes
drop-word_bytes zero n r = refl
drop-word_bytes (suc k) n r = drop-word_bytes k (n / 256) r

pub with_word-bytes :
    {C : Type 0} (k n : ℕ) (r : Bytes) (f : ℕ → Read (Data C))
    → n < 256 ^ k
    → with_word k (word_bytes k n ++ r) f ≡ f n
with_word-bytes k n r f h =
    let l : ltb (length (word_bytes k n ++ r)) k ≡ false =
      ltb-false _ _ (omega (arith, length-append (word_bytes k n) r, length-word_bytes k n)) in
    rw l (rw (take-word_bytes k n r) (ap f (word_of-word_bytes k n h)))

pub with_sized-bytes :
    {C : Type 0} (t r : Bytes) (f : Bytes → Read (Data C))
    → length t < 2 ^ 32
    → with_sized (sized t ++ r) f ≡ f t
with_sized-bytes t r f h =
    let w : Bytes = word_bytes 4 (length t) in
    let m : length t % 2 ^ 32 ≡ length t = omega (arith, h) in
    let e : (w ++ t) ++ r ≡ w ++ (t ++ r) = append_assoc w t r in
    let g : word_of w ≡ length t = word_of-word_bytes 4 (length t) (omega (arith, h)) in
    let l : length (w ++ (t ++ r)) ≡ 4 + (length t + length r) =
      omega (arith, length-append w (t ++ r), length-word_bytes 4 (length t), length-append t r) in
    rw (m, e, take-word_bytes 4 (length t) (t ++ r), g)
      (rw (drop-word_bytes 4 (length t) (t ++ r)) (
        rw (ltb-false (length (w ++ (t ++ r))) 4 (omega (arith, l))) (
          rw (ltb-false (length (w ++ (t ++ r))) (4 + length t) (omega (arith, l)))
            (rw (take-append t r) refl))))

pub cast16 : (z : ℤ) → InSigned (2 ^ 16) z → to_signed (2 ^ 16) (to_unsigned (2 ^ 16) z) ≡ z
cast16 (pos n) h = ground arith
cast16 (negsuc n) h = ground arith

pub cast32 : (z : ℤ) → InSigned (2 ^ 32) z → to_signed (2 ^ 32) (to_unsigned (2 ^ 32) z) ≡ z
cast32 (pos n) h = ground arith
cast32 (negsuc n) h = ground arith

pub cast64 : (z : ℤ) → InSigned (2 ^ 64) z → to_signed (2 ^ 64) (to_unsigned (2 ^ 64) z) ≡ z
cast64 (pos n) h = ground arith
cast64 (negsuc n) h = ground arith

pub word16 : (z : ℤ) → to_unsigned (2 ^ 16) z < 256 ^ 2
word16 (pos n) = omega arith
word16 (negsuc n) = omega arith

pub word32 : (z : ℤ) → to_unsigned (2 ^ 32) z < 256 ^ 4
word32 (pos n) = omega arith
word32 (negsuc n) = omega arith

pub word64 : (z : ℤ) → to_unsigned (2 ^ 64) z < 256 ^ 8
word64 (pos n) = omega arith
word64 (negsuc n) = omega arith
