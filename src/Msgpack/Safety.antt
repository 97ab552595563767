-- ===== src/Msgpack/Safety.antt =====
-- class msgpack_decoder (include/kcenon/container/container/msgpack.h): what a read that stays
-- inside the data looks like, and the rules by which the readers are built.
pub mod Words
pub mod Readers
pub mod Integers
pub mod Payloads
pub mod Decoder
use container_system.Base.{
  ℕ, ◌+◌, ◌≤◌, ◌<◌, ◌^◌, ◌≡◌, refl, ◌∙◌, Bool, true, false, Option, none, some, length, leb, All,
  All-get_elem?, if◌then◌else◌, arith,
}
use container_system.Msgpack.Decoder.{
  MsgpackDecoder, Read, ret, map_read, bind_read, load, advance, short, loaded, at_byte, guarded,
}

abbrev pub IsByte : ℕ → Type 0
IsByte b = b < 256

-- The size is that of the data and below 2 ^ 63, the offset is not past it, and the data are
-- bytes.
pub record IsValid (d : MsgpackDecoder) : Type 0 where
  pub within : d.offset ≤ d.size
  pub whole : d.size ≡ length d.bytes
  pub small : d.size < 2 ^ 63
  pub octets : All IsByte d.bytes

-- The result of a read that stayed inside the data. A value is as `P` says, and the read moved over
-- at least `n` bytes for it. The data are kept, and the offset never moves back.
pub data Safe {ℓ} {A : Type ℓ} (P : A → Type 0) (n : ℕ) (d : MsgpackDecoder) : Read A → Type ℓ where
  given :
      (a : A) (d' : MsgpackDecoder)
      → P a
      → IsValid d'
      → d'.bytes ≡ d.bytes
      → d.offset + n ≤ d'.offset
      → Safe P n d (ret (some a) d')
  refused :
      (d' : MsgpackDecoder)
      → IsValid d'
      → d'.bytes ≡ d.bytes
      → d.offset ≤ d'.offset
      → Safe P n d (ret none d')

-- A read that goes on from where another ended.
extend {ℓ} :
    {A : Type ℓ} {P : A → Type 0} {n m : ℕ} {d d' : MsgpackDecoder} {r : Read A}
    → d'.bytes ≡ d.bytes
    → d.offset + n ≤ d'.offset
    → Safe P m d' r
    → Safe P n d r
extend e h (given a d2 p w b q) = given a d2 p w (b ∙ e) (omega arith)
extend e h (refused d2 w b q) = refused d2 w (b ∙ e) (omega arith)

module _ {ℓ} {A : Type ℓ} {P : A → Type 0} where
  pub Safe-cond :
      {n : ℕ} {d : MsgpackDecoder} (b : Bool) {r s : Read A}
      → Safe P n d r
      → Safe P n d s
      → Safe P n d (if b then r else s)
  Safe-cond true p q = p
  Safe-cond false p q = q

  pub Safe-if :
      {n : ℕ} {d : MsgpackDecoder} (b : Bool) {r s : Read A}
      → (b ≡ true → Safe P n d r)
      → (b ≡ false → Safe P n d s)
      → Safe P n d (if b then r else s)
  Safe-if true p q = p refl
  Safe-if false p q = q refl

  pub Safe-refused : (n : ℕ) (d : MsgpackDecoder) → IsValid d → Safe P n d (ret none d)
  Safe-refused n d v = refused d v refl (omega arith)

  pub Safe-map {κ} :
      {B : Type κ} {Q : B → Type 0} {n : ℕ} {d : MsgpackDecoder} (f : A → B) {r : Read A}
      → ((a : A) → P a → Q (f a))
      → Safe P n d r
      → Safe Q n d (map_read f r)
  Safe-map f i (given a d' p v e h) = given (f a) d' (i a p) v e h
  Safe-map f i (refused d' v e h) = refused d' v e h

  pub Safe-weaken :
      {Q : A → Type 0} {n : ℕ} {d : MsgpackDecoder} {r : Read A}
      → ((a : A) → P a → Q a)
      → Safe P n d r
      → Safe Q n d r
  Safe-weaken i (given a d' p v e h) = given a d' (i a p) v e h
  Safe-weaken i (refused d' v e h) = refused d' v e h

  pub Safe-bind {κ} :
      {B : Type κ} {Q : B → Type 0} {n : ℕ} {d : MsgpackDecoder} (f : A → MsgpackDecoder → Read B)
      {r : Read A}
      → ((a : A) (d' : MsgpackDecoder)
          → P a
          → IsValid d'
          → d'.bytes ≡ d.bytes
          → d.offset + n ≤ d'.offset
          → Safe Q 0 d' (f a d'))
      → Safe P n d r
      → Safe Q n d (bind_read r f)
  Safe-bind f k (given a d' p v e h) = extend e h (k a d' p v e h)
  Safe-bind f k (refused d' v e h) = refused d' v e h

pub advance-IsValid :
    (n : ℕ) (d : MsgpackDecoder)
    → IsValid d
    → d.offset + n ≤ d.size
    → IsValid (advance n d) × ((advance n d).offset ≡ d.offset + n)
advance-IsValid n d v h =
    let e : (advance n d).offset ≡ d.offset + n = omega arith in
    (record { within = omega arith; whole = v.whole; small = v.small; octets = v.octets }, e)

-- A byte inside the data can be read.
pub load-within :
    (k : ℕ) (d : MsgpackDecoder)
    → IsValid d
    → d.offset + k < d.size
    → (b : ℕ) × (load k d ≡ some b) × IsByte b
load-within k d v h = All-get_elem? IsByte d.bytes _ v.octets (omega arith)

module _ {ℓ} {A : Type ℓ} {P : A → Type 0} where
  pub Safe-loaded :
      (n : ℕ) (d : MsgpackDecoder) (a : A) {o : Option A}
      → P a
      → IsValid d
      → d.offset + n ≤ d.size
      → o ≡ some a
      → Safe P n d (loaded n o d)
  Safe-loaded n d a p v h e =
      let (v', moved) = advance-IsValid n d v h in
      rw e (given a (advance n d) p v' refl (omega arith))

  pub Safe-advance :
      (n : ℕ) (d : MsgpackDecoder) (a : A)
      → P a
      → IsValid d
      → d.offset + n ≤ d.size
      → Safe P n d (ret (some a) (advance n d))
  Safe-advance n d a p v h = Safe-loaded n d a p v h refl

  pub Safe-at_byte :
      (n : ℕ) (d : MsgpackDecoder) (f : ℕ → Read A)
      → IsValid d
      → (d.offset + 1 ≤ d.size → (b : ℕ) → IsByte b → Safe P n d (f b))
      → Safe P n d (at_byte d f)
  Safe-at_byte n d f v k =
      Safe-if (leb d.size d.offset) (λ _. Safe-refused n d v)
        (λ e.
          let h : d.offset + 1 ≤ d.size = ground arith in
          let (b, p, small) = load-within 0 d v (omega arith) in rw p (k h b small))

  -- The reader behind a guard has all the bytes that the guard has seen.
  pub Safe-guarded :
      (m : ℕ) (d : MsgpackDecoder) (k : MsgpackDecoder → Read A)
      → m ≤ 8
      → IsValid d
      → ((d' : MsgpackDecoder) → IsValid d' → d'.offset + m ≤ d'.size → Safe P m d' (k d'))
      → Safe P 1 d (guarded (m + 1) k d)
  Safe-guarded m d k small v f =
      Safe-if (short (m + 1) d) (λ _. Safe-refused 1 d v)
        (λ e.
          let h : d.offset + (m + 1) ≤ d.size = ground arith in
          let (v', moved) = advance-IsValid 1 d v (omega arith) in
          extend refl (omega arith) (f (advance 1 d) v' (omega arith)))
