-- ===== src/Pool/Chains.antt =====
-- The free list of class fixed_block_pool (internal/memory_pool.h) as a list of addresses.
use container_system.Base.{
  ℕ, zero, suc, ◌+◌, ◌*◌, ◌≤◌, ◌<◌, ◌≡◌, ◌≢◌, refl, true, Bool-cases, inl, inr, some, List, [], ◌∷◌,
  length, ◌==◌, ==_iff, if◌then◌else◌, arith,
}
use mathlib.Core.Logic.{◌⊎◌}
use native.Mathlib.Nat.{add-mul, suc-mul, mul_comm, zero-mul}
use container_system.Pool.{store, link_blocks, in_chunks, count_free}

-- The links from `head` on go through the blocks of the list, and end.
abbrev pub Chain : (ℕ → ℕ) → ℕ → List ℕ → Type 0
Chain memory head [] = head ≡ 0
Chain memory head (a ∷ free) = (head ≡ a) × (a ≢ 0) × Chain memory (memory a) free

-- How often an address stands in a list.
abbrev pub occurrences : ℕ → List ℕ → ℕ
occurrences a [] = 0
occurrences a (b ∷ bs) = (if a == b then 1 else 0) + occurrences a bs

-- How many of the `n` blocks of a chunk, from block `i` on, begin at an address, and of the blocks of all chunks.
abbrev pub starts_from : ℕ → ℕ → ℕ → ℕ → ℕ → ℕ
starts_from zero i base size a = 0
starts_from (suc n) i base size a =
    (if a == (base + i * size) then 1 else 0) + starts_from n (suc i) base size a

abbrev pub starts : ℕ → ℕ → List ℕ → ℕ → ℕ
starts n size [] a = 0
starts n size (base ∷ chunks) a = starts_from n 0 base size a + starts n size chunks a

pub store-Chain :
    (memory : ℕ → ℕ) (a w head : ℕ) (free : List ℕ)
    → occurrences a free ≡ 0
    → Chain memory head free
    → Chain (store memory a w) head free
store-Chain memory a w head [] o c = c
store-Chain memory a w head (b ∷ free) o (e, z, c) =
    let same : store memory a w b ≡ memory b = ground (arith, o) in
    (e, z, rw same (store-Chain memory a w (memory b) free (omega (arith, o)) c))

stored : (memory : ℕ → ℕ) (a w : ℕ) → store memory a w a ≡ w
stored memory a w = ground arith

-- A block that is not in the list is linked in front of it.
pub store-front :
    (memory : ℕ → ℕ) (a head : ℕ) (free : List ℕ)
    → a ≢ 0
    → occurrences a free ≡ 0
    → Chain memory head free
    → Chain (store memory a head) a (a ∷ free)
store-front memory a head free z o c =
    (refl, z, rw (stored memory a head) (store-Chain memory a head head free o c))

-- The blocks of a chunk are put in front of the list.
pub link_blocks-Chain :
    (n i base size head : ℕ) (memory : ℕ → ℕ) (free : List ℕ)
    → base ≢ 0
    → ((a : ℕ) → starts_from n i base size a + occurrences a free ≤ 1)
    → Chain memory head free
    → (free' : List ℕ) × Chain
        (link_blocks n i base size (head, memory)).1
        (link_blocks n i base size (head, memory)).0
        free'
      × (length free' ≡ n + length free)
      × ((a : ℕ) → occurrences a free' ≡ starts_from n i base size a + occurrences a free)
unfolding link_blocks
link_blocks-Chain zero i base size head memory free z h c = (free, c, omega arith, λ a. omega arith)
link_blocks-Chain (suc n) i base size head memory free z h c =
    let b = base + i * size in
    let (free', d, l, o) =
      link_blocks-Chain n (suc i) base size b (store memory b head) (b ∷ free) z
        (λ a. omega (arith, h a))
        (store-front memory b head free (λ e. z (omega arith)) (ground (arith, h b)) c) in
    (free', d, omega (arith, l), λ a. omega (arith, o a))

pub count_free-Chain :
    (fuel : ℕ) (memory : ℕ → ℕ) (head : ℕ) (free : List ℕ)
    → length free < fuel
    → Chain memory head free
    → count_free fuel memory head ≡ some (length free)
unfolding count_free
count_free-Chain zero memory head free l c = absurd (omega arith)
count_free-Chain (suc fuel) memory head [] l c = rw c refl
count_free-Chain (suc fuel) memory head (a ∷ free) l (e, z, c) =
    let rest = count_free-Chain fuel memory (memory a) free (omega (arith, l)) c in
    rw (e, rest) (ground (arith, z))

product : (i n size : ℕ) → (i + suc n) * size ≡ i * size + size + n * size
product i n size = omega (arith, add-mul i (suc n) size, suc-mul n size)

suc_product : (i n size : ℕ) → (suc i + n) * size ≡ i * size + size + n * size
suc_product i n size = omega (arith, add-mul (suc i) n size, suc-mul i size)

-- An address where a block begins is inside its chunk.
pub starts_from-inside :
    (n i base size a : ℕ)
    → starts_from n i base size a ≢ 0
    → (base + i * size ≤ a) × (a + size ≤ base + (i + n) * size)
starts_from-inside zero i base size a s = absurd (s refl)
starts_from-inside (suc n) i base size a s = elim (Bool-cases (a == (base + i * size))) [
  | inl e ↦ (
    omega (arith, product i n size, (==_iff a (base + i * size)).0 e),
    omega (arith, product i n size, (==_iff a (base + i * size)).0 e),
  )
  | inr e ↦
      let (l, u) = starts_from-inside n (suc i) base size a (λ z. s (ground (arith, e))) in
      (omega (arith, suc-mul i size), omega (arith, product i n size, u, suc_product i n size))
]

pub starts_from_le-one : (n i base size a : ℕ) → size ≢ 0 → starts_from n i base size a ≤ 1
starts_from_le-one zero i base size a z = omega arith
starts_from_le-one (suc n) i base size a z = elim (Bool-cases (a == (base + i * size))) [
  | inl e ↦ elim (Bool-cases (starts_from n (suc i) base size a == 0)) [
    | inl f ↦ ground arith
    | inr f ↦
        let (l, u) = starts_from-inside n (suc i) base size a (λ s. ground (arith, f, s)) in
        absurd (z (omega (arith, l, suc-mul i size, (==_iff a (base + i * size)).0 e)))
  ]
  | inr e ↦ ground (arith, e, starts_from_le-one n (suc i) base size a z)
]

-- A block of a chunk is inside the chunks, and inside no range that stands apart from them.
pub starts-in_chunks :
    (n size : ℕ) (chunks : List ℕ) (a : ℕ)
    → size ≢ 0
    → starts n size chunks a ≢ 0
    → in_chunks a (size * n) chunks ≡ true
unfolding in_chunks
starts-in_chunks n size [] a z s = absurd (s refl)
starts-in_chunks n size (base ∷ chunks) a z s =
    elim (Bool-cases (starts_from n 0 base size a == 0)) [
      | inl e ↦ ground (arith, starts-in_chunks n size chunks a z (λ t. s (ground (arith, e, t))))
      | inr e ↦
          let (l, u) = starts_from-inside n 0 base size a (λ t. ground (arith, e, t)) in
          let low : base ≤ a = omega (arith, l) in
          let high : a < base + size * n = omega (arith, u, mul_comm n size, zero-mul size) in
          ground (arith, low, high)
    ]

abbrev pub Apart : ℕ → ℕ → List ℕ → Type 0
Apart base total [] = Unit
Apart base total (c ∷ chunks) = ((base + total ≤ c) ⊎ (c + total ≤ base)) × Apart base total chunks

pub starts-Apart :
    (n size base : ℕ) (chunks : List ℕ) (a : ℕ)
    → size ≢ 0
    → Apart base (size * n) chunks
    → starts_from n 0 base size a ≢ 0
    → starts n size chunks a ≡ 0
starts-Apart n size base [] a z d s = refl
starts-Apart n size base (c ∷ chunks) a z (d, ds) s =
    elim (Bool-cases (starts_from n 0 c size a == 0)) [
      | inl e ↦ ground (arith, starts-Apart n size base chunks a z ds s)
      | inr e ↦
          let (l, u) = starts_from-inside n 0 base size a s in
          let (l2, u2) = starts_from-inside n 0 c size a (λ t. ground (arith, e, t)) in
          absurd (elim d [
            | inl f ↦ z (omega (arith, l, u, l2, u2, mul_comm n size, f))
            | inr f ↦ z (omega (arith, l, u, l2, u2, mul_comm n size, f))
          ])
    ]
