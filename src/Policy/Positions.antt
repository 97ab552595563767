-- ===== src/Policy/Positions.antt =====
-- Positions in the vector of a storage policy (include/kcenon/container/storage_policy.h).
use container_system.Base.{
  ℕ, zero, suc, ◌-◌, ◌≡◌, refl, Option, none, some, List, [], ◌∷◌, ◌++◌, Bytes, length, get_elem?,
  ◌===◌, ===_iff, ltb, if◌then◌else◌, arith,
}
use container_system.Value.{OptimizedValue, name_of}
use container_system.Policy.{assign, erase, find_by_key}

-- No name stands twice.
abbrev pub Distinct : List OptimizedValue → Type 0
Distinct [] = Unit
Distinct (v ∷ values) = (find_by_key (name_of v) values ≡ none) × Distinct values

-- A position that was found holds a value of the key.
pub find_by_key-get_elem? :
    (key : Bytes) (values : List OptimizedValue) (i : ℕ)
    → find_by_key key values ≡ some i
    → (v : OptimizedValue) × (get_elem? values i ≡ some v) × (name_of v ≡ key)
unfolding find_by_key
find_by_key-get_elem? key [] i e = cc
find_by_key-get_elem? key (v ∷ values) zero e = (v, refl, ground (arith, ===_iff (name_of v) key))
find_by_key-get_elem? key (v ∷ values) (suc i) e = find_by_key-get_elem? key values i (ground arith)

-- Assigning a value of the key at its position moves no key.
pub assign-find_by_key :
    (key : Bytes) (value : OptimizedValue) (values : List OptimizedValue) (i : ℕ)
    → name_of value ≡ key
    → find_by_key key values ≡ some i
    → (values' : List OptimizedValue) × (assign i value values ≡ some values')
      × ((j : Bytes) → find_by_key j values' ≡ find_by_key j values)
      × (Distinct values → Distinct values')
unfolding find_by_key assign
assign-find_by_key key value [] i n e = cc
assign-find_by_key key value (v ∷ values) zero n e = (
  value ∷ values,
  refl,
  λ j. ground (arith, ===_iff (name_of v) key),
  λ d. (ground (arith, n, d.0, ===_iff (name_of v) key), d.1),
)
assign-find_by_key key value (v ∷ values) (suc i) n e =
    let (values', a, f, l) = assign-find_by_key key value values i n (ground arith) in
    (v ∷ values', rw a refl, λ j. rw (f j) refl, λ d. (rw (f (name_of v)) d.0, l d.1))

pub append-find_by_key :
    (value : OptimizedValue) (values : List OptimizedValue) (j : Bytes)
    → find_by_key (name_of value) values ≡ none
    → find_by_key j (values ++ (value ∷ []))
      ≡ (if name_of value === j then some (length values) else find_by_key j values)
unfolding find_by_key
append-find_by_key value [] j e = refl
append-find_by_key value (v ∷ values) j e = ground (
  arith,
  append-find_by_key value values j,
  ===_iff (name_of v) (name_of value),
  ===_iff (name_of v) j,
  ===_iff (name_of value) j,
)

pub append-Distinct :
    (value : OptimizedValue) (values : List OptimizedValue)
    → find_by_key (name_of value) values ≡ none
    → Distinct values
    → Distinct (values ++ (value ∷ []))
unfolding find_by_key
append-Distinct value [] e d = (refl, tt)
append-Distinct value (v ∷ values) e (n, d) = (
  rw (append-find_by_key value values (name_of v) (ground arith))
      (ground (arith, ===_iff (name_of v) (name_of value), ===_iff (name_of value) (name_of v))),
  append-Distinct value values (ground arith) d,
)

-- Where a position goes when the one at `i` is erased.
abbrev pub shifted : ℕ → Option ℕ → Option ℕ
shifted i none = none
shifted i (some p) = some (if ltb i p then p - 1 else p)

pub erase-find_by_key :
    (key : Bytes) (values : List OptimizedValue) (i : ℕ)
    → Distinct values
    → find_by_key key values ≡ some i
    → (values' : List OptimizedValue) × (erase i values ≡ some values')
      × ((j : Bytes)
          → find_by_key j values' ≡ (if key === j then none else shifted i (find_by_key j values)))
      × Distinct values'
unfolding find_by_key erase
erase-find_by_key key [] i d e = cc
erase-find_by_key key (v ∷ values) zero d e = (
  values,
  refl,
  λ j. ground (arith, ===_iff (name_of v) key, ===_iff (name_of v) j, ===_iff key j),
  d.1,
)
erase-find_by_key key (v ∷ values) (suc i) (n, d) e =
    let (values', a, f, d') = erase-find_by_key key values i d (ground arith) in
    (
      v ∷ values',
      rw a refl,
      λ j. ground (arith, f j, ===_iff (name_of v) key, ===_iff (name_of v) j, ===_iff key j),
      (rw (f (name_of v)) (rw n (ground arith)), d'),
    )
