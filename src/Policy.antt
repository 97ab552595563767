-- ===== src/Policy.antt =====
-- The storage policies of include/kcenon/container/storage_policy.h: what the concept asks of one, and the class
-- dynamic_storage_policy. `std::vector` is a list and an iterator is a position; an overload by move is
-- the one by reference.
pub mod Positions
pub mod Indexed
pub mod Simulation
pub mod Restricted
use container_system.Base.{
  ℕ, zero, suc, Bool, true, false, Option, none, some, List, [], ◌∷◌, ◌++◌, Bytes, length,
  get_elem?, ◌===◌, ◌==◌, if◌then◌else◌,
}
use container_system.Value.{OptimizedValue, name_of}

-- concept StoragePolicy. `none` stands for an access outside the vector; `range` is what `begin` and `end`
-- enclose.
pub record StoragePolicy (S : Type 0) : Type 0 where
  pub set : Bytes → OptimizedValue → S → Option S
  pub get : Bytes → S → Option (Option OptimizedValue)
  pub contains : Bytes → S → Bool
  pub remove : Bytes → S → Option (S × Bool)
  pub clear : S → S
  pub range : S → List OptimizedValue
  pub size : S → ℕ
  pub empty : S → Bool

-- `*it = value` and `values_.erase(it)` at a position of the vector
unfoldable pub assign {ℓ} : {A : Type ℓ} → ℕ → A → List A → Option (List A)
assign i a [] = none
assign zero a (x ∷ xs) = some (a ∷ xs)
assign (suc i) a (x ∷ xs) = elim (assign i a xs) [ none ↦ none | some ys ↦ some (x ∷ ys) ]

unfoldable pub erase {ℓ} : {A : Type ℓ} → ℕ → List A → Option (List A)
erase i [] = none
erase zero (x ∷ xs) = some xs
erase (suc i) (x ∷ xs) = elim (erase i xs) [ none ↦ none | some ys ↦ some (x ∷ ys) ]

-- The position that `find_by_key` gives; `none` is `values_.end()`.
abbrev pub next_position : Option ℕ → Option ℕ
next_position none = none
next_position (some i) = some (suc i)

unfoldable pub find_by_key : Bytes → List OptimizedValue → Option ℕ
find_by_key key [] = none
find_by_key key (v ∷ values) =
    if name_of v === key then some 0 else next_position (find_by_key key values)

-- The methods of dynamic_storage_policy, on where the key is found.
abbrev pub set_found :
    OptimizedValue → List OptimizedValue → Option ℕ → Option (List OptimizedValue)
set_found value values (some i) = assign i value values
set_found value values none = some (values ++ (value ∷ []))

abbrev some_at {ℓ} : {A : Type ℓ} → Option A → Option (Option A)
some_at none = none
some_at (some a) = some (some a)

abbrev pub get_found : List OptimizedValue → Option ℕ → Option (Option OptimizedValue)
get_found values (some i) = some_at (get_elem? values i)
get_found values none = some none

abbrev pub is_found : Option ℕ → Bool
is_found none = false
is_found (some i) = true

abbrev pub with_flag {ℓ} : {A : Type ℓ} → Bool → Option A → Option (A × Bool)
with_flag b none = none
with_flag b (some a) = some (a, b)

abbrev pub remove_found : List OptimizedValue → Option ℕ → Option (List OptimizedValue × Bool)
remove_found values (some i) = with_flag true (erase i values)
remove_found values none = some (values, false)

unfoldable pub dynamic_storage_policy : StoragePolicy (List OptimizedValue)
dynamic_storage_policy = record {
  set = λ key value values. set_found value values (find_by_key key values);
  get = λ key values. get_found values (find_by_key key values);
  contains = λ key values. is_found (find_by_key key values);
  remove = λ key values. remove_found values (find_by_key key values);
  clear = λ values. [];
  range = λ values. values;
  size = length;
  empty = λ values. length values == 0;
}
