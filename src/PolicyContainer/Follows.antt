-- ===== src/PolicyContainer/Follows.antt =====
-- The methods of class basic_value_container (include/kcenon/container/policy_container.h) over the indexed and over
-- the dynamic storage policy, one by one.
use container_system.Base.{
  ℕ, suc, ◌≡◌, refl, ap, Bool, true, false, Option, none, some, Option-cases, inl, inr, List, [],
  ◌∷◌, Bytes,
}
use container_system.Value.{OptimizedValue, name_of}
use container_system.Policy.{StoragePolicy, dynamic_storage_policy, find_by_key, is_found}
use container_system.Policy.Positions.{find_by_key-get_elem?}
use container_system.Policy.Indexed.{IndexedStorage, indexed_storage_policy}
use container_system.Policy.Simulation.{IsIndexed, Follows, set-Follows, Removes, remove-Removes}
use container_system.PolicyContainer.{
  PolicyContainer, set_each, get_each, contains_each, counted, remove_each,
}

abbrev pub indexed : StoragePolicy IndexedStorage
indexed = indexed_storage_policy

abbrev pub dynamic : StoragePolicy (List OptimizedValue)
dynamic = dynamic_storage_policy

-- The container over the dynamic policy with the same values.
abbrev pub dynamic_of : PolicyContainer IndexedStorage → PolicyContainer (List OptimizedValue)
dynamic_of c = record { storage = c.storage.values; header = c.header }

-- Both calls return, with the same answer and the same values, and the index is right again.
abbrev pub Both {ℓ} :
    {A : Type ℓ}
    → Option (PolicyContainer IndexedStorage × A)
    → Option (PolicyContainer (List OptimizedValue) × A)
    → Type ℓ
Both {A = A} x y =
    (c : PolicyContainer IndexedStorage) × (a : A) × (x ≡ some (c, a))
    × (y ≡ some (dynamic_of c, a))
    × IsIndexed c.storage

module _ (s : IndexedStorage) (h : IsIndexed s) where
  pub policy-get :
      (key : Bytes)
      → (r : Option OptimizedValue) × (indexed.get key s ≡ some r)
        × (dynamic.get key s.values ≡ some r)
  unfolding indexed_storage_policy dynamic_storage_policy
  policy-get key = elim (Option-cases (find_by_key key s.values)) [
    | inl e ↦ (none, rw (h.found key, e) refl, rw e refl)
    | inr (i, e) ↦
        let (v, g, n) = find_by_key-get_elem? key s.values i e in
        (some v, rw (h.found key, e, g) refl, rw (e, g) refl)
  ]

  pub policy-contains : (key : Bytes) → indexed.contains key s ≡ dynamic.contains key s.values
  unfolding indexed_storage_policy dynamic_storage_policy
  policy-contains key = ap is_found (h.found key)

  pub get_each-both :
      (keys : List Bytes)
      → (rs : List (Option OptimizedValue)) × (get_each indexed keys s ≡ some rs)
        × (get_each dynamic keys s.values ≡ some rs)
  unfolding get_each
  get_each-both [] = ([], refl, refl)
  get_each-both (key ∷ keys) =
      let (r, e, f) = policy-get key in
      let (rs, es, fs) = get_each-both keys in (r ∷ rs, rw (e, es) refl, rw (f, fs) refl)

  pub contains_each-both :
      (keys : List Bytes) → contains_each indexed keys s ≡ contains_each dynamic keys s.values
  unfolding contains_each
  contains_each-both [] = refl
  contains_each-both (key ∷ keys) = rw (policy-contains key, contains_each-both keys) refl

pub policy-set :
    (s : IndexedStorage)
    → IsIndexed s
    → (v : OptimizedValue)
    → Follows (indexed.set (name_of v) v s) (dynamic.set (name_of v) v s.values)
unfolding indexed_storage_policy dynamic_storage_policy
policy-set s h v = set-Follows s h v

pub policy-remove :
    (s : IndexedStorage) (h : IsIndexed s) (key : Bytes)
    → Removes s h (indexed.remove key s) (dynamic.remove key s.values)
unfolding indexed_storage_policy dynamic_storage_policy
policy-remove s h key = remove-Removes s h key

pub set_each-Follows :
    (vals : List OptimizedValue) (s : IndexedStorage)
    → IsIndexed s
    → Follows (set_each indexed vals s) (set_each dynamic vals s.values)
unfolding set_each
set_each-Follows [] s h = (s, refl, refl, h)
set_each-Follows (v ∷ vals) s h =
    let (s1, e, f, h1) = policy-set s h v in
    let (s2, e2, f2, h2) = set_each-Follows vals s1 h1 in (s2, rw e e2, rw f f2, h2)

-- Whether a key was there changes the number only.
counted-both :
    (b : Bool) (s : IndexedStorage) (n : ℕ)
    → (m : ℕ) × (counted indexed b (s, n) ≡ (s, m))
      × (counted dynamic b (s.values, n) ≡ (s.values, m))
counted-both true s n = (suc n, refl, refl)
counted-both false s n = (n, refl, refl)

pub remove_each-both :
    (keys : List Bytes) (s : IndexedStorage)
    → IsIndexed s
    → (s' : IndexedStorage) × (n : ℕ) × (remove_each indexed keys s ≡ some (s', n))
      × (remove_each dynamic keys s.values ≡ some (s'.values, n))
      × IsIndexed s'
unfolding remove_each
remove_each-both [] s h = (s, 0, refl, refl, h)
remove_each-both (key ∷ keys) s h =
    let (s1, b, e, f, h1) = policy-remove s h key in
    let (s2, n, e2, f2, h2) = remove_each-both keys s1 h1 in
    let (m, g, g2) = counted-both b s2 n in
    (s2, m, rw (e, e2) (ap some g), rw (f, f2) (ap some g2), h2)
