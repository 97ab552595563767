-- ===== src/PolicyContainer/Restricted.antt =====
-- Class basic_value_container (include/kcenon/container/policy_container.h) over the storage policy
-- static_storage_policy (include/kcenon/container/storage_policy.h).
use container_system.Base.{
  ℕ, zero, suc, ◌≡◌, refl, Bool, true, false, Option, none, some, Option-cases, Bool-cases, inl,
  inr, List, [], ◌∷◌, ◌++◌, Bytes, arith,
}
use container_system.Value.{OptimizedValue, name_of, data_of, ValueTypes}
use container_system.Policy.{StoragePolicy, find_by_key, assign, erase, set_found}
use container_system.Policy.Positions.{find_by_key-get_elem?}
use container_system.Policy.Restricted.{is_variant_type_allowed, static_storage_policy}
use container_system.PolicyContainer.{PolicyContainer, new_policy_container}
use container_system.PolicyContainer.Calls.{Call, Answer, run}
use container_system.PolicyContainer.Keeps.{run-Keeps}

module _ (Ts : List ValueTypes) where
  -- Every value holds data of an allowed type.
  abbrev pub Allowed : List OptimizedValue → Type 0
  Allowed [] = Unit
  Allowed (v ∷ values) = (is_variant_type_allowed Ts (data_of v) ≡ true) × Allowed values

  append-Allowed :
      (values : List OptimizedValue) (v : OptimizedValue)
      → is_variant_type_allowed Ts (data_of v) ≡ true
      → Allowed values
      → Allowed (values ++ (v ∷ []))
  append-Allowed [] v a i = (a, tt)
  append-Allowed (w ∷ values) v a (b, i) = (b, append-Allowed values v a i)

  -- A position that was found can be assigned to and erased.
  assign-Allowed :
      (values : List OptimizedValue) (v : OptimizedValue) (key : Bytes) (p : ℕ)
      → find_by_key key values ≡ some p
      → is_variant_type_allowed Ts (data_of v) ≡ true
      → Allowed values
      → (values' : List OptimizedValue) × (assign p v values ≡ some values') × Allowed values'
  unfolding find_by_key assign
  assign-Allowed [] v key p e a i = cc
  assign-Allowed (w ∷ values) v key zero e a (b, i) = (v ∷ values, refl, (a, i))
  assign-Allowed (w ∷ values) v key (suc p) e a (b, i) =
      let (values', f, j) = assign-Allowed values v key p (ground arith) a i in
      (w ∷ values', rw f refl, (b, j))

  erase-Allowed :
      (values : List OptimizedValue) (key : Bytes) (p : ℕ)
      → find_by_key key values ≡ some p
      → Allowed values
      → (values' : List OptimizedValue) × (erase p values ≡ some values') × Allowed values'
  unfolding find_by_key erase
  erase-Allowed [] key p e i = cc
  erase-Allowed (w ∷ values) key zero e (b, i) = (values, refl, i)
  erase-Allowed (w ∷ values) key (suc p) e (b, i) =
      let (values', f, j) = erase-Allowed values key p (ground arith) i in
      (w ∷ values', rw f refl, (b, j))

  abbrev P : StoragePolicy (List OptimizedValue)
  P = static_storage_policy Ts

  abbrev Kept : Option (List OptimizedValue) → Type 0
  Kept r = (values : List OptimizedValue) × (r ≡ some values) × Allowed values

  set_found-Allowed :
      (values : List OptimizedValue) (v : OptimizedValue)
      → is_variant_type_allowed Ts (data_of v) ≡ true
      → Allowed values
      → Kept (set_found v values (find_by_key (name_of v) values))
  set_found-Allowed values v a i = elim (Option-cases (find_by_key (name_of v) values)) [
    | inl e ↦ (values ++ (v ∷ []), rw e refl, append-Allowed values v a i)
    | inr (p, e) ↦
        let (values', f, j) = assign-Allowed values v (name_of v) p e a i in
        (values', rw (e, f) refl, j)
  ]

  set-keeps :
      (values : List OptimizedValue) (v : OptimizedValue)
      → Allowed values
      → Kept (P.set (name_of v) v values)
  unfolding static_storage_policy
  set-keeps values v i = elim (Bool-cases (is_variant_type_allowed Ts (data_of v))) [
    | inl a ↦ rw a (set_found-Allowed values v a i)
    | inr a ↦ (values, rw a refl, i)
  ]

  get-returns :
      (values : List OptimizedValue) (key : Bytes)
      → Allowed values
      → (r : Option OptimizedValue) × (P.get key values ≡ some r)
  unfolding static_storage_policy
  get-returns values key i = elim (Option-cases (find_by_key key values)) [
    | inl e ↦ (none, rw e refl)
    | inr (p, e) ↦ let (v, f, n) = find_by_key-get_elem? key values p e in (some v, rw (e, f) refl)
  ]

  remove-keeps :
      (values : List OptimizedValue) (key : Bytes)
      → Allowed values
      → (values' : List OptimizedValue) × (b : Bool) × (P.remove key values ≡ some (values', b))
        × Allowed values'
  unfolding static_storage_policy
  remove-keeps values key i = elim (Option-cases (find_by_key key values)) [
    | inl e ↦ (values, false, rw e refl, i)
    | inr (p, e) ↦
        let (values', f, j) = erase-Allowed values key p e i in (values', true, rw (e, f) refl, j)
  ]

  clear-keeps : (values : List OptimizedValue) → Allowed values → Allowed (P.clear values)
  unfolding static_storage_policy
  clear-keeps values i = tt

  -- Whatever public methods are called on a new container over `static_storage_policy<Ts...>`, with values of any
  -- type, all of them return, and every value that the container then holds has data of one of the types `Ts`.
  pub run-Allowed :
      (ks : List Call)
      → (c : PolicyContainer (List OptimizedValue)) × (answers : List Answer) × (run
            (static_storage_policy Ts)
            ks
            (new_policy_container (static_storage_policy Ts) [])
          ≡ some (c, answers))
        × Allowed c.storage
  run-Allowed ks =
      run-Keeps P Allowed set-keeps get-returns remove-keeps clear-keeps ks
        (new_policy_container P []) tt
