-- ===== src/Policy/Simulation.antt =====
-- The index of class indexed_storage_policy and the search of class dynamic_storage_policy
-- (include/kcenon/container/storage_policy.h).
use container_system.Base.{
  ℕ, ◌≡◌, refl, sym, ap, ◌∙◌, Bool, true, false, Option, none, some, List, [], ◌∷◌, ◌++◌, Bytes,
  length, arith,
}
use container_system.Assoc.{find, assign_key, erase_key, find-assign_key, find-erase_key}
use container_system.Value.{OptimizedValue, name_of}
use container_system.Policy.{find_by_key, set_found, remove_found}
use container_system.Policy.Positions.{
  Distinct, assign-find_by_key, append-find_by_key, append-Distinct, shifted, erase-find_by_key,
}
use container_system.Policy.Indexed.{
  Index, shift_after, IndexedStorage, set_at_index, remove_at_index,
}

find-shift_after :
    (i : ℕ) (idx : Index) (j : Bytes) → find j (shift_after i idx) ≡ shifted i (find j idx)
unfolding find shift_after
find-shift_after i [] j = refl
find-shift_after i ((k, q) ∷ idx) j = ground (arith, find-shift_after i idx j)

-- The index finds every key where the search does, and no name stands twice.
pub record IsIndexed (s : IndexedStorage) : Type 0 where
  pub found : (key : Bytes) → find key s.index ≡ find_by_key key s.values
  pub distinct : Distinct s.values

-- What the dynamic policy does to the values, the indexed one does, and is indexed again.
abbrev pub Follows : Option IndexedStorage → Option (List OptimizedValue) → Type 0
Follows r d = (s : IndexedStorage) × (r ≡ some s) × (d ≡ some s.values) × IsIndexed s

module _ (s : IndexedStorage) (h : IsIndexed s) where
  set-found :
      (value : OptimizedValue) (o : Option ℕ)
      → find (name_of value) s.index ≡ o
      → find_by_key (name_of value) s.values ≡ o
      → Follows (set_at_index (name_of value) value s o) (set_found value s.values o)
  set-found value none e f = (
    record {
      values = s.values ++ (value ∷ []);
      index = assign_key (name_of value) (length s.values) s.index;
    },
    refl,
    refl,
    record {
      found = λ j.
          find-assign_key (name_of value) (length s.values) s.index j
          ∙ (rw (h.found j) refl ∙ sym (append-find_by_key value s.values j f));
      distinct = append-Distinct value s.values f h.distinct;
    },
  )
  set-found value (some i) e f =
      let (values', a, same, keeps) = assign-find_by_key (name_of value) value s.values i refl f in
      (
        record { values = values'; index = s.index },
        rw a refl,
        a,
        record { found = λ j. h.found j ∙ sym (same j); distinct = keeps h.distinct },
      )

  pub set-Follows :
      (value : OptimizedValue)
      → Follows
          (set_at_index (name_of value) value s (find (name_of value) s.index))
          (set_found value s.values (find_by_key (name_of value) s.values))
  set-Follows value =
      rw (h.found (name_of value))
        (set-found value (find_by_key (name_of value) s.values) (h.found (name_of value)) refl)

  -- The same for a removal, which also tells whether the key was there.
  abbrev pub Removes : Option (IndexedStorage × Bool) → Option (List OptimizedValue × Bool) → Type 0
  Removes r d =
      (s' : IndexedStorage) × (b : Bool) × (r ≡ some (s', b))
      × (d ≡ some (s'.values, b))
      × IsIndexed s'

  remove-found :
      (key : Bytes) (o : Option ℕ)
      → find_by_key key s.values ≡ o
      → Removes (remove_at_index key s o) (remove_found s.values o)
  remove-found key none f = (s, false, refl, refl, h)
  remove-found key (some i) f =
      let (values', a, moved, distinct) = erase-find_by_key key s.values i h.distinct f in
      let idx' = shift_after i (erase_key key s.index) in
      (
        record { values = values'; index = idx' },
        true,
        rw a refl,
        rw a refl,
        record {
          found = λ j.
              find-shift_after i (erase_key key s.index) j
              ∙ (ap (shifted i) (find-erase_key key s.index j)
                  ∙ (rw (h.found j, moved j) (ground arith)));
          distinct = distinct;
        },
      )

  pub remove-Removes :
      (key : Bytes)
      → Removes
          (remove_at_index key s (find key s.index))
          (remove_found s.values (find_by_key key s.values))
  remove-Removes key = rw (h.found key) (remove-found key (find_by_key key s.values) refl)
