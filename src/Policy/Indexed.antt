-- ===== src/Policy/Indexed.antt =====
-- class indexed_storage_policy of include/kcenon/container/storage_policy.h. `std::unordered_map` is a list of
-- its entries, which has at most one for a key; no method here depends on their order.
use container_system.Base.{
  ℕ, suc, ◌-◌, Bool, true, false, Option, none, some, List, [], ◌∷◌, ◌++◌, Bytes, length, ltb, ◌==◌,
  if◌then◌else◌,
}
use container_system.Assoc.{find, assign_key, erase_key}
use container_system.Value.{OptimizedValue, name_of}
use container_system.Policy.{StoragePolicy, assign, erase, get_found, is_found}

abbrev pub Index : Type 0
Index = List (Bytes × ℕ)

pub record IndexedStorage : Type 0 where
  pub values : List OptimizedValue
  pub index : Index

abbrev pub new_storage : IndexedStorage
new_storage = record { values = []; index = [] }

abbrev pub with_values : Index → Option (List OptimizedValue) → Option IndexedStorage
with_values idx none = none
with_values idx (some vs) = some (record { values = vs; index = idx })

abbrev pub set_at_index : Bytes → OptimizedValue → IndexedStorage → Option ℕ → Option IndexedStorage
set_at_index key value s (some p) = with_values s.index (assign p value s.values)
set_at_index key value s none =
    some (record {
      values = s.values ++ (value ∷ []);
      index = assign_key key (length s.values) s.index;
    })

-- `if (v > idx) --v` on every entry
unfoldable pub shift_after : ℕ → Index → Index
shift_after idx [] = []
shift_after idx ((k, p) ∷ entries) = (k, if ltb idx p then p - 1 else p) ∷ shift_after idx entries

abbrev pub with_removed : IndexedStorage → Option IndexedStorage → Option (IndexedStorage × Bool)
with_removed s none = none
with_removed s (some s') = some (s', true)

abbrev pub remove_at_index : Bytes → IndexedStorage → Option ℕ → Option (IndexedStorage × Bool)
remove_at_index key s none = some (s, false)
remove_at_index key s (some idx) =
    with_removed s (with_values (shift_after idx (erase_key key s.index)) (erase idx s.values))

unfoldable pub indexed_storage_policy : StoragePolicy IndexedStorage
indexed_storage_policy = record {
  set = λ key value s. set_at_index key value s (find key s.index);
  get = λ key s. get_found s.values (find key s.index);
  contains = λ key s. is_found (find key s.index);
  remove = λ key s. remove_at_index key s (find key s.index);
  clear = λ s. new_storage;
  range = λ s. s.values;
  size = λ s. length s.values;
  empty = λ s. length s.values == 0;
}

-- The loop of `rebuild_index` from the position `i` on.
unfoldable pub index_from : ℕ → List OptimizedValue → Index → Index
index_from i [] idx = idx
index_from i (v ∷ vs) idx = index_from (suc i) vs (assign_key (name_of v) i idx)

unfoldable pub rebuild_index : IndexedStorage → IndexedStorage
unfolding index_from
rebuild_index s = record s { index = index_from 0 s.values [] }
