-- ===== src/PolicyContainer/Refines.antt =====
-- Calls of class basic_value_container (include/kcenon/container/policy_container.h) over the indexed storage policy,
-- against the same calls over the dynamic one, whose state is the list of values alone.
use container_system.Base.{◌≡◌, refl, sym, ap, Option, some, List, [], ◌∷◌, Bytes, length, ◌==◌}
use container_system.Value.{OptimizedValue, optimized_value, ValueVariant, ValueTypes, index}
use container_system.Container.Results.{ok, error, container_error}
use container_system.ErrorCodes.{empty_key}
use container_system.Policy.{dynamic_storage_policy, find_by_key}
use container_system.Assoc.{find}
use container_system.Policy.Indexed.{IndexedStorage, new_storage, indexed_storage_policy}
use container_system.Policy.Simulation.{IsIndexed}
use container_system.PolicyContainer.{
  PolicyContainer, new_policy_container, set_source, set_target, set_message_type, swap_header, set,
  set_typed, set_all, set_result, get, get_typed, typed_result, contains, remove, clear_value,
  get_batch, contains_each, contains_batch, remove_batch, size, empty, range,
}
use container_system.PolicyContainer.Follows.{
  indexed, dynamic, dynamic_of, Both, policy-get, policy-contains, get_each-both,
  contains_each-both, policy-set, policy-remove, set_each-Follows, remove_each-both,
}
use container_system.PolicyContainer.Calls.{
  Call, set_source_call, set_target_call, set_message_type_call, swap_header_call, set_call,
  set_typed_call, set_all_call, set_result_call, get_call, get_typed_call, contains_call,
  remove_call, clear_value_call, get_batch_call, contains_batch_call, remove_batch_call, size_call,
  empty_call, range_call, Answer, nothing, flag, number, found_value, found_values, flags, iterated,
  outcome, typed, answer, no_answer, call, run,
}

new_storage-IsIndexed : IsIndexed new_storage
unfolding find find_by_key
new_storage-IsIndexed = record { found = λ key. refl; distinct = tt }

-- The two containers give the same answer to a call, and neither fails.
module _ (c : PolicyContainer IndexedStorage) (h : IsIndexed c.storage) where
  abbrev s : IndexedStorage
  s = c.storage

  set-Both : (val : OptimizedValue) → Both (set indexed val c) (set dynamic val (dynamic_of c))
  unfolding set
  set-Both val =
      let (t, e, f, g) = policy-set s h val in
      (record c { storage = t }, tt, rw e refl, rw f refl, g)

  set_typed-Both :
      (key : Bytes) (data_val : ValueVariant)
      → Both (set_typed indexed key data_val c) (set_typed dynamic key data_val (dynamic_of c))
  unfolding set_typed
  set_typed-Both key data_val =
      let (t, e, f, g) = policy-set s h (optimized_value key (index data_val) data_val) in
      (record c { storage = t }, tt, rw e refl, rw f refl, g)

  set_all-Both :
      (vals : List OptimizedValue)
      → Both (set_all indexed vals c) (set_all dynamic vals (dynamic_of c))
  unfolding set_all
  set_all-Both vals =
      let (t, e, f, g) = set_each-Follows vals s h in
      (record c { storage = t }, tt, rw e refl, rw f refl, g)

  set_result-Both :
      (key : Bytes) (data_val : ValueVariant)
      → Both (set_result indexed key data_val c) (set_result dynamic key data_val (dynamic_of c))
  unfolding set_result
  set_result-Both [] data_val = (c, error (container_error empty_key []), refl, refl, h)
  set_result-Both (b ∷ key) data_val =
      let (t, e, f, g) = policy-set s h (optimized_value (b ∷ key) (index data_val) data_val) in
      (record c { storage = t }, ok tt, rw e refl, rw f refl, g)

  get-Both : (key : Bytes) → Both (get indexed key c) (get dynamic key (dynamic_of c))
  unfolding get
  get-Both key = let (r, e, f) = policy-get s h key in (c, r, rw e refl, rw f refl, h)

  get_typed-Both :
      (T : ValueTypes) (key : Bytes)
      → Both (get_typed indexed T key c) (get_typed dynamic T key (dynamic_of c))
  unfolding get_typed
  get_typed-Both T key =
      let (r, e, f) = policy-get s h key in
      (c, typed_result indexed key T r, rw e refl, rw f refl, h)

  get_batch-Both :
      (keys : List Bytes) → Both (get_batch indexed keys c) (get_batch dynamic keys (dynamic_of c))
  unfolding get_batch
  get_batch-Both keys = let (rs, e, f) = get_each-both s h keys in (c, rs, rw e refl, rw f refl, h)

  remove-Both : (key : Bytes) → Both (remove indexed key c) (remove dynamic key (dynamic_of c))
  unfolding remove
  remove-Both key =
      let (t, b, e, f, g) = policy-remove s h key in
      (record c { storage = t }, b, rw e refl, rw f refl, g)

  remove_batch-Both :
      (keys : List Bytes)
      → Both (remove_batch indexed keys c) (remove_batch dynamic keys (dynamic_of c))
  unfolding remove_batch
  remove_batch-Both keys =
      let (t, n, e, f, g) = remove_each-both keys s h in
      (record c { storage = t }, n, rw e refl, rw f refl, g)

  answer-Both :
      {A : Type 0} (f : A → Answer) {x : Option (PolicyContainer IndexedStorage × A)}
      {y : Option (PolicyContainer (List OptimizedValue) × A)}
      → Both x y
      → Both (answer f x) (answer f y)
  answer-Both f (d, a, e, e2, g) = (d, f a, rw e refl, rw e2 refl, g)

  call-Both : (k : Call) → Both (call indexed k c) (call dynamic k (dynamic_of c))
  unfolding call clear_value contains contains_batch size empty range indexed_storage_policy
      dynamic_storage_policy
  call-Both (set_source_call id sub_id) = (set_source indexed id sub_id c, nothing, refl, refl, h)
  call-Both (set_target_call id sub_id) = (set_target indexed id sub_id c, nothing, refl, refl, h)
  call-Both (set_message_type_call m) = (set_message_type indexed m c, nothing, refl, refl, h)
  call-Both swap_header_call = (swap_header indexed c, nothing, refl, refl, h)
  call-Both (set_call val) = answer-Both no_answer (set-Both val)
  call-Both (set_typed_call key data_val) = answer-Both no_answer (set_typed-Both key data_val)
  call-Both (set_all_call vals) = answer-Both no_answer (set_all-Both vals)
  call-Both (set_result_call key data_val) = answer-Both outcome (set_result-Both key data_val)
  call-Both (get_call key) = answer-Both found_value (get-Both key)
  call-Both (get_typed_call T key) = answer-Both typed (get_typed-Both T key)
  call-Both (contains_call key) = (
    c,
    flag (indexed.contains key s),
    refl,
    ap (λ b. some (dynamic_of c, flag b)) (sym (policy-contains s h key)),
    h,
  )
  call-Both (remove_call key) = answer-Both flag (remove-Both key)
  call-Both clear_value_call =
      (record c { storage = new_storage }, nothing, refl, refl, new_storage-IsIndexed)
  call-Both (get_batch_call keys) = answer-Both found_values (get_batch-Both keys)
  call-Both (contains_batch_call keys) = (
    c,
    flags (contains_each indexed keys s),
    refl,
    ap (λ bs. some (dynamic_of c, flags bs)) (sym (contains_each-both s h keys)),
    h,
  )
  call-Both (remove_batch_call keys) = answer-Both number (remove_batch-Both keys)
  call-Both size_call = (c, number (length s.values), refl, refl, h)
  call-Both empty_call = (c, flag (length s.values == 0), refl, refl, h)
  call-Both range_call = (c, iterated s.values, refl, refl, h)

abbrev pub indexed_new : PolicyContainer IndexedStorage
indexed_new = new_policy_container indexed new_storage

abbrev pub dynamic_new : PolicyContainer (List OptimizedValue)
dynamic_new = new_policy_container dynamic []

run-Both :
    (ks : List Call) (c : PolicyContainer IndexedStorage)
    → IsIndexed c.storage
    → Both (run indexed ks c) (run dynamic ks (dynamic_of c))
unfolding run
run-Both [] c h = (c, [], refl, refl, h)
run-Both (k ∷ ks) c h =
    let (c1, a, e, f, h1) = call-Both c h k in
    let (c2, rest, e2, f2, h2) = run-Both ks c1 h1 in
    (c2, a ∷ rest, rw (e, e2) refl, rw (f, f2) refl, h2)

-- Whatever public methods are called on a new container, the container over `indexed_storage_policy` and the one over
-- `dynamic_storage_policy` both return from all of them, with the same answers and at the end
-- the same header and the same values in the same order; the index then finds each key exactly where
-- the search through the values does, and no two values have one name.
pub run-refines :
    (ks : List Call)
    → (c : PolicyContainer IndexedStorage) × (answers : List Answer) × (run indexed ks indexed_new
        ≡ some (c, answers))
      × (run dynamic ks dynamic_new ≡ some (dynamic_of c, answers))
      × IsIndexed c.storage
run-refines ks = run-Both ks indexed_new new_storage-IsIndexed
