-- ===== src/PolicyContainer/Keeps.antt =====
-- An invariant of a storage policy under the methods of class basic_value_container
-- (include/kcenon/container/policy_container.h).
use container_system.Base.{
  ℕ, suc, ◌≡◌, refl, ap, Bool, true, false, Option, some, List, [], ◌∷◌, Bytes,
}
use container_system.ErrorCodes.{empty_key}
use container_system.Value.{OptimizedValue, optimized_value, name_of, ValueVariant, index}
use container_system.Container.Results.{ok, error, container_error}
use container_system.Policy.{StoragePolicy}
use container_system.PolicyContainer.{
  PolicyContainer, set_source, set_target, set_message_type, swap_header, set, set_typed, set_all,
  set_each, set_result, get, get_typed, typed_result, contains, remove, clear_value, get_each,
  get_batch, contains_each, contains_batch, counted, remove_each, remove_batch, size, empty, range,
}
use container_system.PolicyContainer.Calls.{
  Call, set_source_call, set_target_call, set_message_type_call, swap_header_call, set_call,
  set_typed_call, set_all_call, set_result_call, get_call, get_typed_call, contains_call,
  remove_call, clear_value_call, get_batch_call, contains_batch_call, remove_batch_call, size_call,
  empty_call, range_call, Answer, nothing, flag, number, found_value, found_values, flags, iterated,
  outcome, typed, answer, call, run,
}

-- The operations of the policy return and keep `I`.
module _ {S : Type 0} (P : StoragePolicy S) (I : S → Type 0)
    (set-keeps : (s : S) (v : OptimizedValue)
      → I s
      → (s' : S) × (P.set (name_of v) v s ≡ some s') × I s')
    (get-returns : (s : S) (key : Bytes)
      → I s
      → (r : Option OptimizedValue) × (P.get key s ≡ some r))
    (remove-keeps : (s : S) (key : Bytes)
      → I s
      → (s' : S) × (b : Bool) × (P.remove key s ≡ some (s', b)) × I s')
    (clear-keeps : (s : S) → I s → I (P.clear s)) where
  abbrev C : Type 0
  C = PolicyContainer S

  abbrev Keeps {ℓ} : {A : Type ℓ} → Option (C × A) → Type ℓ
  Keeps {A = A} x = (c : C) × (a : A) × (x ≡ some (c, a)) × I c.storage

  answer-Keeps : {A : Type 0} (f : A → Answer) {x : Option (C × A)} → Keeps x → Keeps (answer f x)
  answer-Keeps f (c, a, e, i) = (c, f a, rw e refl, i)

  set_each-keeps :
      (vals : List OptimizedValue) (s : S) → I s → (s' : S) × (set_each P vals s ≡ some s') × I s'
  unfolding set_each
  set_each-keeps [] s i = (s, refl, i)
  set_each-keeps (v ∷ vals) s i =
      let (s1, e, i1) = set-keeps s v i in
      let (s2, e2, i2) = set_each-keeps vals s1 i1 in (s2, rw e e2, i2)

  get_each-returns :
      (keys : List Bytes) (s : S)
      → I s
      → (rs : List (Option OptimizedValue)) × (get_each P keys s ≡ some rs)
  unfolding get_each
  get_each-returns [] s i = ([], refl)
  get_each-returns (key ∷ keys) s i =
      let (r, e) = get-returns s key i in
      let (rs, e2) = get_each-returns keys s i in (r ∷ rs, rw (e, e2) refl)

  counted-state : (b : Bool) (s : S) (n : ℕ) → (m : ℕ) × (counted P b (s, n) ≡ (s, m))
  counted-state true s n = (suc n, refl)
  counted-state false s n = (n, refl)

  remove_each-keeps :
      (keys : List Bytes) (s : S)
      → I s
      → (s' : S) × (n : ℕ) × (remove_each P keys s ≡ some (s', n)) × I s'
  unfolding remove_each
  remove_each-keeps [] s i = (s, 0, refl, i)
  remove_each-keeps (key ∷ keys) s i =
      let (s1, b, e, i1) = remove-keeps s key i in
      let (s2, n, e2, i2) = remove_each-keeps keys s1 i1 in
      let (m, g) = counted-state b s2 n in (s2, m, rw (e, e2) (ap some g), i2)

  module _ (c : C) (i : I c.storage) where
    abbrev s : S
    s = c.storage

    set_result-Keeps : (key : Bytes) (d : ValueVariant) → Keeps (set_result P key d c)
    unfolding set_result
    set_result-Keeps [] d = (c, error (container_error empty_key []), refl, i)
    set_result-Keeps (b ∷ key) d =
        let (t, e, j) = set-keeps s (optimized_value (b ∷ key) (index d) d) i in
        (record c { storage = t }, ok tt, rw e refl, j)

    call-Keeps : (k : Call) → Keeps (call P k c)
    unfolding call set set_typed set_all get get_typed contains remove clear_value get_batch
        contains_batch remove_batch size empty range
    call-Keeps (set_source_call id sub_id) = (set_source P id sub_id c, nothing, refl, i)
    call-Keeps (set_target_call id sub_id) = (set_target P id sub_id c, nothing, refl, i)
    call-Keeps (set_message_type_call m) = (set_message_type P m c, nothing, refl, i)
    call-Keeps swap_header_call = (swap_header P c, nothing, refl, i)
    call-Keeps (set_call v) =
        let (t, e, j) = set-keeps s v i in (record c { storage = t }, nothing, rw e refl, j)
    call-Keeps (set_typed_call key d) =
        let (t, e, j) = set-keeps s (optimized_value key (index d) d) i in
        (record c { storage = t }, nothing, rw e refl, j)
    call-Keeps (set_all_call vals) =
        let (t, e, j) = set_each-keeps vals s i in (record c { storage = t }, nothing, rw e refl, j)
    call-Keeps (set_result_call key d) = answer-Keeps outcome (set_result-Keeps key d)
    call-Keeps (get_call key) = let (r, e) = get-returns s key i in (c, found_value r, rw e refl, i)
    call-Keeps (get_typed_call T key) =
        let (r, e) = get-returns s key i in (c, typed (typed_result P key T r), rw e refl, i)
    call-Keeps (contains_call key) = (c, flag (P.contains key s), refl, i)
    call-Keeps (remove_call key) =
        let (t, b, e, j) = remove-keeps s key i in (record c { storage = t }, flag b, rw e refl, j)
    call-Keeps clear_value_call = (record c { storage = P.clear s }, nothing, refl, clear-keeps s i)
    call-Keeps (get_batch_call keys) =
        let (rs, e) = get_each-returns keys s i in (c, found_values rs, rw e refl, i)
    call-Keeps (contains_batch_call keys) = (c, flags (contains_each P keys s), refl, i)
    call-Keeps (remove_batch_call keys) =
        let (t, n, e, j) = remove_each-keeps keys s i in
        (record c { storage = t }, number n, rw e refl, j)
    call-Keeps size_call = (c, number (P.size s), refl, i)
    call-Keeps empty_call = (c, flag (P.empty s), refl, i)
    call-Keeps range_call = (c, iterated (P.range s), refl, i)

  pub run-Keeps : (ks : List Call) (c : C) → I c.storage → Keeps (run P ks c)
  unfolding run
  run-Keeps [] c i = (c, [], refl, i)
  run-Keeps (k ∷ ks) c i =
      let (c1, a, e, i1) = call-Keeps c i k in
      let (c2, rest, e2, i2) = run-Keeps ks c1 i1 in (c2, a ∷ rest, rw (e, e2) refl, i2)
