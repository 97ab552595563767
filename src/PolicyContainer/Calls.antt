-- ===== src/PolicyContainer/Calls.antt =====
-- Calls of class basic_value_container (include/kcenon/container/policy_container.h) as data, and their runs.
use container_system.Base.{ℕ, Bool, Option, none, some, List, [], ◌∷◌, Bytes, ◌>>=◌}
use container_system.Value.{OptimizedValue, ValueVariant, ValueTypes}
use container_system.Container.Results.{Result}
use container_system.Policy.{StoragePolicy}
use container_system.PolicyContainer.{
  PolicyContainer, set_source, set_target, set_message_type, swap_header, set, set_typed, set_all,
  set_result, get, get_typed, contains, remove, clear_value, get_batch, contains_batch,
  remove_batch, size, empty, range,
}

-- A public method with its arguments, and what it returns.
pub data Call : Type 0 where
  set_source_call : (id sub_id : Bytes) → Call
  set_target_call : (id sub_id : Bytes) → Call
  set_message_type_call : (message_type : Bytes) → Call
  swap_header_call : Call
  set_call : (val : OptimizedValue) → Call
  set_typed_call : (key : Bytes) (data_val : ValueVariant) → Call
  set_all_call : (vals : List OptimizedValue) → Call
  set_result_call : (key : Bytes) (data_val : ValueVariant) → Call
  get_call : (key : Bytes) → Call
  get_typed_call : (T : ValueTypes) (key : Bytes) → Call
  contains_call : (key : Bytes) → Call
  remove_call : (key : Bytes) → Call
  clear_value_call : Call
  get_batch_call : (keys : List Bytes) → Call
  contains_batch_call : (keys : List Bytes) → Call
  remove_batch_call : (keys : List Bytes) → Call
  size_call : Call
  empty_call : Call
  range_call : Call

pub data Answer : Type 0 where
  nothing : Answer
  flag : (b : Bool) → Answer
  number : (n : ℕ) → Answer
  found_value : (r : Option OptimizedValue) → Answer
  found_values : (rs : List (Option OptimizedValue)) → Answer
  flags : (bs : List Bool) → Answer
  iterated : (vs : List OptimizedValue) → Answer
  outcome : (r : Result (Unit {0})) → Answer
  typed : (r : Result ValueVariant) → Answer

abbrev pub answer {ℓ κ} :
    {C : Type ℓ} → {A : Type κ} → (A → Answer) → Option (C × A) → Option (C × Answer)
answer f none = none
answer f (some (c, a)) = some (c, f a)

abbrev pub no_answer : Unit {0} → Answer
no_answer u = nothing

module _ {S : Type 0} (P : StoragePolicy S) where
  abbrev C : Type 0
  C = PolicyContainer S

  unfoldable pub call : Call → C → Option (C × Answer)
  unfolding set set_typed set_all set_result get get_typed contains remove clear_value get_batch
      contains_batch remove_batch size empty range
  call (set_source_call id sub_id) c = some (set_source P id sub_id c, nothing)
  call (set_target_call id sub_id) c = some (set_target P id sub_id c, nothing)
  call (set_message_type_call message_type) c = some (set_message_type P message_type c, nothing)
  call swap_header_call c = some (swap_header P c, nothing)
  call (set_call val) c = answer no_answer (set P val c)
  call (set_typed_call key data_val) c = answer no_answer (set_typed P key data_val c)
  call (set_all_call vals) c = answer no_answer (set_all P vals c)
  call (set_result_call key data_val) c = answer outcome (set_result P key data_val c)
  call (get_call key) c = answer found_value (get P key c)
  call (get_typed_call T key) c = answer typed (get_typed P T key c)
  call (contains_call key) c = answer flag (contains P key c)
  call (remove_call key) c = answer flag (remove P key c)
  call clear_value_call c = answer no_answer (clear_value P c)
  call (get_batch_call keys) c = answer found_values (get_batch P keys c)
  call (contains_batch_call keys) c = answer flags (contains_batch P keys c)
  call (remove_batch_call keys) c = answer number (remove_batch P keys c)
  call size_call c = answer number (size P c)
  call empty_call c = answer flag (empty P c)
  call range_call c = answer iterated (range P c)

  -- The calls in turn, with their answers.
  unfoldable pub run : List Call → C → Option (C × List Answer)
  unfolding call
  run [] c = some (c, [])
  run (k ∷ ks) c = do r ← call k c; rest ← run ks r.0; some (rest.0, r.1 ∷ rest.1)
