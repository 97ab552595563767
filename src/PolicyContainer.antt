-- ===== src/PolicyContainer.antt =====
-- class basic_value_container of include/kcenon/container/policy_container.h, for any storage policy. A method that
-- takes the lock is one step. `none` stands for an access outside a vector of the policy; the references
-- that `data` and `storage` hand out are not modelled, nor are failures of allocation.
pub mod Follows
pub mod Calls
pub mod Refines
pub mod Keeps
pub mod Restricted
mod Examples
use container_system.Base.{
  ℕ, zero, suc, Bool, true, false, Option, none, some, List, [], ◌∷◌, Bytes, codes, ◌==◌, ◌>>=◌,
  if◌then◌else◌,
}
use container_system.ErrorCodes.{empty_key, key_not_found, type_mismatch}
use container_system.Value.{
  Header, ValueVariant, OptimizedValue, optimized_value, name_of, data_of, index, ValueTypes,
  type_code,
}
use container_system.Container.Results.{Result, ok, error, ErrorInfo, container_error}
use container_system.Policy.{StoragePolicy}

pub record PolicyContainer (S : Type 0) : Type 0 where
  pub storage : S
  pub header : Header

module _ {S : Type 0} (P : StoragePolicy S) where
  abbrev C : Type 0
  C = PolicyContainer S

  -- A method that hands the storage on, and one that only reads it.
  abbrev with_storage {ℓ} : {A : Type ℓ} → A → C → Option S → Option (C × A)
  with_storage a c none = none
  with_storage a c (some s) = some (record c { storage = s }, a)

  abbrev answered {ℓ} : {A : Type ℓ} → C → Option A → Option (C × A)
  answered c none = none
  answered c (some a) = some (c, a)

  abbrev pub new_policy_container : S → C
  new_policy_container s = record {
    storage = s;
    header = record {
      source_id = [];
      source_sub_id = [];
      target_id = [];
      target_sub_id = [];
      message_type = [];
      version = codes "1.0.0.0";
    };
  }

  abbrev pub set_source : Bytes → Bytes → C → C
  set_source id sub_id c = record c {
    header = record c.header { source_id = id; source_sub_id = sub_id };
  }

  abbrev pub set_target : Bytes → Bytes → C → C
  set_target id sub_id c = record c {
    header = record c.header { target_id = id; target_sub_id = sub_id };
  }

  abbrev pub set_message_type : Bytes → C → C
  set_message_type message_type c = record c {
    header = record c.header { message_type = message_type };
  }

  abbrev pub swap_header : C → C
  swap_header c = record c {
    header = record c.header {
      source_id = c.header.target_id;
      target_id = c.header.source_id;
      source_sub_id = c.header.target_sub_id;
      target_sub_id = c.header.source_sub_id;
    };
  }

  -- The setters. `set(key, value)` builds the value first.
  unfoldable pub set : OptimizedValue → C → Option (C × Unit {0})
  set val c = with_storage tt c (P.set (name_of val) val c.storage)

  unfoldable pub set_typed : Bytes → ValueVariant → C → Option (C × Unit {0})
  set_typed key data_val c =
      with_storage tt c (P.set key (optimized_value key (index data_val) data_val) c.storage)

  unfoldable pub set_each : List OptimizedValue → S → Option S
  set_each [] s = some s
  set_each (val ∷ vals) s = P.set (name_of val) val s >>= set_each vals

  -- Also both overloads of `bulk_insert`, which differ in what they reserve.
  unfoldable pub set_all : List OptimizedValue → C → Option (C × Unit {0})
  unfolding set_each
  set_all vals c = with_storage tt c (set_each vals c.storage)

  unfoldable pub set_result : Bytes → ValueVariant → C → Option (C × Result (Unit {0}))
  set_result [] data_val c = some (c, error (container_error empty_key []))
  set_result (b ∷ key) data_val c =
      with_storage (ok tt) c
        (P.set (b ∷ key) (optimized_value (b ∷ key) (index data_val) data_val) c.storage)

  unfoldable pub get : Bytes → C → Option (C × Option OptimizedValue)
  get key c = answered c (P.get key c.storage)

  -- `get<T>`, where `T` is the alternative of that type: the data, or what is wrong.
  abbrev pub typed_result : Bytes → ValueTypes → Option OptimizedValue → Result ValueVariant
  typed_result key T none = error (container_error key_not_found key)
  typed_result key T (some v) =
      if type_code (index (data_of v)) == type_code T
      then ok (data_of v)
      else error (container_error type_mismatch key)

  unfoldable pub get_typed : ValueTypes → Bytes → C → Option (C × Result ValueVariant)
  get_typed T key c = answered c (P.get key c.storage >>= λ r. some (typed_result key T r))

  unfoldable pub contains : Bytes → C → Option (C × Bool)
  contains key c = some (c, P.contains key c.storage)

  abbrev with_removed : C → Option (S × Bool) → Option (C × Bool)
  with_removed c none = none
  with_removed c (some (s, b)) = some (record c { storage = s }, b)

  unfoldable pub remove : Bytes → C → Option (C × Bool)
  remove key c = with_removed c (P.remove key c.storage)

  unfoldable pub clear_value : C → Option (C × Unit {0})
  clear_value c = some (record c { storage = P.clear c.storage }, tt)

  unfoldable pub get_each : List Bytes → S → Option (List (Option OptimizedValue))
  get_each [] s = some []
  get_each (key ∷ keys) s = do r ← P.get key s; rs ← get_each keys s; some (r ∷ rs)

  unfoldable pub get_batch : List Bytes → C → Option (C × List (Option OptimizedValue))
  unfolding get_each
  get_batch keys c = answered c (get_each keys c.storage)

  unfoldable pub contains_each : List Bytes → S → List Bool
  contains_each [] s = []
  contains_each (key ∷ keys) s = P.contains key s ∷ contains_each keys s

  unfoldable pub contains_batch : List Bytes → C → Option (C × List Bool)
  unfolding contains_each
  contains_batch keys c = some (c, contains_each keys c.storage)

  abbrev pub counted : Bool → S × ℕ → S × ℕ
  counted true (s, n) = (s, suc n)
  counted false (s, n) = (s, n)

  unfoldable pub remove_each : List Bytes → S → Option (S × ℕ)
  remove_each [] s = some (s, 0)
  remove_each (key ∷ keys) s = do
    r ← P.remove key s
    rest ← remove_each keys r.0
    some (counted r.1 rest)

  abbrev with_count : C → Option (S × ℕ) → Option (C × ℕ)
  with_count c none = none
  with_count c (some (s, n)) = some (record c { storage = s }, n)

  unfoldable pub remove_batch : List Bytes → C → Option (C × ℕ)
  unfolding remove_each
  remove_batch keys c = with_count c (remove_each keys c.storage)

  unfoldable pub size : C → Option (C × ℕ)
  size c = some (c, P.size c.storage)

  unfoldable pub empty : C → Option (C × Bool)
  empty c = some (c, P.empty c.storage)

  -- What an iteration from `begin` to `end` meets.
  unfoldable pub range : C → Option (C × List OptimizedValue)
  range c = some (c, P.range c.storage)
