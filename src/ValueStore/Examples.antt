-- ===== src/ValueStore/Examples.antt =====
-- Runs of class value_store (core/value_store.cpp) on concrete values.
use container_system.Base.{◌≡◌, refl, ◌===◌, some, [], ◌∷◌, Bytes, codes, arith}
use container_system.Assoc.{find}
use container_system.ValueStore.{
  Codec, ValueStore, loaded, thrown, truncated_value, get, serialize, serialize_binary,
  deserialize_binary, uint32_of,
}
use container_system.ValueStore.RoundTrip.{DistinctKeys, deserialize_binary-serialize_binary}

-- Values that are their own binary form.
abbrev texts : Codec Bytes
texts = record { serialize = λ v. v; deserialize = λ v. some v; to_json = λ v. v }

abbrev sample_store : ValueStore Bytes
sample_store = record {
  values = (codes "a", codes "xy") ∷ (codes "b", []) ∷ [];
  read_count = 0;
  write_count = 2;
}

-- A byte of the value is missing.
truncated :
    deserialize_binary texts (1 ∷ 1 ∷ 0 ∷ 0 ∷ 0 ∷ 1 ∷ 0 ∷ 0 ∷ 0 ∷ 97 ∷ 2 ∷ 0 ∷ 0 ∷ 0 ∷ 120 ∷ [])
    ≡ thrown truncated_value
unfolding deserialize_binary uint32_of
truncated = refl

sample_text : (serialize texts sample_store).1 ≡ codes "{\"a\":xy,\"b\":}"
unfolding serialize
sample_text = refl

sample-DistinctKeys : DistinctKeys texts sample_store.values
unfolding find ◌===◌
sample-DistinctKeys = (refl, (refl, tt))

deserialize_binary-serialize_binary_example :
    (t : ValueStore Bytes) × (deserialize_binary texts (serialize_binary texts sample_store).1
      ≡ loaded t)
    × ((key : Bytes) → (get key t).1 ≡ (get key sample_store).1)
deserialize_binary-serialize_binary_example =
    deserialize_binary-serialize_binary texts sample_store sample-DistinctKeys (omega arith)
      ((omega arith, omega arith, refl), ((omega arith, omega arith, refl), tt))
