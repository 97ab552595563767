-- ===== src/ThreadSafe.antt =====
-- class thread_safe_container (internal/thread_safe_container.cpp), for any type of values. Every method takes
-- the lock and is one step, so that the calls of several threads are a sequence of steps. The map is the list
-- of its entries in the order of its iteration.
pub mod Exchange
use container_system.Base.{
  ℕ, zero, suc, ◌+◌, ◌%◌, ◌^◌, Bool, true, false, Option, none, some, List, [], ◌∷◌, ◌++◌, Bytes,
  length, take, drop, map, ltb, ◌==◌, if◌then◌else◌,
}
use container_system.Assoc.{find, assign_key, erase_key}
use container_system.ValueStore.{bytes_of_uint32, uint32_of}

-- What the container uses of class value: its name, a value of that name with no data, `==`, and the binary form.
pub record ValueInterface (V : Type 0) : Type 0 where
  pub name : V → Bytes
  pub named : Bytes → V
  pub equal : V → V → Bool
  pub serialize : V → Bytes
  pub deserialize : Bytes → Option V

pub record ThreadSafeContainer (V : Type 0) : Type 0 where
  pub values : List (Bytes × V)
  pub read_count : ℕ
  pub write_count : ℕ
  pub bulk_read_count : ℕ
  pub bulk_write_count : ℕ

pub record ContainerStatistics : Type 0 where
  pub read_count : ℕ
  pub write_count : ℕ
  pub bulk_read_count : ℕ
  pub bulk_write_count : ℕ
  pub size : ℕ

abbrev next : ℕ → ℕ
next n = (n + 1) % 2 ^ 64

module _ {V : Type 0} where
  unfoldable pub new_thread_safe_container : ThreadSafeContainer V
  new_thread_safe_container = record {
    values = [];
    read_count = 0;
    write_count = 0;
    bulk_read_count = 0;
    bulk_write_count = 0;
  }

  abbrev reads : ThreadSafeContainer V → ThreadSafeContainer V
  reads c = record c { read_count = next c.read_count }

  abbrev writes : ThreadSafeContainer V → ThreadSafeContainer V
  writes c = record c { write_count = next c.write_count }

  -- Also `get_variant`.
  unfoldable pub get : Bytes → ThreadSafeContainer V → ThreadSafeContainer V × Option V
  get key c = (reads c, find key c.values)

  unfoldable pub set : Bytes → V → ThreadSafeContainer V → ThreadSafeContainer V
  set key value c = record (writes c) { values = assign_key key value c.values }

  abbrev removed : Bytes → ThreadSafeContainer V → Option V → ThreadSafeContainer V × Bool
  removed key c none = (c, false)
  removed key c (some v) = (record c { values = erase_key key c.values }, true)

  unfoldable pub remove : Bytes → ThreadSafeContainer V → ThreadSafeContainer V × Bool
  remove key c = removed key (writes c) (find key c.values)

  unfoldable pub clear : ThreadSafeContainer V → ThreadSafeContainer V
  clear c = record (writes c) { values = [] }

  unfoldable pub size : ThreadSafeContainer V → ℕ
  size c = length c.values

  unfoldable pub empty : ThreadSafeContainer V → Bool
  empty c = length c.values == 0

  abbrev is_some : Option V → Bool
  is_some none = false
  is_some (some v) = true

  unfoldable pub contains : Bytes → ThreadSafeContainer V → ThreadSafeContainer V × Bool
  contains key c = (reads c, is_some (find key c.values))

  abbrev key_of : Bytes × V → Bytes
  key_of (key, v) = key

  unfoldable pub keys : ThreadSafeContainer V → ThreadSafeContainer V × List Bytes
  keys c = (reads c, map key_of c.values)

  unfoldable pub get_statistics : ThreadSafeContainer V → ContainerStatistics
  get_statistics c = record {
    read_count = c.read_count;
    write_count = c.write_count;
    bulk_read_count = c.bulk_read_count;
    bulk_write_count = c.bulk_write_count;
    size = length c.values;
  }

  module _ (value : ValueInterface V) where
    unfoldable pub set_variant : V → ThreadSafeContainer V → ThreadSafeContainer V
    set_variant val c = record (writes c) { values = assign_key (value.name val) val c.values }

    abbrev pub exchanged :
        Bytes → V → V → ThreadSafeContainer V → Option V → ThreadSafeContainer V × Bool
    exchanged key expected desired c none = (c, false)
    exchanged key expected desired c (some v) =
        if value.equal v expected
        then (record c { values = assign_key key desired c.values }, true)
        else (c, false)

    unfoldable pub compare_exchange :
        Bytes → V → V → ThreadSafeContainer V → ThreadSafeContainer V × Bool
    compare_exchange key expected desired c =
        exchanged key expected desired (writes c) (find key c.values)

    abbrev entry_at : Bytes → ThreadSafeContainer V → Option V → ThreadSafeContainer V × V
    entry_at key c none =
        (record c { values = assign_key key (value.named key) c.values }, value.named key)
    entry_at key c (some v) = (c, v)

    -- `operator[]`, with the value that the reference is to.
    unfoldable pub at_key : Bytes → ThreadSafeContainer V → ThreadSafeContainer V × V
    at_key key c = entry_at key (writes c) (find key c.values)

    unfoldable pub entry_bytes : List (Bytes × V) → Bytes
    entry_bytes [] = []
    entry_bytes ((key, val) ∷ entries) =
        let value_data = value.serialize val in
        bytes_of_uint32 (length key % 2 ^ 32)
        ++ (key
            ++ (bytes_of_uint32 (length value_data % 2 ^ 32)
                ++ (value_data ++ entry_bytes entries)))

    unfoldable pub serialize : ThreadSafeContainer V → ThreadSafeContainer V × Bytes
    unfolding entry_bytes
    serialize c = (reads c, bytes_of_uint32 (length c.values % 2 ^ 32) ++ entry_bytes c.values)

    -- A value that is not read is left out.
    abbrev stored : Bytes → Option V → List (Bytes × V) → List (Bytes × V)
    stored key none values = values
    stored key (some v) values = assign_key key v values

    abbrev read_value : Bytes → Bytes → List (Bytes × V) → Option (Bytes × List (Bytes × V))
    read_value key left values =
        let value_len = uint32_of left in
        let rest = drop 4 left in
        if ltb (length rest) value_len
        then none
        else some (drop value_len rest, stored key (value.deserialize (take value_len rest)) values)

    unfoldable pub read_entry : Bytes → List (Bytes × V) → Option (Bytes × List (Bytes × V))
    read_entry left values =
        let key_len = uint32_of left in
        let rest = drop 4 left in
        if ltb (length left) 4
        then none
        else if ltb (length rest) (key_len + 4)
        then none
        else read_value (take key_len rest) (drop key_len rest) values

    abbrev continued :
        (Bytes → List (Bytes × V) → Option (List (Bytes × V)))
        → Option (Bytes × List (Bytes × V))
        → Option (List (Bytes × V))
    continued next_entry none = none
    continued next_entry (some (rest, values)) = next_entry rest values

    unfoldable pub read_entries : ℕ → Bytes → List (Bytes × V) → Option (List (Bytes × V))
    unfolding read_entry
    read_entries zero left values = some values
    read_entries (suc n) left values =
        continued (λ rest values'. read_entries n rest values') (read_entry left values)

    abbrev filled : Option (List (Bytes × V)) → Option (ThreadSafeContainer V)
    filled none = none
    filled (some values) = some (record new_thread_safe_container { values = values })

    -- `none` is a null pointer.
    unfoldable pub deserialize : Bytes → Option (ThreadSafeContainer V)
    unfolding read_entries new_thread_safe_container
    deserialize left =
        if ltb (length left) 4
        then none
        else filled (read_entries (uint32_of left) (drop 4 left) [])
