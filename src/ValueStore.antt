-- ===== src/ValueStore.antt =====
-- class value_store (core/value_store.cpp), for any type of values with a binary form. Every method takes the lock
-- and is one step. The map is the list of its entries in the order of its iteration.
pub mod RoundTrip
mod Examples
use container_system.Base.{
  ℕ, zero, suc, ◌+◌, ◌*◌, ◌/◌, ◌%◌, ◌^◌, Bool, true, false, Option, none, some, List, [], ◌∷◌, ◌++◌,
  Bytes, length, take, drop, ltb, ◌==◌, if◌then◌else◌,
}
use container_system.Base.{codes}
use container_system.Base.Int.{ℤ}
use container_system.ErrorCodes.{
  deserialization_failed, corrupted_data, version_mismatch, value_parse_failed,
}
use container_system.Assoc.{find, assign_key, erase_key}

-- What the store uses of class value: `serialize`, `deserialize` and `to_json`.
pub record Codec (V : Type 0) : Type 0 where
  pub serialize : V → Bytes
  pub deserialize : Bytes → Option V
  pub to_json : V → Bytes

pub record ValueStore (V : Type 0) : Type 0 where
  pub values : List (Bytes × V)
  pub read_count : ℕ
  pub write_count : ℕ

-- The exceptions of `deserialize` and `deserialize_binary`, with what their messages tell.
pub data StoreError : Type 0 where
  requires_json_parser too_small truncated_key truncated_value : StoreError
  unsupported_version : ℕ → StoreError
  truncated_entry : ℕ → StoreError
  failed_value : Bytes → StoreError

pub data Loaded (A : Type 0) : Type 0 where
  loaded : A → Loaded A
  thrown : StoreError → Loaded A

abbrev next : ℕ → ℕ
next n = (n + 1) % 2 ^ 64

-- The four bytes of a uint32_t, the low one first, and the `memcpy` of one from the front of what is left.
unfoldable pub bytes_of_uint32 : ℕ → Bytes
bytes_of_uint32 n = (n % 256) ∷ (n / 256 % 256) ∷ (n / 65536 % 256) ∷ (n / 16777216 % 256) ∷ []

unfoldable pub uint32_of : Bytes → ℕ
uint32_of (a ∷ b ∷ c ∷ d ∷ rest) = a + b * 256 + c * 65536 + d * 16777216
uint32_of rest = 0

-- The code that `deserialize_result` and `deserialize_binary_result` return for each.
unfoldable pub error_code : StoreError → ℤ
error_code requires_json_parser = deserialization_failed
error_code too_small = corrupted_data
error_code truncated_key = corrupted_data
error_code truncated_value = corrupted_data
error_code (truncated_entry i) = corrupted_data
error_code (unsupported_version v) = version_mismatch
error_code (failed_value key) = value_parse_failed

pub data StoreResult (A : Type 0) : Type 0 where
  ok : A → StoreResult A
  error : ℤ → StoreError → StoreResult A

abbrev result_of : {A : Type 0} → Loaded A → StoreResult A
result_of (loaded a) = ok a
result_of (thrown e) = error (error_code e) e

-- A byte of a key in the JSON text: quotes, backslashes, line feeds, carriage returns and tabs are escaped.
unfoldable pub escape_byte : ℕ → Bytes
escape_byte c =
    if c == 34
    then 92 ∷ 34 ∷ []
    else if c == 92
    then 92 ∷ 92 ∷ []
    else if c == 10
    then 92 ∷ 110 ∷ []
    else if c == 13
    then 92 ∷ 114 ∷ []
    else if c == 9
    then 92 ∷ 116 ∷ []
    else c ∷ []

unfoldable pub escape_key : Bytes → Bytes
unfolding escape_byte
escape_key [] = []
escape_key (c ∷ key) = escape_byte c ++ escape_key key

module _ {V : Type 0} where
  unfoldable pub new_store : ValueStore V
  new_store = record { values = []; read_count = 0; write_count = 0 }

  unfoldable pub add : Bytes → V → ValueStore V → ValueStore V
  add key val s = record s {
    values = assign_key key val s.values;
    write_count = next s.write_count;
  }

  abbrev pub found : ValueStore V → Option V → ValueStore V × Option V
  found s none = (s, none)
  found s (some v) = (record s { read_count = next s.read_count }, some v)

  unfoldable pub get : Bytes → ValueStore V → ValueStore V × Option V
  get key s = found s (find key s.values)

  abbrev is_some : Option V → Bool
  is_some none = false
  is_some (some v) = true

  unfoldable pub contains : Bytes → ValueStore V → Bool
  contains key s = is_some (find key s.values)

  abbrev removed : Bytes → ValueStore V → Option V → ValueStore V × Bool
  removed key s none = (s, false)
  removed key s (some v) = (record s { values = erase_key key s.values }, true)

  unfoldable pub remove : Bytes → ValueStore V → ValueStore V × Bool
  remove key s = removed key s (find key s.values)

  unfoldable pub clear : ValueStore V → ValueStore V
  clear s = record s { values = [] }

  unfoldable pub size : ValueStore V → ℕ
  size s = length s.values

  unfoldable pub empty : ValueStore V → Bool
  unfolding size
  empty s = size s == 0

  -- The JSON text is not read.
  unfoldable pub deserialize : Bytes → Loaded (ValueStore V)
  deserialize json_data = thrown requires_json_parser

  unfoldable pub deserialize_result : Bytes → StoreResult (ValueStore V)
  unfolding deserialize
  deserialize_result json_data = result_of (deserialize json_data)

  abbrev pub get_read_count : ValueStore V → ℕ
  get_read_count s = s.read_count

  abbrev pub get_write_count : ValueStore V → ℕ
  get_write_count s = s.write_count

  unfoldable pub reset_statistics : ValueStore V → ValueStore V
  reset_statistics s = record s { read_count = 0; write_count = 0 }

  module _ (value : Codec V) where
    -- The loop of `serialize_impl` over the entries: `first` tells whether a comma is left out.
    unfoldable pub entry_texts : Bool → List (Bytes × V) → Bytes
    unfolding escape_key
    entry_texts first [] = []
    entry_texts first ((key, val) ∷ entries) =
        (if first then [] else codes ",")
        ++ (codes "\""
            ++ (escape_key key
                ++ (codes "\":" ++ (value.to_json val ++ entry_texts false entries))))

    unfoldable pub serialize : ValueStore V → ValueStore V × Bytes
    unfolding entry_texts
    serialize s = (
      record s { read_count = next s.read_count },
      codes "{" ++ (entry_texts true s.values ++ codes "}"),
    )

    -- The loop of `serialize_binary_impl` over the entries.
    unfoldable pub entry_bytes : List (Bytes × V) → Bytes
    entry_bytes [] = []
    entry_bytes ((key, val) ∷ entries) =
        let value_data = value.serialize val in
        bytes_of_uint32 (length key % 2 ^ 32)
        ++ (key
            ++ (bytes_of_uint32 (length value_data % 2 ^ 32)
                ++ (value_data ++ entry_bytes entries)))

    unfoldable pub serialize_binary : ValueStore V → ValueStore V × Bytes
    unfolding entry_bytes
    serialize_binary s = (
      record s { read_count = next s.read_count },
      1 ∷ (bytes_of_uint32 (length s.values % 2 ^ 32) ++ entry_bytes s.values),
    )

    -- The loop of `deserialize_binary` from entry `i` on, `n` of them, on the bytes from the offset on.
    abbrev stored : Bytes → Option V → List (Bytes × V) → Loaded (List (Bytes × V))
    stored key none values = thrown (failed_value key)
    stored key (some v) values = loaded (assign_key key v values)

    abbrev before : Bytes → Loaded (List (Bytes × V)) → Loaded (Bytes × List (Bytes × V))
    before rest (loaded values) = loaded (rest, values)
    before rest (thrown e) = thrown e

    abbrev read_value : Bytes → Bytes → List (Bytes × V) → Loaded (Bytes × List (Bytes × V))
    read_value key bytes_left values =
        let value_len = uint32_of bytes_left in
        let rest = drop 4 bytes_left in
        if ltb (length rest) value_len
        then thrown truncated_value
        else before (drop value_len rest)
            (stored key (value.deserialize (take value_len rest)) values)

    unfoldable pub read_entry : ℕ → Bytes → List (Bytes × V) → Loaded (Bytes × List (Bytes × V))
    read_entry i bytes_left values =
        let key_len = uint32_of bytes_left in
        let rest = drop 4 bytes_left in
        if ltb (length bytes_left) 4
        then thrown (truncated_entry i)
        else if ltb (length rest) (key_len + 4)
        then thrown truncated_key
        else read_value (take key_len rest) (drop key_len rest) values

    abbrev continued :
        (Bytes → List (Bytes × V) → Loaded (List (Bytes × V)))
        → Loaded (Bytes × List (Bytes × V))
        → Loaded (List (Bytes × V))
    continued next_entry (loaded (rest, values)) = next_entry rest values
    continued next_entry (thrown e) = thrown e

    unfoldable pub read_entries : ℕ → ℕ → Bytes → List (Bytes × V) → Loaded (List (Bytes × V))
    unfolding read_entry
    read_entries zero i bytes_left values = loaded values
    read_entries (suc n) i bytes_left values =
        continued (λ rest values'. read_entries n (suc i) rest values')
          (read_entry i bytes_left values)

    abbrev finish : Loaded (List (Bytes × V)) → Loaded (ValueStore V)
    finish (loaded values) = loaded (record { values = values; read_count = 0; write_count = 0 })
    finish (thrown e) = thrown e

    abbrev read_version : ℕ → Bytes → Loaded (ValueStore V)
    read_version version bytes_left =
        if version == 1
        then finish (read_entries (uint32_of bytes_left) 0 (drop 4 bytes_left) [])
        else thrown (unsupported_version version)

    unfoldable pub deserialize_binary : Bytes → Loaded (ValueStore V)
    unfolding read_entries
    deserialize_binary [] = thrown too_small
    deserialize_binary (version ∷ bytes_left) =
        if ltb (length bytes_left) 4 then thrown too_small else read_version version bytes_left

    -- The reader that does not throw: the same loop, with an error value in place of each exception.
    unfoldable pub deserialize_binary_result : Bytes → StoreResult (ValueStore V)
    unfolding deserialize_binary
    deserialize_binary_result binary_data = result_of (deserialize_binary binary_data)
