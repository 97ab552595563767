-- ===== src/Text/Calls.antt =====
-- The operations of core/container.cpp that read the text format: deserialize_result, the copies, and
-- the removals, which first parse the values of a container whose header alone was parsed. The
-- allocations that they catch failures of do not fail here. A container's validation errors are passed
-- beside it.
use container_system.Base.{
  ℕ, ◌-◌, Bool, true, false, Option, List, [], ◌∷◌, ◌++◌, Bytes, codes, ◌===◌, ◌||◌, ltb,
  if◌then◌else◌,
}
use container_system.Base.Int.{pos}
use container_system.ErrorCodes.{key_not_found, invalid_value, deserialization_failed}
use container_system.Value.{
  OptimizedValue, Units, no_units, unit, ValueContainer, value_container, name_of,
}
use container_system.Container.{set_changed, units_of, get_batch, bulk_insert}
use container_system.Container.Storage.{has_unit}
use container_system.Container.Results.{Result, ok, error, container_error}
use container_system.Schema.{ContainerSchema, Library}
use container_system.Schema.Validate.{Errors, validate_all}
use container_system.Serializer.Write.{count_units}
use container_system.Text.Write.{FloatText}
use container_system.Text.Read.{
  Outcome, returned, threw, out_of_fuel, deserialize, deserialize_values,
}

-- A call that leaves a container and returns, or throws what the text says, or ends the process,
-- since it is noexcept and an exception leaves it. `outside` is a read outside the data, and `no_fuel`
-- no result of the code.
pub data Called {ℓ} (A : Type ℓ) : Type ℓ where
  done : ValueContainer → A → Called A
  raises : ValueContainer → Bytes → Called A
  terminated outside no_fuel : Called A

-- `if (!parsed_data_) deserialize_values(data_string_, false);`, and what follows.
abbrev pub after_values {ℓ} : {A : Type ℓ} → Outcome → (ValueContainer → Called A) → Called A
after_values (returned c b) k = k c
after_values (threw c w) k = raises c w
after_values out_of_fuel k = no_fuel

unfoldable pub with_values {ℓ} :
    {A : Type ℓ} → FloatText → ℕ → ValueContainer → (ValueContainer → Called A) → Called A
unfolding deserialize_values
with_values lib fuel (value_container h s us) k =
    if s.parsed_data
    then k (value_container h s us)
    else after_values (deserialize_values lib fuel s.data_string false (value_container h s us)) k

-- The set of the keys.
unfoldable pub in_keys : Bytes → List Bytes → Bool
in_keys name [] = false
in_keys name (key ∷ keys) = (key === name) || in_keys name keys

-- `erase(remove_if(...))`
unfoldable pub remove_units : (Bytes → Bool) → Units → Units
remove_units drops no_units = no_units
remove_units drops (unit v us) =
    let rest = remove_units drops us in if drops (name_of v) then rest else unit v rest

abbrev pub set_units : ValueContainer → Units → ValueContainer
set_units (value_container h s us) us' = value_container h s us'

abbrev pub mark_if : Bool → ValueContainer → ValueContainer
mark_if true c = set_changed c
mark_if false c = c

-- The part of `remove_batch` behind the parsing: the container and the number of removed values.
unfoldable pub erase_keys : List Bytes → ValueContainer → ValueContainer × ℕ
erase_keys keys c =
    let left = remove_units (λ name. in_keys name keys) (units_of c) in
    let removed = count_units (units_of c) - count_units left in
    (mark_if (ltb 0 removed) (set_units c left), removed)

unfoldable pub remove_batch : FloatText → ℕ → List Bytes → ValueContainer → Called ℕ
remove_batch lib fuel [] c = done c 0
remove_batch lib fuel (key ∷ keys) c =
    with_values lib fuel c λ c'. let erased = erase_keys (key ∷ keys) c' in done erased.0 erased.1

-- `catch (const std::exception& e)`
abbrev pub catch_as {ℓ} : {A : Type ℓ} → Bytes → Called (Result A) → Called (Result A)
catch_as prefix (done c r) = done c r
catch_as prefix (raises c w) = done c (
    error
      (record { code = invalid_value; message = prefix ++ w; reporter = codes "container_system" }))
catch_as prefix terminated = terminated
catch_as prefix outside = outside
catch_as prefix no_fuel = no_fuel

abbrev pub as_ok {ℓ} : {A : Type ℓ} → Called A → Called (Result A)
as_ok (done c a) = done c (ok a)
as_ok (raises c w) = raises c w
as_ok terminated = terminated
as_ok outside = outside
as_ok no_fuel = no_fuel

unfoldable pub remove_batch_result : FloatText → ℕ → List Bytes → ValueContainer → Called (Result ℕ)
unfolding remove_batch
remove_batch_result lib fuel keys c =
    catch_as (codes "Batch remove failed: ") (as_ok (remove_batch lib fuel keys c))

-- The part of `remove_result` behind the parsing.
unfoldable pub erase_name : Bytes → ValueContainer → Called (Result (Unit {0}))
erase_name target_name c =
    if has_unit target_name (units_of c)
    then done (set_changed (set_units c (remove_units (λ name. name === target_name) (units_of c))))
        (ok tt)
    else done c (error (container_error key_not_found target_name))

unfoldable pub remove_result : FloatText → ℕ → Bytes → ValueContainer → Called (Result (Unit {0}))
unfolding with_values
remove_result lib fuel target_name c =
    catch_as (codes "Failed to remove value: ") (with_values lib fuel c (erase_name target_name))

unfoldable pub bulk_insert_result :
    List OptimizedValue → ValueContainer → ValueContainer × Result (Unit {0})
bulk_insert_result vals c = (bulk_insert vals c, ok tt)

unfoldable pub get_batch_result :
    List Bytes → ValueContainer → Result (List (Option OptimizedValue))
get_batch_result keys c = ok (get_batch keys c)

-- `deserialize_result`, which is noexcept and catches nothing. `source` names the kind of data.
abbrev pub deserialized : Bytes → Outcome → Called (Result (Unit {0}))
deserialized source (returned c true) = done c (ok tt)
deserialized source (returned c false) =
    done c (error (container_error deserialization_failed source))
deserialized source (threw c w) = terminated
deserialized source out_of_fuel = no_fuel

unfoldable pub deserialize_result :
    FloatText → ℕ → Bytes → Bool → ValueContainer → Called (Result (Unit {0}))
deserialize_result lib fuel data_str parse_only_header c =
    deserialized (codes "string data") (deserialize lib fuel data_str parse_only_header c)

-- The overloads for bytes: `convert_string::to_string` copies them.
unfoldable pub deserialize_bytes : FloatText → ℕ → Bytes → Bool → ValueContainer → Outcome
deserialize_bytes lib fuel data_array parse_only_header c =
    deserialize lib fuel data_array parse_only_header c

unfoldable pub deserialize_bytes_result :
    FloatText → ℕ → Bytes → Bool → ValueContainer → Called (Result (Unit {0}))
unfolding deserialize_bytes
deserialize_bytes_result lib fuel data_array parse_only_header c =
    deserialized (codes "byte array data")
      (deserialize_bytes lib fuel data_array parse_only_header c)

-- What the overloads with a schema do with the result: the call, and the validation errors that it
-- leaves.
abbrev pub first_error : Errors → Result (Unit {0})
first_error [] = ok tt
first_error (e ∷ errors) =
    error (record { code = pos e.code; message = e.message; reporter = codes "container_schema" })

module _ {R : Type 0} (L : Library R) where
  abbrev pub then_validate :
      ContainerSchema R → Called (Result (Unit {0})) → Called (Result (Unit {0})) × Errors
  then_validate schema (done c (ok u)) =
      (done c (first_error (validate_all L schema c)), validate_all L schema c)
  then_validate schema (done c (error e)) = (done c (error e), [])
  then_validate schema (raises c w) = (raises c w, [])
  then_validate schema terminated = (terminated, [])
  then_validate schema outside = (outside, [])
  then_validate schema no_fuel = (no_fuel, [])

  unfoldable pub deserialize_validated :
      FloatText
      → ℕ
      → Bytes
      → ContainerSchema R
      → Bool
      → ValueContainer
      → Called (Result (Unit {0})) × Errors
  unfolding deserialize_result
  deserialize_validated lib fuel data_string schema parse_only_header c =
      then_validate schema (deserialize_result lib fuel data_string parse_only_header c)

  unfoldable pub deserialize_bytes_validated :
      FloatText
      → ℕ
      → Bytes
      → ContainerSchema R
      → Bool
      → ValueContainer
      → Called (Result (Unit {0})) × Errors
  unfolding deserialize_bytes_result
  deserialize_bytes_validated lib fuel data_array schema parse_only_header c =
      then_validate schema (deserialize_bytes_result lib fuel data_array parse_only_header c)
