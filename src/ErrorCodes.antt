-- ===== src/ErrorCodes.antt =====
-- The error codes of include/kcenon/container/container/error_codes.h, as values of `int`.
use container_system.Base.{
  ℕ, ◌+◌, ◌≡◌, refl, Bool, false, List, [], ◌∷◌, ◌++◌, Bytes, codes, ◌==◌, ◌===◌, ltb, leb, ◌&&◌,
  if◌then◌else◌, arith,
}
use container_system.Base.Int.{ℤ, pos, negsuc}

abbrev pub key_not_found : ℤ
key_not_found = pos 100

abbrev pub type_mismatch : ℤ
type_mismatch = pos 101

abbrev pub value_out_of_range : ℤ
value_out_of_range = pos 102

abbrev pub invalid_value : ℤ
invalid_value = pos 103

abbrev pub key_already_exists : ℤ
key_already_exists = pos 104

abbrev pub empty_key : ℤ
empty_key = pos 105

abbrev pub serialization_failed : ℤ
serialization_failed = pos 200

abbrev pub deserialization_failed : ℤ
deserialization_failed = pos 201

abbrev pub invalid_format : ℤ
invalid_format = pos 202

abbrev pub version_mismatch : ℤ
version_mismatch = pos 203

abbrev pub corrupted_data : ℤ
corrupted_data = pos 204

abbrev pub header_parse_failed : ℤ
header_parse_failed = pos 205

abbrev pub value_parse_failed : ℤ
value_parse_failed = pos 206

abbrev pub encoding_error : ℤ
encoding_error = pos 207

abbrev pub schema_validation_failed : ℤ
schema_validation_failed = pos 300

abbrev pub missing_required_field : ℤ
missing_required_field = pos 301

abbrev pub constraint_violated : ℤ
constraint_violated = pos 302

abbrev pub type_constraint_violated : ℤ
type_constraint_violated = pos 303

abbrev pub max_size_exceeded : ℤ
max_size_exceeded = pos 304

abbrev pub memory_allocation_failed : ℤ
memory_allocation_failed = pos 400

abbrev pub file_not_found : ℤ
file_not_found = pos 401

abbrev pub file_read_error : ℤ
file_read_error = pos 402

abbrev pub file_write_error : ℤ
file_write_error = pos 403

abbrev pub permission_denied : ℤ
permission_denied = pos 404

abbrev pub resource_exhausted : ℤ
resource_exhausted = pos 405

abbrev pub io_error : ℤ
io_error = pos 406

abbrev pub lock_acquisition_failed : ℤ
lock_acquisition_failed = pos 500

abbrev pub concurrent_modification : ℤ
concurrent_modification = pos 501

abbrev pub lock_timeout : ℤ
lock_timeout = pos 502

-- The cases of `get_message`.
abbrev pub messages : List (ℕ × Bytes)
messages =
    (100, codes "Key not found")
    ∷ (101, codes "Type mismatch")
    ∷ (102, codes "Value out of range")
    ∷ (103, codes "Invalid value")
    ∷ (104, codes "Key already exists")
    ∷ (105, codes "Empty key")
    ∷ (200, codes "Serialization failed")
    ∷ (201, codes "Deserialization failed")
    ∷ (202, codes "Invalid format")
    ∷ (203, codes "Version mismatch")
    ∷ (204, codes "Corrupted data")
    ∷ (205, codes "Header parse failed")
    ∷ (206, codes "Value parse failed")
    ∷ (207, codes "Encoding error")
    ∷ (300, codes "Schema validation failed")
    ∷ (301, codes "Missing required field")
    ∷ (302, codes "Constraint violated")
    ∷ (303, codes "Type constraint violated")
    ∷ (304, codes "Maximum size exceeded")
    ∷ (400, codes "Memory allocation failed")
    ∷ (401, codes "File not found")
    ∷ (402, codes "File read error")
    ∷ (403, codes "File write error")
    ∷ (404, codes "Permission denied")
    ∷ (405, codes "Resource exhausted")
    ∷ (406, codes "I/O error")
    ∷ (500, codes "Lock acquisition failed")
    ∷ (501, codes "Concurrent modification")
    ∷ (502, codes "Lock timeout")
    ∷ []

unfoldable pub find_message : ℕ → List (ℕ × Bytes) → Bytes
find_message code [] = codes "Unknown error"
find_message code ((c, m) ∷ table) = if code == c then m else find_message code table

unfoldable pub get_message : ℤ → Bytes
unfolding find_message
get_message (pos n) = find_message n messages
get_message (negsuc n) = codes "Unknown error"

abbrev within : ℕ → ℕ → ℤ → Bool
within low high (pos n) = leb low n && ltb n high
within low high (negsuc n) = false

unfoldable pub get_category : ℤ → Bytes
get_category code =
    if within 100 200 code
    then codes "value_operation"
    else if within 200 300 code
    then codes "serialization"
    else if within 300 400 code
    then codes "validation"
    else if within 400 500 code
    then codes "resource"
    else if within 500 600 code
    then codes "thread_safety"
    else codes "unknown"

-- For the bases of the categories, which are not negative and far from the end of `int`.
unfoldable pub is_category : ℤ → ℕ → Bool
is_category code category_base = within category_base (category_base + 100) code

unfoldable pub is_value_error : ℤ → Bool
unfolding is_category
is_value_error code = is_category code 100

unfoldable pub is_serialization_error : ℤ → Bool
unfolding is_category
is_serialization_error code = is_category code 200

unfoldable pub is_validation_error : ℤ → Bool
unfolding is_category
is_validation_error code = is_category code 300

unfoldable pub is_resource_error : ℤ → Bool
unfolding is_category
is_resource_error code = is_category code 400

unfoldable pub is_thread_error : ℤ → Bool
unfolding is_category
is_thread_error code = is_category code 500

unfoldable pub make_message : ℤ → Bytes → Bytes
make_message code [] = get_message code
make_message code (b ∷ detail) = get_message code ++ (codes ": " ++ (b ∷ detail))

-- The five tests agree with the category that `get_category` names, on every code.
pub get_category-tests :
    (code : ℤ)
    → (is_value_error code ≡ (get_category code === codes "value_operation"))
      × (is_serialization_error code ≡ (get_category code === codes "serialization"))
      × (is_validation_error code ≡ (get_category code === codes "validation"))
      × (is_resource_error code ≡ (get_category code === codes "resource"))
      × (is_thread_error code ≡ (get_category code === codes "thread_safety"))
unfolding get_category is_value_error is_serialization_error is_validation_error is_resource_error
    is_thread_error is_category ◌===◌
get_category-tests (pos n) = (ground arith, ground arith, ground arith, ground arith, ground arith)
get_category-tests (negsuc n) = (refl, refl, refl, refl, refl)
