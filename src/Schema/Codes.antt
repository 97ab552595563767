-- ===== src/Schema/Codes.antt =====
-- namespace validation_codes of include/kcenon/container/container/schema.h.
use container_system.Base.{ℕ, List, [], ◌∷◌, Bytes, codes, ◌==◌, if◌then◌else◌}
use container_system.Base.Int.{ℤ, pos, negsuc}
use container_system.ErrorCodes

abbrev pub missing_required : ℕ
missing_required = 310

abbrev pub type_mismatch : ℕ
type_mismatch = 311

abbrev pub out_of_range : ℕ
out_of_range = 312

abbrev pub invalid_length : ℕ
invalid_length = 313

abbrev pub pattern_mismatch : ℕ
pattern_mismatch = 314

abbrev pub not_in_allowed_values : ℕ
not_in_allowed_values = 315

abbrev pub custom_validation_failed : ℕ
custom_validation_failed = 316

abbrev pub nested_validation_failed : ℕ
nested_validation_failed = 317

-- The cases of `get_message`, and its default.
abbrev pub messages : List (ℕ × Bytes)
messages =
    (missing_required, codes "Required field is missing")
    ∷ (type_mismatch, codes "Field type mismatch")
    ∷ (out_of_range, codes "Value is out of range")
    ∷ (invalid_length, codes "Invalid length")
    ∷ (pattern_mismatch, codes "Pattern mismatch")
    ∷ (not_in_allowed_values, codes "Value not in allowed list")
    ∷ (custom_validation_failed, codes "Custom validation failed")
    ∷ (nested_validation_failed, codes "Nested schema validation failed")
    ∷ []

unfoldable pub find_code : ℕ → List (ℕ × Bytes) → Bytes
find_code code [] = ErrorCodes.get_message (pos code)
find_code code ((c, m) ∷ table) = if code == c then m else find_code code table

unfoldable pub get_message : ℤ → Bytes
unfolding find_code
get_message (pos code) = find_code code messages
get_message (negsuc n) = ErrorCodes.get_message (negsuc n)
