-- ===== src/Schema/Errors.antt =====
-- struct validation_error of include/kcenon/container/container/schema.h.
use container_system.Base.{ℕ, List, ◌++◌, Bytes, codes, length}
use container_system.Base.Int.{pos}
use container_system.Value.{ValueTypes, get_string_from_type}
use container_system.Schema.{Library}
use container_system.Schema.Codes

pub record ValidationError : Type 0 where
  pub field : Bytes
  pub message : Bytes
  pub code : ℕ

unfoldable pub missing_required_error : Bytes → ValidationError
missing_required_error field_name = record {
  field = field_name;
  message = codes "Required field '" ++ (field_name ++ codes "' is missing");
  code = Codes.missing_required;
}

unfoldable pub type_mismatch_error : Bytes → ValueTypes → ValueTypes → ValidationError
type_mismatch_error field_name expected actual = record {
  field = field_name;
  message =
      codes "Field '"
      ++ (field_name
          ++ (codes "' type mismatch: expected "
              ++ (get_string_from_type expected
                  ++ (codes ", got " ++ get_string_from_type actual))));
  code = Codes.type_mismatch;
}

-- The template, given the texts of the three numbers.
unfoldable pub out_of_range_error : Bytes → Bytes → Bytes → Bytes → ValidationError
out_of_range_error field_name value min_val max_val = record {
  field = field_name;
  message =
      codes "Field '"
      ++ (field_name
          ++ (codes "' value "
              ++ (value
                  ++ (codes " is out of range ["
                      ++ (min_val ++ (codes ", " ++ (max_val ++ codes "]")))))));
  code = Codes.out_of_range;
}

unfoldable pub not_allowed_error : Bytes → Bytes → ValidationError
not_allowed_error field_name value = record {
  field = field_name;
  message =
      codes "Field '"
      ++ (field_name ++ (codes "' value '" ++ (value ++ codes "' is not in allowed values")));
  code = Codes.not_in_allowed_values;
}

unfoldable pub pattern_mismatch_error : Bytes → Bytes → ValidationError
pattern_mismatch_error field_name pattern = record {
  field = field_name;
  message =
      codes "Field '"
      ++ (field_name ++ (codes "' does not match pattern '" ++ (pattern ++ codes "'")));
  code = Codes.pattern_mismatch;
}

unfoldable pub custom_failed_error : Bytes → Bytes → ValidationError
custom_failed_error field_name reason = record {
  field = field_name;
  message = codes "Field '" ++ (field_name ++ (codes "' custom validation failed: " ++ reason));
  code = Codes.custom_validation_failed;
}

module _ {R : Type 0} (L : Library R) where
  unfoldable pub invalid_length_error : Bytes → ℕ → ℕ → ℕ → ValidationError
  invalid_length_error field_name actual min_len max_len = record {
    field = field_name;
    message =
        codes "Field '"
        ++ (field_name
            ++ (codes "' length "
                ++ (L.to_string (pos actual)
                    ++ (codes " is outside bounds ["
                        ++ (L.to_string (pos min_len)
                            ++ (codes ", " ++ (L.to_string (pos max_len) ++ codes "]")))))));
    code = Codes.invalid_length;
  }

  unfoldable pub nested_failed_error : Bytes → List ValidationError → ValidationError
  nested_failed_error field_name nested_errors = record {
    field = field_name;
    message =
        codes "Field '"
        ++ (field_name
            ++ (codes "' nested validation failed with "
                ++ (L.to_string (pos (length nested_errors)) ++ codes " error(s)")));
    code = Codes.nested_validation_failed;
  }
