-- ===== src/Contract/Codes.antt =====
-- The registered error codes, of contract/codes.go.
use ax_go.Common.{Text, codes, List, [], ◌∷◌}

abbrev pub config_invalid : Text
config_invalid = codes "config_invalid"

abbrev pub config_max_bytes_invalid : Text
config_max_bytes_invalid = codes "config_max_bytes_invalid"

abbrev pub config_option_invalid : Text
config_option_invalid = codes "config_option_invalid"

abbrev pub config_patch_invalid : Text
config_patch_invalid = codes "config_patch_invalid"

abbrev pub config_too_large : Text
config_too_large = codes "config_too_large"

abbrev pub confirmation_required : Text
confirmation_required = codes "confirmation_required"

abbrev pub internal_error : Text
internal_error = codes "internal_error"

abbrev pub validation_error : Text
validation_error = codes "validation_error"

abbrev pub warnings_as_errors : Text
warnings_as_errors = codes "warnings_as_errors"

abbrev pub invalid_schema_declaration : Text
invalid_schema_declaration = codes "invalid_schema_declaration"

abbrev pub known_error_codes : List Text
known_error_codes =
    config_invalid ∷ config_max_bytes_invalid ∷ config_option_invalid ∷ config_patch_invalid
    ∷ config_too_large ∷ confirmation_required ∷ internal_error ∷ validation_error
    ∷ warnings_as_errors ∷ []

abbrev pub authoring_time_error_codes : List Text
authoring_time_error_codes = invalid_schema_declaration ∷ []
