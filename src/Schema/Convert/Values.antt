-- ===== src/Schema/Convert/Values.antt =====
-- The validation of a flag's value and its conversion to JSON, of internal/schema/convert.go.
use mathlib.Core.Option
use ax_go.Common.{
  ℕ, Text, split, Bool, true, false, ◌&&◌, Option, none, some, List, [], ◌∷◌, is_empty, ℤ, Result,
  ok, err, if◌then◌else◌,
}
use ax_go.Schema.Pflag.{
  FlagType, type_bool, type_duration, type_float32, type_float64, type_int32, type_int64,
  type_bool_slice, type_int_slice, type_int32_slice, type_int64_slice, type_uint_slice,
  type_float32_slice, type_float64_slice, type_duration_slice, type_string_slice, type_string_array,
  type_ip, type_ip_mask, type_ip_net, type_ip_slice, type_ip_net_slice, type_bytes_hex,
  type_bytes_base64, type_string_to_str, type_string_to_int, type_string_to_int64,
}
use ax_go.Common.Strconv.{parse_bool, parse_int_any, parse_int_decimal, parse_uint_decimal}
use ax_go.Schema.Convert.{
  JsonType, json_schema_type, json_schema_array_item_type, is_unsigned, integer_parse_type,
  CanonicalError, canonical_enum_value, json_boolean, json_integer, json_number, json_string,
}

-- What is not in the repository: floats, durations, CSV records and the Set of pflag's other types.
pub record Parsers : Type 1 where
  pub Float : Type 0
  pub parse_float : ℕ → Text → Option Float
  pub is_finite : Float → Bool
  pub duration_ok : Text → Bool
  pub read_csv : Text → Option (List Text)
  pub pflag_set : FlagType → Text → Bool

pub data JsonValue (F : Type 0) : Type 0 where
  bool : Bool → JsonValue F
  int : ℤ → JsonValue F
  uint : ℕ → JsonValue F
  float : F → JsonValue F
  string : Text → JsonValue F

abbrev pub is_some {ℓ} : {A : Type ℓ} → Option A → Bool
is_some none = false
is_some (some a) = true

abbrev pub is_ok {ℓ} : {E A : Type ℓ} → Result E A → Bool
is_ok (err e) = false
is_ok (ok a) = true

abbrev is_integer : JsonType → Bool
is_integer json_integer = true
is_integer _ = false

-- The scalar type of the elements of an integer slice that pflag reads with a base prefix.
unfoldable pub base_zero_slice_element_type : FlagType → Option FlagType
base_zero_slice_element_type type_int32_slice = some type_int32
base_zero_slice_element_type type_int64_slice = some type_int64
base_zero_slice_element_type _ = none

abbrev pub all? {ℓ} : {A : Type ℓ} → (A → Bool) → List A → Bool
all? p [] = true
all? p (x ∷ xs) = p x && all? p xs

module _ (p : Parsers) where
  open p use {Float, parse_float, is_finite, duration_ok, read_csv, pflag_set}

  abbrev finite : Option Float → Option (JsonValue Float)
  finite none = none
  finite (some f) = if is_finite f then some (float f) else none

  unfoldable pub finite_float_json : Text → Option (JsonValue Float)
  finite_float_json value = finite (parse_float 64 value)

  -- A value of a JSON type; `unsigned` tells the two integer types apart.
  unfoldable pub json_value : JsonType → Bool → Text → Option (JsonValue Float)
  json_value json_boolean unsigned value = Option.map bool (parse_bool value)
  json_value json_integer true value = Option.map uint (parse_uint_decimal 64 value)
  json_value json_integer false value = Option.map int (parse_int_decimal 64 value)
  json_value json_number unsigned value = finite_float_json value
  json_value json_string unsigned value = some (string value)

  unfoldable pub scalar_json : FlagType → Text → Option (JsonValue Float)
  scalar_json t value =
      if is_empty value then none else json_value (json_schema_type t) (is_unsigned t) value

  abbrev is_uint_slice : FlagType → Bool
  is_uint_slice type_uint_slice = true
  is_uint_slice _ = false

  unfoldable pub array_item_json : Text → JsonType → FlagType → Option (JsonValue Float)
  array_item_json value item_type t = json_value item_type (is_uint_slice t) value

  unfoldable pub split_slice_value : FlagType → Text → Option (List Text)
  split_slice_value type_string_array value = some (value ∷ [])
  split_slice_value type_string_slice value = read_csv value
  split_slice_value type_bool_slice value = read_csv value
  split_slice_value _ value = some (split b',' value)

  unfoldable pub validate_scalar_value : FlagType → Text → Bool
  validate_scalar_value type_bool value = is_some (parse_bool value)
  validate_scalar_value type_float32 value = is_some (parse_float 32 value)
  validate_scalar_value type_float64 value = is_some (parse_float 64 value)
  validate_scalar_value type_duration value = duration_ok value
  validate_scalar_value t value =
      if is_integer (json_schema_type t)
      then is_ok (canonical_enum_value (integer_parse_type t) value)
      else true

  unfoldable pub validate_element : FlagType → Text → Bool
  validate_element type_bool_slice element = is_some (parse_bool element)
  validate_element type_int_slice element = is_some (parse_int_decimal 64 element)
  validate_element type_int32_slice element = is_some (parse_int_any 32 element)
  validate_element type_int64_slice element = is_some (parse_int_any 64 element)
  validate_element type_uint_slice element = is_some (parse_uint_decimal 64 element)
  validate_element type_float32_slice element = is_some (parse_float 32 element)
  validate_element type_float64_slice element = is_some (parse_float 64 element)
  validate_element type_duration_slice element = duration_ok element
  validate_element _ element = true

  abbrev all_elements : FlagType → Option (List Text) → Bool
  all_elements t none = false
  all_elements t (some elements) = all? (validate_element t) elements

  unfoldable pub validate_slice_value : FlagType → Text → Bool
  validate_slice_value t value = all_elements t (split_slice_value t value)

  -- `none` where the type is not one that pflag's own Set checks.
  unfoldable pub validate_with_pflag : FlagType → Text → Option Bool
  validate_with_pflag type_ip value = some (pflag_set type_ip value)
  validate_with_pflag type_ip_mask value = some (pflag_set type_ip_mask value)
  validate_with_pflag type_ip_net value = some (pflag_set type_ip_net value)
  validate_with_pflag type_ip_slice value = some (pflag_set type_ip_slice value)
  validate_with_pflag type_ip_net_slice value = some (pflag_set type_ip_net_slice value)
  validate_with_pflag type_bytes_hex value = some (pflag_set type_bytes_hex value)
  validate_with_pflag type_bytes_base64 value = some (pflag_set type_bytes_base64 value)
  validate_with_pflag type_string_to_str value = some (pflag_set type_string_to_str value)
  validate_with_pflag type_string_to_int value = some (pflag_set type_string_to_int value)
  validate_with_pflag type_string_to_int64 value = some (pflag_set type_string_to_int64 value)
  validate_with_pflag _ value = none

  abbrev or_checked : Option Bool → Bool → Bool
  or_checked (some handled) other = handled
  or_checked none other = other

  -- Does a flag of this type accept the value?
  unfoldable pub validate_value : FlagType → Text → Bool
  validate_value t value = or_checked (validate_with_pflag t value) (
      if is_some (json_schema_array_item_type t)
      then validate_slice_value t value
      else validate_scalar_value t value)

  abbrev and_then :
      Option (JsonValue Float) → Option (List (JsonValue Float)) → Option (List (JsonValue Float))
  and_then (some v) (some vs) = some (v ∷ vs)
  and_then _ _ = none

  abbrev element_form : Option FlagType → Text → Result CanonicalError Text
  element_form none element = ok element
  element_form (some scalar_type) element = canonical_enum_value scalar_type element

  abbrev element_json : FlagType → JsonType → Result CanonicalError Text → Option (JsonValue Float)
  element_json t item_type (err e) = none
  element_json t item_type (ok element) = array_item_json element item_type t

  -- The loop over the elements of a slice.
  unfoldable pub elements_json : FlagType → JsonType → List Text → Option (List (JsonValue Float))
  elements_json t item_type [] = some []
  elements_json t item_type (e ∷ elements) =
      and_then (element_json t item_type (element_form (base_zero_slice_element_type t) e))
        (elements_json t item_type elements)

  abbrev of_elements : FlagType → JsonType → Option (List Text) → Option (List (JsonValue Float))
  of_elements t item_type none = none
  of_elements t item_type (some elements) = elements_json t item_type elements

  unfoldable pub slice_example_json : FlagType → JsonType → Text → Option (List (JsonValue Float))
  slice_example_json t item_type example = of_elements t item_type (split_slice_value t example)

  pub data ExampleValue : Type 0 where
    scalar : JsonValue Float → ExampleValue
    items : List (JsonValue Float) → ExampleValue

  abbrev scalar_example : FlagType → Result CanonicalError Text → Option ExampleValue
  scalar_example t (err e) = none
  scalar_example t (ok form) = Option.map scalar (scalar_json t form)

  abbrev example_of : FlagType → Text → Option JsonType → Option ExampleValue
  example_of t example (some item_type) = Option.map items (slice_example_json t item_type example)
  example_of t example none = scalar_example t (
      if is_integer (json_schema_type t)
      then canonical_enum_value (integer_parse_type t) example
      else ok example)

  unfoldable pub example_json : FlagType → Text → Option ExampleValue
  example_json t example = example_of t example (json_schema_array_item_type t)
