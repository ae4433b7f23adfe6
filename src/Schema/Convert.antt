-- ===== src/Schema/Convert.antt =====
-- The types of flag values and the form in which the members of an enum are compared, of
-- internal/schema/convert.go; Values: their validation and conversion.
pub mod Canonical
pub mod Values
use ax_go.Common.{
  ℕ, zero, suc, Text, show_nat, show_int, split, Bool, true, false, not, ◌&&◌, ◌||◌, Option, none,
  some, List, [], ◌∷◌, is_empty, ℤ, Result, ok, err, if◌then◌else◌,
}
use mathlib.Core.Option
use ax_go.Schema.Pflag.{
  FlagType, type_bool, type_count, type_string, type_duration, type_float32, type_float64, type_int,
  type_int8, type_int16, type_int32, type_int64, type_uint, type_uint8, type_uint16, type_uint32,
  type_uint64, type_bool_slice, type_int_slice, type_int32_slice, type_int64_slice, type_uint_slice,
  type_float32_slice, type_float64_slice, type_duration_slice, type_string_slice, type_string_array,
  type_ip, type_ip_mask, type_ip_net, type_ip_slice, type_ip_net_slice, type_bytes_hex,
  type_bytes_base64, type_string_to_str, type_string_to_int, type_string_to_int64, type_func,
  type_boolfunc, type_time, custom,
}
use ax_go.Common.Strconv.{
  parse_bool, parse_int_any, parse_uint_any, parse_int_decimal, parse_uint_decimal,
}

pub data JsonType : Type 0 where
  json_boolean json_integer json_number json_string : JsonType

unfoldable pub json_schema_type : FlagType → JsonType
json_schema_type type_bool = json_boolean
json_schema_type type_count = json_integer
json_schema_type type_int = json_integer
json_schema_type type_int8 = json_integer
json_schema_type type_int16 = json_integer
json_schema_type type_int32 = json_integer
json_schema_type type_int64 = json_integer
json_schema_type type_uint = json_integer
json_schema_type type_uint8 = json_integer
json_schema_type type_uint16 = json_integer
json_schema_type type_uint32 = json_integer
json_schema_type type_uint64 = json_integer
json_schema_type type_float32 = json_number
json_schema_type type_float64 = json_number
json_schema_type _ = json_string

unfoldable pub json_schema_array_item_type : FlagType → Option JsonType
json_schema_array_item_type type_bool_slice = some json_boolean
json_schema_array_item_type type_int_slice = some json_integer
json_schema_array_item_type type_int32_slice = some json_integer
json_schema_array_item_type type_int64_slice = some json_integer
json_schema_array_item_type type_uint_slice = some json_integer
json_schema_array_item_type type_float32_slice = some json_number
json_schema_array_item_type type_float64_slice = some json_number
json_schema_array_item_type type_duration_slice = some json_string
json_schema_array_item_type type_ip_slice = some json_string
json_schema_array_item_type type_ip_net_slice = some json_string
json_schema_array_item_type type_string_array = some json_string
json_schema_array_item_type type_string_slice = some json_string
json_schema_array_item_type _ = none

-- The types whose name starts with "uint", among those of integers.
abbrev pub is_unsigned : FlagType → Bool
is_unsigned type_uint = true
is_unsigned type_uint8 = true
is_unsigned type_uint16 = true
is_unsigned type_uint32 = true
is_unsigned type_uint64 = true
is_unsigned _ = false

unfoldable pub is_builtin_flag_type : FlagType → Bool
is_builtin_flag_type (custom name) = false
is_builtin_flag_type _ = true

unfoldable pub integer_parse_type : FlagType → FlagType
integer_parse_type type_count = type_int
integer_parse_type t = t

pub data CanonicalError : Type 0 where
  parse_failed unsupported_enum_type : CanonicalError

abbrev printed_int : Option ℤ → Result CanonicalError Text
printed_int none = err parse_failed
printed_int (some z) = ok (show_int z)

abbrev printed_uint : Option ℕ → Result CanonicalError Text
printed_uint none = err parse_failed
printed_uint (some n) = ok (show_nat n)

unfoldable pub canonical_signed : Text → ℕ → Result CanonicalError Text
canonical_signed value bits = printed_int (parse_int_any bits value)

unfoldable pub canonical_unsigned : Text → ℕ → Result CanonicalError Text
canonical_unsigned value bits = printed_uint (parse_uint_any bits value)

unfoldable pub canonical_enum_value : FlagType → Text → Result CanonicalError Text
canonical_enum_value type_int value = canonical_signed value 64
canonical_enum_value type_int64 value = canonical_signed value 64
canonical_enum_value type_int8 value = canonical_signed value 8
canonical_enum_value type_int16 value = canonical_signed value 16
canonical_enum_value type_int32 value = canonical_signed value 32
canonical_enum_value type_uint value = canonical_unsigned value 64
canonical_enum_value type_uint64 value = canonical_unsigned value 64
canonical_enum_value type_uint8 value = canonical_unsigned value 8
canonical_enum_value type_uint16 value = canonical_unsigned value 16
canonical_enum_value type_uint32 value = canonical_unsigned value 32
canonical_enum_value type_string value = ok value
canonical_enum_value (custom name) value = ok value
canonical_enum_value _ value = err unsupported_enum_type
