-- ===== src/Schema/Pflag.antt =====
-- What the schema reads of a pflag.Flag. A flag type is the name that pflag gives it; the value of a
-- flag is wrapped in an `enumValue` where the flag has an enum.
use ax_go.Common.{Text, Option, List}

pub data FlagType : Type 0 where
  type_bool type_count type_string type_duration type_float32 type_float64 : FlagType
  type_int type_int8 type_int16 type_int32 type_int64 : FlagType
  type_uint type_uint8 type_uint16 type_uint32 type_uint64 : FlagType
  type_bool_slice type_int_slice type_int32_slice type_int64_slice type_uint_slice : FlagType
  type_float32_slice type_float64_slice type_duration_slice type_string_slice : FlagType
  type_string_array type_ip type_ip_mask type_ip_net type_ip_slice type_ip_net_slice : FlagType
  type_bytes_hex type_bytes_base64 type_string_to_str type_string_to_int : FlagType
  type_string_to_int64 type_func type_boolfunc type_time : FlagType
  -- any other name, of a custom pflag.Value
  custom : Text → FlagType

-- `allowed` and `canonical` of an `enumValue`.
pub record Enum : Type 0 where
  pub allowed : List Text
  pub canonical : List Text

pub record Flag : Type 0 where
  pub name : Text
  pub flag_type : FlagType
  pub def_value : Text
  pub shorthand : Text
  pub usage : Text
  -- what GetSlice returns, if the value is a pflag.SliceValue
  pub slice : Option (List Text)
  -- the values of Cobra's annotation on required flags
  pub required_marks : List Text
  pub enum : Option Enum
  -- the values of the example annotation, none if it is not set
  pub example : List Text
