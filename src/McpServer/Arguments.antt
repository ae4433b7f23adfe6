-- ===== src/McpServer/Arguments.antt =====
-- `buildArgs`: the arguments of a call against the flags of its command. Arguments are the pairs of
-- the decoded object. The %q of an error message is left out, encoding/csv is the parameter
-- `read_csv`, and a fresh idempotency key is an argument.
pub mod Build
pub mod Safety
pub mod Required
pub mod Deterministic
use ax_go.Common.{
  ℕ, Text, codes, text_eq, text_lt, split, Bool, true, false, ◌||◌, ◌&&◌, not, Option, none, some,
  List, [], ◌∷◌, ◌++◌, map, keep, is_empty, exists?, Result, ok, err, if◌then◌else◌,
}
use ax_go.Common.Sorts.{sort}
use ax_go.Contract.Context.{Context, with_mode, with_dry_run, with_approval, with_idempotency_key}
use ax_go.Contract.Errors.{AxError}
use ax_go.Contract.Mode.{Mode, json}
use ax_go.McpServer.Errors.{Server, validation}

-- A decoded value that is no list; a number keeps its literal, as UseNumber does.
pub data Scalar : Type 0 where
  null_value : Scalar
  bool_value : Bool → Scalar
  text_value : Text → Scalar
  number_value : Text → Scalar
  nested_value : Text → Scalar

pub data Value : Type 0 where
  scalar : Scalar → Value
  list_value : List Scalar → Value

-- A flag of the command: the type of its slice value, if it is one, and whether it is required.
pub record FlagInfo : Type 0 where
  pub name : Text
  pub slice_type : Option Text
  pub required : Bool

pub record CallConfig : Type 0 where
  pub mode : Mode
  pub dry_run : Bool
  pub approval : Bool
  pub idempotency_key : Text

-- What the loop over the arguments builds.
pub record Building : Type 0 where
  pub config : CallConfig
  pub flag_args : List Text
  pub assignments : List (Text × List Text)
  pub set_flags : List Text

pub record Built : Type 0 where
  pub argv : List Text
  pub assignments : List (Text × List Text)
  pub config : CallConfig

abbrev pub flag_format : Text
flag_format = codes "format"

abbrev pub flag_dry_run : Text
flag_dry_run = codes "dry-run"

abbrev pub flag_yes : Text
flag_yes = codes "yes"

abbrev pub flag_idempotency_key : Text
flag_idempotency_key = codes "idempotency-key"

abbrev pub bool_text : Bool → Text
bool_text true = codes "true"
bool_text false = codes "false"

-- `none` skips a null.
unfoldable pub stringify_arg : Scalar → Result Text (Option Text)
stringify_arg null_value = ok none
stringify_arg (bool_value b) = ok (some (bool_text b))
stringify_arg (text_value s) = ok (some s)
stringify_arg (number_value s) = ok (some s)
stringify_arg (nested_value kind) = err (codes "unsupported value type " ++ kind)

abbrev next_item : Result Text (Option Text) → Result Text (List Text) → Result Text (List Text)
next_item (err e) rest = err (codes "item: " ++ e)
next_item (ok none) rest = err (codes "item must not be null")
next_item (ok (some s)) (err e) = err e
next_item (ok (some s)) (ok values) = ok (s ∷ values)

unfoldable pub stringify_items : List Scalar → Result Text (List Text)
stringify_items [] = ok []
stringify_items (item ∷ items) = next_item (stringify_arg item) (stringify_items items)

abbrev included : Result Text (List Text) → Result Text (Option (List Text))
included (err e) = err e
included (ok values) = ok (some values)

abbrev pub stringify_scalar : Value → Result Text (Option Text)
stringify_scalar (scalar v) = stringify_arg v
stringify_scalar (list_value items) = err (codes "unsupported value type []interface {}")

abbrev pub with_slice : Text → Building → Result Text (Option (List Text)) → Result Text Building
with_slice key b (err e) = err (codes "argument: " ++ e)
with_slice key b (ok none) = ok b
with_slice key b (ok (some values)) = ok (record b {
  assignments = b.assignments ++ (key, values) ∷ [];
  set_flags = b.set_flags ++ key ∷ [];
})

abbrev pub with_plain : Text → Building → Result Text (Option Text) → Result Text Building
with_plain key b (err e) = err (codes "argument: " ++ e)
with_plain key b (ok none) = ok b
with_plain key b (ok (some s)) = ok (record b {
  flag_args = b.flag_args ++ (codes "--" ++ (key ++ (b'=' ∷ s))) ∷ [];
  set_flags = b.set_flags ++ key ∷ [];
})

abbrev pub marked : Text → Building → CallConfig → Result Text Building
marked key b config = ok (record b { config = config; set_flags = b.set_flags ++ key ∷ [] })

abbrev pub config_bool : Text → Building → Value → (Bool → CallConfig) → Result Text Building
config_bool key b (scalar (bool_value v)) set = marked key b (set v)
config_bool key b value set = err (codes "argument must be a boolean")

abbrev pub config_text : Text → Building → Value → (Text → CallConfig) → Result Text Building
config_text key b (scalar (text_value s)) set = marked key b (set s)
config_text key b value set = err (codes "argument must be a string")

unfoldable pub find_flag : List FlagInfo → Text → Option FlagInfo
find_flag [] key = none
find_flag (f ∷ allowed) key = if text_eq f.name key then some f else find_flag allowed key

abbrev pub then_rest :
    Result Text Building → (Building → Result Text Building) → Result Text Building
then_rest (err e) rest = err e
then_rest (ok b) rest = rest b

module _ (read_csv : Text → Result Text (List Text)) where
  unfoldable pub split_scalar_slice_arg : Text → Text → Result Text (List Text)
  split_scalar_slice_arg value flag_type =
      if text_eq flag_type (codes "stringArray")
      then ok (value ∷ [])
      else if text_eq flag_type (codes "stringSlice")
      then (if is_empty value then ok [] else read_csv value)
      else ok (split b',' value)

  abbrev split_scalar : Text → Result Text (Option Text) → Result Text (Option (List Text))
  split_scalar flag_type (err e) = err e
  split_scalar flag_type (ok none) = ok none
  split_scalar flag_type (ok (some s)) = included (split_scalar_slice_arg s flag_type)

  unfoldable pub stringify_arg_list : Value → Text → Result Text (Option (List Text))
  stringify_arg_list (list_value items) flag_type = included (stringify_items items)
  stringify_arg_list (scalar v) flag_type = split_scalar flag_type (stringify_arg v)

  abbrev pub convert_slice : Text → Option Text → Value → Building → Result Text Building
  convert_slice key none value b = with_plain key b (stringify_scalar value)
  convert_slice key (some flag_type) value b = with_slice key b (stringify_arg_list value flag_type)

  unfoldable pub append_converted_flag_arg :
      Text → FlagInfo → Value → Building → Result Text Building
  append_converted_flag_arg key flag value b = convert_slice key flag.slice_type value b

  -- `applyCallConfigArg`, and the conversion of any other argument.
  unfoldable pub apply_arg : Text → FlagInfo → Value → Building → Result Text Building
  apply_arg key flag value b =
      if text_eq key flag_format
      then marked key b b.config
      else if text_eq key flag_dry_run
      then config_bool key b value (λ v. record b.config { dry_run = v })
      else if text_eq key flag_yes
      then config_bool key b value (λ v. record b.config { approval = v })
      else if text_eq key flag_idempotency_key
      then config_text key b value (λ s. record b.config { idempotency_key = s })
      else append_converted_flag_arg key flag value b

  abbrev pub apply_found : Option FlagInfo → Text → Value → Building → Result Text Building
  apply_found none key value b = err (codes "unknown argument")
  apply_found (some flag) key value b = apply_arg key flag value b

  -- The loop, over the arguments in the order of their keys.
  unfoldable pub apply_args : List FlagInfo → List (Text × Value) → Building → Result Text Building
  apply_args allowed [] b = ok b
  apply_args allowed ((key, value) ∷ args) b =
      then_rest (apply_found (find_flag allowed key) key value b) (λ b'. apply_args allowed args b')
