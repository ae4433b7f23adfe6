-- ===== src/Schema/Flags.antt =====
-- The enums and examples that are declared on flags, of internal/schema/declare.go.
pub mod Members
pub mod Consistent
use ax_go.Common.{
  Text, codes, text_eq, trim_space, Bool, true, false, not, ◌&&◌, ◌||◌, Option, none, some, List,
  [], ◌∷◌, ◌++◌, is_empty, exists?, Result, ok, err, if◌then◌else◌,
}
use ax_go.Schema.Pflag.{FlagType, Enum, Flag}
use ax_go.Schema.{
  Reason, nil_command, required, duplicate, flag_not_found, unsupported_type, invalid_value,
  not_in_enum, not_in_vocabulary, Violation,
}
use ax_go.Schema.Validate.{violation, check_if, first_violation}
use ax_go.Schema.Convert.{CanonicalError, parse_failed, unsupported_enum_type, canonical_enum_value}
use ax_go.Schema.Convert.Values.{Parsers, is_some, validate_value, example_json}

-- The flags of a command, its own and its persistent ones.
pub record FlagCommand : Type 0 where
  pub flags : List Flag
  pub persistent_flags : List Flag

abbrev pub has_form : List Text → Result CanonicalError Text → Bool
has_form canonical (err e) = false
has_form canonical (ok form) = exists? (text_eq form) canonical

unfoldable pub is_member : FlagType → List Text → Text → Bool
is_member t canonical value = has_form canonical (canonical_enum_value t value)

unfoldable pub default_is_member : FlagType → List Text → Text → Bool
unfolding is_member
default_is_member t canonical def_value = is_empty def_value || is_member t canonical def_value

abbrev is_supported : Result CanonicalError Text → Bool
is_supported (err unsupported_enum_type) = false
is_supported _ = true

unfoldable pub enum_type_supported : Flag → Bool
enum_type_supported f =
    not (is_some f.slice) && is_supported (canonical_enum_value f.flag_type (codes "0"))

unfoldable pub declared_example : Flag → Option Text
declared_example f = elim f.example [
  | [] ↦ none
  | e ∷ es ↦ if is_empty es && not (is_empty e) then some e else none
]

-- What a flag with an enum does with a value: hand it to the wrapped value, or reject it with the
-- suggestions that `rejection` makes.
pub data EnumSet : Type 0 where
  forwarded : EnumSet
  rejected : List Text → EnumSet

abbrev pub suggestions : Text → List Text → List Text
suggestions name [] = []
suggestions name (a ∷ allowed) = (codes "--" ++ name ++ codes "=" ++ a) ∷ suggestions name allowed

unfoldable pub enum_set : Flag → Enum → Text → EnumSet
enum_set f enum value =
    if text_eq value f.def_value
    then forwarded
    else if is_member f.flag_type enum.canonical value
    then forwarded
    else rejected (suggestions f.name enum.allowed)

abbrev pub with_form :
    List Text
    → Result CanonicalError Text
    → (List Text → Result Violation (List Text))
    → Result Violation (List Text)
with_form canonical (err e) next = err (violation (codes "values") invalid_value)
with_form canonical (ok form) next =
    if exists? (text_eq form) canonical
    then err (violation (codes "values") duplicate)
    else next (canonical ++ form ∷ [])

-- The loop over the values of an enum.
unfoldable pub canonical_forms : FlagType → List Text → List Text → Result Violation (List Text)
canonical_forms t canonical [] = ok canonical
canonical_forms t canonical (value ∷ values) =
    with_form canonical (canonical_enum_value t value)
      (λ canonical'. canonical_forms t canonical' values)

abbrev example_fits : Flag → List Text → Option Text → Bool
example_fits f canonical none = true
example_fits f canonical (some example) = is_member f.flag_type canonical example

abbrev pub with_forms : Flag → List Text → Result Violation (List Text) → Option Violation × Flag
with_forms f values (err v) = (some v, f)
with_forms f values (ok canonical) =
    if not (default_is_member f.flag_type canonical f.def_value)
    then (some (violation (codes "default") not_in_enum), f)
    else if not (example_fits f canonical (declared_example f))
    then (some (violation (codes "example") not_in_enum), f)
    else (none, record f { enum = some (record { allowed = values; canonical = canonical }) })

-- AddFlagEnum on the flag that it looked up.
unfoldable pub add_flag_enum : Flag → List Text → Option Violation × Flag
add_flag_enum f values =
    if not (enum_type_supported f)
    then (some (violation (codes "flag") unsupported_type), f)
    else if is_empty values
    then (some (violation (codes "values") required), f)
    else with_forms f values (canonical_forms f.flag_type [] values)

abbrev advertised : Flag → Option Enum → List Text
advertised f none = []
advertised f (some enum) =
    if default_is_member f.flag_type enum.canonical f.def_value then enum.allowed else []

unfoldable pub flag_enum : Flag → List Text
flag_enum f = advertised f f.enum

abbrev pub fits_enum : Flag → Option Enum → Text → Bool
fits_enum f none example = true
fits_enum f (some enum) example = is_member f.flag_type enum.canonical example

module _ (p : Parsers) where
  unfoldable pub example_problem : Flag → Text → Option Reason
  example_problem f example =
      if not (validate_value p f.flag_type example)
      then some invalid_value
      else if not (is_some (example_json p f.flag_type example))
      then some invalid_value
      else if fits_enum f f.enum example
      then none
      else some not_in_enum

  abbrev pub set_example : Flag → Text → Option Reason → Option Violation × Flag
  set_example f example none = (none, record f { example = example ∷ [] })
  set_example f example (some reason) = (some (violation (codes "example") reason), f)

  -- AddFlagExample on the flag that it looked up.
  unfoldable pub add_flag_example : Flag → Text → Option Violation × Flag
  add_flag_example f example =
      if is_empty example
      then (some (violation (codes "example") required), f)
      else set_example f example (example_problem f example)

  abbrev shown : Flag → Option Text → Text
  shown f none = []
  shown f (some example) = if is_some (example_problem f example) then [] else example

  unfoldable pub flag_example : Flag → Text
  flag_example f = shown f (declared_example f)

-- `FlagSet.Lookup`, and the set with that flag replaced.
abbrev pub lookup_in : Text → List Flag → Option Flag
lookup_in name [] = none
lookup_in name (f ∷ flags) = if text_eq f.name name then some f else lookup_in name flags

abbrev pub update_in : Text → Flag → List Flag → List Flag
update_in name f' [] = []
update_in name f' (f ∷ flags) =
    if text_eq f.name name then f' ∷ flags else f ∷ update_in name f' flags

abbrev update_own : FlagCommand → Text → Flag → FlagCommand
update_own cmd name f' = record cmd { flags = update_in name f' cmd.flags }

abbrev update_persistent : FlagCommand → Text → Flag → FlagCommand
update_persistent cmd name f' = record cmd {
  persistent_flags = update_in name f' cmd.persistent_flags;
}

abbrev declare_on :
    (FlagCommand → Text → Flag → FlagCommand)
    → FlagCommand
    → Text
    → Option Violation × Flag
    → Option Violation × Option FlagCommand
declare_on update cmd name (v, f') = (v, some (update cmd name f'))

abbrev on_persistent :
    FlagCommand
    → Text
    → (Flag → Option Violation × Flag)
    → Option Flag
    → Option Violation × Option FlagCommand
on_persistent cmd name declare none = (some (violation (codes "flag") flag_not_found), some cmd)
on_persistent cmd name declare (some f) = declare_on update_persistent cmd name (declare f)

abbrev on_own :
    FlagCommand
    → Text
    → (Flag → Option Violation × Flag)
    → Option Flag
    → Option Violation × Option FlagCommand
on_own cmd name declare (some f) = declare_on update_own cmd name (declare f)
on_own cmd name declare none = on_persistent cmd name declare (lookup_in name cmd.persistent_flags)

-- `lookupFlag`, and what is declared on the flag that it finds; the pointer may be nil.
unfoldable pub with_flag :
    Option FlagCommand
    → Text
    → (Flag → Option Violation × Flag)
    → Option Violation × Option FlagCommand
with_flag none name declare = (some (violation (codes "cmd") nil_command), none)
with_flag (some cmd) name declare = on_own cmd name declare (lookup_in name cmd.flags)
