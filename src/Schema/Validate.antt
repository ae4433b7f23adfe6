-- ===== src/Schema/Validate.antt =====
-- ValidatePrompt and ValidateResource, of internal/schema/declarations.go. The parsing of a URL by
-- net/url is an argument: the scheme that it reads, `none` where it fails.
pub mod Prompts
pub mod Resources
use ax_go.Common.{
  ℕ, zero, suc, ◌+◌, ◌*◌, ◌^◌, Text, codes, text_eq, is_space, show_nat, Bool, true, false, not,
  ◌&&◌, ◌||◌, Option, none, some, List, [], ◌∷◌, ◌++◌, map, is_empty, length, exists?, ltb,
  if◌then◌else◌,
}
use ax_go.Common.Utf8.{valid_string, is_control, contains_func}
use ax_go.Schema.{
  Reason, required, invalid_charset, invalid_utf8, duplicate, undeclared_placeholder, not_absolute,
  malformed, too_long, invalid_character, PromptArgument, Prompt, Resource, Violation,
}
use ax_go.Schema.Template.{valid_name, template_placeholders}

abbrev pub max_resource_uri_bytes : ℕ
max_resource_uri_bytes = 2048

abbrev pub max_resource_content_bytes : ℕ
max_resource_content_bytes = 2 ^ 20

abbrev pub max_template_bytes : ℕ
max_template_bytes = 64 * 2 ^ 10

abbrev pub violation : Text → Reason → Violation
violation field reason = record { field = field; reason = reason }

-- A check that reports `reason` if the test holds.
abbrev pub check_if : Bool → Text → Reason → Option Violation
check_if broken field reason = if broken then some (violation field reason) else none

-- The first of a row of checks that reports something, each returning early in the source.
abbrev pub first_violation : List (Option Violation) → Option Violation
first_violation [] = none
first_violation (none ∷ checks) = first_violation checks
first_violation (some v ∷ checks) = some v

unfoldable pub check_name : Text → Text → Option Violation
check_name field name =
    if is_empty name
    then some (violation field required)
    else check_if (not (valid_name name)) field invalid_charset

unfoldable pub check_utf8 : Text → Text → Option Violation
check_utf8 field value = check_if (not (valid_string value)) field invalid_utf8

unfoldable pub argument_field : ℕ → Text → Text
argument_field i name = codes "arguments[" ++ show_nat i ++ codes "]." ++ name

-- The loop over the arguments, `declared` being the names read so far.
unfoldable pub validate_arguments : ℕ → List Text → List PromptArgument → Option Violation
validate_arguments i declared [] = none
validate_arguments i declared (arg ∷ args) = first_violation (
    check_name (argument_field i (codes "name")) arg.name
    ∷ check_if (exists? (text_eq arg.name) declared) (argument_field i (codes "name")) duplicate
    ∷ check_utf8 (argument_field i (codes "title")) arg.title
    ∷ check_utf8 (argument_field i (codes "description")) arg.description
    ∷ validate_arguments (i + 1) (arg.name ∷ declared) args
    ∷ [])

-- The loop over the placeholders of the template.
unfoldable pub validate_placeholders : List Text → List Text → Option Violation
validate_placeholders declared [] = none
validate_placeholders declared (name ∷ names) = first_violation (
    check_if (not (exists? (text_eq name) declared)) (codes "template") undeclared_placeholder
    ∷ validate_placeholders declared names
    ∷ [])

unfoldable pub validate_prompt : Prompt → Option Violation
validate_prompt prompt = first_violation (
    check_name (codes "name") prompt.name
    ∷ check_utf8 (codes "title") prompt.title
    ∷ check_utf8 (codes "description") prompt.description
    ∷ validate_arguments 0 [] prompt.arguments
    ∷ check_if (is_empty prompt.template) (codes "template") required
    ∷ check_if (ltb max_template_bytes (length prompt.template)) (codes "template") too_long
    ∷ check_utf8 (codes "template") prompt.template
    ∷ validate_placeholders (map (λ (a : PromptArgument). a.name) prompt.arguments)
        (template_placeholders prompt.template)
    ∷ [])

unfoldable pub is_control_or_space : ℕ → Bool
is_control_or_space r = is_space r || is_control r

abbrev pub check_scheme : Option Text → Option Violation
check_scheme none = some (violation (codes "uri") malformed)
check_scheme (some scheme) = check_if (is_empty scheme) (codes "uri") not_absolute

module _ (parse_scheme : Text → Option Text) where
  unfoldable pub check_uri : Text → Option Violation
  check_uri uri = first_violation (
      check_if (is_empty uri) (codes "uri") required
      ∷ check_if (ltb max_resource_uri_bytes (length uri)) (codes "uri") too_long
      ∷ check_utf8 (codes "uri") uri
      ∷ check_if (contains_func uri is_control_or_space) (codes "uri") invalid_character
      ∷ check_scheme (parse_scheme uri)
      ∷ [])

  unfoldable pub validate_resource : Resource → Option Violation
  validate_resource resource = first_violation (
      check_uri resource.uri
      ∷ check_if (is_empty resource.name) (codes "name") required
      ∷ check_utf8 (codes "name") resource.name
      ∷ check_utf8 (codes "title") resource.title
      ∷ check_utf8 (codes "description") resource.description
      ∷ check_utf8 (codes "mime_type") resource.mime_type
      ∷ check_if (contains_func resource.mime_type is_control) (codes "mime_type") invalid_character
      ∷ check_if (ltb max_resource_content_bytes (length resource.content)) (codes "content")
          too_long
      ∷ check_utf8 (codes "content") resource.content
      ∷ [])
