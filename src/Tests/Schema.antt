-- ===== src/Tests/Schema.antt =====
-- A prompt, a tree that declares it, and a template with runs of braces.
pub mod Codec
use ax_go.Common.{
  ℕ, ◌%◌, Text, codes, text_eq, has_prefix, cut_prefix, show_nat, digits_onto, Bool, true, false,
  Option, none, some, List, [], ◌∷◌, ◌++◌, length, take, ◌≡◌, ◌≤◌, ◌↔◌, refl, arith, ok, All,
}
use ax_go.Common.Index.{index}
use ax_go.Common.Distinct.{Distinct}
use ax_go.Common.Words.{word}
use ax_go.Common.Utf8.{valid_string, runes, runes_from, lead_byte}
use ax_go.Schema.{PromptArgument, Prompt, Resource, Command, Tree, node, leaf, child}
use ax_go.Schema.Template.{
  Values, is_name_rune, all_name_runes, valid_name, last_open_from, last_reachable_open, scan_from,
  scan_placeholders, template_placeholders, value_of, render_from, render_template, len_from,
  rendered_len,
}
use ax_go.Schema.Template.Grammar.{spec_scan}
use ax_go.Schema.Template.Scan.{scan_placeholders_lem}
use ax_go.Schema.Template.Render.{spec_render, render_template_lem}
use ax_go.Schema.Template.Size.{rendered_len-render_template}
use ax_go.Schema.Validate.{
  validate_prompt, validate_arguments, validate_placeholders, check_name, check_utf8,
  argument_field, validate_resource,
}
use ax_go.Schema.Validate.Prompts.{IsPrompt, validate_prompt_iff}
use ax_go.Schema.Validate.Resources.{IsResource, validate_resource_iff}
use ax_go.Schema.Declare.{
  Annotations, Declaring, prompt_declaring, add_declaration, decode_valid, projected, annotation,
}
use ax_go.Schema.Declare.Laws.{IsOutcome, add_declaration-IsOutcome}
use ax_go.Schema.Walk.{
  Kinds, prompts_of, resources_of, walk_declaration_commands, find_duplicate, find_duplicate_of,
  duplicate_on, duplicate_in, first_path_of, collect_declarations,
}
use ax_go.Schema.Walk.Unique.{declared_on, keys, find_duplicate_iff}
use ax_go.Schema.Walk.Collected.{IsCollected, collect_declarations_lem, collect_declarations_all}
use ax_go.McpServer.Prompts.{prompt_handler, check_values, check_required, PromptResult}
use ax_go.McpServer.Prompts.Served.{IsServed, prompt_handler-IsServed}
use ax_go.Tests.Schema.Codec.{prompt_code, resource_code, json_of}

abbrev braces : Text
braces = codes "{{{x}}} is {{name}}, {{{{name}}"

abbrev values : Values
values = (codes "name", codes "Go") ∷ []

abbrev greeting : Text
greeting = codes "{{{x}}} is Go, {{Go"

braces_rendered : render_template braces values ≡ greeting
unfolding render_template render_from scan_placeholders scan_from index has_prefix cut_prefix
    valid_name all_name_runes is_name_rune last_reachable_open last_open_from value_of text_eq
braces_rendered = refl

scan_placeholders_lem_example : scan_placeholders braces ≡ spec_scan 0 0 braces
scan_placeholders_lem_example = scan_placeholders_lem braces

abbrev greet : Prompt
greet = record {
  name = codes "greet";
  title = [];
  description = codes "says hello";
  arguments = record { name = codes "name"; title = []; description = []; required = true } ∷ [];
  template = codes "Hi {{name}}";
}

greet_valid : validate_prompt greet ≡ none
unfolding validate_prompt validate_arguments validate_placeholders check_name check_utf8
    argument_field show_nat digits_onto valid_string runes runes_from lead_byte
    template_placeholders scan_placeholders scan_from index has_prefix cut_prefix valid_name
    all_name_runes is_name_rune last_reachable_open last_open_from text_eq
greet_valid = refl

validate_prompt_iff_example : (validate_prompt greet ≡ none) ↔ IsPrompt greet
validate_prompt_iff_example = validate_prompt_iff greet

abbrev readme : Resource
readme = record {
  uri = codes "app://readme";
  name = codes "readme";
  title = [];
  description = [];
  mime_type = codes "text/plain";
  content = codes "Hi";
}

abbrev scheme_at : Text → Option ℕ → Option Text
scheme_at uri none = none
scheme_at uri (some n) = some (take n uri)

abbrev scheme_of : Text → Option Text
scheme_of uri = scheme_at uri (index (codes ":") uri)

validate_resource_iff_example :
    (validate_resource scheme_of readme ≡ none) ↔ IsResource scheme_of readme
validate_resource_iff_example = validate_resource_iff scheme_of readme

prompt_handler-IsServed_example :
    IsServed greet values (record { description = codes "says hello"; text = codes "Hi Go" })
unfolding prompt_handler check_values check_required rendered_len len_from render_template
    render_from value_of text_eq scan_placeholders scan_from index has_prefix cut_prefix valid_name
    all_name_runes is_name_rune last_reachable_open last_open_from
prompt_handler-IsServed_example = prompt_handler-IsServed greet values _ (omega arith) refl

abbrev kinds : Kinds
kinds = record {
  parse_scheme = λ uri. some (codes "ax");
  prompt_json = json_of prompt_code validate_prompt;
  resource_json = json_of resource_code _;
}

abbrev cobra_command : Text → Bool → Annotations → Command
cobra_command path hidden annotations = record {
  name = path;
  path = path;
  use_line = path;
  short = [];
  long = [];
  example = [];
  hidden = hidden;
  runnable = true;
  requires_args = false;
  own_flags = [];
  inherited_flags = [];
  annotations = annotations;
}

abbrev command : Text → Bool → List Prompt → Command
command path hidden prompts =
    cobra_command path hidden
      ((codes "github.com/rshade/ax-go/schema/prompts", kinds.prompt_json.encode prompts) ∷ [])

abbrev bare : Command
bare = cobra_command (codes "app bare") false []

-- The second command declares the prompt again, but it is hidden.
abbrev root : Tree
root =
    node (command (codes "app") false (greet ∷ [])) (
      child (node (command (codes "app old") true (greet ∷ [])) leaf) (child (node bare leaf) leaf))

add_declaration-IsOutcome_example :
    IsOutcome (prompts_of kinds) bare greet (add_declaration (prompts_of kinds) bare greet)
add_declaration-IsOutcome_example = add_declaration-IsOutcome (prompts_of kinds) bare greet

find_duplicate_iff_example : (find_duplicate kinds root ≡ none) ↔ (
    Distinct
      (keys (prompts_of kinds) (declared_on (prompts_of kinds) (walk_declaration_commands root)))
    × Distinct (
        keys
          (resources_of kinds)
          (declared_on (resources_of kinds) (walk_declaration_commands root))))
find_duplicate_iff_example = find_duplicate_iff kinds root

root_unique : find_duplicate kinds root ≡ none
unfolding find_duplicate find_duplicate_of duplicate_on duplicate_in first_path_of
    walk_declaration_commands projected decode_valid annotation validate_prompt validate_arguments
    validate_placeholders check_name check_utf8 argument_field show_nat digits_onto valid_string
    runes runes_from lead_byte template_placeholders scan_placeholders scan_from index has_prefix
    cut_prefix valid_name all_name_runes is_name_rune last_reachable_open last_open_from text_eq
root_unique = refl

collect_declarations_all_example : collect_declarations kinds root ≡ (
  declared_on (prompts_of kinds) (walk_declaration_commands root),
  declared_on (resources_of kinds) (walk_declaration_commands root),
)
collect_declarations_all_example = collect_declarations_all kinds root root_unique
