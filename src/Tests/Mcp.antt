-- ===== src/Tests/Mcp.antt =====
-- A tree with a hidden command, a group and two tools.
use ax_go.Common.{
  Text, codes, text_eq, show_int, Bool, true, false, some, List, [], ◌∷◌, ◌≡◌, ◌↔◌, refl, inl,
}
use ax_go.Common.Strconv.{digit, digits_base, base_of, parse_int_any}
use ax_go.Schema.Pflag.{Flag}
use ax_go.Schema.{Command, Tree, node, leaf, child}
use ax_go.Schema.Convert.{canonical_enum_value, canonical_signed}
use ax_go.Schema.Convert.Values.{JsonValue}
use ax_go.Schema.Convert.Canonical.{reading}
use ax_go.Schema.Flags.{
  add_flag_enum, flag_enum, enum_type_supported, canonical_forms, default_is_member,
  declared_example,
}
use ax_go.Schema.Declare.{annotation}
use ax_go.Mcp.{
  tool_name, walk_callable_commands, is_excluded, is_reserved_command, input_schema, enum_json,
}
use ax_go.Mcp.Callable.{Listed, IsCallable, walk_callable_commands_iff}
use ax_go.Mcp.Advertised.{AreMembers, enum_json-add_flag_enum}
use ax_go.Mcp.Inputs.{IsFaithful, input_schema-IsFaithful}
use ax_go.McpServer.Tools.{resolve_target}
use ax_go.McpServer.Tools.Routed.{IsRouted, resolve_target-IsRouted, resolve_target-tool_name}
use ax_go.Tests.Flags.{level, levels, parsers}
use ax_go.Tests.Schema.Codec.{strings_of}

abbrev cobra_command : Text → Text → Bool → Bool → List Flag → Command
cobra_command name path hidden runnable flags = record {
  name = name;
  path = path;
  use_line = name;
  short = codes "does it";
  long = [];
  example = [];
  hidden = hidden;
  runnable = runnable;
  requires_args = false;
  own_flags = flags;
  inherited_flags = level ∷ [];
  annotations = [];
}

abbrev pub required_level : Flag
required_level = record level { required_marks = codes "true" ∷ [] }

abbrev app : Command
app = cobra_command (codes "app") (codes "app") false false []

abbrev pub list : Command
list = cobra_command (codes "list") (codes "app list") false true (required_level ∷ [])

abbrev old : Command
old = cobra_command (codes "old") (codes "app old") true true []

abbrev show : Command
show = cobra_command (codes "show") (codes "app old show") false true []

abbrev pub root : Tree
root = node app (child (node old (child (node show leaf) leaf)) (child (node list leaf) leaf))

walk_callable_commands_iff_example :
    Listed show (walk_callable_commands root) ↔ IsCallable root show
walk_callable_commands_iff_example = walk_callable_commands_iff root show

resolve_target-IsRouted_example :
    IsRouted root (codes "app-list") (resolve_target parsers strings_of root (codes "app-list"))
resolve_target-IsRouted_example = resolve_target-IsRouted parsers strings_of root (codes "app-list")

resolve_target-tool_name_example :
    resolve_target parsers strings_of root (tool_name list) ≡ some list
unfolding walk_callable_commands is_excluded is_reserved_command text_eq annotation
resolve_target-tool_name_example =
    resolve_target-tool_name parsers strings_of root list (tt, tt) (inl refl)

input_schema-IsFaithful_example :
    IsFaithful parsers list (codes "level") (input_schema parsers list)
input_schema-IsFaithful_example = input_schema-IsFaithful parsers list (codes "level")

enum_json-add_flag_enum_example :
    (vs : List (JsonValue parsers.Float)) × (enum_json parsers level.flag_type
        (flag_enum (add_flag_enum level levels).1)
      ≡ some vs)
    × AreMembers parsers (reading level.flag_type) levels vs
unfolding add_flag_enum enum_type_supported canonical_enum_value canonical_signed parse_int_any
    digits_base base_of canonical_forms digit text_eq show_int default_is_member declared_example
enum_json-add_flag_enum_example = enum_json-add_flag_enum parsers level levels refl
