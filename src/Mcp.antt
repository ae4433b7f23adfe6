-- ===== src/Mcp.antt =====
-- The MCP tools of a command tree, of internal/mcp/mcp.go: which commands are tools, and what a tool
-- says of its command.
pub mod Callable
pub mod Advertised
pub mod Inputs
use ax_go.Common.{
  Text, codes, text_eq, fields, join, text_lt, Bool, true, false, not, ◌&&◌, ◌||◌, Option, none,
  some, List, [], ◌∷◌, ◌++◌, map, keep, is_empty, exists?, Result, ok, err, if◌then◌else◌,
}
use ax_go.Common.Sorts.{sort}
use ax_go.Schema.Pflag.{FlagType, Flag}
use ax_go.Schema.{Prompt, Resource, Command, Tree, node, Trees, leaf, child}
use ax_go.Schema.Convert.{
  JsonType, json_string, json_schema_type, json_schema_array_item_type, CanonicalError,
  canonical_enum_value,
}
use ax_go.Schema.Convert.Values.{
  JsonValue, string, Parsers, scalar_json, array_item_json, ExampleValue, example_json,
}
use ax_go.Schema.Flags.{flag_enum, flag_example}
use ax_go.Schema.Capability.{command_capability}
use ax_go.Schema.Declare.{Annotations, annotation, set_annotation}
use ax_go.Schema.Walk.{Kinds, collect_declarations}
use ax_go.Schema.Locators.{StringsJson, non_deterministic_fields}
use ax_go.Schema.Reflect.{is_required_flag, flags_of}

-- A hint that is not set is none.
pub record Hints : Type 0 where
  pub read_only : Bool
  pub destructive : Option Bool
  pub open_world : Option Bool

abbrev hints : Bool → Option Bool → Option Bool → Option Hints
hints read_only destructive open_world =
    some (record { read_only = read_only; destructive = destructive; open_world = open_world })

unfoldable pub capability_hints : Text → Option Hints
capability_hints class =
    if text_eq class (codes "read-only")
    then hints true none none
    else if text_eq class (codes "create")
    then hints false (some false) none
    else if exists? (text_eq class) (codes "mutate" ∷ codes "delete" ∷ codes "admin" ∷ [])
    then hints false (some true) none
    else if text_eq class (codes "external-network")
    then hints false none (some true)
    else none

unfoldable pub tool_name : Command → Text
tool_name cmd = join (codes "-") (fields cmd.path)

abbrev pub exclude_annotation_key : Text
exclude_annotation_key = codes "github.com/rshade/ax-go/mcp/exclude"

abbrev is_set_to : Text → Option Text → Bool
is_set_to value none = false
is_set_to value (some v) = text_eq v value

unfoldable pub is_excluded : Annotations → Bool
is_excluded annotations = is_set_to (codes "true") (annotation exclude_annotation_key annotations)

unfoldable pub mark_excluded : Annotations → Annotations
mark_excluded annotations = set_annotation exclude_annotation_key (codes "true") annotations

unfoldable pub is_reserved_command : Text → Bool
is_reserved_command name =
    exists? (text_eq name)
      (codes "__schema" ∷ codes "mcp-server" ∷ codes "completion" ∷ codes "help" ∷ [])

unfoldable mutual
  -- The commands in the order in which they are visited.
  pub walk_callable_commands : Tree → List Command
  walk_callable_commands (node cmd children) =
      let rest = walk_callable_children children in
      if cmd.hidden || is_reserved_command cmd.name
      then []
      else (if cmd.runnable && not (is_excluded cmd.annotations) then cmd ∷ [] else []) ++ rest

  -- The loop over the children.
  pub walk_callable_children : Trees → List Command
  walk_callable_children leaf = []
  walk_callable_children (child t children) =
      walk_callable_commands t ++ walk_callable_children children

unfoldable pub required_flags : Command → List Text
required_flags cmd = sort text_lt (map (λ f. f.name) (keep is_required_flag (flags_of cmd)))

module _ (p : Parsers) where
  open p use {Float}

  abbrev pub Values : Type 0
  Values = List (JsonValue Float)

  abbrev and_value : Option (JsonValue Float) → Option Values → Option Values
  and_value (some v) (some vs) = some (v ∷ vs)
  and_value _ _ = none

  abbrev pub member_of : FlagType → Result CanonicalError Text → Option (JsonValue Float)
  member_of t (err e) = none
  member_of t (ok canonical) = scalar_json p t canonical

  abbrev is_string : JsonType → Bool
  is_string json_string = true
  is_string _ = false

  abbrev pub member_json : FlagType → Text → Option (JsonValue Float)
  member_json t member =
      if is_string (json_schema_type t)
      then some (string member)
      else member_of t (canonical_enum_value t member)

  -- The loop over the members.
  unfoldable pub members_json : FlagType → List Text → Option Values
  members_json t [] = some []
  members_json t (member ∷ allowed) = and_value (member_json t member) (members_json t allowed)

  unfoldable pub enum_json : FlagType → List Text → Option Values
  enum_json t allowed = if is_empty allowed then none else members_json t allowed

  abbrev items_json : FlagType → JsonType → List Text → Option Values
  items_json t item_type [] = some []
  items_json t item_type (value ∷ source) =
      and_value (array_item_json p value item_type t) (items_json t item_type source)

  abbrev default_of : FlagType → JsonType → Option (List Text) → Option Values
  default_of t item_type none = none
  default_of t item_type (some source) = items_json t item_type source

  unfoldable pub json_schema_array_default : Flag → JsonType → Option Values
  json_schema_array_default f item_type = default_of f.flag_type item_type f.slice

  -- The "examples" of a property, one at most.
  unfoldable pub examples : FlagType → Flag → Option (ExampleValue p)
  examples t f = if is_empty (flag_example p f) then none else example_json p t (flag_example p f)

  -- A property of the input schema; none where a key is left out.
  pub data Property : Type 0 where
    array :
        (description : Text) (items : JsonType) (default : Option Values)
        (examples : Option (ExampleValue p))
        → Property
    scalar :
        (type : JsonType) (description : Text) (default : Option (JsonValue Float))
        (enum : Option Values) (examples : Option (ExampleValue p))
        → Property

  abbrev property_of : Flag → Option JsonType → Property
  property_of f (some item_type) =
      array f.usage item_type (json_schema_array_default f item_type) (examples f.flag_type f)
  property_of f none =
      scalar (json_schema_type f.flag_type) f.usage (scalar_json p f.flag_type f.def_value)
        (enum_json f.flag_type (flag_enum f)) (examples f.flag_type f)

  unfoldable pub flag_property : Flag → Property
  flag_property f = property_of f (json_schema_array_item_type f.flag_type)

  unfoldable pub flag_properties : Command → List (Text × Property)
  flag_properties cmd = map (λ f. (f.name, flag_property f)) (flags_of cmd)

  -- An empty list of required flags is left out.
  pub record InputSchema : Type 0 where
    pub properties : List (Text × Property)
    pub required : List Text

  unfoldable pub input_schema : Command → InputSchema
  input_schema cmd = record { properties = flag_properties cmd; required = required_flags cmd }

  pub record Tool : Type 0 where
    pub name : Text
    pub description : Text
    pub input_schema : InputSchema
    pub non_deterministic_fields : List Text
    -- the class, the note and the hints of a classified command
    pub capability : Option (Text × (Text × Option Hints))

  abbrev capability_of : Option (Text × Text) → Option (Text × (Text × Option Hints))
  capability_of none = none
  capability_of (some (class, note)) = some (class, (note, capability_hints class))

  module _ (json : StringsJson) where
    unfoldable pub build_tool : Command → Tool
    build_tool cmd = record {
      name = tool_name cmd;
      description = cmd.short;
      input_schema = input_schema cmd;
      non_deterministic_fields = non_deterministic_fields json cmd.annotations;
      capability = capability_of (command_capability cmd.annotations);
    }

    -- The static tools, prompts and resources.
    unfoldable pub build : Kinds → Tree → List Tool × (List Prompt × List Resource)
    build kinds root =
        (map build_tool (walk_callable_commands root), collect_declarations kinds root)
