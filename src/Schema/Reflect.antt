-- ===== src/Schema/Reflect.antt =====
-- The reflection of a command tree, of internal/schema/schema.go: BuildCommand and CollectFlags.
use ax_go.Common.{
  Text, codes, text_eq, text_eq_iff, Bool, Option, none, some, List, [], ◌∷◌, ◌++◌, map, exists?,
  if◌then◌else◌, ◌≡◌, arith,
}
use ax_go.Common.Distinct.{Distinct, is_seen, Unseen, Unseen-cons, Unseen-nil}
use ax_go.Schema.Pflag.{FlagType, Flag}
use ax_go.Schema.{Command, Tree, node, Trees, leaf, child}
use ax_go.Schema.Convert.Values.{Parsers}
use ax_go.Schema.Flags.{flag_enum, flag_example}
use ax_go.Schema.Declare.{Annotations}
use ax_go.Schema.Walk.{root_of}

unfoldable pub is_required_flag : Flag → Bool
is_required_flag f = exists? (text_eq (codes "true")) f.required_marks

-- The closure `add` on the flags that VisitAll visits: the first of each name.
unfoldable pub first_named : List Text → List Flag → List Flag
first_named seen [] = []
first_named seen (f ∷ flags) =
    let skipped = first_named seen flags in
    let added = f ∷ first_named (f.name ∷ seen) flags in
    if exists? (text_eq f.name) seen then skipped else added

-- The flags of a command, its own before the inherited ones.
unfoldable pub flags_of : Command → List Flag
flags_of cmd = first_named [] (cmd.own_flags ++ cmd.inherited_flags)

pub record FlagSchema : Type 0 where
  pub name : Text
  pub shorthand : Text
  pub flag_type : FlagType
  pub default : Text
  pub usage : Text
  pub required : Bool
  pub enum : List Text
  pub example : Text

pub record CommandFields : Type 0 where
  pub use_line : Text
  pub short : Text
  pub long : Text
  pub example : Text
  pub flags : List FlagSchema
  pub annotations : Annotations

mutual
  pub data CommandSchema : Type 0 where
    command_schema : CommandFields → CommandSchemas → CommandSchema

  pub data CommandSchemas : Type 0 where
    no_commands : CommandSchemas
    and_command : CommandSchema → CommandSchemas → CommandSchemas

module _ (p : Parsers) where
  unfoldable pub reflect_flag : Flag → FlagSchema
  reflect_flag f = record {
    name = f.name;
    shorthand = f.shorthand;
    flag_type = f.flag_type;
    default = f.def_value;
    usage = f.usage;
    required = is_required_flag f;
    enum = flag_enum f;
    example = flag_example p f;
  }

  unfoldable pub collect_flags : Command → List FlagSchema
  collect_flags cmd = map reflect_flag (flags_of cmd)

  unfoldable mutual
    pub build_command : Tree → CommandSchema
    build_command (node cmd children) =
        command_schema
          (record {
            use_line = cmd.use_line;
            short = cmd.short;
            long = cmd.long;
            example = cmd.example;
            flags = collect_flags cmd;
            annotations = cmd.annotations;
          })
          (build_children children)

    -- The loop over the children.
    pub build_children : Trees → CommandSchemas
    build_children leaf = no_commands
    build_children (child t children) =
        if (root_of t).hidden
        then build_children children
        else and_command (build_command t) (build_children children)

abbrev pub names_of : List Flag → List Text
names_of flags = map (λ f. f.name) flags

-- The flag that a name stands for.
abbrev pub named : Text → List Flag → Option Flag
named name [] = none
named name (f ∷ flags) = if text_eq f.name name then some f else named name flags

first_named-Unseen :
    (seen : List Text) (flags : List Flag) → Unseen seen (names_of (first_named seen flags))
unfolding first_named
first_named-Unseen seen [] = (tt, tt)
first_named-Unseen seen (f ∷ flags) = ground (
  arith,
  first_named-Unseen seen flags,
  first_named-Unseen (f.name ∷ seen) flags,
  Unseen-cons f.name seen (names_of (first_named (f.name ∷ seen) flags)),
)

named-first_named :
    (name : Text) (seen : List Text) (flags : List Flag)
    → named name (first_named seen flags) ≡ (if is_seen seen name then none else named name flags)
unfolding first_named
named-first_named name seen [] = ground arith
named-first_named name seen (f ∷ flags) = ground (
  arith,
  text_eq_iff f.name name,
  text_eq_iff name f.name,
  named-first_named name seen flags,
  named-first_named name (f.name ∷ seen) flags,
)

-- The names of a command's flags are distinct, and a name stands for the command's own flag if it has
-- one and else for the inherited one.
pub flags_of-IsResolved :
    (cmd : Command) (name : Text)
    → Distinct (names_of (flags_of cmd))
      × (named name (flags_of cmd) ≡ named name (cmd.own_flags ++ cmd.inherited_flags))
unfolding flags_of
flags_of-IsResolved cmd name = (
  (Unseen-nil _).0 (first_named-Unseen [] (cmd.own_flags ++ cmd.inherited_flags)),
  named-first_named name [] (cmd.own_flags ++ cmd.inherited_flags),
)
