-- ===== src/Schema/Walk.antt =====
-- The declarations of a whole tree, of internal/schema/declarations.go: the walk, FindDuplicate,
-- FindCorrupt and CollectDeclarations. A closure that the walk calls is a function of the commands
-- in walk order and of the variables it captures.
pub mod Unique
pub mod Collected
use ax_go.Common.{
  Text, codes, text_eq, Bool, true, false, Option, none, some, List, [], ◌∷◌, ◌++◌, exists?,
  if◌then◌else◌,
}
use ax_go.Schema.{
  Kind, prompt, resource, Reason, duplicate, corrupt_annotation, Prompt, Resource, Conflict,
  Command, Tree, node, Trees, leaf, child,
}
use ax_go.Schema.Validate.{validate_prompt, validate_resource}
use ax_go.Schema.Declare.{
  Json, Declaring, prompt_declaring, resource_declaring, decode_valid, projected,
}

abbrev pub root_of : Tree → Command
root_of (node cmd children) = cmd

unfoldable mutual
  -- The commands in the order in which they are visited.
  pub walk_declaration_commands : Tree → List Command
  walk_declaration_commands (node cmd children) = cmd ∷ walk_children children

  -- The loop over the children.
  pub walk_children : Trees → List Command
  walk_children leaf = []
  walk_children (child t children) =
      if (root_of t).hidden
      then walk_children children
      else walk_declaration_commands t ++ walk_children children

-- `firstPath`: the path of the command that declares a key first.
abbrev pub FirstPaths : Type 0
FirstPaths = List (Text × Text)

unfoldable pub first_path_of : Text → FirstPaths → Option Text
first_path_of key [] = none
first_path_of key ((k, path) ∷ paths) = if text_eq k key then some path else first_path_of key paths

module _ {T : Type 0} (k : Declaring T) (kind : Kind) where
  abbrev pub on_first :
      Text → Text → FirstPaths → Option Text → (FirstPaths → Option Conflict) → Option Conflict
  on_first key path paths none next = next ((key, path) ∷ paths)
  on_first key path paths (some first) next =
      some (record { kind = kind; key = key; reason = duplicate; commands = first ∷ path ∷ [] })

  -- The loop over the declarations of one command; `next` visits the commands behind it.
  unfoldable pub duplicate_in :
      Text → List T → FirstPaths → (FirstPaths → Option Conflict) → Option Conflict
  duplicate_in path [] paths next = next paths
  duplicate_in path (d ∷ ds) paths next =
      on_first (k.key d) path paths (first_path_of (k.key d) paths)
        (λ paths'. duplicate_in path ds paths' next)

  unfoldable pub duplicate_on : List Command → FirstPaths → Option Conflict
  duplicate_on [] paths = none
  duplicate_on (cmd ∷ cmds) paths =
      duplicate_in cmd.path (projected k cmd.annotations) paths (λ paths'. duplicate_on cmds paths')

  unfoldable pub find_duplicate_of : Tree → Option Conflict
  find_duplicate_of root = duplicate_on (walk_declaration_commands root) []

-- The two kinds of declarations.
pub record Kinds : Type 0 where
  pub parse_scheme : Text → Option Text
  pub prompt_json : Json validate_prompt
  pub resource_json : Json (validate_resource parse_scheme)

abbrev pub prompts_of : Kinds → Declaring Prompt
prompts_of kinds = prompt_declaring kinds.prompt_json

abbrev pub resources_of : Kinds → Declaring Resource
resources_of kinds = resource_declaring kinds.parse_scheme kinds.resource_json

abbrev pub or_else {ℓ} : {A : Type ℓ} → Option A → Option A → Option A
or_else none other = other
or_else (some a) other = some a

unfoldable pub find_duplicate : Kinds → Tree → Option Conflict
find_duplicate kinds root =
    or_else (find_duplicate_of (prompts_of kinds) prompt root)
      (find_duplicate_of (resources_of kinds) resource root)

abbrev pub corrupt_conflict : Kind → Text → Command → Conflict
corrupt_conflict kind key cmd = record {
  kind = kind;
  key = key;
  reason = corrupt_annotation;
  commands = cmd.path ∷ [];
}

abbrev pub is_clean : {T : Type 0} → Declaring T → Command → Bool
is_clean k cmd = (decode_valid k cmd.annotations).1

-- `found` is set by the first command with an annotation that is not clean.
unfoldable pub corrupt_on : Kinds → List Command → Option Conflict
corrupt_on kinds [] = none
corrupt_on kinds (cmd ∷ cmds) =
    let resources_or_later =
      if is_clean (resources_of kinds) cmd
      then corrupt_on kinds cmds
      else some (corrupt_conflict resource (resources_of kinds).annotation_key cmd) in
    if is_clean (prompts_of kinds) cmd
    then resources_or_later
    else some (corrupt_conflict prompt (prompts_of kinds).annotation_key cmd)

unfoldable pub find_corrupt : Kinds → Tree → Option Conflict
find_corrupt kinds root = corrupt_on kinds (walk_declaration_commands root)

module _ {T : Type 0} (k : Declaring T) where
  -- What is kept, and the keys seen after it.
  unfoldable pub keep_first : List Text → List T → List T × List Text
  keep_first seen [] = ([], seen)
  keep_first seen (d ∷ ds) =
      let skipped = keep_first seen ds in
      let (kept, seen') = keep_first (k.key d ∷ seen) ds in
      if exists? (text_eq (k.key d)) seen then skipped else (d ∷ kept, seen')

  -- The walk of CollectDeclarations, with the keys of a Deduper.
  unfoldable pub collect_on : List Command → List Text → List T
  collect_on [] seen = []
  collect_on (cmd ∷ cmds) seen =
      let (kept, seen') = keep_first seen (projected k cmd.annotations) in
      kept ++ collect_on cmds seen'

unfoldable pub collect_declarations : Kinds → Tree → List Prompt × List Resource
collect_declarations kinds root = (
  collect_on (prompts_of kinds) (walk_declaration_commands root) [],
  collect_on (resources_of kinds) (walk_declaration_commands root) [],
)
