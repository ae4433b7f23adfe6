-- ===== src/Schema/Walk/Unique.antt =====
-- When a tree declares no key twice.
use ax_go.Common.{
  Text, text_eq_iff, true, false, Option, none, List, [], ◌∷◌, ◌++◌, map, All, ◌≡◌, ◌↔◌, refl,
  arith, Option-cases,
}
use mathlib.Core.List.{map-append}
use ax_go.Common.Distinct.{Distinct, is_seen, Unseen, Unseen-cons, Unseen-nil}
use ax_go.Schema.{Kind, prompt, resource, Conflict, Command, Tree}
use ax_go.Schema.Declare.{Declaring, projected}
use ax_go.Schema.Walk.{
  walk_declaration_commands, FirstPaths, first_path_of, duplicate_in, duplicate_on,
  find_duplicate_of, Kinds, prompts_of, resources_of, find_duplicate, is_clean, corrupt_on,
  find_corrupt,
}

module _ {T : Type 0} (k : Declaring T) where
  -- All that the commands declare, in walk order and then in the order of declaration.
  abbrev pub declared_on : List Command → List T
  declared_on [] = []
  declared_on (cmd ∷ cmds) = projected k cmd.annotations ++ declared_on cmds

  abbrev pub keys : List T → List Text
  keys ds = map k.key ds

abbrev declaring : FirstPaths → List Text
declaring paths = map (λ (p : Text × Text). p.0) paths

is_seen-declaring :
    (key : Text) (paths : FirstPaths)
    → (first_path_of key paths ≡ none) ↔ (is_seen (declaring paths) key ≡ false)
unfolding first_path_of
is_seen-declaring key [] = ((λ h. refl), (λ h. refl))
is_seen-declaring key ((j, path) ∷ paths) =
    ground (arith, text_eq_iff key j, text_eq_iff j key, is_seen-declaring key paths)

module _ {T : Type 0} (k : Declaring T) (kind : Kind) where
  duplicate_in_iff :
      (path : Text) (ds : List T) (paths : FirstPaths) (next : FirstPaths → Option Conflict)
      (later : List Text)
      → ((paths' : FirstPaths) → (next paths' ≡ none) ↔ Unseen (declaring paths') later)
      → (duplicate_in k kind path ds paths next ≡ none)
        ↔ Unseen (declaring paths) (keys k ds ++ later)
  unfolding duplicate_in
  duplicate_in_iff path [] paths next later h = h paths
  duplicate_in_iff path (d ∷ ds) paths next later h = ground (
    arith,
    Option-cases (first_path_of (k.key d) paths),
    is_seen-declaring (k.key d) paths,
    Unseen-cons (k.key d) (declaring paths) (keys k ds ++ later),
    duplicate_in_iff path ds ((k.key d, path) ∷ paths) next later h,
  )

  duplicate_on_iff :
      (cmds : List Command) (paths : FirstPaths)
      → (duplicate_on k kind cmds paths ≡ none)
        ↔ Unseen (declaring paths) (keys k (declared_on k cmds))
  unfolding duplicate_on
  duplicate_on_iff [] paths = ((λ h. (tt, tt)), (λ h. refl))
  duplicate_on_iff (cmd ∷ cmds) paths =
      rw (map-append k.key (projected k cmd.annotations) (declared_on k cmds)) (
        duplicate_in_iff cmd.path (projected k cmd.annotations) paths _ _
          (λ paths'. duplicate_on_iff cmds paths'))

  pub find_duplicate_of_iff :
      (root : Tree)
      → (find_duplicate_of k kind root ≡ none)
        ↔ Distinct (keys k (declared_on k (walk_declaration_commands root)))
  unfolding find_duplicate_of
  find_duplicate_of_iff root = ground (
    arith,
    duplicate_on_iff (walk_declaration_commands root) [],
    Unseen-nil (keys k (declared_on k (walk_declaration_commands root))),
  )

-- FindDuplicate finds nothing exactly if no two prompts that the walk reaches share a name and no
-- two resources share a URI, whether on one command or on several.
pub find_duplicate_iff :
    (kinds : Kinds) (root : Tree)
    → (find_duplicate kinds root ≡ none) ↔ (
        Distinct (
          keys (prompts_of kinds) (declared_on (prompts_of kinds) (walk_declaration_commands root)))
        × Distinct (
            keys
              (resources_of kinds)
              (declared_on (resources_of kinds) (walk_declaration_commands root))))
unfolding find_duplicate
find_duplicate_iff kinds root = ground (
  arith,
  find_duplicate_of_iff (prompts_of kinds) prompt root,
  find_duplicate_of_iff (resources_of kinds) resource root,
)

corrupt_on_iff :
    (kinds : Kinds) (cmds : List Command)
    → (corrupt_on kinds cmds ≡ none)
      ↔ All
          (λ cmd.
            (is_clean (prompts_of kinds) cmd ≡ true) × (is_clean (resources_of kinds) cmd ≡ true))
          cmds
unfolding corrupt_on
corrupt_on_iff kinds [] = ((λ h. tt), (λ h. refl))
corrupt_on_iff kinds (cmd ∷ cmds) = ground (arith, corrupt_on_iff kinds cmds)

-- FindCorrupt finds nothing exactly if both annotations of every command that the walk reaches read
-- cleanly.
pub find_corrupt_iff :
    (kinds : Kinds) (root : Tree)
    → (find_corrupt kinds root ≡ none)
      ↔ All
          (λ cmd.
            (is_clean (prompts_of kinds) cmd ≡ true) × (is_clean (resources_of kinds) cmd ≡ true))
          (walk_declaration_commands root)
unfolding find_corrupt
find_corrupt_iff kinds root = corrupt_on_iff kinds (walk_declaration_commands root)
