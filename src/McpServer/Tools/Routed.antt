-- ===== src/McpServer/Tools/Routed.antt =====
-- Where a call that names a tool goes.
use mathlib.Core.Path.{subst}
use mathlib.Core.Logic.{◌⊎◌}
use ax_go.Common.{
  Text, text_eq, text_eq_iff, text_eq_refl, Bool, true, false, not, Option, none, some, List, [],
  ◌∷◌, map, keep, if◌then◌else◌, ◌≡◌, ◌≢◌, refl, sym, ◌∙◌, arith, Bool-cases, inl, inr, All,
}
use ax_go.Common.Distinct.{Distinct}
use ax_go.Schema.{Command, Tree}
use ax_go.Schema.Convert.Values.{Parsers}
use ax_go.Schema.Locators.{StringsJson}
use ax_go.Mcp.{tool_name, walk_callable_commands, build_tool}
use ax_go.Mcp.Callable.{Listed, IsCallable, walk_callable_commands_iff}
use ax_go.McpServer.Tools.{
  Targets, put_target, target_of, discover_from, discover_tools, resolve_target,
}

abbrev is_callable_flat : Command → Bool
is_callable_flat cmd = not cmd.requires_args

-- The commands that are served.
abbrev pub served : Tree → List Command
served root = keep is_callable_flat (walk_callable_commands root)

abbrev later : Option Command → Option Command → Option Command
later none first = first
later (some cmd) first = some cmd

-- The last of the commands whose tool has this name.
abbrev pub last_named : Text → List Command → Option Command
last_named name [] = none
last_named name (cmd ∷ cmds) =
    later (last_named name cmds) (if text_eq (tool_name cmd) name then some cmd else none)

target_of-put_target :
    (name key : Text) (cmd : Command) (targets : Targets)
    → target_of name (put_target key cmd targets)
      ≡ (if text_eq key name then some cmd else target_of name targets)
unfolding target_of put_target
target_of-put_target name key cmd [] = ground arith
target_of-put_target name key cmd ((n, c) ∷ targets) = ground (
  arith,
  text_eq_iff n key,
  text_eq_iff n name,
  text_eq_iff key name,
  target_of-put_target name key cmd targets,
)

module _ (p : Parsers) (json : StringsJson) where
  discovered_target :
      (name : Text) (cmds : List Command) (targets : Targets)
      → target_of name (discover_from p json cmds targets).1
        ≡ later (last_named name (keep is_callable_flat cmds)) (target_of name targets)
  unfolding discover_from
  discovered_target name [] targets = refl
  discovered_target name (cmd ∷ cmds) targets = ground (
    arith,
    discovered_target name cmds targets,
    discovered_target name cmds (put_target (tool_name cmd) cmd targets),
    target_of-put_target name (tool_name cmd) cmd targets,
  )

  discovered_tools :
      (cmds : List Command) (targets : Targets)
      → (discover_from p json cmds targets).0 ≡ map (build_tool p json) (keep is_callable_flat cmds)
  unfolding discover_from
  discovered_tools [] targets = refl
  discovered_tools (cmd ∷ cmds) targets = ground (
    arith,
    discovered_tools cmds targets,
    discovered_tools cmds (put_target (tool_name cmd) cmd targets),
  )

text_eq-false : (s t : Text) → text_eq s t ≡ false → s ≢ t
text_eq-false s t h e = ground (arith, text_eq_iff s t)

later-none : (found : Option Command) → later found none ≡ found
later-none none = refl
later-none (some cmd) = refl

Routed : Text → List Command → Option Command → Type 0
Routed name cmds (some cmd) = Listed cmd cmds × (tool_name cmd ≡ name)
Routed name cmds none = All (λ c. tool_name c ≢ name) cmds

later-Routed :
    (name : Text) (c : Command) (cmds : List Command) (found : Option Command)
    → Routed name cmds found
    → Routed name (c ∷ cmds) (later found (if text_eq (tool_name c) name then some c else none))
unfolding Routed
later-Routed name c cmds (some cmd) h = (inr h.0, h.1)
later-Routed name c cmds none h = elim (Bool-cases (text_eq (tool_name c) name)) [
  | inl same ↦ rw same (inl refl, (text_eq_iff (tool_name c) name).0 same)
  | inr differs ↦ rw differs (text_eq-false _ _ differs, h)
]

last_named-Routed : (name : Text) (cmds : List Command) → Routed name cmds (last_named name cmds)
unfolding Routed
last_named-Routed name [] = tt
last_named-Routed name (c ∷ cmds) = later-Routed name c cmds _ (last_named-Routed name cmds)

kept :
    (c x : Command) (b : Bool) (cmds : List Command)
    → Listed c (if b then x ∷ cmds else cmds)
    → ((c ≡ x) × (b ≡ true)) ⊎ Listed c cmds
kept c x true cmds (inl e) = inl (e, refl)
kept c x true cmds (inr m) = inr m
kept c x false cmds m = inr m

Listed-keep :
    (c : Command) (cmds : List Command)
    → Listed c (keep is_callable_flat cmds)
    → Listed c cmds × (c.requires_args ≡ false)
Listed-keep c [] h = absurd h
Listed-keep c (x ∷ cmds) h = elim (kept c x (is_callable_flat x) (keep is_callable_flat cmds) h) [
  | inl (e, flat) ↦ (inl e, subst (λ (d : Command). d.requires_args ≡ false) (sym e) (ground arith))
  | inr m ↦ let (below, flat) = Listed-keep c cmds m in (inr below, flat)
]

not_named :
    (name : Text) (cmds : List Command)
    → All (λ n. n ≢ name) (map tool_name cmds)
    → last_named name cmds ≡ none
not_named name [] h = refl
not_named name (c ∷ cmds) h =
    ground (arith, not_named name cmds h.1, text_eq_iff (tool_name c) name)

last_named-own :
    (cmd : Command) (cmds : List Command)
    → Distinct (map tool_name cmds)
    → Listed cmd cmds
    → last_named (tool_name cmd) cmds ≡ some cmd
last_named-own cmd (x ∷ cmds) distinct (inl e) =
    subst (λ d. last_named (tool_name d) (x ∷ cmds) ≡ some d) (sym e)
      (rw (not_named (tool_name x) cmds distinct.0) (rw (text_eq_refl (tool_name x)) refl))
last_named-own cmd (x ∷ cmds) distinct (inr m) = rw (last_named-own cmd cmds distinct.1 m) refl
last_named-own cmd [] distinct listed = elim listed [ ]

-- Where a call goes that names a tool.
abbrev pub IsRouted : Tree → Text → Option Command → Type 0
IsRouted root name (some cmd) =
    IsCallable root cmd × (cmd.requires_args ≡ false) × (tool_name cmd ≡ name)
IsRouted root name none = All (λ c. tool_name c ≢ name) (served root)

Routed-IsRouted :
    (root : Tree) (name : Text) (found : Option Command)
    → Routed name (served root) found
    → IsRouted root name found
unfolding Routed
Routed-IsRouted root name none h = h
Routed-IsRouted root name (some cmd) (listed, named) =
    let (visited, flat) = Listed-keep cmd (walk_callable_commands root) listed in
    ((walk_callable_commands_iff root cmd).0 visited, flat, named)

module _ (p : Parsers) (json : StringsJson) (root : Tree) where
  resolve_target_lem :
      (name : Text) → resolve_target p json root name ≡ last_named name (served root)
  unfolding resolve_target discover_tools target_of
  resolve_target_lem name =
      discovered_target p json name (walk_callable_commands root) [] ∙ later-none _

  -- A call that names a tool goes to a command that is callable, takes no positional arguments and has
  -- that tool name; if it goes nowhere, no command that is served has that name.
  pub resolve_target-IsRouted : (name : Text) → IsRouted root name (resolve_target p json root name)
  resolve_target-IsRouted name =
      rw (resolve_target_lem name)
        (Routed-IsRouted root name _ (last_named-Routed name (served root)))

  -- Where the tool names of the served commands are distinct, each of them is reached by its own tool.
  pub resolve_target-tool_name :
      (cmd : Command)
      → Distinct (map tool_name (served root))
      → Listed cmd (served root)
      → resolve_target p json root (tool_name cmd) ≡ some cmd
  resolve_target-tool_name cmd distinct listed =
      resolve_target_lem (tool_name cmd) ∙ last_named-own cmd (served root) distinct listed
