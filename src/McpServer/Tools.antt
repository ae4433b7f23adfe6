-- ===== src/McpServer/Tools.antt =====
-- The tools that the server serves, of internal/mcpserver/server.go and dispatch.go: `discoverTools`
-- with its map from a tool's name to its command, and `resolveTarget`.
pub mod Routed
use mathlib.Core.Path.{subst}
use mathlib.Core.Logic.{◌⊎◌}
use ax_go.Common.{
  Text, text_eq, text_eq_iff, text_eq_refl, Bool, true, false, not, Option, none, some, List, [],
  ◌∷◌, map, keep, exists?, if◌then◌else◌, ◌≡◌, ◌≢◌, refl, sym, ap, ◌∙◌, arith, Bool-cases, inl, inr,
  All,
}
use ax_go.Common.Distinct.{Distinct}
use ax_go.Schema.{Command, Tree}
use ax_go.Schema.Convert.Values.{Parsers}
use ax_go.Schema.Locators.{StringsJson}
use ax_go.Mcp.{tool_name, walk_callable_commands, Tool, build_tool}
use ax_go.Mcp.Callable.{Listed, IsCallable, walk_callable_commands_iff}

-- The map `targets`, the last entry of a name in front.
abbrev pub Targets : Type 0
Targets = List (Text × Command)

unfoldable pub put_target : Text → Command → Targets → Targets
put_target name cmd [] = (name, cmd) ∷ []
put_target name cmd ((n, c) ∷ targets) =
    if text_eq n name then (name, cmd) ∷ targets else (n, c) ∷ put_target name cmd targets

unfoldable pub target_of : Text → Targets → Option Command
target_of name [] = none
target_of name ((n, c) ∷ targets) = if text_eq n name then some c else target_of name targets

module _ (p : Parsers) (json : StringsJson) where
  -- The closure on the commands in walk order, with the tools and the targets so far.
  unfoldable pub discover_from : List Command → Targets → List (Tool p) × Targets
  discover_from [] targets = ([], targets)
  discover_from (cmd ∷ cmds) targets =
      let skipped = discover_from cmds targets in
      let (tools, all) = discover_from cmds (put_target (tool_name cmd) cmd targets) in
      if cmd.requires_args then skipped else (build_tool p json cmd ∷ tools, all)

  unfoldable pub discover_tools : Tree → List (Tool p) × Targets
  discover_tools root = discover_from (walk_callable_commands root) []

  unfoldable pub resolve_target : Tree → Text → Option Command
  resolve_target root name = target_of name (discover_tools root).1
