-- ===== src/Tests/Runtime.antt =====
-- A run of Execute, guarded effects, the gate and the command tree at concrete inputs.
use ax_go.Common.{
  trim_space, text_eq, refl, Text, codes, true, false, none, some, List, [], ◌∷◌, pos, ok, err, ◌≡◌,
  ◌⊎◌, refl,
}
use ax_go.Contract.Mode.{json, unknown_output_mode, resolve_mode, parse_mode, normalized}
use ax_go.Common.{text_eq, trim_space, to_lower}
use ax_go.Contract.Context.{Context, background, with_dry_run, dry_run_from_context}
use ax_go.Contract.Errors.{plain, wrap, url_error, deadline_exceeded}
use ax_go.Contract.Warnings.{Warning}
use ax_go.Runtime.Guard.{returned, Effect}
use ax_go.Runtime.Flagged.{guarded, run_calls, pre_run-run_calls}
use ax_go.Runtime.Version.{vcs_settings, is_usable_version, resolve_version_from, BuildInfo}
use ax_go.Runtime.Execute.Tree.{
  Command, leaf, node, wrap_persistent_pre_run, wrap_persistent_pre_run-IsCovered, IsCovered,
  AllCommands,
}
use ax_go.Runtime.Execute.PreRun.{Inputs, Previous, pre_run}
use ax_go.Runtime.Execute.Finish.{
  CommandRun, finish_command, finish_command-streams, IsSuccess, IsFailure,
}
use ax_go.Runtime.Execute.Lifecycle.{Config}
use ax_go.Telemetry.Once.{Call, export, stop}

abbrev slow : Warning
slow = record { code = codes "slow"; message = codes "took long" }

-- A strict run that kept a warning.
abbrev strict_run : CommandRun
strict_run = record {
  error = none;
  context = background;
  state = some (record { warnings = slow ∷ []; strict = true; held = some (codes "{}") });
  stdout = [];
  stderr = [];
}

finish_command-streams_example :
    IsSuccess strict_run (finish_command (codes "t") (codes "1.0.0") strict_run)
    ⊎ IsFailure strict_run (finish_command (codes "t") (codes "1.0.0") strict_run)
finish_command-streams_example = finish_command-streams (codes "t") (codes "1.0.0") strict_run

-- An effect that counts itself in the store, a list, and fails.
abbrev post_order : Effect (List Text)
post_order ctx s = record {
  outcome = returned (
      some (
        wrap (codes "post failed")
          (url_error (codes "Post") (codes "http://k@h") deadline_exceeded)));
  store = codes "order" ∷ s;
  lines = [];
}

abbrev dry : Context
dry = with_dry_run background true

dry_is_dry : dry_run_from_context dry ≡ true
unfolding dry_run_from_context with_dry_run
dry_is_dry = refl

abbrev build : BuildInfo
build = record {
  main_version = codes "(devel)";
  settings = (codes "vcs.revision", codes "abc") ∷ (codes "vcs.modified", codes "true") ∷ [];
}

resolve_version_from_test : resolve_version_from (codes "dev") (some build) ≡ codes "abc-dirty"
unfolding resolve_version_from is_usable_version vcs_settings text_eq
resolve_version_from_test = refl

abbrev child : Command
child = record {
  name = codes "sub";
  context = none;
  persistent_pre_run_e = none;
  persistent_pre_run = some 3;
  annotated = false;
}

wrap_persistent_pre_run-IsCovered_example :
    IsCovered (wrap_persistent_pre_run child (node child leaf leaf)).0
    × ((wrap_persistent_pre_run child (node child leaf leaf)).0.annotated ≡ true)
    × AllCommands IsCovered (wrap_persistent_pre_run child (node child leaf leaf)).1
wrap_persistent_pre_run-IsCovered_example =
    wrap_persistent_pre_run-IsCovered child (node child leaf leaf) refl (refl, tt, tt)

abbrev flags : Text → Inputs
flags format = record {
  format = format;
  dry_run = true;
  approval = false;
  strict = true;
  idempotency_key = [];
  agent_mode = [];
  stdout_is_tty = true;
}

abbrev no_hooks : Previous
no_hooks = record { run_e = some (λ ctx. (none, ctx)); run = none }

resolves : resolve_mode (codes "JSON") [] true ≡ ok json
unfolding resolve_mode parse_mode normalized trim_space text_eq to_lower
resolves = refl

resolved_error : (pre_run background none (flags (codes "JSON")) (codes "k") no_hooks).error ≡ none
unfolding pre_run
resolved_error = rw (pre_run, resolves) refl

pre_run-run_calls_example :
    run_calls
      (pre_run background none (flags (codes "JSON")) (codes "k") no_hooks).context
      (guarded (codes "d") post_order ∷ [])
      []
    ≡ []
pre_run-run_calls_example =
    pre_run-run_calls background none (flags (codes "JSON")) (codes "k") no_hooks
      (guarded (codes "d") post_order ∷ []) [] ((λ ctx. refl), tt) resolved_error

refuses : resolve_mode (codes "xml") [] true ≡ err (unknown_output_mode (codes "xml"))
unfolding resolve_mode parse_mode normalized trim_space text_eq to_lower
refuses = refl

abbrev settings : Config
settings = record {
  version = [];
  shutdown_timeout = pos 0;
  flush = some (some (plain (codes "no\nroute")));
  shutdown = none;
}

abbrev outage : List Call
outage = export none ∷ export (some (codes "refused")) ∷ stop (some (codes "timeout")) ∷ []
