-- ===== src/Runtime/Execute.antt =====
-- `Execute` of execute.go and the warning state of warnings.go. The tree passes are in Tree, the
-- hook that resolves the agent-safety values in PreRun, the mapping of a command's result in
-- Finish, and the order of the deferred shutdown steps in Lifecycle.
pub mod Tree
pub mod PreRun
pub mod Finish
pub mod Lifecycle
use ax_go.Common.{
  Text, Bool, true, false, Option, none, some, List, [], ◌∷◌, ℤ, is_empty, if◌then◌else◌,
}
use ax_go.Contract.Codes.{internal_error}
use ax_go.Contract.Context.{Context, or_background, trace_ids}
use ax_go.Contract.Errors.{
  GoError, AxError, as_ax, error_text, error_exit_code, error_schema_version, new_live_error,
  with_error_tool, with_error_version, with_error_exit_code,
}
use ax_go.Contract.Warnings.{Warning, Success, with_warnings}

-- `warningState`: the kept warnings, and the stdout that --strict holds back.
pub record WarningState : Type 0 where
  pub warnings : List Warning
  pub strict : Bool
  pub held : Option Text

abbrev pub new_warning_state : WarningState
new_warning_state = record { warnings = []; strict = false; held = none }

-- ax.WithWarnings on the state of the run, if the context belongs to one.
unfoldable pub with_run_warnings :
    {T : Type 0} → Option WarningState → Success T → List Warning → Success T × Option WarningState
unfolding with_warnings
with_run_warnings none env warnings = (with_warnings env warnings, none)
with_run_warnings (some state) env warnings =
    let env' = with_warnings env warnings in
    (env', some (record state { warnings = env'.warnings }))

abbrev filled : Text → Text → Text
filled value default = if is_empty value then default else value

-- The copy of an envelope with its empty fields filled in.
unfoldable pub normalize_envelope : Context → Text → Text → AxError → AxError
normalize_envelope ctx tool version e = record e {
  envelope = record e.envelope {
    trace_id = filled e.trace_id (trace_ids ctx).0;
    tool = filled e.tool tool;
    version = filled e.version version;
    schema_version = filled e.schema_version error_schema_version;
  };
}

unfoldable pub normalize_execute_error : Context → Text → Text → GoError → AxError
normalize_execute_error ctx tool version err = elim (as_ax err) [
  | some e ↦ normalize_envelope ctx tool version e
  | none ↦ new_live_error (some ctx) internal_error (error_text err) (
      with_error_tool tool
      ∷ with_error_version version
      ∷ with_error_exit_code (error_exit_code (some err))
      ∷ [])
]
