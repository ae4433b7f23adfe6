-- ===== src/Runtime/Execute/Finish.antt =====
-- `finishCommand`: what a run leaves on stdout and stderr, and its exit code. Cobra's part, running
-- the selected command, is its outcome: the error it returned, the context of the root, the warning
-- state and what had been written to each stream.
use ax_go.Common.{
  Text, codes, Bool, true, false, ◌&&◌, not, Option, none, some, List, [], ◌∷◌, ◌++◌, ℤ, is_empty,
  ◌≡◌, ◌≢◌, ◌⊎◌, inl, inr, refl, ◌∙◌, arith, if◌then◌else◌,
}
use ax_go.Contract.Codes.{warnings_as_errors}
use ax_go.Contract.Context.{Context}
use ax_go.Contract.Errors.{
  with_error_tool, with_error_version, GoError, AxError, to_error, as_ax, ax_exit_code,
  error_exit_code, exit_success, exit_validation, new_live_error, with_actionable_fix,
  with_error_context, with_error_exit_code,
}
use ax_go.Contract.Errors.Exits.{ax_exit_code-ne-zero}
use ax_go.Contract.Errors.Wire.{write_error}
use ax_go.Contract.Json.{Items, nil, cons, string, object, array, done, field}
use ax_go.Contract.Warnings.{Warning}
use ax_go.Runtime.Execute.{WarningState, normalize_execute_error, normalize_envelope}

pub record CommandRun : Type 0 where
  pub error : Option GoError
  pub context : Context
  pub state : Option WarningState
  pub stdout : Text
  pub stderr : Text

pub record Finished : Type 0 where
  pub exit : ℤ
  pub stdout : Text
  pub stderr : Text

unfoldable pub warning_items : List Warning → Items
warning_items [] = nil
warning_items (w ∷ ws) =
    cons
      (object
        (field (codes "code") (string w.code) (field (codes "message") (string w.message) done)))
      (warning_items ws)

-- `state != nil && state.strict && len(state.warnings) > 0`
abbrev pub escalates : Option WarningState → Bool
escalates none = false
escalates (some state) = state.strict && not (is_empty state.warnings)

abbrev kept : Option WarningState → List Warning
kept none = []
kept (some state) = state.warnings

abbrev held_of : Option WarningState → Text
held_of none = []
held_of (some state) = elim state.held [ none ↦ [] | some buf ↦ buf ]

unfoldable pub escalated : Context → List Warning → AxError
unfolding warning_items
escalated ctx warnings =
    new_live_error (some ctx) warnings_as_errors (codes "warnings escalated by --strict") (
      with_error_exit_code exit_validation
      ∷ with_actionable_fix (codes "rerun without --strict to keep the success envelope")
      ∷ with_error_context ((codes "warnings", array (warning_items warnings)) ∷ [])
      ∷ [])

-- Write the envelope of the normalized error, whose context marshals, and exit by its code.
unfoldable pub fail_with : CommandRun → Text → Text → GoError → Finished
fail_with run tool version err =
    let e = normalize_execute_error run.context tool version err in
    record {
      exit = ax_exit_code (some e);
      stdout = run.stdout;
      stderr = run.stderr ++ (write_error none (some (to_error e))).0;
    }

-- The two returns of a run whose command returned no error.
unfoldable pub finish_ok : Text → Text → CommandRun → Bool → Finished
finish_ok tool version run true =
    fail_with run tool version (to_error (escalated run.context (kept run.state)))
finish_ok tool version run false = record {
  exit = exit_success;
  stdout = run.stdout ++ held_of run.state;
  stderr = run.stderr;
}

unfoldable pub finish_on : Text → Text → CommandRun → Option GoError → Finished
unfolding finish_ok
finish_on tool version run (some err) = fail_with run tool version err
finish_on tool version run none = finish_ok tool version run (escalates run.state)

unfoldable pub finish_command : Text → Text → CommandRun → Finished
unfolding finish_on
finish_command tool version run = finish_on tool version run run.error

-- Normalizing an error, with its envelope or without, keeps the exit code that it maps to.
pub normalize_execute_error_exit :
    (ctx : Context) (tool version : Text) (err : GoError)
    → ax_exit_code (some (normalize_execute_error ctx tool version err))
      ≡ error_exit_code (some err)
unfolding normalize_execute_error normalize_envelope ax_exit_code error_exit_code new_live_error
    with_error_tool with_error_version with_error_exit_code
normalize_execute_error_exit ctx tool version err = ground arith

-- A failed run exits by its error, exactly as the error maps, and never 0.
fail_with_exit :
    (run : CommandRun) (tool version : Text) (err : GoError)
    → (fail_with run tool version err).exit ≡ error_exit_code (some err)
unfolding fail_with
fail_with_exit run tool version err = normalize_execute_error_exit run.context tool version err

escalated_exit :
    (ctx : Context) (warnings : List Warning)
    → error_exit_code (some (to_error (escalated ctx warnings))) ≡ exit_validation
unfolding error_exit_code to_error as_ax escalated new_live_error ax_exit_code with_error_exit_code
    with_actionable_fix with_error_context
escalated_exit ctx warnings = refl

-- The exit code that the command's error and the warning state call for.
abbrev pub called_for : Option GoError → Option WarningState → ℤ
called_for (some err) state = error_exit_code (some err)
called_for none state = if escalates state then exit_validation else exit_success

finish_ok_exit :
    (tool version : Text) (run : CommandRun) (b : Bool)
    → (finish_ok tool version run b).exit ≡ (if b then exit_validation else exit_success)
unfolding finish_ok
finish_ok_exit tool version run true =
    fail_with_exit run tool version (to_error (escalated run.context (kept run.state)))
    ∙ escalated_exit run.context (kept run.state)
finish_ok_exit tool version run false = refl

finish_on_exit :
    (tool version : Text) (run : CommandRun) (err : Option GoError)
    → (finish_on tool version run err).exit ≡ called_for err run.state
unfolding finish_on
finish_on_exit tool version run (some err) = fail_with_exit run tool version err
finish_on_exit tool version run none = finish_ok_exit tool version run (escalates run.state)

-- Execute exits by the command's error, by 2 if --strict escalates kept warnings, and by 0
-- otherwise.
pub finish_command_exit :
    (tool version : Text) (run : CommandRun)
    → (finish_command tool version run).exit ≡ called_for run.error run.state
unfolding finish_command
finish_command_exit tool version run = finish_on_exit tool version run run.error

-- The streams of a run that succeeds, and of one that fails.
abbrev pub IsSuccess : CommandRun → Finished → Type 0
IsSuccess run end =
    (end.exit ≡ exit_success)
    × (end.stdout ≡ run.stdout ++ held_of run.state)
    × (end.stderr ≡ run.stderr)

abbrev pub IsFailure : CommandRun → Finished → Type 0
IsFailure run end =
    (end.exit ≢ exit_success)
    × (end.stdout ≡ run.stdout)
    × ((e : AxError) × (end.stderr ≡ run.stderr ++ (write_error none (some (to_error e))).0))

fail_with-IsFailure :
    (run : CommandRun) (tool version : Text) (err : GoError)
    → IsFailure run (fail_with run tool version err)
unfolding fail_with
fail_with-IsFailure run tool version err =
    let e = normalize_execute_error run.context tool version err in
    (ax_exit_code-ne-zero (some e), refl, (e, refl))

finish_on-streams :
    (tool version : Text) (run : CommandRun) (err : Option GoError)
    → IsSuccess run (finish_on tool version run err)
      ⊎ IsFailure run (finish_on tool version run err)
unfolding finish_on
finish_on-streams tool version run (some err) = inr (fail_with-IsFailure run tool version err)
finish_on-streams tool version run none = go (escalates run.state)
  where
    go :
        (b : Bool)
        → IsSuccess run (finish_ok tool version run b)
          ⊎ IsFailure run (finish_ok tool version run b)
    go true = inr (fail_with-IsFailure run tool version _)
    go false = inl (refl, refl, refl)

-- Either the run exits 0, the held payload is added to stdout and nothing to stderr; or it exits
-- with another code, nothing is added to stdout, and one error envelope is added to stderr.
pub finish_command-streams :
    (tool version : Text) (run : CommandRun)
    → IsSuccess run (finish_command tool version run)
      ⊎ IsFailure run (finish_command tool version run)
unfolding finish_command
finish_command-streams tool version run = finish_on-streams tool version run run.error
