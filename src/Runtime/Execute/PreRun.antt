-- ===== src/Runtime/Execute/PreRun.antt =====
-- The hook that `wrapCommandPersistentPreRun` installs: it resolves the agent-safety values of the
-- invoked command, puts them on its context, holds stdout under --strict, and then runs the hooks
-- that it replaced. Flags and environment come resolved; the key generator is an argument.
use ax_go.Common.{
  Text, codes, Bool, true, Option, none, some, List, [], ◌∷◌, ◌++◌, ok, err, is_empty, ◌≡◌, refl,
  ◌∙◌, Result-cases, inl, inr, if◌then◌else◌,
}
use ax_go.Contract.Codes.{validation_error}
use ax_go.Contract.Context.{
  Context, with_mode, with_dry_run, with_approval, with_idempotency_key, dry_run_from_context,
}
use ax_go.Contract.Errors.{GoError, to_error, exit_validation, new_live_error, with_error_exit_code}
use ax_go.Contract.Mode.{Mode, ModeError, unknown_output_mode, unknown_agent_mode, resolve_mode}
use ax_go.Runtime.Execute.{WarningState}

-- The persistent flags as the invoked command sees them, AGENT_MODE and the terminal test.
pub record Inputs : Type 0 where
  pub format : Text
  pub dry_run : Bool
  pub approval : Bool
  pub strict : Bool
  pub idempotency_key : Text
  pub agent_mode : Text
  pub stdout_is_tty : Bool

-- The hooks that were replaced: from the context of the command, the error of the first, and the
-- context that the hook leaves, since it may call SetContext.
pub record Previous : Type 0 where
  pub run_e : Option (Context → Option GoError × Context)
  pub run : Option (Context → Context)

pub data Ran : Type 0 where
  ran_e ran_plain : Ran

pub record PreRun : Type 0 where
  pub error : Option GoError
  pub context : Context
  pub state : Option WarningState
  pub ran : List Ran

-- The message of the error, without the quotes that %q puts round the value.
abbrev message_of : ModeError → Text
message_of (unknown_output_mode v) = codes "unknown output mode "
message_of (unknown_agent_mode v) = codes "unknown AGENT_MODE value "

abbrev pub key_of : Text → Text → Text
key_of given fresh = if is_empty given then fresh else given

-- The context that the command and its hooks see.
unfoldable pub safety_context : Context → Inputs → Text → Mode → Context
unfolding with_mode with_dry_run with_approval with_idempotency_key
safety_context ctx inputs fresh mode =
    with_idempotency_key
      (with_approval (with_dry_run (with_mode ctx mode) inputs.dry_run) inputs.approval)
      (key_of inputs.idempotency_key fresh)

-- `state.strict = true`, with an empty buffer in place of stdout.
unfoldable pub hold_if : Bool → Option WarningState → Option WarningState
hold_if strict none = none
hold_if strict (some state) =
    if strict then some (record state { strict = true; held = some [] }) else some state

abbrev run_plain : Option (Context → Context) → List Ran → Context → Option WarningState → PreRun
run_plain none ran ctx state = record { error = none; context = ctx; state = state; ran = ran }
run_plain (some run) ran ctx state = record {
  error = none;
  context = run ctx;
  state = state;
  ran = ran ++ ran_plain ∷ [];
}

-- What follows the replaced hook that may fail.
abbrev after_run_e :
    Option (Context → Context) → Option GoError → Context → Option WarningState → PreRun
after_run_e run (some e) ctx state = record {
  error = some e;
  context = ctx;
  state = state;
  ran = ran_e ∷ [];
}
after_run_e run none ctx state = run_plain run (ran_e ∷ []) ctx state

-- First the replaced hook that may fail, then the other one.
abbrev run_previous :
    Option (Context → Option GoError × Context)
    → Option (Context → Context)
    → Context
    → Option WarningState
    → PreRun
run_previous none run ctx state = run_plain run [] ctx state
run_previous (some run_e) run ctx state = after_run_e run (run_e ctx).0 (run_e ctx).1 state

unfoldable pub pre_run : Context → Option WarningState → Inputs → Text → Previous → PreRun
unfolding safety_context hold_if
pre_run ctx state inputs fresh previous =
    elim (resolve_mode inputs.format inputs.agent_mode inputs.stdout_is_tty) [
      | err e ↦ record {
        error = some (
            to_error (
              new_live_error (some ctx) validation_error (message_of e)
                (with_error_exit_code exit_validation ∷ [])));
        context = ctx;
        state = state;
        ran = [];
      }
      | ok mode ↦
          let ctx' = safety_context ctx inputs fresh mode in
          run_previous previous.run_e previous.run ctx' (hold_if inputs.strict state)
    ]

abbrev HookKeeps : Option (Context → Option GoError × Context) → Type 0
HookKeeps none = Unit
HookKeeps (some run_e) =
    (ctx : Context) → dry_run_from_context (run_e ctx).1 ≡ dry_run_from_context ctx

abbrev PlainKeeps : Option (Context → Context) → Type 0
PlainKeeps none = Unit
PlainKeeps (some run) = (ctx : Context) → dry_run_from_context (run ctx) ≡ dry_run_from_context ctx

safety_context-dry_run :
    (ctx : Context) (inputs : Inputs) (fresh : Text) (mode : Mode)
    → dry_run_from_context (safety_context ctx inputs fresh mode) ≡ inputs.dry_run
unfolding safety_context dry_run_from_context
safety_context-dry_run ctx inputs fresh mode = refl

-- The replaced hooks leave the dry run as they find it.
abbrev pub KeepsDryRun : Previous → Type 0
KeepsDryRun previous = HookKeeps previous.run_e × PlainKeeps previous.run

module _ (ctx : Context) (state : Option WarningState) (dry_run : Bool)
    (found : dry_run_from_context ctx ≡ dry_run) where
  run_plain-dry_run :
      (run : Option (Context → Context)) (ran : List Ran)
      → PlainKeeps run
      → dry_run_from_context (run_plain run ran ctx state).context ≡ dry_run
  run_plain-dry_run none ran keeps = found
  run_plain-dry_run (some run) ran keeps = keeps ctx ∙ found

after_run_e-dry_run :
    (run : Option (Context → Context)) (e : Option GoError) (ctx : Context)
    (state : Option WarningState) (dry_run : Bool)
    → PlainKeeps run
    → dry_run_from_context ctx ≡ dry_run
    → dry_run_from_context (after_run_e run e ctx state).context ≡ dry_run
after_run_e-dry_run run (some e) ctx state dry_run keeps found = found
after_run_e-dry_run run none ctx state dry_run keeps found =
    run_plain-dry_run ctx state dry_run found run (ran_e ∷ []) keeps

run_previous-dry_run :
    (run_e : Option (Context → Option GoError × Context)) (run : Option (Context → Context))
    (ctx : Context) (state : Option WarningState) (dry_run : Bool)
    → HookKeeps run_e
    → PlainKeeps run
    → dry_run_from_context ctx ≡ dry_run
    → dry_run_from_context (run_previous run_e run ctx state).context ≡ dry_run
run_previous-dry_run none run ctx state dry_run hook plain found =
    run_plain-dry_run ctx state dry_run found run [] plain
run_previous-dry_run (some run_e) run ctx state dry_run hook plain found =
    after_run_e-dry_run run (run_e ctx).0 (run_e ctx).1 state dry_run plain (hook ctx ∙ found)

-- The setup puts the flag of the invoked command on the context that the command sees.
pub pre_run-dry_run :
    (ctx : Context) (state : Option WarningState) (inputs : Inputs) (fresh : Text)
    (previous : Previous)
    → KeepsDryRun previous
    → (pre_run ctx state inputs fresh previous).error ≡ none
    → dry_run_from_context (pre_run ctx state inputs fresh previous).context ≡ inputs.dry_run
unfolding pre_run
pre_run-dry_run ctx state inputs fresh previous keeps done =
    elim (Result-cases (resolve_mode inputs.format inputs.agent_mode inputs.stdout_is_tty)) [
      | inl (e, refused) ↦ let stopped = rw (pre_run, refused) at done in cc
      | inr (mode, resolved) ↦
          rw (pre_run, resolved)
            (run_previous-dry_run previous.run_e previous.run (safety_context ctx inputs fresh mode)
              (hold_if inputs.strict state) inputs.dry_run keeps.0 keeps.1
              (safety_context-dry_run ctx inputs fresh mode))
    ]
