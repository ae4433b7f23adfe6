-- ===== src/McpServer/Call/Answered.antt =====
-- What a tool call amounts to: a refusal that runs nothing, or one run of the command that the name
-- stands for.
use ax_go.Common.{
  Text, true, Option, none, some, List, [], exists?, Result, ok, err, ◌≡◌, ◌⊎◌, inl, inr, refl, ◌∙◌,
  arith, Bool-cases,
}
use ax_go.Contract.Context.{
  mode_from_context, approval_from_context, with_mode, with_dry_run, with_approval,
  with_idempotency_key,
}
use ax_go.Contract.Errors.{AxError, to_error, ax_exit_code, error_exit_code, exit_validation}
use ax_go.Contract.Mode.{json}
use ax_go.Schema.{Command}
use ax_go.Schema.Convert.Values.{Parsers}
use ax_go.Schema.Locators.{StringsJson}
use ax_go.McpServer.Arguments.{Value, Built}
use ax_go.McpServer.Arguments.Build.{build_args, apply_call_config}
use ax_go.McpServer.Arguments.Safety.{grants, build_args_safe, build_args_error}
use ax_go.McpServer.Errors.{to_ax_error, validation, to_ax_error_exit, validation_exit}
use ax_go.McpServer.Tools.Routed.{IsRouted, resolve_target-IsRouted}
use ax_go.McpServer.Call.{
  Output, run_recovered, Reply, error_result, reply, refused, decode_arguments, Dispatcher, target,
  run_built, dispatched, is_tool_name, dispatch, with_arguments, handle,
}

-- A call that is refused: nothing is written, and the envelope carries the exit code 2.
abbrev pub IsRefusal : Reply × Text → Type 0
IsRefusal (answer, stderr) =
    (e : AxError) × (answer ≡ error_result e)
    × (ax_exit_code (some e) ≡ exit_validation)
    × (stderr ≡ [])

-- A call that runs a command: it is the one that the name stands for, in machine mode, and approved
-- only if an argument grants it; the answer is what the run leaves.
pub record IsRun (d : Dispatcher) (name raw : Text) (answer : Reply × Text) : Type 0 where
  pub args : List (Text × Value)
  pub cmd : Command
  pub built : Built
  pub arguments : decode_arguments d.readers raw ≡ ok args
  pub routed : IsRouted d.root name (some cmd)
  pub builds : build_args d.readers.read_csv (target d cmd) args ≡ ok built
  pub machine : mode_from_context (apply_call_config d.ctx built.config) ≡ some json
  pub approved :
      approval_from_context (apply_call_config d.ctx built.config) ≡ true
      → exists? grants args ≡ true
  pub answers :
      let output =
        run_recovered d.server d.engine
          (apply_call_config d.ctx built.config)
          built.argv
          built.assignments in
      answer ≡ (reply d.server d.ctx output, output.stderr)

abbrev pub IsAnswered : Dispatcher → Option (Text × Text) → Reply × Text → Type 0
IsAnswered d none answer = IsRefusal answer
IsAnswered d (some (name, raw)) answer = IsRefusal answer ⊎ IsRun d name raw answer

abbrev answer_of : Dispatcher → Output → Reply × Text
answer_of d output = (reply d.server d.ctx output, output.stderr)

pub refused-IsRefusal :
    (d : Dispatcher) (message : Text) → IsRefusal (answer_of d (refused d.server d.ctx message))
refused-IsRefusal d message = (
  to_ax_error d.server (some d.ctx) (to_error (validation d.server (some d.ctx) message)),
  refl,
  to_ax_error_exit d.server (some d.ctx) _ ∙ validation_exit d.server (some d.ctx) message,
  refl,
)

pub error-IsRefusal :
    (d : Dispatcher) (e : AxError)
    → error_exit_code (some (to_error e)) ≡ exit_validation
    → IsRefusal (answer_of d (run_built d (err e)))
error-IsRefusal d e h =
    (to_ax_error d.server (some d.ctx) (to_error e), refl, to_ax_error_exit d.server _ _ ∙ h, refl)

module _ (d : Dispatcher) (name raw : Text) (args : List (Text × Value)) where
  built_answer :
      (cmd : Command) (r : Result AxError Built)
      → decode_arguments d.readers raw ≡ ok args
      → IsRouted d.root name (some cmd)
      → build_args d.readers.read_csv (target d cmd) args ≡ r
      → IsRefusal (answer_of d (run_built d r)) ⊎ IsRun d name raw (answer_of d (run_built d r))
  unfolding apply_call_config mode_from_context approval_from_context with_mode with_dry_run
      with_approval with_idempotency_key
  built_answer cmd (err e) decoded routed builds =
      inl (error-IsRefusal d e (build_args_error _ (target d cmd) args e builds))
  built_answer cmd (ok built) decoded routed builds =
      let (mode, approval) = build_args_safe _ (target d cmd) args built builds in
      inr (record {
        args = args;
        cmd = cmd;
        built = built;
        arguments = decoded;
        routed = routed;
        builds = builds;
        machine = ground (arith, mode);
        approved = approval;
        answers = refl;
      })

  dispatched_answer :
      (found : Option Command)
      → decode_arguments d.readers raw ≡ ok args
      → IsRouted d.root name found
      → IsRefusal (answer_of d (dispatched d args found))
        ⊎ IsRun d name raw (answer_of d (dispatched d args found))
  dispatched_answer none decoded routed = inl (refused-IsRefusal d _)
  dispatched_answer (some cmd) decoded routed = built_answer cmd _ decoded routed refl

module _ (p : Parsers) (strings : StringsJson) (d : Dispatcher) where
  decoded_answer :
      (name raw : Text) (r : Result Text (List (Text × Value)))
      → decode_arguments d.readers raw ≡ r
      → IsRefusal (answer_of d (with_arguments p strings d name r))
        ⊎ IsRun d name raw (answer_of d (with_arguments p strings d name r))
  unfolding dispatch
  decoded_answer name raw (err e) decoded = inl (refused-IsRefusal d _)
  decoded_answer name raw (ok args) decoded =
      dispatched_answer d name raw args _ decoded (resolve_target-IsRouted p strings d.root name)

  -- A request is refused with the exit code 2 and nothing is written, or one command is run and the
  -- answer is what it leaves. The command is callable, takes no positional arguments and has the
  -- tool's name; its context is in machine mode, and approved only if the client sent `yes` as true.
  pub handle-IsAnswered :
      (request : Option (Text × Text)) → IsAnswered d request (handle p strings d request)
  unfolding handle
  handle-IsAnswered none = refused-IsRefusal d _
  handle-IsAnswered (some (name, raw)) = elim (Bool-cases (is_tool_name p strings d.root name)) [
    | inl known ↦ rw known (decoded_answer name raw _ refl)
    | inr unknown ↦ rw unknown (inl (refused-IsRefusal d _))
  ]
