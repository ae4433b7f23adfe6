-- ===== src/McpServer/Call.antt =====
-- A tool call from its request to its reply, of internal/mcpserver/dispatch.go: `handle`,
-- `dispatch`, and `execute` with `runRecovered`. Cobra with the values of the flags is the record
-- `Engine`; the span and the cancellation of a call, and the JSON text of an envelope, are left out.
pub mod Answered
pub mod Conforms
use ax_go.Common.{
  Text, codes, text_eq, trim_space, fields, Bool, true, false, not, Option, none, some, List, [],
  ◌∷◌, ◌++◌, map, is_empty, exists?, Result, ok, err, if◌then◌else◌,
}
use ax_go.Contract.Codes.{internal_error}
use ax_go.Contract.Context.{Context}
use ax_go.Contract.Errors.{
  GoError, AxError, to_error, new_error, with_error_exit_code, exit_internal,
}
use ax_go.Schema.{Command, Tree}
use ax_go.Schema.Pflag.{FlagType, Flag}
use ax_go.Schema.Convert.Values.{Parsers}
use ax_go.Schema.Locators.{StringsJson}
use ax_go.Schema.Reflect.{is_required_flag, flags_of}
use ax_go.Mcp.{Tool}
use ax_go.McpServer.Arguments.{Value, FlagInfo, Built}
use ax_go.McpServer.Arguments.Build.{Target, build_args, apply_call_config}
use ax_go.McpServer.Errors.{Server, to_ax_error, validation}
use ax_go.McpServer.Tools.{discover_tools, resolve_target}

abbrev pub Assignments : Type 0
Assignments = List (Text × List Text)

pub data Outcome (A : Type 0) : Type 0 where
  returned : A → Outcome A
  panicked : Text → Outcome A

-- What a command has written, and how it ended.
pub record Ran : Type 0 where
  pub stdout : Text
  pub stderr : Text
  pub outcome : Outcome (Option GoError)

-- The command tree: its reset, the Replace of a flag's value if that is a slice value, and
-- ExecuteContext with an argument vector after the assignments. Each of them may panic.
pub record Engine : Type 0 where
  pub reset : Context → Outcome Unit
  pub replace : Text → Option (List Text → Outcome (Option Text))
  pub execute_context : Context → List Text → Assignments → Ran

-- The two buffers and the error of `execute`.
pub record Output : Type 0 where
  pub stdout : Text
  pub stderr : Text
  pub run_err : Option GoError

abbrev failed : Text → GoError → Output
failed stderr e = record { stdout = []; stderr = stderr; run_err = some e }

abbrev replaced : Outcome (Option Text) → Outcome (Option Text) → Outcome (Option Text)
replaced (panicked message) rest = panicked message
replaced (returned (some e)) rest = returned (some (codes "argument: " ++ e))
replaced (returned none) rest = rest

abbrev assigned :
    Option (List Text → Outcome (Option Text))
    → List Text
    → Outcome (Option Text)
    → Outcome (Option Text)
assigned none values rest = returned (some (codes "argument does not accept multiple values"))
assigned (some replace) values rest = replaced (replace values) rest

-- An error is its message.
unfoldable pub apply_flag_assignments : Engine → Assignments → Outcome (Option Text)
apply_flag_assignments engine [] = returned none
apply_flag_assignments engine ((name, values) ∷ assignments) =
    assigned (engine.replace name) values (apply_flag_assignments engine assignments)

-- A recovered panic: what was written on standard output is dropped.
abbrev recovered : Context → Text → Text → Output
recovered ctx stderr message = failed stderr (
    to_error (
      new_error (some ctx) internal_error
        (codes "recovered panic during tool dispatch: " ++ message)
        (with_error_exit_code exit_internal ∷ [])))

abbrev executed : Context → Text → Text → Outcome (Option GoError) → Output
executed ctx stdout stderr (returned run_err) = record {
  stdout = stdout;
  stderr = stderr;
  run_err = run_err;
}
executed ctx stdout stderr (panicked message) = recovered ctx stderr message

abbrev after_assignments : Server → Context → Outcome (Option Text) → Ran → Output
after_assignments server ctx (panicked message) ran = recovered ctx [] message
after_assignments server ctx (returned (some e)) ran =
    failed [] (to_error (validation server (some ctx) e))
after_assignments server ctx (returned none) ran = executed ctx ran.stdout ran.stderr ran.outcome

abbrev after_reset : Context → Outcome Unit → Output → Output
after_reset ctx (panicked message) output = recovered ctx [] message
after_reset ctx (returned u) output = output

-- `execute` with the deferred recovery of `runRecovered`.
unfoldable pub run_recovered : Server → Engine → Context → List Text → Assignments → Output
run_recovered server engine ctx argv assignments = after_reset ctx (engine.reset ctx) (
    after_assignments server ctx (apply_flag_assignments engine assignments)
      (engine.execute_context ctx argv assignments))

-- The names below the root in a command's path: no name has a space.
unfoldable pub command_path_args : Command → List Text
command_path_args cmd = elim (fields cmd.path) [ [] ↦ [] | name ∷ names ↦ names ]

pub data Reply : Type 0 where
  success_result : Text → Reply
  error_result : AxError → Reply

abbrev pub reply : Server → Context → Output → Reply
reply server ctx output = elim output.run_err [
  | none ↦ success_result output.stdout
  | some e ↦ error_result (to_ax_error server (some ctx) e)
]

abbrev pub refused : Server → Context → Text → Output
refused server ctx message = failed [] (to_error (validation server (some ctx) message))

-- What the dispatcher is given: Value.Type of pflag, encoding/csv, and a JSON object or null.
pub record Readers : Type 0 where
  pub type_name : FlagType → Text
  pub read_csv : Text → Result Text (List Text)
  pub decode : Text → Result Text (Option (List (Text × Value)))

abbrev object_of : Result Text (Option (List (Text × Value))) → Result Text (List (Text × Value))
object_of (err e) = err e
object_of (ok none) = ok []
object_of (ok (some args)) = ok args

unfoldable pub decode_arguments : Readers → Text → Result Text (List (Text × Value))
decode_arguments readers raw =
    if is_empty (trim_space raw) then ok [] else object_of (readers.decode raw)

abbrev slice_type_of : Readers → FlagType → Option (List Text) → Option Text
slice_type_of readers t none = none
slice_type_of readers t (some values) = some (readers.type_name t)

abbrev pub info : Readers → Flag → FlagInfo
info readers f = record {
  name = f.name;
  slice_type = slice_type_of readers f.flag_type f.slice;
  required = is_required_flag f;
}

unfoldable pub accepted_flags : Readers → Command → List FlagInfo
accepted_flags readers cmd = map (info readers) (flags_of cmd)

-- A dispatcher for one call: its server, the tree of its root, the context and a fresh key.
pub record Dispatcher : Type 0 where
  pub server : Server
  pub engine : Engine
  pub readers : Readers
  pub root : Tree
  pub ctx : Context
  pub fresh : Text

abbrev pub target : Dispatcher → Command → Target
target d cmd = record {
  server = d.server;
  ctx = some d.ctx;
  allowed = accepted_flags d.readers cmd;
  path = command_path_args cmd;
  fresh = d.fresh;
}

abbrev pub run_built : Dispatcher → Result AxError Built → Output
run_built d (err e) = failed [] (to_error e)
run_built d (ok built) =
    run_recovered d.server d.engine (apply_call_config d.ctx built.config) built.argv
      built.assignments

abbrev pub dispatched : Dispatcher → List (Text × Value) → Option Command → Output
dispatched d args none =
    refused d.server d.ctx (codes "resolve tool: not in the discovered tool set")
dispatched d args (some cmd) = run_built d (build_args d.readers.read_csv (target d cmd) args)

module _ (p : Parsers) (json : StringsJson) where
  unfoldable pub is_tool_name : Tree → Text → Bool
  is_tool_name root name =
      exists? (λ (tool : Tool p). text_eq name tool.name) (discover_tools p json root).0

  unfoldable pub dispatch : Dispatcher → Text → List (Text × Value) → Output
  dispatch d name args = dispatched d args (resolve_target p json d.root name)

  abbrev pub with_arguments : Dispatcher → Text → Result Text (List (Text × Value)) → Output
  with_arguments d name (err e) = refused d.server d.ctx (codes "invalid arguments: " ++ e)
  with_arguments d name (ok args) = dispatch d name args

  -- The name and the raw arguments of a request, none where it has no parameters.
  abbrev pub handled : Dispatcher → Option (Text × Text) → Output
  handled d none = refused d.server d.ctx (codes "malformed tool call request")
  handled d (some (name, raw)) =
      if is_tool_name d.root name
      then with_arguments d name (decode_arguments d.readers raw)
      else refused d.server d.ctx (codes "unknown tool")

  -- The reply, and what is forwarded to the server's standard error.
  unfoldable pub handle : Dispatcher → Option (Text × Text) → Reply × Text
  handle d request = let output = handled d request in (reply d.server d.ctx output, output.stderr)
