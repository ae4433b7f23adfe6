-- ===== src/Tests/Calls.antt =====
-- Tool calls on a small tree.
use mathlib.Core.List.Perm
use ax_go.Common.{
  Text, codes, text_eq, text_eq_iff, text_lt, trim_space, trim_left, trim_right, cons_unless,
  is_space, fields, fields_from, join, true, false, none, some, List, [], ◌∷◌, ok, err, ◌≡◌, refl,
  arith,
}
use ax_go.Common.Sorts.{sort, insert}
use ax_go.Contract.Context.{background}
use ax_go.Contract.Mode.{json}
use ax_go.Schema.Reflect.{flags_of, first_named, is_required_flag}
use ax_go.Mcp.{
  input_schema, build_tool, tool_name, walk_callable_commands, is_excluded, is_reserved_command,
}
use ax_go.Schema.Declare.{annotation}
use ax_go.McpServer.Arguments.{
  Value, scalar, bool_value, text_value, Built, apply_args, apply_arg, append_converted_flag_arg,
  stringify_arg, find_flag, flag_dry_run,
}
use ax_go.McpServer.Arguments.Build.{build_args, missing_required_flag, missing_names}
use ax_go.McpServer.Arguments.Deterministic.{build_args-eq_of_perm}
use ax_go.McpServer.Tools.{resolve_target, discover_tools, discover_from, put_target, target_of}
use ax_go.McpServer.Call.{
  returned, Dispatcher, target, accepted_flags, command_path_args, handle, success_result,
  decode_arguments, is_tool_name, dispatch, run_recovered, apply_flag_assignments,
}
use ax_go.McpServer.Call.Answered.{IsAnswered, handle-IsAnswered}
use ax_go.McpServer.Call.Conforms.{Conforms, build_args-Conforms}
use ax_go.Tests.Flags.{parsers}
use ax_go.Tests.Mcp.{list, root}
use ax_go.Tests.Schema.Codec.{strings_of}

abbrev level_debug : Text × Value
level_debug = (codes "level", scalar (text_value (codes "debug")))

abbrev dispatcher : Dispatcher
dispatcher = record {
  server = record { name = codes "app"; version = codes "1.0.0" };
  engine = record {
    reset = λ ctx. returned tt;
    replace = λ name. none;
    execute_context = λ ctx argv assignments. record {
      stdout = codes "{}";
      stderr = codes "log";
      outcome = returned none;
    };
  };
  readers = record {
    type_name = λ t. codes "string";
    read_csv = λ s. err (codes "no csv");
    decode = λ raw. ok (some (level_debug ∷ []));
  };
  root = root;
  ctx = background;
  fresh = codes "k";
}

abbrev built : Built
built = record {
  argv =
      codes "list"
      ∷ codes "--format=json"
      ∷ codes "--idempotency-key=k"
      ∷ codes "--level=debug"
      ∷ [];
  assignments = [];
  config = record { mode = json; dry_run = false; approval = false; idempotency_key = codes "k" };
}

level_builds :
    build_args dispatcher.readers.read_csv (target dispatcher list) (level_debug ∷ []) ≡ ok built
unfolding build_args accepted_flags command_path_args flags_of first_named is_required_flag
    apply_args apply_arg append_converted_flag_arg stringify_arg find_flag missing_required_flag
    missing_names text_eq text_lt sort insert fields_from is_space fields
level_builds = refl

build_args-Conforms_example :
    Conforms parsers dispatcher list (input_schema parsers list) (level_debug ∷ []) (codes "level")
build_args-Conforms_example =
    build_args-Conforms parsers dispatcher list (level_debug ∷ []) built (codes "level")
      level_builds

handle-IsAnswered_example :
    IsAnswered dispatcher
      (some (codes "app-list", codes "{}"))
      (handle parsers strings_of dispatcher (some (codes "app-list", codes "{}")))
handle-IsAnswered_example =
    handle-IsAnswered parsers strings_of dispatcher (some (codes "app-list", codes "{}"))

abbrev level_first : List (Text × Value)
level_first = level_debug ∷ (flag_dry_run, scalar (bool_value true)) ∷ []

abbrev level_last : List (Text × Value)
level_last = (flag_dry_run, scalar (bool_value true)) ∷ level_debug ∷ []

build_args-eq_of_perm_example :
    build_args dispatcher.readers.read_csv (target dispatcher list) level_last
    ≡ build_args dispatcher.readers.read_csv (target dispatcher list) level_first
build_args-eq_of_perm_example =
    build_args-eq_of_perm dispatcher.readers.read_csv (target dispatcher list)
      (((λ e. ground (arith, text_eq_iff (codes "level") flag_dry_run)), tt), (tt, tt))
      (Perm.swap level_debug (flag_dry_run, scalar (bool_value true)) [])

handled :
    handle parsers strings_of dispatcher (some (codes "app-list", codes "{}"))
    ≡ (success_result (codes "{}"), codes "log")
unfolding handle is_tool_name dispatch decode_arguments resolve_target discover_tools discover_from
    put_target target_of build_tool tool_name walk_callable_commands is_excluded is_reserved_command
    run_recovered apply_flag_assignments build_args accepted_flags command_path_args flags_of
    first_named is_required_flag apply_args apply_arg append_converted_flag_arg stringify_arg
    find_flag missing_required_flag missing_names text_eq text_lt sort insert fields_from is_space
    trim_space trim_left trim_right cons_unless annotation join fields
handled = refl
