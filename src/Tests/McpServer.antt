-- ===== src/Tests/McpServer.antt =====
-- Tool calls at concrete inputs.
use mathlib.Core.List.Perm
use ax_go.Common.TextOrder.{Texts-set}
use ax_go.McpServer.Listing.{rank_of, sort_by_rank, sort_by_rank_lem}
use ax_go.Common.{
  Text, codes, text_eq, text_lt, true, false, none, List, [], ◌∷◌, Result, ok, err, ◌≡◌, refl,
  arith,
}
use ax_go.Common.Sorts.{sort, insert}
use ax_go.Contract.Mode.{json}
use ax_go.Contract.Errors.{GoError, wrap, deadline_exceeded, AxError}
use ax_go.McpServer.Errors.{Server, validation}
use ax_go.McpServer.Flags.{
  Flag, plain_flag, slice_flag, Invocation, call_tool, call_tools, reset_flag, reset_flag_set,
}
use ax_go.McpServer.Arguments.{
  Value, scalar, bool_value, text_value, FlagInfo, Built, apply_args, apply_arg, find_flag,
  flag_yes, flag_dry_run, flag_format, flag_idempotency_key,
}
use ax_go.McpServer.Arguments.Build.{Target, build_args, missing_required_flag, missing_names}

abbrev server : Server
server = record { name = codes "tool"; version = codes "1.0.0" }

abbrev slow_call : GoError
slow_call = wrap (codes "get: context deadline exceeded") deadline_exceeded

abbrev tree_flags : List Flag
tree_flags =
    plain_flag (codes "name") [] (codes "old") true true
    ∷ slice_flag (codes "tags") (codes "a" ∷ []) [] true true
    ∷ []

-- A call that sets the first flag and gives back what it found.
abbrev set_first : List Flag → List Flag
set_first [] = []
set_first (plain_flag name def value takes changed ∷ flags) =
    plain_flag name def (codes "new") takes true ∷ flags
set_first (slice_flag name defs values takes changed ∷ flags) =
    slice_flag name defs (codes "x" ∷ []) takes true ∷ flags

abbrev set_name : Invocation (List Flag)
set_name flags = (flags, set_first flags)

-- A map flag refuses the empty map that it prints as its default, so a call still sees what the one
-- before it set.
refused_default_stays :
    (call_tool set_name (
      call_tools
        (set_name ∷ [])
        (plain_flag (codes "env") (codes "[]") (codes "[]") false false ∷ []))).0
    ≡ plain_flag (codes "env") (codes "[]") (codes "new") false false ∷ []
unfolding call_tool call_tools reset_flag_set reset_flag
refused_default_stays = refl

abbrev no_csv : Text → Result Text (List Text)
no_csv s = err (codes "no csv")

abbrev flag : Text → FlagInfo
flag name = record { name = name; slice_type = none; required = false }

abbrev target : Target
target = record {
  server = server;
  ctx = none;
  allowed =
      flag flag_format
      ∷ record (flag flag_yes) { required = true }
      ∷ flag flag_dry_run
      ∷ flag flag_idempotency_key
      ∷ [];
  path = codes "delete" ∷ [];
  fresh = codes "k";
}

abbrev asks_human : List (Text × Value)
asks_human =
    (flag_yes, scalar (bool_value true)) ∷ (flag_format, scalar (text_value (codes "human"))) ∷ []

abbrev expected : Built
expected = record {
  argv =
      codes "delete"
      ∷ codes "--format=json"
      ∷ codes "--idempotency-key=k"
      ∷ codes "--yes=true"
      ∷ [];
  assignments = [];
  config = record { mode = json; dry_run = false; approval = true; idempotency_key = codes "k" };
}

asks_human_builds : build_args no_csv target asks_human ≡ ok expected
unfolding build_args apply_args apply_arg find_flag missing_required_flag missing_names text_eq
    text_lt sort insert
asks_human_builds = refl

abbrev yes_as_text : List (Text × Value)
yes_as_text = (flag_yes, scalar (text_value (codes "true"))) ∷ []

abbrev refusal : AxError
refusal = validation server none (codes "argument must be a boolean")

yes_as_text_refused : build_args no_csv target yes_as_text ≡ err refusal
unfolding build_args apply_args apply_arg find_flag missing_required_flag missing_names text_eq
    text_lt sort insert
yes_as_text_refused = refl

abbrev ask : Text
ask = codes "ask"

abbrev greet : Text
greet = codes "greet"

sort_by_rank_lem_example :
    sort_by_rank (λ name. name) (ask ∷ greet ∷ []) (rank_of (greet ∷ ask ∷ [])) ≡ greet ∷ ask ∷ []
sort_by_rank_lem_example =
    sort_by_rank_lem (λ name. name) (greet ∷ ask ∷ []) (ask ∷ greet ∷ []) Texts-set
      (((λ e. ground arith), tt), (tt, tt)) (Perm.swap greet ask [])
