-- ===== src/McpServer/Arguments/Build.antt =====
-- The end of `buildArgs`: the flags that are always set, the required ones, and the argument vector.
use ax_go.Common.{
  Text, codes, text_eq, text_lt, Bool, false, ◌&&◌, not, Option, none, some, List, [], ◌∷◌, ◌++◌,
  map, keep, is_empty, exists?, Result, ok, err, if◌then◌else◌,
}
use ax_go.Common.Sorts.{sort}
use ax_go.Contract.Context.{Context, with_mode, with_dry_run, with_approval, with_idempotency_key}
use ax_go.Contract.Errors.{AxError}
use ax_go.Contract.Mode.{json}
use ax_go.McpServer.Arguments.{
  Value, FlagInfo, CallConfig, Building, Built, flag_format, flag_dry_run, flag_yes,
  flag_idempotency_key, bool_text, apply_args, find_flag,
}
use ax_go.McpServer.Errors.{Server, validation}

abbrev pub is_set : List Text → Text → Bool
is_set set_flags name = exists? (text_eq name) set_flags

abbrev pub is_required : Option FlagInfo → Bool
is_required none = false
is_required (some f) = f.required

-- The names of the required flags that have no value, in order; the first one is reported.
unfoldable pub missing_names : List FlagInfo → List Text → List Text
missing_names allowed set_flags =
    keep (λ name. is_required (find_flag allowed name) && not (is_set set_flags name))
      (sort text_lt (map (λ f. f.name) allowed))

abbrev pub first : List Text → Option Text
first [] = none
first (name ∷ names) = some name

unfoldable pub missing_required_flag : List FlagInfo → List Text → Option Text
missing_required_flag allowed set_flags = first (missing_names allowed set_flags)

abbrev option_arg : Text → Text → Text
option_arg name value = codes "--" ++ (name ++ (b'=' ∷ value))

-- The flags that the engine sets itself; `yes` only if the client did.
abbrev pub forced_args : CallConfig → Bool → List Text
forced_args config yes_given =
    option_arg flag_format (codes "json")
    ∷ ((if config.dry_run then option_arg flag_dry_run (codes "true") ∷ [] else [])
        ++ ((if yes_given then option_arg flag_yes (bool_text config.approval) ∷ [] else [])
            ++ option_arg flag_idempotency_key config.idempotency_key ∷ []))

abbrev with_key : Text → CallConfig → CallConfig
with_key fresh config = record config {
  idempotency_key = if is_empty config.idempotency_key then fresh else config.idempotency_key;
}

abbrev pub start : Building
start = record {
  config = record { mode = json; dry_run = false; approval = false; idempotency_key = [] };
  flag_args = [];
  assignments = [];
  set_flags = [];
}

-- With what counts as set: the engine injects three flags.
abbrev pub set_at_end : Building → List Text
set_at_end b = flag_format ∷ flag_dry_run ∷ flag_idempotency_key ∷ b.set_flags

-- The call as the dispatcher sees it: its command's flags and path, and a fresh key.
pub record Target : Type 0 where
  pub server : Server
  pub ctx : Option Context
  pub allowed : List FlagInfo
  pub path : List Text
  pub fresh : Text

abbrev pub assembled : Target → Building → Option Text → Result AxError Built
assembled t b (some name) =
    err (validation t.server t.ctx (codes "required argument not provided: " ++ name))
assembled t b none =
    let config = with_key t.fresh b.config in
    ok (record {
      argv =
          t.path
          ++ sort text_lt (b.flag_args ++ forced_args config (is_set (set_at_end b) flag_yes));
      assignments = b.assignments;
      config = config;
    })

abbrev pub finished : Target → Result Text Building → Result AxError Built
finished t (err message) = err (validation t.server t.ctx message)
finished t (ok b) = assembled t b (missing_required_flag t.allowed (set_at_end b))

abbrev pub by_key : Text × Value → Text × Value → Bool
by_key a b = text_lt a.0 b.0

unfoldable pub build_args :
    (Text → Result Text (List Text)) → Target → List (Text × Value) → Result AxError Built
build_args read_csv t args = finished t (apply_args read_csv t.allowed (sort by_key args) start)

unfoldable pub apply_call_config : Context → CallConfig → Context
unfolding with_mode with_dry_run with_approval with_idempotency_key
apply_call_config ctx config =
    with_idempotency_key
      (with_approval (with_dry_run (with_mode ctx config.mode) config.dry_run) config.approval)
      config.idempotency_key
