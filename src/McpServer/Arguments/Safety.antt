-- ===== src/McpServer/Arguments/Safety.antt =====
-- What a call may set, and what it must.
use ax_go.Common.{
  Text, codes, text_eq, Bool, true, false, ◌||◌, ◌&&◌, Option, none, some, List, [], ◌∷◌, ◌++◌,
  exists?, Result, ok, err, ◌≡◌, inl, inr, refl, sym, ◌∙◌, arith, Bool-cases,
}
use ax_go.Common.Sorts.{sort, exists?-sort}
use ax_go.Contract.Errors.{AxError, to_error, error_exit_code, exit_validation}
use ax_go.Contract.Mode.{json}
use ax_go.McpServer.Errors.{validation_exit}
use ax_go.McpServer.Arguments.{
  bool_value, text_value, null_value, number_value, nested_value, Value, scalar, list_value,
  FlagInfo, CallConfig, Building, Built, flag_format, flag_dry_run, flag_yes, flag_idempotency_key,
  config_bool, config_text, apply_arg, append_converted_flag_arg, convert_slice, with_slice,
  with_plain, apply_found, then_rest, find_flag, apply_args, stringify_scalar, stringify_arg_list,
}
use ax_go.McpServer.Arguments.Build.{Target, build_args, finished, assembled, start, by_key}

-- Does this argument grant approval?
abbrev pub grants : Text × Value → Bool
grants (key, scalar (bool_value b)) = text_eq key flag_yes && b
grants (key, value) = false

granted :
    (key : Text) (value : Value) (v : Bool)
    → value ≡ scalar (bool_value v)
    → text_eq key flag_yes ≡ true
    → v ≡ true
    → grants (key, value) ≡ true
granted key value v is y t = rw is (ground arith)

module _ (read_csv : Text → Result Text (List Text)) where
  -- A step keeps the mode, and approval is what it was or what this argument grants.
  record IsSafe (arg : Text × Value) (before after : Building) : Type 0 where
    same_mode : after.config.mode ≡ before.config.mode
    no_more : after.config.approval ≡ true → (before.config.approval || grants arg) ≡ true

  with_slice-config :
      (key : Text) (b b' : Building) (r : Result Text (Option (List Text)))
      → with_slice key b r ≡ ok b'
      → b'.config ≡ b.config
  with_slice-config key b b' (err e) h = cc
  with_slice-config key b b' (ok none) h = ground arith
  with_slice-config key b b' (ok (some values)) h = ground arith

  with_plain-config :
      (key : Text) (b b' : Building) (r : Result Text (Option Text))
      → with_plain key b r ≡ ok b'
      → b'.config ≡ b.config
  with_plain-config key b b' (err e) h = cc
  with_plain-config key b b' (ok none) h = ground arith
  with_plain-config key b b' (ok (some s)) h = ground arith

  converted-config :
      (key : Text) (slice_type : Option Text) (value : Value) (b b' : Building)
      → convert_slice read_csv key slice_type value b ≡ ok b'
      → b'.config ≡ b.config
  converted-config key none value b b' h = with_plain-config key b b' (stringify_scalar value) h
  converted-config key (some flag_type) value b b' h =
      with_slice-config key b b' (stringify_arg_list read_csv value flag_type) h

  -- The arguments that set a Boolean of the configuration.
  config_bool-ok :
      (key : Text) (b b' : Building) (value : Value) (set : Bool → CallConfig)
      → config_bool key b value set ≡ ok b'
      → (v : Bool) × (value ≡ scalar (bool_value v)) × (b'.config ≡ set v)
  config_bool-ok key b b' (scalar (bool_value v)) set h = (v, refl, ground arith)
  config_bool-ok key b b' (scalar null_value) set h = cc
  config_bool-ok key b b' (scalar (text_value s)) set h = cc
  config_bool-ok key b b' (scalar (number_value s)) set h = cc
  config_bool-ok key b b' (scalar (nested_value s)) set h = cc
  config_bool-ok key b b' (list_value items) set h = cc

  config_text-ok :
      (key : Text) (b b' : Building) (value : Value) (set : Text → CallConfig)
      → config_text key b value set ≡ ok b'
      → (s : Text) × (b'.config ≡ set s)
  config_text-ok key b b' (scalar (text_value s)) set h = (s, ground arith)
  config_text-ok key b b' (scalar null_value) set h = cc
  config_text-ok key b b' (scalar (bool_value v)) set h = cc
  config_text-ok key b b' (scalar (number_value s)) set h = cc
  config_text-ok key b b' (scalar (nested_value s)) set h = cc
  config_text-ok key b b' (list_value items) set h = cc

  apply_arg-IsSafe :
      (key : Text) (flag : FlagInfo) (value : Value) (b b' : Building)
      → apply_arg read_csv key flag value b ≡ ok b'
      → IsSafe (key, value) b b'
  unfolding apply_arg append_converted_flag_arg
  apply_arg-IsSafe key flag value b b' h = elim (Bool-cases (text_eq key flag_format)) [
    | inl p ↦ kept (ground arith)
    | inr f ↦ elim (Bool-cases (text_eq key flag_dry_run)) [
      | inl d ↦
          (let (v, _, q) =
              config_bool-ok key b b' value (λ v. record b.config { dry_run = v })
                (rw (f, d) at h) in
            record { same_mode = ground (arith, q); no_more = λ e. ground (arith, q) })
      | inr d ↦ elim (Bool-cases (text_eq key flag_yes)) [
        | inl y ↦
            (let (v, is, q) =
                config_bool-ok key b b' value (λ v. record b.config { approval = v })
                  (rw (f, d, y) at h) in
              record {
                same_mode = ground (arith, q);
                no_more = λ e. ground (arith, granted key value v is y (ground (arith, q)));
              })
        | inr y ↦ elim (Bool-cases (text_eq key flag_idempotency_key)) [
          | inl i ↦
              (let (s, q) =
                  config_text-ok key b b' value (λ s. record b.config { idempotency_key = s })
                    (rw (f, d, y, i) at h) in
                record { same_mode = ground (arith, q); no_more = λ e. ground (arith, q) })
          | inr i ↦ kept (converted-config key flag.slice_type value b b' (rw (f, d, y, i) at h))
        ]
      ]
    ]
  ]
    where
      kept : b'.config ≡ b.config → IsSafe (key, value) b b'
      kept q = record { same_mode = ground (arith, q); no_more = λ e. ground (arith, q) }

  -- The mode and the approval after the arguments.
  abbrev Safe : List (Text × Value) → Building → Building → Type 0
  Safe args b b' =
      (b'.config.mode ≡ b.config.mode)
      × (b'.config.approval ≡ true → (b.config.approval || exists? grants args) ≡ true)

  one_more :
      (allowed : List FlagInfo) (key : Text) (value : Value) (args : List (Text × Value))
      (b b' : Building) (found : Option FlagInfo) (r : Result Text Building)
      → apply_found read_csv found key value b ≡ r
      → then_rest r (λ next. apply_args read_csv allowed args next) ≡ ok b'
      → ((next : Building) → apply_args read_csv allowed args next ≡ ok b' → Safe args next b')
      → Safe ((key, value) ∷ args) b b'
  one_more allowed key value args b b' found (err e) q h k = cc
  one_more allowed key value args b b' none (ok next) q h k = cc
  one_more allowed key value args b b' (some flag) (ok next) q h k =
      let one = apply_arg-IsSafe key flag value b next q in
      let (mode, approval) = k next h in
      (mode ∙ one.same_mode, λ e. ground (arith, approval e, one.no_more))

  apply_args-Safe :
      (allowed : List FlagInfo) (args : List (Text × Value)) (b b' : Building)
      → apply_args read_csv allowed args b ≡ ok b'
      → Safe args b b'
  unfolding apply_args
  apply_args-Safe allowed [] b b' h = (ground arith, λ e. ground arith)
  apply_args-Safe allowed ((key, value) ∷ args) b b' h =
      one_more allowed key value args b b' (find_flag allowed key) _ refl h
        (λ next q. apply_args-Safe allowed args next b' q)

  assembled-config :
      (t : Target) (b : Building) (missing : Option Text) (built : Built)
      → assembled t b missing ≡ ok built
      → (built.config.mode ≡ b.config.mode) × (built.config.approval ≡ b.config.approval)
  assembled-config t b none built h = ground arith
  assembled-config t b (some name) built h = cc

  finished-safe :
      (t : Target) (args : List (Text × Value)) (r : Result Text Building) (built : Built)
      → apply_args read_csv t.allowed args start ≡ r
      → finished t r ≡ ok built
      → (built.config.mode ≡ json) × (built.config.approval ≡ true → exists? grants args ≡ true)
  finished-safe t args (err e) built q h = cc
  finished-safe t args (ok b) built q h =
      let (mode, approval) = apply_args-Safe t.allowed args start b q in
      let (same_mode, same_approval) = assembled-config t b _ built h in
      (same_mode ∙ mode, λ e. approval (sym same_approval ∙ e))

  -- A call that is dispatched runs in machine mode, whatever format it asked for, and it is approved
  -- only if the client itself sent `yes` with the value true.
  pub build_args_safe :
      (t : Target) (args : List (Text × Value)) (built : Built)
      → build_args read_csv t args ≡ ok built
      → (built.config.mode ≡ json) × (built.config.approval ≡ true → exists? grants args ≡ true)
  unfolding build_args
  build_args_safe t args built h =
      let (mode, approval) = finished-safe t (sort by_key args) _ built refl h in
      (mode, λ e. sym (exists?-sort by_key grants args) ∙ approval e)

  assembled-error :
      (t : Target) (b : Building) (missing : Option Text) (e : AxError)
      → assembled t b missing ≡ err e
      → error_exit_code (some (to_error e)) ≡ exit_validation
  assembled-error t b none e h = cc
  assembled-error t b (some name) e h =
      ground
        (arith, validation_exit t.server t.ctx (codes "required argument not provided: " ++ name))

  finished-error :
      (t : Target) (r : Result Text Building) (e : AxError)
      → finished t r ≡ err e
      → error_exit_code (some (to_error e)) ≡ exit_validation
  finished-error t (err message) e h = ground (arith, validation_exit t.server t.ctx message)
  finished-error t (ok b) e h = assembled-error t b _ e h

  -- Arguments that are refused, unknown, of a wrong type or missing, make a call that exits 2.
  pub build_args_error :
      (t : Target) (args : List (Text × Value)) (e : AxError)
      → build_args read_csv t args ≡ err e
      → error_exit_code (some (to_error e)) ≡ exit_validation
  unfolding build_args
  build_args_error t args e h = finished-error t _ e h
