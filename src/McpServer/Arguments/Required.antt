-- ===== src/McpServer/Arguments/Required.antt =====
-- A call that is dispatched has all required arguments.
use ax_go.Common.{
  Text, text_eq, text_eq→≡, text_eq_refl, text_lt, Bool, true, false, ◌||◌, ◌&&◌, not, Option, none,
  some, List, [], ◌∷◌, ◌++◌, map, keep, exists?, Result, ok, err, ◌≡◌, ◌⊎◌, inl, inr, refl, sym, ap,
  ◌∙◌, arith, Bool-cases,
}
use ax_go.Common.Sorts.{sort, exists?-sort}
use ax_go.McpServer.Arguments.{
  bool_value, text_value, null_value, number_value, nested_value, Value, scalar, list_value,
  FlagInfo, CallConfig, Building, Built, flag_format, flag_dry_run, flag_yes, flag_idempotency_key,
  config_bool, config_text, apply_arg, append_converted_flag_arg, convert_slice, with_slice,
  with_plain, apply_found, then_rest, find_flag, apply_args, stringify_scalar, stringify_arg_list,
}
use ax_go.McpServer.Arguments.Build.{
  Target, build_args, finished, assembled, start, set_at_end, missing_required_flag, missing_names,
  by_key, is_set, is_required, first,
}

-- A step marks its own key as set, or nothing.
abbrev Marks : Text → Building → Building → Type 0
Marks key b b' = (b'.set_flags ≡ b.set_flags) ⊎ (b'.set_flags ≡ b.set_flags ++ key ∷ [])

with_slice-Marks :
    (key : Text) (b b' : Building) (r : Result Text (Option (List Text)))
    → with_slice key b r ≡ ok b'
    → Marks key b b'
with_slice-Marks key b b' (err e) h = cc
with_slice-Marks key b b' (ok none) h = inl (ground arith)
with_slice-Marks key b b' (ok (some values)) h = inr (ground arith)

with_plain-Marks :
    (key : Text) (b b' : Building) (r : Result Text (Option Text))
    → with_plain key b r ≡ ok b'
    → Marks key b b'
with_plain-Marks key b b' (err e) h = cc
with_plain-Marks key b b' (ok none) h = inl (ground arith)
with_plain-Marks key b b' (ok (some s)) h = inr (ground arith)

config_bool-Marks :
    (key : Text) (b b' : Building) (value : Value) (set : Bool → CallConfig)
    → config_bool key b value set ≡ ok b'
    → Marks key b b'
config_bool-Marks key b b' (scalar (bool_value v)) set h = inr (ground arith)
config_bool-Marks key b b' (scalar null_value) set h = cc
config_bool-Marks key b b' (scalar (text_value s)) set h = cc
config_bool-Marks key b b' (scalar (number_value s)) set h = cc
config_bool-Marks key b b' (scalar (nested_value s)) set h = cc
config_bool-Marks key b b' (list_value items) set h = cc

config_text-Marks :
    (key : Text) (b b' : Building) (value : Value) (set : Text → CallConfig)
    → config_text key b value set ≡ ok b'
    → Marks key b b'
config_text-Marks key b b' (scalar (text_value s)) set h = inr (ground arith)
config_text-Marks key b b' (scalar null_value) set h = cc
config_text-Marks key b b' (scalar (bool_value v)) set h = cc
config_text-Marks key b b' (scalar (number_value s)) set h = cc
config_text-Marks key b b' (scalar (nested_value s)) set h = cc
config_text-Marks key b b' (list_value items) set h = cc

-- Does some argument have this key?
abbrev pub has_key : Text → List (Text × Value) → Bool
has_key name args = exists? (λ a. text_eq name a.0) args

marked_key :
    (key name : Text) (b b' : Building)
    → Marks key b b'
    → is_set b'.set_flags name ≡ true
    → (is_set b.set_flags name || text_eq name key) ≡ true
marked_key key name b b' (inl q) h = ground (arith, q)
marked_key key name b b' (inr q) h = last_set b.set_flags (rw q at h)
  where
    last_set :
        (set : List Text)
        → is_set (set ++ key ∷ []) name ≡ true
        → (is_set set name || text_eq name key) ≡ true
    last_set [] k = ground arith
    last_set (x ∷ set) k = ground (arith, last_set set)

kept_none :
    (p : Text → Bool) (names : List Text) (name : Text)
    → first (keep p names) ≡ none
    → exists? (text_eq name) names ≡ true
    → p name ≡ false
kept_none p [] name h k = cc
kept_none p (x ∷ names) name h k = elim (Bool-cases (p x)) [
  | inl q ↦ absurd (ground arith)
  | inr q ↦ elim (Bool-cases (text_eq name x)) [
    | inl same ↦ rw (text_eq→≡ name x same) q
    | inr other ↦ kept_none p names name (rw q at h) (rw other at k)
  ]
]

found_listed :
    (allowed : List FlagInfo) (name : Text)
    → is_required (find_flag allowed name) ≡ true
    → exists? (text_eq name) (map (λ f. f.name) allowed) ≡ true
unfolding find_flag
found_listed [] name h = cc
found_listed (f ∷ allowed) name h = elim (Bool-cases (text_eq f.name name)) [
  | inl same ↦ ground (arith, text_eq→≡ f.name name same, text_eq_refl name)
  | inr other ↦ ground (arith, found_listed allowed name (rw other at h))
]

none_missing :
    (allowed : List FlagInfo) (set : List Text) (name : Text)
    → missing_required_flag allowed set ≡ none
    → is_required (find_flag allowed name) ≡ true
    → is_set set name ≡ true
unfolding missing_required_flag missing_names
none_missing allowed set name h required =
    let listed =
      exists?-sort text_lt (text_eq name) (map (λ f. f.name) allowed)
      ∙ found_listed allowed name required in
    let q =
      kept_none (λ n. is_required (find_flag allowed n) && not (is_set set n)) _ name h listed in
    ground arith

module _ (read_csv : Text → Result Text (List Text)) where
  converted-Marks :
      (key : Text) (slice_type : Option Text) (value : Value) (b b' : Building)
      → convert_slice read_csv key slice_type value b ≡ ok b'
      → Marks key b b'
  converted-Marks key none value b b' h = with_plain-Marks key b b' (stringify_scalar value) h
  converted-Marks key (some flag_type) value b b' h =
      with_slice-Marks key b b' (stringify_arg_list read_csv value flag_type) h

  apply_arg-Marks :
      (key : Text) (flag : FlagInfo) (value : Value) (b b' : Building)
      → apply_arg read_csv key flag value b ≡ ok b'
      → Marks key b b'
  unfolding apply_arg append_converted_flag_arg
  apply_arg-Marks key flag value b b' h = elim (Bool-cases (text_eq key flag_format)) [
    | inl p ↦ inr (ground arith)
    | inr f ↦ elim (Bool-cases (text_eq key flag_dry_run)) [
      | inl d ↦ config_bool-Marks key b b' value _ (rw (f, d) at h)
      | inr d ↦ elim (Bool-cases (text_eq key flag_yes)) [
        | inl y ↦ config_bool-Marks key b b' value _ (rw (f, d, y) at h)
        | inr y ↦ elim (Bool-cases (text_eq key flag_idempotency_key)) [
          | inl i ↦ config_text-Marks key b b' value _ (rw (f, d, y, i) at h)
          | inr i ↦ converted-Marks key flag.slice_type value b b' (rw (f, d, y, i) at h)
        ]
      ]
    ]
  ]

  one_more_key :
      (allowed : List FlagInfo) (name key : Text) (value : Value) (args : List (Text × Value))
      (b b' : Building) (found : Option FlagInfo) (r : Result Text Building)
      → apply_found read_csv found key value b ≡ r
      → then_rest r (λ next. apply_args read_csv allowed args next) ≡ ok b'
      → ((next : Building)
          → apply_args read_csv allowed args next ≡ ok b'
          → (is_set next.set_flags name || has_key name args) ≡ true)
      → (is_set b.set_flags name || has_key name ((key, value) ∷ args)) ≡ true
  one_more_key allowed name key value args b b' found (err e) q h k = cc
  one_more_key allowed name key value args b b' none (ok next) q h k = cc
  one_more_key allowed name key value args b b' (some flag) (ok next) q h k =
      let one = marked_key key name b next (apply_arg-Marks key flag value b next q) in
      ground (arith, k next h, one)

  set-has_key :
      (allowed : List FlagInfo) (name : Text) (args : List (Text × Value)) (b b' : Building)
      → is_set b'.set_flags name ≡ true
      → apply_args read_csv allowed args b ≡ ok b'
      → (is_set b.set_flags name || has_key name args) ≡ true
  unfolding apply_args
  set-has_key allowed name [] b b' set h = ground arith
  set-has_key allowed name ((key, value) ∷ args) b b' set h =
      one_more_key allowed name key value args b b' (find_flag allowed key) _ refl h
        (λ next q. set-has_key allowed name args next b' set q)

  assembled-set :
      (t : Target) (b : Building) (missing : Option Text) (built : Built)
      → assembled t b missing ≡ ok built
      → missing ≡ none
  assembled-set t b none built h = refl
  assembled-set t b (some name) built h = cc

  finished-has_key :
      (t : Target) (args : List (Text × Value)) (r : Result Text Building) (built : Built)
      (name : Text)
      → apply_args read_csv t.allowed args start ≡ r
      → finished t r ≡ ok built
      → is_required (find_flag t.allowed name) ≡ true
      → (is_set (set_at_end start) name || has_key name args) ≡ true
  finished-has_key t args (err e) built name q h required = cc
  finished-has_key t args (ok b) built name q h required =
      let here =
        none_missing t.allowed (set_at_end b) name (assembled-set t b _ built h) required in
      elim (Bool-cases (is_set b.set_flags name)) [
        | inl set ↦ ground (arith, set-has_key t.allowed name args start b set q)
        | inr other ↦ ground arith
      ]

  -- A call that is dispatched has every required flag: the engine sets it itself, or an argument of
  -- the call has its name. In particular a required `yes` is never supplied by the server.
  pub build_args_required :
      (t : Target) (args : List (Text × Value)) (built : Built) (name : Text)
      → build_args read_csv t args ≡ ok built
      → is_required (find_flag t.allowed name) ≡ true
      → (is_set (flag_format ∷ flag_dry_run ∷ flag_idempotency_key ∷ []) name || has_key name args)
        ≡ true
  unfolding build_args
  build_args_required t args built name h required =
      let sorted = finished-has_key t (sort by_key args) _ built name refl h required in
      ap (λ k. is_set (flag_format ∷ flag_dry_run ∷ flag_idempotency_key ∷ []) name || k)
        (sym (exists?-sort by_key (λ a. text_eq name a.0) args))
      ∙ sorted
