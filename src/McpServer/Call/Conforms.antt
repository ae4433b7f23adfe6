-- ===== src/McpServer/Call/Conforms.antt =====
-- The arguments of a call that is dispatched, against the input schema that its tool advertises.
use ax_go.Common.{
  Text, text_eq, text_eq→≡, text_eq_iff, Bool, true, false, ◌||◌, Option, none, some, List, [], ◌∷◌,
  map, exists?, Result, ok, err, ◌≡◌, refl, sym, ap, ◌∙◌, arith, Bool-cases, inl, inr,
}
use ax_go.Common.Sorts.{exists?-sort}
use ax_go.Schema.{Command}
use ax_go.Schema.Pflag.{Flag}
use ax_go.Schema.Convert.Values.{Parsers}
use ax_go.Schema.Reflect.{flags_of, named, flags_of-IsResolved}
use ax_go.Mcp.{Property, InputSchema, input_schema, flag_properties, flag_property}
use ax_go.Mcp.Inputs.{is_marked, input_schema-IsFaithful}
use ax_go.McpServer.Arguments.{
  Value, FlagInfo, Building, Built, flag_format, flag_dry_run, flag_idempotency_key, find_flag,
  apply_args, apply_found, then_rest,
}
use ax_go.McpServer.Arguments.Build.{
  Target, is_set, is_required, start, finished, by_key, build_args,
}
use ax_go.McpServer.Arguments.Required.{has_key, build_args_required}
use ax_go.McpServer.Call.{Readers, Dispatcher, target, info, accepted_flags}

abbrev is_found : Option FlagInfo → Bool
is_found none = false
is_found (some f) = true

accepted_named :
    (readers : Readers) (name : Text) (flags : List Flag)
    → is_required (find_flag (map (info readers) flags) name) ≡ is_marked (named name flags)
unfolding find_flag
accepted_named readers name [] = refl
accepted_named readers name (f ∷ flags) = ground (arith, accepted_named readers name flags)

module _ (p : Parsers) where
  abbrev pub has_property : Text → InputSchema p → Bool
  has_property name schema = exists? (λ (e : Text × Property p). text_eq name e.0) schema.properties

  accepted_property :
      (readers : Readers) (name : Text) (flags : List Flag)
      → is_found (find_flag (map (info readers) flags) name)
        ≡ exists?
            (λ (e : Text × Property p). text_eq name e.0)
            (map (λ (f : Flag). (f.name, flag_property p f)) flags)
  unfolding find_flag
  accepted_property readers name [] = refl
  accepted_property readers name (f ∷ flags) = ground (
    arith,
    accepted_property readers name flags,
    text_eq_iff name f.name,
    text_eq_iff f.name name,
  )

module _ (read_csv : Text → Result Text (List Text)) (allowed : List FlagInfo) (name : Text) where
  one_more_found :
      (key : Text) (value : Value) (args : List (Text × Value)) (b b' : Building)
      (found : Option FlagInfo) (r : Result Text Building)
      → find_flag allowed key ≡ found
      → apply_found read_csv found key value b ≡ r
      → then_rest r (λ next. apply_args read_csv allowed args next) ≡ ok b'
      → ((next : Building)
          → apply_args read_csv allowed args next ≡ ok b'
          → has_key name args ≡ true
          → is_found (find_flag allowed name) ≡ true)
      → has_key name ((key, value) ∷ args) ≡ true
      → is_found (find_flag allowed name) ≡ true
  one_more_found key value args b b' found (err e) f q h later has = cc
  one_more_found key value args b b' none (ok next) f q h later has = cc
  one_more_found key value args b b' (some flag) (ok next) f q h later has =
      elim (Bool-cases (text_eq name key)) [
        | inl same ↦ rw (text_eq→≡ name key same) (rw f refl)
        | inr differs ↦ later next h (ground arith)
      ]

  applied_found :
      (args : List (Text × Value)) (b b' : Building)
      → apply_args read_csv allowed args b ≡ ok b'
      → has_key name args ≡ true
      → is_found (find_flag allowed name) ≡ true
  unfolding apply_args
  applied_found [] b b' h has = cc
  applied_found ((key, value) ∷ args) b b' h has =
      one_more_found key value args b b' _ _ refl refl h (λ next. applied_found args next b') has

finished_found :
    (read_csv : Text → Result Text (List Text)) (t : Target) (name : Text)
    (args : List (Text × Value)) (r : Result Text Building) (built : Built)
    → apply_args read_csv t.allowed args start ≡ r
    → finished t r ≡ ok built
    → has_key name args ≡ true
    → is_found (find_flag t.allowed name) ≡ true
finished_found read_csv t name args (err e) built q h has = cc
finished_found read_csv t name args (ok b) built q h has =
    applied_found read_csv t.allowed name args start b q has

module _ (p : Parsers) (d : Dispatcher) (cmd : Command) where
  -- An input that the call gives is one of the schema's; one that the schema requires is given, or is
  -- one of the three that the engine sets itself.
  abbrev pub Conforms : InputSchema p → List (Text × Value) → Text → Type 0
  Conforms schema args name =
      (has_key name args ≡ true → has_property p name schema ≡ true)
      × (exists? (text_eq name) schema.required ≡ true
          → (is_set (flag_format ∷ flag_dry_run ∷ flag_idempotency_key ∷ []) name
              || has_key name args)
            ≡ true)

  -- A call whose arguments are dispatched to a command keeps to the input schema that the command's
  -- tool advertises: it gives no input whose name the schema has not, and all those that it requires,
  -- but for the format, the dry run and the idempotency key, which the engine sets itself.
  pub build_args-Conforms :
      (args : List (Text × Value)) (built : Built) (name : Text)
      → build_args d.readers.read_csv (target d cmd) args ≡ ok built
      → Conforms (input_schema p cmd) args name
  unfolding build_args accepted_flags input_schema flag_properties
  build_args-Conforms args built name h = (
    λ has.
        sym (accepted_property p d.readers name (flags_of cmd))
        ∙ finished_found d.readers.read_csv (target d cmd) name _ _ built refl h
            (exists?-sort by_key (λ a. text_eq name a.0) args ∙ has),
    λ required. build_args_required d.readers.read_csv (target d cmd) args built name h (
        accepted_named d.readers name (flags_of cmd)
        ∙ ap is_marked (flags_of-IsResolved cmd name).1
        ∙ sym (input_schema-IsFaithful p cmd name).1
        ∙ required),
  )
