-- ===== src/Config/Parse.antt =====
-- Parse, Patch and PatchFile of config/config.go: options, errors and the file that is patched.
-- Hujson and encoding/json are parameters: a parser, a decoder, an RFC 6902 patch, and a printer.
pub mod Errors
pub mod PatchFile
use ax_go.Common.{
  ℕ, ◌^◌, Text, codes, Bool, true, false, Option, none, some, List, [], ◌∷◌, ◌++◌, ℤ, pos, negsuc,
  Result, ok, err, show_nat, if◌then◌else◌,
}
use ax_go.Contract.Codes.{
  config_invalid, config_max_bytes_invalid, config_option_invalid, config_patch_invalid,
  config_too_large,
}
use ax_go.Contract.Context.{Context}
use ax_go.Contract.Errors.{
  GoError, plain, wrap, to_error, AxError, exit_validation, new_error, with_actionable_fix,
  with_error_exit_code, with_error_context, with_error_cause, error_text,
}
use ax_go.Contract.Json.{integer}
use ax_go.Config.Atomic.{File, Files, Faults, Written, atomic_write_file}
use ax_go.Config.Read.{
  Bytes, Reader, Outcome, complete, invalid_max_bytes, too_large, interrupted, source_failed,
  no_progress, out_of_fuel, Got, read_bounded, max_config_bytes_ceiling,
}
use ax_go.Config.Read.Source.{Policy, source}

abbrev pub default_max_bytes : ℤ
default_max_bytes = pos (2 ^ 20)

-- `options`, whose one field is the limit, and an option, which may be nil.
abbrev pub ConfigOption : Type 0
ConfigOption = ℤ → ℤ

unfoldable pub with_max_bytes : ℤ → ConfigOption
with_max_bytes max_bytes cfg = max_bytes

abbrev pub nil_option : Option Context → AxError
nil_option ctx = new_error ctx config_option_invalid (codes "config parse option must not be nil") (
    with_actionable_fix (codes "remove nil ParseConfigOption values before parsing config")
    ∷ with_error_exit_code exit_validation
    ∷ [])

unfoldable pub apply_options : Option Context → List (Option ConfigOption) → ℤ → Result AxError ℤ
apply_options ctx [] cfg = ok cfg
apply_options ctx (none ∷ opts) cfg = err (nil_option ctx)
apply_options ctx (some opt ∷ opts) cfg = apply_options ctx opts (opt cfg)

abbrev size_error : Option Context → Text → Text → Text → ℤ → GoError
size_error ctx code message fix max_bytes = to_error (
    new_error ctx code message (
      with_actionable_fix fix
      ∷ with_error_context ((codes "max_bytes", integer max_bytes) ∷ [])
      ∷ with_error_exit_code exit_validation
      ∷ []))

-- `normalizeReadError` of the error of a read, if there is one.
unfoldable pub normalize_read_error : Option Context → Outcome → Option GoError
normalize_read_error ctx complete = none
normalize_read_error ctx (invalid_max_bytes max_bytes) = some (
    size_error ctx config_max_bytes_invalid
      (codes "config max bytes must be between 0 and " ++ show_nat max_config_bytes_ceiling)
      (codes "set a config byte limit between 0 and MaxConfigBytesCeiling") max_bytes)
normalize_read_error ctx (too_large max_bytes) = some (
    size_error ctx config_too_large
      (codes "config exceeds maximum size of " ++ (show_nat max_bytes ++ codes " bytes"))
      (codes "reduce the config size or raise the limit with WithMaxConfigBytes") (pos max_bytes))
normalize_read_error ctx (interrupted e) = some (wrap (codes "read config: " ++ error_text e) e)
normalize_read_error ctx (source_failed e) =
    some (wrap (codes "read config source: " ++ error_text e) e)
normalize_read_error ctx no_progress = some (
    wrap (codes "read config source: multiple Read calls return no data or error")
      (plain (codes "multiple Read calls return no data or error")))
normalize_read_error ctx out_of_fuel = some (plain [])

-- The error of `Unmarshal`: a destination that is no pointer is the caller's mistake.
pub data DecodeError : Type 0 where
  invalid_target : GoError → DecodeError
  bad_syntax : GoError → DecodeError
  bad_value : GoError → DecodeError

abbrev invalid_config : Option Context → Text → GoError → GoError
invalid_config ctx fix cause = to_error (
    new_error ctx config_invalid
      (codes "config is not valid Hujson or does not match the expected schema")
      (with_actionable_fix fix
        ∷ with_error_cause cause
        ∷ with_error_exit_code exit_validation
        ∷ []))

unfoldable pub normalize_decode_error : Option Context → DecodeError → GoError
normalize_decode_error ctx (invalid_target e) = wrap (codes "unmarshal config: " ++ error_text e) e
normalize_decode_error ctx (bad_syntax e) =
    invalid_config ctx (codes "fix the config syntax or field types and retry")
      (wrap (codes "parse hujson: " ++ error_text e) e)
normalize_decode_error ctx (bad_value e) =
    invalid_config ctx (codes "fix the config syntax or field types and retry")
      (wrap (codes "unmarshal config: " ++ error_text e) e)

pub data PatchError : Type 0 where
  hujson_parse : GoError → PatchError
  patch_apply : GoError → PatchError

unfoldable pub normalize_patch_error : Option Context → PatchError → GoError
normalize_patch_error ctx (hujson_parse e) = to_error (
    new_error ctx config_invalid (codes "config is not valid Hujson") (
      with_actionable_fix (codes "fix the config syntax and retry")
      ∷ with_error_cause e
      ∷ with_error_exit_code exit_validation
      ∷ []))
normalize_patch_error ctx (patch_apply e) = to_error (
    new_error ctx config_patch_invalid
      (codes "config patch is not a valid RFC 6902 document or a patch operation failed")
      (with_actionable_fix (
          codes
            "verify the patch document is a valid RFC 6902 JSON array and all target paths exist")
        ∷ with_error_cause e
        ∷ with_error_exit_code exit_validation
        ∷ []))

-- What is third-party: hujson's parser, printer and patch, and json.Unmarshal behind `Standardize`.
pub record Hujson (V : Type 0) : Type 1 where
  pub Ast : Type 0
  pub parse : Bytes → Result GoError Ast
  pub unmarshal : Ast → Result DecodeError V
  pub apply : Ast → Bytes → Result GoError Ast
  pub pack : Ast → Bytes

module _ {V : Type 0} (h : Hujson V) where
  -- `Unmarshal` and `Patch` of internal/config.
  unfoldable pub unmarshal : Bytes → Result DecodeError V
  unmarshal bytes = elim (h.parse bytes) [ err e ↦ err (bad_syntax e) | ok ast ↦ h.unmarshal ast ]

  unfoldable pub patch_bytes : Bytes → Bytes → Result PatchError Bytes
  patch_bytes bytes patch = elim (h.parse bytes) [
    | err e ↦ err (hujson_parse e)
    | ok ast ↦ elim (h.apply ast patch) [ err e ↦ err (patch_apply e) | ok ast' ↦ ok (h.pack ast') ]
  ]

  -- The bytes of a bounded read, or the error that both operations return for it.
  unfoldable pub read_config :
      Option Context
      → (r : Reader) → (ℕ → Option GoError)
      → r.State
      → List (Option ConfigOption)
      → Result GoError Bytes
  read_config ctx r ctx_err s opts = elim (apply_options ctx opts default_max_bytes) [
    | err e ↦ err (to_error e)
    | ok cfg ↦ elim (normalize_read_error ctx (read_bounded r ctx_err s cfg).outcome) [
      | some e ↦ err e
      | none ↦ ok (read_bounded r ctx_err s cfg).taken
    ]
  ]

  abbrev pub decoded : Option Context → Result GoError Bytes → Result GoError V
  decoded ctx (err e) = err e
  decoded ctx (ok bytes) = elim (unmarshal bytes) [
    | err e ↦ err (normalize_decode_error ctx e)
    | ok v ↦ ok v
  ]

  abbrev pub patched : Option Context → Bytes → Result GoError Bytes → Result GoError Bytes
  patched ctx patch (err e) = err e
  patched ctx patch (ok bytes) = elim (patch_bytes bytes patch) [
    | err e ↦ err (normalize_patch_error ctx e)
    | ok b ↦ ok b
  ]

  unfoldable pub parse :
      Option Context
      → (r : Reader) → (ℕ → Option GoError)
      → r.State
      → List (Option ConfigOption)
      → Result GoError V
  parse ctx r ctx_err s opts = decoded ctx (read_config ctx r ctx_err s opts)

  unfoldable pub patch :
      Option Context
      → (r : Reader) → (ℕ → Option GoError)
      → r.State
      → Bytes
      → List (Option ConfigOption)
      → Result GoError Bytes
  patch ctx r ctx_err s change opts = patched ctx change (read_config ctx r ctx_err s opts)
