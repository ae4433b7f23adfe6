-- ===== src/Config/Parse/Errors.antt =====
-- Exit codes of the errors of Parse and Patch.
use mathlib.Core.Path.{subst}
use ax_go.Common.{
  ◌+◌, ℕ, Bool, true, false, Option, none, some, List, [], ◌∷◌, ℤ, pos, negsuc, Result, ok, err,
  length, ltb, take, ◌≡◌, ◌≢◌, inl, inr, refl, sym, ap, ◌∙◌, arith, Bool-cases, if◌then◌else◌,
}
use ax_go.Contract.Context.{Context}
use ax_go.Contract.Errors.{
  GoError, AxError, to_error, as_ax, error_exit_code, ax_exit_code, exit_validation, new_error,
  apply_options, with_actionable_fix, with_error_exit_code, with_error_context, with_error_cause,
}
use ax_go.Config.Read.{
  Bytes, Outcome, complete, invalid_max_bytes, too_large, interrupted, source_failed, no_progress,
  out_of_fuel, got, read_bounded, max_config_bytes_ceiling,
}
use ax_go.Config.Read.Source.{Policy, source, read_at_once, read_bounded-source}
use ax_go.Config.Parse

abbrev IsInvalid : GoError → Type 0
IsInvalid e = error_exit_code (some e) ≡ exit_validation

nil_option-IsInvalid :
    (ctx : Option Context) (opts : List (Option Parse.ConfigOption)) (cfg : ℤ) (e : AxError)
    → Parse.apply_options ctx opts cfg ≡ err e
    → IsInvalid (to_error e)
unfolding Parse.apply_options error_exit_code to_error as_ax ax_exit_code new_error apply_options
    with_actionable_fix with_error_exit_code
nil_option-IsInvalid ctx [] cfg e h = cc
nil_option-IsInvalid ctx (none ∷ opts) cfg e h = ground arith
nil_option-IsInvalid ctx (some opt ∷ opts) cfg e h = nil_option-IsInvalid ctx opts (opt cfg) e h

-- What a source that does not fail can end with.
abbrev IsOfSize : Outcome → Type 0
IsOfSize complete = Unit
IsOfSize (invalid_max_bytes z) = Unit
IsOfSize (too_large n) = Unit
IsOfSize _ = ⊥

size_error-IsInvalid :
    (ctx : Option Context) (o : Outcome) (e : GoError)
    → IsOfSize o
    → Parse.normalize_read_error ctx o ≡ some e
    → IsInvalid e
unfolding Parse.normalize_read_error error_exit_code to_error as_ax ax_exit_code new_error
    with_actionable_fix with_error_exit_code with_error_context
size_error-IsInvalid ctx complete e s h = cc
size_error-IsInvalid ctx (invalid_max_bytes z) e s h = ground arith
size_error-IsInvalid ctx (too_large n) e s h = ground arith
size_error-IsInvalid ctx (interrupted x) e s h = elim s [ ]
size_error-IsInvalid ctx (source_failed x) e s h = elim s [ ]
size_error-IsInvalid ctx no_progress e s h = elim s [ ]
size_error-IsInvalid ctx out_of_fuel e s h = elim s [ ]

read_at_once-IsOfSize : (max : ℕ) (src : Bytes) → IsOfSize (read_at_once max src).outcome
read_at_once-IsOfSize max src = go (ltb max (length src))
  where
    go :
        (b : Bool)
        → IsOfSize
            (if b then got (too_large max) (take (max + 1) src) else got complete src).outcome
    go true = tt
    go false = tt

in_memory-IsOfSize :
    (p : Policy) (src : Bytes) (cfg : ℤ)
    → IsOfSize (read_bounded (source p) (λ n. none) src cfg).outcome
unfolding read_bounded
in_memory-IsOfSize p src (negsuc n) = tt
in_memory-IsOfSize p src (pos max) = elim (Bool-cases (ltb max_config_bytes_ceiling max)) [
  | inl wide ↦ rw wide tt
  | inr fits ↦
      subst (λ g. IsOfSize g.outcome) (sym (read_bounded-source p src max (ground arith)))
        (read_at_once-IsOfSize max src)
]

decode_error-IsInvalid :
    (ctx : Option Context) (e : Parse.DecodeError)
    → ((x : GoError) → e ≢ Parse.invalid_target x)
    → IsInvalid (Parse.normalize_decode_error ctx e)
unfolding Parse.normalize_decode_error error_exit_code to_error as_ax ax_exit_code new_error
    with_actionable_fix with_error_exit_code with_error_cause
decode_error-IsInvalid ctx (Parse.invalid_target x) valid = absurd (valid x refl)
decode_error-IsInvalid ctx (Parse.bad_syntax x) valid = refl
decode_error-IsInvalid ctx (Parse.bad_value x) valid = refl

patch_error-IsInvalid :
    (ctx : Option Context) (e : Parse.PatchError) → IsInvalid (Parse.normalize_patch_error ctx e)
unfolding Parse.normalize_patch_error error_exit_code to_error as_ax ax_exit_code new_error
    with_actionable_fix with_error_exit_code with_error_cause
patch_error-IsInvalid ctx (Parse.hujson_parse x) = refl
patch_error-IsInvalid ctx (Parse.patch_apply x) = refl

module _ {V : Type 0} (h : Parse.Hujson V) (ctx : Option Context) (p : Policy) where
  read_config-IsInvalid :
      (src : Bytes) (opts : List (Option Parse.ConfigOption)) (e : GoError)
      → Parse.read_config h ctx (source p) (λ n. none) src opts ≡ err e
      → IsInvalid e
  unfolding Parse.read_config
  read_config-IsInvalid src opts e q =
      go (Parse.apply_options ctx opts Parse.default_max_bytes) refl q
    where
      read :
          (cfg : ℤ) (r : Option GoError)
          → Parse.normalize_read_error ctx (read_bounded (source p) (λ n. none) src cfg).outcome ≡ r
          → elim r [
            | some e ↦ err e
            | none ↦ ok (read_bounded (source p) (λ n. none) src cfg).taken
          ]
            ≡ err e
          → IsInvalid e
      read cfg none same h = cc
      read cfg (some x) same h =
          size_error-IsInvalid ctx _ e (in_memory-IsOfSize p src cfg) (ground (arith, same, h))

      go :
          (a : Result AxError ℤ)
          → Parse.apply_options ctx opts Parse.default_max_bytes ≡ a
          → elim a [
            | err e ↦ err (to_error e)
            | ok cfg ↦
                elim (Parse.normalize_read_error ctx
                  (read_bounded (source p) (λ n. none) src cfg).outcome) [
                    | some e ↦ err e
                    | none ↦ ok (read_bounded (source p) (λ n. none) src cfg).taken
                  ]
          ]
            ≡ err e
          → IsInvalid e
      go (err x) same h =
          ground (arith, nil_option-IsInvalid ctx opts Parse.default_max_bytes x same)
      go (ok cfg) same h = read cfg _ refl h

  -- Whatever the limit, the options and the pieces in which the config arrives: an error of Parse
  -- exits 2, unless the destination of the decoding is invalid. The source itself does not fail and
  -- the context is not cancelled.
  pub parse-IsInvalid :
      (src : Bytes) (opts : List (Option Parse.ConfigOption)) (e : GoError)
      → ((bytes : Bytes) (x : GoError) → Parse.unmarshal h bytes ≢ err (Parse.invalid_target x))
      → Parse.parse h ctx (source p) (λ n. none) src opts ≡ err e
      → error_exit_code (some e) ≡ exit_validation
  unfolding Parse.parse
  parse-IsInvalid src opts e valid q = go _ refl q
    where
      decode :
          (bytes : Bytes) (r : Result Parse.DecodeError V)
          → Parse.unmarshal h bytes ≡ r
          → elim r [ err e ↦ err (Parse.normalize_decode_error ctx e) | ok v ↦ ok v ] ≡ err e
          → IsInvalid e
      decode bytes (ok v) same k = cc
      decode bytes (err x) same k =
          ground (arith, decode_error-IsInvalid ctx x (λ y. λ z. valid bytes y (same ∙ ap err z)))

      go :
          (r : Result GoError Bytes)
          → Parse.read_config h ctx (source p) (λ n. none) src opts ≡ r
          → Parse.decoded h ctx r ≡ err e
          → IsInvalid e
      go (err x) same k = ground (arith, read_config-IsInvalid src opts x same)
      go (ok bytes) same k = decode bytes _ refl k

  -- Every error of Patch on such a source exits 2: of an option, of the size, of the config or of
  -- the patch.
  pub patch-IsInvalid :
      (src change : Bytes) (opts : List (Option Parse.ConfigOption)) (e : GoError)
      → Parse.patch h ctx (source p) (λ n. none) src change opts ≡ err e
      → error_exit_code (some e) ≡ exit_validation
  unfolding Parse.patch
  patch-IsInvalid src change opts e q = go _ refl q
    where
      apply :
          (r : Result Parse.PatchError Bytes)
          → elim r [ err e ↦ err (Parse.normalize_patch_error ctx e) | ok b ↦ ok b ] ≡ err e
          → IsInvalid e
      apply (ok b) k = cc
      apply (err x) k = ground (arith, patch_error-IsInvalid ctx x)

      go :
          (r : Result GoError Bytes)
          → Parse.read_config h ctx (source p) (λ n. none) src opts ≡ r
          → Parse.patched h ctx change r ≡ err e
          → IsInvalid e
      go (err x) same k = ground (arith, read_config-IsInvalid src opts x same)
      go (ok bytes) same k = apply _ k
