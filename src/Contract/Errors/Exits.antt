-- ===== src/Contract/Errors/Exits.antt =====
-- Exit codes of errors, and what the options of an error leave in its envelope.
use ax_go.Common.{
  Text, text_eq, text_eq_iff, Option, none, some, List, [], ◌∷◌, ◌++◌, ℤ, is_zero, ◌≡◌, ◌≢◌, refl,
  arith, ◌↔◌, if◌then◌else◌,
}
use ax_go.Contract.Context.{Context}
use ax_go.Contract.Json.{Json}
use ax_go.Contract.Errors.{
  GoError, wrap, url_error, AxError, ErrorOption, Assoc, assoc_lookup, assoc_set, copy_fields,
  to_error, as_ax, is_deadline, is_canceled, ax_exit_code, error_exit_code, exit_success,
  exit_internal, exit_network, new_error, apply_options, with_error_exit_code, with_error_context,
}

abbrev pub over {ℓ} : {A : Type ℓ} → Option A → Option A → Option A
over none b = b
over (some a) b = some a

pub ax_exit_code-ne-zero : (e : Option AxError) → ax_exit_code e ≢ exit_success
unfolding ax_exit_code
ax_exit_code-ne-zero none h = cc
ax_exit_code-ne-zero (some e) h = ground arith

-- The exit code is zero exactly when there is no error, whatever codes the envelopes carry.
pub error_exit_code-zero :
    (err : Option GoError) → (error_exit_code err ≡ exit_success) ↔ (err ≡ none)
unfolding error_exit_code
error_exit_code-zero none = ((λ h. refl), (λ h. refl))
error_exit_code-zero (some err) =
    ((λ h. absurd (ground (arith, ax_exit_code-ne-zero (as_ax err)))), (λ h. cc))

-- Wrapping an error, in a message or as the cause of a URL error, keeps its exit code.
pub error_exit_code-wrap :
    (m op url : Text) (err : GoError)
    → (error_exit_code (some (wrap m err)) ≡ error_exit_code (some err))
      × (error_exit_code (some (url_error op url err)) ≡ error_exit_code (some err))
unfolding error_exit_code as_ax is_deadline is_canceled
error_exit_code-wrap m op url err = (refl, refl)

-- An error that has no envelope in its tree exits 3 if a deadline is in it, and 1 otherwise.
pub error_exit_code_bare :
    (err : GoError)
    → as_ax err ≡ none
    → error_exit_code (some err) ≡ (if is_deadline err then exit_network else exit_internal)
unfolding error_exit_code
error_exit_code_bare err h = ground arith

-- The envelope of an error value is found again.
pub as_ax-to_error : (e : AxError) → as_ax (to_error e) ≡ some e
unfolding as_ax to_error
as_ax-to_error e = ground arith

assoc_lookup-set :
    (k j : Text) (v : Json) (m : Assoc)
    → assoc_lookup j (assoc_set k v m) ≡ (if text_eq k j then some v else assoc_lookup j m)
unfolding assoc_lookup assoc_set
assoc_lookup-set k j v [] = refl
assoc_lookup-set k j v ((i, w) ∷ m) =
    ground (arith, text_eq_iff k j, text_eq_iff i k, text_eq_iff i j, assoc_lookup-set k j v m)

assoc_lookup-copy :
    (j : Text) (fields m : Assoc)
    → assoc_lookup j (copy_fields fields m) ≡ over (assoc_lookup j fields) (assoc_lookup j m)
unfolding copy_fields assoc_lookup
assoc_lookup-copy j [] m = refl
assoc_lookup-copy j ((k, v) ∷ fields) m =
    rw (assoc_lookup-set k j v (copy_fields fields m))
      (ground (arith, assoc_lookup-copy j fields m))

-- `WithErrorContext` sets the keys that it is given, keeps the other keys, and touches neither the
-- exit code nor the cause.
pub with_error_context_lem :
    (fields : Assoc) (e : AxError) (k : Text)
    → (assoc_lookup k (with_error_context fields e).context
        ≡ over (assoc_lookup k fields) (assoc_lookup k e.context))
      × ((with_error_context fields e).exit_code ≡ e.exit_code)
      × ((with_error_context fields e).cause ≡ e.cause)
unfolding with_error_context
with_error_context_lem fields e k = (assoc_lookup-copy k fields e.context, refl, refl)

apply_options-concat :
    (opts : List ErrorOption) (opt : ErrorOption) (e : AxError)
    → apply_options (opts ++ opt ∷ []) e ≡ opt (apply_options opts e)
unfolding apply_options
apply_options-concat [] opt e = refl
apply_options-concat (o ∷ opts) opt e = apply_options-concat opts opt (o e)

-- Options run in order: an exit code that is given last is the exit code of the error, unless it is
-- zero, which reads as an internal error.
pub new_error_last_exit_code :
    (ctx : Option Context) (code message : Text) (opts : List ErrorOption) (c : ℤ)
    → ax_exit_code (some (new_error ctx code message (opts ++ with_error_exit_code c ∷ [])))
      ≡ (if is_zero c then exit_internal else c)
unfolding new_error ax_exit_code with_error_exit_code
new_error_last_exit_code ctx code message opts c = rw apply_options-concat
