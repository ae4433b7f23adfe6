-- ===== src/Contract/Errors.antt =====
-- Error envelopes and the errors that wrap them: contract/error.go, error.go and contract/exit.go.
-- A Go error is the tree that errors.Is and errors.As walk. Context values are JSON values, and a
-- map is an association list whose first entry for a key counts.
pub mod Exits
pub mod Wire
use ax_go.Common.{
  ℕ, zero, suc, Text, codes, text_eq, text_lt, Bool, true, false, ◌||◌, Option, none, some, List,
  [], ◌∷◌, ◌++◌, ℤ, pos, negsuc, is_zero, is_negative, is_empty, show_int, if◌then◌else◌,
}
use ax_go.Common.Sorts.{sort}
use ax_go.Contract.Context.{Context, background, trace_id_from_context, with_trace_metadata}
use ax_go.Contract.Json.{
  Json, boolean, integer, string, array, object, Items, nil, cons, Fields, done, field, write_json,
}

abbrev pub exit_success : ℤ
exit_success = pos 0

abbrev pub exit_internal : ℤ
exit_internal = pos 1

abbrev pub exit_validation : ℤ
exit_validation = pos 2

abbrev pub exit_network : ℤ
exit_network = pos 3

abbrev pub exit_auth : ℤ
exit_auth = pos 4

abbrev pub error_schema_version : Text
error_schema_version = codes "1.0.0"

-- A map with string keys.
abbrev pub Assoc : Type 0
Assoc = List (Text × Json)

unfoldable pub assoc_lookup : Text → Assoc → Option Json
assoc_lookup k [] = none
assoc_lookup k ((j, v) ∷ m) = if text_eq j k then some v else assoc_lookup k m

unfoldable pub assoc_set : Text → Json → Assoc → Assoc
assoc_set k v [] = (k, v) ∷ []
assoc_set k v ((j, w) ∷ m) = if text_eq j k then (j, v) ∷ m else (j, w) ∷ assoc_set k v m

-- `Error`, all but its cause.
pub record Envelope : Type 0 where
  pub error_code : Text
  pub message : Text
  pub trace_id : Text
  pub tool : Text
  pub version : Text
  pub schema_version : Text
  pub actionable_fix : Text
  pub context : Assoc
  pub suggestions : List Text
  pub retryable : Option Bool
  pub retry_after_seconds : ℤ
  pub exit_code : ℤ

-- `wrap` is fmt.Errorf with one %w, and holds the whole message; `joined` is errors.Join.
pub data GoError : Type 0 where
  ax : Envelope → GoError
  ax_caused : Envelope → GoError → GoError
  deadline_exceeded canceled : GoError
  plain : Text → GoError
  wrap : Text → GoError → GoError
  url_error : Text → Text → GoError → GoError
  joined : GoError → GoError → GoError

-- `*Error`
pub record AxError : Type 0 where
  pub envelope : Envelope
  pub open envelope use *
  pub cause : Option GoError

unfoldable pub to_error : AxError → GoError
to_error e = elim e.cause [ none ↦ ax e.envelope | some c ↦ ax_caused e.envelope c ]

abbrev pub or_else : Option AxError → Option AxError → Option AxError
or_else none b = b
or_else (some a) b = some a

-- errors.AsType[*Error]: the first envelope of the tree, depth first.
unfoldable pub as_ax : GoError → Option AxError
as_ax (ax e) = some (record { envelope = e; cause = none })
as_ax (ax_caused e c) = some (record { envelope = e; cause = some c })
as_ax deadline_exceeded = none
as_ax canceled = none
as_ax (plain m) = none
as_ax (wrap m e) = as_ax e
as_ax (url_error op url e) = as_ax e
as_ax (joined a b) = or_else (as_ax a) (as_ax b)

-- errors.Is(err, context.DeadlineExceeded)
unfoldable pub is_deadline : GoError → Bool
is_deadline (ax e) = false
is_deadline (ax_caused e c) = is_deadline c
is_deadline deadline_exceeded = true
is_deadline canceled = false
is_deadline (plain m) = false
is_deadline (wrap m e) = is_deadline e
is_deadline (url_error op url e) = is_deadline e
is_deadline (joined a b) = is_deadline a || is_deadline b

-- errors.Is(err, context.Canceled)
unfoldable pub is_canceled : GoError → Bool
is_canceled (ax e) = false
is_canceled (ax_caused e c) = is_canceled c
is_canceled deadline_exceeded = false
is_canceled canceled = true
is_canceled (plain m) = false
is_canceled (wrap m e) = is_canceled e
is_canceled (url_error op url e) = is_canceled e
is_canceled (joined a b) = is_canceled a || is_canceled b

-- `err.Error()`; a URL with quotes or control characters is quoted by %q, which is not modelled.
unfoldable pub error_text : GoError → Text
error_text (ax e) = e.message
error_text (ax_caused e c) = e.message
error_text deadline_exceeded = codes "context deadline exceeded"
error_text canceled = codes "context canceled"
error_text (plain m) = m
error_text (wrap m e) = m
error_text (url_error op url e) = op ++ (codes " \"" ++ (url ++ (codes "\": " ++ error_text e)))
error_text (joined a b) = error_text a ++ (10 ∷ error_text b)

abbrev pub ErrorOption : Type 0
ErrorOption = AxError → AxError

unfoldable pub with_error_tool : Text → ErrorOption
with_error_tool tool e = record e { envelope = record e.envelope { tool = tool } }

unfoldable pub with_error_version : Text → ErrorOption
with_error_version version e = record e { envelope = record e.envelope { version = version } }

unfoldable pub with_actionable_fix : Text → ErrorOption
with_actionable_fix fix e = record e { envelope = record e.envelope { actionable_fix = fix } }

-- maps.Copy: the keys are distinct, so the order of the copies does not matter.
unfoldable pub copy_fields : Assoc → Assoc → Assoc
unfolding assoc_set
copy_fields [] m = m
copy_fields ((k, v) ∷ fields) m = assoc_set k v (copy_fields fields m)

unfoldable pub with_error_context : Assoc → ErrorOption
unfolding copy_fields
with_error_context fields e = record e {
  envelope = record e.envelope { context = copy_fields fields e.context };
}

unfoldable pub with_suggestions : List Text → ErrorOption
with_suggestions suggestions e = record e {
  envelope = record e.envelope { suggestions = e.suggestions ++ suggestions };
}

unfoldable pub with_retryable : Bool → ErrorOption
with_retryable retryable e = record e {
  envelope = record e.envelope { retryable = some retryable };
}

unfoldable pub with_retry_after_seconds : ℤ → ErrorOption
with_retry_after_seconds seconds e =
    if is_negative seconds
    then e
    else record e { envelope = record e.envelope { retry_after_seconds = seconds } }

unfoldable pub with_error_exit_code : ℤ → ErrorOption
with_error_exit_code code e = record e { envelope = record e.envelope { exit_code = code } }

unfoldable pub with_error_cause : GoError → ErrorOption
with_error_cause cause e = record e { cause = some cause }

unfoldable pub apply_options : List ErrorOption → AxError → AxError
apply_options [] e = e
apply_options (opt ∷ opts) e = apply_options opts (opt e)

-- contract.NewError
unfoldable pub new_error : Option Context → Text → Text → List ErrorOption → AxError
unfolding apply_options
new_error ctx code message opts = apply_options opts (record {
  envelope = record {
    error_code = code;
    message = message;
    trace_id = trace_id_from_context ctx;
    tool = [];
    version = [];
    schema_version = error_schema_version;
    actionable_fix = [];
    context = [];
    suggestions = [];
    retryable = none;
    retry_after_seconds = pos 0;
    exit_code = exit_internal;
  };
  cause = none;
})

-- ax.NewError: with the identifiers of the live span.
unfoldable pub new_live_error : Option Context → Text → Text → List ErrorOption → AxError
unfolding new_error with_trace_metadata
new_live_error ctx code message opts = new_error (some (with_trace_metadata ctx)) code message opts

-- `(*Error).ExitCode`
unfoldable pub ax_exit_code : Option AxError → ℤ
ax_exit_code none = exit_internal
ax_exit_code (some e) = if is_zero e.exit_code then exit_internal else e.exit_code

-- `ErrorExitCode`
unfoldable pub error_exit_code : Option GoError → ℤ
error_exit_code none = exit_success
error_exit_code (some err) = elim (as_ax err) [
  | some e ↦ ax_exit_code (some e)
  | none ↦
      if is_deadline err
      then exit_network
      else if is_canceled err
      then exit_internal
      else exit_internal
]
