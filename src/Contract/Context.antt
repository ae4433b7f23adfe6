-- ===== src/Contract/Context.antt =====
-- The values that a context carries: contract/context.go, the metadata of contract/json.go, and
-- the root package's view of the live span (trace.go, context.go, json.go) and of the audit
-- setting (guard.go). A key that was never set is `none`; the innermost WithValue wins.
pub mod Laws
use ax_go.Common.{
  Text, codes, Bool, true, false, Option, none, some, List, [], ◌∷◌, is_empty, if◌then◌else◌,
}
use ax_go.Contract.Mode.{Mode}

abbrev pub zero_trace_id : Text
zero_trace_id = codes "00000000000000000000000000000000"

abbrev pub zero_span_id : Text
zero_span_id = codes "0000000000000000"

pub record Metadata : Type 0 where
  pub trace_id : Text
  pub span_id : Text
  pub idempotency_key : Text
  pub dry_run : Bool

abbrev empty_metadata : Metadata
empty_metadata = record { trace_id = []; span_id = []; idempotency_key = []; dry_run = false }

-- The span context of OpenTelemetry: each identifier if the span has a valid one.
pub record SpanContext : Type 0 where
  pub trace_id : Option Text
  pub span_id : Option Text

pub record Context : Type 0 where
  pub mode : Option Mode
  pub dry_run : Option Bool
  pub approval : Option Bool
  pub idempotency_key : Option Text
  pub metadata : Option Metadata
  pub audit : Option Bool
  pub span : SpanContext

-- `context.Background()`
abbrev pub background : Context
background = record {
  mode = none;
  dry_run = none;
  approval = none;
  idempotency_key = none;
  metadata = none;
  audit = none;
  span = record { trace_id = none; span_id = none };
}

-- `if ctx == nil { ctx = context.Background() }`
unfoldable pub or_background : Option Context → Context
or_background none = background
or_background (some ctx) = ctx

unfoldable pub with_mode : Context → Mode → Context
with_mode ctx m = record ctx { mode = some m }

unfoldable pub mode_from_context : Context → Option Mode
mode_from_context ctx = ctx.mode

unfoldable pub with_dry_run : Context → Bool → Context
with_dry_run ctx dry_run = record ctx { dry_run = some dry_run }

abbrev flag_of : Option Bool → Bool
flag_of none = false
flag_of (some b) = b

unfoldable pub dry_run_from_context : Context → Bool
dry_run_from_context ctx = flag_of ctx.dry_run

unfoldable pub with_approval : Context → Bool → Context
with_approval ctx granted = record ctx { approval = some granted }

unfoldable pub approval_from_context : Context → Bool
approval_from_context ctx = flag_of ctx.approval

unfoldable pub with_idempotency_key : Context → Text → Context
with_idempotency_key ctx key = record ctx { idempotency_key = some key }

abbrev usable_key : Option Text → Option Text
usable_key none = none
usable_key (some key) = if is_empty key then none else some key

-- The key, if it is there and is not empty.
unfoldable pub idempotency_key_from_context : Context → Option Text
idempotency_key_from_context ctx = usable_key ctx.idempotency_key

unfoldable pub with_metadata : Context → Metadata → Context
with_metadata ctx metadata = record ctx { metadata = some metadata }

abbrev or_text : Text → Text → Text
or_text value default = if is_empty value then default else value

unfoldable pub normalize_metadata : Metadata → Metadata
normalize_metadata m = record m {
  trace_id = or_text m.trace_id zero_trace_id;
  span_id = or_text m.span_id zero_span_id;
}

abbrev stored_metadata : Option Metadata → Metadata
stored_metadata none = empty_metadata
stored_metadata (some m) = m

abbrev key_or : Option Text → Text → Text
key_or none stored = stored
key_or (some key) stored = key

-- contract.MetadataFromContext
unfoldable pub metadata_from_context : Option Context → Metadata
unfolding or_background normalize_metadata idempotency_key_from_context dry_run_from_context
metadata_from_context ctx? =
    let ctx = or_background ctx? in
    let metadata = normalize_metadata (stored_metadata ctx.metadata) in
    record metadata {
      idempotency_key = key_or (idempotency_key_from_context ctx) metadata.idempotency_key;
      dry_run = if dry_run_from_context ctx then true else metadata.dry_run;
    }

-- contract.TraceIDFromContext and contract.SpanIDFromContext
unfoldable pub trace_id_from_context : Option Context → Text
unfolding metadata_from_context
trace_id_from_context ctx = (metadata_from_context ctx).trace_id

unfoldable pub span_id_from_context : Option Context → Text
unfolding metadata_from_context
span_id_from_context ctx = (metadata_from_context ctx).span_id

-- `traceIDs` of trace.go: each identifier of the live span, or its zero value.
unfoldable pub trace_ids : Context → Text × Text
trace_ids ctx = (key_or ctx.span.trace_id zero_trace_id, key_or ctx.span.span_id zero_span_id)

unfoldable pub with_trace_metadata : Option Context → Context
unfolding or_background trace_ids with_metadata
with_trace_metadata ctx? =
    let ctx = or_background ctx? in
    let (trace_id, span_id) = trace_ids ctx in
    with_metadata ctx
      (record { trace_id = trace_id; span_id = span_id; idempotency_key = []; dry_run = false })

-- ax.MetadataFromContext
unfoldable pub live_metadata_from_context : Option Context → Metadata
unfolding metadata_from_context with_trace_metadata
live_metadata_from_context ctx = metadata_from_context (some (with_trace_metadata ctx))

-- `WithAudit` and `AuditEnabledFromContext` of guard.go
unfoldable pub with_audit : Context → Bool → Context
with_audit ctx enabled = record ctx { audit = some enabled }

abbrev audit_of : Option Bool → Bool
audit_of none = true
audit_of (some enabled) = enabled

unfoldable pub audit_enabled_from_context : Context → Bool
audit_enabled_from_context ctx = audit_of ctx.audit
