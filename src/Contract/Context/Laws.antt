-- ===== src/Contract/Context/Laws.antt =====
-- What the metadata of an envelope says, whatever a context was given.
use ax_go.Common.{Text, true, Option, none, some, [], ◌∷◌, ◌≡◌, ◌≢◌, refl, arith}
use ax_go.Contract.Context.{
  Metadata, Context, metadata_from_context, live_metadata_from_context, with_metadata,
  with_idempotency_key, with_dry_run,
}

-- The trace and span identifiers of an envelope are never empty, with or without a context.
pub metadata_ids-ne-nil :
    (ctx : Option Context)
    → ((metadata_from_context ctx).trace_id ≢ []) × ((metadata_from_context ctx).span_id ≢ [])
unfolding metadata_from_context
metadata_ids-ne-nil none = ((λ e. cc), (λ e. cc))
metadata_ids-ne-nil (some ctx) = ground arith

-- The live span supersedes whatever metadata was stored, and what the safety keys say is kept.
pub live_metadata_supersedes :
    (ctx : Context) (stored : Metadata)
    → live_metadata_from_context (some (with_metadata ctx stored))
      ≡ live_metadata_from_context (some ctx)
unfolding live_metadata_from_context
live_metadata_supersedes ctx stored = refl

-- A key or a dry run that is set last shows in the metadata, over any stored metadata.
pub metadata_shows_safety :
    (ctx : Context) (stored : Metadata) (c : _) (key : Text)
    → let key' : Text = c ∷ key in
      let ctx' = with_dry_run (with_idempotency_key (with_metadata ctx stored) key') true in
      ((metadata_from_context (some ctx')).idempotency_key ≡ key')
      × ((metadata_from_context (some ctx')).dry_run ≡ true)
unfolding metadata_from_context with_dry_run with_idempotency_key with_metadata
metadata_shows_safety ctx stored c key = (refl, refl)
