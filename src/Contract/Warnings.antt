-- ===== src/Contract/Warnings.antt =====
-- Success envelopes and their warnings: contract/json.go and contract/warnings.go.
use ax_go.Common.{
  Text, trim_space, Bool, true, ◌||◌, not, Option, List, [], ◌∷◌, keep, is_empty, All, All-keep,
  ◌≡◌, refl, ap, arith,
}
use ax_go.Contract.Context.{Context, Metadata, metadata_from_context}

pub record Warning : Type 0 where
  pub code : Text
  pub message : Text

-- `Envelope[T]`; an empty list of warnings is omitted on the wire.
pub record Success (T : Type 0) : Type 0 where
  pub payload : T
  pub meta : Metadata
  pub warnings : List Warning

unfoldable pub new_envelope : {T : Type 0} → Option Context → T → Success T
unfolding metadata_from_context
new_envelope ctx payload = record {
  payload = payload;
  meta = metadata_from_context ctx;
  warnings = [];
}

unfoldable pub is_stated : Warning → Bool
is_stated w = not (is_empty (trim_space w.code) || is_empty (trim_space w.message))

-- contract.WithWarnings
unfoldable pub with_warnings : {T : Type 0} → Success T → List Warning → Success T
unfolding is_stated
with_warnings env warnings = record env { warnings = keep is_stated warnings }

keep_idem : (p : Warning → Bool) (ws : List Warning) → keep p (keep p ws) ≡ keep p ws
keep_idem p [] = refl
keep_idem p (w ∷ ws) = ground (arith, keep_idem p ws)

-- The warnings of an envelope are the last list given, less those with a blank code or message, in
-- order; attaching the kept list again changes nothing, and payload and metadata stay.
pub with_warnings_lem :
    {T : Type 0} (env : Success T) (first second : List Warning)
    → (with_warnings (with_warnings env first) second ≡ with_warnings env second)
      × (with_warnings env (with_warnings env first).warnings ≡ with_warnings env first)
      × All (λ w. is_stated w ≡ true) (with_warnings env first).warnings
unfolding with_warnings
with_warnings_lem env first second = (
  refl,
  ap (λ ws. record env { warnings = ws }) (keep_idem is_stated first),
  All-keep is_stated first,
)
