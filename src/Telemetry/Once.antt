-- ===== src/Telemetry/Once.antt =====
-- `diagnosticExporter`: a sequence of exports and shutdowns of the exporter that it wraps.
use ax_go.Common.{
  Text, codes, Bool, true, false, Option, none, some, List, [], ◌∷◌, ◌++◌, ◌≡◌, refl, ap, arith,
  if◌then◌else◌,
}
use ax_go.Telemetry.{write_diagnostic}

-- `sync.Once`, and what has been written to stderr.
pub record Exporter : Type 0 where
  pub reported : Bool
  pub diagnostics : List Text

abbrev pub fresh : Exporter
fresh = record { reported = false; diagnostics = [] }

unfoldable pub once_do : Exporter → Text → Exporter
once_do e text =
    if e.reported then e else record { reported = true; diagnostics = e.diagnostics ++ text ∷ [] }

-- `ExportSpans` and `Shutdown`, given the wrapped exporter's error; both return nil.
unfoldable pub export_spans : Exporter → Option Text → Exporter × Option Text
unfolding once_do write_diagnostic
export_spans e none = (e, none)
export_spans e (some err) =
    (once_do e (write_diagnostic (codes "otel export failed") (some err)), none)

unfoldable pub shutdown : Exporter → Option Text → Exporter × Option Text
unfolding once_do write_diagnostic
shutdown e none = (e, none)
shutdown e (some err) = (once_do e (write_diagnostic (codes "otel export failed") (some err)), none)

pub data Call : Type 0 where
  export : Option Text → Call
  stop : Option Text → Call

unfoldable pub run_calls : Exporter → List Call → Exporter
unfolding export_spans shutdown
run_calls e [] = e
run_calls e (export r ∷ calls) = run_calls (export_spans e r).0 calls
run_calls e (stop r ∷ calls) = run_calls (shutdown e r).0 calls

-- The error of the first call that fails.
abbrev pub first_failure : List Call → Option Text
first_failure [] = none
first_failure (export none ∷ calls) = first_failure calls
first_failure (export (some err) ∷ calls) = some err
first_failure (stop none ∷ calls) = first_failure calls
first_failure (stop (some err) ∷ calls) = some err

abbrev pub report_of : Option Text → List Text
report_of none = []
report_of (some err) = write_diagnostic (codes "otel export failed") (some err) ∷ []

reported_is_quiet : (e : Exporter) (calls : List Call) → e.reported ≡ true → run_calls e calls ≡ e
unfolding run_calls
reported_is_quiet e [] h = refl
reported_is_quiet e (export none ∷ calls) h = reported_is_quiet e calls h
reported_is_quiet e (stop none ∷ calls) h = reported_is_quiet e calls h
reported_is_quiet e (export (some err) ∷ calls) h = ground (arith, reported_is_quiet e calls h)
reported_is_quiet e (stop (some err) ∷ calls) h = ground (arith, reported_is_quiet e calls h)

-- However often exporting and shutting down fail, exactly the first failure is reported, once; with
-- no failure nothing is written.
pub run_calls_once :
    (calls : List Call) → (run_calls fresh calls).diagnostics ≡ report_of (first_failure calls)
unfolding run_calls
run_calls_once [] = refl
run_calls_once (export none ∷ calls) = run_calls_once calls
run_calls_once (stop none ∷ calls) = run_calls_once calls
run_calls_once (export (some err) ∷ calls) =
    ap (λ (e : Exporter). e.diagnostics) (reported_is_quiet _ calls refl)
run_calls_once (stop (some err) ∷ calls) =
    ap (λ (e : Exporter). e.diagnostics) (reported_is_quiet _ calls refl)
