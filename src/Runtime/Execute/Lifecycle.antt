-- ===== src/Runtime/Execute/Lifecycle.antt =====
-- The order of Execute: options, telemetry, the command, and the deferred steps in the reverse of
-- the order in which they were deferred. What is not under the repository's control, the command's
-- run and the two callbacks' errors, is an argument.
use mathlib.Core.List.{append-nil, append_assoc}
use ax_go.Common.{
  ℕ, zero, suc, Text, codes, Option, none, some, List, [], ◌∷◌, ◌++◌, ℤ, pos, negsuc, is_empty, ◌≡◌,
  ◌≢◌, refl, arith, ◌<◌, All, if◌then◌else◌,
}
use ax_go.Contract.Errors.{GoError, error_text}
use ax_go.Runtime.Execute.Finish.{CommandRun, finish_command}
use ax_go.Runtime.Version.{BuildInfo, resolve_version_from, resolve_version_from-IsStated}
use ax_go.Telemetry.{sanitize_diagnostic}

-- The settings that decide the lifecycle. Timeouts are nanoseconds; a callback gives its error.
pub record Config : Type 0 where
  pub version : Text
  pub shutdown_timeout : ℤ
  pub flush : Option (Option GoError)
  pub shutdown : Option GoError

-- internal/telemetry: `DefaultShutdownBudget`, two seconds.
abbrev pub default_shutdown_budget : ℤ
default_shutdown_budget = pos 2000000000

-- `if cfg.shutdownTimeout <= 0`
unfoldable pub positive_or_default : ℤ → ℤ
positive_or_default (pos zero) = default_shutdown_budget
positive_or_default (pos (suc n)) = pos (suc n)
positive_or_default (negsuc n) = default_shutdown_budget

unfoldable pub normalize_config : Option BuildInfo → Config → Config
unfolding positive_or_default
normalize_config info cfg = record cfg {
  version = if is_empty cfg.version then resolve_version_from [] info else cfg.version;
  shutdown_timeout = positive_or_default cfg.shutdown_timeout;
}

-- What happens, in time: each shutdown window is a fresh timeout.
pub data Event : Type 0 where
  telemetry_started : Text → ℤ → Event
  span_started : Event
  command_finished : Event
  stdout_restored : Event
  span_ended : Event
  flushed : ℤ → Event
  telemetry_shut_down : ℤ → Event

pub record World : Type 0 where
  pub events : List Event
  pub stderr : Text

abbrev Step : Type 0
Step = World → World

abbrev happen : Event → Step
happen e w = record w { events = w.events ++ e ∷ [] }

-- `fmt.Fprintf(cfg.stderr, "ax: …: %s\n", SanitizeDiagnostic(err.Error()))`
abbrev report : Text → Option GoError → Step
report prefix none w = w
report prefix (some e) w = record w {
  stderr = w.stderr ++ (prefix ++ (sanitize_diagnostic (error_text e) ++ 10 ∷ []));
}

abbrev flush_step : Config → Option (Option GoError) → Step
flush_step cfg none w = w
flush_step cfg (some result) w =
    report (codes "ax: flush failed: ") result (happen (flushed cfg.shutdown_timeout) w)

abbrev shutdown_step : Config → Step
shutdown_step cfg w =
    report (codes "ax: otel shutdown failed: ") cfg.shutdown
      (happen (telemetry_shut_down cfg.shutdown_timeout) w)

-- Deferred steps, the last one deferred first.
unfoldable pub run_deferred : List Step → Step
run_deferred [] w = w
run_deferred (step ∷ steps) w = run_deferred steps (step w)

pub record Executed : Type 0 where
  pub exit : ℤ
  pub stdout : Text
  pub world : World
  pub open world use *

unfoldable pub execute : Option BuildInfo → Text → Config → CommandRun → Executed
unfolding normalize_config run_deferred
execute info tool given run =
    let cfg = normalize_config info given in
    let w0 : World = record {
      events = telemetry_started cfg.version cfg.shutdown_timeout ∷ span_started ∷ [];
      stderr = [];
    } in
    let finished = finish_command tool cfg.version run in
    let w1 = happen command_finished (record w0 { stderr = finished.stderr }) in
    let deferred =
      happen stdout_restored
      ∷ happen span_ended
      ∷ flush_step cfg cfg.flush
      ∷ shutdown_step cfg
      ∷ [] in
    record { exit = finished.exit; stdout = finished.stdout; world = run_deferred deferred w1 }

-- The exit code and stdout are those of the command: neither a flush that fails nor a shutdown that
-- fails changes them.
pub execute_ignores_shutdown :
    (info : Option BuildInfo) (tool : Text) (cfg : Config) (run : CommandRun)
    (flush : Option (Option GoError)) (shutdown : Option GoError)
    → let other = execute info tool (record cfg { flush = flush; shutdown = shutdown }) run in
      ((execute info tool cfg run).exit ≡ other.exit)
      × ((execute info tool cfg run).stdout ≡ other.stdout)
unfolding execute
execute_ignores_shutdown info tool cfg run flush shutdown = (refl, refl)

abbrev IsPositive : ℤ → Type 0
IsPositive (pos n) = 0 < n
IsPositive (negsuc n) = ⊥

-- A shutdown window is open for a positive time; other events have no window.
abbrev pub HasTime : Event → Type 0
HasTime (flushed t) = IsPositive t
HasTime (telemetry_shut_down t) = IsPositive t
HasTime e = Unit

-- The place of each kind of event in the lifecycle.
abbrev rank : Event → ℕ
rank (telemetry_started v t) = 0
rank span_started = 1
rank command_finished = 2
rank stdout_restored = 3
rank span_ended = 4
rank (flushed t) = 5
rank (telemetry_shut_down t) = 6

abbrev pub IsInOrder : List Event → Type 0
IsInOrder [] = Unit
IsInOrder (e ∷ es) = All (λ f. rank e < rank f) es × IsInOrder es

positive_or_default-IsPositive : (t : ℤ) → IsPositive (positive_or_default t)
unfolding positive_or_default
positive_or_default-IsPositive (pos zero) = omega arith
positive_or_default-IsPositive (pos (suc n)) = omega arith
positive_or_default-IsPositive (negsuc n) = omega arith

abbrev pub diagnostic_of : Text → Option GoError → Text
diagnostic_of prefix none = []
diagnostic_of prefix (some e) = prefix ++ (sanitize_diagnostic (error_text e) ++ 10 ∷ [])

abbrev pub flush_error : Option (Option GoError) → Option GoError
flush_error none = none
flush_error (some e) = e

abbrev flush_events : Option (Option GoError) → ℤ → List Event
flush_events none t = []
flush_events (some r) t = flushed t ∷ []

report-events :
    (prefix : Text) (e : Option GoError) (w : World) → (report prefix e w).events ≡ w.events
report-events prefix none w = refl
report-events prefix (some e) w = refl

shut_down-events :
    (cfg : Config) (flush : Option (Option GoError)) (w : World)
    → (shutdown_step cfg (flush_step cfg flush w)).events
      ≡ w.events
        ++ (flush_events flush cfg.shutdown_timeout
            ++ telemetry_shut_down cfg.shutdown_timeout ∷ [])
shut_down-events cfg none w = rw report-events
shut_down-events cfg (some r) w =
    rw report-events
      (rw report-events (append_assoc w.events (flushed cfg.shutdown_timeout ∷ []) _))

report-stderr :
    (prefix : Text) (e : Option GoError) (w : World)
    → (report prefix e w).stderr ≡ w.stderr ++ diagnostic_of prefix e
report-stderr prefix none w = rw append-nil
report-stderr prefix (some e) w = refl

shut_down-stderr :
    (cfg : Config) (flush : Option (Option GoError)) (w : World)
    → (shutdown_step cfg (flush_step cfg flush w)).stderr
      ≡ w.stderr
        ++ (diagnostic_of (codes "ax: flush failed: ") (flush_error flush)
            ++ diagnostic_of (codes "ax: otel shutdown failed: ") cfg.shutdown)
shut_down-stderr cfg none w = rw report-stderr
shut_down-stderr cfg (some r) w = rw report-stderr (rw report-stderr (append_assoc w.stderr _ _))

order_of :
    (v : Text) (flush : Option (Option GoError)) (t : ℤ)
    → IsPositive t
    → let events =
        (telemetry_started v t
          ∷ span_started
          ∷ command_finished
          ∷ stdout_restored
          ∷ span_ended
          ∷ [])
        ++ (flush_events flush t ++ telemetry_shut_down t ∷ []) in
      IsInOrder events × All HasTime events
order_of v none (pos n) h = (omega arith, omega arith)
order_of v (some r) (pos n) h = (omega arith, omega arith)
order_of v flush (negsuc n) h = elim h [ ]

-- The steps of a run happen once each and in the order of `rank`: stdout is restored and the span
-- ended before the flush, the flush comes before the telemetry shutdown, and the shutdown windows
-- have a positive time, whatever timeout was configured.
pub execute_order :
    (info : Option BuildInfo) (tool : Text) (cfg : Config) (run : CommandRun)
    → IsInOrder (execute info tool cfg run).events × All HasTime (execute info tool cfg run).events
unfolding execute
execute_order info tool cfg run =
    let cfg' = normalize_config info cfg in
    rw shut_down-events (
      order_of cfg'.version cfg.flush cfg'.shutdown_timeout
        (positive_or_default-IsPositive cfg.shutdown_timeout))

-- Stderr is what the command's end left there, then one line for a failed flush, then one for a
-- failed shutdown; the text of an error in these lines has no control character.
pub execute_stderr :
    (info : Option BuildInfo) (tool : Text) (cfg : Config) (run : CommandRun)
    → (execute info tool cfg run).stderr
      ≡ (finish_command tool (normalize_config info cfg).version run).stderr
        ++ (diagnostic_of (codes "ax: flush failed: ") (flush_error cfg.flush)
            ++ diagnostic_of (codes "ax: otel shutdown failed: ") cfg.shutdown)
unfolding execute
execute_stderr info tool cfg run = rw shut_down-stderr

-- An empty version option falls back to the resolved version, which is never empty.
pub normalize_config_version :
    (info : Option BuildInfo) (cfg : Config) → (normalize_config info cfg).version ≢ []
unfolding normalize_config
normalize_config_version info cfg = ground (arith, (resolve_version_from-IsStated [] info).0)
