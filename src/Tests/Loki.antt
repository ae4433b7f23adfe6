-- ===== src/Tests/Loki.antt =====
-- Pushes and schedules of the worker at concrete inputs.

use ax_go.Common.{ℕ, Text, codes, ◌+◌, Option, some, List, [], ◌∷◌, ◌≡◌, refl, pos, arith}
use ax_go.Contract.Errors.{Assoc}
use ax_go.Contract.Json.{string}
use ax_go.Loki.Labels.{StreamKey, LabelPair, Labels, label_environment, label_host}
use ax_go.Loki.Streams.{Entry, Groups}
use ax_go.Loki.Worker.{
  Worker, Event, write, receive, tick, flush_request, cancel, collect, drained, fresh, run, waiting,
  stopped, channel_cap,
}
use ax_go.Loki.Worker.Delivery.{IsSound, run_fresh-IsSound}
use ax_go.Loki.Worker.Shutdown.{HasDelivered, drain, run_fresh-HasDelivered}

abbrev production : LabelPair
production = record { key = label_environment; value = codes "prod" }

abbrev decoded : Text → Option Assoc
decoded line =
    some ((label_environment, string (codes "prod")) ∷ (label_host, string (codes "h1")) ∷ [])

abbrev declared : Labels
declared = record { environment = codes "prod"; application = []; host = codes "h1"; version = [] }

abbrev key_by_line : Text → StreamKey
key_by_line line = record {
  environment = [];
  application = [];
  host = [];
  version = [];
  level = line;
}

abbrev lines : List Entry
lines =
    record { ts = pos 1; line = codes "info" }
    ∷ record { ts = pos 2; line = codes "error" }
    ∷ record { ts = pos 3; line = codes "info" }
    ∷ []

abbrev groups : Groups
groups = (key_by_line (codes "warn"), []) ∷ (key_by_line (codes "info"), []) ∷ []

abbrev walked_otherwise : Groups
walked_otherwise = (key_by_line (codes "info"), []) ∷ (key_by_line (codes "warn"), []) ∷ []

-- Two entries, one of them posted by a tick, then a flush.
abbrev schedule : List (Event ℕ)
schedule = write 1 ∷ receive ∷ tick ∷ write 2 ∷ flush_request ∷ collect ∷ drained ∷ []

run_fresh-IsSound_example : IsSound (run fresh schedule)
run_fresh-IsSound_example = run_fresh-IsSound schedule

abbrev one_waits : Worker ℕ
one_waits = run fresh (write 1 ∷ receive ∷ write 2 ∷ [])

one_waits_phase : one_waits.phase ≡ waiting
unfolding run
one_waits_phase = refl

run_fresh-HasDelivered_example :
    HasDelivered one_waits.accepted waiting
      (one_waits.acknowledged + 1)
      (run one_waits (flush_request ∷ drain channel_cap))
    × HasDelivered one_waits.accepted stopped one_waits.acknowledged
        (run one_waits (cancel ∷ drain channel_cap))
run_fresh-HasDelivered_example =
    run_fresh-HasDelivered (write 1 ∷ receive ∷ write 2 ∷ []) channel_cap one_waits_phase
      (omega arith)
