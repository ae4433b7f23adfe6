-- ===== src/Loki/Worker.antt =====
-- The bounded queue of `lokiWriter` and its background goroutine `run`: a schedule of events, with
-- writes from other goroutines between any two steps of the worker.
pub mod Delivery
pub mod Flush
pub mod Shutdown
use ax_go.Common.{
  ℕ, ◌+◌, ◌≤◌, ◌<◌, Bool, true, false, not, Option, none, some, List, [], ◌∷◌, ◌++◌, length,
  is_empty, ltb, leb, ◌≡◌, refl, arith, if◌then◌else◌,
}

abbrev pub channel_cap : ℕ
channel_cap = 256

abbrev pub batch_size : ℕ
batch_size = 100

-- The worker waits in its select, or drains the queue: for a flush request, or for the last time.
pub data Phase : Type 0 where
  waiting flushing stopping stopped : Phase

pub record Worker {ℓ} (E : Type ℓ) : Type ℓ where
  pub phase : Phase
  pub queue : List E
  pub batch : List E
  pub posted : List (List E)
  pub accepted : List E
  pub acknowledged : ℕ

pub data Event {ℓ} (E : Type ℓ) : Type ℓ where
  write : E → Event E
  receive tick flush_request cancel collect drained : Event E

module _ {ℓ} {E : Type ℓ} where
  abbrev pub fresh : Worker E
  fresh = record {
    phase = waiting;
    queue = [];
    batch = [];
    posted = [];
    accepted = [];
    acknowledged = 0;
  }

  -- `Write`: `accepted` records the entries that were not dropped.
  unfoldable pub enqueue : Worker E → E → Worker E
  enqueue w e =
      if ltb (length w.queue) channel_cap
      then record w { queue = w.queue ++ e ∷ []; accepted = w.accepted ++ e ∷ [] }
      else w

  abbrev post : Worker E → Worker E
  post w = record w { posted = w.posted ++ w.batch ∷ []; batch = [] }

  -- `case entry := <-lw.ch`
  unfoldable pub take_entry : Worker E → List E → Worker E
  take_entry w [] = w
  take_entry w (e ∷ queue) =
      let w' = record w { queue = queue; batch = w.batch ++ e ∷ [] } in
      if leb batch_size (length w'.batch) then post w' else w'

  -- One turn of the loop of `flushRemaining`, which does not look at the size.
  unfoldable pub collect_entry : Worker E → List E → Worker E
  collect_entry w [] = w
  collect_entry w (e ∷ queue) = record w { queue = queue; batch = w.batch ++ e ∷ [] }

  abbrev post_batch : Worker E → List E → Worker E
  post_batch w [] = w
  post_batch w (e ∷ batch) = post w

  -- The end of `flushRemaining`, at an empty queue, and what follows it in `run`.
  unfoldable pub finish_flush : Worker E → Phase → List E → Worker E
  finish_flush w flushing [] =
      let w' = post_batch w w.batch in
      record w' { phase = waiting; acknowledged = w'.acknowledged + 1 }
  finish_flush w stopping [] = record (post_batch w w.batch) { phase = stopped }
  finish_flush w phase queue = w

  unfoldable pub step_in : Worker E → Phase → Event E → Worker E
  unfolding enqueue take_entry collect_entry finish_flush
  step_in w phase (write e) = enqueue w e
  step_in w waiting receive = take_entry w w.queue
  step_in w waiting tick = post_batch w w.batch
  step_in w waiting flush_request = record w { phase = flushing }
  step_in w waiting cancel = record w { phase = stopping }
  step_in w flushing collect = collect_entry w w.queue
  step_in w stopping collect = collect_entry w w.queue
  step_in w flushing drained = finish_flush w flushing w.queue
  step_in w stopping drained = finish_flush w stopping w.queue
  step_in w phase event = w

  abbrev pub step : Worker E → Event E → Worker E
  step w event = step_in w w.phase event

  unfoldable pub run : Worker E → List (Event E) → Worker E
  unfolding step_in
  run w [] = w
  run w (event ∷ events) = run (step w event) events
