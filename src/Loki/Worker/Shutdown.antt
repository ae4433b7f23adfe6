-- ===== src/Loki/Worker/Shutdown.antt =====
-- A flush, and the last one at shutdown, come to an end and deliver.
use mathlib.Core.List.{append-nil, append_assoc}
use ax_go.Common.{
  ℕ, zero, suc, ◌+◌, ◌≤◌, List, [], ◌∷◌, ◌++◌, length, ◌≡◌, refl, sym, ap, ◌∙◌, arith,
}
use ax_go.Loki.Worker.{
  Phase, waiting, flushing, stopping, stopped, Worker, Event, flush_request, cancel, collect,
  drained, fresh, run, channel_cap,
}
use ax_go.Loki.Worker.Delivery.{concat, concat-concat, IsSound, run_fresh-IsSound}

module _ {ℓ} {E : Type ℓ} where
  -- The turns of the loop of `flushRemaining`, and its end.
  abbrev pub drain : ℕ → List (Event E)
  drain zero = drained ∷ []
  drain (suc n) = collect ∷ drain n

  -- The worker has come to `phase`, and every entry accepted has been posted, in order.
  pub record HasDelivered (accepted : List E) (phase : Phase) (k : ℕ) (w : Worker E) : Type ℓ where
    pub ended : w.phase ≡ phase
    pub posts : concat w.posted ≡ accepted
    pub acknowledges : w.acknowledged ≡ k

  abbrev at : Phase → List E → List E → List (List E) → List E → ℕ → Worker E
  at phase queue batch posted accepted k = record {
    phase = phase;
    queue = queue;
    batch = batch;
    posted = posted;
    accepted = accepted;
    acknowledged = k;
  }

  -- What a drain of `w` leaves, in either of its phases.
  abbrev Drains : List E → List E → List (List E) → List E → ℕ → ℕ → Type ℓ
  Drains queue batch posted accepted k n =
      HasDelivered accepted waiting (k + 1)
        (run (at flushing queue batch posted accepted k) (drain n))
      × HasDelivered accepted stopped k (run (at stopping queue batch posted accepted k) (drain n))

  drained_lem :
      (batch : List E) (posted : List (List E)) (accepted : List E) (k : ℕ)
      → concat posted ++ batch ≡ accepted
      → Drains [] batch posted accepted k 0
  unfolding run
  drained_lem [] posted accepted k h =
      let all = sym (append-nil (concat posted)) ∙ h in
      (
        record { ended = refl; posts = all; acknowledges = refl },
        record { ended = refl; posts = all; acknowledges = refl },
      )
  drained_lem (e ∷ batch) posted accepted k h =
      let all = concat-concat posted (e ∷ batch) ∙ h in
      (
        record { ended = refl; posts = all; acknowledges = refl },
        record { ended = refl; posts = all; acknowledges = refl },
      )

  drain_lem :
      (queue batch : List E) (posted : List (List E)) (accepted : List E) (k n : ℕ)
      → length queue ≤ n
      → concat posted ++ (batch ++ queue) ≡ accepted
      → Drains queue batch posted accepted k n
  unfolding run
  drain_lem [] batch posted accepted k zero fits h =
      drained_lem batch posted accepted k
        (ap (λ l. concat posted ++ l) (sym (append-nil batch)) ∙ h)
  drain_lem (e ∷ queue) batch posted accepted k zero fits h = absurd (omega arith)
  drain_lem [] batch posted accepted k (suc n) fits h =
      drain_lem [] batch posted accepted k n (omega arith) h
  drain_lem (e ∷ queue) batch posted accepted k (suc n) fits h =
      drain_lem queue (batch ++ e ∷ []) posted accepted k n (omega arith)
        (ap (λ l. concat posted ++ l) (append_assoc batch (e ∷ []) queue) ∙ h)

  drained_from :
      (w : Worker E) (n : ℕ)
      → IsSound w
      → w.phase ≡ waiting
      → channel_cap ≤ n
      → HasDelivered w.accepted waiting (w.acknowledged + 1) (run w (flush_request ∷ drain n))
        × HasDelivered w.accepted stopped w.acknowledged (run w (cancel ∷ drain n))
  unfolding run
  drained_from w n h waits fits = rw waits (
      drain_lem w.queue w.batch w.posted w.accepted w.acknowledged n (omega (arith, h.bounded))
        h.delivers)

  -- Whatever happened before: a worker that waits and gets a flush request, or is cancelled, comes
  -- to the end of its drain after 256 turns at most with no writer active. Then every entry accepted
  -- so far has been posted, in order, and the worker waits again with the flush acknowledged, or has
  -- stopped.
  pub run_fresh-HasDelivered :
      (events : List (Event E)) (n : ℕ)
      → (run {E = E} fresh events).phase ≡ waiting
      → channel_cap ≤ n
      → let w = run {E = E} fresh events in
        HasDelivered w.accepted waiting (w.acknowledged + 1) (run w (flush_request ∷ drain n))
        × HasDelivered w.accepted stopped w.acknowledged (run w (cancel ∷ drain n))
  run_fresh-HasDelivered events n waits fits =
      drained_from (run fresh events) n (run_fresh-IsSound events) waits fits
