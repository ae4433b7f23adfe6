-- ===== src/Loki/Worker/Delivery.antt =====
-- Every accepted entry is posted once, in order, and the buffers stay bounded.
use mathlib.Core.List.{append-nil, append_assoc}
use ax_go.Common.{
  ◌≤◌, List, [], ◌∷◌, ◌++◌, length, length-append, ltb, leb, ◌≡◌, refl, sym, ◌∙◌, ap, arith,
  Bool-cases, inl, inr,
}
use ax_go.Loki.Worker.{
  Phase, waiting, flushing, stopping, stopped, Worker, Event, write, receive, tick, flush_request,
  cancel, collect, drained, fresh, enqueue, take_entry, collect_entry, finish_flush, post,
  post_batch, step_in, step, run, channel_cap, batch_size,
}

module _ {ℓ} {E : Type ℓ} where
  abbrev pub concat : List (List E) → List E
  concat [] = []
  concat (b ∷ bs) = b ++ concat bs

  pub concat-concat : (bs : List (List E)) (b : List E) → concat (bs ++ b ∷ []) ≡ concat bs ++ b
  concat-concat [] b = append-nil b
  concat-concat (a ∷ bs) b = rw (concat-concat bs b) (sym (append_assoc a (concat bs) b))

  -- What is posted, held in the batch and waiting in the queue, in that order.
  abbrev pub in_flight : Worker E → List E
  in_flight w = concat w.posted ++ (w.batch ++ w.queue)

  -- Nothing accepted is lost, duplicated or reordered, and the queue is within its capacity.
  pub record IsSound (w : Worker E) : Type ℓ where
    pub delivers : in_flight w ≡ w.accepted
    pub bounded : length w.queue ≤ channel_cap

  post-in_flight : (w : Worker E) → in_flight (post w) ≡ in_flight w
  post-in_flight w =
      rw (concat-concat w.posted w.batch) (append_assoc (concat w.posted) w.batch w.queue)

  post_batch-in_flight : (w : Worker E) (b : List E) → in_flight (post_batch w b) ≡ in_flight w
  post_batch-in_flight w [] = refl
  post_batch-in_flight w (e ∷ b) = post-in_flight w

  append-concat : (a b c d : List E) → a ++ (b ++ (c ++ d)) ≡ (a ++ (b ++ c)) ++ d
  append-concat a b c d = simp append_assoc

  enqueue-IsSound : (w : Worker E) (e : E) → IsSound w → IsSound (enqueue w e)
  unfolding enqueue
  enqueue-IsSound w e h = elim (Bool-cases (ltb (length w.queue) channel_cap)) [
    | inl room ↦ rw room (record {
      delivers =
          append-concat (concat w.posted) w.batch w.queue (e ∷ [])
          ∙ ap (λ l. l ++ e ∷ []) h.delivers;
      bounded = ground (arith, length-append w.queue (e ∷ []));
    })
    | inr full ↦ rw full h
  ]

  moved-IsSound :
      (w : Worker E) (e : E) (queue : List E)
      → w.queue ≡ e ∷ queue
      → IsSound w
      → IsSound (record w { queue = queue; batch = w.batch ++ e ∷ [] })
  moved-IsSound w e queue q h = record {
    delivers =
        ap (λ l. concat w.posted ++ l)
          (append_assoc w.batch (e ∷ []) queue ∙ ap (λ l. w.batch ++ l) (sym q))
        ∙ h.delivers;
    bounded = omega (arith, ap length q, h.bounded);
  }

  post-IsSound : (w : Worker E) → IsSound w → IsSound (post w)
  post-IsSound w h = record { delivers = post-in_flight w ∙ h.delivers; bounded = h.bounded }

  post_batch-IsSound : (w : Worker E) (b : List E) → IsSound w → IsSound (post_batch w b)
  post_batch-IsSound w [] h = h
  post_batch-IsSound w (e ∷ b) h = post-IsSound w h

  take_entry-IsSound :
      (w : Worker E) (queue : List E) → w.queue ≡ queue → IsSound w → IsSound (take_entry w queue)
  unfolding take_entry
  take_entry-IsSound w [] q h = h
  take_entry-IsSound w (e ∷ queue) q h =
      let w' = record w { queue = queue; batch = w.batch ++ e ∷ [] } in
      elim (Bool-cases (leb batch_size (length w'.batch))) [
        | inl full ↦ rw full (post-IsSound w' (moved-IsSound w e queue q h))
        | inr room ↦ rw room (moved-IsSound w e queue q h)
      ]

  collect_entry-IsSound :
      (w : Worker E) (queue : List E)
      → w.queue ≡ queue
      → IsSound w
      → IsSound (collect_entry w queue)
  unfolding collect_entry
  collect_entry-IsSound w [] q h = h
  collect_entry-IsSound w (e ∷ queue) q h = moved-IsSound w e queue q h

  finish_flush-IsSound :
      (w : Worker E) (phase : Phase) (queue : List E)
      → IsSound w
      → IsSound (finish_flush w phase queue)
  unfolding finish_flush
  finish_flush-IsSound w flushing [] h =
      let k = post_batch-IsSound w w.batch h in
      record { delivers = k.delivers; bounded = k.bounded }
  finish_flush-IsSound w stopping [] h =
      let k = post_batch-IsSound w w.batch h in
      record { delivers = k.delivers; bounded = k.bounded }
  finish_flush-IsSound w flushing (e ∷ queue) h = h
  finish_flush-IsSound w stopping (e ∷ queue) h = h
  finish_flush-IsSound w waiting queue h = h
  finish_flush-IsSound w stopped queue h = h

  step_in-IsSound :
      (w : Worker E) (phase : Phase) (event : Event E) → IsSound w → IsSound (step_in w phase event)
  unfolding step_in
  step_in-IsSound w waiting (write e) h = enqueue-IsSound w e h
  step_in-IsSound w flushing (write e) h = enqueue-IsSound w e h
  step_in-IsSound w stopping (write e) h = enqueue-IsSound w e h
  step_in-IsSound w stopped (write e) h = enqueue-IsSound w e h
  step_in-IsSound w waiting receive h = take_entry-IsSound w w.queue refl h
  step_in-IsSound w waiting tick h = post_batch-IsSound w w.batch h
  step_in-IsSound w waiting flush_request h = record { delivers = h.delivers; bounded = h.bounded }
  step_in-IsSound w waiting cancel h = record { delivers = h.delivers; bounded = h.bounded }
  step_in-IsSound w flushing collect h = collect_entry-IsSound w w.queue refl h
  step_in-IsSound w stopping collect h = collect_entry-IsSound w w.queue refl h
  step_in-IsSound w flushing drained h = finish_flush-IsSound w flushing w.queue h
  step_in-IsSound w stopping drained h = finish_flush-IsSound w stopping w.queue h
  step_in-IsSound w _ _ h = h

  run-IsSound : (w : Worker E) (events : List (Event E)) → IsSound w → IsSound (run w events)
  unfolding run
  run-IsSound w [] h = h
  run-IsSound w (event ∷ events) h =
      run-IsSound (step w event) events (step_in-IsSound w w.phase event h)

  -- After any schedule of writes, ticks, flushes and cancellation, the posted batches, the current
  -- batch and the queue hold, in order, exactly the entries that were accepted, and the queue holds
  -- at most 256.
  pub run_fresh-IsSound : (events : List (Event E)) → IsSound (run fresh events)
  run_fresh-IsSound events =
      run-IsSound fresh events (record { delivers = refl; bounded = omega arith })
