-- ===== src/Loki/Worker/Flush.antt =====
-- What a flush delivers, the size of the batch between flushes, and its size during one.
use ax_go.Common.{
  ℕ, zero, suc, ◌+◌, ◌<◌, List, [], ◌∷◌, ◌++◌, length, length-append, ltb, ◌≡◌, refl, ◌∙◌, arith,
  Bool-cases, inl, inr,
}
use ax_go.Loki.Worker.{
  Phase, waiting, flushing, stopping, stopped, Worker, Event, write, receive, tick, flush_request,
  cancel, collect, drained, fresh, enqueue, take_entry, collect_entry, finish_flush, post_batch,
  step_in, step, run, channel_cap, batch_size,
}

module _ {ℓ} {E : Type ℓ} where
  -- While the worker waits, the batch is below the size that triggers a push.
  pub record IsFit (w : Worker E) : Type ℓ where
    pub while_waiting : w.phase ≡ waiting → length w.batch < batch_size

  take_entry_fits :
      (w : Worker E) (queue : List E)
      → length w.batch < batch_size
      → length (take_entry w queue).batch < batch_size
  unfolding take_entry
  take_entry_fits w [] h = h
  take_entry_fits w (e ∷ queue) h = ground arith

  post_batch_fits :
      (w : Worker E) (b : List E)
      → length w.batch < batch_size
      → length (post_batch w b).batch < batch_size
  post_batch_fits w [] h = h
  post_batch_fits w (e ∷ b) h = omega arith

  posted_empty :
      (w : Worker E) (b : List E) → w.batch ≡ b → length (post_batch w b).batch < batch_size
  posted_empty w [] e = rw e (omega arith)
  posted_empty w (x ∷ b) e = omega arith

  enqueue-IsFit : (w : Worker E) (e : E) → IsFit w → IsFit (enqueue w e)
  unfolding enqueue
  enqueue-IsFit w e h = elim (Bool-cases (ltb (length w.queue) channel_cap)) [
    | inl room ↦ rw room (record { while_waiting = h.while_waiting })
    | inr full ↦ rw full h
  ]

  collect_entry-IsFit :
      (w : Worker E) (queue : List E)
      → (w.phase ≡ waiting → ⊥)
      → IsFit w
      → IsFit (collect_entry w queue)
  unfolding collect_entry
  collect_entry-IsFit w [] ne h = h
  collect_entry-IsFit w (e ∷ queue) ne h = record { while_waiting = λ q. absurd (ne q) }

  finish_flush-IsFit :
      (w : Worker E) (phase : Phase) (queue : List E) → IsFit w → IsFit (finish_flush w phase queue)
  unfolding finish_flush
  finish_flush-IsFit w flushing [] h = record { while_waiting = λ q. posted_empty w w.batch refl }
  finish_flush-IsFit w stopping [] h = record { while_waiting = λ q. posted_empty w w.batch refl }
  finish_flush-IsFit w flushing (e ∷ queue) h = h
  finish_flush-IsFit w stopping (e ∷ queue) h = h
  finish_flush-IsFit w waiting queue h = h
  finish_flush-IsFit w stopped queue h = h

  step_in-IsFit :
      (w : Worker E) (phase : Phase) (event : Event E)
      → w.phase ≡ phase
      → IsFit w
      → IsFit (step_in w phase event)
  unfolding step_in
  step_in-IsFit w waiting (write e) p h = enqueue-IsFit w e h
  step_in-IsFit w flushing (write e) p h = enqueue-IsFit w e h
  step_in-IsFit w stopping (write e) p h = enqueue-IsFit w e h
  step_in-IsFit w stopped (write e) p h = enqueue-IsFit w e h
  step_in-IsFit w waiting receive p h = record {
    while_waiting = λ q. take_entry_fits w w.queue (h.while_waiting p);
  }
  step_in-IsFit w waiting tick p h = record {
    while_waiting = λ q. post_batch_fits w w.batch (h.while_waiting p);
  }
  step_in-IsFit w waiting flush_request p h = record { while_waiting = λ q. absurd (ground arith) }
  step_in-IsFit w waiting cancel p h = record { while_waiting = λ q. absurd (ground arith) }
  step_in-IsFit w flushing collect p h = collect_entry-IsFit w w.queue (λ q. ground arith) h
  step_in-IsFit w stopping collect p h = collect_entry-IsFit w w.queue (λ q. ground arith) h
  step_in-IsFit w flushing drained p h = finish_flush-IsFit w flushing w.queue h
  step_in-IsFit w stopping drained p h = finish_flush-IsFit w stopping w.queue h
  step_in-IsFit w _ _ p h = h

  run-IsFit : (w : Worker E) (events : List (Event E)) → IsFit w → IsFit (run w events)
  unfolding run
  run-IsFit w [] h = h
  run-IsFit w (event ∷ events) h =
      run-IsFit (step w event) events (step_in-IsFit w w.phase event refl h)

  -- After any schedule, if the worker is waiting then its batch holds fewer than 100 entries.
  pub run_fresh-IsFit :
      (events : List (Event E))
      → (run {E = E} fresh events).phase ≡ waiting
      → length (run {E = E} fresh events).batch < batch_size
  run_fresh-IsFit events =
      (run-IsFit fresh events (record { while_waiting = λ q. omega arith })).while_waiting

  -- A writer that keeps pace with the drain of a flush: one write before each entry collected.
  abbrev pub write_and_collect : E → ℕ → List (Event E)
  write_and_collect e zero = []
  write_and_collect e (suc n) = write e ∷ collect ∷ write_and_collect e n

  abbrev in_flush : List E → List (List E) → List E → ℕ → Worker E
  in_flush batch posted accepted k = record {
    phase = flushing;
    queue = [];
    batch = batch;
    posted = posted;
    accepted = accepted;
    acknowledged = k;
  }

  collects_all :
      (e : E) (n : ℕ) (batch : List E) (posted : List (List E)) (accepted : List E) (k : ℕ)
      → length (run (in_flush batch posted accepted k) (write_and_collect e n)).batch
        ≡ length batch + n
  unfolding run
  collects_all e zero batch posted accepted k = omega arith
  collects_all e (suc n) batch posted accepted k =
      collects_all e n (batch ++ e ∷ []) posted (accepted ++ e ∷ []) k
      ∙ omega (arith, length-append batch (e ∷ []))

  -- A flush does not bound the batch: with a writer that keeps pace, it holds any number of
  -- entries before it is posted.
  pub flush_batch_unbounded :
      (e : E) (n : ℕ) → length (run fresh (flush_request ∷ write_and_collect e n)).batch ≡ n
  unfolding run
  flush_batch_unbounded e n = collects_all e n [] [] [] 0 ∙ omega arith
