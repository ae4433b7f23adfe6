-- ===== src/Runtime/Flagged.antt =====
-- The flag --dry-run of a command, from the setup of its context to the effects that it guards.
use ax_go.Common.{Text, Bool, Option, none, some, List, [], ◌∷◌, ◌≡◌, refl, arith, if◌then◌else◌}
use ax_go.Contract.Context.{Context, or_background, dry_run_from_context}
use ax_go.Runtime.Execute.{WarningState}
use ax_go.Runtime.Execute.PreRun.{Inputs, Previous, pre_run, KeepsDryRun, pre_run-dry_run}
use ax_go.Runtime.Guard.{
  Effect, Outcome, returned, panicked, after_rehearsal, guard, perform, run_audited,
}

-- A call of `Guard` or of `Perform` in the command's body.
pub data Guarding (S : Type 0) : Type 0 where
  guarded : Text → Effect S → Guarding S
  performed : Text → (rehearse commit : Effect S) → Guarding S

-- The store after the calls of a command that goes on whatever they return.
abbrev pub run_calls : {S : Type 0} → Context → List (Guarding S) → S → S
run_calls ctx [] s = s
run_calls ctx (guarded description effect ∷ calls) s =
    run_calls ctx calls (guard (some ctx) description (some effect) s).store
run_calls ctx (performed description rehearse commit ∷ calls) s =
    run_calls ctx calls (perform (some ctx) description (some rehearse) (some commit) s).store

-- The store if the effects themselves, or under a dry run the rehearsals only, were run.
abbrev pub run_effects : {S : Type 0} → Bool → Context → List (Guarding S) → S → S
run_effects dry_run ctx [] s = s
run_effects dry_run ctx (guarded description effect ∷ calls) s =
    run_effects dry_run ctx calls (if dry_run then s else (effect ctx s).store)
run_effects dry_run ctx (performed description rehearse commit ∷ calls) s =
    run_effects dry_run ctx calls (if dry_run then (rehearse ctx s).store else (commit ctx s).store)

module _ {S : Type 0} where
  rehearsal-store :
      (commit : Effect S) (rehearse : Effect S) (ctx : Context) (s : S) (o : Outcome)
      → (after_rehearsal (some commit) (rehearse ctx s) o).store ≡ (rehearse ctx s).store
  rehearsal-store commit rehearse ctx s (returned none) = refl
  rehearsal-store commit rehearse ctx s (returned (some e)) = refl
  rehearsal-store commit rehearse ctx s (panicked v) = refl

  run_calls-run_effects :
      (dry_run : Bool) (ctx : Context) (calls : List (Guarding S)) (s : S)
      → dry_run_from_context ctx ≡ dry_run
      → run_calls ctx calls s ≡ run_effects dry_run ctx calls s
  unfolding guard perform or_background run_audited
  run_calls-run_effects dry_run ctx [] s h = refl
  run_calls-run_effects dry_run ctx (guarded description effect ∷ calls) s h = ground (
    arith,
    run_calls-run_effects dry_run ctx calls (if dry_run then s else (effect ctx s).store) h,
  )
  run_calls-run_effects dry_run ctx (performed description rehearse commit ∷ calls) s h = ground (
    arith,
    rehearsal-store commit rehearse ctx s (rehearse ctx s).outcome,
    run_calls-run_effects dry_run ctx calls
        (if dry_run then (rehearse ctx s).store else (commit ctx s).store) h,
  )

  -- Whatever calls of Guard and Perform a command makes, on the context that the setup and the hooks
  -- it replaced leave when they return no error: with --dry-run no guarded effect and no commit
  -- touches the store, only rehearsals do; without it exactly the effects and the commits do, in
  -- order. The hooks leave the dry run as they find it.
  pub pre_run-run_calls :
      (ctx : Context) (state : Option WarningState) (inputs : Inputs) (fresh : Text)
      (previous : Previous) (calls : List (Guarding S)) (s : S)
      → KeepsDryRun previous
      → (pre_run ctx state inputs fresh previous).error ≡ none
      → let seen = (pre_run ctx state inputs fresh previous).context in
        run_calls seen calls s ≡ run_effects inputs.dry_run seen calls s
  pre_run-run_calls ctx state inputs fresh previous calls s keeps done =
      run_calls-run_effects inputs.dry_run _ calls s
        (pre_run-dry_run ctx state inputs fresh previous keeps done)
