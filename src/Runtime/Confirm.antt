-- ===== src/Runtime/Confirm.antt =====
-- The confirmation gate, of confirm.go.
use ax_go.Common.{
  Text, codes, ℤ, Bool, true, false, Option, none, some, [], ◌∷◌, ◌++◌, ◌≡◌, arith, if◌then◌else◌,
}
use ax_go.Contract.Mode.{Mode, json, human}
use ax_go.Contract.Codes.{confirmation_required}
use ax_go.Contract.Context.{Context, or_background, approval_from_context, mode_from_context}
use ax_go.Contract.Errors.{
  AxError, ax_exit_code, exit_validation, new_error, new_live_error, with_actionable_fix,
  with_error_exit_code,
}

pub data ConfirmationOutcome : Type 0 where
  approved blocked prompt_required : ConfirmationOutcome

abbrev pub is_human : Option Mode → Bool
is_human none = false
is_human (some json) = false
is_human (some human) = true

unfoldable pub confirm : Option Context → Text → ConfirmationOutcome × Option AxError
confirm ctx? subject =
    let ctx = or_background ctx? in
    if approval_from_context ctx
    then (approved, none)
    else if is_human (mode_from_context ctx)
    then (prompt_required, none)
    else (
      blocked,
      some (
          new_live_error (some ctx) confirmation_required
            (codes "confirmation required: " ++ subject)
            (with_actionable_fix (codes "pass --yes to confirm this operation")
              ∷ with_error_exit_code exit_validation
              ∷ [])),
    )

-- What the gate must say of approval and human mode.
abbrev pub gate : Bool → Bool → ConfirmationOutcome
gate true _ = approved
gate false true = prompt_required
gate false false = blocked

-- The exit code of the error, if there is one.
abbrev pub exit_of : Option AxError → Option ℤ
exit_of none = none
exit_of (some e) = some (ax_exit_code (some e))

-- Approval decides first, human mode second; an error is returned exactly when the gate blocks, and
-- then it exits 2 with the code confirmation_required, with or without a context.
pub confirm_lem :
    (ctx? : Option Context) (subject : Text)
    → let ctx = or_background ctx? in
      let outcome = gate (approval_from_context ctx) (is_human (mode_from_context ctx)) in
      ((confirm ctx? subject).0 ≡ outcome)
      × (exit_of (confirm ctx? subject).1
          ≡ elim outcome [ blocked ↦ some exit_validation | _ ↦ none ])
unfolding confirm new_live_error new_error ax_exit_code with_error_exit_code with_actionable_fix
confirm_lem ctx? subject = ground arith
