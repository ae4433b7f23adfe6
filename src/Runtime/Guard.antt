-- ===== src/Runtime/Guard.antt =====
-- Guarded side effects, of guard.go. An effect reads the context and a store, and leaves its
-- outcome, the new store and the lines that it wrote to stderr; stderr is never read.
pub mod Laws
use ax_go.Common.{
  Text, codes, Bool, true, false, Option, none, some, List, [], ◌∷◌, ◌++◌, if◌then◌else◌,
}
use ax_go.Contract.Context.{
  Context, or_background, dry_run_from_context, audit_enabled_from_context,
}
use ax_go.Contract.Errors.{
  GoError, ax, ax_caused, deadline_exceeded, canceled, plain, wrap, url_error, joined, error_text,
}

pub data Level : Type 0 where
  info error : Level

-- One structured line: the trace fields that the logger's hook adds are left out.
pub record LogLine : Type 0 where
  pub level : Level
  pub dry_run : Bool
  pub ax_helper : Text
  pub description : Option Text
  pub err : Option Text
  pub msg : Text

-- A callback returns, or panics with a value.
pub data Outcome : Type 0 where
  returned : Option GoError → Outcome
  panicked : Text → Outcome

pub record Effected (S : Type 0) : Type 0 where
  pub outcome : Outcome
  pub store : S
  pub lines : List LogLine

abbrev pub Effect : Type 0 → Type 0
Effect S = Context → S → Effected S

abbrev pub dry_run_line : Text → LogLine
dry_run_line helper = record {
  level = info;
  dry_run = true;
  ax_helper = helper;
  description = none;
  err = none;
  msg = codes "dry-run: side effect suppressed";
}

abbrev audit_line : Level → Text → Text → Option Text → Text → LogLine
audit_line level helper description err msg = record {
  level = level;
  dry_run = false;
  ax_helper = helper;
  description = some description;
  err = err;
  msg = msg;
}

abbrev pub audit_start : Text → Text → LogLine
audit_start helper description =
    audit_line info helper description none (codes "ax: about to run effect")

abbrev pub audit_abnormal : Text → Text → LogLine
audit_abnormal helper description =
    audit_line error helper description none (codes "ax: effect did not return normally")

abbrev first_of_two : Option GoError → Option GoError → Option GoError
first_of_two none b = b
first_of_two (some a) b = some a

-- `errors.AsType[*url.Error]`: what the first URL error of the tree wraps.
unfoldable pub as_url : GoError → Option GoError
as_url (ax e) = none
as_url (ax_caused e c) = as_url c
as_url deadline_exceeded = none
as_url canceled = none
as_url (plain m) = none
as_url (wrap m e) = as_url e
as_url (url_error op url e) = some e
as_url (joined a b) = first_of_two (as_url a) (as_url b)

-- The error that the failure line shows.
unfoldable pub redacted : GoError → GoError
redacted err = elim (as_url err) [ none ↦ err | some inner ↦ inner ]

-- `logAuditOutcome`
unfoldable pub audit_outcome : Text → Text → Option GoError → LogLine
unfolding redacted
audit_outcome helper description none =
    audit_line info helper description none (codes "ax: effect succeeded")
audit_outcome helper description (some err) =
    audit_line error helper description (some (error_text (redacted err)))
      (codes "ax: effect failed")

-- The line that follows the callback: by the deferred check, if it panicked.
unfoldable pub audit_end : Text → Text → Outcome → LogLine
unfolding audit_outcome
audit_end helper description (returned err) = audit_outcome helper description err
audit_end helper description (panicked v) = audit_abnormal helper description

unfoldable pub run_audited : {S : Type 0} → Context → Text → Text → Effect S → S → Effected S
run_audited ctx helper description fn s =
    let done = fn ctx s in
    if audit_enabled_from_context ctx
    then record done {
      lines =
          audit_start helper description
          ∷ (done.lines ++ audit_end helper description done.outcome ∷ []);
    }
    else done

-- `(bool, error)`, or the panic that goes on.
pub record Guarded (S : Type 0) : Type 0 where
  pub ran : Bool
  pub effected : Effected S
  pub open effected use *

abbrev nothing : {S : Type 0} → List LogLine → S → Effected S
nothing lines s = record { outcome = returned none; store = s; lines = lines }

abbrev skip_lines : {S : Type 0} → Text → Option (Effect S) → List LogLine
skip_lines helper none = []
skip_lines helper (some effect) = dry_run_line helper ∷ []

abbrev guard_real : {S : Type 0} → Context → Text → Option (Effect S) → S → Guarded S
guard_real ctx description none s = record { ran = false; effected = nothing [] s }
guard_real ctx description (some effect) s = record {
  ran = true;
  effected = run_audited ctx (codes "Guard") description effect s;
}

unfoldable pub guard : {S : Type 0} → Option Context → Text → Option (Effect S) → S → Guarded S
guard ctx? description effect s =
    let ctx = or_background ctx? in
    if dry_run_from_context ctx
    then record { ran = false; effected = nothing (skip_lines (codes "Guard") effect) s }
    else guard_real ctx description effect s

abbrev perform_real : {S : Type 0} → Context → Text → Option (Effect S) → S → Effected S
perform_real ctx description none s = nothing [] s
perform_real ctx description (some commit) s =
    run_audited ctx (codes "Perform") description commit s

-- After the rehearsal: its error or panic is the result, and otherwise the commit is skipped.
abbrev pub after_rehearsal : {S : Type 0} → Option (Effect S) → Effected S → Outcome → Effected S
after_rehearsal commit done (returned none) = record done {
  lines = done.lines ++ skip_lines (codes "Perform") commit;
}
after_rehearsal commit done (returned (some err)) = done
after_rehearsal commit done (panicked v) = done

abbrev perform_dry : {S : Type 0} → Context → Option (Effect S) → Option (Effect S) → S → Effected S
perform_dry ctx none commit s = nothing (skip_lines (codes "Perform") commit) s
perform_dry ctx (some rehearse) commit s =
    let done = rehearse ctx s in after_rehearsal commit done done.outcome

unfoldable pub perform :
    {S : Type 0} → Option Context → Text → Option (Effect S) → Option (Effect S) → S → Effected S
perform ctx? description rehearse commit s =
    let ctx = or_background ctx? in
    if dry_run_from_context ctx
    then perform_dry ctx rehearse commit s
    else perform_real ctx description commit s

-- `Guard` and `Perform`, which give no description.
unfoldable pub guard_plain : {S : Type 0} → Option Context → Option (Effect S) → S → Guarded S
unfolding guard
guard_plain ctx effect s = guard ctx [] effect s

unfoldable pub perform_plain :
    {S : Type 0} → Option Context → Option (Effect S) → Option (Effect S) → S → Effected S
unfolding perform
perform_plain ctx rehearse commit s = perform ctx [] rehearse commit s
