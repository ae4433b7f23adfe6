-- ===== src/Runtime/Guard/Laws.antt =====
-- What the audit lines leave out.
use ax_go.Common.{Text, some, ◌≡◌, refl}
use ax_go.Contract.Errors.{GoError, url_error, wrap}
use ax_go.Runtime.Guard.{audit_outcome, as_url}

-- The line of a failed request does not depend on the request's URL or on the messages around it.
pub audit_outcome_hides_url :
    (helper description m m' op op' url url' : Text) (inner : GoError)
    → audit_outcome helper description (some (wrap m (url_error op url inner)))
      ≡ audit_outcome helper description (some (wrap m' (url_error op' url' inner)))
unfolding audit_outcome as_url
audit_outcome_hides_url helper description m m' op op' url url' inner = refl
