-- ===== src/Schema/Capability.antt =====
-- The capability class of a command, of internal/schema/declare.go.
use ax_go.Common.{
  Text, codes, text_eq, text_eq_iff, trim_space, Bool, false, not, Option, none, some, [], ◌∷◌,
  is_empty, exists?, if◌then◌else◌, ◌≡◌, refl, ap, ◌∙◌, arith, Bool-cases, inl, inr,
}
use ax_go.Schema.{nil_command, not_in_vocabulary, Violation}
use ax_go.Schema.Validate.{violation}
use ax_go.Schema.Declare.{Annotations, annotation, set_annotation}
use ax_go.Schema.Declare.Laws.{annotation-set_annotation}

unfoldable pub is_capability : Text → Bool
is_capability class = exists? (text_eq class) (
    codes "read-only"
    ∷ codes "create"
    ∷ codes "mutate"
    ∷ codes "delete"
    ∷ codes "external-network"
    ∷ codes "admin"
    ∷ [])

abbrev capability_annotation_key : Text
capability_annotation_key = codes "github.com/rshade/ax-go/schema/capability"

abbrev capability_note_annotation_key : Text
capability_note_annotation_key = codes "github.com/rshade/ax-go/schema/capability-note"

-- `delete` on the map.
unfoldable pub delete_annotation : Text → Annotations → Annotations
delete_annotation key [] = []
delete_annotation key ((k, v) ∷ annotations) =
    let rest = delete_annotation key annotations in if text_eq k key then rest else (k, v) ∷ rest

abbrev with_note : Text → Annotations → Annotations
with_note note annotations =
    if not (is_empty note)
    then set_annotation capability_note_annotation_key note annotations
    else delete_annotation capability_note_annotation_key annotations

-- AddCapability; the pointer may be nil.
unfoldable pub add_capability :
    Option Annotations → Text → Text → Option Violation × Option Annotations
add_capability none class note = (some (violation (codes "cmd") nil_command), none)
add_capability (some annotations) class note =
    if not (is_capability class)
    then (some (violation (codes "class") not_in_vocabulary), some annotations)
    else (
      none,
      some (
          with_note (trim_space note) (set_annotation capability_annotation_key class annotations)),
    )

abbrev or_empty : Option Text → Text
or_empty none = []
or_empty (some text) = text

-- The class and the note of a classified command.
unfoldable pub command_capability : Annotations → Option (Text × Text)
command_capability annotations =
    let class = or_empty (annotation capability_annotation_key annotations) in
    if not (is_capability class)
    then none
    else some (class, or_empty (annotation capability_note_annotation_key annotations))

annotation-delete_annotation :
    (key name : Text) (annotations : Annotations)
    → annotation name (delete_annotation key annotations)
      ≡ (if text_eq key name then none else annotation name annotations)
unfolding annotation delete_annotation
annotation-delete_annotation key name [] = ground arith
annotation-delete_annotation key name ((k, v) ∷ annotations) = ground (
  arith,
  text_eq_iff k key,
  text_eq_iff k name,
  text_eq_iff key name,
  annotation-delete_annotation key name annotations,
)

abbrev classify : Text → Text → Annotations → Annotations
classify class note annotations =
    with_note note (set_annotation capability_annotation_key class annotations)

class_classify :
    (annotations : Annotations) (class note : Text)
    → annotation capability_annotation_key (classify class note annotations) ≡ some class
unfolding text_eq
class_classify annotations class [] =
    annotation-delete_annotation capability_note_annotation_key capability_annotation_key _
    ∙ annotation-set_annotation capability_annotation_key capability_annotation_key class _
class_classify annotations class (c ∷ note) =
    annotation-set_annotation capability_note_annotation_key capability_annotation_key _ _
    ∙ annotation-set_annotation capability_annotation_key capability_annotation_key class _

note_classify :
    (annotations : Annotations) (class note : Text)
    → or_empty (annotation capability_note_annotation_key (classify class note annotations)) ≡ note
unfolding text_eq
note_classify annotations class [] =
    ap or_empty
      (annotation-delete_annotation capability_note_annotation_key capability_note_annotation_key _)
note_classify annotations class (c ∷ note) =
    ap or_empty
      (annotation-set_annotation capability_note_annotation_key capability_note_annotation_key _ _)

-- The outcome of a classification, and what is read back after it.
abbrev pub IsClassified : Annotations → Text → Text → Option Violation × Option Annotations → Type 0
IsClassified annotations class note (some v, after) =
    (is_capability class ≡ false) × (after ≡ some annotations)
IsClassified annotations class note (none, none) = ⊥
IsClassified annotations class note (none, some after) =
    command_capability after ≡ some (class, trim_space note)

-- A class outside the vocabulary is refused and leaves the annotations as they are; any other is read
-- back, with the trimmed note and not with the note of an earlier classification.
pub add_capability-IsClassified :
    (annotations : Annotations) (class note : Text)
    → IsClassified annotations class note (add_capability (some annotations) class note)
unfolding add_capability command_capability
add_capability-IsClassified annotations class note = elim (Bool-cases (is_capability class)) [
  | inr unknown ↦ rw unknown (unknown, refl)
  | inl known ↦ rw known (
      rw
        (
          class_classify annotations class (trim_space note),
          note_classify annotations class (trim_space note),
          known,
        )
        refl)
]
