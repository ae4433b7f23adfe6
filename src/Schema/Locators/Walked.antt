-- ===== src/Schema/Locators/Walked.antt =====
-- What the walk over a type finds, and that it ends.
use mathlib.Core.Path.{subst}
use ax_go.Common.{
  ℕ, zero, suc, ◌≤◌, Text, codes, text_eq, text_lt, has_prefix, cut_prefix, join, Bool, true, false,
  not, Option, none, some, List, [], ◌∷◌, ◌++◌, is_empty, if◌then◌else◌, All, ◌≡◌, ◌⊎◌, ◌||◌, refl,
  sym, ◌∙◌, fun_ext, arith, Bool-cases, Option-cases, inl, inr,
}
use ax_go.Common.Sorts.{sort-IsSorted, IsSorted, All-sort}
use ax_go.Common.TextOrder.{text_lt-IsOrder}
use ax_go.Schema.Locators.Registered.{add_key-All}
use ax_go.Schema.Locators.{
  Field, element_of, Shape, struct, container, other, Types, sorted_keys, locator_element_type,
  json_field_name, and_then, anonymous_struct_field, append_path, mark, walk_field, visit_field,
  walk_fields, enter, walk_data_locators, data_locators,
}

element_of-more :
    {next more : ℕ → Option ℕ} (t : ℕ) (shape : Shape) (e : ℕ)
    → ((elem : ℕ) → next elem ≡ some e → more elem ≡ some e)
    → element_of t shape next ≡ some e
    → element_of t shape more ≡ some e
element_of-more t (struct fields) e step h = h
element_of-more t (container elem) e step h = step elem h
element_of-more t other e step h = h

-- With enough fuel, more of it makes no difference.
locator_element_type-more :
    (fuel more : ℕ) (types : Types) (t e : ℕ)
    → fuel ≤ more
    → locator_element_type fuel types t ≡ some e
    → locator_element_type more types t ≡ some e
unfolding locator_element_type
locator_element_type-more zero more types t e le h = cc
locator_element_type-more (suc fuel) zero types t e le h = absurd (omega arith)
locator_element_type-more (suc fuel) (suc more) types t e le h =
    element_of-more t (types t) e
      (λ elem h'. locator_element_type-more fuel more types elem e (omega arith) h') h

abbrev pub IsLocator : Text → Type 0
IsLocator locator = (locator ≡ codes "data") ⊎ (has_prefix (codes "data.") locator ≡ true)

-- Where the walk goes, it has a path from the root.
join-IsLocator : (rest : List Text) → IsLocator (join (codes ".") (codes "data" ∷ rest))
unfolding join has_prefix cut_prefix
join-IsLocator [] = inl refl
join-IsLocator (s ∷ rest) = inr refl

mark-found :
    (f : Field) (rest locators : List Text)
    → All IsLocator locators
    → All IsLocator (mark f (codes "data" ∷ rest) locators)
mark-found f rest locators h = elim (Bool-cases (text_eq f.ax_tag (codes "nondeterministic"))) [
  | inr unmarked ↦ rw unmarked h
  | inl marked ↦ rw marked (add_key-All IsLocator _ locators (join-IsLocator rest) h)
]

-- It returns a value, and one of this kind.
abbrev pub Returns : {A : Type 0} → (A → Type 0) → Option A → Type 0
Returns P none = ⊥
Returns P (some a) = P a

pub in_turn :
    {A B : Type 0} (P : A → Type 0) (Q : B → Type 0) (o : Option A) (next : A → Option B)
    → Returns P o
    → ((a : A) → P a → Returns Q (next a))
    → Returns Q (and_then o next)
in_turn P Q none next h found = absurd h
in_turn P Q (some a) next h found = found a h

either :
    {A : Type 0} (P : A → Type 0) (b : Bool) (o o' : Option A)
    → Returns P o
    → Returns P o'
    → Returns P (if b then o else o')
either P true o o' h h' = h
either P false o o' h h' = h'

module _ (types : Types) (element : ℕ → Option ℕ)
    (returns : (t : ℕ) → Returns (λ e. Unit) (element t)) where
  abbrev Walks : (List Text → ℕ → List Text → Option (List Text)) → Type 0
  Walks walk_type =
      (rest : List Text) (t : ℕ) (locators : List Text)
      → All IsLocator locators
      → Returns (All IsLocator) (walk_type (codes "data" ∷ rest) t locators)

  walk_field-found :
      (walk_type : List Text → ℕ → List Text → Option (List Text))
      → Walks walk_type
      → (rest : List Text) (f : Field) (name : Text) (embedded : Bool) (locators : List Text)
      → All IsLocator locators
      → Returns
          (All IsLocator)
          (walk_field types element walk_type (codes "data" ∷ rest) f name embedded locators)
  unfolding append_path
  walk_field-found walk_type walks rest f name true locators h =
      walks rest f.field_type _ (mark-found f rest locators h)
  walk_field-found walk_type walks rest f name false locators h =
      walks (rest ++ (if is_empty name then f.name else name) ∷ []) f.field_type _
        (mark-found f _ locators h)

  anonymous_struct_field-Returns :
      (f : Field) (name : Text)
      → Returns (λ embedded. Unit) (anonymous_struct_field types element f name)
  unfolding anonymous_struct_field
  anonymous_struct_field-Returns f name =
      elim (Bool-cases (not f.anonymous || not (is_empty name))) [
        | inl named ↦ rw named tt
        | inr embedded ↦ rw embedded (
            in_turn (λ e. Unit) (λ embedded. Unit) (element f.field_type) _ (returns f.field_type)
              (λ t h. tt))
      ]

  visit_field-found :
      (walk_type : List Text → ℕ → List Text → Option (List Text))
      → Walks walk_type
      → (rest : List Text) (f : Field) (tag : Text × Bool) (locators : List Text)
      → All IsLocator locators
      → Returns
          (All IsLocator)
          (visit_field types element walk_type (codes "data" ∷ rest) f tag locators)
  visit_field-found walk_type walks rest f (name, true) locators h = h
  visit_field-found walk_type walks rest f (name, false) locators h =
      in_turn (λ embedded. Unit) (All IsLocator) (anonymous_struct_field types element f name) _
        (anonymous_struct_field-Returns f name)
        (λ embedded r. walk_field-found walk_type walks rest f name embedded locators h)

  walk_fields-found :
      (walk_type : List Text → ℕ → List Text → Option (List Text))
      → Walks walk_type
      → (rest : List Text) (fields : List Field) (locators : List Text) → All IsLocator locators
      → Returns
          (All IsLocator)
          (walk_fields types element walk_type (codes "data" ∷ rest) fields locators)
  unfolding walk_fields
  walk_fields-found walk_type walks rest [] locators h = h
  walk_fields-found walk_type walks rest (f ∷ fields) locators h =
      in_turn (All IsLocator) (All IsLocator)
        (if f.exported
          then visit_field types element walk_type (codes "data" ∷ rest) f (json_field_name f)
              locators
          else some locators)
        _
        (either (All IsLocator) f.exported _ _
          (visit_field-found walk_type walks rest f (json_field_name f) locators h) h)
        (λ locators' h'. walk_fields-found walk_type walks rest fields locators' h')

  enter-found :
      (seen : Bool) (shape : Shape) (locators : List Text) (next : List Field → Option (List Text))
      → All IsLocator locators
      → ((fields : List Field) → Returns (All IsLocator) (next fields))
      → Returns (All IsLocator) (enter seen shape locators next)
  enter-found true (struct fields) locators next h found = h
  enter-found false (struct fields) locators next h found = found fields
  enter-found seen (container t) locators next h found = h
  enter-found seen other locators next h found = h

  walk-found : (left : ℕ) (active : List ℕ) → Walks (walk_data_locators types element left active)
  unfolding walk_data_locators
  walk-found zero active rest t locators h = h
  walk-found (suc left) active rest t locators h =
      in_turn (λ e. Unit) (All IsLocator) (element t) _ (returns t)
        (λ e r.
          enter-found _ (types e) locators _ h
            (λ fields. walk_fields-found _ (walk-found left (e ∷ active)) rest fields locators h))

found-IsSorted :
    (o : Option (List Text))
    → Returns (All IsLocator) o
    → Returns
        (λ locators. All IsLocator locators × IsSorted text_lt locators)
        (and_then o (λ locators. some (sorted_keys locators)))
unfolding sorted_keys
found-IsSorted none h = h
found-IsSorted (some locators) h =
    (All-sort text_lt IsLocator locators h, sort-IsSorted text_lt text_lt-IsOrder locators)

enough :
    (fuel more : ℕ) (types : Types)
    → ((t : ℕ) → Returns (λ e. Unit) (locator_element_type fuel types t))
    → fuel ≤ more
    → locator_element_type more types ≡ locator_element_type fuel types
enough fuel more types returns le = fun_ext λ t.
    elim (Option-cases (locator_element_type fuel types t)) [
      | inl stuck ↦ absurd (subst (Returns (λ e. Unit)) stuck (returns t))
      | inr (e, found) ↦ locator_element_type-more fuel more types t e le found ∙ sym found
    ]

-- Where no type is an endless chain of containers, so that with this much fuel the element type of
-- each is found, the walk over a type returns, even when its structs contain each other; it finds
-- sorted locators, each of them `data` or a path below it, and more fuel does not change them.
pub data_locators-IsFound :
    (fuel more : ℕ) (types : Types) (t : Option ℕ)
    → ((t : ℕ) → Returns (λ e. Unit) (locator_element_type fuel types t))
    → fuel ≤ more
    → Returns
        (λ locators. All IsLocator locators × IsSorted text_lt locators)
        (data_locators fuel types t)
      × (data_locators more types t ≡ data_locators fuel types t)
unfolding data_locators
data_locators-IsFound fuel more types none returns le = ((tt, tt), refl)
data_locators-IsFound fuel more types (some t) returns le = (
  found-IsSorted _ (walk-found types (locator_element_type fuel types) returns 64 [] [] t [] tt),
  rw (enough fuel more types returns le) refl,
)
