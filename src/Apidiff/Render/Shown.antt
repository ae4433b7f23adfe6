-- ===== src/Apidiff/Render/Shown.antt =====
-- Every finding of a section is in the summary, excused or not.
use mathlib.Core.List.{append_assoc}
use ax_go.Common.{
  Text, codes, Bool, true, false, ◌||◌, ◌&&◌, not, List, [], ◌∷◌, ◌++◌, is_empty, keep, keep-append,
  ◌≡◌, refl, ap, sym, ◌∙◌, ◌⊎◌, inl, inr, arith, Bool-cases,
}
use ax_go.Apidiff.Finding.{is_type_relocation}
use ax_go.Apidiff.Report.{Section, relocated, has_any_change, has_breaking, has_relocations}
use ax_go.Apidiff.Render.{
  item_line, item_lines, write_changes, render_section, render_sections, render, comment_marker,
  title, notes,
}

-- The piece stands somewhere in the text.
pub record IsIn (piece text : Text) : Type 0 where
  pub before : Text
  pub after : Text
  pub split : text ≡ before ++ (piece ++ after)

append-IsIn : (piece t u : Text) → IsIn piece t → IsIn piece (t ++ u)
append-IsIn piece t u h = record {
  before = h.before;
  after = h.after ++ u;
  split =
      ap (λ s. s ++ u) h.split
      ∙ append_assoc h.before (piece ++ h.after) u
      ∙ ap (λ s. h.before ++ s) (append_assoc piece h.after u);
}

IsIn-append : (piece t u : Text) → IsIn piece u → IsIn piece (t ++ u)
IsIn-append piece t u h = record {
  before = t ++ h.before;
  after = h.after;
  split = ap (λ s. t ++ s) h.split ∙ sym (append_assoc t h.before (piece ++ h.after));
}

item_lines-IsIn :
    (item : Text) (xs ys : List Text) → IsIn (item_line item) (item_lines (xs ++ item ∷ ys))
unfolding item_lines
item_lines-IsIn item [] ys = record { before = []; after = item_lines ys; split = refl }
item_lines-IsIn item (x ∷ xs) ys =
    IsIn-append (item_line item) (item_line x) (item_lines (xs ++ item ∷ ys))
      (item_lines-IsIn item xs ys)

not_empty {ℓ} : {A : Type ℓ} (xs ys : List A) (x : A) → is_empty (xs ++ x ∷ ys) ≡ false
not_empty [] ys x = refl
not_empty (y ∷ xs) ys x = refl

write_changes-IsIn :
    (label item : Text) (xs ys : List Text)
    → IsIn (item_line item) (write_changes label (xs ++ item ∷ ys))
unfolding write_changes
write_changes-IsIn label item xs ys = rw (not_empty xs ys item) (
    IsIn-append _ (codes "**") _ (
      IsIn-append _ label _ (
        IsIn-append _ (codes ":**\n\n") _
          (append-IsIn _ (item_lines (xs ++ item ∷ ys)) _ (item_lines-IsIn item xs ys)))))

kept_at :
    (p : Text → Bool) (xs ys : List Text) (item : Text)
    → p item ≡ true
    → keep p (xs ++ item ∷ ys) ≡ keep p xs ++ item ∷ keep p ys
kept_at p xs ys item h = keep-append p xs (item ∷ ys) ∙ ground arith

render_section-IsIn :
    (pkg item : Text) (xs ys compatible : List Text)
    → IsIn (item_line item) (
        render_section
          (record { pkg = pkg; incompatible = xs ++ item ∷ ys; compatible = compatible }))
unfolding render_section relocated
render_section-IsIn pkg item xs ys compatible = rw (not_empty xs ys item) (
    IsIn-append _ (codes "### `") _ (
      IsIn-append _ pkg _
        (IsIn-append _ (codes "`\n\n") _ (shown (Bool-cases (is_type_relocation item))))))
  where
    shown :
        (is_type_relocation item ≡ true) ⊎ (is_type_relocation item ≡ false)
        → IsIn (item_line item) (
            write_changes
              (codes "Incompatible changes")
              (keep (λ i. not (is_type_relocation i)) (xs ++ item ∷ ys))
            ++ (write_changes
                  (codes "Type relocations (not gated)")
                  (keep is_type_relocation (xs ++ item ∷ ys))
                ++ write_changes (codes "Compatible changes") compatible))
    shown (inl moved) = IsIn-append _ (write_changes (codes "Incompatible changes") _) _ (
        append-IsIn _
          (write_changes (codes "Type relocations (not gated)")
            (keep is_type_relocation (xs ++ item ∷ ys)))
          (write_changes (codes "Compatible changes") compatible)
          (rw (kept_at is_type_relocation xs ys item moved)
            (write_changes-IsIn (codes "Type relocations (not gated)") item _ _)))
    shown (inr broken) =
        append-IsIn _
          (write_changes (codes "Incompatible changes")
            (keep (λ i. not (is_type_relocation i)) (xs ++ item ∷ ys)))
          (write_changes (codes "Type relocations (not gated)")
              (keep is_type_relocation (xs ++ item ∷ ys))
            ++ write_changes (codes "Compatible changes") compatible)
          (rw (kept_at (λ i. not (is_type_relocation i)) xs ys item (ap not broken))
            (write_changes-IsIn (codes "Incompatible changes") item _ _))

render_section_compatible-IsIn :
    (pkg item : Text) (incompatible xs ys : List Text)
    → IsIn (item_line item) (
        render_section
          (record { pkg = pkg; incompatible = incompatible; compatible = xs ++ item ∷ ys }))
unfolding render_section
render_section_compatible-IsIn pkg item incompatible xs ys =
    rw (and_false (is_empty incompatible) _ (not_empty xs ys item)) (
      IsIn-append _ (codes "### `") _ (
        IsIn-append _ pkg _ (
          IsIn-append _ (codes "`\n\n") _ (
            IsIn-append _ (write_changes (codes "Incompatible changes") _) _ (
              IsIn-append _ (write_changes (codes "Type relocations (not gated)") _) _
                (write_changes-IsIn (codes "Compatible changes") item xs ys))))))
  where
    and_false : (a b : Bool) → b ≡ false → (a && b) ≡ false
    and_false a b h = ground arith

render_sections-IsIn :
    (piece : Text) (before after : List Section) (s : Section)
    → IsIn piece (render_section s)
    → IsIn piece (render_sections (before ++ s ∷ after))
unfolding render_sections
render_sections-IsIn piece [] after s h =
    append-IsIn piece (render_section s) (render_sections after) h
render_sections-IsIn piece (b ∷ before) after s h =
    IsIn-append piece (render_section b) _ (render_sections-IsIn piece before after s h)

some_change :
    (before after : List Section) (s : Section)
    → (not (is_empty s.incompatible) || not (is_empty s.compatible)) ≡ true
    → has_any_change (before ++ s ∷ after) ≡ true
unfolding has_any_change
some_change [] after s h = ground arith
some_change (b ∷ before) after s h = ground (arith, some_change before after s h)

render_around-IsIn :
    (piece : Text) (before after : List Section) (s : Section)
    → (not (is_empty s.incompatible) || not (is_empty s.compatible)) ≡ true
    → IsIn piece (render_section s)
    → IsIn piece (render (before ++ s ∷ after))
unfolding render
render_around-IsIn piece before after s some_item h = rw (some_change before after s some_item) (
    IsIn-append piece comment_marker _ (
      IsIn-append piece title _ (
        IsIn-append piece (notes (has_breaking _) (has_relocations _)) _
          (render_sections-IsIn piece before after s h))))

-- No finding is dropped from the summary: an incompatible finding of a public section stands there
-- on a line of its own whether it is a break or an excused relocation, and so does a compatible one.
pub render-IsIn :
    (before after : List Section) (pkg item : Text) (xs ys others : List Text)
    → IsIn (item_line item) (
        render (
          before
          ++ record { pkg = pkg; incompatible = xs ++ item ∷ ys; compatible = others } ∷ after))
      × IsIn (item_line item) (
          render (
            before
            ++ record { pkg = pkg; incompatible = others; compatible = xs ++ item ∷ ys } ∷ after))
render-IsIn before after pkg item xs ys others =
    let some_item = not_empty xs ys item in
    (
      render_around-IsIn (item_line item) before after _ (ground arith)
          (render_section-IsIn pkg item xs ys others),
      render_around-IsIn (item_line item) before after _ (ground arith)
          (render_section_compatible-IsIn pkg item others xs ys),
    )
