-- ===== src/Apidiff/Report/Parse.antt =====
-- A report in the layout of go-apidiff is read back as the sections that it was printed from.
use mathlib.Core.List.{append-nil, append_assoc}
use ax_go.Common.{
  Text, codes, text_eq, trim_space, trim_left, trim_right, cons_unless, is_space, cut_prefix, false,
  some, List, [], ◌∷◌, ◌++◌, map, All, ◌≡◌, ◌≢◌, refl, ap, sym, ◌∙◌, arith,
}
use ax_go.Apidiff.Report.{
  ChangeKind, kind_none, kind_incompatible, kind_compatible, Section, Reading, unread, sections_of,
  has_leading_space, incompatible_heading, compatible_heading, read_line, read_lines, parse_report,
}

-- The line of an entry, and the lines under a heading, which go-apidiff prints if there are any.
abbrev pub print_item : Text → Text
print_item item = codes "  - " ++ item

abbrev pub print_changes : Text → List Text → List Text
print_changes heading [] = []
print_changes heading (item ∷ items) = (codes "  " ++ heading) ∷ map print_item (item ∷ items)

abbrev pub print_section : Section → List Text
print_section s =
    s.pkg
    ∷ (print_changes incompatible_heading s.incompatible
        ++ print_changes compatible_heading s.compatible)

abbrev pub print_report : List Section → List Text
print_report [] = []
print_report (s ∷ sections) = print_section s ++ print_report sections

-- An entry is not empty and does not end in space; a package path stands at the start of its line.
abbrev pub IsItem : Text → Type 0
IsItem item = (item ≢ []) × (trim_right is_space item ≡ item)

abbrev pub IsPackage : Text → Type 0
IsPackage pkg = (pkg ≢ []) × (trim_space pkg ≡ pkg) × (has_leading_space pkg ≡ false)

abbrev pub IsPrinted : Section → Type 0
IsPrinted s = IsPackage s.pkg × All IsItem s.incompatible × All IsItem s.compatible

trim_item : (item : Text) → IsItem item → trim_space (print_item item) ≡ codes "- " ++ item
unfolding trim_space trim_left trim_right cons_unless is_space
trim_item [] h = absurd (h.0 refl)
trim_item (c ∷ item) h = ground (arith, h.1)

abbrev reading : List Section → Section → ChangeKind → Reading
reading closed s kind = record { closed = closed; cur = some s; kind = kind }

read_incompatible :
    (closed : List Section) (s : Section) (item : Text)
    → IsItem item
    → read_line (reading closed s kind_incompatible) (print_item item)
      ≡ reading closed (record s { incompatible = s.incompatible ++ item ∷ [] }) kind_incompatible
unfolding read_line has_leading_space text_eq cut_prefix
read_incompatible closed s item h = rw (trim_item item h) refl

read_compatible :
    (closed : List Section) (s : Section) (item : Text)
    → IsItem item
    → read_line (reading closed s kind_compatible) (print_item item)
      ≡ reading closed (record s { compatible = s.compatible ++ item ∷ [] }) kind_compatible
unfolding read_line has_leading_space text_eq cut_prefix
read_compatible closed s item h = rw (trim_item item h) refl

read_lines-append :
    (r : Reading) (xs ys : List Text) → read_lines r (xs ++ ys) ≡ read_lines (read_lines r xs) ys
unfolding read_lines
read_lines-append r [] ys = refl
read_lines-append r (x ∷ xs) ys = read_lines-append (read_line r x) xs ys

items_incompatible :
    (closed : List Section) (s : Section) (items : List Text)
    → All IsItem items
    → read_lines (reading closed s kind_incompatible) (map print_item items)
      ≡ reading closed (record s { incompatible = s.incompatible ++ items }) kind_incompatible
unfolding read_lines
items_incompatible closed s [] h = ground (arith, append-nil s.incompatible)
items_incompatible closed s (item ∷ items) h =
    ap (λ r. read_lines r (map print_item items)) (read_incompatible closed s item h.0)
    ∙ (items_incompatible closed (record s { incompatible = s.incompatible ++ item ∷ [] }) items h.1
        ∙ ap (λ l. reading closed (record s { incompatible = l }) kind_incompatible)
            (append_assoc s.incompatible (item ∷ []) items))

items_compatible :
    (closed : List Section) (s : Section) (items : List Text)
    → All IsItem items
    → read_lines (reading closed s kind_compatible) (map print_item items)
      ≡ reading closed (record s { compatible = s.compatible ++ items }) kind_compatible
unfolding read_lines
items_compatible closed s [] h = ground (arith, append-nil s.compatible)
items_compatible closed s (item ∷ items) h =
    ap (λ r. read_lines r (map print_item items)) (read_compatible closed s item h.0)
    ∙ (items_compatible closed (record s { compatible = s.compatible ++ item ∷ [] }) items h.1
        ∙ ap (λ l. reading closed (record s { compatible = l }) kind_compatible)
            (append_assoc s.compatible (item ∷ []) items))

read_headings :
    (closed : List Section) (s : Section) (k : ChangeKind)
    → (read_line (reading closed s k) (codes "  " ++ incompatible_heading)
        ≡ reading closed s kind_incompatible)
      × (read_line (reading closed s k) (codes "  " ++ compatible_heading)
          ≡ reading closed s kind_compatible)
unfolding read_line has_leading_space text_eq trim_space trim_left trim_right cons_unless is_space
read_headings closed s k = (refl, refl)

changes_incompatible :
    (closed : List Section) (s : Section) (k : ChangeKind) (items : List Text)
    → All IsItem items
    → (k' : ChangeKind) × (read_lines
          (reading closed s k)
          (print_changes incompatible_heading items)
        ≡ reading closed (record s { incompatible = s.incompatible ++ items }) k')
unfolding read_lines
changes_incompatible closed s k [] h = (k, ground (arith, append-nil s.incompatible))
changes_incompatible closed s k (item ∷ items) h = (
  kind_incompatible,
  ap (λ r. read_lines r (map print_item (item ∷ items))) (read_headings closed s k).0
      ∙ items_incompatible closed s (item ∷ items) h,
)

changes_compatible :
    (closed : List Section) (s : Section) (k : ChangeKind) (items : List Text)
    → All IsItem items
    → (k' : ChangeKind) × (read_lines (reading closed s k) (print_changes compatible_heading items)
        ≡ reading closed (record s { compatible = s.compatible ++ items }) k')
unfolding read_lines
changes_compatible closed s k [] h = (k, ground (arith, append-nil s.compatible))
changes_compatible closed s k (item ∷ items) h = (
  kind_compatible,
  ap (λ r. read_lines r (map print_item (item ∷ items))) (read_headings closed s k).1
      ∙ items_compatible closed s (item ∷ items) h,
)

read_package :
    (r : Reading) (pkg : Text)
    → IsPackage pkg
    → read_line r pkg
      ≡ reading (sections_of r) (record { pkg = pkg; incompatible = []; compatible = [] }) kind_none
unfolding read_line
read_package r [] h = absurd (h.0 refl)
read_package r (c ∷ pkg) h = ground (arith, h.1, h.2)

read_section :
    (r : Reading) (s : Section)
    → IsPrinted s
    → sections_of (read_lines r (print_section s)) ≡ sections_of r ++ s ∷ []
unfolding read_lines
read_section r s (p, i, c) =
    let closed = sections_of r in
    let bare : Section = record { pkg = s.pkg; incompatible = []; compatible = [] } in
    let first = changes_incompatible closed bare kind_none s.incompatible i in
    let second =
      changes_compatible closed (record bare { incompatible = s.incompatible }) first.0 s.compatible
        c in
    ap sections_of (
      ap
        (λ r'. read_lines r' (
          print_changes incompatible_heading s.incompatible
          ++ print_changes compatible_heading s.compatible))
        (read_package r s.pkg p)
      ∙ read_lines-append (reading closed bare kind_none)
          (print_changes incompatible_heading s.incompatible) _
      ∙ ap (λ r'. read_lines r' (print_changes compatible_heading s.compatible)) first.1
      ∙ second.1)

read_report :
    (r : Reading) (sections : List Section)
    → All IsPrinted sections
    → sections_of (read_lines r (print_report sections)) ≡ sections_of r ++ sections
unfolding read_lines
read_report r [] h = sym (append-nil (sections_of r))
read_report r (s ∷ sections) h =
    ap sections_of (read_lines-append r (print_section s) (print_report sections))
    ∙ read_report (read_lines r (print_section s)) sections h.1
    ∙ ap (λ l. l ++ sections) (read_section r s h.0)
    ∙ append_assoc (sections_of r) (s ∷ []) sections

-- Sections printed in the layout of go-apidiff are read back as they are: no finding is lost, moved
-- to the other heading or to another package. Package paths and findings are those that a line can
-- carry: not empty and without a space that trimming removes.
pub parse_report-print_report :
    (sections : List Section)
    → All IsPrinted sections
    → parse_report (print_report sections) ≡ sections
unfolding parse_report
parse_report-print_report sections h = read_report unread sections h
