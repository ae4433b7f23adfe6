-- ===== src/Schema/Template/Size.antt =====
-- The size that RenderedLen foretells.
use ax_go.Common.{
  ℕ, zero, suc, ◌+◌, ◌-◌, ◌%◌, ◌≤◌, ◌<◌, Text, has_prefix, List, [], ◌∷◌, ◌++◌, length, take, drop,
  length-drop, length-take, length-append, if◌then◌else◌, ◌≡◌, arith, Option-cases, inl, inr,
}
use ax_go.Common.Words.{word}
use ax_go.Schema.Template.{
  open_delim, Placeholder, scan_placeholders, Values, value_of, render_from, render_template,
  len_from, rendered_len,
}
use ax_go.Schema.Template.Grammar.{placeholder_at, spec_scan, placeholder_at-fits, double_fits}
use ax_go.Schema.Template.Scan.{scan_placeholders_lem}

-- The spans follow each other from `from` on, and lie in the first `size` bytes.
abbrev Spans : ℕ → ℕ → List Placeholder → Type 0
Spans size from [] = from ≤ size
Spans size from (p ∷ ps) = (from ≤ p.start) × (p.start ≤ p.end) × Spans size p.end ps

Spans-start :
    (size from from' : ℕ) (ps : List Placeholder)
    → from ≤ from'
    → Spans size from' ps
    → Spans size from ps
Spans-start size from from' [] le h = omega arith
Spans-start size from from' (p ∷ ps) le h = (omega arith, h.1, h.2)

Spans-le : (size from : ℕ) (ps : List Placeholder) → Spans size from ps → from ≤ size
Spans-le size from [] h = h
Spans-le size from (p ∷ ps) h = omega (arith, Spans-le size p.end ps h.2)

spec_scan-Spans :
    (size skip pos : ℕ) (s : Text)
    → pos + length s ≡ size
    → skip ≤ length s
    → Spans size (pos + skip) (spec_scan skip pos s)
unfolding spec_scan
spec_scan-Spans size skip pos [] e le = omega arith
spec_scan-Spans size (suc skip) pos (c ∷ s) e le =
    let same : pos + suc skip ≡ pos + 1 + skip = omega arith in
    rw same (spec_scan-Spans size skip (pos + 1) s (omega arith) (omega arith))
spec_scan-Spans size zero pos (c ∷ s) e le = elim (Option-cases (placeholder_at (c ∷ s))) [
  | inl text ↦
      let copy : ℕ = if has_prefix open_delim (c ∷ s) then 1 else 0 in
      let room : copy ≤ length s = ground (arith, double_fits b'{' (c ∷ s)) in
      rw (text, spec_scan)
        (Spans-start size (pos + 0) (pos + 1 + copy) _ (omega arith)
          (spec_scan-Spans size copy (pos + 1) s (omega arith) room))
  | inr (name, found) ↦
      let room = placeholder_at-fits (c ∷ s) name found in
      let past : pos + 1 + (length name + 3) ≡ pos + length name + 4 = omega arith in
      rw (found, spec_scan)
        (
          omega arith,
          omega arith,
          rw (← past) (
              spec_scan-Spans size (length name + 3) (pos + 1) s (omega arith)
                (omega (arith, room))),
        )
]

module _ (template : Text) (values : Values) where
  -- What is counted and what is written grow by the same amount.
  len_from_lem :
      (ps : List Placeholder) (total copied : ℕ)
      → Spans (length template) copied ps
      → (len_from values total ps + (length template - copied)) % word
        ≡ (total + length (render_from template values copied ps)) % word
  unfolding len_from render_from
  len_from_lem [] total copied h = omega (arith, length-drop copied template)
  len_from_lem (p ∷ ps) total copied h =
      let v = value_of p.name values in
      let total' = (total + (length v + word - (p.end - p.start) % word)) % word in
      let rest = render_from template values p.end ps in
      omega (
        arith,
        len_from_lem ps total' p.end h.2,
        length-append (take (p.start - copied) (drop copied template)) (v ++ rest),
        length-append v rest,
        length-take (p.start - copied) (drop copied template),
        length-drop copied template,
        Spans-le (length template) p.end ps h.2,
      )

len_from-lt :
    (values : Values) (ps : List Placeholder) (total : ℕ)
    → total < word
    → len_from values total ps < word
unfolding len_from
len_from-lt values [] total h = h
len_from-lt values (p ∷ ps) total h = len_from-lt values ps _ (omega arith)

pub scan_placeholders-Spans :
    (template : Text) → Spans (length template) 0 (scan_placeholders template)
scan_placeholders-Spans template =
    rw (scan_placeholders_lem template)
      (spec_scan-Spans (length template) 0 0 template (omega arith) (omega arith))

-- RenderedLen is the length of what RenderTemplate writes, as an int64: the two agree in all 64
-- bits, whatever the template and the values are.
pub rendered_len-render_template :
    (template : Text) (values : Values)
    → rendered_len template values ≡ length (render_template template values) % word
unfolding rendered_len render_template
rendered_len-render_template template values =
    let ps = scan_placeholders template in
    omega (
      arith,
      len_from_lem template values ps (length template % word) 0 (scan_placeholders-Spans template),
      len_from-lt values ps (length template % word) (omega arith),
    )
