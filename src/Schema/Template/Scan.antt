-- ===== src/Schema/Template/Scan.antt =====
-- The scan finds the placeholders of the grammar.
use ax_go.Common.{
  ℕ, zero, suc, ◌+◌, ◌≤◌, ◌<◌, Text, has_prefix, true, Option, none, some, List, length, take, drop,
  drop-drop, length-drop, ◌≡◌, refl, sym, ◌∙◌, arith, Bool-cases, inl, inr,
}
use ax_go.Common.Index.{index, has_prefix-drop-index}
use ax_go.Schema.Template.{
  open_delim, close_delim, valid_name, Placeholder, take_span, at_close, at_open, scan_from,
  scan_placeholders,
}
use ax_go.Schema.Template.Grammar.{
  spec_scan, spec_scan-to_open, spec_scan-no_open, spec_scan-no_close, no_close-open,
}
use ax_go.Schema.Template.Resume.{delim_fits, spec_scan-name, spec_scan-no_name, resume_lem}

module _ (template : Text) where
  -- `next` is the grammar from every later position on.
  abbrev Continues : ℕ → (ℕ → List Placeholder) → Type 0
  Continues pos next =
      (pos' : ℕ)
      → pos < pos'
      → pos' ≤ length template
      → next pos' ≡ spec_scan 0 pos' (drop pos' template)

  take_span_lem :
      (start n : ℕ) (next : ℕ → List Placeholder)
      → has_prefix open_delim (drop start template) ≡ true
      → start + 2 ≤ length template
      → index close_delim (drop (start + 2) template) ≡ some n
      → Continues start next
      → take_span start n (take n (drop (start + 2) template)) next
        ≡ spec_scan 0 start (drop start template)
  take_span_lem start n next here fits closes later =
      let two : drop 2 (drop start template) ≡ drop (start + 2) template =
        drop-drop start 2 template in
      elim (Bool-cases (valid_name (take n (drop (start + 2) template)))) [
        | inl valid ↦
            let room = delim_fits b'}' (drop (start + 2) template) n closes in
            ground (
              arith,
              spec_scan-name n start (drop start template),
              drop-drop (start + 2) (n + 2) template,
              length-drop (start + 2) template,
              later (start + 2 + n + 2),
            )
        | inr invalid ↦
            let (l, goes_on, same, le) =
              resume_lem n (drop (start + 2) template) closes (start + 2) in
            let room = delim_fits b'}' (drop (start + 2) template) n closes in
            ground (
              arith,
              spec_scan-no_name n start (drop start template),
              drop-drop (start + 2) l template,
              length-drop (start + 2) template,
              later (start + 2 + l),
            )
      ]

  at_close_lem :
      (start : ℕ) (o : Option ℕ) (next : ℕ → List Placeholder)
      → has_prefix open_delim (drop start template) ≡ true
      → start + 2 ≤ length template
      → index close_delim (drop (start + 2) template) ≡ o
      → Continues start next
      → at_close template start o next ≡ spec_scan 0 start (drop start template)
  at_close_lem start none next here fits closes later =
      let none_left = no_close-open (drop start template) here (rw (drop-drop start 2) closes) in
      sym (spec_scan-no_close start 0 (drop start template) none_left)
  at_close_lem start (some n) next here fits closes later =
      take_span_lem start n next here fits closes later

  at_open_lem :
      (pos : ℕ) (o : Option ℕ) (next : ℕ → List Placeholder)
      → pos ≤ length template
      → index open_delim (drop pos template) ≡ o
      → Continues pos next
      → at_open template pos o next ≡ spec_scan 0 pos (drop pos template)
  at_open_lem pos none next le h later = sym (spec_scan-no_open pos (drop pos template) h)
  at_open_lem pos (some start) next le h later =
      let there : has_prefix open_delim (drop (pos + start) template) ≡ true =
        rw (← drop-drop pos start template)
          (has_prefix-drop-index open_delim (drop pos template) start h) in
      let room : pos + start + 2 ≤ length template =
        omega (arith, delim_fits b'{' (drop pos template) start h, length-drop pos template) in
      at_close_lem (pos + start) _ next there room refl
        (λ pos' up le'. later pos' (omega arith) le')
      ∙ rw (← drop-drop pos start template)
          (sym (spec_scan-to_open pos start (drop pos template) h))

  scan_from_lem :
      (fuel pos : ℕ)
      → pos ≤ length template
      → length template < fuel + pos
      → scan_from fuel template pos ≡ spec_scan 0 pos (drop pos template)
  unfolding scan_from
  scan_from_lem zero pos le f = absurd (omega arith)
  scan_from_lem (suc fuel) pos le f =
      at_open_lem pos _ _ le refl (λ pos' up le'. scan_from_lem fuel pos' le' (omega arith))

-- The scan gives exactly the placeholders of the grammar, with their offsets: its jumps over runs
-- of braces skip none, and the fuel is enough.
pub scan_placeholders_lem : (template : Text) → scan_placeholders template ≡ spec_scan 0 0 template
unfolding scan_placeholders
scan_placeholders_lem template =
    scan_from_lem template (length template + 1) 0 (omega arith) (omega arith)
