-- ===== src/Schema/Template/Render.antt =====
-- What RenderTemplate writes, and the size that RenderedLen foretells.
use ax_go.Common.{
  ℕ, zero, suc, ◌+◌, ◌-◌, ◌≤◌, Text, has_prefix, none, some, List, [], ◌∷◌, ◌++◌, length, take,
  drop, take-append-drop, drop-nil, drop-drop, if◌then◌else◌, ◌≡◌, refl, sym, ap, ◌∙◌, arith,
  Option-cases, inl, inr,
}
use mathlib.Core.List.{append_assoc}
use ax_go.Schema.Template.{open_delim, Values, value_of, render_from, render_template}
use ax_go.Schema.Template.Grammar.{placeholder_at, spec_scan}
use ax_go.Schema.Template.Scan.{scan_placeholders_lem}

-- The text read from left to right: a placeholder is replaced by its value, and all else is copied.
-- `skip` characters belong to a placeholder; `copy` are copied unread.
unfoldable pub spec_render : Values → ℕ → ℕ → Text → Text
spec_render values skip copy [] = []
spec_render values (suc skip) copy (c ∷ s) = spec_render values skip copy s
spec_render values zero (suc copy) (c ∷ s) = c ∷ spec_render values 0 copy s
spec_render values zero zero (c ∷ s) = elim (placeholder_at (c ∷ s)) [
  | some name ↦ value_of name values ++ spec_render values (length name + 3) 0 s
  | none ↦ c ∷ spec_render values 0 (if has_prefix open_delim (c ∷ s) then 1 else 0) s
]

take-snoc {ℓ} :
    {A : Type ℓ} (n : ℕ) (xs : List A) (x : A) (rest : List A)
    → drop n xs ≡ x ∷ rest
    → take (n + 1) xs ≡ take n xs ++ x ∷ []
take-snoc zero [] x rest h = cc
take-snoc zero (y ∷ xs) x rest h = cc
take-snoc (suc n) [] x rest h = cc
take-snoc (suc n) (y ∷ xs) x rest h = ground (arith, take-snoc n xs x rest h)

module _ (template : Text) (values : Values) where
  -- What stands between two offsets.
  abbrev slice : ℕ → ℕ → Text
  slice from to = take (to - from) (drop from template)

  slice-snoc :
      (from to : ℕ) (c : ℕ) (s : Text)
      → from ≤ to
      → drop to template ≡ c ∷ s
      → slice from (to + 1) ≡ slice from to ++ c ∷ []
  slice-snoc from to c s le h =
      let e : to + 1 - from ≡ to - from + 1 = omega arith in
      let e' : from + (to - from) ≡ to = omega arith in
      rw e (take-snoc (to - from) (drop from template) c s (rw (drop-drop, e') h))

  drop-next : (pos c : ℕ) (s : Text) → drop pos template ≡ c ∷ s → drop (pos + 1) template ≡ s
  drop-next pos c s h = sym (drop-drop pos 1 template) ∙ ap (λ l. drop 1 l) h

  -- `copied` is what is written of the text before `pos`, of which the last part is literal.
  abbrev Copies : Text → Type 0
  Copies s =
      (copy copied pos : ℕ)
      → copied ≤ pos
      → drop pos template ≡ s
      → render_from template values copied (spec_scan copy pos s)
        ≡ slice copied pos ++ spec_render values 0 copy s

  -- Within a placeholder nothing is written.
  abbrev Skips : Text → Type 0
  Skips s =
      (skip pos : ℕ)
      → drop pos template ≡ s
      → render_from template values (pos + skip) (spec_scan skip pos s)
        ≡ spec_render values skip 0 s

  literal :
      (c : ℕ) (s : Text) (copy copied pos : ℕ)
      → Copies s
      → copied ≤ pos
      → drop pos template ≡ c ∷ s
      → render_from template values copied (spec_scan copy (pos + 1) s)
        ≡ slice copied pos ++ c ∷ spec_render values 0 copy s
  literal c s copy copied pos later le h =
      later copy copied (pos + 1) (omega arith) (drop-next pos c s h)
      ∙ rw (slice-snoc copied pos c s le h) (append_assoc (slice copied pos) (c ∷ []) _)

  Copies-cons : (c : ℕ) (s : Text) → Copies s → Skips s → Copies (c ∷ s)
  unfolding render_from spec_scan spec_render
  Copies-cons c s later skips (suc copy) copied pos le h = literal c s copy copied pos later le h
  Copies-cons c s later skips zero copied pos le h = elim (Option-cases (placeholder_at (c ∷ s))) [
    | inl text ↦
        rw (text, spec_scan, spec_render)
          (literal c s (if has_prefix open_delim (c ∷ s) then 1 else 0) copied pos later le h)
    | inr (name, found) ↦
        let past : pos + 1 + (length name + 3) ≡ pos + length name + 4 = omega arith in
        rw (found, spec_scan, spec_render)
          (ap (λ rest. slice copied pos ++ (value_of name values ++ rest))
            (rw (← past) (skips (length name + 3) (pos + 1) (drop-next pos c s h))))
  ]

  Copies→here :
      (s : Text) (pos : ℕ)
      → Copies s
      → drop pos template ≡ s
      → render_from template values (pos + 0) (spec_scan 0 pos s) ≡ spec_render values 0 0 s
  Copies→here s pos here h =
      let e : pos + 0 ≡ pos = omega arith in
      let e' : ◌≡◌ {A = ℕ} (pos - pos) 0 = omega arith in
      rw e (here 0 pos pos (omega arith) h ∙ rw e')

  Skips-cons : (c : ℕ) (s : Text) → Copies (c ∷ s) → Skips s → Skips (c ∷ s)
  unfolding spec_scan spec_render
  Skips-cons c s here later zero pos h =
      unfold spec_scan spec_render in (Copies→here (c ∷ s) pos here h)
  Skips-cons c s here later (suc skip) pos h =
      let e : pos + suc skip ≡ pos + 1 + skip = omega arith in
      rw e (later skip (pos + 1) (drop-next pos c s h))

  Copies-nil : Copies []
  unfolding render_from spec_scan spec_render
  Copies-nil copy copied pos le h =
      let e : copied + (pos - copied) ≡ pos = omega arith in
      sym (
        ap (λ rest. slice copied pos ++ rest)
          (sym (drop-drop copied (pos - copied) template ∙ rw e h))
        ∙ take-append-drop (pos - copied) (drop copied template))

  Skips-nil : Skips []
  unfolding render_from spec_scan spec_render
  Skips-nil skip pos h = sym (drop-drop pos skip template) ∙ rw h (drop-nil skip)

  renders : (s : Text) → Copies s × Skips s
  renders [] = (Copies-nil, Skips-nil)
  renders (c ∷ s) =
      let (copies, skips) = renders s in
      let here = Copies-cons c s copies skips in (here, Skips-cons c s here skips)

-- Rendering reads the template once, from left to right: each placeholder gives its value, every
-- other character is copied, and no value is read again.
pub render_template_lem :
    (template : Text) (values : Values)
    → render_template template values ≡ spec_render values 0 0 template
unfolding render_template
render_template_lem template values =
    rw (scan_placeholders_lem template)
      ((renders template values template).0 0 0 0 (omega arith) refl)
