-- ===== src/Schema/Template/Resume.antt =====
-- One round of the scan beside the grammar: a span that is a name is taken, another is passed over,
-- and the jump of `lastReachableOpen` skips nothing that the grammar would take.
use ax_go.Common.{
  ℕ, zero, suc, ◌+◌, ◌-◌, ◌≤◌, ◌<◌, Text, has_prefix, cut_prefix, true, false, Option, none, some,
  [], ◌∷◌, length, take, drop, drop-drop, drop-take, length-take, length-drop, ◌≡◌, refl, ap, ◌∙◌,
  arith, Option-cases, inl, inr,
}
use ax_go.Common.Index.{index, has_prefix-drop-index, index-le}
use ax_go.Schema.Template.{
  open_delim, close_delim, all_name_runes, valid_name, last_open_from, last_reachable_open, resume,
}
use ax_go.Schema.Template.Grammar.{
  placeholder_at-close, spec_scan, spec_scan_skip, spec_scan-to_open, open-not_name, double_fits,
}

-- An instance of a delimiter has room for its two characters.
pub delim_fits : (d : ℕ) (s : Text) (i : ℕ) → index (d ∷ d ∷ []) s ≡ some i → i + 2 ≤ length s
delim_fits d s i h =
    let there = double_fits d (drop i s) (has_prefix-drop-index (d ∷ d ∷ []) s i h) in
    omega (arith, there, length-drop i s)

pub spec_scan-name :
    (n pos : ℕ) (s : Text)
    → has_prefix open_delim s ≡ true
    → index close_delim (drop 2 s) ≡ some n
    → valid_name (take n (drop 2 s)) ≡ true
    → spec_scan 0 pos s
      ≡ record { start = pos; end = pos + 2 + n + 2; name = take n (drop 2 s) }
        ∷ spec_scan 0 (pos + 2 + n + 2) (drop (n + 2) (drop 2 s))
unfolding spec_scan
spec_scan-name n pos [] h c v = absurd (omega (arith, double_fits b'{' [] h))
spec_scan-name n pos (x ∷ s) h c v =
    let size : length (take n (drop 1 s)) ≡ n =
      omega (arith, length-take n (drop 1 s), index-le close_delim (drop 1 s) n c) in
    ground (
      arith,
      placeholder_at-close n (x ∷ s),
      size,
      spec_scan_skip (n + 3) (pos + 1) s,
      drop-drop 1 (n + 2) s,
    )

pub spec_scan-no_name :
    (n pos : ℕ) (s : Text)
    → has_prefix open_delim s ≡ true
    → index close_delim (drop 2 s) ≡ some n
    → valid_name (take n (drop 2 s)) ≡ false
    → spec_scan 0 pos s ≡ spec_scan 0 (pos + 2) (drop 2 s)
unfolding spec_scan
spec_scan-no_name n pos [] h c v = refl
spec_scan-no_name n pos (x ∷ s) h c v =
    ground (arith, placeholder_at-close n (x ∷ s), spec_scan_skip 1 (pos + 1) s)

-- A span that holds a "{{" is no name.
open-not_valid :
    (j : ℕ) (span : Text) → index open_delim span ≡ some j → all_name_runes span ≡ false
unfolding index all_name_runes
open-not_valid j [] h = absurd (omega (arith, delim_fits b'{' [] j h))
open-not_valid zero (c ∷ span) h =
    ground (arith, open-not_name c span, Option-cases (index open_delim span))
open-not_valid (suc j) (c ∷ span) h = ground (arith, open-not_valid j span)

index-suffix :
    (sep : Text) (n k : ℕ) (s : Text)
    → index sep s ≡ some n
    → k ≤ n
    → index sep (drop k s) ≡ some (n - k)
unfolding index
index-suffix sep n zero s h le = h ∙ ap (λ (k : ℕ). some k) (omega arith)
index-suffix sep n (suc k) [] h le = ground arith
index-suffix sep zero (suc k) (c ∷ s) h le = absurd (omega arith)
index-suffix sep (suc n) (suc k) (c ∷ s) h le =
    let e : suc n - suc k ≡ n - k = omega arith in
    rw e (ground (arith, Option-cases (index sep s), index-suffix sep n k s))

one_short : (c : ℕ) → index open_delim (c ∷ []) ≡ none
unfolding index has_prefix cut_prefix
one_short c = ground arith

two_enough :
    (m c : ℕ) (s : Text)
    → has_prefix open_delim (c ∷ take (suc m) s) ≡ has_prefix open_delim (c ∷ s)
unfolding has_prefix cut_prefix
two_enough m c [] = refl
two_enough m c (d ∷ s) = ground arith

-- The first instance in a prefix is the first one of the whole.
index-open-take :
    (m j : ℕ) (s : Text) → index open_delim (take m s) ≡ some j → index open_delim s ≡ some j
unfolding index
index-open-take zero j s h = absurd (omega (arith, delim_fits b'{' [] j h))
index-open-take (suc m) j [] h = h
index-open-take (suc zero) j (c ∷ s) h = ground (arith, one_short c)
index-open-take (suc (suc m)) j (c ∷ s) h = ground (
  arith,
  two_enough m c s,
  Option-cases (index open_delim (take (suc m) s)),
  Option-cases (index open_delim s),
  index-open-take (suc m) (j - 1) s,
)

-- `span` is what stands between a "{{" and the next "}}" of `body`.
module _ (n : ℕ) (body : Text) (closes : index close_delim body ≡ some n) where
  abbrev span : Text
  span = take n body

  -- From an offset in the span on, the text of the span that is left is the next span.
  span_left : (i : ℕ) → drop i span ≡ take (n - i) (drop i body)
  span_left i = drop-take i n body

  open_in_span :
      (i j : ℕ)
      → index open_delim (drop i span) ≡ some j
      → (i + j + 2 ≤ n) × (index open_delim (drop i body) ≡ some j)
  open_in_span i j h =
      let fits = delim_fits b'{' (drop i span) j h in
      (
        omega (arith, fits, length-drop i span, length-take n body),
        index-open-take (n - i) j (drop i body) (rw (← span_left i) h),
      )

  to_open :
      (i j p : ℕ)
      → index open_delim (drop i span) ≡ some j
      → spec_scan 0 (p + i) (drop i body) ≡ spec_scan 0 (p + (i + j)) (drop (i + j) body)
  to_open i j p h =
      let e : p + i + j ≡ p + (i + j) = omega arith in
      spec_scan-to_open (p + i) j (drop i body) (open_in_span i j h).1 ∙ rw (e, drop-drop i j body)

  -- A "{{" with another one behind it in the span is passed over.
  past_open :
      (i j k p : ℕ)
      → index open_delim (drop i span) ≡ some j
      → index open_delim (drop (i + j + 2) span) ≡ some k
      → spec_scan 0 (p + (i + j)) (drop (i + j) body)
        ≡ spec_scan 0 (p + (i + j + 2)) (drop (i + j + 2) body)
  unfolding valid_name
  past_open i j k p h h' =
      let (fits, found) = open_in_span i j h in
      let two : drop 2 (drop (i + j) body) ≡ drop (i + j + 2) body = drop-drop (i + j) 2 body in
      let left = index-suffix close_delim n (i + j + 2) body closes fits in
      let invalid : all_name_runes (take (n - (i + j + 2)) (drop (i + j + 2) body)) ≡ false =
        open-not_valid k _ (rw (← span_left (i + j + 2)) h') in
      spec_scan-no_name (n - (i + j + 2)) (p + (i + j)) (drop (i + j) body)
        (rw (← drop-drop i j body) (has_prefix-drop-index open_delim (drop i body) j found))
        (rw two left) (rw two (ground arith))
      ∙ rw two (ap (λ (q : ℕ). spec_scan 0 q (drop (i + j + 2) body)) (omega arith))

  last_open_from_stop :
      (fuel i : ℕ) (last : Option ℕ)
      → index open_delim (drop i span) ≡ none
      → last_open_from fuel span i last ≡ last
  unfolding last_open_from
  last_open_from_stop zero i last h = refl
  last_open_from_stop (suc fuel) i last h = ground arith

  -- The search ends at an offset to which the grammar gets as well.
  last_open_from_lem :
      (fuel i j p : ℕ) (last : Option ℕ)
      → n < fuel + i
      → index open_delim (drop i span) ≡ some j
      → (l : ℕ) × (last_open_from fuel span i last ≡ some l)
        × (spec_scan 0 (p + i) (drop i body) ≡ spec_scan 0 (p + l) (drop l body))
        × (l + 2 ≤ n)
  unfolding last_open_from
  last_open_from_lem zero i j p last f h = absurd (omega (arith, open_in_span i j h))
  last_open_from_lem (suc fuel) i j p last f h =
      elim (Option-cases (index open_delim (drop (i + j + 2) span))) [
        | inl ends ↦ (
          i + j,
          rw (h, last_open_from) (last_open_from_stop fuel (i + j + 2) (some (i + j)) ends),
          to_open i j p h,
          (open_in_span i j h).0,
        )
        | inr (k, more) ↦
            let (l, found, same, fits) =
              last_open_from_lem fuel (i + j + 2) k p (some (i + j)) (omega arith) more in
            (
              l,
              rw (h, last_open_from) found,
              to_open i j p h ∙ past_open i j k p h more ∙ same,
              fits,
            )
      ]

  -- Going on where the source does gives what going on behind the "{{" gives.
  pub resume_lem :
      (p : ℕ)
      → (l : ℕ) × (resume p (last_reachable_open span) ≡ p + l)
        × (spec_scan 0 p body ≡ spec_scan 0 (p + l) (drop l body))
        × (l ≤ n)
  unfolding last_reachable_open
  resume_lem p = elim (Option-cases (index open_delim span)) [
    | inl nothing ↦ (
      0,
      ground (arith, last_open_from_stop (length span + 1) 0 none nothing),
      ap (λ (q : ℕ). spec_scan 0 q body) (omega arith),
      omega arith,
    )
    | inr (j, found) ↦
        let size : length span ≡ n =
          omega (arith, length-take n body, index-le close_delim body n closes) in
        let (l, last, same, fits) =
          last_open_from_lem (length span + 1) 0 j p none (omega arith) found in
        (l, ground arith, ap (λ (q : ℕ). spec_scan 0 q body) (omega arith) ∙ same, omega arith)
  ]
