-- ===== src/Schema/Template/Grammar.antt =====
-- What a placeholder is, by itself: the text "{{name}}" with a name of at least one name character.
-- Read from left to right, a placeholder is taken whole, another "{{" is passed over, and so is any
-- other character.
use ax_go.Common.{
  ℕ, zero, suc, ◌+◌, ◌≤◌, Text, has_prefix, cut_prefix, true, false, not, ◌&&◌, Option, none, some,
  List, [], ◌∷◌, is_empty, length, length-drop, take, drop, drop-nil, if◌then◌else◌, ◌≡◌, refl, ap,
  ◌∙◌, arith, Option-cases,
}
use ax_go.Common.Index.{index}
use ax_go.Schema.Template.{
  open_delim, close_delim, is_name_rune, all_name_runes, valid_name, Placeholder,
}

-- The longest run of name characters, and what follows it.
abbrev pub name_run : Text → Text × Text
name_run [] = ([], [])
name_run (c ∷ s) =
    let rest = name_run s in if is_name_rune c then (c ∷ rest.0, rest.1) else ([], c ∷ s)

abbrev pub closed_name : Text × Text → Option Text
closed_name (name, rest) =
    if not (is_empty name) && has_prefix close_delim rest then some name else none

-- The name of the placeholder that a text starts with.
abbrev pub placeholder_at : Text → Option Text
placeholder_at s =
    let body = closed_name (name_run (drop 2 s)) in if has_prefix open_delim s then body else none

-- `skip` characters belong to what was read before; `pos` is the offset of the text.
unfoldable pub spec_scan : ℕ → ℕ → Text → List Placeholder
spec_scan skip pos [] = []
spec_scan (suc skip) pos (c ∷ s) = spec_scan skip (pos + 1) s
spec_scan zero pos (c ∷ s) = elim (placeholder_at (c ∷ s)) [
  | some name ↦
      record { start = pos; end = pos + length name + 4; name = name }
      ∷ spec_scan (length name + 3) (pos + 1) s
  | none ↦ spec_scan (if has_prefix open_delim (c ∷ s) then 1 else 0) (pos + 1) s
]

pub spec_scan_skip :
    (skip pos : ℕ) (s : Text) → spec_scan skip pos s ≡ spec_scan 0 (pos + skip) (drop skip s)
unfolding spec_scan
spec_scan_skip zero pos s = ap (λ (k : ℕ). spec_scan 0 k s) (omega arith)
spec_scan_skip (suc skip) pos [] = refl
spec_scan_skip (suc skip) pos (c ∷ s) =
    spec_scan_skip skip (pos + 1) s ∙ ap (λ (k : ℕ). spec_scan 0 k (drop skip s)) (omega arith)

-- With no "{{" there is no placeholder, and the text before the first one is passed over.
pub spec_scan-no_open : (pos : ℕ) (s : Text) → index open_delim s ≡ none → spec_scan 0 pos s ≡ []
unfolding index spec_scan
spec_scan-no_open pos [] h = refl
spec_scan-no_open pos (c ∷ s) h =
    ground (arith, Option-cases (index open_delim s), spec_scan-no_open (pos + 1) s)

pub spec_scan-to_open :
    (pos i : ℕ) (s : Text)
    → index open_delim s ≡ some i
    → spec_scan 0 pos s ≡ spec_scan 0 (pos + i) (drop i s)
unfolding index spec_scan
spec_scan-to_open pos i [] h = ground (arith, drop-nil {A = ℕ} i)
spec_scan-to_open pos zero (c ∷ s) h = ap (λ (k : ℕ). spec_scan 0 k (c ∷ s)) (omega arith)
spec_scan-to_open pos (suc i) (c ∷ s) h =
    ground (arith, Option-cases (index open_delim s), spec_scan-to_open (pos + 1) i s)

not_close-nil : has_prefix close_delim [] ≡ false
unfolding has_prefix cut_prefix
not_close-nil = refl

-- A delimiter does not start with a name character.
close-not_name : (c : ℕ) (s : Text) → has_prefix close_delim (c ∷ s) ≡ true → is_name_rune c ≡ false
unfolding has_prefix cut_prefix is_name_rune
close-not_name c s h = ground arith

pub open-not_name :
    (c : ℕ) (s : Text) → has_prefix open_delim (c ∷ s) ≡ true → is_name_rune c ≡ false
unfolding has_prefix cut_prefix is_name_rune
open-not_name c s h = ground arith

-- The run of name characters ends at the next "}}" exactly if all before that are name characters.
name_run-close :
    (n : ℕ) (body : Text)
    → index close_delim body ≡ some n
    → (has_prefix close_delim (name_run body).1 ≡ all_name_runes (take n body))
      × (all_name_runes (take n body) ≡ true → (name_run body).0 ≡ take n body)
unfolding index all_name_runes
name_run-close n [] h = ground (arith, not_close-nil)
name_run-close zero (c ∷ body) h =
    ground (arith, close-not_name c body, Option-cases (index close_delim body))
name_run-close (suc n) (c ∷ body) h =
    ground (arith, Option-cases (index close_delim body), name_run-close n body)

pub placeholder_at-close :
    (n : ℕ) (s : Text)
    → has_prefix open_delim s ≡ true
    → index close_delim (drop 2 s) ≡ some n
    → placeholder_at s ≡ (if valid_name (take n (drop 2 s)) then some (take n (drop 2 s)) else none)
unfolding valid_name
placeholder_at-close n s h c = ground (arith, name_run-close n (drop 2 s))

-- Without a "}}" no name ends.
name_run-no_close :
    (body : Text) → index close_delim body ≡ none → has_prefix close_delim (name_run body).1 ≡ false
unfolding index
name_run-no_close [] h = not_close-nil
name_run-no_close (c ∷ body) h =
    ground (arith, Option-cases (index close_delim body), name_run-no_close body)

index-none-drop : (sep : Text) (k : ℕ) (s : Text) → index sep s ≡ none → index sep (drop k s) ≡ none
unfolding index
index-none-drop sep zero s h = h
index-none-drop sep (suc k) [] h = h
index-none-drop sep (suc k) (c ∷ s) h =
    ground (arith, Option-cases (index sep s), index-none-drop sep k s)

pub spec_scan-no_close :
    (pos : ℕ) (skip : ℕ) (s : Text) → index close_delim s ≡ none → spec_scan skip pos s ≡ []
unfolding spec_scan index
spec_scan-no_close pos skip [] h = refl
spec_scan-no_close pos (suc skip) (c ∷ s) h =
    ground (arith, Option-cases (index close_delim s), spec_scan-no_close (pos + 1) skip s)
spec_scan-no_close pos zero (c ∷ s) h = ground (
  arith,
  Option-cases (index close_delim s),
  name_run-no_close (drop 1 s),
  index-none-drop close_delim 1 s,
  spec_scan-no_close (pos + 1) 0 s,
  spec_scan-no_close (pos + 1) 1 s,
)

-- A "{{" holds no "}}".
pub no_close-open :
    (s : Text)
    → has_prefix open_delim s ≡ true
    → index close_delim (drop 2 s) ≡ none
    → index close_delim s ≡ none
unfolding has_prefix cut_prefix index
no_close-open [] h c = cc
no_close-open (a ∷ []) h c = ground arith
no_close-open (a ∷ b ∷ s) h c = ground arith

length-name_run : (s : Text) → length (name_run s).0 + length (name_run s).1 ≡ length s
length-name_run [] = omega arith
length-name_run (c ∷ s) = ground (arith, length-name_run s)

pub double_fits : (d : ℕ) (s : Text) → has_prefix (d ∷ d ∷ []) s ≡ true → 2 ≤ length s
unfolding has_prefix cut_prefix
double_fits d [] h = cc
double_fits d (a ∷ []) h = ground arith
double_fits d (a ∷ b ∷ s) h = omega arith

pub placeholder_at-fits :
    (s name : Text) → placeholder_at s ≡ some name → length name + 4 ≤ length s
placeholder_at-fits s name h = ground (
  arith,
  length-name_run (drop 2 s),
  length-drop 2 s,
  double_fits b'{' s,
  double_fits b'}' (name_run (drop 2 s)).1,
)
