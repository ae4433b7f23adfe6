-- ===== src/Schema/Template.antt =====
-- Prompt templates, of internal/schema/declarations.go: the scan for placeholders, the rendering and
-- its size. A text is its bytes here: a brace and the characters of a name are one byte each, and
-- offsets and sizes count bytes.
pub mod Grammar
pub mod Resume
pub mod Scan
pub mod Render
pub mod Size
use ax_go.Common.{
  ℕ, zero, suc, ◌+◌, ◌-◌, ◌*◌, ◌%◌, ◌^◌, Text, codes, text_eq, Bool, true, false, not, ◌&&◌, ◌||◌,
  Option, none, some, List, [], ◌∷◌, ◌++◌, map, is_empty, length, take, drop, leb, ◌==◌,
  if◌then◌else◌,
}
use ax_go.Common.Index.{index}
use ax_go.Common.Words.{word}

abbrev pub open_delim : Text
open_delim = codes "{{"

abbrev pub close_delim : Text
close_delim = codes "}}"

unfoldable pub is_name_rune : ℕ → Bool
is_name_rune r =
    (leb b'a' r && leb r b'z')
    || (leb b'A' r && leb r b'Z')
    || (leb b'0' r && leb r b'9')
    || r == b'_'
    || r == b'.'
    || r == b'-'

-- The loop over the runes of a name.
unfoldable pub all_name_runes : Text → Bool
all_name_runes [] = true
all_name_runes (r ∷ name) = is_name_rune r && all_name_runes name

unfoldable pub valid_name : Text → Bool
valid_name name = not (is_empty name) && all_name_runes name

-- What a call of `visit` is given: the offsets of the span and the name in it.
pub record Placeholder : Type 0 where
  pub start : ℕ
  pub end : ℕ
  pub name : Text

-- `last` is -1 in the source where it is `none` here.
unfoldable pub last_open_from : ℕ → Text → ℕ → Option ℕ → Option ℕ
unfolding index
last_open_from zero span i last = last
last_open_from (suc fuel) span i last = elim (index open_delim (drop i span)) [
  | none ↦ last
  | some j ↦ last_open_from fuel span (i + j + 2) (some (i + j))
]

-- Each round goes on at least two bytes further, so the length is enough fuel.
unfoldable pub last_reachable_open : Text → Option ℕ
last_reachable_open span = last_open_from (length span + 1) span 0 none

-- Where the scan goes on after a span that is no name.
abbrev pub resume : ℕ → Option ℕ → ℕ
resume body_start none = body_start
resume body_start (some last) = body_start + last

-- `next` is the rest of the scan from a position.
abbrev pub take_span : ℕ → ℕ → Text → (ℕ → List Placeholder) → List Placeholder
take_span start length span next =
    let past = start + 2 + length + 2 in
    if valid_name span
    then record { start = start; end = past; name = span } ∷ next past
    else next (resume (start + 2) (last_reachable_open span))

abbrev pub at_close : Text → ℕ → Option ℕ → (ℕ → List Placeholder) → List Placeholder
at_close template start none next = []
at_close template start (some length) next =
    take_span start length (take length (drop (start + 2) template)) next

abbrev pub at_open : Text → ℕ → Option ℕ → (ℕ → List Placeholder) → List Placeholder
at_open template pos none next = []
at_open template pos (some start) next =
    at_close template (pos + start) (index close_delim (drop (pos + start + 2) template)) next

unfoldable pub scan_from : ℕ → Text → ℕ → List Placeholder
unfolding index
scan_from zero template pos = []
scan_from (suc fuel) template pos =
    at_open template pos (index open_delim (drop pos template))
      (λ pos'. scan_from fuel template pos')

-- Each round goes on at least two bytes further, so the fuel does not run out.
unfoldable pub scan_placeholders : Text → List Placeholder
scan_placeholders template = scan_from (length template + 1) template 0

unfoldable pub template_placeholders : Text → List Text
template_placeholders template = map (λ p. p.name) (scan_placeholders template)

-- The arguments of a call; a name without a value reads as the empty text.
abbrev pub Values : Type 0
Values = List (Text × Text)

unfoldable pub value_of : Text → Values → Text
value_of name [] = []
value_of name ((n, v) ∷ values) = if text_eq n name then v else value_of name values

-- The visits of RenderTemplate, `copied` being what is written already.
unfoldable pub render_from : Text → Values → ℕ → List Placeholder → Text
render_from template values copied [] = drop copied template
render_from template values copied (p ∷ ps) =
    take (p.start - copied) (drop copied template)
    ++ (value_of p.name values ++ render_from template values p.end ps)

unfoldable pub render_template : Text → Values → Text
render_template template values = render_from template values 0 (scan_placeholders template)

-- The visits of RenderedLen, `total` being the bit pattern of an int64.
unfoldable pub len_from : Values → ℕ → List Placeholder → ℕ
len_from values total [] = total
len_from values total (p ∷ ps) =
    len_from values
      ((total + (length (value_of p.name values) + word - (p.end - p.start) % word)) % word) ps

unfoldable pub rendered_len : Text → Values → ℕ
rendered_len template values = len_from values (length template % word) (scan_placeholders template)
