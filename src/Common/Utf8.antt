-- ===== src/Common/Utf8.antt =====
-- Texts given as bytes: package unicode/utf8 and the classes of package unicode that the source asks.
pub mod Cut
use ax_go.Common.{
  ℕ, ◌+◌, ◌-◌, ◌*◌, Text, Bool, true, false, ◌&&◌, ◌||◌, Option, none, some, List, [], ◌∷◌, leb,
  ltb, ◌==◌, if◌then◌else◌, exists?,
}
use mathlib.Core.Option

-- The ranges of the bytes that have to follow a first byte, and the bits that it gives.
unfoldable pub lead_byte : ℕ → Option (ℕ × List (ℕ × ℕ))
lead_byte c =
    if ltb c 0x80
    then some (c, [])
    else if leb 0xC2 c && leb c 0xDF
    then some (c - 0xC0, (0x80, 0xBF) ∷ [])
    else if c == 0xE0
    then some (0, (0xA0, 0xBF) ∷ (0x80, 0xBF) ∷ [])
    else if c == 0xED
    then some (13, (0x80, 0x9F) ∷ (0x80, 0xBF) ∷ [])
    else if leb 0xE1 c && leb c 0xEF
    then some (c - 0xE0, (0x80, 0xBF) ∷ (0x80, 0xBF) ∷ [])
    else if c == 0xF0
    then some (0, (0x90, 0xBF) ∷ (0x80, 0xBF) ∷ (0x80, 0xBF) ∷ [])
    else if leb 0xF1 c && leb c 0xF3
    then some (c - 0xF0, (0x80, 0xBF) ∷ (0x80, 0xBF) ∷ (0x80, 0xBF) ∷ [])
    else if c == 0xF4
    then some (4, (0x80, 0x8F) ∷ (0x80, 0xBF) ∷ (0x80, 0xBF) ∷ [])
    else none

-- What is expected next, with the bits read so far, or a first byte.
abbrev pub Expected : Type 0
Expected = ℕ × List (ℕ × ℕ)

abbrev pub emit : Expected → (Expected → Option (List ℕ)) → Option (List ℕ)
emit (rune, []) next = Option.map (λ runes. rune ∷ runes) (next (0, []))
emit (bits, r ∷ rs) next = next (bits, r ∷ rs)

-- One byte in a state; `next` reads the bytes behind it.
abbrev pub byte_in : Expected → ℕ → (Expected → Option (List ℕ)) → Option (List ℕ)
byte_in (bits, []) c next = elim (lead_byte c) [ none ↦ none | some e ↦ emit e next ]
byte_in (bits, (lo, hi) ∷ rs) c next =
    let read = emit (bits * 64 + (c - 0x80), rs) next in if leb lo c && leb c hi then read else none

abbrev pub at_end : Expected → Option (List ℕ)
at_end (bits, []) = some []
at_end (bits, r ∷ rs) = none

unfoldable pub runes_from : Expected → Text → Option (List ℕ)
unfolding lead_byte
runes_from e [] = at_end e
runes_from e (c ∷ s) = byte_in e c (λ e'. runes_from e' s)

-- The runes of a text, if it is valid UTF-8.
unfoldable pub runes : Text → Option (List ℕ)
unfolding runes_from
runes s = runes_from (0, []) s

-- utf8.ValidString
unfoldable pub valid_string : Text → Bool
unfolding runes
valid_string s = elim (runes s) [ none ↦ false | some _ ↦ true ]

-- unicode.IsControl
unfoldable pub is_control : ℕ → Bool
is_control c = ltb c 32 || (leb 0x7F c && leb c 0x9F)

-- strings.ContainsFunc on a valid text.
unfoldable pub contains_func : Text → (ℕ → Bool) → Bool
unfolding runes
contains_func s p = elim (runes s) [ none ↦ false | some rs ↦ exists? p rs ]
