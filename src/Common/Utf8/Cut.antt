-- ===== src/Common/Utf8/Cut.antt =====
-- Valid UTF-8 that is cut in front of a first byte.
use ax_go.Common.{
  ℕ, zero, suc, ◌+◌, ◌-◌, ◌*◌, ◌≤◌, ◌<◌, Text, Bool, true, false, not, ◌&&◌, Option, none, some,
  List, [], ◌∷◌, ◌++◌, length, take, leb, ltb, ◌==◌, if◌then◌else◌, All, ◌≡◌, refl, sym, ap, ◌∙◌,
  arith,
}
use mathlib.Core.Option
use ax_go.Common.Utf8.{lead_byte, Expected, emit, runes_from, runes, valid_string}

-- utf8.RuneStart
unfoldable pub rune_start : ℕ → Bool
rune_start c = not (leb 0x80 c && leb c 0xBF)

abbrev pub byte_at : ℕ → Text → ℕ
byte_at n [] = 0
byte_at zero (c ∷ s) = c
byte_at (suc n) (c ∷ s) = byte_at n s

abbrev is_read : Option (List ℕ) → Bool
is_read none = false
is_read (some runes) = true

-- Only bytes that are no first bytes are expected.
abbrev IsPending : Expected → Type 0
IsPending (bits, rs) = All (λ r. (0x80 ≤ r.0) × (r.1 ≤ 0xBF)) rs

abbrev AllPending : Option Expected → Type 0
AllPending none = Unit
AllPending (some e) = IsPending e

either :
    (b : Bool) (o o' : Option Expected)
    → AllPending o
    → AllPending o'
    → AllPending (if b then o else o')
either true o o' h h' = h
either false o o' h h' = h'

lead_byte-AllPending : (c : ℕ) → AllPending (lead_byte c)
unfolding lead_byte
lead_byte-AllPending c = either (ltb c 0x80) _ _ tt (
    either (leb 0xC2 c && leb c 0xDF) _ _ (omega arith) (
      either (c == 0xE0) _ _ (omega arith) (
        either (c == 0xED) _ _ (omega arith) (
          either (leb 0xE1 c && leb c 0xEF) _ _ (omega arith) (
            either (c == 0xF0) _ _ (omega arith) (
              either (leb 0xF1 c && leb c 0xF3) _ _ (omega arith)
                (either (c == 0xF4) _ _ (omega arith) tt)))))))

-- Between two runes, what was read before makes no difference.
between : (bits : ℕ) (s : Text) → runes_from (bits, []) s ≡ runes_from (0, []) s
unfolding runes_from
between bits [] = refl
between bits (c ∷ s) = refl

read_map :
    (rune : ℕ) (o : Option (List ℕ))
    → is_read (Option.map (λ (rs : List ℕ). rune ∷ rs) o) ≡ is_read o
read_map rune none = refl
read_map rune (some rs) = refl

within :
    (b : Bool) (o : Option (List ℕ))
    → is_read (if b then o else none) ≡ true
    → (b ≡ true) × (is_read o ≡ true)
within true o h = (refl, h)
within false o h = cc

off_range :
    (lo hi c : ℕ)
    → (0x80 ≤ lo) × (hi ≤ 0xBF)
    → (leb lo c && leb c hi) ≡ true
    → not (leb 0x80 c && leb c 0xBF) ≡ true
    → ⊥
off_range lo hi c pending in_range start = ground arith

-- The text is read from this state; the text behind the cut is read from between two runes.
module _ (tail : Text) (reads : is_read (runes_from (0, []) tail) ≡ true) where
  emit-cut :
      (e : Expected) (s : Text) (n : ℕ)
      → IsPending e
      → (is_read (emit e (λ e'. runes_from e' s)) ≡ true)
      → ((e' : Expected)
          → IsPending e'
          → is_read (runes_from e' s) ≡ true
          → is_read (runes_from e' (take n s ++ tail)) ≡ true)
      → is_read (emit e (λ e'. runes_from e' (take n s ++ tail))) ≡ true
  emit-cut (rune, []) s n pending h step =
      read_map rune _ ∙ step (0, []) tt (sym (read_map rune (runes_from (0, []) s)) ∙ h)
  emit-cut (bits, r ∷ rs) s n pending h step = step (bits, r ∷ rs) pending h

  lead-cut :
      (o : Option Expected) (s : Text) (n : ℕ)
      → AllPending o
      → is_read (elim o [ none ↦ none | some e ↦ emit e (λ e'. runes_from e' s) ]) ≡ true
      → ((e' : Expected)
          → IsPending e'
          → is_read (runes_from e' s) ≡ true
          → is_read (runes_from e' (take n s ++ tail)) ≡ true)
      → is_read (elim o [ none ↦ none | some e ↦ emit e (λ e'. runes_from e' (take n s ++ tail)) ])
        ≡ true
  lead-cut none s n pending h step = h
  lead-cut (some e) s n pending h step = emit-cut e s n pending h step

  runes_from-cut :
      (n : ℕ) (s : Text) (e : Expected)
      → IsPending e
      → is_read (runes_from e s) ≡ true
      → n < length s
      → rune_start (byte_at n s) ≡ true
      → is_read (runes_from e (take n s ++ tail)) ≡ true
  unfolding runes_from rune_start
  runes_from-cut n [] e pending h le start = absurd (omega arith)
  runes_from-cut zero (c ∷ s) (bits, []) pending h le start = ap is_read (between bits tail) ∙ reads
  runes_from-cut zero (c ∷ s) (bits, (lo, hi) ∷ rs) pending h le start =
      let (in_range, read) = within _ _ h in absurd (off_range lo hi c pending.0 in_range start)
  runes_from-cut (suc n) (c ∷ s) (bits, []) pending h le start =
      lead-cut (lead_byte c) s n (lead_byte-AllPending c) h
        (λ e' p h'. runes_from-cut n s e' p h' (omega arith) start)
  runes_from-cut (suc n) (c ∷ s) (bits, (lo, hi) ∷ rs) pending h le start =
      let (in_range, read) =
        within (leb lo c && leb c hi) (emit (bits * 64 + (c - 0x80), rs) (λ e'. runes_from e' s))
          h in
      rw in_range (
        emit-cut (bits * 64 + (c - 0x80), rs) s n pending.1 read
          (λ e' p h'. runes_from-cut n s e' p h' (omega arith) start))

is_read_lem : (o : Option (List ℕ)) → elim o [ none ↦ false | some _ ↦ true ] ≡ is_read o
is_read_lem none = refl
is_read_lem (some runes) = refl

valid_string-is_read : (s : Text) → valid_string s ≡ is_read (runes_from (0, []) s)
unfolding valid_string
valid_string-is_read s = is_read_lem (runes_from (0, []) s)

-- A valid text that is cut in front of the first byte of a rune, with a valid text put behind it.
pub valid_string-cut :
    (n : ℕ) (s tail : Text)
    → valid_string s ≡ true
    → valid_string tail ≡ true
    → n < length s
    → rune_start (byte_at n s) ≡ true
    → valid_string (take n s ++ tail) ≡ true
valid_string-cut n s tail valid tail_valid le start =
    valid_string-is_read (take n s ++ tail)
    ∙ runes_from-cut tail (sym (valid_string-is_read tail) ∙ tail_valid) n s (0, []) tt
        (sym (valid_string-is_read s) ∙ valid) le start
