-- ===== src/Schema/Keys.antt =====
-- The keys in the messages of conflicts, of internal/schema/conflict_error.go: TruncateKey, on bytes.
use ax_go.Common.{
  ℕ, zero, suc, ◌≤◌, ◌<◌, Text, true, [], ◌∷◌, ◌++◌, length, take, leb, length-append, length-take,
  if◌then◌else◌, ◌≡◌, ◌⊎◌, refl, arith, Bool-cases, inl, inr,
}
use ax_go.Common.Utf8.{valid_string, runes, runes_from, lead_byte}
use ax_go.Common.Utf8.Cut.{rune_start, byte_at, valid_string-cut}

abbrev pub max_key_in_message : ℕ
max_key_in_message = 128

-- "…" in UTF-8.
abbrev pub ellipsis : Text
ellipsis = 0xE2 ∷ 0x80 ∷ 0xA6 ∷ []

-- The loop that steps back to the first byte of a rune.
unfoldable pub cut_from : ℕ → Text → ℕ
cut_from zero key = zero
cut_from (suc cut) key =
    let back = cut_from cut key in if rune_start (byte_at (suc cut) key) then suc cut else back

unfoldable pub truncate_key : Text → Text
truncate_key key =
    if leb (length key) max_key_in_message
    then key
    else take (cut_from max_key_in_message key) key ++ ellipsis

cut_from-le : (cut : ℕ) (key : Text) → cut_from cut key ≤ cut
unfolding cut_from
cut_from-le zero key = omega arith
cut_from-le (suc cut) key = ground (arith, cut_from-le cut key)

-- The cut is in front of the first byte of a rune, or of everything.
cut_from-IsBoundary :
    (cut : ℕ) (key : Text)
    → (cut_from cut key ≡ 0) ⊎ (rune_start (byte_at (cut_from cut key) key) ≡ true)
unfolding cut_from
cut_from-IsBoundary zero key = inl refl
cut_from-IsBoundary (suc cut) key = elim (Bool-cases (rune_start (byte_at (suc cut) key))) [
  | inl start ↦ rw start (inr start)
  | inr inside ↦ rw inside (cut_from-IsBoundary cut key)
]

ellipsis_valid : valid_string ellipsis ≡ true
unfolding valid_string runes runes_from lead_byte
ellipsis_valid = refl

cut_valid :
    (n : ℕ) (key : Text)
    → valid_string key ≡ true
    → n < length key
    → (n ≡ 0) ⊎ (rune_start (byte_at n key) ≡ true)
    → valid_string (take n key ++ ellipsis) ≡ true
cut_valid n key valid le (inl zero_cut) = rw zero_cut ellipsis_valid
cut_valid n key valid le (inr start) = valid_string-cut n key ellipsis valid ellipsis_valid le start

-- What is shown of a key: the key, or a part of it from the front with an ellipsis.
abbrev pub IsShown : Text → Text → Type 0
IsShown key shown =
    (shown ≡ key) ⊎ ((n : ℕ) × (n ≤ max_key_in_message) × (shown ≡ take n key ++ ellipsis))

-- Of a valid key at most 128 bytes and an ellipsis are shown, from the front, and what is shown is
-- valid UTF-8 again: no rune is cut in two.
pub truncate_key-IsShown :
    (key : Text)
    → valid_string key ≡ true
    → IsShown key (truncate_key key)
      × (length (truncate_key key) ≤ 131)
      × (valid_string (truncate_key key) ≡ true)
unfolding truncate_key
truncate_key-IsShown key valid = elim (Bool-cases (leb (length key) max_key_in_message)) [
  | inl short ↦ rw short (inl refl, ground arith, valid)
  | inr long ↦
      let n = cut_from max_key_in_message key in
      let le = cut_from-le max_key_in_message key in
      rw long (
        inr (n, le, refl),
        rw (length-append (take n key) ellipsis, length-take n key) (omega arith),
        cut_valid n key valid (ground arith) (cut_from-IsBoundary max_key_in_message key),
      )
]
