-- ===== src/Common/Index.antt =====
-- strings.Index, and what it says of the text around the instance that it finds.
use ax_go.Common.{
  ℕ, zero, suc, ◌≤◌, Text, has_prefix, true, Option, none, some, [], ◌∷◌, length, drop, ◌≡◌, arith,
  if◌then◌else◌, Option-cases,
}
use mathlib.Core.Option

unfoldable pub index : Text → Text → Option ℕ
index sep [] = if has_prefix sep [] then some 0 else none
index sep (c ∷ s) =
    let later = Option.map suc (index sep s) in if has_prefix sep (c ∷ s) then some 0 else later

pub has_prefix-drop-index :
    (sep s : Text) (n : ℕ) → index sep s ≡ some n → has_prefix sep (drop n s) ≡ true
unfolding index
has_prefix-drop-index sep [] zero h = ground arith
has_prefix-drop-index sep [] (suc n) h = ground arith
has_prefix-drop-index sep (c ∷ s) zero h = ground (arith, Option-cases (index sep s))
has_prefix-drop-index sep (c ∷ s) (suc n) h = ground (arith, has_prefix-drop-index sep s n)

pub index-le : (sep s : Text) (n : ℕ) → index sep s ≡ some n → n ≤ length s
unfolding index
index-le sep [] n h = ground arith
index-le sep (c ∷ s) zero h = omega arith
index-le sep (c ∷ s) (suc n) h = ground (arith, index-le sep s n)
