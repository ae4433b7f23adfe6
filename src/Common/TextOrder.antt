-- ===== src/Common/TextOrder.antt =====
-- The order of strings is a strict total order.
use mathlib.Core.List.{Perm}
use ax_go.Common.Tests.{if◌then◌else◌}
use ax_go.Common.Texts.{Text, text_eq, text_eq_iff, text_lt}
use ax_go.Common.Sorts.{IsOrder, sort, sort-eq_of_perm}
use mathlib.Core.Path.{◌≡◌, refl}
use mathlib.Core.Bool.{Bool, true, false}
use mathlib.Core.List.{List, [], ◌∷◌}
use native.Mathlib.Omega.{arith}

pub Text-set : IsSet Text
Text-set = hlevel

pub Texts-set : IsSet (List Text)
Texts-set = hlevel

text_lt_asym : (s t : Text) → text_lt s t ≡ true → text_lt t s ≡ false
unfolding text_lt
text_lt_asym [] [] h = refl
text_lt_asym [] (y ∷ t) h = refl
text_lt_asym (x ∷ s) [] h = cc
text_lt_asym (x ∷ s) (y ∷ t) h = ground (arith, text_lt_asym s t)

text_le_trans : (s t u : Text) → text_lt t s ≡ false → text_lt u t ≡ false → text_lt u s ≡ false
unfolding text_lt
text_le_trans [] [] [] h k = refl
text_le_trans [] [] (z ∷ u) h k = refl
text_le_trans [] (y ∷ t) [] h k = cc
text_le_trans [] (y ∷ t) (z ∷ u) h k = refl
text_le_trans (x ∷ s) [] u h k = cc
text_le_trans (x ∷ s) (y ∷ t) [] h k = cc
text_le_trans (x ∷ s) (y ∷ t) (z ∷ u) h k = ground (arith, text_le_trans s t u)

pub text_lt_connex : (s t : Text) → text_lt s t ≡ false → text_lt t s ≡ false → s ≡ t
unfolding text_lt
text_lt_connex [] [] h k = refl
text_lt_connex [] (y ∷ t) h k = cc
text_lt_connex (x ∷ s) [] h k = cc
text_lt_connex (x ∷ s) (y ∷ t) h k = ground (arith, text_lt_connex s t)

pub text_lt-IsOrder : IsOrder text_lt
text_lt-IsOrder = record { asym = text_lt_asym; le_trans = text_le_trans }

-- Sorting strings forgets the order in which a map was walked.
pub sort_texts-eq_of_perm : {xs ys : List Text} → Perm xs ys → sort text_lt xs ≡ sort text_lt ys
sort_texts-eq_of_perm p = sort-eq_of_perm text_lt text_lt-IsOrder text_lt_connex Texts-set p

-- By a text first, and by `rest` where the texts agree.
abbrev pub by_text {ℓ} : {A : Type ℓ} → (A → Text) → (A → A → Bool) → A → A → Bool
by_text f rest a b = if text_eq (f a) (f b) then rest a b else text_lt (f a) (f b)

module _ {ℓ} {A : Type ℓ} (f : A → Text) (rest : A → A → Bool) (order : IsOrder rest) where
  by_text_asym : (a b : A) → by_text f rest a b ≡ true → by_text f rest b a ≡ false
  by_text_asym a b h = ground (
    arith,
    text_eq_iff (f a) (f b),
    text_eq_iff (f b) (f a),
    text_lt_asym (f a) (f b),
    order.asym a b,
  )

  by_text_le_trans :
      (a b c : A)
      → by_text f rest b a ≡ false
      → by_text f rest c b ≡ false
      → by_text f rest c a ≡ false
  by_text_le_trans a b c h k = ground (
    arith,
    text_eq_iff (f b) (f a),
    text_eq_iff (f c) (f b),
    text_eq_iff (f c) (f a),
    text_le_trans (f a) (f b) (f c),
    text_lt_connex (f a) (f b),
    text_lt_connex (f b) (f c),
    text_lt_asym (f c) (f a),
    text_lt_asym (f b) (f a),
    text_lt_asym (f c) (f b),
    order.le_trans a b c,
  )

  pub by_text-IsOrder : IsOrder (by_text f rest)
  by_text-IsOrder = record { asym = by_text_asym; le_trans = by_text_le_trans }
