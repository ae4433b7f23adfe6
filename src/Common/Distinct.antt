-- ===== src/Common/Distinct.antt =====
-- Lists of texts in which no two are the same.
use ax_go.Common.{
  Text, text_eq, text_eq_iff, Bool, false, List, [], ◌∷◌, exists?, All, ◌≡◌, ◌≢◌, ◌↔◌, refl, arith,
}

abbrev pub Distinct : List Text → Type 0
Distinct [] = Unit
Distinct (x ∷ xs) = All (λ y. y ≢ x) xs × Distinct xs

abbrev pub is_seen : List Text → Text → Bool
is_seen seen x = exists? (text_eq x) seen

-- No two are the same, and none was seen before.
abbrev pub Unseen : List Text → List Text → Type 0
Unseen seen xs = All (λ x. is_seen seen x ≡ false) xs × Distinct xs

fresh_iff :
    (x : Text) (seen xs : List Text)
    → All (λ y. is_seen (x ∷ seen) y ≡ false) xs
      ↔ (All (λ y. is_seen seen y ≡ false) xs × All (λ y. y ≢ x) xs)
fresh_iff x seen [] = ((λ h. (tt, tt)), (λ h. tt))
fresh_iff x seen (y ∷ xs) = ground (arith, text_eq_iff y x, fresh_iff x seen xs)

-- The step of every loop that fills a set of keys seen.
pub Unseen-cons :
    (x : Text) (seen xs : List Text)
    → Unseen seen (x ∷ xs) ↔ ((is_seen seen x ≡ false) × Unseen (x ∷ seen) xs)
Unseen-cons x seen xs = ground (arith, fresh_iff x seen xs)

none_seen : (xs : List Text) → All (λ x. is_seen [] x ≡ false) xs
none_seen [] = tt
none_seen (x ∷ xs) = (refl, none_seen xs)

pub Unseen-nil : (xs : List Text) → Unseen [] xs ↔ Distinct xs
Unseen-nil xs = ((λ h. h.1), (λ h. (none_seen xs, h)))
