-- ===== src/Common/Sorts.antt =====
-- A stable sort by a Boolean order, as sort.Slice and sort.Strings are used by the source.
use mathlib.Core.List.{Perm, Permᴰ}
use mathlib.Core.List.Perm
use ax_go.Common.Tests.{if◌then◌else◌, Bool-cases}
use ax_go.Common.Lists.{All, All-map, exists?}
use mathlib.Core.Path.{◌≡◌, refl, ◌∙◌, subst}
use mathlib.Core.Logic.{inl, inr, ∥∥₁_elim}
use mathlib.Core.Bool.{Bool, true, false, ◌||◌}
use mathlib.Core.List.{List, [], ◌∷◌}
use native.Mathlib.Omega.{arith}

-- `less` is a strict order whose complement is transitive.
pub record IsOrder {ℓ} {A : Type ℓ} (less : A → A → Bool) : Type ℓ where
  pub asym : (a b : A) → less a b ≡ true → less b a ≡ false
  pub le_trans : (a b c : A) → less b a ≡ false → less c b ≡ false → less c a ≡ false

module _ {ℓ} {A : Type ℓ} (less : A → A → Bool) where
  unfoldable pub insert : A → List A → List A
  insert x [] = x ∷ []
  insert x (y ∷ ys) = if less y x then y ∷ insert x ys else x ∷ y ∷ ys

  unfoldable pub sort : List A → List A
  unfolding insert
  sort [] = []
  sort (x ∷ xs) = insert x (sort xs)

  -- No item is less than one that stands before it.
  abbrev pub IsSorted : List A → Type ℓ
  IsSorted [] = Unit
  IsSorted (x ∷ xs) = All (λ y. less y x ≡ false) xs × IsSorted xs

module _ {ℓ} {A : Type ℓ} (less : A → A → Bool) where
  insert-perm : (x : A) (ys : List A) → Perm (insert less x ys) (x ∷ ys)
  unfolding insert
  insert-perm x [] = Perm.refl (x ∷ [])
  insert-perm x (y ∷ ys) = elim (Bool-cases (less y x)) [
    | inl h ↦ rw h (Perm.trans (Perm.cons y (insert-perm x ys)) (Perm.swap x y ys))
    | inr h ↦ rw h (Perm.refl (x ∷ y ∷ ys))
  ]

  pub sort-perm : (xs : List A) → Perm (sort less xs) xs
  unfolding sort
  sort-perm [] = Perm.refl []
  sort-perm (x ∷ xs) = Perm.trans (insert-perm x (sort less xs)) (Perm.cons x (sort-perm xs))

All-insert {ℓ κ} :
    {A : Type ℓ} (less : A → A → Bool) (P : A → Type κ) (x : A) (ys : List A)
    → P x
    → All P ys
    → All P (insert less x ys)
unfolding insert
All-insert less P x [] px h = (px, tt)
All-insert less P x (y ∷ ys) px h = elim (Bool-cases (less y x)) [
  | inl e ↦ rw e (h.0, All-insert less P x ys px h.1)
  | inr e ↦ rw e (px, h)
]

pub All-sort {ℓ κ} :
    {A : Type ℓ} (less : A → A → Bool) (P : A → Type κ) (xs : List A)
    → All P xs
    → All P (sort less xs)
unfolding sort
All-sort less P [] h = tt
All-sort less P (x ∷ xs) h = All-insert less P x (sort less xs) h.0 (All-sort less P xs h.1)

All_true {ℓ} : {A : Type ℓ} (xs : List A) → All {ℓ, 0} (λ a. Unit) xs
All_true [] = tt
All_true (x ∷ xs) = (tt, All_true xs)

module _ {ℓ} {A : Type ℓ} (less : A → A → Bool) (order : IsOrder less) where
  insert-IsSorted : (x : A) (ys : List A) → IsSorted less ys → IsSorted less (insert less x ys)
  unfolding insert
  insert-IsSorted x [] h = (tt, tt)
  insert-IsSorted x (y ∷ ys) h = elim (Bool-cases (less y x)) [
    | inl e ↦ rw e (
      All-insert less (λ z. less z y ≡ false) x ys (order.asym y x e) h.0,
      insert-IsSorted x ys h.1,
    )
    | inr e ↦ rw e (
      (
        e,
        All-map (λ z. less z y ≡ false) (λ z. less z x ≡ false) (λ z. order.le_trans x y z e) ys
            h.0,
      ),
      h,
    )
  ]

  pub sort-IsSorted : (xs : List A) → IsSorted less (sort less xs)
  unfolding sort
  sort-IsSorted [] = tt
  sort-IsSorted (x ∷ xs) = insert-IsSorted x (sort less xs) (sort-IsSorted xs)

  insert_comm :
      (x y : A) (zs : List A)
      → (less x y ≡ false → less y x ≡ false → x ≡ y)
      → insert less x (insert less y zs) ≡ insert less y (insert less x zs)
  unfolding insert
  insert_comm x y [] connex = ground (arith, order.asym x y, order.asym y x, connex)
  insert_comm x y (z ∷ zs) connex = ground (
    arith,
    order.asym x y,
    order.asym y x,
    order.asym z x,
    order.asym z y,
    order.le_trans x y z,
    order.le_trans y x z,
    order.le_trans x z y,
    order.le_trans y z x,
    connex,
    insert_comm x y zs connex,
  )

  insert-sorted : (x : A) (ys : List A) → All (λ y. less y x ≡ false) ys → insert less x ys ≡ x ∷ ys
  unfolding insert
  insert-sorted x [] h = refl
  insert-sorted x (y ∷ ys) h = rw h.0 refl

  -- A sorted list stays as it is.
  pub sort-sorted : (xs : List A) → IsSorted less xs → sort less xs ≡ xs
  unfolding sort
  sort-sorted [] h = refl
  sort-sorted (x ∷ xs) h = rw (sort-sorted xs h.1) (insert-sorted x xs h.0)

  -- Only equal items are incomparable, of those that may come.
  module _ {κ} (P : A → Type κ)
      (connex : (a b : A) → P a → P b → less a b ≡ false → less b a ≡ false → a ≡ b) where
    sort-Permᴰ :
        {xs ys : List A} → Permᴰ xs ys → All P xs → All P ys × (sort less xs ≡ sort less ys)
    unfolding sort
    sort-Permᴰ Permᴰ.nil h = (tt, refl)
    sort-Permᴰ (Permᴰ.cons e d) h =
        let (rest, same) = sort-Permᴰ d h.1 in ((subst P e h.0, rest), cc (e, same))
    sort-Permᴰ (Permᴰ.swap {a} {b} {l = l} e f) h =
        let swapped = insert_comm a b (sort less l) (connex a b h.0 h.1.0) in
        ((subst P f h.1.0, (subst P e h.0, h.1.1)), cc (e, f, swapped))
    sort-Permᴰ (Permᴰ.trans d e) h =
        let (mid, first) = sort-Permᴰ d h in
        let (last, second) = sort-Permᴰ e mid in (last, first ∙ second)

    -- The sorted list does not depend on the order in which the items came.
    pub sort-eq_of_perm_on :
        IsSet (List A) → {xs ys : List A} → Perm xs ys → All P xs → sort less xs ≡ sort less ys
    sort-eq_of_perm_on set {xs} {ys} p h =
        ∥∥₁_elim p (set (sort less xs) (sort less ys)) (λ d. (sort-Permᴰ d h).1)

  pub sort-eq_of_perm :
      ((a b : A) → less a b ≡ false → less b a ≡ false → a ≡ b)
      → IsSet (List A)
      → {xs ys : List A} → Perm xs ys
      → sort less xs ≡ sort less ys
  sort-eq_of_perm connex set {xs} p =
      sort-eq_of_perm_on (λ a. Unit) (λ a b h k. connex a b) set p (All_true xs)

module _ {ℓ} {A : Type ℓ} (less : A → A → Bool) (p : A → Bool) where
  exists?-insert : (x : A) (ys : List A) → exists? p (insert less x ys) ≡ (p x || exists? p ys)
  unfolding insert
  exists?-insert x [] = refl
  exists?-insert x (y ∷ ys) = ground (arith, exists?-insert x ys)

  pub exists?-sort : (xs : List A) → exists? p (sort less xs) ≡ exists? p xs
  unfolding sort
  exists?-sort [] = refl
  exists?-sort (x ∷ xs) = ground (arith, exists?-insert x (sort less xs), exists?-sort xs)
