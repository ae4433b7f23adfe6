-- ===== src/McpServer/Listing.antt =====
-- The order of prompts/list and resources/list, of internal/mcpserver/listorder.go: the SDK lists in an
-- order of its own, and the entries are sorted back into the order of their declarations.
use ax_go.Common.{
  ℕ, zero, suc, ◌-◌, ◌≤◌, Text, text_eq, text_eq_iff, text_eq_refl, ltb, Bool, false, Option, none,
  some, List, [], ◌∷◌, map, if◌then◌else◌, All, All-map, ◌≡◌, ◌≢◌, refl, sym, ◌∙◌, arith,
}
use mathlib.Core.List.{Perm}
use mathlib.Core.List.Perm
use ax_go.Common.Sorts.{IsOrder, sort, IsSorted, sort-sorted, sort-eq_of_perm_on}
use ax_go.Common.Distinct.{Distinct}

-- The map `rank`: the value that was set last stands in front, and a missing key has rank 0.
abbrev pub Ranks : Type 0
Ranks = List (Text × ℕ)

unfoldable pub rank_from : ℕ → List Text → Ranks → Ranks
rank_from i [] rank = rank
rank_from i (key ∷ keys) rank = rank_from (suc i) keys ((key, i) ∷ rank)

unfoldable pub rank_of : List Text → Ranks
rank_of keys = rank_from 0 keys []

unfoldable pub rank_at : Text → Ranks → ℕ
rank_at key [] = 0
rank_at key ((k, i) ∷ rank) = if text_eq k key then i else rank_at key rank

module _ {A : Type 0} (key : A → Text) where
  abbrev pub less_rank : Ranks → A → A → Bool
  less_rank rank a b = ltb (rank_at (key a) rank) (rank_at (key b) rank)

  unfoldable pub sort_by_rank : List A → Ranks → List A
  sort_by_rank items rank = sort (less_rank rank) items

rank_from-other :
    (name : Text) (i : ℕ) (keys : List Text) (rank : Ranks)
    → All (λ k. k ≢ name) keys
    → rank_at name (rank_from i keys rank) ≡ rank_at name rank
unfolding rank_from rank_at
rank_from-other name i [] rank h = refl
rank_from-other name i (k ∷ keys) rank h =
    rank_from-other name (suc i) keys ((k, i) ∷ rank) h.1 ∙ ground (arith, text_eq_iff k name)

some_inj : {A : Type 0} {a b : A} → some a ≡ some b → a ≡ b
some_inj e = cc

own_rank : (name : Text) (i : ℕ) (rank : Ranks) → rank_at name ((name, i) ∷ rank) ≡ i
unfolding rank_at
own_rank name i rank = rw (text_eq_refl name) refl

module _ {A : Type 0} (key : A → Text) where
  less_rank-IsOrder : (rank : Ranks) → IsOrder (less_rank key rank)
  less_rank-IsOrder rank = record {
    asym = λ a b h. ground arith;
    le_trans = λ a b c h k. ground arith;
  }

  abbrev at : ℕ → List A → Option A
  at n [] = none
  at zero (a ∷ xs) = some a
  at (suc n) (a ∷ xs) = at n xs

  -- The rank of an entry is its position.
  abbrev IsAt : ℕ → List A → Ranks → A → Type 0
  IsAt i xs rank a = (i ≤ rank_at (key a) rank) × (at (rank_at (key a) rank - i) xs ≡ some a)

  at_shift : (n i : ℕ) (b : A) (xs : List A) → suc i ≤ n → at (n - i) (b ∷ xs) ≡ at (n - suc i) xs
  at_shift n i b xs h = let e : n - i ≡ suc (n - suc i) = omega arith in rw e refl

  shift :
      (i : ℕ) (xs : List A) (rank : Ranks) (b a : A)
      → IsAt (suc i) xs rank a
      → IsAt i (b ∷ xs) rank a
  shift i xs rank b a (le, found) = (omega arith, at_shift (rank_at (key a) rank) i b xs le ∙ found)

  here :
      (i : ℕ) (a : A) (xs : List A) (rank : Ranks)
      → rank_at (key a) rank ≡ i
      → IsAt i (a ∷ xs) rank a
  here i a xs rank own =
      let e : rank_at (key a) rank - i ≡ 0 = omega arith in (omega arith, rw e refl)

  behind :
      (i : ℕ) (a : A) (xs : List A) (rank : Ranks)
      → rank_at (key a) rank ≡ i
      → (b : A) → IsAt (suc i) xs rank b
      → less_rank key rank b a ≡ false
  behind i a xs rank own b (le, found) = ground arith

  ranked :
      (i : ℕ) (xs : List A) (rank : Ranks)
      → Distinct (map key xs)
      → All (IsAt i xs (rank_from i (map key xs) rank)) xs
        × IsSorted (less_rank key (rank_from i (map key xs) rank)) xs
  unfolding rank_from
  ranked i [] rank h = (tt, tt)
  ranked i (a ∷ xs) rank h =
      let full = rank_from (suc i) (map key xs) ((key a, i) ∷ rank) in
      let (placed, sorted) = ranked (suc i) xs ((key a, i) ∷ rank) h.1 in
      let own : rank_at (key a) full ≡ i =
        rank_from-other (key a) (suc i) (map key xs) ((key a, i) ∷ rank) h.0
        ∙ own_rank (key a) i rank in
      (
        (here i a xs full own, All-map _ _ (shift i xs full a) xs placed),
        (
          All-map _ (λ b. less_rank key full b a ≡ false) (behind i a xs full own) xs placed,
          sorted,
        ),
      )

  one_place :
      (declared : List A) (rank : Ranks) (a b : A)
      → IsAt 0 declared rank a
      → IsAt 0 declared rank b
      → less_rank key rank a b ≡ false
      → less_rank key rank b a ≡ false
      → a ≡ b
  one_place declared rank a b ha hb ab ba =
      let e : rank_at (key a) rank ≡ rank_at (key b) rank = ground arith in
      some_inj (sym ha.1 ∙ rw e refl ∙ hb.1)

  -- However the entries of a page come, they are sorted back into the order of their declarations, if
  -- the page holds all of them and their keys are distinct.
  pub sort_by_rank_lem :
      (declared items : List A)
      → IsSet (List A)
      → Distinct (map key declared)
      → Perm items declared
      → sort_by_rank key items (rank_of (map key declared)) ≡ declared
  unfolding sort_by_rank rank_of
  sort_by_rank_lem declared items set distinct p =
      let rank = rank_from 0 (map key declared) [] in
      let (placed, sorted) = ranked 0 declared [] distinct in
      sym (
        sort-eq_of_perm_on (less_rank key rank) (less_rank-IsOrder rank) (IsAt 0 declared rank)
          (one_place declared rank) set (Perm.symm p) placed)
      ∙ sort-sorted (less_rank key rank) (less_rank-IsOrder rank) declared sorted
