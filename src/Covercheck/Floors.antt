-- ===== src/Covercheck/Floors.antt =====
-- The integer comparison of a floor is exact, and the gate passes exactly when every floor is met.
use ax_go.Common.{
  ℕ, zero, suc, ◌+◌, ◌*◌, ◌%◌, ◌^◌, ◌≤◌, ◌<◌, Text, Bool, true, false, not, ◌&&◌, List, [], ◌∷◌,
  is_empty, keep, exists?, exists?-keep, is_empty-append, Bool-cases, inl, inr, ltb, All, ◌≡◌, ◌↔◌,
  refl, ◌∙◌, arith,
}
use ax_go.Common.Sorts.{exists?-sort}
use ax_go.Common.Words.{word, less64}
use ax_go.Covercheck.{
  PackageCoverage, FloorConfig, floor_for, meets_floor, total64, is_excluded, meets,
  package_violations, repo_coverage, checked_of, check_floors,
}

mul_le : (a b n : ℕ) → a ≤ b → a * n ≤ b * n
mul_le a b n h = grind arith

in_range : (x y : ℕ) → x < 2 ^ 63 → y < 2 ^ 63 → less64 (y % word) (x % word) ≡ ltb y x
in_range x y hx hy = ground arith

-- The exact contract of a floor; a total of nothing meets only a floor of nothing.
abbrev pub IsMet : ℕ → ℕ → ℕ → Type 0
IsMet covered total floor = (total ≡ 0 → floor ≡ 0) × (floor * total ≤ covered * 1000)

meets_floor_iff :
    (covered total floor : ℕ)
    → covered ≤ total
    → total ≤ 2 ^ 40
    → floor ≤ 1000
    → (meets_floor covered total floor ≡ true) ↔ IsMet covered total floor
unfolding meets_floor
meets_floor_iff covered zero floor c t f = ground arith
meets_floor_iff covered (suc n) floor c t f = ground (
  arith,
  mul_le floor 1000 (suc n) f,
  in_range (floor * suc n) (covered * 1000) (omega (arith, mul_le floor 1000 (suc n) f))
      (omega arith),
)

-- The exact sum.
abbrev pub total : (PackageCoverage → ℕ) → List PackageCoverage → ℕ
total count [] = 0
total count (p ∷ pkgs) = count p + total count pkgs

total64-eq :
    (count : PackageCoverage → ℕ) (pkgs : List PackageCoverage)
    → total count pkgs ≤ 2 ^ 40
    → total64 count pkgs ≡ total count pkgs
unfolding total64
total64-eq count [] h = refl
total64-eq count (p ∷ pkgs) h = ground (arith, total64-eq count pkgs (omega arith))

-- Sizes at which nothing overflows: 2^40 statements, and floors of at most 100%.
pub record IsSmall (cfg : FloorConfig) (pkgs : List PackageCoverage) : Type 0 where
  pub stmts_le : total (λ p. p.stmts) pkgs ≤ 2 ^ 40
  pub covered_le : All (λ p. p.covered ≤ p.stmts) pkgs
  pub floor_le : (import_path : Text) → floor_for cfg import_path ≤ 1000
  pub repo_le : cfg.repo_wide ≤ 1000

covered-total :
    (pkgs : List PackageCoverage)
    → All (λ p. p.covered ≤ p.stmts) pkgs
    → total (λ p. p.covered) pkgs ≤ total (λ p. p.stmts) pkgs
covered-total [] h = omega arith
covered-total (p ∷ pkgs) h = omega (arith, h.0, covered-total pkgs h.1)

-- A package that the gate looks at meets its floor.
abbrev pub IsChecked : FloorConfig → PackageCoverage → Type 0
IsChecked cfg p = is_excluded cfg p ≡ false → IsMet p.covered p.stmts (floor_for cfg p.import_path)

abbrev fails : FloorConfig → PackageCoverage → Bool
fails cfg p = not (is_excluded cfg p) && not (meets cfg p)

no_violations :
    (cfg : FloorConfig) (pkgs : List PackageCoverage)
    → is_empty (package_violations cfg pkgs) ≡ not (exists? (λ p. not (meets cfg p)) pkgs)
unfolding package_violations
no_violations cfg [] = refl
no_violations cfg (p ∷ pkgs) = ground (arith, no_violations cfg pkgs)

All-IsChecked :
    (cfg : FloorConfig) (pkgs : List PackageCoverage)
    → total (λ p. p.stmts) pkgs ≤ 2 ^ 40
    → All (λ p. p.covered ≤ p.stmts) pkgs
    → ((import_path : Text) → floor_for cfg import_path ≤ 1000)
    → (not (exists? (fails cfg) pkgs) ≡ true) ↔ All (IsChecked cfg) pkgs
All-IsChecked cfg [] t c f = ((λ _. tt), λ _. refl)
All-IsChecked cfg (p ∷ pkgs) t c f =
    let one =
      meets_floor_iff p.covered p.stmts (floor_for cfg p.import_path) c.0 (omega arith)
        (f p.import_path) in
    let rest = All-IsChecked cfg pkgs (omega arith) c.1 f in
    (
      (λ h. ((λ kept. one.0 (ground arith)), rest.0 (ground arith))),
      λ h. elim (Bool-cases (is_excluded cfg p)) [
        | inl out ↦ ground (arith, rest.1 h.1)
        | inr kept ↦ ground (arith, rest.1 h.1, one.1 (h.0 kept))
      ],
    )

pass-eq :
    (cfg : FloorConfig) (pkgs : List PackageCoverage)
    → (check_floors pkgs cfg).pass ≡ (
        not (exists? (fails cfg) pkgs)
        && meets_floor (repo_coverage pkgs).covered (repo_coverage pkgs).stmts cfg.repo_wide)
unfolding check_floors
pass-eq cfg pkgs =
    is_empty-append (package_violations cfg (checked_of cfg pkgs)) _
    ∙ rw
        (
          no_violations cfg (checked_of cfg pkgs),
          exists?-sort _ (λ p. not (meets cfg p)) (keep (λ p. not (is_excluded cfg p)) pkgs),
          exists?-keep (λ p. not (is_excluded cfg p)) (λ p. not (meets cfg p)) pkgs,
        )
        (ground arith)

-- On totals at which nothing overflows, the gate passes exactly when every package that is not
-- excluded meets its floor and the sums over all packages meet the repo-wide floor, compared as
-- exact fractions; an empty profile fails any positive repo-wide floor.
pub check_floors-pass :
    (cfg : FloorConfig) (pkgs : List PackageCoverage)
    → IsSmall cfg pkgs
    → ((check_floors pkgs cfg).pass ≡ true) ↔ (
        All (IsChecked cfg) pkgs
        × IsMet (total (λ p. p.covered) pkgs) (total (λ p. p.stmts) pkgs) cfg.repo_wide)
check_floors-pass cfg pkgs small =
    let packages = All-IsChecked cfg pkgs small.stmts_le small.covered_le small.floor_le in
    let covered_le = covered-total pkgs small.covered_le in
    let repo =
      meets_floor_iff (total (λ p. p.covered) pkgs) (total (λ p. p.stmts) pkgs) cfg.repo_wide
        covered_le small.stmts_le small.repo_le in
    let stmts_eq = total64-eq (λ p. p.stmts) pkgs small.stmts_le in
    let covered_eq = total64-eq (λ p. p.covered) pkgs (omega (arith, covered_le, small.stmts_le)) in
    rw (pass-eq cfg pkgs, stmts_eq, covered_eq)
      (
        (λ h. (packages.0 (ground arith), repo.0 (ground arith))),
        λ (all, sum). ground (arith, packages.1 all, repo.1 sum),
      )
