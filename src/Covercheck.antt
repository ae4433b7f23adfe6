-- ===== src/Covercheck.antt =====
-- The coverage gate, of internal/cmd/covercheck/main.go. An int is its 64-bit pattern, and a floor is
-- in tenths of a percent, the unit in which the source compares it; percentages are only printed.
pub mod Floors
pub mod Profile
use ax_go.Common.{
  ℕ, zero, suc, ◌+◌, ◌*◌, ◌%◌, ◌^◌, Text, codes, text_eq, text_lt, Bool, true, false, not, ◌&&◌,
  Option, none, some, List, [], ◌∷◌, ◌++◌, is_empty, keep, exists?, ltb, leb, ◌==◌, if◌then◌else◌,
}
use ax_go.Common.Sorts.{sort}
use ax_go.Common.Words.{word, add64, mul64, less64}

pub record PackageCoverage : Type 0 where
  pub import_path : Text
  pub stmts : ℕ
  pub covered : ℕ

-- `floorConfig`
pub record FloorConfig : Type 0 where
  pub repo_wide : ℕ
  pub default_floor : ℕ
  pub per_package : List (Text × ℕ)
  pub excluded : List Text

abbrev pub floor_in : ℕ → List (Text × ℕ) → Text → ℕ
floor_in default [] import_path = default
floor_in default ((p, floor) ∷ rest) import_path =
    if text_eq p import_path then floor else floor_in default rest import_path

unfoldable pub floor_for : FloorConfig → Text → ℕ
floor_for cfg import_path = floor_in cfg.default_floor cfg.per_package import_path

unfoldable pub meets_floor : ℕ → ℕ → ℕ → Bool
meets_floor covered total floor =
    if total == 0 then leb floor 0 else not (less64 (mul64 covered 1000) (mul64 floor total))

-- A failure, with the counts that its percentage is printed from.
pub record Violation : Type 0 where
  pub scope : Text
  pub stmts : ℕ
  pub covered : ℕ
  pub floor : ℕ

pub record CheckResult : Type 0 where
  pub pass : Bool
  pub repo_wide : PackageCoverage
  pub packages : List PackageCoverage
  pub excluded : List PackageCoverage
  pub violations : List Violation

unfoldable pub total64 : (PackageCoverage → ℕ) → List PackageCoverage → ℕ
total64 count [] = 0
total64 count (p ∷ pkgs) = add64 (count p) (total64 count pkgs)

abbrev pub is_excluded : FloorConfig → PackageCoverage → Bool
is_excluded cfg p = exists? (text_eq p.import_path) cfg.excluded

abbrev by_path : PackageCoverage → PackageCoverage → Bool
by_path a b = text_lt a.import_path b.import_path

abbrev pub meets : FloorConfig → PackageCoverage → Bool
meets cfg p = meets_floor p.covered p.stmts (floor_for cfg p.import_path)

abbrev violation_of : FloorConfig → PackageCoverage → Violation
violation_of cfg p = record {
  scope = p.import_path;
  stmts = p.stmts;
  covered = p.covered;
  floor = floor_for cfg p.import_path;
}

unfoldable pub package_violations : FloorConfig → List PackageCoverage → List Violation
package_violations cfg [] = []
package_violations cfg (p ∷ checked) =
    let rest = package_violations cfg checked in
    if meets cfg p then rest else violation_of cfg p ∷ rest

abbrev repo_violations : FloorConfig → PackageCoverage → List Violation
repo_violations cfg repo =
    if meets_floor repo.covered repo.stmts cfg.repo_wide
    then []
    else record {
      scope = codes "repo-wide";
      stmts = repo.stmts;
      covered = repo.covered;
      floor = cfg.repo_wide;
    }
      ∷ []

-- The totals are added up in the order in which the map is walked, which does not matter to them.
abbrev pub repo_coverage : List PackageCoverage → PackageCoverage
repo_coverage pkgs = record {
  import_path = codes "repo-wide";
  stmts = total64 (λ p. p.stmts) pkgs;
  covered = total64 (λ p. p.covered) pkgs;
}

abbrev pub checked_of : FloorConfig → List PackageCoverage → List PackageCoverage
checked_of cfg pkgs = sort by_path (keep (λ p. not (is_excluded cfg p)) pkgs)

unfoldable pub check_floors : List PackageCoverage → FloorConfig → CheckResult
check_floors pkgs cfg =
    let violations =
      package_violations cfg (checked_of cfg pkgs) ++ repo_violations cfg (repo_coverage pkgs) in
    record {
      pass = is_empty violations;
      repo_wide = repo_coverage pkgs;
      packages = checked_of cfg pkgs;
      excluded = sort by_path (keep (is_excluded cfg) pkgs);
      violations = violations;
    }
