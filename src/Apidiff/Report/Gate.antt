-- ===== src/Apidiff/Report/Gate.antt =====
-- What closes the gate.
use ax_go.Common.{
  Text, Bool, ◌&&◌, not, List, [], ◌∷◌, is_empty, keep, exists?, exists?-keep, All, ◌≡◌, refl, ap,
  ◌∙◌, arith,
}
use ax_go.Apidiff.Finding.{is_type_relocation}
use ax_go.Apidiff.Report.{Section, is_listed, filter_public, has_breaking, relocated, parse_report}
use ax_go.Apidiff.Report.Parse.{IsPrinted, print_report, parse_report-print_report}

keeps_some {ℓ} :
    {A : Type ℓ} (p : A → Bool) (xs : List A) → not (is_empty (keep p xs)) ≡ exists? p xs
keeps_some p [] = refl
keeps_some p (x ∷ xs) = ground (arith, keeps_some p xs)

-- Is there an incompatible finding of a listed package that is no relocation?
abbrev pub has_public_break : List Text → List Section → Bool
has_public_break allow sections =
    exists?
      (λ s. is_listed allow s.pkg && exists? (λ item. not (is_type_relocation item)) s.incompatible)
      sections

exists?-ap {ℓ} :
    {A : Type ℓ} (p q : A → Bool)
    → ((x : A) → p x ≡ q x)
    → (xs : List A) → exists? p xs ≡ exists? q xs
exists?-ap p q h [] = refl
exists?-ap p q h (x ∷ xs) = ground (arith, h x, exists?-ap p q h xs)

-- Reading a printed report and keeping the public sections, the gate is closed exactly when a listed
-- package has an incompatible finding that is no relocation; other packages never close it. Package
-- paths and findings are not empty and have no space that trimming removes.
pub has_breaking-parse_report :
    (allow : List Text) (sections : List Section)
    → All IsPrinted sections
    → has_breaking (filter_public (parse_report (print_report sections)) allow)
      ≡ has_public_break allow sections
unfolding has_breaking filter_public relocated
has_breaking-parse_report allow sections h = rw (parse_report-print_report sections h) (
    exists?-keep (λ s. is_listed allow s.pkg) _ sections
    ∙ exists?-ap _ _
        (λ s.
          ap (λ b. is_listed allow s.pkg && b)
            (keeps_some (λ item. not (is_type_relocation item)) s.incompatible))
        sections)
