-- ===== src/Tests/Apidiff.antt =====
-- Findings, reports and package lists at concrete inputs.
use ax_go.Common.{
  Text, codes, text_eq, trim_space, trim_left, trim_right, cons_unless, is_space, cut, cut_last,
  cut_prefix, contains, has_suffix, true, false, none, List, [], ◌∷◌, ◌++◌, All, ◌≡◌, ◌↔◌, inl, inr,
  refl, fields, fields_from,
}
use ax_go.Apidiff.Finding.{
  is_type_relocation, parse_changed_finding, strip_type_params, is_bare_identifier,
  is_option_prefix_drop,
}
use ax_go.Apidiff.Report.{
  Section, parse_report, has_breaking, filter_public, allowed_packages, has_leading_space,
  is_listed,
}
use ax_go.Apidiff.Report.Parse.{IsPrinted, print_report, parse_report-print_report}
use ax_go.Apidiff.Report.Gate.{has_public_break, has_breaking-parse_report}
use ax_go.Apidiff.Allowlist.{check_allowlist}
use ax_go.Apidiff.Allowlist.Public.{IsListing, SomeNames, check_allowlist_iff}

abbrev moved : Text
moved = codes "Option: changed from ParseConfigOption to github.com/rshade/ax-go/config.Option"

abbrev renamed : Text
renamed = codes "AppError: changed from AppError to github.com/rshade/ax-go/contract.Error"

moved_is_excused : is_type_relocation moved ≡ true
unfolding is_type_relocation parse_changed_finding strip_type_params is_bare_identifier
    is_option_prefix_drop cut cut_last cut_prefix trim_space trim_left trim_right cons_unless
    is_space contains has_suffix text_eq
moved_is_excused = refl

renamed_is_not : is_type_relocation renamed ≡ false
unfolding is_type_relocation parse_changed_finding strip_type_params is_bare_identifier
    is_option_prefix_drop cut cut_last cut_prefix trim_space trim_left trim_right cons_unless
    is_space contains has_suffix text_eq
renamed_is_not = refl

abbrev sections : List Section
sections =
    record {
      pkg = codes "github.com/rshade/ax-go";
      incompatible = moved ∷ codes "Gone: removed" ∷ [];
      compatible = codes "New: added" ∷ [];
    }
    ∷ record {
      pkg = codes "github.com/rshade/ax-go/internal/x";
      incompatible = renamed ∷ [];
      compatible = [];
    }
    ∷ []

sections-IsPrinted : All IsPrinted sections
unfolding trim_space trim_left trim_right cons_unless is_space has_leading_space
sections-IsPrinted = (
  (((λ q. cc), refl, refl), (((λ q. cc), refl), (((λ q. cc), refl), tt)), (((λ q. cc), refl), tt)),
  ((((λ q. cc), refl, refl), (((λ q. cc), refl), tt), tt), tt),
)

parse_report-print_report_example : parse_report (print_report sections) ≡ sections
parse_report-print_report_example = parse_report-print_report sections sections-IsPrinted

has_breaking-parse_report_example :
    has_breaking (filter_public (parse_report (print_report sections)) allowed_packages)
    ≡ has_public_break allowed_packages sections
has_breaking-parse_report_example =
    has_breaking-parse_report allowed_packages sections sections-IsPrinted

abbrev listing : List Text
listing =
    codes "github.com/rshade/ax-go ax" ∷ codes "github.com/rshade/ax-go/internal/x x" ∷ []
    ++ codes "" ∷ []

listing-IsListing : All IsListing listing
unfolding trim_space trim_left trim_right cons_unless is_space fields fields_from
listing-IsListing = (
  inr (codes "github.com/rshade/ax-go", codes "ax", [], refl),
  (inr (codes "github.com/rshade/ax-go/internal/x", codes "x", [], refl), (inl refl, tt)),
)

check_allowlist_iff_example :
    (check_allowlist listing (codes "github.com/rshade/ax-go" ∷ []) ≡ none) ↔ (
      (p : Text)
      → SomeNames p listing ↔ (is_listed (codes "github.com/rshade/ax-go" ∷ []) p ≡ true))
check_allowlist_iff_example =
    check_allowlist_iff listing (codes "github.com/rshade/ax-go" ∷ []) listing-IsListing
