-- ===== src/Tests/Covercheck.antt =====
-- A small profile and its floors.
use ax_go.Common.{
  ◌<◌, Text, codes, text_eq, trim_space, trim_left, trim_right, cons_unless, is_space, fields,
  fields_from, cut_last, cut_prefix, has_prefix, true, Option, none, some, inr, List, [], ◌∷◌, All,
  ok, ◌≡◌, ◌↔◌, refl, arith,
}
use ax_go.Common.Words.{word}
use ax_go.Covercheck.{FloorConfig, check_floors, floor_for}
use ax_go.Covercheck.Floors.{IsSmall, IsChecked, IsMet, total, check_floors-pass}
use ax_go.Covercheck.Profile.{
  Block, Packages, parse_coverage, read_profile, parse_profile_line, add_block, atoi, digits_value,
}
use ax_go.Covercheck.Profile.Sums.{
  covered_statements, counted_in, added_up, IsLine, stated, raws, parse_coverage-counted_in,
}

abbrev block_a : Block
block_a = record { pkg_dir = codes "m/p"; num_stmt = 3; count = 1 }

abbrev block_b : Block
block_b = record { pkg_dir = codes "m/p"; num_stmt = 2; count = 0 }

abbrev profile : List (Text × Option Block)
profile =
    (codes "mode: atomic", none)
    ∷ (codes "m/p/a.go:1.2,3.4 3 1", some block_a)
    ∷ (codes "m/p/b.go:1.2,3.4 2 0", some block_b)
    ∷ []

abbrev packages : Packages
packages = record { import_path = codes "m/p"; stmts = 5; covered = 3 } ∷ []

profile_parses : parse_coverage (raws profile) ≡ ok packages
unfolding parse_coverage read_profile parse_profile_line add_block atoi digits_value trim_space
    trim_left trim_right cons_unless is_space fields fields_from cut_last cut_prefix has_prefix
    text_eq
profile_parses = refl

a-IsLine : IsLine (codes "m/p/a.go:1.2,3.4 3 1", some block_a)
unfolding atoi digits_value trim_space trim_left trim_right cons_unless is_space fields fields_from
    has_prefix cut_prefix
a-IsLine = record {
  file = codes "a.go";
  position = codes "1.2,3.4";
  stmts = codes "3";
  count = codes "1";
  three = refl;
  one_file = omega arith;
  one_position = omega arith;
  states_stmts = refl;
  states_count = refl;
  written = λ e. cc;
  no_mode = refl;
}

b-IsLine : IsLine (codes "m/p/b.go:1.2,3.4 2 0", some block_b)
unfolding atoi digits_value trim_space trim_left trim_right cons_unless is_space fields fields_from
    has_prefix cut_prefix
b-IsLine = record {
  file = codes "b.go";
  position = codes "1.2,3.4";
  stmts = codes "2";
  count = codes "0";
  three = refl;
  one_file = omega arith;
  one_position = omega arith;
  states_stmts = refl;
  states_count = refl;
  written = λ e. cc;
  no_mode = refl;
}

profile-IsLine : All IsLine profile
unfolding trim_space trim_left trim_right cons_unless is_space has_prefix cut_prefix
profile-IsLine = (inr refl, (a-IsLine, (b-IsLine, tt)))

profile_fits : added_up covered_statements (codes "m/p") (stated profile) < word
unfolding text_eq
profile_fits = omega arith

parse_coverage-counted_in_example :
    (acc : Packages) × (parse_coverage (raws profile) ≡ ok acc)
    × (counted_in covered_statements (codes "m/p") acc
        ≡ added_up covered_statements (codes "m/p") (stated profile))
parse_coverage-counted_in_example =
    parse_coverage-counted_in profile covered_statements (codes "m/p") profile-IsLine profile_fits

-- 60% of each package.
abbrev sixty : FloorConfig
sixty = record { repo_wide = 600; default_floor = 600; per_package = []; excluded = [] }

packages-IsSmall : IsSmall sixty packages
unfolding floor_for
packages-IsSmall = record {
  stmts_le = omega arith;
  covered_le = (omega arith, tt);
  floor_le = λ p. omega arith;
  repo_le = omega arith;
}

check_floors-pass_example : ((check_floors packages sixty).pass ≡ true) ↔ (
    All (IsChecked sixty) packages
    × IsMet (total (λ p. p.covered) packages) (total (λ p. p.stmts) packages) sixty.repo_wide)
check_floors-pass_example = check_floors-pass sixty packages packages-IsSmall
