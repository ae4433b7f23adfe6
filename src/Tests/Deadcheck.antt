-- ===== src/Tests/Deadcheck.antt =====
-- A function that is dead in every build beside one that is dead only without build tags.
use ax_go.Common.{
  has_prefix, cut_prefix, contains, cut, cut_last, text_eq, text_lt, show_int, show_nat,
  digits_onto, Text, codes, true, false, ◌&&◌, leb, List, [], ◌∷◌, ok, pos, some, ◌≡◌, refl,
}
use ax_go.Deadcheck.{
  check_builds, other_builds, parse_report, read_dead_packages, read_functions, in_scope,
  record_finding, describe_finding, DeadFunction, DeadPackage, Decoded, Tools, unreachable,
  build_tags, check_dead,
}
use ax_go.Deadcheck.Everywhere.{all?, is_dead_in, IsSound, check_dead-IsSound}

abbrev dead_function : Text → DeadFunction
dead_function name = record {
  name = name;
  position = record { file = codes "x.go"; line = pos 3; col = pos 6 };
  generated = false;
  marker = false;
}

abbrev package_with : List DeadFunction → DeadPackage
package_with fns = record {
  name = codes "x";
  path = codes "github.com/rshade/ax-go/x";
  funcs = fns;
}

abbrev decoded : Text → Decoded
decoded [] = record {
  packages = package_with (dead_function (codes "f") ∷ dead_function (codes "T.g") ∷ []) ∷ [];
  at_end = true;
}
decoded (c ∷ tags) = record {
  packages = package_with (dead_function (codes "Open") ∷ dead_function (codes "T.g") ∷ []) ∷ [];
  at_end = true;
}

abbrev tools : Tools Text
tools = record {
  analyze = λ tags. ok tags;
  decode = λ report. some (decoded report);
  is_upper = λ c. leb b'A' c && leb c b'Z';
}

check_dead-IsSound_example :
    IsSound tools (λ key. all? (is_dead_in tools key) build_tags) (check_dead tools)
check_dead-IsSound_example = check_dead-IsSound tools

check_dead_test :
    check_dead tools
    ≡ unreachable (
        (
          codes "github.com/rshade/ax-go/x.T.g",
          record {
            symbol = codes "github.com/rshade/ax-go/x.T.g";
            position = record { file = codes "x.go"; line = pos 3; col = pos 6 };
          },
        )
        ∷ [])
unfolding check_dead check_builds other_builds parse_report read_dead_packages read_functions
    in_scope record_finding describe_finding has_prefix cut_prefix contains cut cut_last text_eq
    text_lt show_int show_nat digits_onto
check_dead_test = refl
