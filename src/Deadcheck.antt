-- ===== src/Deadcheck.antt =====
-- The gate on unreachable functions, of internal/cmd/deadcheck (main.go and report.go). The run of
-- the deadcode program, the decoding of its JSON and the table of upper case letters are arguments;
-- flags and the rendering of the error envelope are left out.
pub mod Everywhere
use ax_go.Common.{
  ℕ, zero, suc, ◌+◌, ◌*◌, ◌^◌, Text, codes, text_eq, text_lt, has_prefix, contains, cut_last, Bool,
  true, false, not, ◌&&◌, ◌||◌, Option, none, some, List, [], ◌∷◌, ◌++◌, is_empty, keep, exists?,
  ltb, if◌then◌else◌, ℤ, is_zero, is_negative, show_int, Result, ok, err, length,
}

-- `position`
pub record Position : Type 0 where
  pub file : Text
  pub line : ℤ
  pub col : ℤ

-- `deadFunction`
pub record DeadFunction : Type 0 where
  pub name : Text
  pub position : Position
  pub generated : Bool
  pub marker : Bool

-- `deadPackage`
pub record DeadPackage : Type 0 where
  pub name : Text
  pub path : Text
  pub funcs : List DeadFunction

-- `finding`
pub record Finding : Type 0 where
  pub symbol : Text
  pub position : Position

pub data ReportError : Type 0 where
  report_too_long decode_failed several_documents incomplete_package : ReportError
  invalid_function : Text → ReportError

abbrev pub module_path : Text
module_path = codes "github.com/rshade/ax-go"

abbrev pub max_report_bytes : ℕ
max_report_bytes = 16 * 2 ^ 20

-- strings.TrimSuffix(pkg, "_test")
abbrev trim_test : Text → Option (Text × Text) → Text
trim_test pkg (some (tested, [])) = tested
trim_test pkg _ = pkg

-- The part of a name after its last dot.
abbrev method_of : Text → Option (Text × Text) → Text
method_of name none = name
method_of name (some (receiver, method)) = method

-- The map of findings by key: one entry for each key.
abbrev pub Findings : Type 0
Findings = List (Text × Finding)

abbrev pub has_key : Text → Findings → Bool
has_key key found = exists? (λ entry. text_eq entry.0 key) found

unfoldable pub describe_finding : Finding → Text
describe_finding f =
    f.position.file
    ++ codes ":"
    ++ show_int f.position.line
    ++ codes ":"
    ++ show_int f.position.col
    ++ codes ": "
    ++ f.symbol

-- The entry of a key, replaced where its description comes first.
unfoldable pub record_finding : Text → Finding → Findings → Findings
record_finding key entry [] = (key, entry) ∷ []
record_finding key entry ((k, prior) ∷ found) =
    if text_eq k key
    then if text_lt (describe_finding entry) (describe_finding prior)
      then (k, entry) ∷ found
      else (k, prior) ∷ found
    else (k, prior) ∷ record_finding key entry found

abbrev pub is_invalid : DeadFunction → Bool
is_invalid fn =
    is_empty fn.name
    || is_empty fn.position.file
    || (is_zero fn.position.line || is_negative fn.position.line)
    || (is_zero fn.position.col || is_negative fn.position.col)

abbrev pub is_incomplete : DeadPackage → Bool
is_incomplete p = is_empty p.name || is_empty p.path || is_empty p.funcs

abbrev pub key_of : Text → DeadFunction → Text
key_of path fn = path ++ codes "." ++ fn.name

-- What the decoder makes of the data, and whether it ends after that.
pub record Decoded : Type 0 where
  pub packages : List DeadPackage
  pub at_end : Bool

module _ (is_upper : ℕ → Bool) where
  -- ast.IsExported, on the first code point of the name.
  abbrev is_exported : Text → Bool
  is_exported [] = false
  is_exported (c ∷ name) = is_upper c

  abbrev tested_in_scope : Text → Text → Bool
  tested_in_scope pkg name =
      if not (text_eq pkg module_path) && not (has_prefix (module_path ++ codes "/") pkg)
      then false
      else if contains (pkg ++ codes "/") (codes "/internal/")
      then true
      else not (is_exported (method_of name (cut_last (codes ".") name)))

  unfoldable pub in_scope : Text → Text → Bool
  in_scope pkg name = tested_in_scope (trim_test pkg (cut_last (codes "_test") pkg)) name

  unfoldable pub read_functions : Text → List DeadFunction → Findings → Result ReportError Findings
  read_functions path [] found = ok found
  read_functions path (fn ∷ fns) found =
      let key = key_of path fn in
      let skipped = read_functions path fns found in
      let recorded =
        read_functions path fns
          (record_finding key (record { symbol = key; position = fn.position }) found) in
      if is_invalid fn
      then err (invalid_function path)
      else if not (in_scope path fn.name)
      then skipped
      else recorded

  abbrev pub then_read :
      Result ReportError Findings
      → (Findings → Result ReportError Findings)
      → Result ReportError Findings
  then_read (err e) rest = err e
  then_read (ok found) rest = rest found

  unfoldable pub read_dead_packages : List DeadPackage → Findings → Result ReportError Findings
  read_dead_packages [] found = ok found
  read_dead_packages (p ∷ pkgs) found =
      let rest =
        then_read (read_functions p.path p.funcs found)
          (λ found'. read_dead_packages pkgs found') in
      if is_incomplete p then err incomplete_package else rest

  abbrev pub read_decoded : Option Decoded → Result ReportError Findings
  read_decoded none = err decode_failed
  read_decoded (some d) =
      if not d.at_end then err several_documents else read_dead_packages d.packages []

  -- The report is given as its bytes.
  unfoldable pub parse_report : (Text → Option Decoded) → Text → Result ReportError Findings
  parse_report decode report =
      if ltb max_report_bytes (length report)
      then err report_too_long
      else read_decoded (decode report)

-- `buildTags`
abbrev pub build_tags : List Text
build_tags = [] ∷ codes "ax_no_grpc" ∷ codes "ax_no_otlp" ∷ codes "ax_no_grpc,ax_no_otlp" ∷ []

-- What the code relies on: the deadcode program, its JSON, and the upper case letters.
pub record Tools (E : Type 0) : Type 0 where
  pub analyze : Text → Result E Text
  pub decode : Text → Option Decoded
  pub is_upper : ℕ → Bool

pub data GateOutcome (E : Type 0) : Type 0 where
  analysis_failure : Text → E → GateOutcome E
  invalid_report : Text → ReportError → GateOutcome E
  unreachable : Findings → GateOutcome E
  passed : GateOutcome E

-- The entries of `common` that the report of one more build has too.
abbrev pub common_with : Findings → Findings → Findings
common_with common report = keep (λ entry. has_key entry.0 report) common

module _ {E : Type 0} (t : Tools E) where
  abbrev pub with_report :
      Text → Result ReportError Findings → (Findings → GateOutcome E) → GateOutcome E
  with_report tags (err e) next = invalid_report tags e
  with_report tags (ok report) next = next report

  abbrev pub with_analysis : Text → Result E Text → (Findings → GateOutcome E) → GateOutcome E
  with_analysis tags (err e) next = analysis_failure tags e
  with_analysis tags (ok report) next =
      with_report tags (parse_report t.is_upper t.decode report) next

  abbrev pub verdict_on : Findings → GateOutcome E
  verdict_on common = if is_empty common then passed else unreachable common

  -- The builds after the first one.
  unfoldable pub other_builds : List Text → Findings → GateOutcome E
  other_builds [] common = verdict_on common
  other_builds (tags ∷ rest) common =
      with_analysis tags (t.analyze tags) (λ report. other_builds rest (common_with common report))

  -- The loop of `run` over the builds.
  unfoldable pub check_builds : List Text → GateOutcome E
  check_builds [] = passed
  check_builds (tags ∷ rest) =
      with_analysis tags (t.analyze tags) (λ report. other_builds rest report)

  unfoldable pub check_dead : GateOutcome E
  check_dead = check_builds build_tags
