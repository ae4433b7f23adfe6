-- ===== src/Apidiff/Allowlist.antt =====
-- The check that the list of public packages is up to date. The lines are those that the scanner
-- yields; a set of paths is the list of its members, each once.
pub mod Drift
pub mod Public
use ax_go.Common.{
  ℕ, Text, codes, text_eq, text_lt, trim_space, fields, has_suffix, contains, Bool, true, false,
  ◌||◌, ◌&&◌, not, Option, none, some, List, [], ◌∷◌, ◌++◌, is_empty, keep, exists?, Result, ok,
  err, if◌then◌else◌,
}
use ax_go.Common.Sorts.{sort}
use ax_go.Apidiff.Report.{is_listed}

pub data AllowlistError : Type 0 where
  malformed_line : Text → AllowlistError
  drift : Text → AllowlistError

unfoldable pub is_internal : Text → Bool
is_internal import_path =
    text_eq import_path (codes "internal")
    || has_suffix (codes "/internal") import_path
    || contains import_path (codes "/internal/")

unfoldable pub is_example : Text → Bool
is_example import_path =
    has_suffix (codes "/examples") import_path || contains import_path (codes "/examples/")

-- What one line of `go list` adds.
pub data Listed : Type 0 where
  nothing_listed : Listed
  malformed : Text → Listed
  public_package : Text → Listed

abbrev pub listed_fields : Text → List Text → Listed
listed_fields line [] = malformed line
listed_fields line (p ∷ []) = malformed line
listed_fields line (p ∷ name ∷ rest) =
    if text_eq name (codes "main") || is_internal p || is_example p
    then nothing_listed
    else public_package p

unfoldable pub listed_line : Text → Listed
listed_line raw =
    let line = trim_space raw in
    if is_empty line then nothing_listed else listed_fields line (fields line)

abbrev add_key : Text → List Text → List Text
add_key p set = if is_listed set p then set else set ++ p ∷ []

-- The loop over the lines; `rest` is what follows it.
abbrev add_listed :
    Listed
    → (List Text → Result AllowlistError (List Text))
    → List Text
    → Result AllowlistError (List Text)
add_listed nothing_listed rest got = rest got
add_listed (malformed line) rest got = err (malformed_line line)
add_listed (public_package p) rest got = rest (add_key p got)

unfoldable pub read_packages : List Text → List Text → Result AllowlistError (List Text)
read_packages [] got = ok got
read_packages (raw ∷ lines) got = add_listed (listed_line raw) (λ g. read_packages lines g) got

abbrev set_of : List Text → List Text → List Text
set_of [] set = set
set_of (p ∷ ps) set = set_of ps (add_key p set)

abbrev drift_lines : Text → Text → List Text → Text
drift_lines sign note [] = []
drift_lines sign note (p ∷ ps) = sign ++ (p ++ (note ++ drift_lines sign note ps))

abbrev drift_text : List Text → List Text → Text
drift_text extra missing =
    codes
      "public package allowlist drift (update allowedPackages in internal/cmd/apidiff-verdict/main.go):"
    ++ (drift_lines (codes "\n  + ")
          (codes " is public but not in the allowlist (guard it, or move it under internal/)") extra
        ++ drift_lines (codes "\n  - ")
            (codes " is in the allowlist but is no longer a public package") missing)

abbrev compare_sets : List Text → List Text → Option AllowlistError
compare_sets missing extra =
    if is_empty missing && is_empty extra
    then none
    else some (drift (drift_text (sort text_lt extra) (sort text_lt missing)))

abbrev compare_read : List Text → Result AllowlistError (List Text) → Option AllowlistError
compare_read want (err e) = some e
compare_read want (ok got) =
    compare_sets (keep (λ p. not (is_listed got p)) want) (keep (λ p. not (is_listed want p)) got)

unfoldable pub check_allowlist : List Text → List Text → Option AllowlistError
check_allowlist lines allow = compare_read (set_of allow []) (read_packages lines [])
