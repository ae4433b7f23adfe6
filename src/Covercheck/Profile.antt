-- ===== src/Covercheck/Profile.antt =====
-- The coverage profile: its lines, and the statements added up for each package. The profile is one
-- within the size limit; the error messages are data here.
pub mod Sums
use ax_go.Common.{
  ℕ, zero, suc, ◌+◌, ◌-◌, ◌*◌, ◌^◌, Text, codes, text_eq, trim_space, fields, cut_last, has_prefix,
  Bool, true, false, ◌||◌, ◌&&◌, not, Option, none, some, List, [], ◌∷◌, ◌++◌, is_empty, ℤ, pos,
  negsuc, Result, ok, err, ltb, leb, ◌==◌, if◌then◌else◌,
}
use ax_go.Common.Words.{add64}
use ax_go.Covercheck.{PackageCoverage}

pub data ProfileError : Type 0 where
  malformed_line : Text → ProfileError
  missing_position : Text → ProfileError
  missing_package : Text → ProfileError
  bad_statement_count : Text → ProfileError
  negative_statement_count : Text → ProfileError
  bad_execution_count : Text → ProfileError
  negative_execution_count : Text → ProfileError

-- The value of decimal digits read after `acc`, if there is nothing else.
unfoldable pub digits_value : ℕ → Text → Option ℕ
digits_value acc [] = some acc
digits_value acc (c ∷ s) =
    let rest = digits_value (10 * acc + (c - 48)) s in if leb 48 c && leb c 57 then rest else none

abbrev unsigned : Text → Option ℕ
unsigned [] = none
unsigned (c ∷ s) = digits_value 0 (c ∷ s)

-- The value of the digits, if it is in the range of int64.
abbrev ranged_pos : Option ℕ → Option ℤ
ranged_pos none = none
ranged_pos (some n) = if ltb n (2 ^ 63) then some (pos n) else none

abbrev ranged_neg : Option ℕ → Option ℤ
ranged_neg none = none
ranged_neg (some zero) = some (pos 0)
ranged_neg (some (suc n)) = if ltb n (2 ^ 63) then some (negsuc n) else none

-- strconv.Atoi
unfoldable pub atoi : Text → Option ℤ
atoi [] = none
atoi (c ∷ s) =
    if c == b'-'
    then ranged_neg (unsigned s)
    else if c == b'+'
    then ranged_pos (unsigned s)
    else ranged_pos (unsigned (c ∷ s))

-- The package, the statements and the executions of a block.
pub record Block : Type 0 where
  pub pkg_dir : Text
  pub num_stmt : ℕ
  pub count : ℕ

abbrev with_count : Text → Text → ℕ → Option ℤ → Result ProfileError Block
with_count line pkg_dir num_stmt none = err (bad_execution_count line)
with_count line pkg_dir num_stmt (some (negsuc n)) = err (negative_execution_count line)
with_count line pkg_dir num_stmt (some (pos count)) =
    ok (record { pkg_dir = pkg_dir; num_stmt = num_stmt; count = count })

abbrev with_statements : Text → Text → Option ℤ → Text → Result ProfileError Block
with_statements line pkg_dir none count = err (bad_statement_count line)
with_statements line pkg_dir (some (negsuc n)) count = err (negative_statement_count line)
with_statements line pkg_dir (some (pos n)) count = with_count line pkg_dir n (atoi count)

abbrev with_package : Text → Text → Option (Text × Text) → Text → Text → Result ProfileError Block
with_package line file none stmts count = err (missing_package file)
with_package line file (some (pkg_dir, base)) stmts count =
    with_statements line pkg_dir (atoi stmts) count

abbrev with_file : Text → Text → Option (Text × Text) → Text → Text → Result ProfileError Block
with_file line block none stmts count = err (missing_position block)
with_file line block (some (file, position)) stmts count =
    with_package line file (cut_last (b'/' ∷ []) file) stmts count

abbrev three_fields : Text → List Text → Result ProfileError Block
three_fields line (block ∷ stmts ∷ count ∷ []) =
    with_file line block (cut_last (b':' ∷ []) block) stmts count
three_fields line _ = err (malformed_line line)

unfoldable pub parse_profile_line : Text → Result ProfileError Block
parse_profile_line line = three_fields line (fields line)

-- `acc`, the map of the packages, by import path.
abbrev pub Packages : Type 0
Packages = List PackageCoverage

abbrev pub executed : Block → ℕ
executed b = if b.count == 0 then 0 else b.num_stmt

unfoldable pub add_block : Block → Packages → Packages
add_block b [] =
    record { import_path = b.pkg_dir; stmts = add64 0 b.num_stmt; covered = add64 0 (executed b) }
    ∷ []
add_block b (p ∷ acc) =
    if text_eq p.import_path b.pkg_dir
    then record p { stmts = add64 p.stmts b.num_stmt; covered = add64 p.covered (executed b) } ∷ acc
    else p ∷ add_block b acc

abbrev pub is_skipped : Text → Bool
is_skipped line = is_empty line || has_prefix (codes "mode:") line

abbrev pub add_parsed :
    Result ProfileError Block
    → Packages
    → (Packages → Result ProfileError Packages)
    → Result ProfileError Packages
add_parsed (err e) acc rest = err e
add_parsed (ok b) acc rest = rest (add_block b acc)

unfoldable pub read_profile : List Text → Packages → Result ProfileError Packages
read_profile [] acc = ok acc
read_profile (raw ∷ lines) acc =
    let line = trim_space raw in
    let skipped = read_profile lines acc in
    let added = add_parsed (parse_profile_line line) acc (λ acc'. read_profile lines acc') in
    if is_skipped line then skipped else added

unfoldable pub parse_coverage : List Text → Result ProfileError Packages
unfolding read_profile
parse_coverage lines = read_profile lines []
