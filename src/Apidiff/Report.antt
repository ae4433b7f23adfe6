-- ===== src/Apidiff/Report.antt =====
-- The text report of go-apidiff as sections, and the verdict on the sections of public packages. A
-- report is the lines that the scanner yields; a line that is too long ends the run with an error.
pub mod Parse
pub mod Gate
use ax_go.Common.{
  ℕ, Text, codes, text_eq, trim_space, cut_prefix, Bool, true, false, ◌||◌, not, Option, none, some,
  List, [], ◌∷◌, ◌++◌, is_empty, keep, exists?, ◌==◌, if◌then◌else◌,
}
use ax_go.Apidiff.Finding.{is_type_relocation}

pub data ChangeKind : Type 0 where
  kind_none kind_incompatible kind_compatible : ChangeKind

pub record Section : Type 0 where
  pub pkg : Text
  pub incompatible : List Text
  pub compatible : List Text

-- The sections but the last, the last one (`sections[cur]`), and what its entries are.
pub record Reading : Type 0 where
  pub closed : List Section
  pub cur : Option Section
  pub kind : ChangeKind

abbrev pub unread : Reading
unread = record { closed = []; cur = none; kind = kind_none }

abbrev pub with_last : List Section → Option Section → List Section
with_last closed none = closed
with_last closed (some s) = closed ++ s ∷ []

abbrev pub sections_of : Reading → List Section
sections_of r = with_last r.closed r.cur

abbrev begins_with_space : Text → Bool
begins_with_space [] = false
begins_with_space (c ∷ s) = c == b' ' || c == 9

unfoldable pub has_leading_space : Text → Bool
has_leading_space s = begins_with_space s

abbrev pub incompatible_heading : Text
incompatible_heading = codes "Incompatible changes:"

abbrev pub compatible_heading : Text
compatible_heading = codes "Compatible changes:"

abbrev add_to : ChangeKind → Text → Section → Section
add_to kind_none item s = s
add_to kind_incompatible item s = record s { incompatible = s.incompatible ++ item ∷ [] }
add_to kind_compatible item s = record s { compatible = s.compatible ++ item ∷ [] }

abbrev add_entry : Reading → Section → Option Text → Reading
add_entry r s none = r
add_entry r s (some item) = record r { cur = some (add_to r.kind item s) }

-- An indented line: a heading or an entry, if a package has been named.
abbrev read_indented : Reading → Option Section → Text → Reading
read_indented r none trimmed = r
read_indented r (some s) trimmed =
    if text_eq trimmed incompatible_heading
    then record r { kind = kind_incompatible }
    else if text_eq trimmed compatible_heading
    then record r { kind = kind_compatible }
    else add_entry r s (cut_prefix (codes "- ") trimmed)

abbrev open_section : Reading → Text → Reading
open_section r pkg = record {
  closed = sections_of r;
  cur = some (record { pkg = pkg; incompatible = []; compatible = [] });
  kind = kind_none;
}

unfoldable pub read_line : Reading → Text → Reading
read_line r raw =
    if is_empty (trim_space raw)
    then r
    else if has_leading_space raw
    then read_indented r r.cur (trim_space raw)
    else open_section r (trim_space raw)

unfoldable pub read_lines : Reading → List Text → Reading
read_lines r [] = r
read_lines r (raw ∷ lines) = read_lines (read_line r raw) lines

unfoldable pub parse_report : List Text → List Section
unfolding read_lines
parse_report lines = sections_of (read_lines unread lines)

-- The genuine breaks, and the relocations.
unfoldable pub relocated : Section → List Text × List Text
relocated s = (
  keep (λ item. not (is_type_relocation item)) s.incompatible,
  keep is_type_relocation s.incompatible,
)

abbrev pub is_listed : List Text → Text → Bool
is_listed allow pkg = exists? (text_eq pkg) allow

-- `allow` is the set of `allowSet`.
unfoldable pub filter_public : List Section → List Text → List Section
filter_public sections allow = keep (λ s. is_listed allow s.pkg) sections

unfoldable pub has_breaking : List Section → Bool
has_breaking sections = exists? (λ s. not (is_empty (relocated s).0)) sections

unfoldable pub has_relocations : List Section → Bool
has_relocations sections = exists? (λ s. not (is_empty (relocated s).1)) sections

unfoldable pub has_any_change : List Section → Bool
has_any_change sections =
    exists? (λ s. not (is_empty s.incompatible) || not (is_empty s.compatible)) sections

abbrev pub allowed_packages : List Text
allowed_packages =
    codes "github.com/rshade/ax-go"
    ∷ codes "github.com/rshade/ax-go/axtest"
    ∷ codes "github.com/rshade/ax-go/config"
    ∷ codes "github.com/rshade/ax-go/contract"
    ∷ codes "github.com/rshade/ax-go/id"
    ∷ codes "github.com/rshade/ax-go/logging"
    ∷ codes "github.com/rshade/ax-go/mcp"
    ∷ codes "github.com/rshade/ax-go/schema"
    ∷ []
