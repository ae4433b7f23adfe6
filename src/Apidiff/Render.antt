-- ===== src/Apidiff/Render.antt =====
-- The markdown summary, and the outputs of `runVerdict`.
pub mod Shown
use ax_go.Common.{
  ℕ, Text, codes, Bool, true, false, ◌&&◌, List, [], ◌∷◌, ◌++◌, is_empty, if◌then◌else◌,
}
use ax_go.Apidiff.Report.{
  Section, relocated, has_breaking, has_relocations, has_any_change, filter_public, parse_report,
  allowed_packages,
}

abbrev pub comment_marker : Text
comment_marker = codes "<!-- apidiff-report -->"

abbrev pub item_line : Text → Text
item_line item = codes "- " ++ (item ++ 10 ∷ [])

unfoldable pub item_lines : List Text → Text
item_lines [] = []
item_lines (item ∷ items) = item_line item ++ item_lines items

unfoldable pub write_changes : Text → List Text → Text
write_changes label items =
    if is_empty items
    then []
    else codes "**" ++ (label ++ (codes ":**\n\n" ++ (item_lines items ++ 10 ∷ [])))

abbrev no_changes_note : Text
no_changes_note = codes "No public API changes detected against the base branch.\n"

abbrev breaking_note : Text
breaking_note =
    (0x26a0 ∷ 0xfe0f ∷ codes " **Breaking public API change detected.** ")
    ++ codes
        "If intentional, add the `breaking-change-approved` label and use a `feat!:` / `BREAKING CHANGE:` commit so release-please bumps the minor digit (Constitution Principle XI).\n\n"

abbrev relocation_note : Text
relocation_note =
    0x2139
    ∷ 0xfe0f
    ∷ codes
        " **Type relocations detected and not gated.** go-apidiff reports a type whose declaring package changed as incompatible, even when an identity-preserving alias keeps every consumer compiling unchanged. ax-go shipped exactly this refactor in v0.1.0 → v0.2.0 as a non-breaking `feat:`. The findings are listed below so they are reviewed, not hidden; structural changes to these types are still gated by `make surface-check`.\n\n"

unfoldable pub render_section : Section → Text
render_section s =
    if is_empty s.incompatible && is_empty s.compatible
    then []
    else codes "### `"
      ++ (s.pkg
          ++ (codes "`\n\n"
              ++ (write_changes (codes "Incompatible changes") (relocated s).0
                  ++ (write_changes (codes "Type relocations (not gated)") (relocated s).1
                      ++ write_changes (codes "Compatible changes") s.compatible))))

unfoldable pub render_sections : List Section → Text
render_sections [] = []
render_sections (s ∷ sections) = render_section s ++ render_sections sections

abbrev pub title : Text
title = codes "\n## Public API diff\n\n"

abbrev pub notes : Bool → Bool → Text
notes breaking relocations =
    (if breaking then breaking_note else []) ++ (if relocations then relocation_note else [])

unfoldable pub render : List Section → Text
render sections =
    comment_marker
    ++ (title
        ++ (if has_any_change sections
            then notes (has_breaking sections) (has_relocations sections)
              ++ render_sections sections
            else no_changes_note))

-- What `runVerdict` writes, on a report that the scanner reads to its end.
pub record Verdict : Type 0 where
  pub rendered : Text
  pub public_breaking : Bool
  pub has_public_changes : Bool

unfoldable pub run_verdict : List Text → Verdict
run_verdict lines =
    let public = filter_public (parse_report lines) allowed_packages in
    record {
      rendered = render public;
      public_breaking = has_breaking public;
      has_public_changes = has_any_change public;
    }
