-- ===== src/Schema/Validate/Prompts.antt =====
-- Which prompts are valid.
use ax_go.Common.{
  ℕ, ◌+◌, ◌≤◌, Text, codes, text_eq, Bool, true, false, Option, none, some, List, [], ◌∷◌, map,
  length, exists?, All, ◌≡◌, ◌≢◌, ◌↔◌, refl, arith,
}
use ax_go.Common.Distinct.{Distinct, Unseen, Unseen-cons, Unseen-nil}
use ax_go.Common.Utf8.{valid_string}
use ax_go.Schema.{Reason, PromptArgument, Prompt, Violation}
use ax_go.Schema.Template.{
  Placeholder, is_name_rune, all_name_runes, valid_name, template_placeholders,
}
use ax_go.Schema.Template.Grammar.{spec_scan}
use ax_go.Schema.Template.Scan.{scan_placeholders_lem}
use ax_go.Schema.Validate.{
  max_template_bytes, argument_field, check_if, check_name, check_utf8, first_violation,
  validate_arguments, validate_placeholders, validate_prompt,
}

pub first_violation_iff :
    (checks : List (Option Violation))
    → (first_violation checks ≡ none) ↔ All (λ check. check ≡ none) checks
first_violation_iff [] = ((λ h. tt), (λ h. refl))
first_violation_iff (none ∷ checks) = ground (arith, first_violation_iff checks)
first_violation_iff (some v ∷ checks) = ((λ h. cc), (λ h. cc))

pub check_if_iff :
    (broken : Bool) (field : Text) (reason : Reason)
    → (check_if broken field reason ≡ none) ↔ (broken ≡ false)
check_if_iff broken field reason = ground arith

abbrev pub IsUtf8 : Text → Type 0
IsUtf8 s = valid_string s ≡ true

-- A name is not empty and consists of letters, digits and "_.-".
abbrev pub IsName : Text → Type 0
IsName name = (name ≢ []) × All (λ c. is_name_rune c ≡ true) name

pub check_utf8_iff : (field s : Text) → (check_utf8 field s ≡ none) ↔ IsUtf8 s
unfolding check_utf8
check_utf8_iff field s = ground arith

all_name_runes_iff : (s : Text) → (all_name_runes s ≡ true) ↔ All (λ c. is_name_rune c ≡ true) s
unfolding all_name_runes
all_name_runes_iff [] = ((λ h. tt), (λ h. refl))
all_name_runes_iff (c ∷ s) = ground (arith, all_name_runes_iff s)

pub check_name_iff : (field s : Text) → (check_name field s ≡ none) ↔ IsName s
unfolding check_name valid_name
check_name_iff field [] = ((λ h. cc), (λ h. absurd (h.0 refl)))
check_name_iff field (c ∷ s) = ground (arith, all_name_runes_iff (c ∷ s))

abbrev pub IsArgument : PromptArgument → Type 0
IsArgument a = IsName a.name × IsUtf8 a.title × IsUtf8 a.description

abbrev pub names : List PromptArgument → List Text
names args = map (λ (a : PromptArgument). a.name) args

abbrev pub IsAmong : List Text → Text → Type 0
IsAmong xs x = exists? (text_eq x) xs ≡ true

validate_arguments_iff :
    (i : ℕ) (declared : List Text) (args : List PromptArgument)
    → (validate_arguments i declared args ≡ none)
      ↔ (All IsArgument args × Unseen declared (names args))
unfolding validate_arguments
validate_arguments_iff i declared [] = ((λ h. (tt, (tt, tt))), (λ h. refl))
validate_arguments_iff i declared (arg ∷ args) =
    let name = argument_field i (codes "name") in
    ground (
      arith,
      check_name_iff name arg.name,
      check_utf8_iff (argument_field i (codes "title")) arg.title,
      check_utf8_iff (argument_field i (codes "description")) arg.description,
      validate_arguments_iff (i + 1) (arg.name ∷ declared) args,
      Unseen-cons arg.name declared (names args),
    )

validate_placeholders_iff :
    (declared placeholders : List Text)
    → (validate_placeholders declared placeholders ≡ none) ↔ All (IsAmong declared) placeholders
unfolding validate_placeholders
validate_placeholders_iff declared [] = ((λ h. tt), (λ h. refl))
validate_placeholders_iff declared (name ∷ rest) =
    ground (arith, validate_placeholders_iff declared rest)

pub record IsPrompt (p : Prompt) : Type 0 where
  pub name : IsName p.name
  pub title : IsUtf8 p.title
  pub description : IsUtf8 p.description
  pub arguments : All IsArgument p.arguments
  pub distinct : Distinct (names p.arguments)
  pub written : p.template ≢ []
  pub bounded : length p.template ≤ max_template_bytes
  pub utf8 : IsUtf8 p.template
  pub declared :
      All
        (IsAmong (names p.arguments))
        (map (λ (q : Placeholder). q.name) (spec_scan 0 0 p.template))

-- `validatePrompt` finds nothing exactly if the prompt is valid: its name and the names of its
-- arguments consist of name characters, no two arguments share one, its texts are UTF-8, and its
-- template is not empty, has at most 64 KiB and names declared arguments only.
pub validate_prompt_iff : (p : Prompt) → (validate_prompt p ≡ none) ↔ IsPrompt p
unfolding validate_prompt template_placeholders
validate_prompt_iff p = ground (
  arith,
  check_name_iff (codes "name") p.name,
  check_utf8_iff (codes "title") p.title,
  check_utf8_iff (codes "description") p.description,
  validate_arguments_iff 0 [] p.arguments,
  Unseen-nil (names p.arguments),
  check_utf8_iff (codes "template") p.template,
  validate_placeholders_iff (names p.arguments)
      (map (λ (q : Placeholder). q.name) (spec_scan 0 0 p.template)),
  scan_placeholders_lem p.template,
)
