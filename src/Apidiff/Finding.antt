-- ===== src/Apidiff/Finding.antt =====
-- A finding, and whether it only says that a type has moved to another package of this module.
use mathlib.Core.Option
use ax_go.Common.{
  ℕ, Text, codes, text_eq, trim_space, cut, cut_last, cut_prefix, contains, has_suffix, Bool, true,
  false, ◌||◌, ◌&&◌, not, Option, none, some, [], ◌∷◌, ◌++◌, length, is_empty, ltb, leb, ◌==◌, ◌≡◌,
  ◌⊎◌, inl, inr, refl, ap, text_eq→≡, arith, if◌then◌else◌, Option-cases, Bool-cases, ◌∙◌,
}

abbrev pub root_import_path : Text
root_import_path = codes "github.com/rshade/ax-go"

abbrev pub module_root : Text
module_root = codes "github.com/rshade/ax-go/"

-- The name, and the renderings before and after.
pub record Changed : Type 0 where
  pub name : Text
  pub before : Text
  pub after : Text

abbrev stated : Text → Text → Text → Option Changed
stated name before after =
    if is_empty name || is_empty before || is_empty after
    then none
    else some (record { name = name; before = before; after = after })

abbrev split_renderings : Text → Option (Text × Text) → Option Changed
split_renderings raw_name none = none
split_renderings raw_name (some (raw_before, raw_after)) =
    stated (trim_space raw_name) (trim_space raw_before) (trim_space raw_after)

abbrev split_finding : Option (Text × Text) → Option Changed
split_finding none = none
split_finding (some (raw_name, rest)) = split_renderings raw_name (cut_last (codes " to ") rest)

unfoldable pub parse_changed_finding : Text → Option Changed
parse_changed_finding item = split_finding (cut (codes ": changed from ") item)

unfoldable pub strip_type_params : Text → Text
strip_type_params s = elim (cut (b'[' ∷ []) s) [ some (before, rest) ↦ before | none ↦ s ]

abbrev is_letter : ℕ → Bool
is_letter c = (leb b'a' c && leb c b'z') || (leb b'A' c && leb c b'Z') || c == b'_'

abbrev is_digit : ℕ → Bool
is_digit c = leb b'0' c && leb c b'9'

-- The runes behind the first one, which may be digits.
unfoldable pub are_ident_runes : Text → Bool
are_ident_runes [] = true
are_ident_runes (c ∷ s) = (is_letter c || is_digit c) && are_ident_runes s

unfoldable pub is_bare_identifier : Text → Bool
unfolding are_ident_runes
is_bare_identifier [] = false
is_bare_identifier (c ∷ s) = is_letter c && are_ident_runes s

-- Of a text that is not empty, as where it is called.
abbrev begins_upper : Text → Bool
begins_upper [] = false
begins_upper (c ∷ s) = leb b'A' c && leb c b'Z'

unfoldable pub is_option_prefix_drop : Text → Text → Bool
is_option_prefix_drop before target =
    text_eq target (codes "Option")
    && has_suffix target before
    && ltb (length target) (length before)
    && begins_upper before

-- After the last dot: the package path and the rendered target.
abbrev is_moved_to : Text → Option (Text × Text) → Bool
is_moved_to before none = false
is_moved_to before (some (pkg_path, rendered)) =
    let target = strip_type_params rendered in
    not (contains pkg_path (b'.' ∷ []))
    && is_bare_identifier target
    && (text_eq before target || is_option_prefix_drop before target)

abbrev is_moved_in_module : Text → Option Text → Bool
is_moved_in_module before none = false
is_moved_in_module before (some suffix) = is_moved_to before (cut_last (b'.' ∷ []) suffix)

abbrev is_relocation : Option Changed → Bool
is_relocation none = false
is_relocation (some c) =
    text_eq c.before c.after
    || (is_bare_identifier (strip_type_params c.before)
        && is_moved_in_module (strip_type_params c.before) (cut_prefix module_root c.after))

unfoldable pub is_type_relocation : Text → Bool
is_type_relocation item = is_relocation (parse_changed_finding item)

cut_prefix-eq : (p s rest : Text) → cut_prefix p s ≡ some rest → s ≡ p ++ rest
unfolding cut_prefix
cut_prefix-eq [] s rest h = ground arith
cut_prefix-eq (c ∷ p) [] rest h = cc
cut_prefix-eq (c ∷ p) (d ∷ s) rest h = ground (arith, cut_prefix-eq p s rest)

here_or_none :
    (sep s a b : Text)
    → Option.map {B = Text × Text} (λ rest. ([], rest)) (cut_prefix sep s) ≡ some (a, b)
    → s ≡ a ++ (sep ++ b)
here_or_none sep s a b h = elim (Option-cases (cut_prefix sep s)) [
  | inl e ↦ absurd (ground arith)
  | inr (rest, e) ↦ ground (arith, cut_prefix-eq sep s rest e)
]

cut_last-eq : (sep s a b : Text) → cut_last sep s ≡ some (a, b) → s ≡ a ++ (sep ++ b)
unfolding cut_last
cut_last-eq sep [] a b h = here_or_none sep [] a b h
cut_last-eq sep (c ∷ s) a b h = elim (Option-cases (cut_last sep s)) [
  | inl e ↦ here_or_none sep (c ∷ s) a b (rw e at h)
  | inr ((a', b'), e) ↦ ground (arith, cut_last-eq sep s a' b')
]

-- The type keeps its name, or drops a prefix of `Option`, and lives in this module afterwards.
pub record StaysInModule (before after : Text) : Type 0 where
  pub pkg_path : Text
  pub rendered : Text
  pub path : after ≡ module_root ++ (pkg_path ++ (b'.' ∷ rendered))
  pub bare : is_bare_identifier (strip_type_params rendered) ≡ true
  pub same_name :
      (strip_type_params rendered ≡ before) ⊎ (strip_type_params rendered ≡ codes "Option")

is_moved_to-StaysInModule :
    (before after suffix : Text) (o : Option (Text × Text))
    → after ≡ module_root ++ suffix
    → cut_last (b'.' ∷ []) suffix ≡ o
    → is_moved_to before o ≡ true
    → StaysInModule before after
unfolding is_option_prefix_drop
is_moved_to-StaysInModule before after suffix none e q h = cc
is_moved_to-StaysInModule before after suffix (some (pkg_path, rendered)) e q h = record {
  pkg_path = pkg_path;
  rendered = rendered;
  path = e ∙ ap (λ t. module_root ++ t) (cut_last-eq (b'.' ∷ []) suffix pkg_path rendered q);
  bare = ground arith;
  same_name = ground (
    arith,
    text_eq→≡ before (strip_type_params rendered),
    text_eq→≡ (strip_type_params rendered) (codes "Option"),
  );
}

is_moved_in_module-StaysInModule :
    (before after : Text) (o : Option Text)
    → cut_prefix module_root after ≡ o
    → is_moved_in_module before o ≡ true
    → StaysInModule before after
is_moved_in_module-StaysInModule before after none e h = cc
is_moved_in_module-StaysInModule before after (some suffix) e h =
    is_moved_to-StaysInModule before after suffix _ (cut_prefix-eq module_root after suffix e) refl
      h

-- What the gate may excuse.
abbrev pub IsExcusable : Option Changed → Type 0
IsExcusable none = ⊥
IsExcusable (some c) =
    (c.before ≡ c.after)
    ⊎ ((is_bare_identifier (strip_type_params c.before) ≡ true)
        × StaysInModule (strip_type_params c.before) c.after)

is_relocation-IsExcusable : (o : Option Changed) → is_relocation o ≡ true → IsExcusable o
is_relocation-IsExcusable none h = cc
is_relocation-IsExcusable (some c) h = elim (Bool-cases (text_eq c.before c.after)) [
  | inl same ↦ inl (text_eq→≡ c.before c.after same)
  | inr other ↦ inr (
    ground arith,
    is_moved_in_module-StaysInModule (strip_type_params c.before) c.after _ refl (ground arith),
  )
]

-- A finding is set aside only if it says "changed from … to …" and the two renderings are the same
-- text, or the old one is a bare type name and the new one is a type of this module with that name,
-- or with the name `Option`. A removed symbol or a type of another module is never set aside.
pub is_type_relocation-IsExcusable :
    (item : Text) → is_type_relocation item ≡ true → IsExcusable (parse_changed_finding item)
unfolding is_type_relocation
is_type_relocation-IsExcusable item h = is_relocation-IsExcusable (parse_changed_finding item) h
