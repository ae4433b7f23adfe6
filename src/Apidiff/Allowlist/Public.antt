-- ===== src/Apidiff/Allowlist/Public.antt =====
-- Which packages are public, and that the list is exactly these.
use mathlib.Core.Path.{subst}
use ax_go.Common.{
  Text, codes, text_eq, text_eq_iff, text_eq→≡, text_eq_refl, trim_space, fields, fields_from, cut,
  cut_prefix, contains, has_suffix, Bool, true, false, ◌||◌, none, some, List, [], ◌∷◌, ◌++◌,
  is_empty, All, ◌≡◌, ◌≢◌, ◌⊎◌, ◌↔◌, refl, sym, ap, ◌∙◌, arith, Bool-cases, Option-cases, inl, inr,
}
use ax_go.Apidiff.Report.{is_listed}
use ax_go.Apidiff.Allowlist.{listed_line, listed_fields, is_internal, is_example, check_allowlist}
use ax_go.Apidiff.Allowlist.Drift.{names, IsReadable, named, same_truth, check_allowlist-none}

abbrev pub EndsWith : Text → Text → Type 0
EndsWith s suffix = (a : Text) × (s ≡ a ++ suffix)

abbrev pub Holds : Text → Text → Type 0
Holds s piece = (a b : Text) × (s ≡ a ++ (piece ++ b))

-- The path is `internal`, or has it as an element that is not the first.
abbrev pub IsInternal : Text → Type 0
IsInternal p =
    ((p ≡ codes "internal") ⊎ EndsWith p (codes "/internal")) ⊎ Holds p (codes "/internal/")

abbrev pub IsExample : Text → Type 0
IsExample p = EndsWith p (codes "/examples") ⊎ Holds p (codes "/examples/")

abbrev pub IsPublic : Text → Text → Type 0
IsPublic p name = (name ≢ codes "main") × (¬ IsInternal p) × (¬ IsExample p)

-- The line names this package, and it is public.
abbrev pub NamesPublic : Text → Text → Type 0
NamesPublic p raw =
    (name : Text) × (rest : List Text) × (fields (trim_space raw) ≡ p ∷ name ∷ rest)
    × IsPublic p name

abbrev pub SomeNames : Text → List Text → Type 0
SomeNames p [] = ⊥
SomeNames p (raw ∷ lines) = NamesPublic p raw ⊎ SomeNames p lines

-- A blank line, or one with at least two fields.
abbrev pub IsListing : Text → Type 0
IsListing raw =
    (trim_space raw ≡ [])
    ⊎ ((p name : Text) × (rest : List Text) × (fields (trim_space raw) ≡ p ∷ name ∷ rest))

has_suffix-append : (a suffix : Text) → has_suffix suffix (a ++ suffix) ≡ true
unfolding has_suffix
has_suffix-append [] [] = ground (arith, text_eq_refl [])
has_suffix-append [] (c ∷ s) = ground (arith, text_eq_refl (c ∷ s))
has_suffix-append (c ∷ a) suffix = ground (arith, has_suffix-append a suffix)

has_suffix-found : (suffix s : Text) → has_suffix suffix s ≡ true → EndsWith s suffix
unfolding has_suffix
has_suffix-found suffix [] h = ([], sym ((text_eq_iff suffix []).0 h))
has_suffix-found suffix (c ∷ s) h = elim (Bool-cases (text_eq suffix (c ∷ s))) [
  | inl whole ↦ ([], sym ((text_eq_iff suffix (c ∷ s)).0 whole))
  | inr later ↦
      let (a, e) = has_suffix-found suffix s (rw later at h) in (c ∷ a, ap (λ (t : Text). c ∷ t) e)
]

has_suffix_iff : (suffix s : Text) → (has_suffix suffix s ≡ true) ↔ EndsWith s suffix
has_suffix_iff suffix s = (
  has_suffix-found suffix s,
  λ (a, e). subst (λ t. has_suffix suffix t ≡ true) (sym e) (has_suffix-append a suffix),
)

cut_prefix-append : (p b : Text) → cut_prefix p (p ++ b) ≡ some b
unfolding cut_prefix
cut_prefix-append [] b = refl
cut_prefix-append (c ∷ p) b = ground (arith, cut_prefix-append p b)

cut_prefix-whole : (p s b : Text) → cut_prefix p s ≡ some b → s ≡ p ++ b
unfolding cut_prefix
cut_prefix-whole [] s b h = ground arith
cut_prefix-whole (x ∷ p) [] b h = cc
cut_prefix-whole (x ∷ p) (c ∷ s) b h = ground (arith, cut_prefix-whole p s b)

contains-append : (a sep b : Text) → contains (a ++ (sep ++ b)) sep ≡ true
unfolding contains cut
contains-append [] [] [] = refl
contains-append [] [] (c ∷ b) = refl
contains-append [] (c ∷ sep) b = ground (arith, cut_prefix-append (c ∷ sep) b)
contains-append (c ∷ a) sep b = ground (arith, contains-append a sep b)

contains-found : (s sep : Text) → contains s sep ≡ true → Holds s sep
unfolding contains cut
contains-found [] sep h = elim (Option-cases (cut_prefix sep [])) [
  | inl absent ↦ absurd (ground arith)
  | inr (b, here) ↦ ([], b, cut_prefix-whole sep [] b here)
]
contains-found (c ∷ s) sep h = elim (Option-cases (cut_prefix sep (c ∷ s))) [
  | inr (b, here) ↦ ([], b, cut_prefix-whole sep (c ∷ s) b here)
  | inl absent ↦
      let (a, b, e) = contains-found s sep (ground (arith, Option-cases (cut sep s))) in
      (c ∷ a, b, ap (λ (t : Text). c ∷ t) e)
]

contains_iff : (s sep : Text) → (contains s sep ≡ true) ↔ Holds s sep
contains_iff s sep = (
  contains-found s sep,
  λ (a, b, e). subst (λ t. contains t sep ≡ true) (sym e) (contains-append a sep b),
)

either_iff :
    {P Q : Type 0} (a b : Bool) → (a ≡ true) ↔ P → (b ≡ true) ↔ Q → ((a || b) ≡ true) ↔ (P ⊎ Q)
either_iff true b p q = ((λ h. inl (p.0 refl)), (λ h. refl))
either_iff false b p q =
    ((λ h. inr (q.0 h)), (λ h. elim h [ inl x ↦ absurd (ground (arith, p.1 x)) | inr y ↦ q.1 y ]))

is_internal_iff : (p : Text) → (is_internal p ≡ true) ↔ IsInternal p
unfolding is_internal
is_internal_iff p =
    either_iff _ _
      (either_iff _ _ (text_eq_iff p (codes "internal")) (has_suffix_iff (codes "/internal") p))
      (contains_iff p (codes "/internal/"))

is_example_iff : (p : Text) → (is_example p ≡ true) ↔ IsExample p
unfolding is_example
is_example_iff p =
    either_iff _ _ (has_suffix_iff (codes "/examples") p) (contains_iff p (codes "/examples/"))

is_false : {P : Type 0} (b : Bool) → (b ≡ true) ↔ P → ¬ P → b ≡ false
is_false true h no_p = absurd (no_p (h.0 refl))
is_false false h no_p = refl

abbrev is_left_out : Text → Text → Bool
is_left_out p name = text_eq name (codes "main") || is_internal p || is_example p

IsPublic-iff : (p name : Text) → (is_left_out p name ≡ false) ↔ IsPublic p name
IsPublic-iff p name = (
  (λ h. (
    (λ e. ground (arith, text_eq_iff name (codes "main"))),
    (λ e. ground (arith, (is_internal_iff p).1 e)),
    (λ e. ground (arith, (is_example_iff p).1 e)),
  )),
  λ (n, i, x). ground (
    arith,
    is_false _ (text_eq_iff name (codes "main")) n,
    is_false _ (is_internal_iff p) i,
    is_false _ (is_example_iff p) x,
  ),
)

listed_fields_iff :
    (p line : Text) (fs : List Text)
    → (names p (listed_fields line fs) ≡ true)
      ↔ ((name : Text) × (rest : List Text) × (fs ≡ p ∷ name ∷ rest) × IsPublic p name)
listed_fields_iff p line [] = ((λ h. cc), (λ (name, rest, e, h). cc))
listed_fields_iff p line (q ∷ []) = ((λ h. cc), (λ (name, rest, e, h). cc))
listed_fields_iff p line (q ∷ name ∷ rest) = elim (Bool-cases (is_left_out q name)) [
  | inl out ↦ (
    (λ h. absurd (ground arith)),
    λ (name', rest', e, public).
        let same_path : q ≡ p = cc in
        let same_name : name ≡ name' = cc in
        let kept : is_left_out q name ≡ false =
          rw (same_path, same_name) ((IsPublic-iff p name').1 public) in
        absurd (ground arith),
  )
  | inr kept ↦ (
    (λ h.
        let same : p ≡ q = text_eq→≡ p q (ground arith) in
        (
          name,
          rest,
          ap (λ (t : Text). t ∷ name ∷ rest) (sym same),
          rw same ((IsPublic-iff q name).0 kept),
        )),
    λ (name', rest', e, public). let same : q ≡ p = cc in rw kept (rw same (text_eq_refl p)),
  )
]

no_fields : {P : Type 0} (s p : Text) (ps : List Text) → is_empty s ≡ true → fields s ≡ p ∷ ps → P
unfolding fields fields_from
no_fields [] p ps blank e = absurd (cc)
no_fields (c ∷ s) p ps blank e = absurd (cc)

listed_line_iff : (p raw : Text) → (names p (listed_line raw) ≡ true) ↔ NamesPublic p raw
unfolding listed_line
listed_line_iff p raw = elim (Bool-cases (is_empty (trim_space raw))) [
  | inr written ↦ rw written (listed_fields_iff p (trim_space raw) (fields (trim_space raw)))
  | inl blank ↦
      rw blank
        ((λ h. cc), λ (name, rest, e, public). no_fields (trim_space raw) p (name ∷ rest) blank e)
]

named_iff : (p : Text) (lines : List Text) → (named p lines ≡ true) ↔ SomeNames p lines
named_iff p [] = ((λ h. cc), (λ h. absurd h))
named_iff p (raw ∷ lines) = either_iff _ _ (listed_line_iff p raw) (named_iff p lines)

fields-IsReadable :
    (line p name : Text) (fs rest : List Text)
    → fs ≡ p ∷ name ∷ rest
    → IsReadable (listed_fields line fs)
fields-IsReadable line p name [] rest e = absurd (cc)
fields-IsReadable line p name (q ∷ []) rest e = absurd (cc)
fields-IsReadable line p name (q ∷ n ∷ fs) rest e = elim (Bool-cases (is_left_out q n)) [
  | inl out ↦ rw out tt
  | inr kept ↦ rw kept tt
]

listing-IsReadable : (raw : Text) → IsListing raw → IsReadable (listed_line raw)
unfolding listed_line
listing-IsReadable raw (inl blank) = rw blank tt
listing-IsReadable raw (inr (p, name, rest, e)) = elim (Bool-cases (is_empty (trim_space raw))) [
  | inl blank ↦ rw blank tt
  | inr written ↦ rw written (fields-IsReadable (trim_space raw) p name _ rest e)
]

all-IsReadable :
    (lines : List Text) → All IsListing lines → All (λ raw. IsReadable (listed_line raw)) lines
all-IsReadable [] h = tt
all-IsReadable (raw ∷ lines) h = (listing-IsReadable raw h.0, all-IsReadable lines h.1)

-- If every line is blank or has at least two fields, the check passes exactly when the list holds the
-- paths of the lines that are public: the name is not main, `internal` is neither the whole path nor
-- an element of it after the first, and `examples` is not an element of it after the first.
pub check_allowlist_iff :
    (lines allow : List Text)
    → All IsListing lines
    → (check_allowlist lines allow ≡ none)
      ↔ ((p : Text) → SomeNames p lines ↔ (is_listed allow p ≡ true))
check_allowlist_iff lines allow h =
    let (forth, back) = check_allowlist-none lines allow (all-IsReadable lines h) in
    (
      (λ e p.
          let same = forth e p in
          let (to, from) = named_iff p lines in ((λ x. sym same ∙ from x), (λ x. to (same ∙ x)))),
      λ k. back (λ p.
          same_truth _ _ (λ x. (k p).0 ((named_iff p lines).0 x))
            (λ x. (named_iff p lines).1 ((k p).1 x))),
    )
