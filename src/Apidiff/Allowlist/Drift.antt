-- ===== src/Apidiff/Allowlist/Drift.antt =====
-- When the check passes.
use ax_go.Common.{
  Text, text_eq, text_eq_refl, text_eq→≡, Bool, true, false, ◌||◌, not, none, List, [], ◌∷◌, ◌++◌,
  is_empty, keep, exists?, All, Result, ok, ◌≡◌, ◌↔◌, refl, sym, ap, ◌∙◌, arith, Bool-cases, inl,
  inr,
}
use ax_go.Apidiff.Report.{is_listed}
use ax_go.Apidiff.Allowlist.{
  AllowlistError, Listed, nothing_listed, malformed, public_package, listed_line, read_packages,
  check_allowlist, add_key, add_listed, set_of, compare_read, compare_sets,
}

-- Does this line name this public package?
abbrev pub names : Text → Listed → Bool
names p nothing_listed = false
names p (malformed line) = false
names p (public_package q) = text_eq p q

-- A blank line, or one with at least two fields.
abbrev pub IsReadable : Listed → Type 0
IsReadable nothing_listed = Unit
IsReadable (malformed line) = ⊥
IsReadable (public_package p) = Unit

listed-append :
    (set : List Text) (q p : Text) → is_listed (set ++ q ∷ []) p ≡ (is_listed set p || text_eq p q)
listed-append [] q p = ground arith
listed-append (x ∷ set) q p = ground (arith, listed-append set q p)

listed-add_key :
    (set : List Text) (q p : Text) → is_listed (add_key q set) p ≡ (is_listed set p || text_eq p q)
listed-add_key set q p = elim (Bool-cases (is_listed set q)) [
  | inl there ↦ rw there (ground (arith, text_eq→≡ p q))
  | inr new ↦ rw new (listed-append set q p)
]

listed-set_of :
    (ps set : List Text) (p : Text)
    → is_listed (set_of ps set) p ≡ (is_listed set p || is_listed ps p)
listed-set_of [] set p = ground arith
listed-set_of (q ∷ ps) set p =
    listed-set_of ps (add_key q set) p ∙ rw (listed-add_key set q p) (ground arith)

-- Does some line name it?
abbrev pub named : Text → List Text → Bool
named p lines = exists? (λ raw. names p (listed_line raw)) lines

-- The packages that are read from the lines.
record Got (lines got : List Text) (r : Result AllowlistError (List Text)) : Type 0 where
  set : List Text
  is_ok : r ≡ ok set
  holds : (p : Text) → is_listed set p ≡ (is_listed got p || named p lines)

add_listed-Got :
    (l : Listed) (raw : Text) (lines got : List Text)
    → listed_line raw ≡ l
    → IsReadable l
    → ((g : List Text) → Got lines g (read_packages lines g))
    → Got (raw ∷ lines) got (add_listed l (λ g. read_packages lines g) got)
add_listed-Got nothing_listed raw lines got e h k =
    let next = k got in
    record { set = next.set; is_ok = next.is_ok; holds = λ p. next.holds p ∙ rw e refl }
add_listed-Got (malformed line) raw lines got e h k = elim h [ ]
add_listed-Got (public_package q) raw lines got e h k =
    let next = k (add_key q got) in
    record {
      set = next.set;
      is_ok = next.is_ok;
      holds = λ p. next.holds p ∙ rw (e, listed-add_key got q p) (ground arith);
    }

read_packages-Got :
    (lines got : List Text)
    → All (λ raw. IsReadable (listed_line raw)) lines
    → Got lines got (read_packages lines got)
unfolding read_packages
read_packages-Got [] got h = record { set = got; is_ok = refl; holds = λ p. ground arith }
read_packages-Got (raw ∷ lines) got h =
    add_listed-Got (listed_line raw) raw lines got refl h.0 (λ g. read_packages-Got lines g h.1)

nothing_missing :
    (a b : List Text)
    → is_empty (keep (λ p. not (is_listed b p)) a) ≡ true
    → (p : Text) → is_listed a p ≡ true
    → is_listed b p ≡ true
nothing_missing [] b h p q = cc
nothing_missing (x ∷ a) b h p q = elim (Bool-cases (is_listed b x)) [
  | inl there ↦ elim (Bool-cases (text_eq p x)) [
    | inl same ↦ rw (text_eq→≡ p x same) there
    | inr other ↦ nothing_missing a b (rw there at h) p (rw other at q)
  ]
  | inr absent ↦ absurd (ground arith)
]

nothing_missing_of :
    (a b : List Text)
    → ((p : Text) → is_listed a p ≡ true → is_listed b p ≡ true)
    → is_empty (keep (λ p. not (is_listed b p)) a) ≡ true
nothing_missing_of [] b h = refl
nothing_missing_of (x ∷ a) b h =
    let here : is_listed b x ≡ true = h x (ground (arith, text_eq_refl x)) in
    rw here (nothing_missing_of a b (λ p q. h p (ground arith)))

none_compared :
    (missing extra : List Text)
    → compare_sets missing extra ≡ none
    → (is_empty missing ≡ true) × (is_empty extra ≡ true)
none_compared missing extra h = ground arith

pub same_truth : (a b : Bool) → (a ≡ true → b ≡ true) → (b ≡ true → a ≡ true) → a ≡ b
same_truth true b f g = sym (f refl)
same_truth false true f g = g refl
same_truth false false f g = refl

abbrev difference : List Text → List Text → List Text
difference a b = keep (λ p. not (is_listed b p)) a

compare_sets-eq :
    (want got : List Text)
    → (compare_sets (difference want got) (difference got want) ≡ none)
      ↔ ((p : Text) → is_listed got p ≡ is_listed want p)
compare_sets-eq want got = (
  (λ h p.
      let (no_missing, no_extra) = none_compared (difference want got) (difference got want) h in
      same_truth _ _ (nothing_missing got want no_extra p) (nothing_missing want got no_missing p)),
  λ h.
      rw
        (
          nothing_missing_of want got (λ p q. h p ∙ q),
          nothing_missing_of got want (λ p q. sym (h p) ∙ q),
        )
        refl,
)

-- If every line can be read, the check passes exactly when the packages that the lines name, main
-- packages, internal ones and examples left out, are those of the list, whatever their order.
pub check_allowlist-none :
    (lines allow : List Text)
    → All (λ raw. IsReadable (listed_line raw)) lines
    → (check_allowlist lines allow ≡ none) ↔ ((p : Text) → named p lines ≡ is_listed allow p)
unfolding check_allowlist
check_allowlist-none lines allow h =
    let read = read_packages-Got lines [] h in
    let (forth, back) = compare_sets-eq (set_of allow []) read.set in
    (
      (λ e p.
          sym (read.holds p)
          ∙ forth (sym (ap (compare_read (set_of allow [])) read.is_ok) ∙ e) p
          ∙ listed-set_of allow [] p),
      λ k.
          ap (compare_read (set_of allow [])) read.is_ok
          ∙ back (λ p. read.holds p ∙ k p ∙ sym (listed-set_of allow [] p)),
    )
