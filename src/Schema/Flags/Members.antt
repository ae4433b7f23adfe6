-- ===== src/Schema/Flags/Members.antt =====
-- What an enum accepts.
use ax_go.Common.{
  Text, text_eq, text_eq_iff, true, false, Option, none, some, List, [], ◌∷◌, ◌++◌, exists?, ok,
  err, All, ◌≡◌, ◌≢◌, ◌↔◌, ◌⊎◌, refl, sym, ap, ◌∙◌, arith, Bool-cases, Result-cases, inl, inr,
}
use mathlib.Core.List.{append_assoc, append-nil}
use ax_go.Common.Distinct.{Distinct, is_seen, Unseen, Unseen-cons}
use ax_go.Schema.Pflag.{FlagType, Flag}
use ax_go.Schema.{Violation}
use ax_go.Schema.Convert.{CanonicalError, canonical_enum_value}
use ax_go.Schema.Flags.{
  is_member, default_is_member, forwarded, enum_set, enum_type_supported, example_fits,
  declared_example, canonical_forms, with_forms, add_flag_enum, flag_enum,
}

module _ (t : FlagType) where
  -- `forms` are the forms of the values, one for each.
  abbrev pub Forms : List Text → List Text → Type 0
  Forms [] [] = Unit
  Forms [] (form ∷ forms) = ⊥
  Forms (v ∷ values) [] = ⊥
  Forms (v ∷ values) (form ∷ forms) = (canonical_enum_value t v ≡ ok form) × Forms values forms

  -- One of the values has the form that this value has.
  abbrev pub IsSame : Text → List Text → Type 0
  IsSame value [] = ⊥
  IsSame value (v ∷ values) =
      ((form : Text) × (canonical_enum_value t value ≡ ok form)
        × (canonical_enum_value t v ≡ ok form))
      ⊎ IsSame value values

  is_seen-snoc : (seen : List Text) (x y : Text) → is_seen (seen ++ x ∷ []) y ≡ is_seen (x ∷ seen) y
  is_seen-snoc [] x y = refl
  is_seen-snoc (s ∷ seen) x y = ground (arith, is_seen-snoc seen x y)

  unseen_snoc :
      (seen xs : List Text) (x : Text)
      → All (λ y. is_seen (seen ++ x ∷ []) y ≡ false) xs
      → All (λ y. is_seen (x ∷ seen) y ≡ false) xs
  unseen_snoc seen [] x h = tt
  unseen_snoc seen (y ∷ xs) x h = (sym (is_seen-snoc seen x y) ∙ h.0, unseen_snoc seen xs x h.1)

  abbrev IsFormed : List Text → List Text → List Text → Type 0
  IsFormed canonical values canonical' =
      (forms : List Text) × (canonical' ≡ canonical ++ forms)
      × Forms values forms
      × Unseen canonical forms

  canonical_forms-IsFormed :
      (canonical values canonical' : List Text)
      → canonical_forms t canonical values ≡ ok canonical'
      → IsFormed canonical values canonical'
  unfolding canonical_forms
  canonical_forms-IsFormed canonical [] canonical' h =
      ([], ground (arith, append-nil canonical), tt, (tt, tt))
  canonical_forms-IsFormed canonical (v ∷ values) canonical' h =
      elim (Result-cases (canonical_enum_value t v)) [
        | inl (e, failed) ↦ absurd (ground arith)
        | inr (form, canonicalised) ↦ elim (Bool-cases (exists? (text_eq form) canonical)) [
          | inl seen ↦ absurd (ground arith)
          | inr fresh ↦
              let (forms, appended, formed, unseen) =
                canonical_forms-IsFormed (canonical ++ form ∷ []) values canonical'
                  (ground arith) in
              (
                form ∷ forms,
                appended ∙ append_assoc canonical (form ∷ []) forms,
                (canonicalised, formed),
                (Unseen-cons form canonical forms).1
                    (fresh, (unseen_snoc canonical forms form unseen.0, unseen.1)),
              )
        ]
      ]

  unlike :
      (value : Text) (values : List Text) (e : CanonicalError)
      → canonical_enum_value t value ≡ err e
      → IsSame value values
      → ⊥
  unlike value [] e failed same = elim same [ ]
  unlike value (v ∷ values) e failed (inl (form, canonicalised, same)) = ground arith
  unlike value (v ∷ values) e failed (inr same) = unlike value values e failed same

  form_iff :
      (value form : Text) (values forms : List Text)
      → canonical_enum_value t value ≡ ok form
      → Forms values forms
      → (exists? (text_eq form) forms ≡ true) ↔ IsSame value values
  form_iff value form [] [] canonicalised formed = ground arith
  form_iff value form [] (x ∷ forms) canonicalised formed = elim formed [ ]
  form_iff value form (v ∷ values) [] canonicalised formed = elim formed [ ]
  form_iff value form (v ∷ values) (x ∷ forms) canonicalised (first, formed) =
      let rest = form_iff value form values forms canonicalised formed in
      let head = text_eq_iff form x in
      (
        λ seen. elim (Bool-cases (text_eq form x)) [
          | inl same ↦ inl (form, canonicalised, first ∙ ap ok (sym (head.0 same)))
          | inr differs ↦ inr (rest.0 (ground arith))
        ],
        λ same. elim same [
          | inl (form', one, other) ↦ ground (arith, head)
          | inr below ↦ ground (arith, rest.1 below)
        ],
      )

  is_member_iff :
      (value : Text) (values forms : List Text)
      → Forms values forms
      → (is_member t forms value ≡ true) ↔ IsSame value values
  unfolding is_member
  is_member_iff value values forms formed = elim (Result-cases (canonical_enum_value t value)) [
    | inl (e, failed) ↦ (ground arith, λ same. absurd (unlike value values e failed same))
    | inr (form, canonicalised) ↦
        rw canonicalised (form_iff value form values forms canonicalised formed)
  ]

-- The outcome of declaring an enum, seen on one value: a refusal leaves the flag as it is, and otherwise
-- the flag shows the values and accepts the one that is given iff it is the default or has the form of
-- one of them.
abbrev pub IsDeclared : Flag → List Text → Text → Option Violation × Flag → Type 0
IsDeclared f values value (some v, f') = f' ≡ f
IsDeclared f values value (none, f') =
    (forms : List Text) × (values ≢ [])
    × Forms f.flag_type values forms
    × Distinct forms
    × (f' ≡ record f { enum = some (record { allowed = values; canonical = forms }) })
    × (flag_enum f' ≡ values)
    × ((enum_set f' (record { allowed = values; canonical = forms }) value ≡ forwarded)
        ↔ ((value ≡ f.def_value) ⊎ IsSame f.flag_type value values))

taken :
    (f : Flag) (values : List Text) (value : Text) (forms : List Text)
    → values ≢ []
    → Forms f.flag_type values forms
    → Distinct forms
    → default_is_member f.flag_type forms f.def_value ≡ true
    → IsDeclared f values value
        (none, record f { enum = some (record { allowed = values; canonical = forms }) })
unfolding flag_enum enum_set
taken f values value forms some_value formed distinct default_ok = (
  forms,
  some_value,
  formed,
  distinct,
  refl,
  ground arith,
  ground
      (arith, is_member_iff f.flag_type value values forms formed, text_eq_iff value f.def_value),
)

with_forms-IsDeclared :
    (f : Flag) (values : List Text) (value : Text) (forms : List Text)
    → values ≢ []
    → Forms f.flag_type values forms
    → Distinct forms
    → IsDeclared f values value (with_forms f values (ok forms))
with_forms-IsDeclared f values value forms some_value formed distinct =
    elim (Bool-cases (default_is_member f.flag_type forms f.def_value)) [
      | inr outside ↦ rw outside refl
      | inl inside ↦ elim (Bool-cases (example_fits f forms (declared_example f))) [
        | inr misfit ↦ rw inside (rw misfit refl)
        | inl fits ↦
            rw inside (rw fits (taken f values value forms some_value formed distinct inside))
      ]
    ]

canonical_forms-IsDeclared :
    (f : Flag) (values : List Text) (value : Text)
    → values ≢ []
    → IsDeclared f values value (with_forms f values (canonical_forms f.flag_type [] values))
canonical_forms-IsDeclared f values value some_value =
    elim (Result-cases (canonical_forms f.flag_type [] values)) [
      | inl (v, failed) ↦ rw failed refl
      | inr (canonical, made) ↦
          let (forms, appended, formed, unseen) =
            canonical_forms-IsFormed f.flag_type [] values canonical made in
          rw (made ∙ ap ok appended)
            (with_forms-IsDeclared f values value forms some_value formed unseen.1)
    ]

-- Declaring an enum either fails and leaves the flag as it is, or records at least one value and the
-- forms of the values, all distinct; then the flag shows exactly these values, and setting it to a
-- value is forwarded iff the value is the default or has the form of one of them.
pub add_flag_enum-IsDeclared :
    (f : Flag) (values : List Text) (value : Text)
    → IsDeclared f values value (add_flag_enum f values)
unfolding add_flag_enum
add_flag_enum-IsDeclared f [] value = elim (Bool-cases (enum_type_supported f)) [
  | inr unsupported ↦ rw unsupported refl
  | inl supported ↦ rw supported refl
]
add_flag_enum-IsDeclared f (v ∷ values) value = elim (Bool-cases (enum_type_supported f)) [
  | inr unsupported ↦ rw unsupported refl
  | inl supported ↦
      rw supported (canonical_forms-IsDeclared f (v ∷ values) value (λ e. ground arith))
]
