-- ===== src/Schema/Flags/Consistent.antt =====
-- What a flag shows of what was declared on it.
use ax_go.Common.{
  Text, true, false, Option, none, some, List, [], ◌∷◌, is_empty, Result, ok, err, ◌≡◌, refl, arith,
  Bool-cases, Option-cases, inl, inr,
}
use ax_go.Schema.Pflag.{Enum, Flag}
use ax_go.Schema.{Violation}
use ax_go.Schema.Convert.Values.{Parsers}
use ax_go.Schema.Flags.{
  default_is_member, enum_type_supported, example_fits, declared_example, canonical_forms,
  with_forms, add_flag_enum, flag_enum, example_problem, set_example, add_flag_example, shown,
  flag_example,
}

-- A declaration on a flag, and a run of them whose violations the caller ignores.
pub data Declaration : Type 0 where
  enum_of : List Text → Declaration
  example_of : Text → Declaration

abbrev pub ShowsEnum : Option Enum → List Text → Type 0
ShowsEnum none values = values ≡ []
ShowsEnum (some enum) values = values ≡ enum.allowed

abbrev pub ShowsExample : Option Text → Text → Type 0
ShowsExample none example = example ≡ []
ShowsExample (some declared) example = example ≡ declared

module _ (p : Parsers) where
  abbrev pub declare : Declaration → Flag → Flag
  declare (enum_of values) f = (add_flag_enum f values).1
  declare (example_of example) f = (add_flag_example p f example).1

  abbrev pub declare_all : List Declaration → Flag → Flag
  declare_all [] f = f
  declare_all (d ∷ ds) f = declare_all ds (declare d f)

  -- What was declared on the flag is what it shows.
  abbrev pub IsConsistent : Flag → Type 0
  IsConsistent f =
      ShowsEnum f.enum (flag_enum f) × ShowsExample (declared_example f) (flag_example p f)

  abbrev with_enum : Flag → List Text → List Text → Flag
  with_enum f values canonical = record f {
    enum = some (record { allowed = values; canonical = canonical });
  }

  still_shown :
      (f : Flag) (values canonical : List Text) (declared : Option Text)
      → example_fits f canonical declared ≡ true
      → ShowsExample declared (shown p f declared)
      → ShowsExample declared (shown p (with_enum f values canonical) declared)
  unfolding example_problem
  still_shown f values canonical none fits h = refl
  still_shown f values canonical (some []) fits h = ground arith
  still_shown f values canonical (some (c ∷ e)) fits h = ground arith

  with_forms-IsConsistent :
      (f : Flag) (values canonical : List Text)
      → IsConsistent f
      → IsConsistent (with_forms f values (ok canonical)).1
  unfolding flag_enum flag_example declared_example
  with_forms-IsConsistent f values canonical h =
      elim (Bool-cases (default_is_member f.flag_type canonical f.def_value)) [
        | inr outside ↦ rw outside h
        | inl inside ↦ elim (Bool-cases (example_fits f canonical (declared_example f))) [
          | inr misfit ↦ rw inside (rw misfit h)
          | inl fits ↦
              rw inside (
                rw fits
                  (ground arith, still_shown f values canonical (declared_example f) fits h.1))
        ]
      ]

  set_example-IsConsistent :
      (f : Flag) (example : Text)
      → is_empty example ≡ false
      → IsConsistent f
      → IsConsistent (set_example p f example (example_problem p f example)).1
  unfolding flag_enum flag_example example_problem declared_example
  set_example-IsConsistent f example some_text h =
      elim (Option-cases (example_problem p f example)) [
        | inr (reason, wrong) ↦ rw wrong h
        | inl fine ↦ rw fine (h.0, ground arith)
      ]

  any_forms-IsConsistent :
      (f : Flag) (values : List Text) (forms : Result Violation (List Text))
      → IsConsistent f
      → IsConsistent (with_forms f values forms).1
  any_forms-IsConsistent f values (err v) h = h
  any_forms-IsConsistent f values (ok canonical) h = with_forms-IsConsistent f values canonical h

  add_flag_enum-IsConsistent :
      (f : Flag) (values : List Text) → IsConsistent f → IsConsistent (add_flag_enum f values).1
  unfolding add_flag_enum
  add_flag_enum-IsConsistent f [] h = elim (Bool-cases (enum_type_supported f)) [
    | inr unsupported ↦ rw unsupported h
    | inl supported ↦ rw supported h
  ]
  add_flag_enum-IsConsistent f (v ∷ values) h = elim (Bool-cases (enum_type_supported f)) [
    | inr unsupported ↦ rw unsupported h
    | inl supported ↦
        rw supported
          (any_forms-IsConsistent f (v ∷ values) (canonical_forms f.flag_type [] (v ∷ values)) h)
  ]

  declare-IsConsistent : (d : Declaration) (f : Flag) → IsConsistent f → IsConsistent (declare d f)
  unfolding add_flag_example
  declare-IsConsistent (enum_of values) f h = add_flag_enum-IsConsistent f values h
  declare-IsConsistent (example_of []) f h = h
  declare-IsConsistent (example_of (c ∷ example)) f h =
      set_example-IsConsistent f (c ∷ example) refl h

  -- However enums and examples are declared on a flag that shows what was declared on it, refused
  -- declarations included, the flag still shows it: all values of its last enum, and its last example.
  pub declare_all-IsConsistent :
      (ds : List Declaration) (f : Flag) → IsConsistent f → IsConsistent (declare_all ds f)
  declare_all-IsConsistent [] f h = h
  declare_all-IsConsistent (d ∷ ds) f h =
      declare_all-IsConsistent ds (declare d f) (declare-IsConsistent d f h)
