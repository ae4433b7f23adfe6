-- ===== src/Mcp/Inputs.antt =====
-- The input schema of a tool.
use mathlib.Core.Path.{subst}
use ax_go.Common.{
  Text, text_eq, text_eq_iff, text_lt, Bool, false, Option, none, some, List, [], ◌∷◌, map, keep,
  ◌++◌, exists?, if◌then◌else◌, All, ◌≡◌, ◌≢◌, refl, ap, ◌∙◌, arith, Bool-cases, inl, inr,
}
use ax_go.Common.Sorts.{IsSorted, sort-IsSorted, exists?-sort}
use ax_go.Common.TextOrder.{text_lt-IsOrder}
use ax_go.Common.Distinct.{Distinct}
use ax_go.Schema.Pflag.{Flag}
use ax_go.Schema.{Command}
use ax_go.Schema.Convert.Values.{Parsers}
use ax_go.Schema.Reflect.{is_required_flag, flags_of, names_of, named, flags_of-IsResolved}
use ax_go.Mcp.{required_flags, flag_properties, flag_property, Property, InputSchema, input_schema}

abbrev pub is_marked : Option Flag → Bool
is_marked none = false
is_marked (some f) = is_required_flag f

unnamed :
    (name : Text) (flags : List Flag)
    → All (λ n. n ≢ name) (names_of flags)
    → exists? (text_eq name) (map (λ (f : Flag). f.name) (keep is_required_flag flags)) ≡ false
unnamed name [] h = refl
unnamed name (f ∷ flags) h = ground (arith, unnamed name flags h.1, text_eq_iff name f.name)

required_named :
    (name : Text) (flags : List Flag)
    → Distinct (names_of flags)
    → exists? (text_eq name) (map (λ (f : Flag). f.name) (keep is_required_flag flags))
      ≡ is_marked (named name flags)
required_named name [] h = refl
required_named name (f ∷ flags) h = elim (Bool-cases (text_eq f.name name)) [
  | inl same ↦
      let e : f.name ≡ name = (text_eq_iff f.name name).0 same in
      let later =
        subst
          (λ n.
            exists? (text_eq n) (map (λ (g : Flag). g.name) (keep is_required_flag flags)) ≡ false)
          e (unnamed f.name flags h.0) in
      ground (arith, text_eq_iff name f.name)
  | inr differs ↦
      ground
        (arith, required_named name flags h.1, text_eq_iff name f.name, text_eq_iff f.name name)
]

abbrev property_named {ℓ} : {A : Type ℓ} → Text → List (Text × A) → Option A
property_named name [] = none
property_named name ((n, a) ∷ entries) =
    if text_eq n name then some a else property_named name entries

module _ (p : Parsers) where
  abbrev shown_of : Option Flag → Option (Property p)
  shown_of none = none
  shown_of (some f) = some (flag_property p f)

  property_lem :
      (name : Text) (flags : List Flag)
      → property_named name (map (λ (f : Flag). (f.name, flag_property p f)) flags)
        ≡ shown_of (named name flags)
  property_lem name [] = refl
  property_lem name (f ∷ flags) = ground (arith, property_lem name flags)

  -- What the schema says of the input with this name.
  abbrev pub IsFaithful : Command → Text → InputSchema p → Type 0
  IsFaithful cmd name schema =
      let f = named name (cmd.own_flags ++ cmd.inherited_flags) in
      (property_named name schema.properties ≡ shown_of f)
      × (exists? (text_eq name) schema.required ≡ is_marked f)
      × IsSorted text_lt schema.required

  -- An input has the property of the flag that its name stands for on the command, its own flag before
  -- an inherited one; the required inputs are sorted, and are those whose flag is marked.
  pub input_schema-IsFaithful :
      (cmd : Command) (name : Text) → IsFaithful cmd name (input_schema p cmd)
  unfolding input_schema flag_properties required_flags
  input_schema-IsFaithful cmd name =
      let (distinct, resolved) = flags_of-IsResolved cmd name in
      (
        property_lem name (flags_of cmd) ∙ ap shown_of resolved,
        exists?-sort text_lt (text_eq name) _
            ∙ required_named name (flags_of cmd) distinct
            ∙ ap is_marked resolved,
        sort-IsSorted text_lt text_lt-IsOrder _,
      )
