-- ===== src/Schema/Locators/Registered.antt =====
-- The locators of a command, as they are registered and read back.
use ax_go.Common.{
  Text, codes, text_eq, text_eq_refl, text_eq_iff, text_lt, has_prefix, Bool, true, ◌&&◌, ◌||◌,
  some, List, [], ◌∷◌, ◌++◌, exists?, keep, All, ◌≡◌, refl, ap, ◌∙◌, arith, Bool-cases, inl, inr,
}
use ax_go.Common.Utf8.{valid_string}
use ax_go.Common.Sorts.{All-sort, sort-IsSorted, IsSorted, exists?-sort}
use ax_go.Common.TextOrder.{text_lt-IsOrder}
use ax_go.Schema.Declare.{Annotations, annotation}
use ax_go.Schema.Declare.Laws.{annotation-set_annotation}
use ax_go.Schema.Locators.{
  add_key, unique, sorted_keys, sorted_unique, StringsJson, envelope_annotation_key,
  locators_annotation_key, builtin_locators, register_envelope, non_deterministic_fields,
}

abbrev pub has : Text → List Text → Bool
has x xs = exists? (text_eq x) xs

pub has-add_key : (x key : Text) (keys : List Text) → has x (add_key key keys) ≡ has x (key ∷ keys)
unfolding add_key
has-add_key x key keys = elim (Bool-cases (exists? (text_eq key) keys)) [
  | inr fresh ↦ rw fresh refl
  | inl seen ↦ rw seen (elim (Bool-cases (text_eq x key)) [
    | inr differs ↦ ground arith
    | inl same ↦ rw ((text_eq_iff x key).0 same) (ground (arith, text_eq_refl key))
  ])
]

has-unique :
    (x : Text) (keys values : List Text) → has x (unique keys values) ≡ (has x keys || has x values)
unfolding unique
has-unique x keys [] = ground arith
has-unique x keys (value ∷ values) =
    ground (arith, has-unique x (add_key value keys) values, has-add_key x value keys)

has-sorted_unique : (x : Text) (values : List Text) → has x (sorted_unique values) ≡ has x values
unfolding sorted_unique sorted_keys
has-sorted_unique x values =
    exists?-sort text_lt (text_eq x) (unique [] values) ∙ has-unique x [] values

has-append : (x : Text) (xs ys : List Text) → has x (xs ++ ys) ≡ (has x xs || has x ys)
has-append x [] ys = refl
has-append x (y ∷ xs) ys = ground (arith, has-append x xs ys)

has-keep : (x : Text) (p : Text → Bool) (xs : List Text) → has x (keep p xs) ≡ (p x && has x xs)
has-keep x p [] = ground arith
has-keep x p (y ∷ xs) = elim (Bool-cases (text_eq x y)) [
  | inr differs ↦ ground (arith, has-keep x p xs)
  | inl same ↦ rw ((text_eq_iff x y).0 same) (ground (arith, has-keep y p xs, text_eq_refl y))
]

pub add_key-All :
    (P : Text → Type 0) (key : Text) (keys : List Text)
    → P key
    → All P keys
    → All P (add_key key keys)
unfolding add_key
add_key-All P key keys p h = elim (Bool-cases (exists? (text_eq key) keys)) [
  | inl seen ↦ rw seen h
  | inr fresh ↦ rw fresh (p, h)
]

unique-All :
    (P : Text → Type 0) (keys values : List Text)
    → All P keys
    → All P values
    → All P (unique keys values)
unfolding unique
unique-All P keys [] h k = h
unique-All P keys (value ∷ values) h k =
    unique-All P (add_key value keys) values (add_key-All P value keys k.0 h) k.1

sorted_unique-All :
    (P : Text → Type 0) (values : List Text) → All P values → All P (sorted_unique values)
unfolding sorted_unique sorted_keys
sorted_unique-All P values h = All-sort text_lt P _ (unique-All P [] values tt h)

module _ (json : StringsJson) where
  locators_registered :
      (annotations : Annotations) (locators : List Text)
      → annotation locators_annotation_key (register_envelope json annotations locators)
        ≡ some (json.encode (sorted_unique locators))
  unfolding register_envelope text_eq
  locators_registered annotations locators =
      annotation-set_annotation locators_annotation_key locators_annotation_key _ _

  envelope_registered :
      (annotations : Annotations) (locators : List Text)
      → annotation envelope_annotation_key (register_envelope json annotations locators)
        ≡ some (codes "true")
  unfolding register_envelope text_eq
  envelope_registered annotations locators =
      annotation-set_annotation locators_annotation_key envelope_annotation_key _ _
      ∙ annotation-set_annotation envelope_annotation_key envelope_annotation_key _ _

  registered_fields :
      (annotations : Annotations) (locators : List Text)
      → All (λ t. valid_string t ≡ true) locators
      → non_deterministic_fields json (register_envelope json annotations locators)
        ≡ sorted_unique
            (builtin_locators ++ keep (has_prefix (codes "data.")) (sorted_unique locators))
  unfolding non_deterministic_fields text_eq
  registered_fields annotations locators valid =
      rw (envelope_registered annotations locators, locators_registered annotations locators)
        (rw
          (json.decode-encode (sorted_unique locators)
            (sorted_unique-All (λ t. valid_string t ≡ true) locators valid))
          refl)

  -- After a command is registered with some locators, what it reports are, sorted, the three fields of
  -- the envelope and those of the locators that start with `data.`, whatever was registered before. The locators are
  -- valid UTF-8.
  pub non_deterministic_fields-register_envelope :
      (annotations : Annotations) (locators : List Text) (x : Text)
      → All (λ t. valid_string t ≡ true) locators
      → (has x (non_deterministic_fields json (register_envelope json annotations locators))
          ≡ (has x builtin_locators || (has_prefix (codes "data.") x && has x locators)))
        × IsSorted text_lt
            (non_deterministic_fields json (register_envelope json annotations locators))
  unfolding sorted_unique sorted_keys
  non_deterministic_fields-register_envelope annotations locators x valid =
      rw (registered_fields annotations locators valid) (
        has-sorted_unique x _
            ∙ has-append x builtin_locators _
            ∙ ap (λ b. has x builtin_locators || b)
                (has-keep x (has_prefix (codes "data.")) (sorted_unique locators)
                  ∙ ap (λ b. has_prefix (codes "data.") x && b) (has-sorted_unique x locators)),
        sort-IsSorted text_lt text_lt-IsOrder _,
      )
