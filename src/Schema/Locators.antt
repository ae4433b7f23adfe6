-- ===== src/Schema/Locators.antt =====
-- The locators of nondeterministic fields, of internal/schema/nondeterministic.go: the walk over a
-- type, and the annotations of a command that keep them. A reflect.Type is a number that a table
-- describes, so that a type may contain itself; a map is the list of its keys.
pub mod Walked
pub mod Registered
pub mod Reached
use ax_go.Common.{
  ℕ, zero, suc, Text, codes, text_eq, has_prefix, cut, text_lt, join, Bool, true, false, not, ◌&&◌,
  ◌||◌, Option, none, some, List, [], ◌∷◌, ◌++◌, is_empty, exists?, keep, All, if◌then◌else◌, ◌==◌,
  ◌≡◌,
}
use ax_go.Common.Sorts.{sort}
use ax_go.Common.Utf8.{valid_string}
use ax_go.Schema.Declare.{Annotations, annotation, set_annotation}

-- A reflect.StructField: PkgPath is empty, the two tags, Anonymous, and its type.
pub record Field : Type 0 where
  pub name : Text
  pub exported : Bool
  pub json_tag : Text
  pub ax_tag : Text
  pub anonymous : Bool
  pub field_type : ℕ

-- A container is an array, a map, a pointer or a slice of its Elem.
pub data Shape : Type 0 where
  struct : List Field → Shape
  container : ℕ → Shape
  other : Shape

abbrev pub Types : Type 0
Types = ℕ → Shape

unfoldable pub add_key : Text → List Text → List Text
add_key key keys = if exists? (text_eq key) keys then keys else key ∷ keys

unfoldable pub unique : List Text → List Text → List Text
unique keys [] = keys
unique keys (value ∷ values) = unique (add_key value keys) values

unfoldable pub sorted_keys : List Text → List Text
sorted_keys keys = sort text_lt keys

unfoldable pub sorted_unique : List Text → List Text
sorted_unique values = sorted_keys (unique [] values)

abbrev pub element_of : ℕ → Shape → (ℕ → Option ℕ) → Option ℕ
element_of t (struct fields) next = some t
element_of t other next = some t
element_of t (container elem) next = next elem

-- The loop of `locatorElementType`; none if it has not returned after that many rounds.
unfoldable pub locator_element_type : ℕ → Types → ℕ → Option ℕ
locator_element_type zero types t = none
locator_element_type (suc fuel) types t =
    element_of t (types t) (λ elem. locator_element_type fuel types elem)

abbrev pub before_comma : Text → Option (Text × Text) → Text
before_comma tag none = tag
before_comma tag (some (name, options)) = name

-- The name of the tag, and whether the field is skipped.
unfoldable pub json_field_name : Field → Text × Bool
json_field_name f =
    if text_eq f.json_tag (codes "-")
    then ([], true)
    else (before_comma f.json_tag (cut (codes ",") f.json_tag), false)

abbrev pub and_then {ℓ} : {A B : Type ℓ} → Option A → (A → Option B) → Option B
and_then none next = none
and_then (some a) next = next a

abbrev pub is_struct : Shape → Bool
is_struct (struct fields) = true
is_struct _ = false

unfoldable pub append_path : List Text → Text → List Text
append_path path segment = path ++ segment ∷ []

abbrev pub path_of : List Text → Field → Text → Bool → List Text
path_of path f json_name true = path
path_of path f json_name false = append_path path (if is_empty json_name then f.name else json_name)

abbrev pub mark : Field → List Text → List Text → List Text
mark f path locators =
    if text_eq f.ax_tag (codes "nondeterministic")
    then add_key (join (codes ".") path) locators
    else locators

-- A struct that the walk is not in already is entered.
abbrev pub enter : Bool → Shape → List Text → (List Field → Option (List Text)) → Option (List Text)
enter active (struct fields) locators next = if active then some locators else next fields
enter active (container elem) locators next = some locators
enter active other locators next = some locators

module _ (types : Types) (element : ℕ → Option ℕ) where
  -- The walk does not look at the element type of a field with a name.
  unfoldable pub anonymous_struct_field : Field → Text → Option Bool
  anonymous_struct_field f json_name =
      if not f.anonymous || not (is_empty json_name)
      then some false
      else and_then (element f.field_type) (λ t. some (is_struct (types t)))

  module _ (walk_type : List Text → ℕ → List Text → Option (List Text)) where
    abbrev pub walk_field : List Text → Field → Text → Bool → List Text → Option (List Text)
    walk_field path f json_name embedded locators =
        walk_type (path_of path f json_name embedded) f.field_type
          (mark f (path_of path f json_name embedded) locators)

    abbrev pub visit_field : List Text → Field → Text × Bool → List Text → Option (List Text)
    visit_field path f (json_name, true) locators = some locators
    visit_field path f (json_name, false) locators =
        and_then (anonymous_struct_field f json_name)
          (λ embedded. walk_field path f json_name embedded locators)

    -- The loop over the fields of a struct.
    unfoldable pub walk_fields : List Text → List Field → List Text → Option (List Text)
    walk_fields path [] locators = some locators
    walk_fields path (f ∷ fields) locators =
        and_then
          (if f.exported then visit_field path f (json_field_name f) locators else some locators)
          (λ locators'. walk_fields path fields locators')

  abbrev pub is_active : ℕ → List ℕ → Bool
  is_active t active = exists? (λ u. t == u) active

  -- `depth_left` is 64 less the depth.
  unfoldable pub walk_data_locators :
      (depth_left : ℕ) (active : List ℕ) → List Text → ℕ → List Text → Option (List Text)
  walk_data_locators zero active path t locators = some locators
  walk_data_locators (suc left) active path t locators = and_then (element t) (λ e.
      enter (is_active e active) (types e) locators
        (λ fields. walk_fields (walk_data_locators left (e ∷ active)) path fields locators))

unfoldable pub data_locators : ℕ → Types → Option ℕ → Option (List Text)
data_locators fuel types none = some []
data_locators fuel types (some t) =
    and_then
      (walk_data_locators types (locator_element_type fuel types) 64 [] (codes "data" ∷ []) t [])
      (λ locators. some (sorted_keys locators))

-- json.Marshal and json.Unmarshal on a list of strings: valid UTF-8 is read back as it was written.
pub record StringsJson : Type 0 where
  pub decode : Text → Option (List Text)
  pub encode : List Text → Text
  pub decode-encode :
      (texts : List Text)
      → All (λ t. valid_string t ≡ true) texts
      → decode (encode texts) ≡ some texts

abbrev pub envelope_annotation_key : Text
envelope_annotation_key = codes "github.com/rshade/ax-go/schema/envelope"

abbrev pub locators_annotation_key : Text
locators_annotation_key = codes "github.com/rshade/ax-go/schema/non-deterministic-fields"

abbrev pub or_empty : Option Text → Text
or_empty none = []
or_empty (some text) = text

abbrev pub builtin_locators : List Text
builtin_locators = codes "meta.idempotency_key" ∷ codes "meta.span_id" ∷ codes "meta.trace_id" ∷ []

module _ (json : StringsJson) where
  -- RegisterEnvelope on a command that is not nil.
  unfoldable pub register_envelope : Annotations → List Text → Annotations
  register_envelope annotations locators =
      set_annotation locators_annotation_key (json.encode (sorted_unique locators))
        (set_annotation envelope_annotation_key (codes "true") annotations)

  abbrev pub data_only : Option (List Text) → List Text
  data_only none = []
  data_only (some locators) = keep (has_prefix (codes "data.")) locators

  unfoldable pub non_deterministic_fields : Annotations → List Text
  non_deterministic_fields annotations =
      if not (text_eq (or_empty (annotation envelope_annotation_key annotations)) (codes "true"))
      then []
      else sorted_unique (
          builtin_locators
          ++ data_only (json.decode (or_empty (annotation locators_annotation_key annotations))))
