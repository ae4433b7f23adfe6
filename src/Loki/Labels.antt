-- ===== src/Loki/Labels.antt =====
-- Which values of a log line become stream labels. json.Unmarshal of a line into its fields is the
-- parameter `decode`: `none` where the line is no JSON object.
use ax_go.Common.{
  Text, codes, text_eq, cut, Bool, true, ◌&&◌, ◌||◌, not, Option, none, some, List, [], ◌∷◌,
  is_empty, exists?, ◌≡◌, ◌≢◌, ◌⊎◌, inl, refl, arith, if◌then◌else◌,
}
use ax_go.Contract.Errors.{Assoc, assoc_lookup}
use ax_go.Contract.Json.{string}

abbrev pub level_unknown : Text
level_unknown = codes "unknown"

abbrev pub label_environment : Text
label_environment = codes "environment"

abbrev pub label_application : Text
label_application = codes "application"

abbrev pub label_host : Text
label_host = codes "host"

abbrev pub label_version : Text
label_version = codes "version"

abbrev pub label_level : Text
label_level = codes "level"

pub record StreamKey : Type 0 where
  pub environment : Text
  pub application : Text
  pub host : Text
  pub version : Text
  pub level : Text

pub record LabelPair : Type 0 where
  pub key : Text
  pub value : Text

-- The labels that the operator declares.
pub record Labels : Type 0 where
  pub environment : Text
  pub application : Text
  pub host : Text
  pub version : Text

abbrev level_value : Option (Text × Text) → Text
level_value none = level_unknown
level_value (some ([], rest)) = level_unknown
level_value (some (c ∷ level, rest)) = c ∷ level

abbrev level_after : Option (Text × Text) → Text
level_after none = level_unknown
level_after (some (before, rest)) = level_value (cut (b'"' ∷ []) rest)

unfoldable pub extract_level : Text → Text
extract_level line = level_after (cut (codes "\"level\":\"") line)

unfoldable pub json_string_field : Assoc → Text → Text
json_string_field fields name = elim (assoc_lookup name fields) [
  | none ↦ []
  | some v ↦ elim v [ string s ↦ s | _ ↦ [] ]
]

unfoldable pub is_sanctioned : List LabelPair → Text → Text → Bool
is_sanctioned pairs key value = exists? (λ p. text_eq p.key key && text_eq p.value value) pairs

unfoldable pub sanctioned_field : List LabelPair → Assoc → Text → Text
unfolding json_string_field
sanctioned_field pairs fields name =
    let value = json_string_field fields name in
    if is_empty value then [] else if is_sanctioned pairs name value then value else []

abbrev add_pair : Text → Text → List LabelPair → List LabelPair
add_pair key value pairs =
    if is_empty value then pairs else record { key = key; value = value } ∷ pairs

-- `SanctionLabels`
unfoldable pub sanction_labels : List LabelPair → Labels → List LabelPair
sanction_labels pairs labels = add_pair label_version labels.version (
    add_pair label_host labels.host (
      add_pair label_application labels.application
        (add_pair label_environment labels.environment pairs)))

abbrev level_key : Text → StreamKey
level_key level = record {
  environment = [];
  application = [];
  host = [];
  version = [];
  level = level;
}

unfoldable pub stream_key_of : List LabelPair → Text → Option Assoc → StreamKey
stream_key_of pairs level none = level_key level
stream_key_of pairs level (some fields) = record {
  environment = sanctioned_field pairs fields label_environment;
  application = sanctioned_field pairs fields label_application;
  host = sanctioned_field pairs fields label_host;
  version = sanctioned_field pairs fields label_version;
  level = level;
}

-- `streamKeyFromLine`
unfoldable pub stream_key_from_line : (Text → Option Assoc) → List LabelPair → Text → StreamKey
unfolding stream_key_of
stream_key_from_line decode pairs line = stream_key_of pairs (extract_level line) (decode line)

abbrev entry_unless_empty : Text → Text → List (Text × Text) → List (Text × Text)
entry_unless_empty key value m = if is_empty value then m else (key, value) ∷ m

-- `streamMap`, with its keys in the order in which they are set.
unfoldable pub stream_map : StreamKey → List (Text × Text)
stream_map key = entry_unless_empty label_environment key.environment (
    entry_unless_empty label_application key.application (
      entry_unless_empty label_host key.host (
        entry_unless_empty label_version key.version
          (entry_unless_empty label_level key.level []))))

-- A label is left out, or its exact pair was sanctioned.
abbrev IsPromotable : List LabelPair → Text → Text → Type 0
IsPromotable pairs key value = (value ≡ []) ⊎ (is_sanctioned pairs key value ≡ true)

sanctioned_field-IsPromotable :
    (pairs : List LabelPair) (fields : Assoc) (name : Text)
    → IsPromotable pairs name (sanctioned_field pairs fields name)
unfolding sanctioned_field
sanctioned_field-IsPromotable pairs fields name = ground arith

level_value-ne-nil : (o : Option (Text × Text)) → level_value o ≢ []
level_value-ne-nil none = λ e. cc
level_value-ne-nil (some ([], rest)) = λ e. cc
level_value-ne-nil (some (c ∷ level, rest)) = λ e. cc

level_after-ne-nil : (o : Option (Text × Text)) → level_after o ≢ []
level_after-ne-nil none = λ e. cc
level_after-ne-nil (some (before, rest)) = level_value-ne-nil (cut (b'"' ∷ []) rest)

extract_level-ne-nil : (line : Text) → extract_level line ≢ []
unfolding extract_level
extract_level-ne-nil line = level_after-ne-nil (cut (codes "\"level\":\"") line)

abbrev pub HasPromotable : List LabelPair → StreamKey → Type 0
HasPromotable pairs key =
    IsPromotable pairs label_environment key.environment
    × IsPromotable pairs label_application key.application
    × IsPromotable pairs label_host key.host
    × IsPromotable pairs label_version key.version
    × (key.level ≢ [])

stream_key_of-IsPromotable :
    (pairs : List LabelPair) (level : Text) (fields : Option Assoc)
    → level ≢ []
    → HasPromotable pairs (stream_key_of pairs level fields)
unfolding stream_key_of
stream_key_of-IsPromotable pairs level none ne = (inl refl, inl refl, inl refl, inl refl, ne)
stream_key_of-IsPromotable pairs level (some fields) ne = (
  sanctioned_field-IsPromotable pairs fields label_environment,
  sanctioned_field-IsPromotable pairs fields label_application,
  sanctioned_field-IsPromotable pairs fields label_host,
  sanctioned_field-IsPromotable pairs fields label_version,
  ne,
)

-- Whatever a log line holds, each of its four optional labels is left out or was sanctioned with
-- that exact value, and its level label is never empty.
pub stream_key_from_line-IsPromotable :
    (decode : Text → Option Assoc) (pairs : List LabelPair) (line : Text)
    → HasPromotable pairs (stream_key_from_line decode pairs line)
unfolding stream_key_from_line
stream_key_from_line-IsPromotable decode pairs line =
    stream_key_of-IsPromotable pairs (extract_level line) (decode line) (extract_level-ne-nil line)

-- Does declaring `value` under `key` sanction the pair of `j` and `x`?
abbrev pub declares : Text → Text → Text → Text → Bool
declares key value j x = not (is_empty value) && (text_eq key j && text_eq value x)

is_sanctioned-add_pair :
    (key value : Text) (pairs : List LabelPair) (j x : Text)
    → is_sanctioned (add_pair key value pairs) j x
      ≡ (declares key value j x || is_sanctioned pairs j x)
unfolding is_sanctioned
is_sanctioned-add_pair key [] pairs j x = refl
is_sanctioned-add_pair key (c ∷ value) pairs j x = refl

-- Sanctioning labels adds exactly the pairs of the four labels that are not empty, and keeps what
-- was sanctioned before.
pub is_sanctioned-sanction_labels :
    (pairs : List LabelPair) (labels : Labels) (j x : Text)
    → is_sanctioned (sanction_labels pairs labels) j x ≡ (
        declares label_version labels.version j x
        || (declares label_host labels.host j x
            || (declares label_application labels.application j x
                || (declares label_environment labels.environment j x || is_sanctioned pairs j x))))
unfolding sanction_labels
is_sanctioned-sanction_labels pairs labels j x = rw (
  is_sanctioned-add_pair label_version labels.version _ j x,
  is_sanctioned-add_pair label_host labels.host _ j x,
  is_sanctioned-add_pair label_application labels.application _ j x,
  is_sanctioned-add_pair label_environment labels.environment _ j x,
)
