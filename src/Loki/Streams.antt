-- ===== src/Loki/Streams.antt =====
-- The body of one push, of `postBatch`: entries grouped by stream key, one stream for each key, in
-- the order of the keys. HTTP, timeouts and diagnostics of the push are left out.
pub mod Grouping
use ax_go.Common.{
  ℕ, Text, text_eq, text_lt, Bool, true, false, ◌&&◌, List, [], ◌∷◌, ◌++◌, ℤ, show_int, map,
  if◌then◌else◌,
}
use ax_go.Common.Sorts.{sort}
use ax_go.Loki.Labels.{StreamKey, stream_map}

pub record Entry : Type 0 where
  pub ts : ℤ
  pub line : Text

-- `[2]string{ts, line}`
abbrev pub Value : Type 0
Value = Text × Text

pub record Stream : Type 0 where
  pub stream : List (Text × Text)
  pub values : List Value

-- Equality of stream keys, as a map compares them.
unfoldable pub key_eq : StreamKey → StreamKey → Bool
key_eq a b =
    text_eq a.environment b.environment
    && (text_eq a.application b.application
        && (text_eq a.host b.host && (text_eq a.version b.version && text_eq a.level b.level)))

-- `compareStreamKeys`
unfoldable pub compare_stream_keys : StreamKey → StreamKey → Bool
compare_stream_keys a b =
    if text_eq a.environment b.environment
    then if text_eq a.application b.application
      then if text_eq a.host b.host
        then if text_eq a.version b.version
          then text_lt a.level b.level
          else text_lt a.version b.version
        else text_lt a.host b.host
      else text_lt a.application b.application
    else text_lt a.environment b.environment

abbrev pub Groups : Type 0
Groups = List (StreamKey × List Value)

-- `byStream[key]`
unfoldable pub values_of : StreamKey → Groups → List Value
values_of key [] = []
values_of key ((k, vs) ∷ groups) = if key_eq k key then vs else values_of key groups

-- `byStream[key] = append(byStream[key], v)`
unfoldable pub add_value : StreamKey → Value → Groups → Groups
add_value key v [] = (key, v ∷ []) ∷ []
add_value key v ((k, vs) ∷ groups) =
    if key_eq k key then (k, vs ++ v ∷ []) ∷ groups else (k, vs) ∷ add_value key v groups

abbrev pub value_of : Entry → Value
value_of e = (show_int e.ts, e.line)

unfoldable pub group_onto : (Text → StreamKey) → Groups → List Entry → Groups
unfolding add_value
group_onto key_of groups [] = groups
group_onto key_of groups (e ∷ batch) =
    group_onto key_of (add_value (key_of e.line) (value_of e) groups) batch

unfoldable pub sorted_keys : Groups → List StreamKey
unfolding sort
sorted_keys groups = sort compare_stream_keys (map (λ g. g.0) groups)

unfoldable pub push_body : (Text → StreamKey) → List Entry → List Stream
push_body key_of batch =
    let groups = group_onto key_of [] batch in
    map (λ key. record { stream = stream_map key; values = values_of key groups })
      (sorted_keys groups)
