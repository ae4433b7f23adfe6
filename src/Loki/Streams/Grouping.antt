-- ===== src/Loki/Streams/Grouping.antt =====
-- Grouping keeps every entry, under its own key and in order; the order of the streams is total.
use mathlib.Core.List.{Perm, append_assoc, append-nil}
use ax_go.Common.{
  fun_ext, Text, text_eq_iff, text_lt, true, false, List, [], ◌∷◌, ◌++◌, map, ◌≡◌, ◌↔◌, sym, ◌∙◌,
  ap, arith, if◌then◌else◌,
}
use ax_go.Common.Sorts.{IsOrder, IsSorted, sort-eq_of_perm, sort-IsSorted}
use ax_go.Common.TextOrder.{text_lt-IsOrder, by_text-IsOrder, text_lt_connex}
use ax_go.Loki.Labels.{stream_map, StreamKey}
use ax_go.Loki.Streams.{
  Entry, Value, Stream, key_eq, compare_stream_keys, Groups, values_of, add_value, value_of,
  group_onto, sorted_keys, push_body,
}

pub key_eq_iff : (a b : StreamKey) → (key_eq a b ≡ true) ↔ (a ≡ b)
unfolding key_eq
key_eq_iff a b = ground (
  arith,
  text_eq_iff a.environment b.environment,
  text_eq_iff a.application b.application,
  text_eq_iff a.host b.host,
  text_eq_iff a.version b.version,
  text_eq_iff a.level b.level,
)

values_of-add_value :
    (key j : StreamKey) (v : Value) (groups : Groups)
    → values_of j (add_value key v groups)
      ≡ (if key_eq key j then values_of j groups ++ v ∷ [] else values_of j groups)
unfolding values_of add_value
values_of-add_value key j v [] = ground arith
values_of-add_value key j v ((k, vs) ∷ groups) =
    ground (
      arith,
      key_eq_iff k key,
      key_eq_iff k j,
      key_eq_iff key j,
      values_of-add_value key j v groups,
    )

module _ (key_of : Text → StreamKey) where
  -- The values of the entries of one stream, in the order of the batch.
  abbrev pub entries_of : StreamKey → List Entry → List Value
  entries_of j [] = []
  entries_of j (e ∷ batch) =
      if key_eq (key_of e.line) j then value_of e ∷ entries_of j batch else entries_of j batch

  values_of-group_onto :
      (j : StreamKey) (groups : Groups) (batch : List Entry)
      → values_of j (group_onto key_of groups batch) ≡ values_of j groups ++ entries_of j batch
  unfolding group_onto
  values_of-group_onto j groups [] = sym (append-nil (values_of j groups))
  values_of-group_onto j groups (e ∷ batch) =
      values_of-group_onto j (add_value (key_of e.line) (value_of e) groups) batch
      ∙ ground (
        arith,
        values_of-add_value (key_of e.line) j (value_of e) groups,
        append_assoc (values_of j groups) (value_of e ∷ []) (entries_of j batch),
      )

pub compare_stream_keys-IsOrder : IsOrder compare_stream_keys
unfolding compare_stream_keys
compare_stream_keys-IsOrder =
    by_text-IsOrder (λ k. k.environment) _
      (by_text-IsOrder (λ k. k.application) _
        (by_text-IsOrder (λ k. k.host) _
          (by_text-IsOrder (λ k. k.version) (λ a b. text_lt a.level b.level) level_order)))
  where
    level_order : IsOrder {A = StreamKey} (λ a b. text_lt a.level b.level)
    level_order = record {
      asym = λ a b. text_lt-IsOrder.asym a.level b.level;
      le_trans = λ a b c. text_lt-IsOrder.le_trans a.level b.level c.level;
    }

compare_stream_keys_connex :
    (a b : StreamKey) → compare_stream_keys a b ≡ false → compare_stream_keys b a ≡ false → a ≡ b
unfolding compare_stream_keys
compare_stream_keys_connex a b h k = ground (
  arith,
  text_eq_iff a.environment b.environment,
  text_eq_iff a.application b.application,
  text_eq_iff a.host b.host,
  text_eq_iff a.version b.version,
  text_eq_iff b.environment a.environment,
  text_eq_iff b.application a.application,
  text_eq_iff b.host a.host,
  text_eq_iff b.version a.version,
  text_lt_connex a.environment b.environment,
  text_lt_connex a.application b.application,
  text_lt_connex a.host b.host,
  text_lt_connex a.version b.version,
  text_lt_connex a.level b.level,
)

-- A push has one stream for each key, in the order of the keys; the stream has the labels of its key
-- and exactly the entries of the batch with that key, in the order in which they were queued.
pub push_body-values :
    (key_of : Text → StreamKey) (batch : List Entry)
    → push_body key_of batch
      ≡ map
          (λ j. record { stream = stream_map j; values = entries_of key_of j batch })
          (sorted_keys (group_onto key_of [] batch))
unfolding push_body values_of
push_body-values key_of batch =
    ap (λ (f : StreamKey → Stream). map f (sorted_keys (group_onto key_of [] batch)))
      (fun_ext λ j.
        ap (λ v. record { stream = stream_map j; values = v })
          (values_of-group_onto key_of j [] batch))

StreamKeys-set : IsSet (List StreamKey)
StreamKeys-set = hlevel

-- The order of the streams does not depend on the order in which the map of groups is walked, and
-- no stream stands before one with a smaller key.
pub sorted_keys_lem :
    (groups other : Groups)
    → Perm (map (λ g. g.0) groups) (map (λ g. g.0) other)
    → (sorted_keys groups ≡ sorted_keys other) × IsSorted compare_stream_keys (sorted_keys groups)
unfolding sorted_keys
sorted_keys_lem groups other p = (
  sort-eq_of_perm compare_stream_keys compare_stream_keys-IsOrder compare_stream_keys_connex
      StreamKeys-set p,
  sort-IsSorted compare_stream_keys compare_stream_keys-IsOrder (map (λ g. g.0) groups),
)
