-- ===== src/McpServer/Arguments/Deterministic.antt =====
-- The arguments of a call are a map, which the source walks in no fixed order.
use mathlib.Core.List.{Perm}
use ax_go.Common.{
  Text, text_eq, text_eq_iff, text_eq_refl, false, Option, none, some, List, [], ◌∷◌, map,
  if◌then◌else◌, Result, All, ◌≡◌, ◌≢◌, refl, ap, arith,
}
use ax_go.Common.Distinct.{Distinct}
use ax_go.Common.Sorts.{IsOrder, sort-eq_of_perm_on}
use ax_go.Common.TextOrder.{text_lt-IsOrder, text_lt_connex}
use ax_go.McpServer.Arguments.{Value, apply_args}
use ax_go.McpServer.Arguments.Build.{Target, by_key, start, finished, build_args}

-- The value of a key.
abbrev value_of : Text → List (Text × Value) → Option Value
value_of key [] = none
value_of key ((k, v) ∷ args) = if text_eq k key then some v else value_of key args

abbrev IsEntry : List (Text × Value) → Text × Value → Type 0
IsEntry args (key, value) = value_of key args ≡ some value

Value-set : IsSet (List (Text × Value))
Value-set = hlevel

by_key-IsOrder : IsOrder by_key
by_key-IsOrder = record {
  asym = λ a b. text_lt-IsOrder.asym a.0 b.0;
  le_trans = λ a b c. text_lt-IsOrder.le_trans a.0 b.0 c.0;
}

later-IsEntry :
    (a : Text × Value) (args entries : List (Text × Value))
    → All (λ k. k ≢ a.0) (map (λ (e : Text × Value). e.0) entries)
    → All (IsEntry args) entries
    → All (IsEntry (a ∷ args)) entries
later-IsEntry a args [] apart h = tt
later-IsEntry (k, v) args ((j, w) ∷ entries) apart h =
    ((ground (arith, text_eq_iff k j, apart, h)), later-IsEntry (k, v) args entries apart.1 h.1)

all-IsEntry :
    (args : List (Text × Value))
    → Distinct (map (λ (e : Text × Value). e.0) args)
    → All (IsEntry args) args
all-IsEntry [] h = tt
all-IsEntry ((k, v) ∷ args) h =
    (rw (text_eq_refl k) refl, later-IsEntry (k, v) args args h.0 (all-IsEntry args h.1))

one_value :
    (args : List (Text × Value)) (a b : Text × Value)
    → IsEntry args a
    → IsEntry args b
    → by_key a b ≡ false
    → by_key b a ≡ false
    → a ≡ b
one_value args (k, v) (j, w) hv hw ab ba =
    let keys : k ≡ j = text_lt_connex k j ab ba in let values : v ≡ w = cc in cc

-- Two calls with the same arguments, whatever the order in which the map yields them, build the
-- same argument vector, assignments and settings, or fail in the same way, where no key occurs
-- twice.
pub build_args-eq_of_perm :
    (read_csv : Text → Result Text (List Text)) (t : Target) {args args' : List (Text × Value)}
    → Distinct (map (λ (e : Text × Value). e.0) args)
    → Perm args args'
    → build_args read_csv t args ≡ build_args read_csv t args'
unfolding build_args
build_args-eq_of_perm read_csv t {args} distinct p =
    ap (λ sorted. finished t (apply_args read_csv t.allowed sorted start))
      (sort-eq_of_perm_on by_key by_key-IsOrder (IsEntry args) (one_value args) Value-set p
        (all-IsEntry args distinct))
