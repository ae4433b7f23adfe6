-- ===== src/Tests/Locators.antt =====
-- A struct that points to itself, the locators of a command, and a long key.
use ax_go.Common.{
  ℕ, zero, suc, length, ◌≤◌, Text, codes, text_eq, has_prefix, cut_prefix, text_lt, true, false,
  some, [], ◌∷◌, ◌≡◌, ◌↔◌, refl, arith,
}
use ax_go.Common.Sorts.{IsSorted}
use ax_go.Common.Utf8.{valid_string, runes, runes_from, lead_byte}
use ax_go.Schema.Keys.{IsShown, truncate_key, truncate_key-IsShown}
use ax_go.Schema.Locators.{
  Field, struct, container, other, Types, locator_element_type, data_locators, StringsJson,
  register_envelope, non_deterministic_fields,
}
use ax_go.Schema.Locators.Walked.{Returns}
use ax_go.Schema.Locators.Reached.{Reaches, data_locators-Reaches}
use ax_go.Schema.Locators.Registered.{has, non_deterministic_fields-register_envelope}
use ax_go.Tests.Schema.Codec.{strings_of}

abbrev field : Text → Text → Text → ℕ → Field
field name json_tag ax_tag t = record {
  name = name;
  exported = true;
  json_tag = json_tag;
  ax_tag = ax_tag;
  anonymous = false;
  field_type = t;
}

-- Type 0 is a struct, 1 a slice of it, and every other type is a number.
abbrev tree_types : Types
tree_types zero = struct (
    field (codes "ID") (codes "id,omitempty") (codes "nondeterministic") 2
    ∷ field (codes "Children") (codes "children") [] 1
    ∷ [])
tree_types (suc zero) = container 0
tree_types (suc (suc t)) = other

tree-Returns : (t : ℕ) → Returns (λ e. Unit) (locator_element_type 2 tree_types t)
unfolding locator_element_type
tree-Returns zero = tt
tree-Returns (suc zero) = tt
tree-Returns (suc (suc t)) = tt

data_locators-Reaches_example :
    Returns
      (λ locators.
        ((x : Text)
          → (has x locators ≡ true)
            ↔ Reaches tree_types (locator_element_type 2 tree_types) 64 [] (codes "data" ∷ []) 1 x)
        × IsSorted text_lt locators)
      (data_locators 2 tree_types (some 1))
    × (data_locators 7 tree_types (some 1) ≡ data_locators 2 tree_types (some 1))
data_locators-Reaches_example = data_locators-Reaches 2 7 tree_types 1 tree-Returns (omega arith)

abbrev strings : StringsJson
strings = strings_of

non_deterministic_fields-register_envelope_example :
    (has
        (codes "data.id")
        (non_deterministic_fields strings (register_envelope strings [] (codes "data.id" ∷ [])))
      ≡ true)
    × IsSorted text_lt
        (non_deterministic_fields strings (register_envelope strings [] (codes "data.id" ∷ [])))
unfolding text_eq has_prefix cut_prefix valid_string runes runes_from lead_byte
non_deterministic_fields-register_envelope_example =
    non_deterministic_fields-register_envelope strings [] (codes "data.id" ∷ []) (codes "data.id")
      (refl, tt)

abbrev fill : ℕ → Text → Text
fill zero rest = rest
fill (suc n) rest = b'a' ∷ fill n rest

-- The byte 128 is the second one of a rune.
abbrev long_key : Text
long_key = fill 127 (0xC3 ∷ 0xA9 ∷ b'b' ∷ [])

truncate_key-IsShown_example :
    IsShown long_key (truncate_key long_key)
    × (length (truncate_key long_key) ≤ 131)
    × (valid_string (truncate_key long_key) ≡ true)
unfolding valid_string runes runes_from lead_byte
truncate_key-IsShown_example = truncate_key-IsShown long_key refl
