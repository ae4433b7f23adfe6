-- ===== src/Contract/Json/OneLine.antt =====
-- What WriteJSON emits is one line, whatever the strings in the value hold.
use ax_go.Common.{
  ℕ, ◌≤◌, Text, true, false, [], ◌∷◌, ◌++◌, All, All-append, show_int-printable, arith, ◌≡◌, refl,
}
use ax_go.Contract.Json.{
  Json, null, boolean, integer, string, array, object, Items, nil, cons, Fields, done, field,
  hex_digit, unicode_escape, quote_rune, quote_runes, quote, marshal, marshal_items, marshal_fields,
  write_json,
}

-- No code is below that of a space, so none ends the line.
abbrev pub IsUnbroken : Text → Type 0
IsUnbroken s = All (λ c. 32 ≤ c) s

abbrev append-IsUnbroken : (s t : Text) → IsUnbroken s → IsUnbroken t → IsUnbroken (s ++ t)
append-IsUnbroken = All-append (λ c. 32 ≤ c)

hex_digit-le : (d : ℕ) → 32 ≤ hex_digit d
unfolding hex_digit
hex_digit-le d = ground arith

unicode_escape-IsUnbroken : (c : ℕ) → IsUnbroken (unicode_escape c)
unfolding unicode_escape
unicode_escape-IsUnbroken c = omega (arith, hex_digit-le)

quote_rune-IsUnbroken : (c : ℕ) → IsUnbroken (quote_rune c)
unfolding quote_rune
quote_rune-IsUnbroken c = ground (arith, unicode_escape-IsUnbroken c)

quote_runes-IsUnbroken : (s : Text) → IsUnbroken (quote_runes s)
unfolding quote_runes
quote_runes-IsUnbroken [] = omega arith
quote_runes-IsUnbroken (c ∷ s) =
    append-IsUnbroken (quote_rune c) (quote_runes s) (quote_rune-IsUnbroken c)
      (quote_runes-IsUnbroken s)

pub quote-IsUnbroken : (s : Text) → IsUnbroken (quote s)
unfolding quote
quote-IsUnbroken s = (omega arith, quote_runes-IsUnbroken s)

mutual
  unfolding marshal

  marshal_all : (v : Json) → IsUnbroken (marshal v)
  marshal_all null = omega arith
  marshal_all (boolean true) = omega arith
  marshal_all (boolean false) = omega arith
  marshal_all (integer z) = show_int-printable z
  marshal_all (string s) = quote-IsUnbroken s
  marshal_all (array xs) = (omega arith, items_all xs)
  marshal_all (object fs) = (omega arith, fields_all fs)

  items_all : (xs : Items) → IsUnbroken (marshal_items xs)
  items_all nil = omega arith
  items_all (cons x nil) = append-IsUnbroken (marshal x) (b']' ∷ []) (marshal_all x) (omega arith)
  items_all (cons x (cons y ys)) =
      append-IsUnbroken (marshal x) (b',' ∷ marshal_items (cons y ys)) (marshal_all x)
        (omega arith, items_all (cons y ys))

  fields_all : (fs : Fields) → IsUnbroken (marshal_fields fs)
  fields_all done = omega arith
  fields_all (field k v done) =
      append-IsUnbroken (quote k) (b':' ∷ (marshal v ++ b'}' ∷ [])) (quote-IsUnbroken k)
        (omega arith, append-IsUnbroken (marshal v) (b'}' ∷ []) (marshal_all v) (omega arith))
  fields_all (field k v (field k' v' fs)) =
      append-IsUnbroken (quote k) (b':' ∷ (marshal v ++ (b',' ∷ marshal_fields (field k' v' fs))))
        (quote-IsUnbroken k)
        (
          omega arith,
          append-IsUnbroken (marshal v) (b',' ∷ marshal_fields (field k' v' fs)) (marshal_all v)
              (omega arith, fields_all (field k' v' fs)),
        )

pub marshal-IsUnbroken : (v : Json) → IsUnbroken (marshal v)
marshal-IsUnbroken v = marshal_all v

-- What `write_json` emits is one line and its line feed, whatever the strings of the value hold.
pub write_json_one_line :
    (v : Json) → (line : Text) × IsUnbroken line × (write_json v ≡ line ++ 10 ∷ [])
unfolding write_json
write_json_one_line v = (marshal v, marshal-IsUnbroken v, refl)
