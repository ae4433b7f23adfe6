-- ===== src/Contract/Json.antt =====
-- JSON output, of contract/json.go: a marshalled value on one line, and the envelope fields.
-- Values are the ones that ax-go itself marshals; floats are left out. A map's keys come sorted.
pub mod OneLine
use ax_go.Common.{
  ℕ, ◌+◌, ◌/◌, ◌%◌, Text, codes, Bool, true, false, ◌||◌, List, [], ◌∷◌, ◌++◌, ℤ, show_int, ltb,
  ◌==◌, if◌then◌else◌,
}

mutual
  pub data Json : Type 0 where
    null : Json
    boolean : Bool → Json
    integer : ℤ → Json
    string : Text → Json
    array : Items → Json
    object : Fields → Json

  pub data Items : Type 0 where
    nil : Items
    cons : Json → Items → Items

  pub data Fields : Type 0 where
    done : Fields
    field : Text → Json → Fields → Fields

unfoldable pub hex_digit : ℕ → ℕ
hex_digit d = if ltb d 10 then 48 + d else 87 + d

unfoldable pub unicode_escape : ℕ → Text
unfolding hex_digit
unicode_escape c =
    b'\\'
    ∷ b'u'
    ∷ hex_digit (c / 4096 % 16)
    ∷ hex_digit (c / 256 % 16)
    ∷ hex_digit (c / 16 % 16)
    ∷ hex_digit (c % 16)
    ∷ []

abbrev backslashed : ℕ → Text
backslashed c = b'\\' ∷ c ∷ []

-- A rune of a string as encoding/json writes it, with HTML escaping on.
unfoldable pub quote_rune : ℕ → Text
unfolding unicode_escape
quote_rune c =
    if c == b'"' || c == b'\\'
    then backslashed c
    else if c == 8
    then backslashed b'b'
    else if c == 12
    then backslashed b'f'
    else if c == 10
    then backslashed b'n'
    else if c == 13
    then backslashed b'r'
    else if c == 9
    then backslashed b't'
    else if ltb c 32 || c == b'<' || c == b'>' || c == b'&' || c == 0x2028 || c == 0x2029
    then unicode_escape c
    else c ∷ []

unfoldable pub quote_runes : Text → Text
unfolding quote_rune
quote_runes [] = b'"' ∷ []
quote_runes (c ∷ s) = quote_rune c ++ quote_runes s

unfoldable pub quote : Text → Text
unfolding quote_runes
quote s = b'"' ∷ quote_runes s

unfoldable mutual
  unfolding quote show_int

  pub marshal : Json → Text
  marshal null = codes "null"
  marshal (boolean true) = codes "true"
  marshal (boolean false) = codes "false"
  marshal (integer z) = show_int z
  marshal (string s) = quote s
  marshal (array xs) = b'[' ∷ marshal_items xs
  marshal (object fs) = b'{' ∷ marshal_fields fs

  pub marshal_items : Items → Text
  marshal_items nil = b']' ∷ []
  marshal_items (cons x nil) = marshal x ++ b']' ∷ []
  marshal_items (cons x (cons y ys)) = marshal x ++ (b',' ∷ marshal_items (cons y ys))

  pub marshal_fields : Fields → Text
  marshal_fields done = b'}' ∷ []
  marshal_fields (field k v done) = quote k ++ (b':' ∷ (marshal v ++ b'}' ∷ []))
  marshal_fields (field k v (field k' v' fs)) =
      quote k ++ (b':' ∷ (marshal v ++ (b',' ∷ marshal_fields (field k' v' fs))))

-- `WriteJSON`: what is written to `w`. Marshalling these values cannot fail.
unfoldable pub write_json : Json → Text
unfolding marshal
write_json v = marshal v ++ 10 ∷ []

unfoldable pub write_json_line : Json → Text
unfolding write_json
write_json_line v = write_json v
