-- ===== src/Common/Strconv.antt =====
-- Package strconv: ParseInt and ParseUint with a base prefix, ParseBool, and the printing of a number
-- read back. An error is `none`, of the syntax or of the range.
pub mod RoundTrip
pub mod Decimal
use ax_go.Common.{
  ℕ, zero, suc, ◌+◌, ◌-◌, ◌*◌, ◌/◌, ◌%◌, ◌^◌, ◌≤◌, ◌<◌, Text, codes, text_eq, digits_onto, show_nat,
  show_int, Bool, true, false, not, ◌&&◌, ◌||◌, Option, none, some, List, [], ◌∷◌, is_empty,
  exists?, ltb, leb, ◌==◌, if◌then◌else◌, ℤ, pos, negsuc, ◌≡◌, ◌≢◌, refl, ap, ◌∙◌, arith,
  Bool-cases, inl, inr,
}
use mathlib.Core.Option

-- The value of a digit in the largest base.
unfoldable pub digit : ℕ → Option ℕ
digit c =
    if leb b'0' c && leb c b'9'
    then some (c - b'0')
    else if leb b'a' c && leb c b'z'
    then some (c - b'a' + 10)
    else if leb b'A' c && leb c b'Z'
    then some (c - b'A' + 10)
    else none

abbrev next_digit : ℕ → ℕ → Option ℕ → (ℕ → Option ℕ) → Option ℕ
next_digit base acc none rest = none
next_digit base acc (some d) rest = if ltb d base then rest (acc * base + d) else none

-- The digits after `acc`; an underscore is passed over if the base was given by a prefix.
unfoldable pub digits_base : Bool → ℕ → ℕ → Text → Option ℕ
digits_base base0 base acc [] = some acc
digits_base base0 base acc (c ∷ s) =
    let skipped = digits_base base0 base acc s in
    let read = next_digit base acc (digit c) (λ acc'. digits_base base0 base acc' s) in
    if base0 && c == b'_' then skipped else read

abbrev is_letter : ℕ → ℕ → Bool
is_letter lower c = c == lower || c + 32 == lower

-- The base that a text of at least one character shows, and its digits.
unfoldable pub base_of : Text → ℕ × Text
base_of (c ∷ d ∷ e ∷ s) =
    if not (c == b'0')
    then (10, c ∷ d ∷ e ∷ s)
    else if is_letter b'b' d
    then (2, e ∷ s)
    else if is_letter b'o' d
    then (8, e ∷ s)
    else if is_letter b'x' d
    then (16, e ∷ s)
    else (8, d ∷ e ∷ s)
base_of (c ∷ s) = if c == b'0' then (8, s) else (10, c ∷ s)
base_of [] = (10, [])

-- What `underscoreOK` saw last.
pub data Saw : Type 0 where
  start digit_seen underscore other : Saw

abbrev is_digit_seen : Saw → Bool
is_digit_seen digit_seen = true
is_digit_seen _ = false

abbrev is_underscore : Saw → Bool
is_underscore underscore = true
is_underscore _ = false

abbrev is_hex : ℕ → Bool
is_hex c = (leb b'a' c && leb c b'f') || (leb b'A' c && leb c b'F')

unfoldable underscores_from : Bool → Saw → Text → Bool
underscores_from hex saw [] = not (is_underscore saw)
underscores_from hex saw (c ∷ s) =
    let after_digit = underscores_from hex digit_seen s in
    let after_underscore = is_digit_seen saw && underscores_from hex underscore s in
    let after_other = not (is_underscore saw) && underscores_from hex other s in
    if (leb b'0' c && leb c b'9') || (hex && is_hex c)
    then after_digit
    else if c == b'_'
    then after_underscore
    else after_other

-- Underscores stand between digits, of which a base prefix counts as one.
unfoldable pub underscore_ok : Text → Bool
unfolding underscores_from
underscore_ok (c ∷ d ∷ s) =
    if c == b'0' && (is_letter b'b' d || is_letter b'o' d || is_letter b'x' d)
    then underscores_from (is_letter b'x' d) digit_seen s
    else underscores_from false start (c ∷ d ∷ s)
underscore_ok s = underscores_from false start s

abbrev pub in_bits : ℕ → Bool → Option ℕ → Option ℕ
in_bits bits ok none = none
in_bits bits ok (some n) = if ltb n (2 ^ bits) && ok then some n else none

-- ParseUint(s, 0, bits)
unfoldable pub parse_uint_any : ℕ → Text → Option ℕ
parse_uint_any bits [] = none
parse_uint_any bits (c ∷ s) =
    let (base, rest) = base_of (c ∷ s) in
    in_bits bits (not (exists? (λ d. d == b'_') rest) || underscore_ok (c ∷ s))
      (digits_base true base 0 rest)

abbrev pub signed : ℕ → Bool → Option ℕ → Option ℤ
signed bits negative none = none
signed bits false (some n) = if ltb n (2 ^ (bits - 1)) then some (pos n) else none
signed bits true (some zero) = some (pos 0)
signed bits true (some (suc n)) = if ltb n (2 ^ (bits - 1)) then some (negsuc n) else none

-- ParseInt(s, 0, bits)
unfoldable pub parse_int_any : ℕ → Text → Option ℤ
unfolding parse_uint_any
parse_int_any bits [] = none
parse_int_any bits (c ∷ s) =
    if c == b'-'
    then signed bits true (parse_uint_any bits s)
    else if c == b'+'
    then signed bits false (parse_uint_any bits s)
    else signed bits false (parse_uint_any bits (c ∷ s))

-- ParseUint(s, 10, bits)
unfoldable pub parse_uint_decimal : ℕ → Text → Option ℕ
parse_uint_decimal bits [] = none
parse_uint_decimal bits (c ∷ s) = in_bits bits true (digits_base false 10 0 (c ∷ s))

-- ParseInt(s, 10, bits)
unfoldable pub parse_int_decimal : ℕ → Text → Option ℤ
unfolding parse_uint_decimal
parse_int_decimal bits [] = none
parse_int_decimal bits (c ∷ s) =
    if c == b'-'
    then signed bits true (parse_uint_decimal bits s)
    else if c == b'+'
    then signed bits false (parse_uint_decimal bits s)
    else signed bits false (parse_uint_decimal bits (c ∷ s))

-- ParseBool
unfoldable pub parse_bool : Text → Option Bool
parse_bool s =
    if exists? (text_eq s)
      (codes "1" ∷ codes "t" ∷ codes "T" ∷ codes "TRUE" ∷ codes "true" ∷ codes "True" ∷ [])
    then some true
    else if exists? (text_eq s)
        (codes "0" ∷ codes "f" ∷ codes "F" ∷ codes "FALSE" ∷ codes "false" ∷ codes "False" ∷ [])
    then some false
    else none
