-- ===== src/Common/Texts.antt =====
-- Go strings as lists of code points, and the functions of package strings that the source uses.
-- A comparison of valid UTF-8 strings by bytes is one by code points.
use Prim.Native.Nat.{ℕ, ◌+◌}
use Prim.Native.Char.{code}
use Prim.Native.String.{String}
use mathlib.Core.Path.{◌≡◌, refl}
use mathlib.Core.Logic.{◌↔◌}
use mathlib.Core.Bool.{Bool, true, false, ◌&&◌, ◌||◌}
use mathlib.Core.Option.{Option, none, some}
use mathlib.Core.Option
use mathlib.Core.List.{List, [], ◌∷◌, ◌++◌}
use native.Mathlib.Omega.{arith}
use ax_go.Common.Tests.{ltb, leb, ◌==◌, if◌then◌else◌}

abbrev pub Text : Type 0
Text = List ℕ

-- The text of a literal.
abbrev pub codes : String → Text
codes String.[] = []
codes (String.◌∷◌ c s) = code c ∷ codes s

unfoldable pub text_eq : Text → Text → Bool
text_eq [] [] = true
text_eq (x ∷ xs) (y ∷ ys) = x == y && text_eq xs ys
text_eq _ _ = false

pub text_eq_refl : (s : Text) → text_eq s s ≡ true
unfolding text_eq
text_eq_refl [] = refl
text_eq_refl (x ∷ s) = ground (arith, text_eq_refl s)

pub text_eq→≡ : (s t : Text) → text_eq s t ≡ true → s ≡ t
unfolding text_eq
text_eq→≡ [] [] h = refl
text_eq→≡ [] (y ∷ t) h = cc
text_eq→≡ (x ∷ s) [] h = cc
text_eq→≡ (x ∷ s) (y ∷ t) h = ground (arith, text_eq→≡ s t)

pub text_eq_iff : (s t : Text) → (text_eq s t ≡ true) ↔ (s ≡ t)
text_eq_iff s t = (text_eq→≡ s t, λ p. ground (arith, text_eq_refl s))

-- `a < b` on strings.
unfoldable pub text_lt : Text → Text → Bool
text_lt [] [] = false
text_lt [] (y ∷ t) = true
text_lt (x ∷ s) [] = false
text_lt (x ∷ s) (y ∷ t) = if x == y then text_lt s t else ltb x y

-- unicode.IsSpace
unfoldable pub is_space : ℕ → Bool
is_space c =
    (leb 9 c && leb c 13)
    || c == 32
    || c == 0x85
    || c == 0xa0
    || c == 0x1680
    || (leb 0x2000 c && leb c 0x200a)
    || c == 0x2028
    || c == 0x2029
    || c == 0x202f
    || c == 0x205f
    || c == 0x3000

-- strings.TrimLeft and strings.TrimRight, with the set as a test.
unfoldable pub trim_left : (ℕ → Bool) → Text → Text
trim_left p [] = []
trim_left p (c ∷ s) = let rest = trim_left p s in if p c then rest else c ∷ s

unfoldable pub cons_unless : Bool → ℕ → Text → Text
cons_unless drop_it c [] = if drop_it then [] else c ∷ []
cons_unless drop_it c (d ∷ s) = c ∷ d ∷ s

unfoldable pub trim_right : (ℕ → Bool) → Text → Text
unfolding cons_unless
trim_right p [] = []
trim_right p (c ∷ s) = cons_unless (p c) c (trim_right p s)

-- strings.TrimSpace
unfoldable pub trim_space : Text → Text
unfolding trim_left trim_right is_space
trim_space s = trim_right is_space (trim_left is_space s)

-- strings.CutPrefix: what follows the prefix.
unfoldable pub cut_prefix : Text → Text → Option Text
cut_prefix [] s = some s
cut_prefix (p ∷ ps) [] = none
cut_prefix (p ∷ ps) (c ∷ s) = let rest = cut_prefix ps s in if p == c then rest else none

unfoldable pub has_prefix : Text → Text → Bool
unfolding cut_prefix
has_prefix p s = elim (cut_prefix p s) [ none ↦ false | some _ ↦ true ]

abbrev pub before_cons : ℕ → Option (Text × Text) → Option (Text × Text)
before_cons c none = none
before_cons c (some (a, b)) = some (c ∷ a, b)

-- strings.Cut: around the first instance of the separator.
unfoldable pub cut : Text → Text → Option (Text × Text)
unfolding cut_prefix
cut sep [] = Option.map (λ rest. ([], rest)) (cut_prefix sep [])
cut sep (c ∷ s) =
    let later = before_cons c (cut sep s) in
    elim (cut_prefix sep (c ∷ s)) [ some rest ↦ some ([], rest) | none ↦ later ]

-- strings.CutLast: around the last instance of the separator.
unfoldable pub cut_last : Text → Text → Option (Text × Text)
unfolding cut_prefix
cut_last sep [] = Option.map (λ rest. ([], rest)) (cut_prefix sep [])
cut_last sep (c ∷ s) = elim (cut_last sep s) [
  | some (a, b) ↦ some (c ∷ a, b)
  | none ↦ Option.map (λ rest. ([], rest)) (cut_prefix sep (c ∷ s))
]

-- strings.Contains
unfoldable pub contains : Text → Text → Bool
unfolding cut
contains s sep = elim (cut sep s) [ none ↦ false | some _ ↦ true ]

-- strings.HasSuffix
unfoldable pub has_suffix : Text → Text → Bool
unfolding text_eq
has_suffix suffix [] = text_eq suffix []
has_suffix suffix (c ∷ s) = text_eq suffix (c ∷ s) || has_suffix suffix s

-- strings.ToLower as far as a comparison with an ASCII word can tell: U+0130 and U+212A are the
-- only other runes whose lower case is ASCII.
unfoldable pub to_lower : ℕ → ℕ
to_lower c =
    if leb b'A' c && leb c b'Z'
    then c + 32
    else if c == 0x130
    then b'i'
    else if c == 0x212a
    then b'k'
    else c

-- strings.Split by one character: the first piece, and the others.
unfoldable pub split_on : ℕ → Text → Text × List Text
split_on sep [] = ([], [])
split_on sep (c ∷ s) =
    let (piece, rest) = split_on sep s in if c == sep then ([], piece ∷ rest) else (c ∷ piece, rest)

unfoldable pub split : ℕ → Text → List Text
unfolding split_on
split sep s = let (piece, rest) = split_on sep s in piece ∷ rest

abbrev pub cons_word : Text → List Text → List Text
cons_word [] ws = ws
cons_word (c ∷ w) ws = (c ∷ w) ∷ ws

-- strings.Fields: the word that the text begins with, and the words behind it.
unfoldable pub fields_from : Text → Text × List Text
unfolding is_space
fields_from [] = ([], [])
fields_from (c ∷ s) =
    let (word, rest) = fields_from s in
    if is_space c then ([], cons_word word rest) else (c ∷ word, rest)

unfoldable pub fields : Text → List Text
unfolding fields_from
fields s = let (word, rest) = fields_from s in cons_word word rest

-- strings.Join
unfoldable pub join : Text → List Text → Text
join sep [] = []
join sep (s ∷ []) = s
join sep (s ∷ t ∷ rest) = s ++ (sep ++ join sep (t ∷ rest))
