-- ===== src/Common/Strconv/RoundTrip.antt =====
-- A printed number is read back by the functions that take a base prefix.
use ax_go.Common.{
  ℕ, zero, suc, ◌+◌, ◌-◌, ◌/◌, ◌%◌, ◌^◌, ◌≤◌, ◌<◌, Text, digits_onto, show_nat, show_int, Bool,
  true, false, Option, none, some, [], ◌∷◌, exists?, ltb, ◌==◌, ℤ, pos, negsuc, ◌≡◌, refl, arith,
  Bool-cases, inl, inr,
}
use ax_go.Common.Strconv.{
  digit, digits_base, base_of, parse_uint_any, parse_int_any, in_bits, signed,
}

pub digits_base-decimal :
    (u : Bool) (fuel n : ℕ) (acc : Text)
    → n < fuel
    → digits_base u 10 0 (digits_onto fuel n acc) ≡ digits_base u 10 n acc
unfolding digits_base digits_onto digit
digits_base-decimal u zero n acc h = absurd (omega arith)
digits_base-decimal u (suc fuel) n acc h =
    ground (arith, digits_base-decimal u fuel (n / 10) ((48 + n % 10) ∷ acc))

abbrev is_underscore_sign : ℕ → Bool
is_underscore_sign c = c == b'_'

no_underscore :
    (fuel n : ℕ) (acc : Text)
    → exists? is_underscore_sign (digits_onto fuel n acc) ≡ exists? is_underscore_sign acc
unfolding digits_onto
no_underscore zero n acc = refl
no_underscore (suc fuel) n acc = ground (arith, no_underscore fuel (n / 10) ((48 + n % 10) ∷ acc))

-- The first digit of a positive number is not 0.
first_digit :
    (fuel n : ℕ) (acc : Text)
    → n < fuel
    → 0 < n
    → (d : ℕ) × (s : Text) × (digits_onto fuel n acc ≡ d ∷ s) × (48 < d) × (d < 58)
unfolding digits_onto
first_digit zero n acc h p = absurd (omega arith)
first_digit (suc fuel) n acc h p = elim (Bool-cases (ltb n 10)) [
  | inl small ↦ (48 + n, acc, ground arith, omega arith, ground arith)
  | inr large ↦
      rw large (first_digit fuel (n / 10) ((48 + n % 10) ∷ acc) (omega arith) (ground arith))
]

base_of-decimal : (d : ℕ) (s : Text) → 48 < d → base_of (d ∷ s) ≡ (10, d ∷ s)
unfolding base_of
base_of-decimal d [] h = ground arith
base_of-decimal d (a ∷ []) h = ground arith
base_of-decimal d (a ∷ b ∷ s) h = ground arith

-- Behind a digit other than 0 the whole text is decimal.
parse_uint_any-decimal :
    (bits d : ℕ) (s : Text)
    → 48 < d
    → exists? is_underscore_sign (d ∷ s) ≡ false
    → parse_uint_any bits (d ∷ s) ≡ in_bits bits true (digits_base true 10 0 (d ∷ s))
unfolding parse_uint_any
parse_uint_any-decimal bits d s h u = rw (base_of-decimal d s h, u)

parse_uint_any-zero : (bits : ℕ) → 0 < 2 ^ bits → parse_uint_any bits (b'0' ∷ []) ≡ some 0
unfolding parse_uint_any base_of digits_base
parse_uint_any-zero bits h = ground arith

shown_positive :
    (bits n d : ℕ) (s : Text)
    → show_nat n ≡ d ∷ s
    → 48 < d
    → n < 2 ^ bits
    → parse_uint_any bits (show_nat n) ≡ some n
unfolding show_nat
shown_positive bits n d s shown lo h =
    let plain : exists? is_underscore_sign (d ∷ s) ≡ false =
      rw shown at (no_underscore (suc n) n []) in
    let value : digits_base true 10 0 (d ∷ s) ≡ some n =
      unfold digits_base in (rw shown at (digits_base-decimal true (suc n) n [] (omega arith))) in
    rw (shown, parse_uint_any-decimal bits d s lo plain, value) (ground arith)

pub parse_uint_any-show_nat :
    (bits n : ℕ) → n < 2 ^ bits → parse_uint_any bits (show_nat n) ≡ some n
unfolding show_nat
parse_uint_any-show_nat bits zero h = parse_uint_any-zero bits h
parse_uint_any-show_nat bits (suc n) h =
    let (d, s, shown, lo, hi) = first_digit (suc (suc n)) (suc n) [] (omega arith) (omega arith) in
    shown_positive bits (suc n) d s shown lo h

-- A number starts with a digit.
pub show_nat-cons : (n : ℕ) → (d : ℕ) × (s : Text) × (show_nat n ≡ d ∷ s) × (48 ≤ d)
unfolding show_nat
show_nat-cons zero = (48, [], refl, omega arith)
show_nat-cons (suc n) =
    let (d, s, shown, lo, hi) = first_digit (suc (suc n)) (suc n) [] (omega arith) (omega arith) in
    (d, s, shown, omega arith)

unsigned-digit :
    (bits d : ℕ) (s : Text)
    → 48 ≤ d
    → parse_int_any bits (d ∷ s) ≡ signed bits false (parse_uint_any bits (d ∷ s))
unfolding parse_int_any
unsigned-digit bits d s h = ground arith

-- The value has `bits` bits with its sign.
abbrev pub InBits : ℕ → ℤ → Type 0
InBits bits (pos n) = n < 2 ^ (bits - 1)
InBits bits (negsuc n) = n < 2 ^ (bits - 1)

pub parse_int_any-show_int :
    (bits : ℕ) (z : ℤ)
    → 2 ^ (bits - 1) < 2 ^ bits
    → InBits bits z
    → parse_int_any bits (show_int z) ≡ some z
unfolding show_int
parse_int_any-show_int bits (pos n) wide h =
    let (d, s, shown, lo) = show_nat-cons n in
    let value = parse_uint_any-show_nat bits n (omega arith) in
    ground (arith, unsigned-digit bits d s)
parse_int_any-show_int bits (negsuc n) wide h =
    let value = parse_uint_any-show_nat bits (suc n) (omega arith) in
    unfold parse_int_any in (ground arith)

signed-InBits :
    (bits : ℕ) (negative : Bool) (o : Option ℕ) (z : ℤ)
    → signed bits negative o ≡ some z
    → 0 < 2 ^ (bits - 1)
    → InBits bits z
signed-InBits bits negative none z h p = cc
signed-InBits bits false (some n) (pos m) h p = ground arith
signed-InBits bits false (some n) (negsuc m) h p = ground arith
signed-InBits bits true (some zero) (pos m) h p = ground arith
signed-InBits bits true (some zero) (negsuc m) h p = cc
signed-InBits bits true (some (suc n)) (pos m) h p = ground arith
signed-InBits bits true (some (suc n)) (negsuc m) h p = ground arith

in_bits-lt :
    (bits : ℕ) (ok : Bool) (o : Option ℕ) (n : ℕ) → in_bits bits ok o ≡ some n → n < 2 ^ bits
in_bits-lt bits ok none n h = cc
in_bits-lt bits ok (some m) n h = ground arith

-- What is parsed has its bits.
pub parse_int_any-InBits :
    (bits : ℕ) (s : Text) (z : ℤ)
    → parse_int_any bits s ≡ some z
    → 0 < 2 ^ (bits - 1)
    → InBits bits z
unfolding parse_int_any
parse_int_any-InBits bits [] z h p = cc
parse_int_any-InBits bits (c ∷ s) z h p = ground (
  arith,
  signed-InBits bits true (parse_uint_any bits s) z,
  signed-InBits bits false (parse_uint_any bits s) z,
  signed-InBits bits false (parse_uint_any bits (c ∷ s)) z,
)

pub parse_uint_any-lt :
    (bits : ℕ) (s : Text) (n : ℕ) → parse_uint_any bits s ≡ some n → n < 2 ^ bits
unfolding parse_uint_any
parse_uint_any-lt bits [] n h = cc
parse_uint_any-lt bits (c ∷ s) n h = in_bits-lt bits _ _ n h
