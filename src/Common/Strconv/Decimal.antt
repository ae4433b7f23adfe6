-- ===== src/Common/Strconv/Decimal.antt =====
-- Decimal numbers are read back as they were printed, by the parsers that take no prefix as well.
use ax_go.Common.{
  ℕ, suc, ◌-◌, ◌^◌, ◌≤◌, ◌<◌, Text, show_nat, show_int, false, some, [], ◌∷◌, ℤ, pos, negsuc, ◌≡◌,
  refl, arith,
}
use ax_go.Common.Strconv.{digits_base, signed, parse_uint_decimal, parse_int_decimal}
use ax_go.Common.Strconv.RoundTrip.{digits_base-decimal, show_nat-cons, InBits}

pub parse_uint_decimal-show_nat :
    (bits n : ℕ) → n < 2 ^ bits → parse_uint_decimal bits (show_nat n) ≡ some n
unfolding show_nat parse_uint_decimal
parse_uint_decimal-show_nat bits n h =
    let (d, s, shown, lo) = show_nat-cons n in
    let value : digits_base false 10 0 (d ∷ s) ≡ some n =
      unfold digits_base in (rw shown at (digits_base-decimal false (suc n) n [] (omega arith))) in
    rw (shown, value) (ground arith)

unsigned-digit :
    (bits d : ℕ) (s : Text)
    → 48 ≤ d
    → parse_int_decimal bits (d ∷ s) ≡ signed bits false (parse_uint_decimal bits (d ∷ s))
unfolding parse_int_decimal
unsigned-digit bits d s h = ground arith

pub parse_int_decimal-show_int :
    (bits : ℕ) (z : ℤ)
    → 2 ^ (bits - 1) < 2 ^ bits
    → InBits bits z
    → parse_int_decimal bits (show_int z) ≡ some z
unfolding show_int
parse_int_decimal-show_int bits (pos n) wide h =
    let (d, s, shown, lo) = show_nat-cons n in
    let value = parse_uint_decimal-show_nat bits n (omega arith) in
    ground (arith, unsigned-digit bits d s)
parse_int_decimal-show_int bits (negsuc n) wide h =
    let value = parse_uint_decimal-show_nat bits (suc n) (omega arith) in
    unfold parse_int_decimal in (ground arith)

pub show_int-cons : (z : ℤ) → (d : ℕ) × (s : Text) × (show_int z ≡ d ∷ s)
unfolding show_int
show_int-cons (pos n) = let (d, s, shown, lo) = show_nat-cons n in (d, s, shown)
show_int-cons (negsuc n) = (_, _, refl)
