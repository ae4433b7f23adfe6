-- ===== src/Common/Numbers.antt =====
-- Decimal printing, as strconv.Itoa and the %d verb write a number.
use Prim.Native.Nat.{ℕ, zero, suc, ◌+◌, ◌/◌, ◌%◌, ◌≤◌}
use mathlib.Core.List.{[], ◌∷◌}
use native.Mathlib.Omega.{arith}
use ax_go.Common.Tests.{ltb, if◌then◌else◌}
use ax_go.Common.Lists.{All}
use ax_go.Common.Texts.{Text}
use ax_go.Common.Results.{ℤ, pos, negsuc}

-- The digits of `n`, put before `acc`; the fuel is more than `n`.
unfoldable pub digits_onto : ℕ → ℕ → Text → Text
digits_onto zero n acc = acc
digits_onto (suc fuel) n acc =
    let rest = digits_onto fuel (n / 10) ((48 + n % 10) ∷ acc) in
    if ltb n 10 then (48 + n) ∷ acc else rest

unfoldable pub show_nat : ℕ → Text
unfolding digits_onto
show_nat n = digits_onto (suc n) n []

unfoldable pub show_int : ℤ → Text
unfolding show_nat
show_int (pos n) = show_nat n
show_int (negsuc n) = b'-' ∷ show_nat (suc n)

digits_onto-printable :
    (fuel n : ℕ) (acc : Text) → All (λ c. 32 ≤ c) acc → All (λ c. 32 ≤ c) (digits_onto fuel n acc)
unfolding digits_onto
digits_onto-printable zero n acc h = h
digits_onto-printable (suc fuel) n acc h =
    ground (arith, digits_onto-printable fuel (n / 10) ((48 + n % 10) ∷ acc) (omega arith, h))

pub show_int-printable : (z : ℤ) → All (λ c. 32 ≤ c) (show_int z)
unfolding show_int
show_int-printable (pos n) = digits_onto-printable (suc n) n [] tt
show_int-printable (negsuc n) = (omega arith, digits_onto-printable (suc (suc n)) (suc n) [] tt)
