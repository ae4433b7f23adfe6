-- ===== src/Common/Words.antt =====
-- An int64 as its bit pattern.
use ax_go.Common.{ℕ, ◌+◌, ◌*◌, ◌%◌, ◌^◌, Bool, ltb}

abbrev pub word : ℕ
word = 2 ^ 64

abbrev pub add64 : ℕ → ℕ → ℕ
add64 a b = (a + b) % word

abbrev pub mul64 : ℕ → ℕ → ℕ
mul64 a b = (a * b) % word

-- `a < b` on int64.
abbrev pub less64 : ℕ → ℕ → Bool
less64 a b = ltb ((a + 2 ^ 63) % word) ((b + 2 ^ 63) % word)
