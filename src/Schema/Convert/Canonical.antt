-- ===== src/Schema/Convert/Canonical.antt =====
-- The form in which the members of an enum are compared.
use ax_go.Common.{
  ℕ, ◌-◌, ◌^◌, ◌<◌, Text, show_nat, show_int, some, ℤ, ok, ◌≡◌, arith, Option-cases, inl, inr,
}
use ax_go.Common.Strconv.{parse_int_any, parse_uint_any}
use ax_go.Common.Strconv.RoundTrip.{
  parse_int_any-show_int, parse_int_any-InBits, parse_uint_any-show_nat, parse_uint_any-lt,
}
use ax_go.Schema.Pflag.{
  FlagType, type_int, type_int8, type_int16, type_int32, type_int64, type_uint, type_uint8,
  type_uint16, type_uint32, type_uint64, type_string, custom,
}
use ax_go.Schema.Convert.{canonical_signed, canonical_unsigned, canonical_enum_value}

-- How pflag reads a value of a type whose members are compared.
pub data Reading : Type 0 where
  signed_bits : ℕ → Reading
  unsigned_bits : ℕ → Reading
  verbatim : Reading
  no_enum : Reading

abbrev pub reading : FlagType → Reading
reading type_int = signed_bits 64
reading type_int64 = signed_bits 64
reading type_int8 = signed_bits 8
reading type_int16 = signed_bits 16
reading type_int32 = signed_bits 32
reading type_uint = unsigned_bits 64
reading type_uint64 = unsigned_bits 64
reading type_uint8 = unsigned_bits 8
reading type_uint16 = unsigned_bits 16
reading type_uint32 = unsigned_bits 32
reading type_string = verbatim
reading (custom name) = verbatim
reading _ = no_enum

-- The form is what a reading of the value prints, and is a form itself.
abbrev pub IsForm : Reading → Text → Text → Type 0
IsForm (signed_bits bits) value form =
    (z : ℤ) × (parse_int_any bits value ≡ some z)
    × (form ≡ show_int z)
    × (parse_int_any bits form ≡ some z)
IsForm (unsigned_bits bits) value form =
    (n : ℕ) × (parse_uint_any bits value ≡ some n)
    × (form ≡ show_nat n)
    × (parse_uint_any bits form ≡ some n)
IsForm verbatim value form = form ≡ value
IsForm no_enum value form = ⊥

canonical_signed-IsForm :
    (bits : ℕ) (value form : Text)
    → 2 ^ (bits - 1) < 2 ^ bits
    → 0 < 2 ^ (bits - 1)
    → canonical_signed value bits ≡ ok form
    → IsForm (signed_bits bits) value form
unfolding canonical_signed
canonical_signed-IsForm bits value form wide positive h =
    elim (Option-cases (parse_int_any bits value)) [
      | inl bad ↦ absurd (ground arith)
      | inr (z, parsed) ↦
          let e : form ≡ show_int z = ground arith in
          (
            z,
            parsed,
            e,
            rw e (
                parse_int_any-show_int bits z wide
                  (parse_int_any-InBits bits value z parsed positive)),
          )
    ]

canonical_unsigned-IsForm :
    (bits : ℕ) (value form : Text)
    → canonical_unsigned value bits ≡ ok form
    → IsForm (unsigned_bits bits) value form
unfolding canonical_unsigned
canonical_unsigned-IsForm bits value form h = elim (Option-cases (parse_uint_any bits value)) [
  | inl bad ↦ absurd (ground arith)
  | inr (n, parsed) ↦
      let e : form ≡ show_nat n = ground arith in
      (n, parsed, e, rw e (parse_uint_any-show_nat bits n (parse_uint_any-lt bits value n parsed)))
]

-- The form of a value of an integer type is the decimal print of the number that pflag reads from
-- it, and that form is read as the same number; the value of a string or of a custom type is its own
-- form, and no other type has one.
pub canonical_enum_value-IsForm :
    (t : FlagType) (value form : Text)
    → canonical_enum_value t value ≡ ok form
    → IsForm (reading t) value form
unfolding canonical_enum_value
canonical_enum_value-IsForm type_int value form h =
    canonical_signed-IsForm 64 value form (omega arith) (omega arith) h
canonical_enum_value-IsForm type_int64 value form h =
    canonical_signed-IsForm 64 value form (omega arith) (omega arith) h
canonical_enum_value-IsForm type_int8 value form h =
    canonical_signed-IsForm 8 value form (omega arith) (omega arith) h
canonical_enum_value-IsForm type_int16 value form h =
    canonical_signed-IsForm 16 value form (omega arith) (omega arith) h
canonical_enum_value-IsForm type_int32 value form h =
    canonical_signed-IsForm 32 value form (omega arith) (omega arith) h
canonical_enum_value-IsForm type_uint value form h = canonical_unsigned-IsForm 64 value form h
canonical_enum_value-IsForm type_uint64 value form h = canonical_unsigned-IsForm 64 value form h
canonical_enum_value-IsForm type_uint8 value form h = canonical_unsigned-IsForm 8 value form h
canonical_enum_value-IsForm type_uint16 value form h = canonical_unsigned-IsForm 16 value form h
canonical_enum_value-IsForm type_uint32 value form h = canonical_unsigned-IsForm 32 value form h
canonical_enum_value-IsForm type_string value form h = ground arith
canonical_enum_value-IsForm (custom name) value form h = ground arith
canonical_enum_value-IsForm _ value form h = ground arith
