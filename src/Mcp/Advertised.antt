-- ===== src/Mcp/Advertised.antt =====
-- An enum that is declared on a flag, as its tool advertises it.
use ax_go.Common.{
  ℕ, ◌-◌, ◌^◌, ◌≤◌, ◌<◌, Text, show_nat, show_int, true, false, Option, none, some, List, [], ◌∷◌,
  ℤ, pos, negsuc, ok, ◌≡◌, ◌≢◌, refl, ◌∙◌, arith,
}
use ax_go.Common.Strconv.{parse_int_any, parse_uint_any}
use ax_go.Common.Strconv.RoundTrip.{InBits, parse_int_any-InBits, parse_uint_any-lt, show_nat-cons}
use ax_go.Common.Strconv.Decimal.{
  parse_int_decimal-show_int, parse_uint_decimal-show_nat, show_int-cons,
}
use ax_go.Schema.Pflag.{
  FlagType, type_int, type_int8, type_int16, type_int32, type_int64, type_uint, type_uint8,
  type_uint16, type_uint32, type_uint64, type_string, custom, Flag,
}
use ax_go.Schema.{Violation}
use ax_go.Schema.Convert.{json_integer, json_schema_type, is_unsigned, canonical_enum_value}
use ax_go.Schema.Convert.Values.{JsonValue, int, uint, string, Parsers, scalar_json, json_value}
use ax_go.Schema.Convert.Canonical.{
  Reading, signed_bits, unsigned_bits, verbatim, no_enum, reading, IsForm,
  canonical_enum_value-IsForm,
}
use ax_go.Schema.Flags.{add_flag_enum, flag_enum}
use ax_go.Schema.Flags.Members.{Forms, IsDeclared, add_flag_enum-IsDeclared}
use ax_go.Mcp.{member_json, members_json, enum_json}

widened : (bits : ℕ) (z : ℤ) → 2 ^ (bits - 1) ≤ 2 ^ 63 → InBits bits z → InBits 64 z
widened bits (pos n) small h = omega arith
widened bits (negsuc n) small h = omega arith

module _ (p : Parsers) where
  open p use {Float}

  -- The value is the number that pflag reads from the member, or the member itself.
  abbrev pub IsMember : Reading → Text → JsonValue Float → Type 0
  IsMember (signed_bits bits) member v =
      (z : ℤ) × (parse_int_any bits member ≡ some z) × (v ≡ int z)
  IsMember (unsigned_bits bits) member v =
      (n : ℕ) × (parse_uint_any bits member ≡ some n) × (v ≡ uint n)
  IsMember verbatim member v = v ≡ string member
  IsMember no_enum member v = ⊥

  abbrev pub AreMembers : Reading → List Text → List (JsonValue Float) → Type 0
  AreMembers r [] [] = Unit
  AreMembers r [] (v ∷ vs) = ⊥
  AreMembers r (m ∷ members) [] = ⊥
  AreMembers r (m ∷ members) (v ∷ vs) = IsMember r m v × AreMembers r members vs

  abbrev IsRead : FlagType → Text → Type 0
  IsRead t member =
      (v : JsonValue Float) × (member_json p t member ≡ some v) × IsMember (reading t) member v

  integer_json :
      (t : FlagType) (z : ℤ)
      → json_schema_type t ≡ json_integer
      → is_unsigned t ≡ false
      → InBits 64 z
      → scalar_json p t (show_int z) ≡ some (int z)
  unfolding scalar_json json_value
  integer_json t z integer signed h =
      let (d, s, shown) = show_int-cons z in
      rw (integer, signed, parse_int_decimal-show_int 64 z (omega arith) h, shown) refl

  unsigned_json :
      (t : FlagType) (n : ℕ)
      → json_schema_type t ≡ json_integer
      → is_unsigned t ≡ true
      → n < 2 ^ 64
      → scalar_json p t (show_nat n) ≡ some (uint n)
  unfolding scalar_json json_value
  unsigned_json t n integer unsigned h =
      let (d, s, shown, lo) = show_nat-cons n in
      rw (integer, unsigned, parse_uint_decimal-show_nat 64 n h, shown) refl

  signed_read :
      (t : FlagType) (bits : ℕ) (member form : Text)
      → json_schema_type t ≡ json_integer
      → is_unsigned t ≡ false
      → 0 < 2 ^ (bits - 1)
      → 2 ^ (bits - 1) ≤ 2 ^ 63
      → canonical_enum_value t member ≡ ok form
      → IsForm (signed_bits bits) member form
      → (v : JsonValue Float) × (member_json p t member ≡ some v)
        × IsMember (signed_bits bits) member v
  signed_read t bits member form integer signed positive small canonical (z, parsed, e, again) = (
    int z,
    rw (integer, canonical, e)
        (integer_json t z integer signed
          (widened bits z small (parse_int_any-InBits bits member z parsed positive))),
    (z, parsed, refl),
  )

  unsigned_read :
      (t : FlagType) (bits : ℕ) (member form : Text)
      → json_schema_type t ≡ json_integer
      → is_unsigned t ≡ true
      → 2 ^ bits ≤ 2 ^ 64
      → canonical_enum_value t member ≡ ok form
      → IsForm (unsigned_bits bits) member form
      → (v : JsonValue Float) × (member_json p t member ≡ some v)
        × IsMember (unsigned_bits bits) member v
  unsigned_read t bits member form integer unsigned small canonical (n, parsed, e, again) =
      let bounded = parse_uint_any-lt bits member n parsed in
      (
        uint n,
        rw (integer, canonical, e) (unsigned_json t n integer unsigned (omega arith)),
        (n, parsed, refl),
      )

  member-IsRead :
      (t : FlagType) (member form : Text)
      → canonical_enum_value t member ≡ ok form
      → IsRead t member
  unfolding json_schema_type
  member-IsRead type_int member form h =
      signed_read type_int 64 member form refl refl (omega arith) (omega arith) h
        (canonical_enum_value-IsForm type_int member form h)
  member-IsRead type_int64 member form h =
      signed_read type_int64 64 member form refl refl (omega arith) (omega arith) h
        (canonical_enum_value-IsForm type_int64 member form h)
  member-IsRead type_int8 member form h =
      signed_read type_int8 8 member form refl refl (omega arith) (omega arith) h
        (canonical_enum_value-IsForm type_int8 member form h)
  member-IsRead type_int16 member form h =
      signed_read type_int16 16 member form refl refl (omega arith) (omega arith) h
        (canonical_enum_value-IsForm type_int16 member form h)
  member-IsRead type_int32 member form h =
      signed_read type_int32 32 member form refl refl (omega arith) (omega arith) h
        (canonical_enum_value-IsForm type_int32 member form h)
  member-IsRead type_uint member form h =
      unsigned_read type_uint 64 member form refl refl (omega arith) h
        (canonical_enum_value-IsForm type_uint member form h)
  member-IsRead type_uint64 member form h =
      unsigned_read type_uint64 64 member form refl refl (omega arith) h
        (canonical_enum_value-IsForm type_uint64 member form h)
  member-IsRead type_uint8 member form h =
      unsigned_read type_uint8 8 member form refl refl (omega arith) h
        (canonical_enum_value-IsForm type_uint8 member form h)
  member-IsRead type_uint16 member form h =
      unsigned_read type_uint16 16 member form refl refl (omega arith) h
        (canonical_enum_value-IsForm type_uint16 member form h)
  member-IsRead type_uint32 member form h =
      unsigned_read type_uint32 32 member form refl refl (omega arith) h
        (canonical_enum_value-IsForm type_uint32 member form h)
  member-IsRead type_string member form h = (string member, refl, refl)
  member-IsRead (custom name) member form h = (string member, refl, refl)
  member-IsRead t member form h = absurd (canonical_enum_value-IsForm t member form h)

  members_read :
      (t : FlagType) (members forms : List Text)
      → Forms t members forms
      → (vs : List (JsonValue Float)) × (members_json p t members ≡ some vs)
        × AreMembers (reading t) members vs
  unfolding members_json
  members_read t [] [] h = ([], refl, tt)
  members_read t [] (form ∷ forms) h = elim h [ ]
  members_read t (m ∷ members) [] h = elim h [ ]
  members_read t (m ∷ members) (form ∷ forms) (h, rest) =
      let (v, read, is) = member-IsRead t m form h in
      let (vs, reads, are) = members_read t members forms rest in
      (v ∷ vs, rw (read, reads) refl, (is, are))

  nonempty :
      (t : FlagType) (members : List Text)
      → members ≢ []
      → enum_json p t members ≡ members_json p t members
  unfolding enum_json
  nonempty t [] h = absurd (h refl)
  nonempty t (m ∷ members) h = refl

  declared_advertised :
      (f : Flag) (values : List Text) (outcome : Option Violation × Flag)
      → IsDeclared f values [] outcome
      → outcome.0 ≡ none
      → (vs : List (JsonValue Float)) × (enum_json p f.flag_type (flag_enum outcome.1) ≡ some vs)
        × AreMembers (reading f.flag_type) values vs
  declared_advertised f values (some v, f') declared accepted = cc
  declared_advertised f values (none, f') (forms, some_value, formed, distinct, e, shown, sets)
        accepted =
      let (vs, read, are) = members_read f.flag_type values forms formed in
      (vs, rw shown (nonempty f.flag_type values some_value ∙ read), are)

  -- An enum whose declaration was accepted is advertised in full and in the order of its members: as
  -- the numbers that pflag reads from them for an integer type, and else as they were written.
  pub enum_json-add_flag_enum :
      (f : Flag) (values : List Text)
      → (add_flag_enum f values).0 ≡ none
      → (vs : List (JsonValue Float)) × (enum_json p f.flag_type
            (flag_enum (add_flag_enum f values).1)
          ≡ some vs)
        × AreMembers (reading f.flag_type) values vs
  enum_json-add_flag_enum f values accepted =
      declared_advertised f values (add_flag_enum f values) (add_flag_enum-IsDeclared f values [])
        accepted
