-- ===== src/Tests/Flags.antt =====
-- A flag of integers with an enum and an example.
use ax_go.Common.{
  Text, codes, show_int, show_nat, digits_onto, true, false, none, some, List, [], ◌∷◌, refl,
}
use ax_go.Common.Strconv.{digit, digits_base, base_of, underscore_ok, parse_uint_any, parse_int_any}
use ax_go.Schema.Pflag.{type_int8, Flag}
use ax_go.Schema.Convert.{canonical_enum_value, canonical_signed}
use ax_go.Schema.Convert.Values.{Parsers}
use ax_go.Schema.Convert.Canonical.{IsForm, signed_bits, canonical_enum_value-IsForm}
use ax_go.Schema.Flags.{add_flag_enum, flag_enum, declared_example, flag_example}
use ax_go.Schema.Flags.Members.{IsDeclared, add_flag_enum-IsDeclared}
use ax_go.Schema.Flags.Consistent.{
  Declaration, enum_of, example_of, declare_all, IsConsistent, declare_all-IsConsistent,
}

canonical_enum_value-IsForm_example : IsForm (signed_bits 8) (codes "-0x1_0") (codes "-16")
unfolding canonical_enum_value canonical_signed parse_int_any parse_uint_any underscore_ok base_of
    digits_base digit show_int show_nat digits_onto
canonical_enum_value-IsForm_example =
    canonical_enum_value-IsForm type_int8 (codes "-0x1_0") (codes "-16") refl

abbrev pub level : Flag
level = record {
  name = codes "level";
  flag_type = type_int8;
  def_value = codes "2";
  shorthand = [];
  usage = [];
  slice = none;
  required_marks = [];
  enum = none;
  example = [];
}

abbrev pub levels : List Text
levels = codes "0x1" ∷ codes "2" ∷ []

add_flag_enum-IsDeclared_example : IsDeclared level levels (codes "01") (add_flag_enum level levels)
add_flag_enum-IsDeclared_example = add_flag_enum-IsDeclared level levels (codes "01")

abbrev pub parsers : Parsers
parsers = record {
  Float = Unit;
  parse_float = λ bits value. none;
  is_finite = λ f. true;
  duration_ok = λ value. false;
  read_csv = λ value. some (value ∷ []);
  pflag_set = λ t value. true;
}

abbrev declarations : List Declaration
declarations = example_of (codes "3") ∷ enum_of levels ∷ example_of (codes "0b1") ∷ []

declare_all-IsConsistent_example : IsConsistent parsers (declare_all parsers declarations level)
unfolding flag_enum declared_example flag_example
declare_all-IsConsistent_example = declare_all-IsConsistent parsers declarations level (refl, refl)
