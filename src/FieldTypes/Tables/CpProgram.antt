-- ===== src/FieldTypes/Tables/CpProgram.antt =====
-- src/dictionary/field_types/other.rs: `CPProgram` and its field type.
use fix_rs.Prelude.{List, [], ◌∷◌, Option}
use fix_rs.Prelude.Int.{ℤ, pos}
use fix_rs.FieldTypes.{FieldType}
use fix_rs.FieldTypes.Enum.{Reserved, not_required_reserved}

pub data CpProgram : Type 0 where
  program_3_a3 program_42 other : CpProgram

unfoldable pub value_of : CpProgram → ℤ
value_of program_3_a3 = pos 1
value_of program_42 = pos 2
value_of other = pos 99

abbrev pub all : List CpProgram
all = program_3_a3 ∷ program_42 ∷ other ∷ []

unfoldable pub field_type : FieldType (Option (Reserved CpProgram))
unfolding value_of not_required_reserved
field_type = not_required_reserved value_of program_3_a3 all (pos 100)
