-- ===== src/FieldTypes/Tables/RateSource.antt =====
-- src/dictionary/field_types/other.rs: `RateSource` and its field type.
use fix_rs.Prelude.{List, [], ◌∷◌, Bytes, codes}
use fix_rs.FieldTypes.{FieldType}
use fix_rs.FieldTypes.Enum.{must_be_int, required}

pub data RateSource : Type 0 where
  bloomberg reuters telerate other : RateSource

unfoldable pub to_bytes : RateSource → Bytes
to_bytes bloomberg = codes "0"
to_bytes reuters = codes "1"
to_bytes telerate = codes "2"
to_bytes other = codes "99"

abbrev pub all : List RateSource
all = bloomberg ∷ reuters ∷ telerate ∷ other ∷ []

unfoldable pub field_type : FieldType RateSource
unfolding to_bytes required
field_type = required to_bytes bloomberg all must_be_int
