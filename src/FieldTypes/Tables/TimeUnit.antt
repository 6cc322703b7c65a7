-- ===== src/FieldTypes/Tables/TimeUnit.antt =====
-- src/dictionary/field_types/other.rs: `TimeUnit` and its field type.
use fix_rs.Prelude.{List, [], ◌∷◌, Bytes, codes, Option}
use fix_rs.FieldTypes.{FieldType}
use fix_rs.FieldTypes.Enum.{WithOther, required_bytes, not_required_bytes}

pub data TimeUnit : Type 0 where
  hour minute second day week month year : TimeUnit

unfoldable pub to_bytes : TimeUnit → Bytes
to_bytes hour = codes "H"
to_bytes minute = codes "Min"
to_bytes second = codes "S"
to_bytes day = codes "D"
to_bytes week = codes "Wk"
to_bytes month = codes "Mo"
to_bytes year = codes "Yr"

abbrev pub all : List TimeUnit
all = hour ∷ minute ∷ second ∷ day ∷ week ∷ month ∷ year ∷ []

unfoldable pub required_type : FieldType (WithOther TimeUnit)
unfolding to_bytes required_bytes
required_type = required_bytes to_bytes hour all

unfoldable pub not_required_type : FieldType (Option (WithOther TimeUnit))
unfolding to_bytes not_required_bytes
not_required_type = not_required_bytes to_bytes hour all
