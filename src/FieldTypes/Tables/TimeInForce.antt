-- ===== src/FieldTypes/Tables/TimeInForce.antt =====
-- src/dictionary/field_types/other.rs: `TimeInForce` and its field type.
use fix_rs.Prelude.{List, [], ◌∷◌, Bytes, codes, Option}
use fix_rs.FieldTypes.{FieldType}
use fix_rs.FieldTypes.Enum.{must_be_char, not_required}

pub data TimeInForce : Type 0 where
  day good_till_cancel at_the_opening immediate_or_cancel fill_or_kill good_till_crossing
        good_till_date at_the_close good_through_crossing at_crossing :
      TimeInForce

unfoldable pub to_bytes : TimeInForce → Bytes
to_bytes day = codes "0"
to_bytes good_till_cancel = codes "1"
to_bytes at_the_opening = codes "2"
to_bytes immediate_or_cancel = codes "3"
to_bytes fill_or_kill = codes "4"
to_bytes good_till_crossing = codes "5"
to_bytes good_till_date = codes "6"
to_bytes at_the_close = codes "7"
to_bytes good_through_crossing = codes "8"
to_bytes at_crossing = codes "9"

abbrev pub all : List TimeInForce
all =
    day ∷ good_till_cancel ∷ at_the_opening ∷ immediate_or_cancel ∷ fill_or_kill
    ∷ good_till_crossing ∷ good_till_date ∷ at_the_close ∷ good_through_crossing ∷ at_crossing ∷ []

unfoldable pub field_type : FieldType (Option TimeInForce)
unfolding to_bytes not_required
field_type = not_required to_bytes day all must_be_char
