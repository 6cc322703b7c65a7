-- ===== src/FieldTypes/Tables/BusinessRejectReason.antt =====
-- src/dictionary/field_types/other.rs: `BusinessRejectReason` and its field type.
use fix_rs.Prelude.{List, [], ◌∷◌, Bytes, codes}
use fix_rs.FieldTypes.{FieldType}
use fix_rs.FieldTypes.Enum.{must_be_int, required}

pub data BusinessRejectReason : Type 0 where
  other unknown_id unknown_security unsupported_message_type application_not_available
        conditionally_required_field_missing not_authorized
        deliver_to_firm_not_available_at_this_time invalid_price_increment :
      BusinessRejectReason

unfoldable pub to_bytes : BusinessRejectReason → Bytes
to_bytes other = codes "0"
to_bytes unknown_id = codes "1"
to_bytes unknown_security = codes "2"
to_bytes unsupported_message_type = codes "3"
to_bytes application_not_available = codes "4"
to_bytes conditionally_required_field_missing = codes "5"
to_bytes not_authorized = codes "6"
to_bytes deliver_to_firm_not_available_at_this_time = codes "7"
to_bytes invalid_price_increment = codes "18"

abbrev pub all : List BusinessRejectReason
all =
    other ∷ unknown_id ∷ unknown_security ∷ unsupported_message_type ∷ application_not_available
    ∷ conditionally_required_field_missing ∷ not_authorized
    ∷ deliver_to_firm_not_available_at_this_time ∷ invalid_price_increment ∷ []

unfoldable pub field_type : FieldType BusinessRejectReason
unfolding to_bytes required
field_type = required to_bytes other all must_be_int
