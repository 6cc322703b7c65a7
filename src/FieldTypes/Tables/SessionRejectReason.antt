-- ===== src/FieldTypes/Tables/SessionRejectReason.antt =====
-- src/dictionary/field_types/other.rs: `SessionRejectReason` and its field type.
use fix_rs.Prelude.{List, [], ◌∷◌, Option}
use fix_rs.Prelude.Int.{ℤ, pos}
use fix_rs.FieldTypes.{FieldType}
use fix_rs.FieldTypes.Enum.{Reserved, not_required_reserved}

pub data SessionRejectReason : Type 0 where
  invalid_tag_number required_tag_missing tag_not_defined_for_this_message_type undefined_tag
        tag_specified_without_a_value value_is_incorrect_for_this_tag
        incorrect_data_format_for_value decryption_problem signature_problem comp_id_problem
        sending_time_accuracy_problem invalid_msg_type xml_validation_error
        tag_appears_more_than_once tag_specified_out_of_required_order
        repeating_group_fields_out_of_order incorrect_num_in_group_count_for_repeating_group
        non_data_value_includes_field_delimiter invalid_or_unsupported_application_version other :
      SessionRejectReason

unfoldable pub value_of : SessionRejectReason → ℤ
value_of invalid_tag_number = pos 0
value_of required_tag_missing = pos 1
value_of tag_not_defined_for_this_message_type = pos 2
value_of undefined_tag = pos 3
value_of tag_specified_without_a_value = pos 4
value_of value_is_incorrect_for_this_tag = pos 5
value_of incorrect_data_format_for_value = pos 6
value_of decryption_problem = pos 7
value_of signature_problem = pos 8
value_of comp_id_problem = pos 9
value_of sending_time_accuracy_problem = pos 10
value_of invalid_msg_type = pos 11
value_of xml_validation_error = pos 12
value_of tag_appears_more_than_once = pos 13
value_of tag_specified_out_of_required_order = pos 14
value_of repeating_group_fields_out_of_order = pos 15
value_of incorrect_num_in_group_count_for_repeating_group = pos 16
value_of non_data_value_includes_field_delimiter = pos 17
value_of invalid_or_unsupported_application_version = pos 18
value_of other = pos 99

abbrev pub all : List SessionRejectReason
all =
    invalid_tag_number ∷ required_tag_missing ∷ tag_not_defined_for_this_message_type
    ∷ undefined_tag ∷ tag_specified_without_a_value ∷ value_is_incorrect_for_this_tag
    ∷ incorrect_data_format_for_value ∷ decryption_problem ∷ signature_problem ∷ comp_id_problem
    ∷ sending_time_accuracy_problem ∷ invalid_msg_type ∷ xml_validation_error
    ∷ tag_appears_more_than_once ∷ tag_specified_out_of_required_order
    ∷ repeating_group_fields_out_of_order ∷ incorrect_num_in_group_count_for_repeating_group
    ∷ non_data_value_includes_field_delimiter ∷ invalid_or_unsupported_application_version ∷ other
    ∷ []

unfoldable pub field_type : FieldType (Option (Reserved SessionRejectReason))
unfolding value_of not_required_reserved
field_type = not_required_reserved value_of invalid_tag_number all (pos 100)
