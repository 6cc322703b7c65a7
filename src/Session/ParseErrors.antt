-- ===== src/Session/ParseErrors.antt =====
-- src/fixt/engine_thread.rs: `on_network_parse_error`, with the answer to every kind of error.
pub mod Answers
use fix_rs.Prelude.{
  ℕ, ◌+◌, Bool, true, false, Option, none, some, List, [], ◌∷◌, ◌++◌, ◌==◌, if◌then◌else◌, Bytes,
  codes,
}
use fix_rs.Decimal.{to_string}
use fix_rs.FieldTag
use fix_rs.FieldTag.{FieldTag}
use fix_rs.Action.{if_let, Outcome, Action, done, failed, panicked, pure, fail, ◌>>=◌, ◌>>◌}
use fix_rs.Parser.State.{
  ParseError, missing_required_tag, missing_conditionally_required_tag, begin_str_not_first_tag,
  body_length_not_second_tag, body_length_not_number, msg_type_not_third_tag, msg_type_unknown,
  sender_comp_id_not_fourth_tag, target_comp_id_not_fifth_tag, appl_ver_id_not_sixth_tag,
  checksum_not_last_tag, checksum_does_not_match, checksum_wrong_format, duplicate_tag,
  unexpected_tag, unknown_tag, wrong_format_tag, out_of_range_tag, no_value_after_tag,
  missing_preceding_length_tag, missing_following_length_tag,
  non_repeating_group_tag_in_repeating_group, repeating_group_tag_with_no_repeating_group,
  missing_first_repeating_group_tag_after_number_of_repeating_group_tag, message_size_too_big,
  sender_comp_id_tag, target_comp_id_tag, appl_ver_id_tag,
}
use fix_rs.Session.Fixt.{
  FixtMessage, Body, reject, business_message_reject, msg_type, SessionRejectReason,
  required_tag_missing, tag_not_defined_for_this_message_type, invalid_tag_number,
  tag_specified_without_a_value, value_is_incorrect_for_this_tag, incorrect_data_format_for_value,
  tag_specified_out_of_required_order, other_reason, tag_appears_more_than_once,
  incorrect_num_in_group_count_for_repeating_group, invalid_msg_type, unsupported_message_type,
  conditionally_required_field_missing,
}
use fix_rs.Session.Status.{ConnectionStatus, is_sending_logon, logon_parse_error}
use fix_rs.Session.State.{
  InternalConnection, ConnectionAction, terminate, from, modify, push, send, shutdown,
  increment_inbound_msg_seq_num, message_received_garbled,
}
use fix_rs.Session.Dictionary.{standard_msg_types, contains_type}

abbrev pub orig_sending_time_tag : FieldTag
orig_sending_time_tag = 122

-- `push_reject`, which names the tag or the message type at fault.
unfoldable pub reject_for : ℕ → Bytes → Bytes → SessionRejectReason → Bytes → Body
reject_for n ref_msg_type ref_tag_id reason text = reject (record {
  ref_seq_num = n;
  ref_tag_id = ref_tag_id;
  ref_msg_type = ref_msg_type;
  session_reject_reason = reason;
  text = text;
})

unfoldable pub reject_tag : ℕ → FieldTag → SessionRejectReason → Bytes → Body
unfolding reject_for FieldTag.to_bytes
reject_tag n tag reason text = reject_for n [] (FieldTag.to_bytes tag) reason text

unfoldable pub out_of_order : ℕ → Body
unfolding reject_for
out_of_order n =
    reject_for n [] [] tag_specified_out_of_required_order
      (codes "Tag specified out of required order")

unfoldable pub missing_conditional : ℕ → FieldTag → Bytes → Body
unfolding reject_for FieldTag.to_bytes
missing_conditional n tag ref_msg_type =
    if tag == orig_sending_time_tag
    then reject_for n ref_msg_type (FieldTag.to_bytes tag) required_tag_missing
        (codes "Conditionally required tag missing")
    else business_message_reject (record {
      ref_seq_num = n;
      ref_msg_type = ref_msg_type;
      business_reject_ref_id = FieldTag.to_bytes tag;
      business_reject_reason = conditionally_required_field_missing;
      text = codes "Conditionally required field missing";
    })

unfoldable pub unknown_type : ℕ → Bytes → Body
unfolding reject_for contains_type
unknown_type n t =
    if contains_type t standard_msg_types
    then business_message_reject (record {
      ref_seq_num = n;
      ref_msg_type = t;
      business_reject_ref_id = t;
      business_reject_reason = unsupported_message_type;
      text = codes "Unsupported Message Type";
    })
    else reject_for n t t invalid_msg_type (codes "Invalid MsgType")

unfoldable pub wrong_group : ℕ → FieldTag → Body
unfolding reject_tag
wrong_group n tag =
    reject_tag n tag incorrect_num_in_group_count_for_repeating_group
      (codes "Incorrect NumInGroup count for repeating group")

-- The arguments are the number expected of the next message and the greatest size of a message.
unfoldable pub answer : ℕ → ℕ → ParseError FixtMessage → Option Body
unfolding reject_for reject_tag out_of_order missing_conditional unknown_type wrong_group msg_type
answer n max e = elim e [
  | missing_required_tag tag _ ↦
      some (reject_tag n tag required_tag_missing (codes "Required tag missing"))
  | unexpected_tag tag ↦ some (
      reject_tag n tag tag_not_defined_for_this_message_type
        (codes "Tag not defined for this message type"))
  | unknown_tag tag ↦ some (reject_tag n tag invalid_tag_number (codes "Invalid tag number"))
  | no_value_after_tag tag ↦
      some (reject_tag n tag tag_specified_without_a_value (codes "Tag specified without a value"))
  | out_of_range_tag tag ↦ some (
      reject_tag n tag value_is_incorrect_for_this_tag
        (codes "Value is incorrect (out of range) for this tag"))
  | wrong_format_tag tag ↦
      some
        (reject_tag n tag incorrect_data_format_for_value (codes "Incorrect data format for value"))
  | sender_comp_id_not_fourth_tag ↦ some (
      reject_tag n sender_comp_id_tag tag_specified_out_of_required_order
        (codes "SenderCompID must be the 4th tag"))
  | target_comp_id_not_fifth_tag ↦ some (
      reject_tag n target_comp_id_tag tag_specified_out_of_required_order
        (codes "TargetCompID must be the 5th tag"))
  | appl_ver_id_not_sixth_tag ↦ some (
      reject_tag n appl_ver_id_tag tag_specified_out_of_required_order
        (codes "ApplVerID must be the 6th tag if specified"))
  | message_size_too_big ↦ some (
      reject_for n [] [] other_reason
        (codes "Message size exceeds MaxMessageSize=" ++ to_string max))
  | begin_str_not_first_tag ↦ some (out_of_order n)
  | body_length_not_second_tag ↦ some (out_of_order n)
  | msg_type_not_third_tag ↦ some (out_of_order n)
  | checksum_not_last_tag ↦ some (out_of_order n)
  | missing_preceding_length_tag _ ↦ some (out_of_order n)
  | missing_following_length_tag _ ↦ some (out_of_order n)
  | duplicate_tag tag ↦
      some (reject_tag n tag tag_appears_more_than_once (codes "Tag appears more than once"))
  | missing_conditionally_required_tag tag m ↦ some (missing_conditional n tag (msg_type m.body))
  | missing_first_repeating_group_tag_after_number_of_repeating_group_tag tag ↦
      some (wrong_group n tag)
  | non_repeating_group_tag_in_repeating_group tag ↦ some (wrong_group n tag)
  | repeating_group_tag_with_no_repeating_group tag ↦ some (wrong_group n tag)
  | msg_type_unknown t ↦ some (unknown_type n t)
  | body_length_not_number ↦ none
  | checksum_does_not_match _ _ ↦ none
  | checksum_wrong_format ↦ none
]

module _ {B T : Type 0} where
  unfoldable pub push_answer : Option Body → InternalConnection B T → InternalConnection B T
  push_answer none c = c
  push_answer (some body) c = record c {
    outbound_messages = c.outbound_messages ++ (from body ∷ []);
  }

  unfoldable pub on_network_parse_error : ParseError FixtMessage → ConnectionAction B T (Unit {0})
  unfolding is_sending_logon shutdown answer push_answer increment_inbound_msg_seq_num
  on_network_parse_error e c =
      if is_sending_logon c.status
      then (failed (terminate (logon_parse_error e)), shutdown c)
      else (increment_inbound_msg_seq_num >> (λ d. send (message_received_garbled d.token e) d))
          (push_answer (answer c.inbound_msg_seq_num c.parser.max_message_length e) c)
