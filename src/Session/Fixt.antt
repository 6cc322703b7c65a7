-- ===== src/Session/Fixt.antt =====
-- src/fixt/message.rs and src/dictionary/messages.rs: what the session layer reads and writes of a
-- message, which are the fields of its header and those of the administrative messages.
use fix_rs.Prelude.{ℕ, Bool, false, Option, none, some, List, [], Bytes, codes}
use fix_rs.Version.{MessageVersion}
use fix_rs.Parser.State.{Meta}

-- The type `i32` of HeartBtInt, written `pos n` for n and `negsuc n` for -1 - n.
pub data ℤ : Type 0 where
  pos negsuc : ℕ → ℤ

pub record MsgTypeEntry : Type 0 where
  pub ref_msg_type : Bytes
  pub ref_appl_ver_id : Option MessageVersion
  pub is_send : Bool
  pub default_ver_indicator : Bool

pub data SessionRejectReason : Type 0 where
  invalid_tag_number required_tag_missing tag_not_defined_for_this_message_type :
      SessionRejectReason
  tag_specified_without_a_value value_is_incorrect_for_this_tag : SessionRejectReason
  incorrect_data_format_for_value comp_id_problem sending_time_accuracy_problem :
      SessionRejectReason
  invalid_msg_type tag_appears_more_than_once tag_specified_out_of_required_order :
      SessionRejectReason
  incorrect_num_in_group_count_for_repeating_group other_reason : SessionRejectReason

pub data BusinessRejectReason : Type 0 where
  unsupported_message_type conditionally_required_field_missing : BusinessRejectReason

pub record Logon : Type 0 where
  pub heart_bt_int : ℤ
  pub default_appl_ver_id : MessageVersion
  pub no_msg_types : List MsgTypeEntry

pub record Reject : Type 0 where
  pub ref_seq_num : ℕ
  pub ref_tag_id : Bytes
  pub ref_msg_type : Bytes
  pub session_reject_reason : SessionRejectReason
  pub text : Bytes

pub record BusinessMessageReject : Type 0 where
  pub ref_seq_num : ℕ
  pub ref_msg_type : Bytes
  pub business_reject_ref_id : Bytes
  pub business_reject_reason : BusinessRejectReason
  pub text : Bytes

-- What `downcast_ref` tells apart. Every message of the application is `application`.
pub data Body : Type 0 where
  logon : Logon → Body
  logout_message : Bytes → Body
  resend_request : ℕ → ℕ → Body
  test_request : Bytes → Body
  heartbeat : Bytes → Body
  sequence_reset : Bool → ℕ → Body
  reject : Reject → Body
  business_message_reject : BusinessMessageReject → Body
  application : Bytes → Body

pub record FixtMessage : Type 0 where
  pub meta : Option Meta
  pub sender_comp_id : Bytes
  pub target_comp_id : Bytes
  pub msg_seq_num : ℕ
  pub poss_dup_flag : Bool
  pub sending_time : ℕ
  pub orig_sending_time : ℕ
  pub body : Body

-- A message that `new` makes, with the body's fields set.
abbrev pub fresh : Body → FixtMessage
fresh body = record {
  meta = none;
  sender_comp_id = [];
  target_comp_id = [];
  msg_seq_num = 0;
  poss_dup_flag = false;
  sending_time = 0;
  orig_sending_time = 0;
  body = body;
}

unfoldable pub setup_fixt_session_header : Option ℕ → Bytes → Bytes → ℕ → FixtMessage → FixtMessage
setup_fixt_session_header msg_seq_num sender target now m = record m {
  msg_seq_num = elim msg_seq_num [ none ↦ m.msg_seq_num | some n ↦ n ];
  sender_comp_id = sender;
  target_comp_id = target;
  sending_time = now;
}

-- `downcast_ref`, at the types that the session layer asks for.
unfoldable pub as_logon : Body → Option Logon
as_logon b = elim b [ logon l ↦ some l | _ ↦ none ]

unfoldable pub as_logout : Body → Option Bytes
as_logout b = elim b [ logout_message text ↦ some text | _ ↦ none ]

unfoldable pub as_resend_request : Body → Option (ℕ × ℕ)
as_resend_request b = elim b [
  | resend_request begin_seq_no end_seq_no ↦ some (begin_seq_no, end_seq_no)
  | _ ↦ none
]

unfoldable pub as_test_request : Body → Option Bytes
as_test_request b = elim b [ test_request id ↦ some id | _ ↦ none ]

unfoldable pub as_sequence_reset : Body → Option (Bool × ℕ)
as_sequence_reset b = elim b [
  | sequence_reset gap_fill_flag new_seq_no ↦ some (gap_fill_flag, new_seq_no)
  | _ ↦ none
]

-- `msg_type` of the messages of src/dictionary/messages.rs.
unfoldable pub msg_type : Body → Bytes
msg_type b = elim b [
  | logon _ ↦ codes "A"
  | logout_message _ ↦ codes "5"
  | resend_request _ _ ↦ codes "2"
  | test_request _ ↦ codes "1"
  | heartbeat _ ↦ codes "0"
  | sequence_reset _ _ ↦ codes "4"
  | reject _ ↦ codes "3"
  | business_message_reject _ ↦ codes "j"
  | application t ↦ t
]
