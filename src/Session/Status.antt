-- ===== src/Session/Status.antt =====
-- src/fixt/engine_thread.rs and src/fixt/engine.rs: the status of a connection, the reasons for
-- which it is terminated, and the types of the timeouts.
use fix_rs.Prelude.{ℕ, Option, none, some, Bool, true, false}
use fix_rs.Version.{FixVersion}
use fix_rs.Parser.State.{ParseError}
use fix_rs.Session.Fixt.{FixtMessage}

pub data ConnectionTerminatedReason : Type 0 where
  begin_str_wrong_error : FixVersion → FixVersion → ConnectionTerminatedReason
  inbound_msg_seq_num_max_exceeded_error : ConnectionTerminatedReason
  inbound_msg_seq_num_lower_than_expected_error : ConnectionTerminatedReason
  inbound_resend_request_loop_error : ConnectionTerminatedReason
  local_requested : ConnectionTerminatedReason
  logon_heart_bt_int_negative_error : ConnectionTerminatedReason
  logon_parse_error : ParseError FixtMessage → ConnectionTerminatedReason
  logon_never_received_error : ConnectionTerminatedReason
  logon_not_first_message_error : ConnectionTerminatedReason
  logon_rejected_error : ConnectionTerminatedReason
  logout_no_hang_up_error : ConnectionTerminatedReason
  logout_no_response_error : ConnectionTerminatedReason
  outbound_msg_seq_num_max_exceeded_error : ConnectionTerminatedReason
  remote_requested : ConnectionTerminatedReason
  sender_comp_id_wrong_error : ConnectionTerminatedReason
  socket_not_writable_timeout_error : ConnectionTerminatedReason
  socket_read_error : ℕ → ConnectionTerminatedReason
  socket_write_error : ℕ → ConnectionTerminatedReason
  target_comp_id_wrong_error : ConnectionTerminatedReason
  test_request_not_responded_error : ConnectionTerminatedReason

pub data LoggingOutInitiator : Type 0 where
  local remote : LoggingOutInitiator

pub data LoggingOutType : Type 0 where
  ok : LoggingOutType
  error : ConnectionTerminatedReason → LoggingOutType
  resend_requesting : LoggingOutInitiator → LoggingOutType
  responding : LoggingOutType
  responded : LoggingOutType

pub data ConnectionStatus : Type 0 where
  sending_logon : ConnectionStatus
  receiving_logon : ℕ → ℕ → ConnectionStatus
  approving_logon : ConnectionStatus
  established : ConnectionStatus
  logging_out : LoggingOutType → ConnectionStatus

pub data TimeoutType : Type 0 where
  outbound inbound inbound_test_request inbound_blocked continue_logout no_logon logout hang_up :
      TimeoutType

unfoldable pub is_sending_logon : ConnectionStatus → Bool
is_sending_logon s = elim s [ sending_logon ↦ true | _ ↦ false ]

unfoldable pub is_receiving_logon : ConnectionStatus → Bool
is_receiving_logon s = elim s [ receiving_logon _ _ ↦ true | _ ↦ false ]

-- The listener and the timeout of `ReceivingLogon`.
unfoldable pub as_receiving_logon : ConnectionStatus → Option (ℕ × ℕ)
as_receiving_logon s = elim s [
  | receiving_logon listener timeout ↦ some (listener, timeout)
  | _ ↦ none
]

unfoldable pub is_approving_logon : ConnectionStatus → Bool
is_approving_logon s = elim s [ approving_logon ↦ true | _ ↦ false ]

unfoldable pub is_established : ConnectionStatus → Bool
is_established s = elim s [ established ↦ true | _ ↦ false ]

unfoldable pub is_logging_out : ConnectionStatus → Bool
is_logging_out s = elim s [ logging_out _ ↦ true | _ ↦ false ]

unfoldable pub is_logging_out_with_error : ConnectionStatus → Bool
is_logging_out_with_error s = elim s [ logging_out (error _) ↦ true | _ ↦ false ]

unfoldable pub is_logging_out_with_resending_request_initiated_by_local : ConnectionStatus → Bool
is_logging_out_with_resending_request_initiated_by_local s = elim s [
  | logging_out (resend_requesting local) ↦ true
  | _ ↦ false
]

unfoldable pub is_logging_out_with_resending_request_initiated_by_remote : ConnectionStatus → Bool
is_logging_out_with_resending_request_initiated_by_remote s = elim s [
  | logging_out (resend_requesting remote) ↦ true
  | _ ↦ false
]

unfoldable pub is_logging_out_with_responding : ConnectionStatus → Bool
is_logging_out_with_responding s = elim s [ logging_out responding ↦ true | _ ↦ false ]

unfoldable pub is_logging_out_with_responded : ConnectionStatus → Bool
is_logging_out_with_responded s = elim s [ logging_out responded ↦ true | _ ↦ false ]
