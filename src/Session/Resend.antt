-- ===== src/Session/Resend.antt =====
-- src/fixt/engine_thread.rs: the parts of `on_network_message` for a message whose MsgSeqNum is the
-- expected one, greater or less. `none` is the answer for a message that is not passed on.
pub mod Calm
use fix_rs.Prelude.{
  ℕ, ◌+◌, ◌-◌, ◌^◌, ◌%◌, Bool, true, false, not, ◌&&◌, ◌||◌, Option, none, some, List, [], ◌∷◌,
  ◌++◌, ◌==◌, ltb, leb, if◌then◌else◌, Bytes, codes,
}
use fix_rs.Decimal.{to_string}
use fix_rs.Action.{
  if_let, Outcome, Action, done, failed, panicked, pure, fail, panic, and_then, ◌>>=◌, ◌>>◌,
}
use fix_rs.Session.Fixt.{
  as_logout, as_resend_request, as_sequence_reset, FixtMessage, Body, Reject, fresh, reject,
  resend_request, logout_message, sequence_reset, SessionRejectReason,
  value_is_incorrect_for_this_tag, sending_time_accuracy_problem,
}
use fix_rs.Session.Status.{
  ConnectionStatus, LoggingOutType, LoggingOutInitiator, local, remote, ok, error,
  resend_requesting, responding, responded, established, logging_out, continue_logout,
  is_logging_out, is_logging_out_with_responded, inbound_resend_request_loop_error,
  inbound_msg_seq_num_lower_than_expected_error, local_requested,
}
use fix_rs.Session.State.{
  Timer, InternalConnection, ConnectionAction, Exit, terminate, from, modify, push, send,
  set_status, shutdown, increment_inbound_msg_seq_num, cancel, reset_timeout, message_rejected,
  resend_requested, message_received_duplicate,
}
use fix_rs.Session.Logout.{initiate_logout, respond_to_logout}

abbrev pub auto_disconnect_after_inbound_resend_request_loop_count : ℕ
auto_disconnect_after_inbound_resend_request_loop_count = 5

-- A `Reject` of the message with this number.
abbrev pub reject_with : ℕ → SessionRejectReason → Bytes → Body
reject_with n reason text = reject (record {
  ref_seq_num = n;
  ref_tag_id = [];
  ref_msg_type = [];
  session_reject_reason = reason;
  text = text;
})

unfoldable pub newest : ℕ → Option ℕ → ℕ
newest n none = n
newest n (some m) = if ltb n m then m else n

-- Whose logout waits for the missing messages, when this Logout changes that.
unfoldable pub logging_out_initiator : ConnectionStatus → Option LoggingOutInitiator
logging_out_initiator s = elim s [
  | logging_out ok ↦ some local
  | logging_out (error _) ↦ none
  | logging_out (resend_requesting _) ↦ none
  | _ ↦ some remote
]

module _ {B T : Type 0} (timer : Timer T) where
  -- The end of the range that the engine is asked for. `+ 1` wraps around.
  unfoldable pub range_end : ℕ → InternalConnection B T → ℕ
  range_end end_seq_no c =
      if end_seq_no == 0 then c.outbound_msg_seq_num else (end_seq_no + 1) % 2 ^ 64

  unfoldable pub ask_engine : ℕ → ℕ → ConnectionAction B T Bool
  unfolding range_end
  ask_engine begin_seq_no end_seq_no c =
      (send (resend_requested c.token begin_seq_no (range_end end_seq_no c)) >> pure true) c

  unfoldable pub end_resend_loop : ℕ → ConnectionAction B T Bool
  unfolding initiate_logout
  end_resend_loop begin_seq_no =
      initiate_logout timer (error inbound_resend_request_loop_error)
        (codes "Detected ResendRequest loop for BeginSeqNo " ++ to_string begin_seq_no)
      >> pure false

  -- The count of requests that begin with the same number; `false` when there were too many.
  unfoldable pub count_resend_request : ℕ → ℕ → ConnectionAction B T Bool
  unfolding end_resend_loop ask_engine
  count_resend_request begin_seq_no end_seq_no c =
      if begin_seq_no == c.last_seen_begin_seq_no
      then (let d = record c { last_seen_count = c.last_seen_count + 1 } in
          if ltb auto_disconnect_after_inbound_resend_request_loop_count d.last_seen_count
          then end_resend_loop begin_seq_no d
          else ask_engine begin_seq_no end_seq_no d)
      else ask_engine begin_seq_no end_seq_no
          (record c { last_seen_begin_seq_no = begin_seq_no; last_seen_count = 1 })

  -- A request after our answer to a Logout cancels the logout.
  unfoldable pub cancel_logout : ConnectionAction B T (Unit {0})
  unfolding cancel is_logging_out_with_responded
  cancel_logout c =
      if is_logging_out_with_responded c.status
      then (done tt, cancel timer c.logout_timeout (record c { status = established }))
      else (done tt, c)

  unfoldable pub reject_range : FixtMessage → ℕ → ConnectionAction B T (Option FixtMessage)
  unfolding cancel_logout
  reject_range message msg_seq_num =
      push (
        from (
          reject_with msg_seq_num value_is_incorrect_for_this_tag
            (codes "EndSeqNo must be greater than BeginSeqNo or set to 0")))
      >> cancel_logout
      >> λ c. (send (message_rejected c.token message) >> pure none) c

  unfoldable pub accept_range : FixtMessage → ℕ → ℕ → ConnectionAction B T (Option FixtMessage)
  unfolding cancel_logout count_resend_request
  accept_range message begin_seq_no end_seq_no =
      count_resend_request begin_seq_no end_seq_no >>= λ goes_on.
      if goes_on then (cancel_logout >> pure (some message)) else pure none

  unfoldable pub on_range : FixtMessage → ℕ → ℕ → ℕ → ConnectionAction B T (Option FixtMessage)
  unfolding reject_range accept_range
  on_range message msg_seq_num begin_seq_no end_seq_no =
      if ltb end_seq_no begin_seq_no && not (end_seq_no == 0)
      then reject_range message msg_seq_num
      else accept_range message begin_seq_no end_seq_no

  unfoldable pub if_on_resend_request : FixtMessage → ℕ → ConnectionAction B T (Option FixtMessage)
  unfolding on_range as_resend_request
  if_on_resend_request message msg_seq_num =
      if_let (as_resend_request message.body)
        (λ range. on_range message msg_seq_num range.0 range.1) (pure (some message))

  unfoldable pub reject_for_sending_time_accuracy :
      FixtMessage → ℕ → ConnectionAction B T (Unit {0})
  reject_for_sending_time_accuracy message msg_seq_num =
      push (
        from (
          reject_with msg_seq_num sending_time_accuracy_problem
            (codes "SendingTime accuracy problem")))
      >> λ c. send (message_rejected c.token message) c

  -- Our own request, unless the message is a request itself.
  unfoldable pub request_missing : Body → ConnectionAction B T (Unit {0})
  unfolding as_resend_request
  request_missing body =
      if_let (as_resend_request body) (λ _. pure tt)
        (λ c. push (from (resend_request c.inbound_msg_seq_num 0)) c)

  unfoldable pub suspend_logout : Option LoggingOutInitiator → ConnectionAction B T (Unit {0})
  unfolding reset_timeout
  suspend_logout none c = (done tt, c)
  suspend_logout (some local) c =
      (done tt, record c { status = logging_out (resend_requesting local) })
  suspend_logout (some remote) c =
      and_then
        (reset_timeout timer c.logout_timeout (some 10000) continue_logout
          (record c { status = logging_out (resend_requesting remote) }))
        (λ timeout. modify (λ c'. record c' { logout_timeout = timeout }))

  unfoldable pub on_early_logout : Body → ConnectionAction B T (Unit {0})
  unfolding suspend_logout logging_out_initiator as_logout
  on_early_logout body =
      if_let (as_logout body) (λ _. λ c. suspend_logout (logging_out_initiator c.status) c)
        (pure tt)

  unfoldable pub remember_newest : ℕ → ConnectionAction B T (Unit {0})
  unfolding newest
  remember_newest msg_seq_num = modify (λ c. record c {
    inbound_resend_request_msg_seq_num =
        some (newest msg_seq_num c.inbound_resend_request_msg_seq_num);
  })

  unfoldable pub if_passed_on :
      Option FixtMessage
      → (FixtMessage → ConnectionAction B T (Unit {0}))
      → ConnectionAction B T (Option FixtMessage)
  if_passed_on none f = pure none
  if_passed_on (some message) f = f message >> pure (some message)

  unfoldable pub on_greater_than_expected_msg_seq_num :
      FixtMessage → ℕ → ConnectionAction B T (Option FixtMessage)
  unfolding if_on_resend_request request_missing remember_newest on_early_logout if_passed_on
  on_greater_than_expected_msg_seq_num message msg_seq_num =
      if_on_resend_request message msg_seq_num >>= λ answer.
      if_passed_on answer
        (λ m. request_missing m.body >> remember_newest msg_seq_num >> on_early_logout m.body)

  unfoldable pub log_out_too_low : ℕ → ConnectionAction B T (Unit {0})
  unfolding initiate_logout
  log_out_too_low msg_seq_num c =
      initiate_logout timer (error inbound_msg_seq_num_lower_than_expected_error)
        (codes "MsgSeqNum too low, expected "
          ++ to_string c.inbound_msg_seq_num
          ++ codes " but received "
          ++ to_string msg_seq_num)
        c

  unfoldable pub on_less_than_expected_msg_seq_num :
      FixtMessage → ℕ → ConnectionAction B T (Unit {0})
  unfolding reject_for_sending_time_accuracy log_out_too_low
  on_less_than_expected_msg_seq_num message msg_seq_num c =
      if message.poss_dup_flag
      then (if leb message.orig_sending_time message.sending_time
          then send (message_received_duplicate c.token message) c
          else reject_for_sending_time_accuracy message msg_seq_num c)
      else log_out_too_low msg_seq_num c

  -- SequenceReset-GapFill. A rejected one is moved out of the message, which is left as a new one.
  -- SequenceReset-Reset cannot come here: `unreachable!`.
  unfoldable pub reject_gap_fill : FixtMessage → ℕ → ℕ → ConnectionAction B T FixtMessage
  reject_gap_fill message msg_seq_num new_seq_no c =
      (push (
            from (
              reject_with msg_seq_num value_is_incorrect_for_this_tag (
                codes "Attempt to lower sequence number, invalid value NewSeqNo="
                ++ to_string new_seq_no)))
          >> send (message_rejected c.token message)
          >> pure (fresh (sequence_reset false 0)))
        c

  unfoldable pub fill_gap : FixtMessage → ℕ → ℕ → ConnectionAction B T FixtMessage
  unfolding reject_gap_fill
  fill_gap message msg_seq_num new_seq_no c =
      if ltb c.inbound_msg_seq_num new_seq_no
      then (done message, record c { inbound_msg_seq_num = new_seq_no })
      else reject_gap_fill message msg_seq_num new_seq_no c

  unfoldable pub on_gap_fill : FixtMessage → ℕ → ConnectionAction B T FixtMessage
  unfolding fill_gap as_sequence_reset
  on_gap_fill message msg_seq_num =
      if_let (as_sequence_reset message.body)
        (λ reset. if reset.0 then fill_gap message msg_seq_num reset.1 else panic) (pure message)

  unfoldable pub answer_logout : ConnectionAction B T (Unit {0})
  unfolding is_logging_out shutdown respond_to_logout
  answer_logout c =
      if is_logging_out c.status
      then (failed (terminate local_requested), shutdown c)
      else respond_to_logout timer c

  unfoldable pub on_logout : Body → ConnectionAction B T (Unit {0})
  unfolding answer_logout as_logout
  on_logout body = if_let (as_logout body) (λ _. answer_logout) (pure tt)

  unfoldable pub on_in_order : FixtMessage → ℕ → ConnectionAction B T (Option FixtMessage)
  unfolding on_gap_fill if_on_resend_request on_logout if_passed_on
  on_in_order message msg_seq_num = on_gap_fill message msg_seq_num >>= λ m.
      if_on_resend_request m msg_seq_num >>= λ answer. if_passed_on answer (λ m'. on_logout m'.body)

  unfoldable pub on_expected_msg_seq_num :
      FixtMessage → ℕ → ConnectionAction B T (Option FixtMessage)
  unfolding increment_inbound_msg_seq_num reject_for_sending_time_accuracy on_in_order
  on_expected_msg_seq_num message msg_seq_num =
      increment_inbound_msg_seq_num
      >> (if message.poss_dup_flag && ltb message.sending_time message.orig_sending_time
          then (reject_for_sending_time_accuracy message msg_seq_num >> pure none)
          else on_in_order message msg_seq_num)
