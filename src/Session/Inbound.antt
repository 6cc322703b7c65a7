-- ===== src/Session/Inbound.antt =====
-- src/fixt/engine_thread.rs: `on_network_message`, in the order of its checks.
pub mod Checks
pub mod Sequence
pub mod Same
pub mod Covered
pub mod Repeated
pub mod Delivery
use fix_rs.Prelude.{
  ℕ, zero, suc, ◌+◌, ◌*◌, ◌^◌, ◌%◌, Bool, true, false, not, ◌&&◌, ◌||◌, Option, none, some, List,
  [], ◌∷◌, ◌++◌, ◌==◌, ltb, leb, if◌then◌else◌, Bytes, codes, bytes_eq,
}
use fix_rs.Decimal.{to_string}
use fix_rs.Version.{MessageVersion, FixVersion, fix_version_eq, begin_string, max_message_version}
use fix_rs.Action.{
  if_let, Outcome, Action, done, failed, panicked, pure, fail, panic, and_then, ◌>>=◌, ◌>>◌,
}
use fix_rs.Parser.State.{Parser, Meta}
use fix_rs.Parser.Defaults.{
  set_default_message_version, clear_default_message_type_versions,
  set_default_message_type_version,
}
use fix_rs.Session.Fixt.{
  as_logon, as_test_request, as_sequence_reset, FixtMessage, Body, Logon, MsgTypeEntry, ℤ, pos,
  negsuc, logon, test_request, heartbeat, sequence_reset, comp_id_problem,
  value_is_incorrect_for_this_tag,
}
use fix_rs.Session.Status.{
  ConnectionStatus, ConnectionTerminatedReason, error, established, receiving_logon,
  approving_logon, sending_logon, is_receiving_logon, is_sending_logon, as_receiving_logon,
  begin_str_wrong_error, sender_comp_id_wrong_error, target_comp_id_wrong_error,
  logon_heart_bt_int_negative_error, logon_not_first_message_error,
}
use fix_rs.Session.State.{
  OutboundMessage, Timer, InternalConnection, ConnectionAction, Exit, terminate, return_now, from,
  modify, push, push_front, send, set_status, shutdown, cancel, reset_outbound_timeout,
  reset_inbound_timeout, begin_blocking_inbound, connection_logging_on, session_established,
  message_received, message_rejected, sequence_reset_reset_has_no_effect,
  sequence_reset_reset_in_the_past,
}
use fix_rs.Session.Dictionary.{administrative_msg_types}
use fix_rs.Session.Logout.{initiate_logout, clear_inbound_resend_request_msg_seq_num}
use fix_rs.Session.Resend.{
  reject_with, on_greater_than_expected_msg_seq_num, on_less_than_expected_msg_seq_num,
  on_expected_msg_seq_num,
}

unfoldable pub reset_target : Body → Option ℕ
unfolding as_sequence_reset
reset_target b = if_let (as_sequence_reset b) (λ reset. if reset.0 then none else some reset.1) none

abbrev pub reset_reject : ℕ → ℕ → OutboundMessage
reset_reject msg_seq_num new_seq_no = from (
    reject_with msg_seq_num value_is_incorrect_for_this_tag
      (codes "Attempt to lower sequence number, invalid value NewSeqNo=" ++ to_string new_seq_no))

module _ {B T : Type 0} (timer : Timer T) where
  -- `initiate_logout` with an error, after which the caller returns.
  unfoldable pub log_out_now : ConnectionTerminatedReason → Bytes → ConnectionAction B T (Unit {0})
  unfolding initiate_logout
  log_out_now reason text = initiate_logout timer (error reason) text >> fail return_now

  unfoldable pub compare_versions : FixVersion → FixVersion → ConnectionAction B T (Unit {0})
  unfolding log_out_now fix_version_eq begin_string
  compare_versions received expected =
      if fix_version_eq received expected
      then pure tt
      else log_out_now (begin_str_wrong_error received expected) (
          codes "BeginStr is wrong, expected '"
          ++ begin_string expected
          ++ codes "' but received '"
          ++ begin_string received
          ++ codes "'")

  unfoldable pub check_version : FixtMessage → ConnectionAction B T (Unit {0})
  unfolding compare_versions is_receiving_logon
  check_version message c =
      if is_receiving_logon c.status
      then (done tt, c)
      else if_let message.meta (λ m. compare_versions m.begin_string c.fix_version) panic c

  -- The logout first, and then the Reject in front of its message.
  unfoldable pub reject_comp_id :
      FixtMessage → ConnectionTerminatedReason → Bytes → ConnectionAction B T (Unit {0})
  unfolding initiate_logout
  reject_comp_id message reason text =
      initiate_logout timer (error reason) text
      >> (λ c.
          push_front
            (from (reject_with c.inbound_msg_seq_num comp_id_problem (codes "CompID problem"))) c)
      >> (λ c. send (message_rejected c.token message) c)
      >> fail return_now

  unfoldable pub check_comp_ids : FixtMessage → ConnectionAction B T (Unit {0})
  unfolding reject_comp_id bytes_eq is_receiving_logon shutdown
  check_comp_ids message c =
      if not (bytes_eq message.sender_comp_id c.target_comp_id) && not (is_receiving_logon c.status)
      then reject_comp_id message sender_comp_id_wrong_error (codes "SenderCompID is wrong") c
      else if not (bytes_eq message.target_comp_id c.sender_comp_id)
      then (if is_receiving_logon c.status
          then (failed (terminate target_comp_id_wrong_error), shutdown c)
          else reject_comp_id message target_comp_id_wrong_error (codes "TargetCompID is wrong") c)
      else (done tt, c)

  -- `message.heart_bt_int as u64 * 1000 + NO_INBOUND_TIMEOUT_PADDING_MS`, of an i32 above 0.
  unfoldable pub set_heart_bt_durations : ℕ → InternalConnection B T → InternalConnection B T
  set_heart_bt_durations seconds c = record c {
    outbound_heartbeat_timeout_duration = some (seconds * 1000);
    inbound_testrequest_timeout_duration = some (seconds * 1000 + 250);
  }

  unfoldable pub start_heart_bt : ℤ → ConnectionAction B T (Unit {0})
  unfolding set_heart_bt_durations reset_outbound_timeout reset_inbound_timeout log_out_now
  start_heart_bt (pos zero) = pure tt
  start_heart_bt (pos (suc n)) =
      modify (λ c. set_heart_bt_durations (suc n) c)
      >> reset_outbound_timeout timer
      >> reset_inbound_timeout timer
  start_heart_bt (negsuc n) =
      log_out_now logon_heart_bt_int_negative_error (codes "HeartBtInt cannot be negative")

  -- The same of a Logon that is yet to be approved, where no timer is started.
  unfoldable pub note_heart_bt : ℤ → ConnectionAction B T (Unit {0})
  unfolding set_heart_bt_durations log_out_now
  note_heart_bt (pos zero) = pure tt
  note_heart_bt (pos (suc n)) = modify (λ c. set_heart_bt_durations (suc n) c)
  note_heart_bt (negsuc n) =
      log_out_now logon_heart_bt_int_negative_error (codes "HeartBtInt cannot be negative")

  unfoldable pub set_entry_version : MsgTypeEntry → Parser B FixtMessage → Parser B FixtMessage
  unfolding set_default_message_type_version
  set_entry_version e p =
      if e.default_ver_indicator && e.is_send
      then elim e.ref_appl_ver_id [
        | none ↦ p
        | some v ↦ set_default_message_type_version e.ref_msg_type v p
      ]
      else p

  unfoldable pub set_entry_versions :
      List MsgTypeEntry → Parser B FixtMessage → Parser B FixtMessage
  unfolding set_entry_version
  set_entry_versions [] p = p
  set_entry_versions (e ∷ es) p = set_entry_versions es (set_entry_version e p)

  unfoldable pub set_type_versions :
      List Bytes → MessageVersion → Parser B FixtMessage → Parser B FixtMessage
  unfolding set_default_message_type_version
  set_type_versions [] v p = p
  set_type_versions (t ∷ ts) v p = set_type_versions ts v (set_default_message_type_version t v p)

  unfoldable pub logon_accepted : Logon → ConnectionAction B T (Unit {0})
  unfolding start_heart_bt set_default_message_version set_entry_versions
  logon_accepted l =
      set_status established
      >> start_heart_bt l.heart_bt_int
      >> modify (λ c. record c {
        parser =
            set_entry_versions l.no_msg_types
              (set_default_message_version l.default_appl_ver_id c.parser);
      })
      >> (λ c. send (session_established c.token) c)

  unfoldable pub not_a_logon : ConnectionAction B T (Unit {0})
  unfolding log_out_now
  not_a_logon = log_out_now logon_not_first_message_error (codes "First message not a logon")

  -- `message.msg_seq_num + 1` wraps around.
  unfoldable pub take_identity :
      FixtMessage → Logon → FixVersion → InternalConnection B T → InternalConnection B T
  unfolding set_default_message_version
  take_identity message l version c = record c {
    fix_version = version;
    parser = set_default_message_version l.default_appl_ver_id c.parser;
    inbound_msg_seq_num = (message.msg_seq_num + 1) % 2 ^ 64;
    target_comp_id = message.sender_comp_id;
  }

  unfoldable pub set_parser_defaults : Logon → InternalConnection B T → InternalConnection B T
  unfolding set_entry_versions set_type_versions clear_default_message_type_versions
      max_message_version
  set_parser_defaults l c = record c {
    parser = set_entry_versions l.no_msg_types (
        set_type_versions administrative_msg_types (max_message_version c.fix_version)
          (clear_default_message_type_versions c.parser));
  }

  unfoldable pub logon_offered : ℕ → FixtMessage → Logon → ConnectionAction B T (Unit {0})
  unfolding take_identity note_heart_bt set_parser_defaults begin_blocking_inbound
  logon_offered listener message l =
      if_let message.meta
        (λ m.
          modify (take_identity message l m.begin_string)
          >> note_heart_bt l.heart_bt_int
          >> modify (set_parser_defaults l)
          >> begin_blocking_inbound timer
          >> (λ c. send (connection_logging_on listener c.token l) c)
          >> fail return_now)
        panic

  unfoldable pub receive_logon : ℕ → FixtMessage → ConnectionAction B T (Unit {0})
  unfolding logon_offered not_a_logon as_logon
  receive_logon listener message =
      if_let (as_logon message.body) (logon_offered listener message) not_a_logon

  unfoldable pub logon_answered : FixtMessage → ConnectionAction B T (Unit {0})
  unfolding logon_accepted not_a_logon as_logon
  logon_answered message = if_let (as_logon message.body) logon_accepted not_a_logon

  unfoldable pub begin_approving : FixtMessage → ℕ → ℕ → ConnectionAction B T Bool
  unfolding receive_logon cancel
  begin_approving message listener timeout c =
      (receive_logon listener message >> pure false)
        (cancel timer (some timeout) (record c { status = approving_logon }))

  -- Whether the session was established by this message.
  unfoldable pub on_logon : FixtMessage → ConnectionAction B T Bool
  unfolding logon_answered begin_approving is_sending_logon as_receiving_logon
  on_logon message c =
      if is_sending_logon c.status
      then (logon_answered message >> pure true) c
      else if_let (as_receiving_logon c.status) (λ from. begin_approving message from.0 from.1)
          (pure false) c

  unfoldable pub on_sequence_reset_reset : ℕ → ℕ → ConnectionAction B T (Unit {0})
  unfolding clear_inbound_resend_request_msg_seq_num
  on_sequence_reset_reset msg_seq_num new_seq_no c =
      if ltb c.inbound_msg_seq_num new_seq_no
      then clear_inbound_resend_request_msg_seq_num timer
          (record c { inbound_msg_seq_num = new_seq_no })
      else if new_seq_no == c.inbound_msg_seq_num
      then send (sequence_reset_reset_has_no_effect c.token) c
      else (push (reset_reject msg_seq_num new_seq_no)
            >> send (sequence_reset_reset_in_the_past c.token))
          c

  unfoldable pub passed_on : Option FixtMessage → ConnectionAction B T FixtMessage
  passed_on none = fail return_now
  passed_on (some message) = pure message

  -- The gap is closed when the expected number has passed that of the newest message seen.
  unfoldable pub close_gap : ConnectionAction B T (Unit {0})
  unfolding clear_inbound_resend_request_msg_seq_num
  close_gap c =
      if_let c.inbound_resend_request_msg_seq_num
        (λ n.
          if leb n c.inbound_msg_seq_num
          then clear_inbound_resend_request_msg_seq_num timer
          else pure tt)
        (pure tt) c

  unfoldable pub too_high : Bool → FixtMessage → ConnectionAction B T FixtMessage
  unfolding on_greater_than_expected_msg_seq_num passed_on
  too_high just_logged_on message =
      on_greater_than_expected_msg_seq_num timer message message.msg_seq_num >>= λ answer.
      passed_on answer >>= λ m. if just_logged_on then pure m else fail return_now

  unfoldable pub as_expected : FixtMessage → ConnectionAction B T FixtMessage
  unfolding on_expected_msg_seq_num passed_on close_gap
  as_expected message = on_expected_msg_seq_num timer message message.msg_seq_num >>= λ answer.
      passed_on answer >>= λ m. close_gap >> pure m

  unfoldable pub in_sequence : Bool → FixtMessage → ConnectionAction B T FixtMessage
  unfolding too_high as_expected on_less_than_expected_msg_seq_num
  in_sequence just_logged_on message c =
      if ltb c.inbound_msg_seq_num message.msg_seq_num
      then too_high just_logged_on message c
      else if ltb message.msg_seq_num c.inbound_msg_seq_num
      then (on_less_than_expected_msg_seq_num timer message message.msg_seq_num >> fail return_now)
          c
      else as_expected message c

  unfoldable pub on_msg_seq_num : Bool → FixtMessage → ConnectionAction B T FixtMessage
  unfolding reset_target on_sequence_reset_reset in_sequence
  on_msg_seq_num just_logged_on message =
      if_let (reset_target message.body)
        (λ n. on_sequence_reset_reset message.msg_seq_num n >> pure message)
        (in_sequence just_logged_on message)

  unfoldable pub reply_to_test_request : Body → ConnectionAction B T (Unit {0})
  unfolding as_test_request
  reply_to_test_request b = if_let (as_test_request b) (λ id. push (from (heartbeat id))) (pure tt)

  unfoldable pub deliver : FixtMessage → ConnectionAction B T (Unit {0})
  unfolding reply_to_test_request
  deliver message =
      reply_to_test_request message.body >> λ c. send (message_received c.token message) c

  unfoldable pub on_network_message : FixtMessage → ConnectionAction B T (Unit {0})
  unfolding check_version check_comp_ids on_logon on_msg_seq_num deliver
  on_network_message message =
      check_version message >> check_comp_ids message >> on_logon message >>= λ just_logged_on.
      on_msg_seq_num just_logged_on message >>= λ m. deliver m
