-- ===== src/Session/Requests.antt =====
-- src/fixt/engine_thread.rs: what the requests of the user do to a connection that exists, in
-- `on_internal_engine_event`. Each handler queues messages, and then `write` sends what it can.
pub mod Resending
use fix_rs.Prelude.{
  ℕ, ◌+◌, Bool, true, false, Option, none, some, List, [], ◌∷◌, ◌++◌, ◌==◌, ltb, if◌then◌else◌,
  Bytes, codes,
}
use fix_rs.ByteBuffer.{ByteBuffer}
use fix_rs.Version.{FixVersion, MessageVersion, fixt_1_1, max_message_version, fix_version_eq}
use fix_rs.Action.{if_let, Outcome, Action, done, failed, panicked, pure, fail, ◌>>=◌, ◌>>◌}
use fix_rs.Session.Fixt.{FixtMessage, Logon, logon, fresh, sequence_reset, resend_request}
use fix_rs.Session.Status.{
  ConnectionStatus, LoggingOutType, ok, error, established, sending_logon, receiving_logon,
  approving_logon, logging_out, is_approving_logon, is_established, is_logging_out,
  logon_rejected_error, local_requested,
}
use fix_rs.Session.State.{
  Timer, InternalConnection, ConnectionAction, OutboundMessage, Exit, terminate, return_now, from,
  from_box, modify, push, set_status, assert, reset_outbound_timeout, reset_inbound_timeout,
}
use fix_rs.Session.Logout.{initiate_logout}
use fix_rs.Session.Writing.{SocketAnswer, write}

pub data ResendResponse : Type 0 where
  message : Option MessageVersion → FixtMessage → ResendResponse
  gap : ℕ → ℕ → ResendResponse

-- A message that is sent again keeps its number, and is marked as a possible duplicate.
unfoldable pub resent : ResendResponse → OutboundMessage
resent (message version m) = record {
  message = record m { poss_dup_flag = true; orig_sending_time = m.sending_time };
  message_version = version;
  auto_msg_seq_num = false;
}
resent (gap start end_seq_no) = record {
  message = record (fresh (sequence_reset true end_seq_no)) { msg_seq_num = start };
  message_version = none;
  auto_msg_seq_num = false;
}

unfoldable pub resent_all : List ResendResponse → List OutboundMessage
unfolding resent
resent_all [] = []
resent_all (r ∷ rs) = resent r ∷ resent_all rs

unfoldable pub is_empty_queue : List OutboundMessage → Bool
is_empty_queue [] = true
is_empty_queue (_ ∷ _) = false

module _ {B T : Type 0} where
  -- Our own request again, while it has not been fulfilled.
  unfoldable pub ask_again : ConnectionAction B T (Unit {0})
  ask_again c =
      if_let c.inbound_resend_request_msg_seq_num
        (λ _. push (from (resend_request c.inbound_msg_seq_num 0))) (pure tt) c

  unfoldable pub queue_resent : List ResendResponse → ConnectionAction B T (Unit {0})
  unfolding resent_all ask_again
  queue_resent response =
      modify (λ c. record c { outbound_messages = c.outbound_messages ++ resent_all response })
      >> ask_again

  -- The number from which the user wants the messages again, where that is below the expected one.
  unfoldable pub lower_expected : ℕ → ConnectionAction B T (Unit {0})
  lower_expected n c =
      if ltb n c.inbound_msg_seq_num
      then push (from (resend_request n 0)) (record c { inbound_msg_seq_num = n })
      else (done tt, c)

  unfoldable pub logon_version : Logon → InternalConnection B T → MessageVersion
  unfolding fix_version_eq max_message_version
  logon_version l c =
      if fix_version_eq c.fix_version fixt_1_1
      then l.default_appl_ver_id
      else max_message_version c.fix_version

module _ {B T : Type 0} (timer : Timer T) where
  -- The Logon that answers is written in the latest version.
  unfoldable pub queue_logon : FixtMessage → Logon → ConnectionAction B T (Unit {0})
  unfolding logon_version is_empty_queue max_message_version
  queue_logon m l =
      modify (λ c. record c { status = established; default_message_version = logon_version l c })
      >> (λ c. assert (is_empty_queue c.outbound_messages) c)
      >> (λ c.
          push (record (from_box m) { message_version = some (max_message_version c.fix_version) })
            c)

  unfoldable pub approve : FixtMessage → Logon → ℕ → ConnectionAction B T (Unit {0})
  unfolding queue_logon lower_expected is_approving_logon reset_outbound_timeout
      reset_inbound_timeout
  approve m l n c =
      if is_approving_logon c.status
      then (queue_logon m l
            >> lower_expected n
            >> reset_outbound_timeout timer
            >> reset_inbound_timeout timer)
          c
      else (failed return_now, c)

  unfoldable pub reject_logon : Option Bytes → ConnectionAction B T (Unit {0})
  unfolding initiate_logout
  reject_logon none = fail (terminate logon_rejected_error)
  reject_logon (some reason) = initiate_logout timer (error logon_rejected_error) reason

  unfoldable pub log_out : ConnectionAction B T (Unit {0})
  unfolding initiate_logout is_logging_out is_established
  log_out c =
      if is_logging_out c.status
      then (failed return_now, c)
      else if is_established c.status
      then initiate_logout timer ok [] c
      else (failed (terminate local_requested), c)

module _ {B T : Type 0} (timer : Timer T)
    (read : FixVersion → MessageVersion → FixtMessage → ByteBuffer → ByteBuffer) (now : ℕ)
    (answers : List SocketAnswer) where
  unfoldable pub on_send_message :
      Option MessageVersion → FixtMessage → ConnectionAction B T (Unit {0})
  unfolding write
  on_send_message version m =
      push (record (from_box m) { message_version = version }) >> write timer read now answers

  unfoldable pub on_resend_messages : List ResendResponse → ConnectionAction B T (Unit {0})
  unfolding queue_resent write
  on_resend_messages response = queue_resent response >> write timer read now answers

  unfoldable pub on_approve_new_connection :
      FixtMessage → Logon → ℕ → ConnectionAction B T (Unit {0})
  unfolding approve write
  on_approve_new_connection m l n = approve timer m l n >> write timer read now answers

  unfoldable pub on_reject_new_connection : Option Bytes → ConnectionAction B T (Unit {0})
  unfolding reject_logon write
  on_reject_new_connection reason = reject_logon timer reason >> write timer read now answers

  unfoldable pub on_logout_request : ConnectionAction B T (Unit {0})
  unfolding log_out write
  on_logout_request = log_out timer >> write timer read now answers
