-- ===== src/Session/State.antt =====
-- src/fixt/engine_thread.rs: the state of a connection, and the smallest of its methods. The timer
-- of mio is a parameter. The channel of events is the list of what was sent, since the engine holds
-- its receiving end for as long as the thread runs.
use fix_rs.Prelude.{
  ℕ, ◌+◌, Bool, true, false, Option, none, some, List, [], ◌∷◌, ◌++◌, ◌==◌, if◌then◌else◌, Bytes,
}
use fix_rs.Decimal.{max_u64}
use fix_rs.Version.{MessageVersion, FixVersion}
use fix_rs.ByteBuffer
use fix_rs.ByteBuffer.{ByteBuffer}
use fix_rs.Action.{if_let, Action, done, failed, panicked, pure, panic, and_then, ◌>>=◌}
use fix_rs.Parser.State.{Parser, ParseError}
use fix_rs.NetworkReadRetry
use fix_rs.NetworkReadRetry.{NetworkReadRetry}
use fix_rs.Session.Fixt.{FixtMessage, Logon, Body, fresh}
use fix_rs.Session.Status.{
  ConnectionStatus, ConnectionTerminatedReason, TimeoutType, outbound, inbound, inbound_blocked,
  outbound_msg_seq_num_max_exceeded_error, inbound_msg_seq_num_max_exceeded_error,
}

-- `mio::timer`, with durations in milliseconds: `set_timeout` gives the handle of the timeout, or
-- fails.
pub record Timer (T : Type 0) : Type 0 where
  pub set_timeout : ℕ → TimeoutType → ℕ → T → Option (ℕ × T)
  pub cancel_timeout : ℕ → T → T

pub record OutboundMessage : Type 0 where
  pub message : FixtMessage
  pub message_version : Option MessageVersion
  pub auto_msg_seq_num : Bool

-- `OutboundMessage::from_box`, and `from` at a message that `new` makes.
abbrev pub from_box : FixtMessage → OutboundMessage
from_box m = record { message = m; message_version = none; auto_msg_seq_num = true }

abbrev pub from : Body → OutboundMessage
from body = from_box (fresh body)

-- An error of input or output is a number, and an address too.
pub data EngineEvent : Type 0 where
  connection_failed : ℕ → ℕ → EngineEvent
  connection_succeeded : ℕ → EngineEvent
  connection_terminated : ℕ → ConnectionTerminatedReason → EngineEvent
  connection_dropped : ℕ → ℕ → EngineEvent
  connection_accepted : ℕ → ℕ → ℕ → EngineEvent
  listener_failed : ℕ → ℕ → EngineEvent
  listener_accept_failed : ℕ → ℕ → EngineEvent
  fatal_error : Bytes → ℕ → EngineEvent
  connection_logging_on : ℕ → ℕ → Logon → EngineEvent
  session_established : ℕ → EngineEvent
  message_received : ℕ → FixtMessage → EngineEvent
  message_received_garbled : ℕ → ParseError FixtMessage → EngineEvent
  message_received_duplicate : ℕ → FixtMessage → EngineEvent
  message_rejected : ℕ → FixtMessage → EngineEvent
  resend_requested : ℕ → ℕ → ℕ → EngineEvent
  sequence_reset_reset_has_no_effect : ℕ → EngineEvent
  sequence_reset_reset_in_the_past : ℕ → EngineEvent

-- `inbound_last_seen_resend_request` is the two fields `last_seen_…`. The last three fields are the
-- arguments `timer`, `network_read_retry` and `tx` of the methods.
pub record InternalConnection (B T : Type 0) : Type 0 where
  pub fix_version : FixVersion
  pub default_message_version : MessageVersion
  pub socket_is_shut_down : Bool
  pub token : ℕ
  pub outbound_messages : List OutboundMessage
  pub outbound_buffer : ByteBuffer
  pub outbound_msg_seq_num : ℕ
  pub outbound_heartbeat_timeout : Option ℕ
  pub outbound_heartbeat_timeout_duration : Option ℕ
  pub inbound_buffer : ByteBuffer
  pub inbound_msg_seq_num : ℕ
  pub inbound_testrequest_timeout : Option ℕ
  pub inbound_testrequest_timeout_duration : Option ℕ
  pub inbound_resend_request_msg_seq_num : Option ℕ
  pub last_seen_begin_seq_no : ℕ
  pub last_seen_count : ℕ
  pub inbound_is_blocked : Bool
  pub inbound_blocked_timeout : Option ℕ
  pub logout_timeout : Option ℕ
  pub parser : Parser B FixtMessage
  pub is_connected : Bool
  pub status : ConnectionStatus
  pub sender_comp_id : Bytes
  pub target_comp_id : Bytes
  pub timer : T
  pub network_read_retry : NetworkReadRetry
  pub events : List EngineEvent

-- How a method ends early: the connection is to be terminated, or the caller's caller returns `Ok`.
pub data Exit : Type 0 where
  terminate : ConnectionTerminatedReason → Exit
  return_now : Exit

abbrev pub ConnectionAction : Type 0 → Type 0 → Type 0 → Type 0
ConnectionAction B T A = Action (InternalConnection B T) Exit A

module _ {B T : Type 0} where
  abbrev pub modify :
      (InternalConnection B T → InternalConnection B T) → ConnectionAction B T (Unit {0})
  modify f c = (done tt, f c)

  -- `outbound_messages.push` and `insert(0, …)`.
  abbrev pub push : OutboundMessage → ConnectionAction B T (Unit {0})
  push m c = (done tt, record c { outbound_messages = c.outbound_messages ++ (m ∷ []) })

  abbrev pub push_front : OutboundMessage → ConnectionAction B T (Unit {0})
  push_front m c = (done tt, record c { outbound_messages = m ∷ c.outbound_messages })

  -- `tx.send(…).unwrap()`.
  abbrev pub send : EngineEvent → ConnectionAction B T (Unit {0})
  send e c = (done tt, record c { events = c.events ++ (e ∷ []) })

  abbrev pub set_status : ConnectionStatus → ConnectionAction B T (Unit {0})
  set_status s c = (done tt, record c { status = s })

  -- `assert!`.
  abbrev pub assert : Bool → ConnectionAction B T (Unit {0})
  assert b c = if b then (done tt, c) else (panicked, c)

  unfoldable pub shutdown : InternalConnection B T → InternalConnection B T
  unfolding ByteBuffer.clear
  shutdown c = record c {
    socket_is_shut_down = true;
    outbound_messages = [];
    outbound_buffer = ByteBuffer.clear c.outbound_buffer;
  }

  unfoldable pub increment_outbound_msg_seq_num : ConnectionAction B T (Unit {0})
  increment_outbound_msg_seq_num c =
      if c.outbound_msg_seq_num == max_u64
      then (failed (terminate outbound_msg_seq_num_max_exceeded_error), c)
      else (done tt, record c { outbound_msg_seq_num = c.outbound_msg_seq_num + 1 })

  unfoldable pub increment_inbound_msg_seq_num : ConnectionAction B T (Unit {0})
  increment_inbound_msg_seq_num c =
      if c.inbound_msg_seq_num == max_u64
      then (failed (terminate inbound_msg_seq_num_max_exceeded_error), c)
      else (done tt, record c { inbound_msg_seq_num = c.inbound_msg_seq_num + 1 })

module _ {B T : Type 0} (timer : Timer T) where
  -- `timer.set_timeout(…).unwrap()`.
  unfoldable pub set_timeout : ℕ → TimeoutType → ConnectionAction B T ℕ
  set_timeout duration kind c =
      if_let (timer.set_timeout duration kind c.token c.timer)
        (λ set. (λ c'. (done set.0, record c' { timer = set.1 }))) panic c

  unfoldable pub cancel : Option ℕ → InternalConnection B T → InternalConnection B T
  cancel none c = c
  cancel (some timeout) c = record c { timer = timer.cancel_timeout timeout c.timer }

  -- `reset_timeout`, which gives the timeout for the caller to store.
  unfoldable pub set_optional : Option ℕ → TimeoutType → ConnectionAction B T (Option ℕ)
  unfolding set_timeout
  set_optional none kind = pure none
  set_optional (some duration) kind = set_timeout duration kind >>= λ timeout. pure (some timeout)

  unfoldable pub reset_timeout : Option ℕ → Option ℕ → TimeoutType → ConnectionAction B T (Option ℕ)
  unfolding cancel set_optional
  reset_timeout timeout duration kind c = set_optional duration kind (cancel timeout c)

  unfoldable pub reset_outbound_timeout : ConnectionAction B T (Unit {0})
  unfolding reset_timeout
  reset_outbound_timeout c =
      and_then
        (reset_timeout c.outbound_heartbeat_timeout c.outbound_heartbeat_timeout_duration outbound
          c)
        (λ timeout. modify (λ c'. record c' { outbound_heartbeat_timeout = timeout }))

  unfoldable pub reset_inbound_timeout : ConnectionAction B T (Unit {0})
  unfolding reset_timeout
  reset_inbound_timeout c =
      and_then
        (reset_timeout c.inbound_testrequest_timeout c.inbound_testrequest_timeout_duration inbound
          c)
        (λ timeout. modify (λ c'. record c' { inbound_testrequest_timeout = timeout }))

  unfoldable pub begin_blocking_inbound : ConnectionAction B T (Unit {0})
  unfolding set_timeout
  begin_blocking_inbound c =
      if c.inbound_is_blocked
      then (done tt, c)
      else and_then (set_timeout 10000 inbound_blocked (record c { inbound_is_blocked = true }))
          (λ timeout. modify (λ c'. record c' { inbound_blocked_timeout = some timeout }))

  unfoldable pub end_blocking_inbound : InternalConnection B T → InternalConnection B T
  unfolding cancel NetworkReadRetry.queue
  end_blocking_inbound c =
      if c.inbound_is_blocked
      then (let d = cancel c.inbound_blocked_timeout (record c { inbound_is_blocked = false }) in
          record d { network_read_retry = NetworkReadRetry.queue d.token d.network_read_retry })
      else c
