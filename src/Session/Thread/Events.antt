-- ===== src/Session/Thread/Events.antt =====
-- src/fixt/engine_thread.rs: `on_internal_engine_event` and `on_timeout`, which find the connection that a request of the
-- engine or a timeout is about.
use fix_rs.Prelude.{ℕ, Option, none, some, List, Bytes}
use fix_rs.ByteBuffer.{ByteBuffer}
use fix_rs.Action.{fail, pure, ◌>>◌}
use fix_rs.FieldTag.{FieldTag}
use fix_rs.Version.{FixVersion, MessageVersion}
use fix_rs.Parser.State.{Traits}
use fix_rs.Session.Fixt.{FixtMessage, Logon}
use fix_rs.Session.Status.{TimeoutType}
use fix_rs.Session.State.{Timer}
use fix_rs.Session.Writing.{SocketAnswer, write}
use fix_rs.Session.Requests.{
  ResendResponse, on_send_message, on_resend_messages, on_approve_new_connection,
  on_reject_new_connection, on_logout_request,
}
use fix_rs.Session.Timeouts.{on_timeout}
use fix_rs.Session.Thread.{ThreadAction, shut_down, with_connection}
use fix_rs.Session.Thread.Opening.{ConnectAnswer, open_connection, open_listener}

-- The requests of the engine. An address is a number. A Logon that approves comes as the message and as its body.
pub data InternalEngineToThreadEvent : Type 0 where
  new_connection : ℕ → FixVersion → MessageVersion → Bytes → Bytes → ℕ → InternalEngineToThreadEvent
  new_listener : ℕ → Bytes → InternalEngineToThreadEvent
  send_message : ℕ → Option MessageVersion → FixtMessage → InternalEngineToThreadEvent
  resend_messages : ℕ → List ResendResponse → InternalEngineToThreadEvent
  approve_new_connection : ℕ → FixtMessage → Logon → ℕ → InternalEngineToThreadEvent
  reject_new_connection : ℕ → Option Bytes → InternalEngineToThreadEvent
  logout : ℕ → InternalEngineToThreadEvent
  shutdown : InternalEngineToThreadEvent

module _ {B T : Type 0} (t : Traits B FixtMessage) (timer : Timer T)
    (read : FixVersion → MessageVersion → FixtMessage → ByteBuffer → ByteBuffer) (now : ℕ)
    (connects : ConnectAnswer) (registers : Option ℕ) (answers : List SocketAnswer)
    (dictionary : List (Bytes × B)) (max_message_size : ℕ)
    (value_to_length_tags : List (FieldTag × FieldTag)) where
  -- `connects` is what connecting to the address answers, and `registers` the error, if any, of registering a listener.
  unfoldable pub on_internal_engine_event :
      InternalEngineToThreadEvent → ThreadAction B T (Unit {0})
  unfolding open_connection open_listener with_connection on_send_message on_resend_messages
      on_approve_new_connection on_reject_new_connection on_logout_request
  on_internal_engine_event (new_connection token fix_version version sender target address) =
      open_connection t dictionary max_message_size value_to_length_tags connects token fix_version
        version sender target
  on_internal_engine_event (new_listener token sender_comp_id) =
      open_listener registers token sender_comp_id
  on_internal_engine_event (send_message token version m) =
      with_connection token (on_send_message timer read now answers version m)
  on_internal_engine_event (resend_messages token response) =
      with_connection token (on_resend_messages timer read now answers response)
  on_internal_engine_event (approve_new_connection token m l n) =
      with_connection token (on_approve_new_connection timer read now answers m l n)
  on_internal_engine_event (reject_new_connection token reason) =
      with_connection token (on_reject_new_connection timer read now answers reason)
  on_internal_engine_event (logout token) =
      with_connection token (on_logout_request timer read now answers)
  on_internal_engine_event shutdown = fail shut_down

module _ {B T : Type 0} (timer : Timer T)
    (read : FixVersion → MessageVersion → FixtMessage → ByteBuffer → ByteBuffer) (now : ℕ)
    (time : Bytes) (answers : List SocketAnswer) where
  -- A timeout that has run out, if there is one: its type and its token.
  unfoldable pub on_timer : Option (TimeoutType × ℕ) → ThreadAction B T (Unit {0})
  unfolding with_connection on_timeout write
  on_timer none = pure tt
  on_timer (some (kind, token)) =
      with_connection token (on_timeout timer time kind >> write timer read now answers)
