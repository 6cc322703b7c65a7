-- ===== src/Session/Thread/Loop.antt =====
-- src/fixt/engine_thread.rs: a round of the loop of `internal_engine_thread`: the events that poll reports, one after the
-- other, and then the connections that were terminated by them.
pub mod Told
pub mod Cleaned
pub mod Others
pub mod Reachable
use fix_rs.Prelude.{
  ℕ, Bool, true, false, Option, none, some, List, [], ◌∷◌, ◌++◌, if◌then◌else◌, Bytes,
}
use fix_rs.ByteBuffer.{ByteBuffer}
use fix_rs.Action.{if_let, Outcome, Action, done, failed, panicked, pure, and_then, ◌>>=◌}
use fix_rs.FieldTag.{FieldTag}
use fix_rs.Version.{FixVersion, MessageVersion}
use fix_rs.Parser.State.{Traits}
use fix_rs.NetworkReadRetry
use fix_rs.Session.Fixt.{FixtMessage}
use fix_rs.Session.Status.{
  ConnectionStatus, ConnectionTerminatedReason, TimeoutType, socket_read_error, as_receiving_logon,
}
use fix_rs.Session.State.{
  Timer, InternalConnection, EngineEvent, connection_failed, connection_terminated,
}
use fix_rs.Session.Reading.{ReadAnswer}
use fix_rs.Session.Writing.{SocketAnswer}
use fix_rs.Session.Thread.{
  InternalThread, ThreadAction, ConnectionEventError, terminate_connection, shut_down,
}
use fix_rs.Session.Thread.Opening.{ConnectAnswer, AcceptAnswer}
use fix_rs.Session.Thread.Network.{Event, on_network}
use fix_rs.Session.Thread.Events.{InternalEngineToThreadEvent, on_internal_engine_event, on_timer}

-- What poll reports, with what the sockets answer. There may be no request, and no timeout that has run out. A retry reads
-- again, for the token that the queue gives.
pub data PollEvent : Type 0 where
  internal_engine_event :
      Option InternalEngineToThreadEvent → ConnectAnswer → Option ℕ → List SocketAnswer → PollEvent
  timeout_event : Bytes → Option (TimeoutType × ℕ) → List SocketAnswer → PollEvent
  network_read_retry_event : List ReadAnswer → List SocketAnswer → AcceptAnswer → PollEvent
  network_event : Event → PollEvent

-- `Event::new(Ready::readable(), token)`.
unfoldable pub readable_event : ℕ → List ReadAnswer → List SocketAnswer → AcceptAnswer → Event
readable_event token reads replies accepts = record {
  token = token;
  is_readable = true;
  is_writable = false;
  is_hup = false;
  reads = reads;
  replies = replies;
  writes = [];
  probe = none;
  accepts = accepts;
}

-- The connections that are to be terminated, with the reasons.
abbrev pub Terminated : Type 0 → Type 0 → Type 0
Terminated B T = List (InternalConnection B T × ConnectionTerminatedReason)

module _ {T : Type 0} (timer : Timer T) where
  unfoldable pub cancel_optional : Option ℕ → T → T
  cancel_optional timeout state = if_let timeout (λ handle. timer.cancel_timeout handle state) state

  unfoldable pub cancel_timeouts : List (Option ℕ) → T → T
  unfolding cancel_optional
  cancel_timeouts [] state = state
  cancel_timeouts (timeout ∷ timeouts) state =
      cancel_timeouts timeouts (cancel_optional timeout state)

module _ {B T : Type 0} (timer : Timer T) where
  -- The timeouts of a connection, that of its first Logon too.
  unfoldable pub timeouts : InternalConnection B T → List (Option ℕ)
  unfolding as_receiving_logon
  timeouts c =
      c.outbound_heartbeat_timeout
      ∷ c.inbound_testrequest_timeout
      ∷ c.inbound_blocked_timeout
      ∷ c.logout_timeout
      ∷ if_let (as_receiving_logon c.status) (λ logon. some logon.1) none
      ∷ []

  -- A connection that was never established has failed.
  unfoldable pub ended_event : InternalConnection B T → ConnectionTerminatedReason → EngineEvent
  ended_event c (socket_read_error e) =
      if c.is_connected
      then connection_terminated c.token (socket_read_error e)
      else connection_failed c.token e
  ended_event c reason = connection_terminated c.token reason

  unfoldable pub clean_up :
      InternalConnection B T → ConnectionTerminatedReason → InternalThread B T → InternalThread B T
  unfolding cancel_timeouts timeouts ended_event NetworkReadRetry.remove_all
  clean_up c reason s = record s {
    timer = cancel_timeouts timer (timeouts c) s.timer;
    network_read_retry = NetworkReadRetry.remove_all c.token s.network_read_retry;
    events = s.events ++ (ended_event c reason ∷ []);
  }

  unfoldable pub clean_up_all : Terminated B T → InternalThread B T → InternalThread B T
  unfolding clean_up
  clean_up_all [] s = s
  clean_up_all ((c, reason) ∷ found) s = clean_up_all found (clean_up c reason s)

module _ {B T : Type 0} where
  -- What the loop does with the result of an event.
  unfoldable pub collect_terminated :
      Terminated B T
      → Outcome (ConnectionEventError B T) (Unit {0}) × InternalThread B T
      → Outcome (Unit {0}) (Terminated B T) × InternalThread B T
  collect_terminated found (done _, s) = (done found, s)
  collect_terminated found (failed (terminate_connection c reason), s) =
      (done (found ++ ((c, reason) ∷ [])), s)
  collect_terminated found (failed shut_down, s) = (failed tt, s)
  collect_terminated found (panicked, s) = (panicked, s)

module _ {B T : Type 0} (t : Traits B FixtMessage) (timer : Timer T)
    (read : FixVersion → MessageVersion → FixtMessage → ByteBuffer → ByteBuffer) (now : ℕ)
    (dictionary : List (Bytes × B)) (max_message_size : ℕ)
    (value_to_length_tags : List (FieldTag × FieldTag)) where
  unfoldable pub on_retry :
      List ReadAnswer → List SocketAnswer → AcceptAnswer → ThreadAction B T (Unit {0})
  unfolding on_network readable_event NetworkReadRetry.poll
  on_retry reads replies accepts s =
      let (token, queue) = NetworkReadRetry.poll s.network_read_retry in
      if_let token
        (λ token.
          on_network t timer read now dictionary max_message_size value_to_length_tags
            (readable_event token reads replies accepts))
        (pure tt) (record s { network_read_retry = queue })

  unfoldable pub on_event : PollEvent → ThreadAction B T (Unit {0})
  unfolding on_internal_engine_event on_timer on_retry on_network
  on_event (internal_engine_event request connects registers answers) =
      if_let request
        (on_internal_engine_event t timer read now connects registers answers dictionary
          max_message_size value_to_length_tags)
        (pure tt)
  on_event (timeout_event time timeout answers) = on_timer timer read now time answers timeout
  on_event (network_read_retry_event reads replies accepts) = on_retry reads replies accepts
  on_event (network_event event) =
      on_network t timer read now dictionary max_message_size value_to_length_tags event

  unfoldable pub handle_events :
      List PollEvent → Terminated B T → Action (InternalThread B T) (Unit {0}) (Terminated B T)
  unfolding on_event collect_terminated
  handle_events [] found s = (done found, s)
  handle_events (event ∷ events) found s =
      and_then (collect_terminated found (on_event event s))
        (λ found s. handle_events events found s)

  -- The connections are cleaned up behind all of the events, so that none of their tokens is used again before. A shutdown
  -- ends the thread, `failed`.
  unfoldable pub run_round : List PollEvent → Action (InternalThread B T) (Unit {0}) (Unit {0})
  unfolding handle_events clean_up_all
  run_round events = handle_events events [] >>= λ found s. (done tt, clean_up_all timer found s)
