-- ===== src/Session/Thread/Loop/Others.antt =====
-- src/fixt/engine_thread.rs: proofs that an event changes no connection but the one that it is about.
use fix_rs.Prelude.{
  ℕ, Bool, true, false, Option, none, some, List, if◌then◌else◌, Bytes, ◌≡◌, ◌≢◌, refl, sym, ap,
}
use fix_rs.ByteBuffer.{ByteBuffer}
use fix_rs.Action.{if_let, done, pure, ◌>>◌}
use fix_rs.Action.Ends.{Keeps, Keeps->>}
use fix_rs.FieldTag.{FieldTag}
use fix_rs.Version.{FixVersion, MessageVersion}
use fix_rs.Parser.State.{Traits}
use fix_rs.NetworkReadRetry
use fix_rs.TokenGenerator.{is_active}
use fix_rs.Session.Fixt.{FixtMessage}
use fix_rs.Session.State.{Timer}
use fix_rs.Session.Reading.{ReadAnswer}
use fix_rs.Session.Writing.{SocketAnswer, write}
use fix_rs.Session.Thread.{InternalThread, InternalListener, get_entry, with_connection}
use fix_rs.Session.Thread.Opening.{ConnectAnswer, AcceptAnswer, open_listener, accept}
use fix_rs.Session.Thread.Network.{Event, on_connection, on_listener, on_network}
use fix_rs.Session.Thread.Events.{
  InternalEngineToThreadEvent, on_internal_engine_event, on_timer, send_message, resend_messages,
  approve_new_connection, reject_new_connection, logout, shutdown, new_listener,
}
use fix_rs.Session.Thread.Events
use fix_rs.Session.Thread.Loop.{
  PollEvent, internal_engine_event, timeout_event, network_read_retry_event, network_event,
  readable_event, on_retry, on_event,
}
use fix_rs.Session.Timeouts.{on_timeout}
use fix_rs.Session.Requests.{
  on_send_message, on_resend_messages, on_approve_new_connection, on_reject_new_connection,
  on_logout_request,
}
use fix_rs.Session.Thread.Kept.{
  has_entry, IsAccounted, Kept, Kept-trans, Kept-same, with_connection-Kept,
}
use fix_rs.Session.Thread.Opening.Kept.{open_connection-Kept, accept-Kept}

module _ {B T : Type 0} (u : ℕ) (t : Traits B FixtMessage) (timer : Timer T)
    (read : FixVersion → MessageVersion → FixtMessage → ByteBuffer → ByteBuffer) (now : ℕ)
    (dictionary : List (Bytes × B)) (max_message_size : ℕ)
    (value_to_length_tags : List (FieldTag × FieldTag)) where
  on_listener-Kept :
      (event : Event)
      → Keeps
          (Kept u)
          (on_listener t timer read now dictionary max_message_size value_to_length_tags event)
  unfolding on_listener
  on_listener-Kept event s = go (get_entry event.token s.listeners) event.is_readable
    where
      go :
          (o : Option InternalListener) (b : Bool)
          → Kept u s
              (if_let o
                (λ listener s.
                  if b
                  then accept t dictionary max_message_size value_to_length_tags timer event.accepts
                      listener s
                  else (done tt, s))
                (pure tt)
                s).1
      go none b = Kept-same u s s refl refl
      go (some listener) true =
          accept-Kept u t dictionary max_message_size value_to_length_tags timer event.accepts
            listener s
      go (some listener) false = Kept-same u s s refl refl

  on_network-Kept :
      (event : Event)
      → u ≢ event.token
      → Keeps
          (Kept u)
          (on_network t timer read now dictionary max_message_size value_to_length_tags event)
  unfolding on_network
  on_network-Kept event other =
      Keeps->> (Kept u) (Kept-trans u)
        (with_connection event.token (on_connection t timer read now event))
        (on_listener t timer read now dictionary max_message_size value_to_length_tags event)
        (with_connection-Kept u event.token (on_connection t timer read now event) other)
        (on_listener-Kept event)

-- The connection that a request is about, and whether its token has been created before.
abbrev pub request_token : InternalEngineToThreadEvent → Option ℕ
request_token (Events.new_connection token _ _ _ _ _) = some token
request_token (new_listener token _) = none
request_token (send_message token _ _) = some token
request_token (resend_messages token _) = some token
request_token (approve_new_connection token _ _ _) = some token
request_token (reject_new_connection token _) = some token
request_token (logout token) = some token
request_token shutdown = none

module _ {B T : Type 0} where
  -- The connection that an event is about.
  abbrev pub event_token : PollEvent → InternalThread B T → Option ℕ
  event_token (internal_engine_event none _ _ _) s = none
  event_token (internal_engine_event (some request) _ _ _) s = request_token request
  event_token (timeout_event _ none _) s = none
  event_token (timeout_event _ (some (_, token)) _) s = some token
  event_token (network_read_retry_event _ _ _) s = (NetworkReadRetry.poll s.network_read_retry).0
  event_token (network_event event) s = some event.token

  -- A connection is opened under a token that is in use.
  abbrev pub IsRequested : PollEvent → InternalThread B T → Type 0
  IsRequested (internal_engine_event (some (Events.new_connection token _ _ _ _ _)) _ _ _) s =
      is_active token s.token_generator.active_tokens ≡ true
  IsRequested _ s = Unit

other_token : (u token : ℕ) → some token ≢ some u → u ≢ token
other_token u token h e = h (ap some (sym e))

module _ {B T : Type 0} (u : ℕ) (t : Traits B FixtMessage) (timer : Timer T)
    (read : FixVersion → MessageVersion → FixtMessage → ByteBuffer → ByteBuffer) (now : ℕ)
    (dictionary : List (Bytes × B)) (max_message_size : ℕ)
    (value_to_length_tags : List (FieldTag × FieldTag)) where
  request-Kept :
      (request : InternalEngineToThreadEvent) (connects : ConnectAnswer) (registers : Option ℕ)
      (answers : List SocketAnswer) (s : InternalThread B T)
      → IsRequested (internal_engine_event (some request) connects registers answers) s
      → request_token request ≢ some u
      → Kept u s
          (on_internal_engine_event t timer read now connects registers answers dictionary
            max_message_size value_to_length_tags request s).1
  unfolding on_internal_engine_event open_listener
  request-Kept (Events.new_connection token fix_version version sender target address) connects
        registers answers s active other =
      open_connection-Kept u t dictionary max_message_size value_to_length_tags connects token
        fix_version version sender target s (other_token u token other) active
  request-Kept (new_listener token sender) connects (some e) answers s active other =
      Kept-same u s _ refl refl
  request-Kept (new_listener token sender) connects none answers s active other =
      Kept-same u s _ refl refl
  request-Kept (send_message token version m) connects registers answers s active other =
      with_connection-Kept u token (on_send_message timer read now answers version m)
        (other_token u token other) s
  request-Kept (resend_messages token response) connects registers answers s active other =
      with_connection-Kept u token (on_resend_messages timer read now answers response)
        (other_token u token other) s
  request-Kept (approve_new_connection token m l n) connects registers answers s active other =
      with_connection-Kept u token (on_approve_new_connection timer read now answers m l n)
        (other_token u token other) s
  request-Kept (reject_new_connection token reason) connects registers answers s active other =
      with_connection-Kept u token (on_reject_new_connection timer read now answers reason)
        (other_token u token other) s
  request-Kept (logout token) connects registers answers s active other =
      with_connection-Kept u token (on_logout_request timer read now answers)
        (other_token u token other) s
  request-Kept shutdown connects registers answers s active other = Kept-same u s s refl refl

  retry-Kept :
      (reads : List ReadAnswer) (replies : List SocketAnswer) (accepts : AcceptAnswer)
      (s : InternalThread B T)
      → (NetworkReadRetry.poll s.network_read_retry).0 ≢ some u
      → Kept u s
          (on_retry t timer read now dictionary max_message_size value_to_length_tags reads replies
            accepts s).1
  unfolding on_retry readable_event
  retry-Kept reads replies accepts s other = go (NetworkReadRetry.poll s.network_read_retry) other
    where
      go :
          (r : Option ℕ × NetworkReadRetry.NetworkReadRetry)
          → r.0 ≢ some u
          → Kept u s
              (if_let r.0
                (λ token.
                  on_network t timer read now dictionary max_message_size value_to_length_tags
                    (readable_event token reads replies accepts))
                (pure tt)
                (record s { network_read_retry = r.1 })).1
      go (none, queue) h = Kept-same u s _ refl refl
      go (some token, queue) h =
          Kept-trans u s (record s { network_read_retry = queue }) _ (Kept-same u s _ refl refl)
            (on_network-Kept u t timer read now dictionary max_message_size value_to_length_tags
              (readable_event token reads replies accepts) (other_token u token h)
              (record s { network_read_retry = queue }))

  -- Where the tokens are valid, that of each connection is in use, and a connection is only opened under a token in use: so it
  -- is behind an event, whatever its outcome, and the event leaves every connection as it was but the one that it is about.
  pub on_event-Kept :
      (event : PollEvent) (s : InternalThread B T)
      → IsAccounted s
      → IsRequested event s
      → event_token event s ≢ some u
      → IsAccounted
          (on_event t timer read now dictionary max_message_size value_to_length_tags event s).1
        × (has_entry u s.connections ≡ true
            → get_entry u
                (on_event t timer read now dictionary max_message_size value_to_length_tags event
                  s).1.connections
              ≡ get_entry u s.connections)
  unfolding on_event on_timer
  on_event-Kept (internal_engine_event none connects registers answers) s accounted requested
        other =
      Kept-same u s s refl refl accounted
  on_event-Kept (internal_engine_event (some request) connects registers answers) s accounted
        requested other =
      request-Kept request connects registers answers s requested other accounted
  on_event-Kept (timeout_event time none answers) s accounted requested other =
      Kept-same u s s refl refl accounted
  on_event-Kept (timeout_event time (some (kind, token)) answers) s accounted requested other =
      with_connection-Kept u token (on_timeout timer time kind >> write timer read now answers)
        (other_token u token other) s accounted
  on_event-Kept (network_read_retry_event reads replies accepts) s accounted requested other =
      retry-Kept reads replies accepts s other accounted
  on_event-Kept (network_event event) s accounted requested other =
      on_network-Kept u t timer read now dictionary max_message_size value_to_length_tags event
        (other_token u event.token other) s accounted
