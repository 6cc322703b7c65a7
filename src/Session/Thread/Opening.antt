-- ===== src/Session/Thread/Opening.antt =====
-- src/fixt/engine_thread.rs: how connections and listeners come to be, by a request of the engine or by a
-- listener that accepts a connection.
pub mod Kept
use fix_rs.Prelude.{ℕ, true, false, Option, none, some, List, [], ◌∷◌, ◌++◌, Bytes}
use fix_rs.ByteBuffer
use fix_rs.Action.{if_let, done, panicked}
use fix_rs.FieldTag.{FieldTag}
use fix_rs.Version.{FixVersion, MessageVersion, max_version, fix50sp2, max_message_version}
use fix_rs.Parser.State.{Parser, Traits, initial}
use fix_rs.Parser.Defaults.{set_default_message_type_version}
use fix_rs.TokenGenerator
use fix_rs.TokenGenerator.{TokenGenerator}
use fix_rs.Session.Fixt.{FixtMessage}
use fix_rs.Session.Dictionary.{administrative_msg_types}
use fix_rs.Session.Status.{sending_logon, receiving_logon, no_logon}
use fix_rs.Session.State.{
  Timer, InternalConnection, connection_failed, connection_dropped, connection_accepted,
  listener_failed, listener_accept_failed,
}
use fix_rs.Session.Thread.{InternalThread, InternalListener, ThreadAction, insert_entry, send_event}

-- The errors, if any, of `TcpStream::connect` and of `register`.
pub data ConnectAnswer : Type 0 where
  connect_error : ℕ → ConnectAnswer
  connecting : Option ℕ → ConnectAnswer

-- The address of the remote, and the error of `register`.
pub data AcceptAnswer : Type 0 where
  accept_error : ℕ → AcceptAnswer
  accepted : ℕ → Option ℕ → AcceptAnswer

module _ {B : Type 0} where
  -- Every administrative message has the newest version of its FIX version.
  unfoldable pub set_administrative_versions :
      List Bytes → FixVersion → Parser B FixtMessage → Parser B FixtMessage
  unfolding set_default_message_type_version max_message_version
  set_administrative_versions [] fix_version parser = parser
  set_administrative_versions (msg_type ∷ msg_types) fix_version parser =
      set_administrative_versions msg_types fix_version
        (set_default_message_type_version msg_type (max_message_version fix_version) parser)

-- The dictionary of the thread with what `Parser::new` collects of it, and the longest message.
module _ {B T : Type 0} (t : Traits B FixtMessage) (dictionary : List (Bytes × B))
    (max_message_size : ℕ) (value_to_length_tags : List (FieldTag × FieldTag)) where
  unfoldable pub new_connection :
      FixVersion → MessageVersion → ℕ → Bytes → Bytes → InternalThread B T → InternalConnection B T
  unfolding set_administrative_versions initial ByteBuffer.with_capacity
  new_connection fix_version default_message_version token sender_comp_id target_comp_id s =
      record {
        fix_version = fix_version;
        default_message_version = default_message_version;
        socket_is_shut_down = false;
        token = token;
        outbound_messages = [];
        outbound_buffer = ByteBuffer.new;
        outbound_msg_seq_num = 1;
        outbound_heartbeat_timeout = none;
        outbound_heartbeat_timeout_duration = none;
        inbound_buffer = ByteBuffer.with_capacity 2048;
        inbound_msg_seq_num = 1;
        inbound_testrequest_timeout = none;
        inbound_testrequest_timeout_duration = none;
        inbound_resend_request_msg_seq_num = none;
        last_seen_begin_seq_no = 0;
        last_seen_count = 0;
        inbound_is_blocked = false;
        inbound_blocked_timeout = none;
        logout_timeout = none;
        parser =
            set_administrative_versions administrative_msg_types fix_version
              (initial t dictionary max_message_size value_to_length_tags);
        is_connected = false;
        status = sending_logon;
        sender_comp_id = sender_comp_id;
        target_comp_id = target_comp_id;
        timer = s.timer;
        network_read_retry = s.network_read_retry;
        events = s.events;
      }

  -- `NewConnection`.
  unfoldable pub open_connection :
      ConnectAnswer → ℕ → FixVersion → MessageVersion → Bytes → Bytes → ThreadAction B T (Unit {0})
  unfolding new_connection insert_entry
  open_connection (connect_error e) token fix_version version sender target s =
      send_event (connection_failed token e) s
  open_connection (connecting (some e)) token fix_version version sender target s =
      send_event (connection_failed token e) s
  open_connection (connecting none) token fix_version version sender target s = (
    done tt,
    record s {
      connections =
          insert_entry token (new_connection fix_version version token sender target s)
            s.connections;
    },
  )

  -- The connection that a listener has accepted waits for a Logon, and has its version from there.
  unfoldable pub accepted_connection :
      InternalListener → ℕ → ℕ → InternalThread B T → InternalConnection B T
  unfolding new_connection
  accepted_connection listener token timeout s =
      record (new_connection max_version fix50sp2 token listener.sender_comp_id [] s) {
        is_connected = true;
        status = receiving_logon listener.token timeout;
      }

  unfoldable pub register_accepted :
      Option ℕ → InternalListener → ℕ → ℕ → ℕ → ThreadAction B T (Unit {0})
  unfolding accepted_connection insert_entry
  register_accepted none listener address token timeout s = (
    done tt,
    record s {
      connections = insert_entry token (accepted_connection listener token timeout s) s.connections;
    },
  )
  register_accepted (some _) listener address token timeout s =
      send_event (connection_dropped listener.token address) s

  -- `timer.set_timeout(…).unwrap()`.
  unfoldable pub wait_for_logon :
      Timer T → Option ℕ → InternalListener → ℕ → ℕ → ThreadAction B T (Unit {0})
  unfolding register_accepted
  wait_for_logon timer registered listener address token s =
      if_let (timer.set_timeout 10000 no_logon token s.timer)
        (λ set.
          register_accepted registered listener address token set.0 (record s { timer = set.1 }))
        (panicked, s)

  -- With a token for the connection, if there is one left.
  unfoldable pub welcome :
      Timer T → Option ℕ → InternalListener → ℕ → Option ℕ → ThreadAction B T (Unit {0})
  unfolding wait_for_logon
  welcome timer registered listener address none s =
      send_event (connection_dropped listener.token address) s
  welcome timer registered listener address (some token) s =
      wait_for_logon timer registered listener address token
        (record s { events = s.events ++ (connection_accepted listener.token token address ∷ []) })

  -- A listener that is readable.
  unfoldable pub accept : Timer T → AcceptAnswer → InternalListener → ThreadAction B T (Unit {0})
  unfolding welcome TokenGenerator.create
  accept timer (accept_error e) listener s = send_event (listener_accept_failed listener.token e) s
  accept timer (accepted address registered) listener s =
      let (token, generator) = TokenGenerator.create s.token_generator in
      welcome timer registered listener address token (record s { token_generator = generator })

module _ {B T : Type 0} where
  -- `NewListener`, with the error of `register`.
  unfoldable pub open_listener : Option ℕ → ℕ → Bytes → ThreadAction B T (Unit {0})
  unfolding insert_entry
  open_listener (some e) token sender_comp_id s = send_event (listener_failed token e) s
  open_listener none token sender_comp_id s = (
    done tt,
    record s {
      listeners =
          insert_entry token (record { token = token; sender_comp_id = sender_comp_id })
            s.listeners;
    },
  )
