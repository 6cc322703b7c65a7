-- ===== src/Session/Thread/Network.antt =====
-- src/fixt/engine_thread.rs: `on_network`, which drives a connection or a listener by what its socket is ready for.
use fix_rs.Prelude.{ℕ, Bool, true, Option, List, if◌then◌else◌, Bytes}
use fix_rs.ByteBuffer.{ByteBuffer}
use fix_rs.Action.{if_let, done, failed, pure, fail, ◌>>◌}
use fix_rs.FieldTag.{FieldTag}
use fix_rs.Version.{FixVersion, MessageVersion}
use fix_rs.Parser.State.{Traits}
use fix_rs.Session.Fixt.{FixtMessage}
use fix_rs.Session.Status.{is_logging_out_with_responded, remote_requested, socket_write_error}
use fix_rs.Session.State.{Timer, ConnectionAction, terminate, send, connection_succeeded}
use fix_rs.Session.Reading.{ReadAnswer, on_readable}
use fix_rs.Session.Writing.{SocketAnswer, write}
use fix_rs.Session.Thread.{ThreadAction, get_entry, with_connection}
use fix_rs.Session.Thread.Opening.{AcceptAnswer, accept}

-- What poll reports of a token, and what the socket answers then: to the reads, to the writes behind them, to the writes where
-- it is writable, to the write of a byte at a hang-up, and to `accept`.
pub record Event : Type 0 where
  pub token : ℕ
  pub is_readable : Bool
  pub is_writable : Bool
  pub is_hup : Bool
  pub reads : List ReadAnswer
  pub replies : List SocketAnswer
  pub writes : List SocketAnswer
  pub probe : Option ℕ
  pub accepts : AcceptAnswer

module _ {B T : Type 0} where
  unfoldable pub when : Bool → ConnectionAction B T (Unit {0}) → ConnectionAction B T (Unit {0})
  when b action c = if b then action c else (done tt, c)

  -- `connect` has succeeded once the socket is writable.
  unfoldable pub note_connected : ConnectionAction B T (Unit {0})
  note_connected c =
      if c.is_connected
      then (done tt, c)
      else send (connection_succeeded c.token) (record c { is_connected = true })

  -- The remote has closed the socket: as expected, or else a byte is written to learn the error.
  unfoldable pub on_hang_up : Option ℕ → ConnectionAction B T (Unit {0})
  unfolding is_logging_out_with_responded
  on_hang_up probe c =
      if is_logging_out_with_responded c.status
      then (failed (terminate remote_requested), c)
      else if_let probe (λ e. fail (terminate (socket_write_error e))) (pure tt) c

module _ {B T : Type 0} (t : Traits B FixtMessage) (timer : Timer T)
    (read : FixVersion → MessageVersion → FixtMessage → ByteBuffer → ByteBuffer) (now : ℕ) where
  -- The connection that an event is about.
  unfoldable pub on_connection : Event → ConnectionAction B T (Unit {0})
  unfolding when on_readable write note_connected on_hang_up
  on_connection event =
      when event.is_readable (on_readable t timer event.reads >> write timer read now event.replies)
      >> when event.is_writable (write timer read now event.writes >> note_connected)
      >> when event.is_hup (on_hang_up event.probe)

module _ {B T : Type 0} (t : Traits B FixtMessage) (timer : Timer T)
    (read : FixVersion → MessageVersion → FixtMessage → ByteBuffer → ByteBuffer) (now : ℕ)
    (dictionary : List (Bytes × B)) (max_message_size : ℕ)
    (value_to_length_tags : List (FieldTag × FieldTag)) where
  -- The listener that an event is about.
  unfoldable pub on_listener : Event → ThreadAction B T (Unit {0})
  unfolding get_entry accept
  on_listener event s =
      if_let (get_entry event.token s.listeners)
        (λ listener s.
          if event.is_readable
          then accept t dictionary max_message_size value_to_length_tags timer event.accepts
              listener s
          else (done tt, s))
        (pure tt) s

  unfoldable pub on_network : Event → ThreadAction B T (Unit {0})
  unfolding with_connection on_connection on_listener
  on_network event =
      with_connection event.token (on_connection t timer read now event) >> on_listener event
