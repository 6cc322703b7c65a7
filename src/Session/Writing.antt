-- ===== src/Session/Writing.antt =====
-- src/fixt/engine_thread.rs: `write` of a connection. The answers of the socket are a list, and a
-- socket that gives no further answer would block. What the trait method `Message::read` does to the
-- buffer and the time that is taken for SendingTime are parameters.
pub mod Kept
pub mod Leaving
pub mod Sent
pub mod Order
use fix_rs.Prelude.{
  ℕ, ◌+◌, Bool, true, false, Option, none, some, List, [], ◌∷◌, ◌++◌, ◌==◌, if◌then◌else◌, Bytes,
}
use fix_rs.ByteBuffer
use fix_rs.ByteBuffer.{ByteBuffer}
use fix_rs.Version.{FixVersion, MessageVersion}
use fix_rs.Action.{
  if_let, Outcome, Action, done, failed, panicked, pure, fail, panic, and_then, ◌>>=◌, ◌>>◌,
}
use fix_rs.Session.Fixt.{FixtMessage, setup_fixt_session_header}
use fix_rs.Session.Status.{
  ConnectionStatus, ConnectionTerminatedReason, logging_out, ok, error, responded, hang_up,
  is_logging_out_with_responding, socket_write_error,
}
use fix_rs.Session.State.{
  Timer, InternalConnection, OutboundMessage, ConnectionAction, Exit, terminate, modify,
  set_timeout, increment_outbound_msg_seq_num, reset_outbound_timeout, begin_blocking_inbound,
  end_blocking_inbound,
}

pub data SocketAnswer : Type 0 where
  wrote : ℕ → SocketAnswer
  would_block : SocketAnswer
  write_error : ℕ → SocketAnswer

-- The reason of `LoggingOut(Error(reason))`.
unfoldable pub logout_error : ConnectionStatus → Option ConnectionTerminatedReason
logout_error s = elim s [ logging_out (error reason) ↦ some reason | _ ↦ none ]

module _ {B T : Type 0} (timer : Timer T)
    (read : FixVersion → MessageVersion → FixtMessage → ByteBuffer → ByteBuffer) (now : ℕ) where
  -- The socket is closed after a Logout that tells of an error has been written.
  unfoldable pub close_with : ConnectionTerminatedReason → ConnectionAction B T (Unit {0})
  close_with reason c =
      (failed (terminate reason), record c { status = logging_out ok; socket_is_shut_down = true })

  unfoldable pub start_hang_up : ConnectionAction B T (Unit {0})
  unfolding set_timeout
  start_hang_up =
      modify (λ c. record c { status = logging_out responded })
      >> (set_timeout timer 10000 hang_up >>= λ timeout.
          modify (λ c. record c { logout_timeout = some timeout }))

  -- Nothing is left to write.
  unfoldable pub on_drained : ConnectionAction B T (Unit {0})
  unfolding close_with start_hang_up logout_error is_logging_out_with_responding
  on_drained c =
      if_let (logout_error c.status) close_with
        (if is_logging_out_with_responding c.status then start_hang_up else pure tt) c

  -- The number that the message is given, when it is given one.
  unfoldable pub take_number : Bool → ConnectionAction B T (Option ℕ)
  unfolding increment_outbound_msg_seq_num
  take_number auto c =
      if auto
      then (increment_outbound_msg_seq_num >> pure (some c.outbound_msg_seq_num)) c
      else (done none, c)

  unfoldable pub serialize :
      OutboundMessage → Option ℕ → InternalConnection B T → InternalConnection B T
  unfolding setup_fixt_session_header
  serialize m number c = record c {
    outbound_buffer =
        read c.fix_version (if_let m.message_version (λ v. v) c.default_message_version)
          (setup_fixt_session_header number c.sender_comp_id c.target_comp_id now m.message)
          c.outbound_buffer;
  }

  unfoldable pub load : OutboundMessage → ConnectionAction B T (Unit {0})
  unfolding take_number serialize
  load m = take_number m.auto_msg_seq_num >>= λ number. modify (serialize m number)

  -- Whether there is anything to send, once the buffer has been filled from the queue.
  unfoldable pub fill_from : List OutboundMessage → ConnectionAction B T Bool
  unfolding on_drained load
  fill_from [] = on_drained >> pure false
  fill_from (m ∷ rest) = modify (λ c. record c { outbound_messages = rest }) >> load m >> pure true

  unfoldable pub fill : ConnectionAction B T Bool
  unfolding fill_from ByteBuffer.is_empty
  fill c =
      if ByteBuffer.is_empty c.outbound_buffer
      then fill_from c.outbound_messages c
      else (done true, c)

  -- The bytes written are consumed, and reading goes on if it was blocked.
  unfoldable pub advance_buffer : ℕ → ConnectionAction B T (Unit {0})
  unfolding ByteBuffer.write end_blocking_inbound
  advance_buffer n c =
      if_let (ByteBuffer.write (some n) c.outbound_buffer)
        (λ buffer d. (done tt, end_blocking_inbound timer (record d { outbound_buffer = buffer })))
        panic c

  unfoldable pub block : Bool → ConnectionAction B T Bool
  unfolding begin_blocking_inbound
  block sent = begin_blocking_inbound timer >> pure sent

  -- The loop, which answers whether any data was sent.
  unfoldable pub write_loop : List SocketAnswer → Bool → ConnectionAction B T Bool
  unfolding fill block advance_buffer
  write_loop [] sent = fill >>= λ more. if more then block sent else pure sent
  write_loop (wrote n ∷ answers) sent =
      let rest = write_loop answers true in
      fill >>= λ more. if more then (advance_buffer n >> rest) else pure sent
  write_loop (would_block ∷ answers) sent = fill >>= λ more. if more then block sent else pure sent
  write_loop (write_error e ∷ answers) sent =
      fill >>= λ more. if more then fail (terminate (socket_write_error e)) else pure sent

  unfoldable pub write : List SocketAnswer → ConnectionAction B T (Unit {0})
  unfolding write_loop reset_outbound_timeout
  write answers =
      write_loop answers false >>= λ sent. if sent then reset_outbound_timeout timer else pure tt
