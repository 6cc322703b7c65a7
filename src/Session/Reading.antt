-- ===== src/Session/Reading.antt =====
-- src/fixt/engine_thread.rs: `read` of a connection, and the part of `on_network` for a connection. What
-- the socket gives at each read is a list, and a socket that gives nothing more would block.
pub mod Taken
pub mod Rounds
pub mod Early
use fix_rs.Prelude.{
  ℕ, zero, suc, ◌+◌, Bool, true, false, ◌||◌, Option, none, some, List, [], ◌∷◌, ◌++◌, map, ◌==◌,
  leb, if◌then◌else◌, Bytes, length,
}
use fix_rs.ByteBuffer
use fix_rs.ByteBuffer.{ByteBuffer}
use fix_rs.NetworkReadRetry
use fix_rs.Action.{if_let, Outcome, done, failed, panicked, pure, fail, panic, ◌>>=◌, ◌>>◌}
use fix_rs.Parser.State.{Traits, ParseError}
use fix_rs.Parser.Run.{Result, parse}
use fix_rs.Session.Fixt.{FixtMessage}
use fix_rs.Session.Status.{is_sending_logon, is_receiving_logon, socket_read_error}
use fix_rs.Session.State.{
  Timer, InternalConnection, ConnectionAction, Exit, terminate, return_now, modify, assert,
  reset_inbound_timeout,
}
use fix_rs.Session.Inbound.{on_network_message}
use fix_rs.Session.ParseErrors.{on_network_parse_error}

pub data ConnectionReadMessage : Type 0 where
  message : FixtMessage → ConnectionReadMessage
  parse_error : ParseError FixtMessage → ConnectionReadMessage

pub data ReadAnswer : Type 0 where
  read_bytes : Bytes → ReadAnswer
  would_block : ReadAnswer
  read_error : ℕ → ReadAnswer

abbrev pub inbound_messages_buffer_len_max : ℕ
inbound_messages_buffer_len_max = 10

module _ {B : Type 0} where
  -- The messages of a call of `parse`, and then its error.
  unfoldable pub found_by : Result B FixtMessage → List ConnectionReadMessage
  found_by (done _, r) = map message r.parser.messages
  found_by (failed e, r) = map message r.parser.messages ++ (parse_error e ∷ [])
  found_by (panicked, r) = []

module _ {B T : Type 0} where
  -- The bytes parsed are consumed, and the messages are taken out of the parser.
  unfoldable pub collect :
      List ConnectionReadMessage
      → Result B FixtMessage
      → ConnectionAction B T (List ConnectionReadMessage)
  unfolding found_by ByteBuffer.consume
  collect messages r c =
      if r.1.index == 0
      then (panicked, record c { parser = r.1.parser })
      else if_let (ByteBuffer.consume r.1.index c.inbound_buffer)
          (λ buffer. (
            done (messages ++ found_by r),
            record c { parser = record r.1.parser { messages = [] }; inbound_buffer = buffer },
          ))
          (panicked, record c { parser = r.1.parser })

  unfoldable pub take_result :
      List ConnectionReadMessage
      → Result B FixtMessage
      → ConnectionAction B T (List ConnectionReadMessage)
  unfolding collect
  take_result messages (done u, r) c = collect messages (done u, r) c
  take_result messages (failed e, r) c = collect messages (failed e, r) c
  take_result messages (panicked, r) c = (panicked, record c { parser = r.parser })

  unfoldable pub waits_for_logon : InternalConnection B T → Bool
  unfolding is_sending_logon is_receiving_logon
  waits_for_logon c = is_sending_logon c.status || is_receiving_logon c.status

  -- Whether the loop goes on: not once ten messages have been read, nor behind the first message of a
  -- connection that waits for a Logon.
  unfoldable pub goes_on : List ConnectionReadMessage → ConnectionAction B T Bool
  unfolding waits_for_logon
  goes_on messages c =
      if leb inbound_messages_buffer_len_max (length messages)
      then (done false, c)
      else if waits_for_logon c
      then (assert (leb (length messages) 1) >> pure false) c
      else (done true, c)

  -- `return Ok(())` in the handler of a message ends that message only.
  unfoldable pub returned :
      Outcome Exit (Unit {0}) × InternalConnection B T
      → Outcome Exit (Unit {0}) × InternalConnection B T
  returned (done u, c) = (done u, c)
  returned (failed (terminate reason), c) = (failed (terminate reason), c)
  returned (failed return_now, c) = (done tt, c)
  returned (panicked, c) = (panicked, c)

  unfoldable pub queue_retry :
      List ConnectionReadMessage → InternalConnection B T → InternalConnection B T
  unfolding NetworkReadRetry.queue
  queue_retry [] c = c
  queue_retry (_ ∷ _) c = record c {
    network_read_retry = NetworkReadRetry.queue c.token c.network_read_retry;
  }

module _ {B T : Type 0} (timer : Timer T) where
  unfoldable pub handle : ConnectionReadMessage → ConnectionAction B T (Unit {0})
  unfolding returned on_network_message on_network_parse_error
  handle (message m) c = returned (on_network_message timer m c)
  handle (parse_error e) c = returned (on_network_parse_error e c)

  unfoldable pub handle_all : List ConnectionReadMessage → ConnectionAction B T (Unit {0})
  unfolding handle
  handle_all [] = pure tt
  handle_all (m ∷ ms) = handle m >> handle_all ms

module _ {B T : Type 0} where
  -- A failed read leaves the buffer cleared.
  unfoldable pub fill_buffer : Option Bytes → ConnectionAction B T (Unit {0})
  unfolding ByteBuffer.clear_and_read
  fill_buffer input c =
      if_let (ByteBuffer.clear_and_read input c.inbound_buffer)
        (λ buffer. modify (λ d. record d { inbound_buffer = buffer })) panic c

module _ {B T : Type 0} (t : Traits B FixtMessage) where
  unfoldable pub parse_round :
      List ConnectionReadMessage → ConnectionAction B T (List ConnectionReadMessage)
  unfolding take_result parse ByteBuffer.valid_bytes
  parse_round messages c =
      take_result messages (parse t (ByteBuffer.valid_bytes c.inbound_buffer) c.parser) c

  -- The answer is whether to keep reading. Each round takes a byte or panics, so that the number of bytes
  -- is fuel enough.
  unfoldable pub parse_bytes :
      ℕ → List ConnectionReadMessage → ConnectionAction B T (Bool × List ConnectionReadMessage)
  unfolding parse_round goes_on ByteBuffer.is_empty
  parse_bytes zero messages c = (done (true, messages), c)
  parse_bytes (suc fuel) messages c =
      if ByteBuffer.is_empty c.inbound_buffer
      then (done (true, messages), c)
      else (parse_round messages >>= λ found. goes_on found >>= λ more.
            let rest = parse_bytes fuel found in if more then rest else pure (false, found))
          c

  unfoldable pub parse_all :
      List ConnectionReadMessage → ConnectionAction B T (Bool × List ConnectionReadMessage)
  unfolding parse_bytes ByteBuffer.len
  parse_all messages c = parse_bytes (ByteBuffer.len c.inbound_buffer) messages c

  -- The loop, where reading goes on.
  unfoldable pub read_loop :
      List ReadAnswer
      → List ConnectionReadMessage
      → ConnectionAction B T (List ConnectionReadMessage)
  unfolding fill_buffer parse_all
  read_loop [] messages = fill_buffer none >> pure messages
  read_loop (read_bytes [] ∷ answers) messages = fill_buffer (some []) >> pure messages
  read_loop (read_bytes (b ∷ bs) ∷ answers) messages =
      fill_buffer (some (b ∷ bs)) >> parse_all messages >>= λ parsed.
      let rest = read_loop answers parsed.1 in if parsed.0 then rest else pure parsed.1
  read_loop (would_block ∷ answers) messages = fill_buffer none >> pure messages
  read_loop (read_error e ∷ answers) messages =
      fill_buffer none >> fail (terminate (socket_read_error e))

module _ {B T : Type 0} (t : Traits B FixtMessage) (timer : Timer T) where
  -- What is read where reading is not blocked.
  unfoldable pub read_on :
      List ReadAnswer
      → Bool × List ConnectionReadMessage
      → ConnectionAction B T (List ConnectionReadMessage)
  unfolding read_loop reset_inbound_timeout
  read_on answers parsed c =
      if c.inbound_is_blocked
      then (done parsed.1, c)
      else ((if parsed.0 then read_loop t answers parsed.1 else pure parsed.1) >>= λ messages.
            reset_inbound_timeout timer >> pure messages)
          c

  unfoldable pub read : List ReadAnswer → ConnectionAction B T (List ConnectionReadMessage)
  unfolding parse_all read_on
  read answers = parse_all t [] >>= read_on answers

  -- A socket that is readable, up to the write of what was queued in answer.
  unfoldable pub on_readable : List ReadAnswer → ConnectionAction B T (Unit {0})
  unfolding read queue_retry handle_all
  on_readable answers =
      read answers >>= λ messages. modify (queue_retry messages) >> handle_all timer messages
