-- ===== src/Lib.antt =====
-- fix-rs, an engine for the FIX protocol: a model of its parser, of its session
-- layer, and of how messages and their fields are written and read.
--
-- A connection reads bytes from a socket into a buffer (src/byte_buffer.rs), and the parser
-- (src/fix.rs) turns them into messages and errors. The session layer (src/fixt/engine_thread.rs)
-- takes these in order, keeps the sequence numbers and the status of the connection, queues
-- replies, and sends events to the user. Messages are defined by macros (src/message.rs,
-- src/field.rs) as lists of fields, each with a type (src/field_type.rs,
-- src/dictionary/field_types) that reads and writes its value. A queue (src/network_read_retry.rs) holds the
-- connections that have to be read again.
--
-- Which file models what (a name below is the source's, in this library's spelling):
-- - FieldTag: src/field_tag.rs. `from_bytes` is `From<&[u8]>`, with the wrap-around of u64.
-- - Version: src/constant.rs, src/message_version.rs, src/fix_version.rs.
-- - ByteBuffer: src/byte_buffer.rs. A failed assertion or a slice out of range is `none`.
-- - Decimal: `to_string` and `FromStr` of Rust's unsigned integers, with their range; Decimal.Signed
--   those of the signed ones, and Decimal.Padded numbers of a least width. Prelude.Int has the
--   integers.
-- - FieldTypes: src/field_type.rs and src/dictionary/field_types. Generic, Dates and MonthYear have
--   generic.rs, Enum the types that macros.rs makes of an enumeration, Tables fourteen of the
--   enumerations of other.rs, and SettlType that type of it. Chrono, a parameter, says which dates and times there are;
--   `String::from_utf8_lossy` is a parameter of MonthYear.
-- - Message: src/message.rs and src/field.rs. A message type is its list of `MessageField`s, from which
--   `define_message!` makes the traits that the parser uses; Reading has `Message::read`.
-- - Action: methods that take `&mut self` and return a `Result`, as functions to an outcome (done,
--   failed or panicked) and the state that they leave on every path; Action.Ends: what holds then.
-- - Parser: src/fix.rs. State has `Parser`, `ParseError`, the group states and the traits of
--   src/message.rs as a record of functions; Scan has `scan_for_message`; BookKeeping what is done
--   at every byte and the checksum; Tag has `match_tag_end`; Header, Groups and Value are the parts of
--   `match_value_end`; Rules has `handle_rule_after_value`; Run has `parse` and `parse_private`;
--   Defaults has the defaults of versions. The stack of group states and the groups have the newest
--   first. Progress, Frame, Saved, Messages, Stream, Chunks and
--   Checksum hold proofs.
-- - TokenGenerator: src/token_generator.rs, with a usize of 64 bits.
-- - NetworkReadRetry: src/network_read_retry.rs; the answers of the poll are arguments.
-- - Session: src/fixt/engine_thread.rs. Fixt has the messages as the session layer sees them
--   (src/fixt/message.rs, src/dictionary/messages.rs), Dictionary the lists of src/dictionary/mod.rs,
--   Status has `ConnectionStatus`, State has `InternalConnection` with the timer, the queue of
--   retries and the events sent; Logout has `initiate_logout` and `respond_to_logout`; Resend has the
--   handlers by MsgSeqNum; Inbound has `on_network_message`; ParseErrors has
--   `on_network_parse_error`; Reading has `read` and what `on_network` does where a connection is
--   readable, up to its write; Writing has `write`; Requests has what the requests of
--   `on_internal_engine_event` do to a connection; Timeouts has what `on_timeout` does to one.
--   Thread has `InternalThread` with its maps of connections and listeners: a method of a connection
--   runs on the entry of its token, which it leaves or drops; Thread.Opening has `InternalConnection::new`,
--   NewConnection, NewListener and accepting, Thread.Network `on_network`, Thread.Events
--   `on_internal_engine_event` and `on_timeout`, Thread.Loop a round of the loop with its clean-up.
--   Timer is a parameter (mio). Calm, Checks, Sequence, Same, Covered, Delivery, Repeated, Answers,
--   Kept, Sent, Order, Taken, Rounds, Early, Resending, Endings, Told, Cleaned, Others and Reachable hold
-- --   proofs; Writing.Leaving says what `write` is to do.
-- - Engine: src/fixt/engine.rs. The channel to the thread is the list of the requests sent. Responses,
--   Adding and Leaked hold proofs.
-- - Examples: runs at concrete inputs.
--
-- Numbers are natural numbers, and the wrap-around of the source's u8 and u64 is written out with
-- `%`. Loops over the input are structural or on the length of the input as fuel, which is enough
-- since each round takes a byte; `remove_all` has the length of the queue, since each round removes a
-- token or moves on; `create` has the number of values of usize, after which every token was tried.
-- `write` and the reads of `read` are structural on the answers of the socket; `parse_bytes` has the number
-- of bytes in the buffer, since each round takes one or panics.
--
-- Not modelled: `Parser::new` beyond the state that it builds, and the check of the dictionary; the
-- repeating groups as a type of fields, the caches of builders, and the remaining enumerations, which are tables of
-- the form of those modelled; the start of the engine's thread and
-- its failures of poll, which only send FatalError; the dictionary's own lists of fields and messages;
-- the examples, the benchmarks and the command-line tool.
pub mod Prelude
pub mod Decimal
pub mod FieldTag
pub mod Version
pub mod ByteBuffer
pub mod Action
pub mod Parser
pub mod FieldTypes
pub mod Message
pub mod TokenGenerator
pub mod NetworkReadRetry
pub mod Session
pub mod Examples
pub mod Engine
