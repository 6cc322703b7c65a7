-- ===== src/Parser.antt =====
-- src/fix.rs, the incremental parser of FIX messages: its state and the interface to messages
-- (State), the search for a header (Scan), one module for each stage of a field (BookKeeping,
-- Rules, Groups, Tag, Header, Value), the loop over the bytes (Run), and the proofs (the rest).
pub mod State
pub mod Scan
pub mod BookKeeping
pub mod Rules
pub mod Groups
pub mod Tag
pub mod Header
pub mod Value
pub mod Run
pub mod Defaults
pub mod Progress
pub mod Frame
pub mod Saved
pub mod Messages
pub mod Stream
pub mod Chunks
pub mod Checksum
