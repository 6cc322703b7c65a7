-- ===== src/Message/Accepted.antt =====
-- src/message.rs and src/fix.rs: a proof that the parser accepts the checksum that `read` writes.
use fix_rs.Parser.State.{Parser}
use fix_rs.ByteBuffer.{ByteBuffer}
