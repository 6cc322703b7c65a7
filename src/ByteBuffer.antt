-- ===== src/ByteBuffer.antt =====
-- src/byte_buffer.rs: a buffer of bytes with the range of those that are still valid. An assertion
-- that fails and a slice out of range are `none`.
pub mod Queue
use fix_rs.Prelude.{
  ℕ, ◌+◌, ◌-◌, Bool, Option, none, some, [], ◌++◌, ◌==◌, ltb, leb, if◌then◌else◌, Bytes, length,
  take, drop, replicate, ◌&&◌,
}

pub record ByteBuffer : Type 0 where
  pub bytes : Bytes
  pub valid_bytes_begin : ℕ
  pub valid_bytes_end : ℕ

abbrev pub new : ByteBuffer
new = record { bytes = []; valid_bytes_begin = 0; valid_bytes_end = 0 }

unfoldable pub with_capacity : ℕ → ByteBuffer
with_capacity capacity = record {
  bytes = replicate capacity 0;
  valid_bytes_begin = 0;
  valid_bytes_end = 0;
}

-- `&self.bytes[begin..end]`, where the range lies in the vector.
unfoldable pub valid_bytes : ByteBuffer → Bytes
valid_bytes b = take (b.valid_bytes_end - b.valid_bytes_begin) (drop b.valid_bytes_begin b.bytes)

unfoldable pub clear : ByteBuffer → ByteBuffer
clear b = record b { valid_bytes_begin = 0; valid_bytes_end = 0 }

-- The reader puts `input` at the front of the vector, or fails (`none`) and changes nothing.
unfoldable pub clear_and_read : Option Bytes → ByteBuffer → Option ByteBuffer
unfolding clear
clear_and_read none b = some (clear b)
clear_and_read (some input) b =
    if leb (length input) (length b.bytes)
    then some (record (clear b) {
      bytes = input ++ drop (length input) b.bytes;
      valid_bytes_end = length input;
    })
    else none

-- The function given fills the cleared vector with `input`.
unfoldable pub clear_and_read_all : Bytes → ByteBuffer → ByteBuffer
clear_and_read_all input b = record {
  bytes = input;
  valid_bytes_begin = 0;
  valid_bytes_end = length input;
}

unfoldable pub consume : ℕ → ByteBuffer → Option ByteBuffer
consume count b =
    if leb (b.valid_bytes_begin + count) b.valid_bytes_end
    then some (record b { valid_bytes_begin = b.valid_bytes_begin + count })
    else none

unfoldable pub is_empty : ByteBuffer → Bool
is_empty b = b.valid_bytes_begin == b.valid_bytes_end

unfoldable pub len : ByteBuffer → ℕ
len b = b.valid_bytes_end - b.valid_bytes_begin

-- The writer takes `some n` bytes, or fails (`none`).
unfoldable pub write : Option ℕ → ByteBuffer → Option ByteBuffer
unfolding consume
write none b = some b
write (some bytes_written) b = consume bytes_written b
