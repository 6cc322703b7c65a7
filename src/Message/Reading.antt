-- ===== src/Message/Reading.antt =====
-- src/message.rs: `Message::read`, from the bytes of the body on. An overflow of `usize` is a panic, `none`.
use fix_rs.Prelude.{
  ℕ, ◌+◌, ◌-◌, ◌%◌, Option, none, some, List, [], ◌∷◌, ◌++◌, ltb, if◌then◌else◌, Bytes, codes,
  length, take, drop, replicate,
}
use fix_rs.ByteBuffer.{ByteBuffer}
use fix_rs.Decimal.{to_string}
use fix_rs.Action.{if_let}
use fix_rs.Message.{MessageField, read_body, msg_type_header}
use fix_rs.Version.{MessageVersion, FixVersion, begin_string}

abbrev pub header_padding_len : ℕ
header_padding_len = 32

-- `ptr::copy` of a slice to a place in the buffer.
unfoldable pub copy_slice : Bytes → ℕ → Bytes → Bytes
copy_slice src at dst = take at dst ++ (src ++ drop (at + length src) dst)

-- `copy_slice_and_advance`, for one slice after the other.
unfoldable pub copy_slices : List Bytes → ℕ → Bytes → Bytes
unfolding copy_slice
copy_slices [] at dst = dst
copy_slices (src ∷ srcs) at dst = copy_slices srcs (at + length src) (copy_slice src at dst)

unfoldable pub header_slices : FixVersion → ℕ → Bytes → List Bytes
unfolding begin_string to_string
header_slices fix_version body_length message_type =
    codes "8="
    ∷ begin_string fix_version
    ∷ (1 ∷ codes "9=")
    ∷ to_string body_length
    ∷ (1 ∷ [])
    ∷ message_type
    ∷ []

unfoldable pub header_len : FixVersion → ℕ → Bytes → ℕ
unfolding begin_string to_string
header_len fix_version body_length message_type =
    2
    + length (begin_string fix_version)
    + 1
    + (2 + length (to_string body_length) + 1)
    + length message_type

-- `overflowing_add` over the bytes.
unfoldable pub checksum_from : ℕ → Bytes → ℕ
checksum_from checksum [] = checksum
checksum_from checksum (b ∷ bs) = checksum_from ((checksum + b) % 256) bs

unfoldable pub checksum_field : ℕ → Bytes
unfolding to_string
checksum_field checksum =
    codes "10="
    ++ ((if ltb checksum 100 then b'0' ∷ (if ltb checksum 10 then b'0' ∷ [] else []) else [])
        ++ (to_string checksum ++ (1 ∷ [])))

-- The buffer as `read` leaves it, with the header written right before the body.
unfoldable pub read_into : FixVersion → Bytes → Bytes → ByteBuffer → Option ByteBuffer
unfolding header_len copy_slices header_slices checksum_from checksum_field
read_into fix_version message_type body buf =
    let padded = replicate header_padding_len 0 ++ body in
    let body_length = length padded - header_padding_len + length message_type in
    let len = header_len fix_version body_length message_type in
    if ltb header_padding_len len
    then none
    else let begin = header_padding_len - len in
      let bytes = copy_slices (header_slices fix_version body_length message_type) begin padded in
      let all = bytes ++ checksum_field (checksum_from 0 (drop begin bytes)) in
      some (record { bytes = all; valid_bytes_begin = begin; valid_bytes_end = length all })

module _ {B M : Type 0} where
  -- `read` of a message, given the description of its kind.
  unfoldable pub read :
      List (MessageField B M)
      → Bytes
      → FixVersion
      → MessageVersion
      → M
      → ByteBuffer
      → Option ByteBuffer
  unfolding read_body msg_type_header read_into
  read description msg_type fix_version message_version m buf =
      if_let (read_body description fix_version message_version m)
        (λ body. read_into fix_version (msg_type_header msg_type) body buf) none
