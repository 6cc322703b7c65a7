-- ===== src/Examples/Parsing.antt =====
-- Runs of the parser, the buffer, the queue and the tags, and instances of the theorems on them.
use fix_rs.Prelude.{
  ◌<◌, true, false, none, some, [], ◌∷◌, ◌++◌, codes, ◌≡◌, refl, length, drop, arith, ◌%◌, ◌⊎◌, ◌↔◌,
}
use fix_rs.FieldTag.{to_bytes}
use fix_rs.FieldTag
use fix_rs.FieldTag.RoundTrip.{from_bytes-to_bytes}
use fix_rs.Version
use fix_rs.Version.{tag_end, fix50, as_bytes}
use fix_rs.Version.Codes.{from_bytes_iff}
use fix_rs.ByteBuffer.{ByteBuffer, valid_bytes, write, len}
use fix_rs.ByteBuffer.Queue.{IsValid, write_lem}
use fix_rs.NetworkReadRetry.{contains, queue, remove_all}
use fix_rs.NetworkReadRetry.Order.{IsDistinct, queue-IsDistinct, remove_all-without, without}
use fix_rs.Parser.State.{not_found, second_byte, get, get_bytes, remove_key, remove, initial}
use fix_rs.Decimal.{from_str, max_u8}
use fix_rs.Parser.Checksum.{sum, validate_checksum_iff}
use fix_rs.Action.{done}
use fix_rs.TokenGenerator.Fresh
use fix_rs.TokenGenerator.{create, create_loop}
use fix_rs.TokenGenerator.Fresh.{CreateEnds, create-CreateEnds}
use fix_rs.Parser.BookKeeping.{validate_checksum, calculated_checksum}
use fix_rs.Parser.Groups.{first_missing}
use fix_rs.Parser.Run.{parse}
use fix_rs.Parser.Scan.{scan_for_message}
use fix_rs.Parser.Value.{match_value_end}
use fix_rs.Parser.Saved.{ValueEnds, match_value_end_lem}
use fix_rs.Parser.Stream.{RunEnds, parse-RunEnds}
use fix_rs.Parser.Chunks.{SameFind, continue, scan_for_message-append, stale_first_byte}
use fix_rs.Examples.Data.{
  generator, two_fields, new_parser, heartbeat_bytes, with_ends, at_checksum, buffer, retry,
}

-- The bytes of one message give that message, and are all consumed.
heartbeat_parses :
    (parse two_fields heartbeat_bytes new_parser).1.parser.messages
    ≡ ((49, codes "AB") ∷ (56, codes "CD") ∷ []) ∷ []
unfolding parse heartbeat_bytes with_ends initial FieldTag.from_bytes get from_str
    Version.begin_string Version.fix_version_eq get_bytes remove_key calculated_checksum remove
    first_missing
heartbeat_parses = refl

match_value_end_lem_example :
    ValueEnds two_fields at_checksum (match_value_end two_fields at_checksum)
match_value_end_lem_example = match_value_end_lem two_fields at_checksum

parse-RunEnds_example :
    RunEnds two_fields new_parser.messages 0
      (length heartbeat_bytes)
      (parse two_fields heartbeat_bytes new_parser)
parse-RunEnds_example = parse-RunEnds two_fields heartbeat_bytes new_parser

scan_for_message-append_example :
    SameFind
      (scan_for_message
        (record { parser = new_parser; index = 0; rest = codes "x8" ++ codes "=FIX" }))
      (continue
        (scan_for_message (record { parser = new_parser; index = 0; rest = codes "x8" }))
        (codes "=FIX"))
unfolding initial
scan_for_message-append_example =
    scan_for_message-append new_parser 0 (codes "x8") (codes "=FIX") refl

from_bytes-to_bytes_example : FieldTag.from_bytes (to_bytes 1128) ≡ 1128
from_bytes-to_bytes_example = from_bytes-to_bytes 1128 (omega arith)

from_bytes_iff_example :
    (Version.from_bytes (codes "7") ≡ some fix50) ↔ (as_bytes fix50 ≡ codes "7")
from_bytes_iff_example = from_bytes_iff (codes "7") fix50

retry-IsDistinct : IsDistinct retry.tokens_to_retry
unfolding IsDistinct contains
retry-IsDistinct = (refl, (refl, tt))

queue-IsDistinct_example :
    IsDistinct (queue 7 retry).tokens_to_retry
    × (((contains 7 retry.tokens_to_retry ≡ true) × (queue 7 retry ≡ retry))
        ⊎ ((contains 7 retry.tokens_to_retry ≡ false)
            × ((queue 7 retry).tokens_to_retry ≡ retry.tokens_to_retry ++ (7 ∷ []))))
queue-IsDistinct_example = queue-IsDistinct 7 retry retry-IsDistinct

remove_all-without_example : (remove_all 5 retry).tokens_to_retry ≡ without 5 retry.tokens_to_retry
remove_all-without_example = remove_all-without 5 retry

buffer-IsValid : IsValid buffer
buffer-IsValid = record { ordered = omega arith; within = omega arith }

write_lem_example :
    ((b' : ByteBuffer) × (write (some 2) buffer ≡ some b')
      × IsValid b'
      × (valid_bytes b' ≡ drop 2 (valid_bytes buffer)))
    ⊎ ((write (some 2) buffer ≡ none) × (len buffer < 2))
write_lem_example = write_lem buffer 2 buffer-IsValid

stale_first_byte_example :
    let in_one =
      scan_for_message
        (record { parser = new_parser; index = 0; rest = b'8' ∷ b'1' ∷ tag_end ∷ [] }) in
    let first = scan_for_message (record { parser = new_parser; index = 0; rest = b'8' ∷ [] }) in
    let in_three = continue (continue first (b'1' ∷ [])) (tag_end ∷ []) in
    (in_one.parser.found_message ≡ not_found) × (in_three.parser.found_message ≡ second_byte)
unfolding initial
stale_first_byte_example = stale_first_byte new_parser b'1' refl (ground arith) (ground arith)

validate_checksum_iff_example : ((validate_checksum at_checksum).0 ≡ done tt) ↔ (
    (length at_checksum.current_bytes ≡ 3)
    × (from_str max_u8 at_checksum.current_bytes ≡ some (50 % 256)))
unfolding sum
validate_checksum_iff_example =
    validate_checksum_iff 50 at_checksum (omega arith, (omega arith, (omega arith, tt))) refl

generator-IsValid : Fresh.IsValid generator
generator-IsValid = record {
  seed_in_range = omega arith;
  room = omega arith;
  within_limit = omega arith;
}

-- The token in use is passed over.
token_created : (create_loop 4 generator).0 ≡ some 6
unfolding create_loop
token_created = refl

create-CreateEnds_example : CreateEnds generator (create generator)
create-CreateEnds_example = create-CreateEnds generator generator-IsValid
