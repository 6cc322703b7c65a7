-- ===== src/Examples/Reading.antt =====
-- Runs of the reading side: a connection that waits for a Logon and is sent something else.
use fix_rs.Prelude.{[], codes, Bytes, ◌≡◌, refl, arith, length}
use fix_rs.Action.{panicked}
use fix_rs.ByteBuffer
use fix_rs.ByteBuffer.Queue.{IsValid}
use fix_rs.FieldTag
use fix_rs.Version
use fix_rs.Parser.State.{initial, get, get_bytes, remove_key, remove}
use fix_rs.Parser.BookKeeping.{calculated_checksum}
use fix_rs.Parser.Groups.{first_missing}
use fix_rs.Parser.Run.{parse}
use fix_rs.Decimal.{from_str}
use fix_rs.Session.Status.{receiving_logon, is_receiving_logon}
use fix_rs.Session.State.{InternalConnection}
use fix_rs.Session.Reading.{found_by, parse_all, waits_for_logon}
use fix_rs.Action.Ends.{Ends}
use fix_rs.Session.Reading.Rounds.{ParseEnds, Panics, parse_all-ParseEnds}
use fix_rs.Session.Reading.Early.{parse_all-panics}
use fix_rs.Examples.Data.{connection, administrative, with_ends}

-- A TestRequest, and the start of a message of an unknown version.
unfoldable not_a_logon : Bytes
unfolding with_ends
not_a_logon = with_ends (codes "8=FIX.4.2|9=23|35=1|49=AB|56=CD|112=x|10=122|8=X|")

abbrev waiting : InternalConnection (Unit {0}) (Unit {0})
waiting = record connection {
  status = receiving_logon 1 2;
  inbound_buffer = record { bytes = not_a_logon; valid_bytes_begin = 0; valid_bytes_end = 49 };
}

waiting_count : length not_a_logon ≡ 49
unfolding not_a_logon with_ends
waiting_count = refl

two_found :
    length (
      found_by
        (parse administrative (ByteBuffer.valid_bytes waiting.inbound_buffer) waiting.parser))
    ≡ 2
unfolding found_by ByteBuffer.valid_bytes not_a_logon parse with_ends initial FieldTag.from_bytes
    get from_str Version.begin_string Version.fix_version_eq get_bytes remove_key
    calculated_checksum remove first_missing
two_found = refl

all_parsed :
    (parse administrative (ByteBuffer.valid_bytes waiting.inbound_buffer) waiting.parser).1.index
    ≡ 49
unfolding ByteBuffer.valid_bytes not_a_logon parse with_ends initial FieldTag.from_bytes get
    from_str Version.begin_string Version.fix_version_eq get_bytes remove_key calculated_checksum
    remove first_missing
all_parsed = refl

IsValid-waiting : IsValid waiting.inbound_buffer
IsValid-waiting = record { ordered = omega arith; within = omega (arith, waiting_count) }

parse_all-panics_example : (parse_all administrative [] waiting).0 ≡ panicked
unfolding waits_for_logon is_receiving_logon
parse_all-panics_example =
    parse_all-panics administrative waiting IsValid-waiting refl (omega (arith, all_parsed))
      (omega (arith, two_found)) (omega (arith, two_found))

parse_all-ParseEnds_example :
    Ends
      (ParseEnds administrative [] waiting)
      (Panics administrative waiting)
      (parse_all administrative [] waiting)
parse_all-ParseEnds_example = parse_all-ParseEnds administrative [] waiting IsValid-waiting
