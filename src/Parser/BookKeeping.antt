-- ===== src/Parser/BookKeeping.antt =====
-- src/fix.rs: what the parser does at every byte (checksum and remaining body length), the run of
-- bytes read without looking at them, and the checks on the checksum field.
use fix_rs.Prelude.{
  ℕ, zero, suc, ◌+◌, ◌-◌, ◌%◌, ◌^◌, true, not, Option, none, some, [], ◌∷◌, ◌++◌, ◌==◌, ◌&&◌, ◌||◌,
  if◌then◌else◌, Bytes, length,
}
use fix_rs.Decimal.{from_str, max_u8}
use fix_rs.Version.{value_end, tag_end}
use fix_rs.FieldTag.{FieldTag}
use fix_rs.Action.{Outcome, Action, done, failed, panicked}
use fix_rs.Parser.State.{
  Parser, ParseError, Traits, checksum_not_last_tag, checksum_wrong_format, checksum_does_not_match,
  checksum_tag, wrong_format_tag, out_of_range_tag, msg_type_unknown, get_bytes, was_set, set_error,
  set_panicked, wrong_format, out_of_range,
}
use fix_rs.Parser.Scan.{Cursor}

-- A method of the parser that may fail.
abbrev pub ParserAction : Type 0 → Type 0 → Type 0 → Type 0
ParserAction B M A = Action (Parser B M) (ParseError M) A

-- `checksum.overflowing_sub(*c)` over the bytes.
unfoldable pub subtract_bytes : ℕ → Bytes → ℕ
subtract_bytes checksum [] = checksum
subtract_bytes checksum (c ∷ rest) = subtract_bytes ((checksum + 256 - c) % 256) rest

module _ {B M : Type 0} where
  -- `overflowing_add` on u8, `overflowing_sub` on u64.
  abbrev pub count_byte : ℕ → Parser B M → Parser B M
  count_byte c p = record p {
    checksum = (p.checksum + c) % 256;
    body_remaining_length = (p.body_remaining_length + 2 ^ 64 - 1) % 2 ^ 64;
  }

  unfoldable pub update_book_keeping : ℕ → ParserAction B M (Unit {0})
  update_book_keeping c p =
      let q = count_byte c p in
      if q.body_remaining_length == 0
      then (if c == value_end
          then (done tt, record q { next_tag_checksum = true })
          else (failed checksum_not_last_tag, q))
      else (done tt, q)

  -- The loop runs until the input or the count of bytes to read is used up.
  unfoldable pub fast_track_bytes :
      ℕ → ℕ → Bytes → Parser B M → Outcome (ParseError M) (Unit {0}) × Cursor B M
  fast_track_bytes zero index rest p = (done tt, record { parser = p; index = index; rest = rest })
  fast_track_bytes (suc n) index [] p = (done tt, record { parser = p; index = index; rest = [] })
  fast_track_bytes (suc n) index (c ∷ rest) p =
      let (r, q) = update_book_keeping c p in
      let next = fast_track_bytes n (index + 1) rest (record q {
        current_bytes = q.current_bytes ++ (c ∷ []);
        fast_track_bytes_remaining = n;
      }) in
      elim r [
        | done _ ↦ next
        | failed e ↦ (failed e, record { parser = q; index = index; rest = c ∷ rest })
        | panicked ↦ (panicked, record { parser = q; index = index; rest = c ∷ rest })
      ]

  unfoldable pub fast_track_read_bytes : Cursor B M → Outcome (ParseError M) (Unit {0}) × Cursor B M
  unfolding fast_track_bytes
  fast_track_read_bytes c =
      fast_track_bytes c.parser.fast_track_bytes_remaining c.index c.rest c.parser

  unfoldable pub if_checksum_then_is_last_tag : ParserAction B M (Unit {0})
  if_checksum_then_is_last_tag p =
      if (p.current_tag == checksum_tag) && not p.next_tag_checksum
        || not (p.current_tag == checksum_tag) && p.next_tag_checksum
      then (failed checksum_not_last_tag, p)
      else (done tt, p)

  -- The checksum of the bytes before the field `10=…`, whose value and end were counted too.
  unfoldable pub calculated_checksum : Parser B M → ℕ
  unfolding subtract_bytes
  calculated_checksum p =
      subtract_bytes ((p.checksum + 256 - (b'1' + b'0' + tag_end + value_end)) % 256)
        p.current_bytes

  unfoldable pub check_stated : ℕ → Option ℕ → ParserAction B M (Unit {0})
  check_stated checksum none p = (failed checksum_wrong_format, p)
  check_stated checksum (some stated) p =
      if checksum == stated
      then (done tt, record p { checksum = checksum })
      else (failed (checksum_does_not_match checksum stated), p)

  unfoldable pub validate_checksum : ParserAction B M (Unit {0})
  unfolding check_stated
  validate_checksum p =
      if not (length p.current_bytes == 3)
      then (failed checksum_wrong_format, p)
      else check_stated (calculated_checksum p) (from_str max_u8 p.current_bytes) p

module _ {B M : Type 0} (t : Traits B M) where
  -- `set_message_value` on a message.
  unfoldable pub set_message_value : FieldTag → Bytes → Action M (ParseError M) (Unit {0})
  set_message_value tag bytes m = elim (t.set_value tag bytes m) [
    | was_set m' ↦ (done tt, m')
    | set_error e ↦ (
      failed (elim e [ wrong_format ↦ wrong_format_tag tag | out_of_range ↦ out_of_range_tag tag ]),
      m,
    )
    | set_panicked ↦ (panicked, m)
  ]

  -- The same on the current message of the parser.
  unfoldable pub set_current_value : FieldTag → Bytes → ParserAction B M (Unit {0})
  unfolding set_message_value
  set_current_value tag bytes p =
      let (r, m) = set_message_value tag bytes p.current_message in
      (r, record p { current_message = m })

  unfoldable pub start_message : Option B → ParserAction B M (Unit {0})
  start_message none p = (failed (msg_type_unknown p.message_type), p)
  start_message (some builder) p = (
    done tt,
    record p {
      current_message = t.build builder;
      remaining_fields = t.fields builder p.message_version;
      remaining_required_fields = t.required_fields builder p.message_version;
    },
  )

  unfoldable pub prepare_for_message : ParserAction B M (Unit {0})
  unfolding start_message
  prepare_for_message p = start_message (get_bytes p.message_type p.message_dictionary) p
