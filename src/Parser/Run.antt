-- ===== src/Parser/Run.antt =====
-- src/fix.rs, `parse` and `parse_private`: the loop over the bytes of the input.
use fix_rs.Prelude.{ℕ, zero, suc, ◌+◌, [], ◌∷◌, ◌++◌, ◌==◌, ◌&&◌, if◌then◌else◌, Bytes, length}
use fix_rs.Action.{Outcome, done, failed, panicked}
use fix_rs.FieldTag.{is_empty}
use fix_rs.Version.{tag_end, value_end}
use fix_rs.Parser.State.{
  Parser, Traits, ParseError, MessageEnd, yes_end, yes_but_stop, no_end, reset_parser,
}
use fix_rs.Parser.Scan.{Cursor, scan_for_message}
use fix_rs.Parser.BookKeeping.{update_book_keeping, fast_track_read_bytes}
use fix_rs.Parser.Tag.{match_tag_end}
use fix_rs.Parser.Value.{match_value_end}

abbrev pub Result : Type 0 → Type 0 → Type 0
Result B M = Outcome (ParseError M) (Unit {0}) × Cursor B M

-- What one byte leads to: the end of the run, or more of it.
pub data Next (B M : Type 0) : Type 0 where
  stop : Result B M → Next B M
  more : Cursor B M → Next B M

module _ {B M : Type 0} where
  -- `try!` in the loop.
  abbrev pub if_ok : Result B M → Next B M
  if_ok (done _, c) = more c
  if_ok (failed e, c) = stop (failed e, c)
  if_ok (panicked, c) = stop (panicked, c)

module _ {B M : Type 0} (t : Traits B M) where
  -- The end of a value. After an error the byte is stepped over; after a message the search for the
  -- next header goes on at once, unless the message was a Logon.
  unfoldable pub after_value : Outcome (ParseError M) MessageEnd × Parser B M → ℕ → Bytes → Next B M
  after_value (done yes_end, p) index rest =
      more (scan_for_message (record { parser = p; index = index + 1; rest = rest }))
  after_value (done yes_but_stop, p) index rest =
      stop (done tt, record { parser = p; index = index + 1; rest = rest })
  after_value (done no_end, p) index rest =
      more (record { parser = p; index = index + 1; rest = rest })
  after_value (failed e, p) index rest =
      stop (failed e, record { parser = p; index = index + 1; rest = rest })
  after_value (panicked, p) index rest =
      stop (panicked, record { parser = p; index = index; rest = value_end ∷ rest })

  -- The byte `c`, already counted, in its role as the end of a tag, the end of a value, or a part.
  unfoldable pub match_byte : ℕ → Parser B M → ℕ → Bytes → Next B M
  unfolding after_value match_tag_end match_value_end scan_for_message
  match_byte c p index rest =
      if (c == tag_end) && is_empty p.current_tag
      then if_ok (match_tag_end p index rest)
      else if c == value_end
      then after_value (match_value_end t p) index rest
      else more (record {
        parser = record p { current_bytes = p.current_bytes ++ (c ∷ []) };
        index = index + 1;
        rest = rest;
      })

  unfoldable pub step_byte : ℕ → Parser B M → ℕ → Bytes → Next B M
  unfolding match_byte update_book_keeping
  step_byte c p index rest =
      let (r, q) = update_book_keeping c p in
      elim r [
        | done _ ↦ match_byte c q index rest
        | failed e ↦ stop (failed e, record { parser = q; index = index; rest = c ∷ rest })
        | panicked ↦ stop (panicked, record { parser = q; index = index; rest = c ∷ rest })
      ]

  -- Each round takes at least one byte, so the length of the input is fuel enough.
  unfoldable pub run_loop : ℕ → Cursor B M → Result B M
  unfolding step_byte
  run_loop zero c = (done tt, c)
  run_loop (suc fuel) c = elim c.rest [
    | [] ↦ (done tt, c)
    | b ∷ rest ↦ elim (step_byte b c.parser c.index rest) [
      | stop r ↦ r
      | more c' ↦ run_loop fuel c'
    ]
  ]

  -- The bytes left over by a run of the fast track come before the loop.
  unfoldable pub start_loop : Result B M → Result B M
  unfolding run_loop
  start_loop (done _, c) = run_loop (length c.rest) c
  start_loop (failed e, c) = (failed e, c)
  start_loop (panicked, c) = (panicked, c)

  unfoldable pub parse_private : Bytes → Parser B M → Result B M
  unfolding start_loop scan_for_message fast_track_read_bytes
  parse_private bytes p =
      start_loop
        (fast_track_read_bytes (scan_for_message (record { parser = p; index = 0; rest = bytes })))

  -- After an error the parser is reset, and the search for a header begins anew.
  unfoldable pub reset_on_error : Result B M → Result B M
  unfolding reset_parser
  reset_on_error (failed e, c) = (failed e, record c { parser = reset_parser t c.parser })
  reset_on_error (done u, c) = (done u, c)
  reset_on_error (panicked, c) = (panicked, c)

  -- The cursor holds the number of bytes consumed.
  unfoldable pub parse : Bytes → Parser B M → Result B M
  unfolding parse_private reset_on_error
  parse bytes p = reset_on_error (parse_private bytes p)
