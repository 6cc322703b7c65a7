-- ===== src/Parser/Stream.antt =====
-- A whole call of `parse`: how much of the input is consumed, and what happens to the messages.
use mathlib.Core.Path.{subst}
use fix_rs.Prelude.{
  ℕ, zero, suc, ◌+◌, ◌≤◌, ◌≡◌, refl, sym, ◌∙◌, ◌⊎◌, inl, inr, true, List, [], ◌∷◌, ◌++◌, arith,
  Bytes, length, ◌==◌, ◌&&◌, bytes_eq, Bool-cases, nil_of_length,
}
use fix_rs.Action.{Outcome, done, failed, panicked}
use fix_rs.FieldTag.{is_empty}
use fix_rs.Version.{tag_end, value_end}
use fix_rs.Parser.State.{
  Parser, Traits, ParseError, MessageEnd, yes_end, yes_but_stop, no_end, not_found, reset_parser,
}
use fix_rs.Parser.Scan.{Cursor, scan_for_message}
use fix_rs.Parser.BookKeeping.{update_book_keeping, fast_track_read_bytes}
use fix_rs.Parser.Tag.{match_tag_end}
use fix_rs.Parser.Value.{logon_msg_type, match_value_end}
use fix_rs.Parser.Saved.{ValueEnds, match_value_end_lem}
use fix_rs.Parser.Run.{
  Result, Next, if_ok, stop, more, after_value, match_byte, step_byte, run_loop, start_loop,
  parse_private, reset_on_error, parse,
}
use fix_rs.Parser.Progress.{
  extent, Advances, TagAdvances, NextAdvances, step_byte_lem, scan_for_message_lem,
  fast_track_read_bytes_lem,
}
use fix_rs.Parser.Messages.{
  Extends, same, Extends-trans, messages-scan, messages-update, messages-fast, messages-tag_end,
}

count_one : (a b : ℕ) → a + suc b ≡ a + 1 + b
count_one a b = omega arith

module _ {B M : Type 0} (t : Traits B M) where
  -- The message parsed last is a Logon, and nothing is being parsed.
  pub record StoppedAtLogon (p : Parser B M) : Type 0 where
    pub before : List M
    pub logon : M
    pub last : p.messages ≡ before ++ (logon ∷ [])
    pub is_logon : bytes_eq (t.msg_type logon) logon_msg_type ≡ true
    pub ready : p.found_message ≡ not_found

  abbrev NextExtends : List M → Next B M → Type 0
  NextExtends before (stop (done _, c)) = Extends before c.parser.messages × StoppedAtLogon c.parser
  NextExtends before (stop (failed _, c)) = Extends before c.parser.messages
  NextExtends before (stop (panicked, c)) = Extends before c.parser.messages
  NextExtends before (more c) = Extends before c.parser.messages

  after_value-Extends :
      (p : Parser B M) (r : Outcome (ParseError M) MessageEnd × Parser B M) (index : ℕ)
      (rest : Bytes)
      → ValueEnds t p r
      → NextExtends p.messages (after_value t r index rest)
  unfolding after_value
  after_value-Extends p (done yes_end, q) index rest (_, a) = (
    a.message ∷ [],
    messages-scan (record { parser = q; index = index + 1; rest = rest }) ∙ a.added,
  )
  after_value-Extends p (done yes_but_stop, q) index rest (_, a) = (
    (a.message ∷ [], a.added),
    record {
      before = p.messages;
      logon = a.message;
      last = a.added;
      is_logon = a.kind;
      ready = a.ready;
    },
  )
  after_value-Extends p (done no_end, q) index rest h = same h
  after_value-Extends p (failed e, q) index rest h = same h
  after_value-Extends p (panicked, q) index rest h = same h

  if_ok-Extends :
      (p : Parser B M) (r : Result B M)
      → r.1.parser.messages ≡ p.messages
      → NextExtends p.messages (if_ok r)
  if_ok-Extends p (done _, c) h = same h
  if_ok-Extends p (failed _, c) h = same h
  if_ok-Extends p (panicked, c) h = same h

  match_byte-Extends :
      (b : ℕ) (p : Parser B M) (index : ℕ) (rest : Bytes)
      → NextExtends p.messages (match_byte t b p index rest)
  unfolding match_byte
  match_byte-Extends b p index rest = elim (Bool-cases ((b == tag_end) && is_empty p.current_tag)) [
    | inl e ↦
        rw (e, match_byte)
          (if_ok-Extends p (match_tag_end p index rest) (messages-tag_end p index rest))
    | inr e ↦
        rw (e, match_byte)
          (elim (Bool-cases (b == value_end)) [
            | inl f ↦
                rw f
                  (after_value-Extends p (match_value_end t p) index rest (match_value_end_lem t p))
            | inr f ↦ rw f (same refl)
          ])
  ]

  step_byte-Extends :
      (b : ℕ) (p : Parser B M) (index : ℕ) (rest : Bytes)
      → NextExtends p.messages (step_byte t b p index rest)
  unfolding step_byte
  step_byte-Extends b p index rest = go (update_book_keeping b p).0 refl
    where
      q : Parser B M
      q = (update_book_keeping b p).1

      go :
          (r : Outcome (ParseError M) (Unit {0}))
          → r ≡ (update_book_keeping b p).0
          → NextExtends p.messages (elim r [
            | done _ ↦ match_byte t b q index rest
            | failed e ↦ stop (failed e, record { parser = q; index = index; rest = b ∷ rest })
            | panicked ↦ stop (panicked, record { parser = q; index = index; rest = b ∷ rest })
          ])
      go (done _) e =
          subst (λ l. NextExtends l (match_byte t b q index rest)) (messages-update b p)
            (match_byte-Extends b q index rest)
      go (failed x) e = same (messages-update b p)
      go panicked e = same (messages-update b p)

  -- How a run ends.
  pub record RunEnds (before : List M) (index total : ℕ) (r : Result B M) : Type 0 where
    pub extent : r.1.index + length r.1.rest ≡ total
    pub ahead : index ≤ r.1.index
    pub added : Extends before r.1.parser.messages
    pub complete : r.0 ≡ done tt → (r.1.rest ≡ []) ⊎ StoppedAtLogon r.1.parser

  run_stop :
      (before : List M) (index total : ℕ) (r : Result B M)
      → TagAdvances index total r
      → NextExtends before (stop r)
      → RunEnds before index total r
  run_stop before index total (done _, c) (e, a) (x, l) = record {
    extent = e;
    ahead = omega arith;
    added = x;
    complete = λ _. inr l;
  }
  run_stop before index total (failed f, c) (e, a) x = record {
    extent = e;
    ahead = a;
    added = x;
    complete = λ h. cc;
  }
  run_stop before index total (panicked, c) (e, a) x = record {
    extent = e;
    ahead = a;
    added = x;
    complete = λ h. cc;
  }

  RunEnds-trans :
      (before middle : List M) (index index' total : ℕ) (r : Result B M)
      → Extends before middle
      → index ≤ index'
      → RunEnds middle index' total r
      → RunEnds before index total r
  RunEnds-trans before middle index index' total r x a h = record {
    extent = h.extent;
    ahead = omega (arith, h.ahead);
    added = Extends-trans before middle r.1.parser.messages x h.added;
    complete = h.complete;
  }

  abbrev LoopEnds : ℕ → Type 0
  LoopEnds fuel =
      (c : Cursor B M)
      → length c.rest ≤ fuel
      → RunEnds c.parser.messages c.index (extent c) (run_loop t fuel c)

  next_ends :
      (fuel : ℕ) (before : List M) (index total : ℕ) (n : Next B M)
      → LoopEnds fuel
      → total ≤ index + suc fuel
      → NextAdvances t index total n
      → NextExtends before n
      → RunEnds before index total (elim n [ stop r ↦ r | more c' ↦ run_loop t fuel c' ])
  next_ends fuel before index total (stop r) ih h a x = run_stop before index total r a x
  next_ends fuel before index total (more c) ih h (e, a) x =
      RunEnds-trans before c.parser.messages index c.index total (run_loop t fuel c) x (omega arith)
        (rw (sym e) (ih c (omega arith)))

  round_ends :
      (fuel : ℕ) (p : Parser B M) (index : ℕ) (rest : Bytes)
      → LoopEnds fuel
      → length rest ≤ suc fuel
      → RunEnds p.messages index
          (index + length rest)
          (run_loop t (suc fuel) (record { parser = p; index = index; rest = rest }))
  unfolding run_loop
  round_ends fuel p index [] ih h = record {
    extent = refl;
    ahead = omega arith;
    added = same refl;
    complete = λ _. inl refl;
  }
  round_ends fuel p index (b ∷ rest) ih h =
      next_ends fuel p.messages index (index + suc (length rest)) (step_byte t b p index rest) ih
        (omega arith) (rw (count_one index (length rest)) (step_byte_lem t b p index rest))
        (step_byte-Extends b p index rest)

  -- The loop, where the fuel is at least the number of bytes left.
  run_loop_lem : (fuel : ℕ) → LoopEnds fuel
  unfolding run_loop
  run_loop_lem zero c h = record {
    extent = refl;
    ahead = omega arith;
    added = same refl;
    complete = λ _. inl (nil_of_length c.rest (omega arith));
  }
  run_loop_lem (suc fuel) c h = round_ends fuel c.parser c.index c.rest (run_loop_lem fuel) h

  messages-reset : (p : Parser B M) → (reset_parser t p).messages ≡ p.messages
  unfolding reset_parser
  messages-reset p = refl

  start_ends :
      (before : List M) (total : ℕ) (r : Result B M)
      → Advances 0 total r.1
      → r.1.parser.messages ≡ before
      → RunEnds before 0 total (start_loop t r)
  unfolding start_loop
  start_ends before total (done _, c) (e, a) m =
      RunEnds-trans before c.parser.messages 0 c.index total (run_loop t (length c.rest) c) (same m)
        a (rw (sym e) (run_loop_lem (length c.rest) c (omega arith)))
  start_ends before total (failed x, c) (e, a) m = record {
    extent = e;
    ahead = a;
    added = same m;
    complete = λ h. cc;
  }
  start_ends before total (panicked, c) (e, a) m = record {
    extent = e;
    ahead = a;
    added = same m;
    complete = λ h. cc;
  }

  private_ends :
      (bytes : Bytes) (p : Parser B M)
      → RunEnds p.messages 0 (length bytes) (parse_private t bytes p)
  unfolding parse_private
  private_ends bytes p =
      let start : Cursor B M = record { parser = p; index = 0; rest = bytes } in
      let scanned = scan_for_message start in
      start_ends p.messages (length bytes) (fast_track_read_bytes scanned)
        (omega (arith, scan_for_message_lem start, fast_track_read_bytes_lem scanned))
        (messages-fast scanned ∙ messages-scan start)

  reset_ends :
      (before : List M) (total : ℕ) (r : Result B M)
      → RunEnds before 0 total r
      → RunEnds before 0 total (reset_on_error t r)
  unfolding reset_on_error
  reset_ends before total (done _, c) h = h
  reset_ends before total (failed e, c) h = record {
    extent = h.extent;
    ahead = h.ahead;
    added = rw (messages-reset c.parser) h.added;
    complete = λ e. cc;
  }
  reset_ends before total (panicked, c) h = h

  -- A call of `parse` consumes a part of its input and counts it exactly, and adds its messages
  -- behind those that were there. Where it reports no error it has consumed the whole input, or
  -- has stopped behind a Logon message, which is the last one added.
  pub parse-RunEnds :
      (bytes : Bytes) (p : Parser B M) → RunEnds p.messages 0 (length bytes) (parse t bytes p)
  unfolding parse
  parse-RunEnds bytes p =
      reset_ends p.messages (length bytes) (parse_private t bytes p) (private_ends bytes p)
