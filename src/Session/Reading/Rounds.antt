-- ===== src/Session/Reading/Rounds.antt =====
-- src/fixt/engine_thread.rs: proofs on the rounds of `parse_bytes` in `read`.
use mathlib.Core.Path.{subst}
use fix_rs.Prelude.{
  ℕ, zero, suc, ◌≤◌, ◌<◌, ◌++◌, ◌≡◌, ◌≢◌, refl, sym, ◌∙◌, ◌⊎◌, inl, inr, Bool, true, false, List,
  [], Bytes, nil_of_length, length, drop, arith, if◌then◌else◌, Bool-cases,
}
use fix_rs.ByteBuffer
use fix_rs.ByteBuffer.{ByteBuffer}
use fix_rs.ByteBuffer.Queue.{IsValid, len-valid_bytes, is_empty_iff}
use fix_rs.Action.{pure, ◌>>=◌}
use fix_rs.Action.Ends.{Ends, Ends-and_then, Ends-weaken}
use fix_rs.Parser.State.{Parser, Traits}
use fix_rs.Parser.Run.{parse}
use fix_rs.Parser.Stream.{parse-RunEnds}
use fix_rs.Session.Fixt.{FixtMessage}
use fix_rs.Session.State.{InternalConnection}
use fix_rs.Session.Reading.{
  ConnectionReadMessage, waits_for_logon, goes_on, parse_round, parse_bytes, parse_all,
}
use fix_rs.Session.Reading.Taken.{
  Stuck, Untouched, Untouched-trans, left, StuckAt, Round, take_result_lem, Stops, goes_on_lem,
  nothing-Taken, Taken-trans, weaker, waits_same, fewer, Finds, Taken,
}

module _ {B : Type 0} (t : Traits B FixtMessage) where
  -- The bytes and the parser that rounds lead to.
  pub data Reaches : Bytes → Parser B FixtMessage → Bytes → Parser B FixtMessage → Type 0 where
    now : {bytes : Bytes} {p : Parser B FixtMessage} → Reaches bytes p bytes p
    round :
        {bytes last : Bytes} {p q : Parser B FixtMessage}
        → Reaches
            (drop (parse t bytes p).1.index bytes)
            (record (parse t bytes p).1.parser { messages = [] })
            last
            q
        → Reaches bytes p last q

  -- The rounds of a loop that is done, from the messages, bytes and parser before it to its answer and what is left: each
  -- adds what its call of `parse` has found. It goes on below ten messages, where no Logon is waited for, until no byte
  -- is left, which is answered with true.
  pub data Ran (waits : Bool)
      : List ConnectionReadMessage
        → Bytes
        → Parser B FixtMessage
        → Bool
        → List ConnectionReadMessage
        → Bytes
        → Parser B FixtMessage
        → Type 0 where
    nothing_left :
        {messages : List ConnectionReadMessage} {bytes : Bytes} {p : Parser B FixtMessage}
        → bytes ≡ []
        → Ran waits messages bytes p true messages bytes p
    last_round :
        {messages new found : List ConnectionReadMessage} {bytes last : Bytes}
        {p q : Parser B FixtMessage}
        → bytes ≢ []
        → Finds (parse t bytes p) new
        → found ≡ messages ++ new
        → last ≡ drop (parse t bytes p).1.index bytes
        → q ≡ record (parse t bytes p).1.parser { messages = [] }
        → (10 ≤ length found) ⊎ (waits ≡ true)
        → Ran waits messages bytes p false found last q
    one_more :
        {messages new found rest : List ConnectionReadMessage} {bytes left last : Bytes}
        {p q r : Parser B FixtMessage} {more : Bool}
        → bytes ≢ []
        → Finds (parse t bytes p) new
        → found ≡ messages ++ new
        → left ≡ drop (parse t bytes p).1.index bytes
        → q ≡ record (parse t bytes p).1.parser { messages = [] }
        → length found < 10
        → waits ≡ false
        → Ran waits found left q more rest last r
        → Ran waits messages bytes p more rest last r

  -- Rounds lead to bytes at which `parse` is stuck.
  pub record Jams (bytes : Bytes) (p : Parser B FixtMessage) : Type 0 where
    pub last : Bytes
    pub parser : Parser B FixtMessage
    pub reached : Reaches bytes p last parser
    pub some_left : last ≢ []
    pub stuck : Stuck (parse t last parser)

  Jams-round :
      (bytes : Bytes) (p : Parser B FixtMessage)
      → Jams
          (drop (parse t bytes p).1.index bytes)
          (record (parse t bytes p).1.parser { messages = [] })
      → Jams bytes p
  Jams-round bytes p j = record {
    last = j.last;
    parser = j.parser;
    reached = round j.reached;
    some_left = j.some_left;
    stuck = j.stuck;
  }

module _ {B T : Type 0} (t : Traits B FixtMessage) where
  -- What was taken, in order, the rounds that took it, and why the loop ended.
  abbrev pub ParseEnds :
      List ConnectionReadMessage
      → InternalConnection B T
      → Bool × List ConnectionReadMessage
      → InternalConnection B T
      → Type 0
  ParseEnds messages c (more, found) d =
      Taken 0 messages found c d
      × ((more ≡ true) → left d ≡ [])
      × Stops found c more
      × Ran t (waits_for_logon c) messages (left c) c.parser more found (left d) d.parser

  -- The test of the loop lets it go on.
  abbrev MayGoOn : List ConnectionReadMessage → InternalConnection B T → Bool → Type 0
  MayGoOn found d more = (more ≡ true) → (length found < 10) × (waits_for_logon d ≡ false)

  -- A panic: while the connection waits for a Logon, or where `parse` is stuck.
  abbrev pub Panics : InternalConnection B T → InternalConnection B T → Type 0
  Panics c d = Untouched c d × ((waits_for_logon c ≡ true) ⊎ Jams t (left c) c.parser)

  abbrev RoundEnds :
      List ConnectionReadMessage
      → InternalConnection B T
      → List ConnectionReadMessage
      → InternalConnection B T
      → Type 0
  RoundEnds messages c found d = Round (parse t (left c) c.parser) messages c found d

  later :
      (messages found : List ConnectionReadMessage) (c d e : InternalConnection B T)
      → RoundEnds messages c found d
      → Panics d e
      → Panics c e
  later messages found c d e (k, a, _) (u, inl w) =
      (Untouched-trans c d e k.untouched u, inl (sym (waits_same c d k.untouched) ∙ w))
  later messages found c d e (k, a, _) (u, inr j) = (
    Untouched-trans c d e k.untouched u,
    inr (Jams-round t (left c) c.parser (rw (sym a.0, sym a.1) j)),
  )

module _ {B : Type 0} (t : Traits B FixtMessage) (T : Type 0) where
  abbrev LoopEnds : ℕ → Type 0
  LoopEnds fuel =
      (messages : List ConnectionReadMessage) (c : InternalConnection B T)
      → IsValid c.inbound_buffer
      → length (left c) ≤ fuel
      → Ends (ParseEnds t messages c) (Panics t c) (parse_bytes t fuel messages c)

module _ {B T : Type 0} (t : Traits B FixtMessage) where
  parse_round_lem :
      (messages : List ConnectionReadMessage) (c : InternalConnection B T)
      → IsValid c.inbound_buffer
      → ByteBuffer.is_empty c.inbound_buffer ≡ false
      → Ends (RoundEnds t messages c) (Panics t c) (parse_round t messages c)
  unfolding parse_round
  parse_round_lem messages c v some_left =
      let ends = parse-RunEnds t (left c) c.parser in
      Ends-weaken (RoundEnds t messages c) _ (StuckAt (parse t (left c) c.parser) c) _ _
        (take_result_lem messages (parse t (left c) c.parser) c v (omega (arith, ends.extent)))
        (λ found d k. k)
        (λ d p. (
          p.0,
          inr (record {
            last = left c;
            parser = c.parser;
            reached = now;
            some_left = λ empty. (let full = (is_empty_iff c.inbound_buffer v).1 empty in cc);
            stuck = p.1;
          }),
        ))

  stopped_lem :
      (messages found : List ConnectionReadMessage) (c d : InternalConnection B T)
      → left c ≢ []
      → RoundEnds t messages c found d
      → Stops found c false
      → Ran t (waits_for_logon c) messages (left c) c.parser false found (left d) d.parser
  stopped_lem messages found c d some_left (_, (bytes, parser), (new, finds, e)) s = elim (s refl) [
    | inl full ↦ last_round some_left finds e bytes parser (inl full)
    | inr (waits, _) ↦ last_round some_left finds e bytes parser (inr waits)
  ]

  next_lem :
      (fuel : ℕ) (messages found : List ConnectionReadMessage) (c d : InternalConnection B T)
      (more : Bool)
      → LoopEnds t T fuel
      → length (left c) ≤ suc fuel
      → left c ≢ []
      → RoundEnds t messages c found d
      → Stops found d more
      → MayGoOn t found d more
      → Ends
          (ParseEnds t messages c)
          (Panics t c)
          ((if more then parse_bytes t fuel found else pure (false, found)) d)
  next_lem fuel messages found c d true ih h some_left k s may =
      let (taken, (bytes, parser), (new, finds, added)) = k in
      let same = waits_same c d taken.untouched in
      let (few, not_waiting) = may refl in
      Ends-weaken (ParseEnds t found d) _ (Panics t d) _ (parse_bytes t fuel found d)
        (ih found d taken.valid (fewer messages found c d fuel h taken))
        (λ (more, last) e p. (
          Taken-trans messages found last c d e taken p.0,
          p.1,
          (λ m. rw (sym same) (p.2 m)),
          one_more some_left finds added bytes parser few (sym same ∙ not_waiting)
              (subst (λ w. Ran t w found (left d) d.parser more last (left e) e.parser) same p.3),
        ))
        (λ e u. later t messages found c d e k u)
  next_lem fuel messages found c d false ih h some_left k s may =
      let same = waits_same c d k.0.untouched in
      let stops : Stops found c false = λ m. rw (sym same) (s m) in
      (
        weaker messages found c d k.0,
        (λ m. cc),
        stops,
        stopped_lem messages found c d some_left k stops,
      )

  nothing_lem :
      (messages : List ConnectionReadMessage) (c : InternalConnection B T)
      → IsValid c.inbound_buffer
      → left c ≡ []
      → ParseEnds t messages c (true, messages) c
  nothing_lem messages c v e = (nothing-Taken messages c v, (λ _. e), (λ m. cc), nothing_left e)

  full_lem :
      (c : InternalConnection B T)
      → IsValid c.inbound_buffer
      → ByteBuffer.is_empty c.inbound_buffer ≡ false
      → left c ≢ []
  full_lem c v e empty = let full = (is_empty_iff c.inbound_buffer v).1 empty in cc

  parse_bytes_lem : (fuel : ℕ) → LoopEnds t T fuel
  unfolding parse_bytes ◌>>=◌
  parse_bytes_lem zero messages c v h =
      nothing_lem messages c v (nil_of_length (left c) (omega arith))
  parse_bytes_lem (suc fuel) messages c v h =
      elim (Bool-cases (ByteBuffer.is_empty c.inbound_buffer)) [
        | inl e ↦ rw e (nothing_lem messages c v ((is_empty_iff c.inbound_buffer v).0 e))
        | inr e ↦ rw e (
            Ends-and_then (RoundEnds t messages c) _ (Panics t c) (parse_round t messages c) _
              (parse_round_lem messages c v e)
              (λ found d k.
                Ends-and_then _ _ (Panics t c) (goes_on found d) _
                  (Ends-weaken _
                    (λ more d'. (d' ≡ d) × (Stops found d more × MayGoOn t found d more)) _
                    (Panics t c) (goes_on found d) (goes_on_lem found d)
                    (λ more d' p. (p.0, (p.1, p.2)))
                    (λ d' p. later t messages found c d d' k (rw p.0 (refl, inl p.1))))
                  (λ more d' p. rw p.0 (
                    next_lem fuel messages found c d more (parse_bytes_lem fuel) h (full_lem c v e)
                      k p.1.0 p.1.1))))
      ]

  -- `parse_bytes` of a connection with a valid buffer ends: the bytes that it took are a front of those in the
  -- buffer, the messages found are added behind those before, nothing but the parser and the buffer changes,
  -- and the parser is left with no message where it had none. They are what the rounds of the loop have found, each the messages of
  -- its call of `parse` on the bytes left, in their order, and then its error; the loop goes on below ten messages, where no
  -- Logon is waited for. It is to go on reading only if no byte is
  -- left, and not to only with ten messages or, waiting for a Logon, with at most one. A panic comes only
  -- while the connection waits for a Logon, or where calls of `parse`, one behind the
  -- other, lead to one that panics or takes no byte of those left.
  pub parse_all-ParseEnds :
      (messages : List ConnectionReadMessage) (c : InternalConnection B T)
      → IsValid c.inbound_buffer
      → Ends (ParseEnds t messages c) (Panics t c) (parse_all t messages c)
  unfolding parse_all
  parse_all-ParseEnds messages c v =
      parse_bytes_lem (ByteBuffer.len c.inbound_buffer) messages c v
        (omega (arith, len-valid_bytes c.inbound_buffer v))
