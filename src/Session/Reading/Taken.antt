-- ===== src/Session/Reading/Taken.antt =====
-- src/fixt/engine_thread.rs: what a round of `parse_bytes` takes, and when its loop goes on.
use mathlib.Core.List.{append-nil}
use fix_rs.Prelude.{
  ℕ, suc, ◌+◌, ◌≤◌, ◌<◌, ◌≡◌, refl, sym, ap, ◌∙◌, ◌⊎◌, inl, inr, Bool, true, false, ◌==◌, leb, List,
  [], ◌∷◌, ◌++◌, map, Bytes, length, drop, length-drop, arith, Bool-cases,
}
use fix_rs.ByteBuffer
use fix_rs.ByteBuffer.{ByteBuffer}
use fix_rs.ByteBuffer.Queue.{IsValid, write_lem, len-valid_bytes, drop-drop}
use fix_rs.Action.{done, failed, panicked, ◌>>=◌, ◌>>◌}
use fix_rs.Action.Ends.{Ends}
use fix_rs.Parser.Run.{Result}
use fix_rs.Parser.Scan.{Cursor}
use fix_rs.Parser.State.{ParseError}
use fix_rs.Parser.Messages.{Extends, Extends-trans}
use fix_rs.Session.Fixt.{FixtMessage}
use fix_rs.Session.State.{InternalConnection}
use fix_rs.Session.Reading.{
  ConnectionReadMessage, message, parse_error, inbound_messages_buffer_len_max, found_by, collect,
  take_result, waits_for_logon, goes_on,
}

module _ {B : Type 0} where
  -- A call of `parse` that took no byte, or panicked.
  abbrev pub Stuck : Result B FixtMessage → Type 0
  Stuck r = (r.1.index ≡ 0) ⊎ (r.0 ≡ panicked)

  -- What a call of `parse` has found: its messages, in their order, and then its error.
  pub data Finds : Result B FixtMessage → List ConnectionReadMessage → Type 0 where
    no_error :
        {u : Unit {0}} {r : Cursor B FixtMessage}
        → Finds (done u, r) (map message r.parser.messages)
    one_error :
        {e : ParseError FixtMessage} {r : Cursor B FixtMessage}
        → Finds (failed e, r) (map message r.parser.messages ++ (parse_error e ∷ []))

module _ {B T : Type 0} where
  -- Only the parser and the buffer differ.
  abbrev pub Untouched : InternalConnection B T → InternalConnection B T → Type 0
  Untouched c d = d ≡ record c { inbound_buffer = d.inbound_buffer; parser = d.parser }

  pub Untouched-trans :
      (c d e : InternalConnection B T) → Untouched c d → Untouched d e → Untouched c e
  Untouched-trans c d e h k =
      k
      ∙ ap
          (λ (x : InternalConnection B T). record x {
            inbound_buffer = e.inbound_buffer;
            parser = e.parser;
          })
          h

  abbrev pub left : InternalConnection B T → Bytes
  left c = ByteBuffer.valid_bytes c.inbound_buffer

  -- Where `least` bytes or more were taken from the front of the buffer.
  pub record Taken (least : ℕ) (messages found : List ConnectionReadMessage)
      (c d : InternalConnection B T) : Type 0 where
    pub valid : IsValid d.inbound_buffer
    pub count : ℕ
    pub at_least : least ≤ count
    pub in_order : left d ≡ drop count (left c)
    pub added : Extends messages found
    pub emptied : c.parser.messages ≡ [] → d.parser.messages ≡ []
    pub untouched : Untouched c d

  abbrev pub StuckAt :
      Result B FixtMessage → InternalConnection B T → InternalConnection B T → Type 0
  StuckAt r c d = Untouched c d × Stuck r

  -- The state behind a round: the bytes counted are gone, and the parser is as `parse` leaves it, less its messages.
  abbrev pub After : Result B FixtMessage → InternalConnection B T → InternalConnection B T → Type 0
  After r c d =
      (left d ≡ drop r.1.index (left c)) × (d.parser ≡ record r.1.parser { messages = [] })

  abbrev pub Round :
      Result B FixtMessage
      → List ConnectionReadMessage
      → InternalConnection B T
      → List ConnectionReadMessage
      → InternalConnection B T
      → Type 0
  Round r messages c found d =
      Taken 1 messages found c d
      × After r c d
      × ((new : List ConnectionReadMessage) × Finds r new × (found ≡ messages ++ new))

  -- What is left when the bytes counted have been consumed.
  took :
      (messages : List ConnectionReadMessage) (r : Result B FixtMessage)
      (c : InternalConnection B T) (buffer : ByteBuffer)
      → IsValid buffer
      → 1 ≤ r.1.index
      → ByteBuffer.valid_bytes buffer ≡ drop r.1.index (left c)
      → Taken 1 messages
          (messages ++ found_by r)
          c
          (record c { parser = record r.1.parser { messages = [] }; inbound_buffer = buffer })
  took messages r c buffer v h e = record {
    valid = v;
    count = r.1.index;
    at_least = h;
    in_order = e;
    added = (found_by r, refl);
    emptied = λ _. refl;
    untouched = refl;
  }

  pub collect_lem :
      (messages : List ConnectionReadMessage) (r : Result B FixtMessage)
      (c : InternalConnection B T)
      → IsValid c.inbound_buffer
      → r.1.index ≤ length (left c)
      → Finds r (found_by r)
      → Ends (Round r messages c) (StuckAt r c) (collect messages r c)
  unfolding collect ByteBuffer.write
  collect_lem messages r c v h f = elim (Bool-cases (r.1.index == 0)) [
    | inl e ↦ rw e (refl, inl (ground arith))
    | inr e ↦ elim (write_lem c.inbound_buffer r.1.index v) [
      | inl (buffer, consumed, valid, drops) ↦
          rw (e, consumed)
            (
              took messages r c buffer valid (ground arith) drops,
              (drops, refl),
              (found_by r, f, refl),
            )
      | inr (refused, short) ↦ absurd (omega (arith, len-valid_bytes c.inbound_buffer v))
    ]
  ]

  pub take_result_lem :
      (messages : List ConnectionReadMessage) (r : Result B FixtMessage)
      (c : InternalConnection B T)
      → IsValid c.inbound_buffer
      → r.1.index ≤ length (left c)
      → Ends (Round r messages c) (StuckAt r c) (take_result messages r c)
  unfolding take_result found_by
  take_result_lem messages (done u, r) c v h = collect_lem messages (done u, r) c v h no_error
  take_result_lem messages (failed e, r) c v h = collect_lem messages (failed e, r) c v h one_error
  take_result_lem messages (panicked, r) c v h = (refl, inr refl)

  -- What the test of the loop answers, on the state as it was.
  abbrev pub Stops : List ConnectionReadMessage → InternalConnection B T → Bool → Type 0
  Stops found c more =
      (more ≡ false)
      → (inbound_messages_buffer_len_max ≤ length found)
        ⊎ ((waits_for_logon c ≡ true) × (length found ≤ 1))

  pub goes_on_lem :
      (found : List ConnectionReadMessage) (c : InternalConnection B T)
      → Ends
          (λ more d.
            (d ≡ c)
            × Stops found c more
            × ((more ≡ true)
                → (length found < inbound_messages_buffer_len_max) × (waits_for_logon c ≡ false)))
          (λ d. (d ≡ c) × (waits_for_logon c ≡ true))
          (goes_on found c)
  unfolding goes_on ◌>>◌ ◌>>=◌
  goes_on_lem found c = elim (Bool-cases (leb inbound_messages_buffer_len_max (length found))) [
    | inl e ↦ rw e (refl, (λ _. inl (ground arith)), (λ h. cc))
    | inr e ↦ elim (Bool-cases (waits_for_logon c)) [
      | inl w ↦ elim (Bool-cases (leb (length found) 1)) [
        | inl o ↦ rw (e, w, o) (refl, (λ _. inr (refl, ground arith)), (λ h. cc))
        | inr o ↦ rw (e, w, o) (refl, refl)
      ]
      | inr w ↦ rw (e, w) (refl, (λ h. cc), (λ _. (ground arith, refl)))
    ]
  ]

  pub nothing-Taken :
      (messages : List ConnectionReadMessage) (c : InternalConnection B T)
      → IsValid c.inbound_buffer
      → Taken 0 messages messages c c
  nothing-Taken messages c v = record {
    valid = v;
    count = 0;
    at_least = omega arith;
    in_order = refl;
    added = ([], sym (append-nil messages));
    emptied = λ e. e;
    untouched = refl;
  }

  pub Taken-trans :
      (messages found last : List ConnectionReadMessage) (c d e : InternalConnection B T)
      → Taken 1 messages found c d
      → Taken 0 found last d e
      → Taken 0 messages last c e
  Taken-trans messages found last c d e h k = record {
    valid = k.valid;
    count = h.count + k.count;
    at_least = omega arith;
    in_order = k.in_order ∙ ap (drop k.count) h.in_order ∙ drop-drop h.count k.count (left c);
    added = Extends-trans messages found last h.added k.added;
    emptied = λ p. k.emptied (h.emptied p);
    untouched = Untouched-trans c d e h.untouched k.untouched;
  }

  pub weaker :
      (messages found : List ConnectionReadMessage) (c d : InternalConnection B T)
      → Taken 1 messages found c d
      → Taken 0 messages found c d
  weaker messages found c d h = record {
    valid = h.valid;
    count = h.count;
    at_least = omega arith;
    in_order = h.in_order;
    added = h.added;
    emptied = h.emptied;
    untouched = h.untouched;
  }

  pub waits_same :
      (c d : InternalConnection B T) → Untouched c d → waits_for_logon d ≡ waits_for_logon c
  unfolding waits_for_logon
  waits_same c d h = ap waits_for_logon h

  pub fewer :
      (messages found : List ConnectionReadMessage) (c d : InternalConnection B T) (fuel : ℕ)
      → length (left c) ≤ suc fuel
      → Taken 1 messages found c d
      → length (left d) ≤ fuel
  fewer messages found c d fuel h k =
      let some_bytes = k.at_least in
      omega (arith, ap length k.in_order, length-drop k.count (left c))
