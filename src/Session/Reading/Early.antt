-- ===== src/Session/Reading/Early.antt =====
-- src/fixt/engine_thread.rs: a proof on the assertion of `parse_bytes` before a Logon.
use fix_rs.Prelude.{
  ℕ, zero, suc, ◌≤◌, ◌<◌, ◌≡◌, refl, inl, inr, true, false, ◌==◌, leb, List, [], length, arith,
}
use fix_rs.ByteBuffer
use fix_rs.ByteBuffer.{ByteBuffer}
use fix_rs.ByteBuffer.Queue.{IsValid, write_lem, len-valid_bytes}
use fix_rs.Action.{done, failed, panicked, ◌>>=◌, ◌>>◌}
use fix_rs.Parser.State.{Traits}
use fix_rs.Parser.Run.{Result, parse}
use fix_rs.Parser.Stream.{parse-RunEnds}
use fix_rs.Session.Fixt.{FixtMessage}
use fix_rs.Session.State.{InternalConnection}
use fix_rs.Session.Reading.{
  ConnectionReadMessage, inbound_messages_buffer_len_max, found_by, collect, take_result,
  waits_for_logon, goes_on, parse_round, parse_bytes, parse_all,
}

module _ {B T : Type 0} where
  collect-done :
      (r : Result B FixtMessage) (c : InternalConnection B T)
      → IsValid c.inbound_buffer
      → 1 ≤ r.1.index
      → r.1.index ≤ length (ByteBuffer.valid_bytes c.inbound_buffer)
      → (d : InternalConnection B T) × (collect [] r c ≡ (done (found_by r), d))
        × (d.status ≡ c.status)
  unfolding collect ByteBuffer.write
  collect-done r c v h k = elim (write_lem c.inbound_buffer r.1.index v) [
    | inl (buffer, consumed, valid, drops) ↦ (
      record c { parser = record r.1.parser { messages = [] }; inbound_buffer = buffer },
      (let e : (r.1.index == 0) ≡ false = ground arith in rw (e, consumed) refl),
      refl,
    )
    | inr (refused, short) ↦ absurd (omega (arith, len-valid_bytes c.inbound_buffer v))
  ]

  take_result-done :
      (r : Result B FixtMessage) (c : InternalConnection B T)
      → IsValid c.inbound_buffer
      → 1 ≤ r.1.index
      → r.1.index ≤ length (ByteBuffer.valid_bytes c.inbound_buffer)
      → 2 ≤ length (found_by r)
      → (d : InternalConnection B T) × (take_result [] r c ≡ (done (found_by r), d))
        × (d.status ≡ c.status)
  unfolding take_result found_by
  take_result-done (done u, r) c v h k n = collect-done (done u, r) c v h k
  take_result-done (failed e, r) c v h k n = collect-done (failed e, r) c v h k
  take_result-done (panicked, r) c v h k n = absurd (omega arith)

  goes_on-panics :
      (found : List ConnectionReadMessage) (d : InternalConnection B T)
      → waits_for_logon d ≡ true
      → 2 ≤ length found
      → length found < inbound_messages_buffer_len_max
      → goes_on found d ≡ (panicked, d)
  unfolding goes_on ◌>>◌ ◌>>=◌
  goes_on-panics found d w n m =
      let below : leb inbound_messages_buffer_len_max (length found) ≡ false = ground arith in
      let above : leb (length found) 1 ≡ false = ground arith in rw (below, w, above) refl

  is_empty-false :
      (c : InternalConnection B T)
      → IsValid c.inbound_buffer
      → 1 ≤ length (ByteBuffer.valid_bytes c.inbound_buffer)
      → ByteBuffer.is_empty c.inbound_buffer ≡ false
  unfolding ByteBuffer.is_empty ByteBuffer.len
  is_empty-false c v h = ground (arith, len-valid_bytes c.inbound_buffer v)

  waits_by_status :
      (c d : InternalConnection B T)
      → d.status ≡ c.status
      → waits_for_logon c ≡ true
      → waits_for_logon d ≡ true
  unfolding waits_for_logon
  waits_by_status c d e w = rw e w

module _ {B T : Type 0} (t : Traits B FixtMessage) where
  panics_at :
      (fuel : ℕ) (c : InternalConnection B T)
      → 1 ≤ fuel
      → IsValid c.inbound_buffer
      → waits_for_logon c ≡ true
      → 1 ≤ (parse t (ByteBuffer.valid_bytes c.inbound_buffer) c.parser).1.index
      → 2 ≤ length (found_by (parse t (ByteBuffer.valid_bytes c.inbound_buffer) c.parser))
      → length (found_by (parse t (ByteBuffer.valid_bytes c.inbound_buffer) c.parser))
        < inbound_messages_buffer_len_max
      → (parse_bytes t fuel [] c).0 ≡ panicked
  unfolding parse_bytes parse_round ◌>>=◌
  panics_at zero c f v w h n m = absurd (omega arith)
  panics_at (suc fuel) c f v w h n m =
      let bytes = ByteBuffer.valid_bytes c.inbound_buffer in
      let r = parse t bytes c.parser in
      let within : r.1.index ≤ length bytes =
        omega (arith, (parse-RunEnds t bytes c.parser).extent) in
      let full : ByteBuffer.is_empty c.inbound_buffer ≡ false = is_empty-false c v (omega arith) in
      let (d, taken, same) = take_result-done r c v h within n in
      rw (full, taken, goes_on-panics (found_by r) d (waits_by_status c d same w) n m) refl

  -- While a connection waits for a Logon, a call of `parse` on the bytes of its valid buffer that takes a byte
  -- and finds two to nine messages and errors makes `parse_bytes` panic.
  pub parse_all-panics :
      (c : InternalConnection B T)
      → IsValid c.inbound_buffer
      → waits_for_logon c ≡ true
      → 1 ≤ (parse t (ByteBuffer.valid_bytes c.inbound_buffer) c.parser).1.index
      → 2 ≤ length (found_by (parse t (ByteBuffer.valid_bytes c.inbound_buffer) c.parser))
      → length (found_by (parse t (ByteBuffer.valid_bytes c.inbound_buffer) c.parser))
        < inbound_messages_buffer_len_max
      → (parse_all t [] c).0 ≡ panicked
  unfolding parse_all
  parse_all-panics c v w h n m =
      panics_at (ByteBuffer.len c.inbound_buffer) c
        (omega (
          arith,
          len-valid_bytes c.inbound_buffer v,
          (parse-RunEnds t (ByteBuffer.valid_bytes c.inbound_buffer) c.parser).extent,
        ))
        v w h n m
