-- ===== src/Session/Writing/Leaving.antt =====
-- src/fixt/engine_thread.rs: what `write` is to do to the queue, the number of the next message and the buffer, with the
-- time and what `Message::read` does to the buffer as parameters.
use fix_rs.Prelude.{ℕ, ◌+◌, true, false, some, List, [], ◌∷◌, ◌++◌, ◌≡◌}
use fix_rs.ByteBuffer
use fix_rs.ByteBuffer.{ByteBuffer}
use fix_rs.Version.{FixVersion, MessageVersion}
use fix_rs.Action.{if_let}
use fix_rs.Session.Fixt.{FixtMessage}
use fix_rs.Session.State.{OutboundMessage}
use fix_rs.Session.Writing.Kept.{Header}

-- The version in which a message is written.
abbrev pub version_of : Header → OutboundMessage → MessageVersion
version_of h m = if_let m.message_version (λ v. v) h.default_message_version

-- A message with the header that it leaves with.
abbrev pub with_header : Header → ℕ → ℕ → FixtMessage → FixtMessage
with_header h now number m = record m {
  msg_seq_num = number;
  sender_comp_id = h.sender_comp_id;
  target_comp_id = h.target_comp_id;
  sending_time = now;
}

module _ (read : FixVersion → MessageVersion → FixtMessage → ByteBuffer → ByteBuffer) (now : ℕ)
    (h : Header) where
  -- From a queue, the next number and a buffer to others: as many bytes as the list says, each number in its turn, are taken from the front of the buffer, and when it is
  -- empty the first message of the queue is written into it, with the next number if it takes one, else with its own.
  pub data Leaves
      : List ℕ
        → List OutboundMessage
        → ℕ
        → ByteBuffer
        → List OutboundMessage
        → ℕ
        → ByteBuffer
        → Type 0 where
    nothing_more : {ms : List OutboundMessage} {n : ℕ} {b : ByteBuffer} → Leaves [] ms n b ms n b
    bytes_taken :
        {ms rest : List OutboundMessage} {n n' : ℕ} {b b' b'' : ByteBuffer} {counts : List ℕ}
        (count : ℕ)
        → ByteBuffer.write (some count) b ≡ some b'
        → Leaves counts ms n b' rest n' b''
        → Leaves (count ∷ counts) ms n b rest n' b''
    numbered :
        {m : OutboundMessage} {ms rest : List OutboundMessage} {n n' : ℕ} {b b' : ByteBuffer}
        {counts : List ℕ}
        → m.auto_msg_seq_num ≡ true
        → ByteBuffer.is_empty b ≡ true
        → Leaves counts ms
            (n + 1)
            (read h.fix_version (version_of h m) (with_header h now n m.message) b)
            rest
            n'
            b'
        → Leaves counts (m ∷ ms) n b rest n' b'
    with_own_number :
        {m : OutboundMessage} {ms rest : List OutboundMessage} {n n' : ℕ} {b b' : ByteBuffer}
        {counts : List ℕ}
        → m.auto_msg_seq_num ≡ false
        → ByteBuffer.is_empty b ≡ true
        → Leaves counts ms n
            (read h.fix_version
              (version_of h m)
              (with_header h now m.message.msg_seq_num m.message)
              b)
            rest
            n'
            b'
        → Leaves counts (m ∷ ms) n b rest n' b'

  pub Leaves-trans :
      {ms rest last : List OutboundMessage} {n n' n'' : ℕ} {b b' b'' : ByteBuffer}
      {counts counts' : List ℕ}
      → Leaves counts ms n b rest n' b'
      → Leaves counts' rest n' b' last n'' b''
      → Leaves (counts ++ counts') ms n b last n'' b''
  Leaves-trans nothing_more k = k
  Leaves-trans (bytes_taken count e l) k = bytes_taken count e (Leaves-trans l k)
  Leaves-trans (numbered a e l) k = numbered a e (Leaves-trans l k)
  Leaves-trans (with_own_number a e l) k = with_own_number a e (Leaves-trans l k)
