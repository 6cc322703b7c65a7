-- ===== src/Session/Writing/Sent.antt =====
-- src/fixt/engine_thread.rs: which messages of the queue `write` has sent, and with which numbers.
use fix_rs.Prelude.{
  ℕ, ◌+◌, true, false, List, [], ◌∷◌, ◌++◌, if◌then◌else◌, ◌≡◌, refl, sym, ap, ◌∙◌, arith,
}
use mathlib.Core.Path.{subst}
use fix_rs.ByteBuffer
use fix_rs.ByteBuffer.{ByteBuffer}
use fix_rs.Version.{FixVersion, MessageVersion}
use fix_rs.Session.Fixt.{FixtMessage}
use fix_rs.Session.State.{InternalConnection, OutboundMessage}
use fix_rs.Session.Writing.Leaving.{Leaves, Leaves-trans, nothing_more}
use fix_rs.Session.Writing.Kept.{Header, header_of, Kept}

-- How many of the messages are given a number.
unfoldable pub count_auto : List OutboundMessage → ℕ
count_auto [] = 0
count_auto (m ∷ ms) = (if m.auto_msg_seq_num then 1 else 0) + count_auto ms

pub count_auto-append :
    (xs ys : List OutboundMessage) → count_auto (xs ++ ys) ≡ count_auto xs + count_auto ys
unfolding count_auto
count_auto-append [] ys = omega arith
count_auto-append (x ∷ xs) ys = omega (arith, count_auto-append xs ys)

pub count_nil : (n : ℕ) → n ≡ n + count_auto []
unfolding count_auto
count_nil n = omega arith

append_assoc : (xs ys zs : List OutboundMessage) → (xs ++ ys) ++ zs ≡ xs ++ (ys ++ zs)
append_assoc [] ys zs = refl
append_assoc (x ∷ xs) ys zs = ap (λ ms. x ∷ ms) (append_assoc xs ys zs)

module _ {B T : Type 0} where
  -- A front of the queue is gone.
  abbrev pub Suffix : InternalConnection B T → InternalConnection B T → Type 0
  Suffix c d = (sent : List OutboundMessage) × (c.outbound_messages ≡ sent ++ d.outbound_messages)

  -- Nothing is left in the queue or in the buffer.
  abbrev pub IsDrained : InternalConnection B T → Type 0
  IsDrained d = (d.outbound_messages ≡ []) × (ByteBuffer.is_empty d.outbound_buffer ≡ true)

module _ {B T : Type 0} (read : FixVersion → MessageVersion → FixtMessage → ByteBuffer → ByteBuffer)
    (now : ℕ) where
  -- What `write` is to do, from one state to another.
  abbrev pub LeavesTo : List ℕ → Header → InternalConnection B T → InternalConnection B T → Type 0
  LeavesTo counts h c d =
      Leaves read now h counts c.outbound_messages c.outbound_msg_seq_num c.outbound_buffer
        d.outbound_messages d.outbound_msg_seq_num d.outbound_buffer

  -- The messages of that front took one number each, where they take one, and were written into the buffer one after the
  -- other.
  pub record Written (counts : List ℕ) (c d : InternalConnection B T) : Type 0 where
    pub sent : List OutboundMessage
    pub front : c.outbound_messages ≡ sent ++ d.outbound_messages
    pub number : d.outbound_msg_seq_num ≡ c.outbound_msg_seq_num + count_auto sent
    pub header : header_of d ≡ header_of c
    pub leaves : LeavesTo counts (header_of c) c d

  pub of_kept :
      (counts : List ℕ) (c d e : InternalConnection B T)
      → Written counts c d
      → Kept d e
      → Written counts c e
  of_kept counts c d e w k = record {
    sent = w.sent;
    front = w.front ∙ ap (λ ms. w.sent ++ ms) (sym k.messages);
    number = k.number ∙ w.number;
    header = k.header ∙ w.header;
    leaves = rw (k.messages, k.number, k.buffer) w.leaves;
  }

  pub start : (c : InternalConnection B T) → Written [] c c
  start c = record {
    sent = [];
    front = refl;
    number = count_nil c.outbound_msg_seq_num;
    header = refl;
    leaves = nothing_more;
  }

  pub Written-trans :
      (counts counts' : List ℕ) (a b c : InternalConnection B T)
      → Written counts a b
      → Written counts' b c
      → Written (counts ++ counts') a c
  Written-trans counts counts' a b c v w = record {
    sent = v.sent ++ w.sent;
    front =
        v.front
        ∙ ap (λ ms. v.sent ++ ms) w.front
        ∙ sym (append_assoc v.sent w.sent c.outbound_messages);
    number =
        (let p = v.number in let q = w.number in omega (arith, count_auto-append v.sent w.sent));
    header = w.header ∙ v.header;
    leaves =
        Leaves-trans read now (header_of a) v.leaves
          (subst (λ h. LeavesTo counts' h b c) v.header w.leaves);
  }

  pub after_suffix :
      (counts : List ℕ) (a b c : InternalConnection B T)
      → Written counts a b
      → Suffix b c
      → Suffix a c
  after_suffix counts a b c v w = (
    v.sent ++ w.0,
    v.front ∙ ap (λ ms. v.sent ++ ms) w.1 ∙ sym (append_assoc v.sent w.0 c.outbound_messages),
  )

  pub to_suffix : (counts : List ℕ) (c d : InternalConnection B T) → Written counts c d → Suffix c d
  to_suffix counts c d w = (w.sent, w.front)

pub one_number :
    (m : OutboundMessage) → m.auto_msg_seq_num ≡ true → (n : ℕ) → n + 1 ≡ n + count_auto (m ∷ [])
unfolding count_auto
one_number m a n = rw a (omega arith)

pub no_number :
    (m : OutboundMessage) → m.auto_msg_seq_num ≡ false → (n : ℕ) → n ≡ n + count_auto (m ∷ [])
unfolding count_auto
no_number m a n = rw a (omega arith)
