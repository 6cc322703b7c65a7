-- ===== src/Session/Requests/Resending.antt =====
-- src/fixt/engine_thread.rs: proofs that messages sent again take no number.
use fix_rs.Prelude.{ℕ, ◌+◌, Option, none, some, List, [], ◌∷◌, ◌++◌, ◌≡◌, refl, ap, arith}
use fix_rs.Action.{if_let, pure, ◌>>=◌, ◌>>◌}
use fix_rs.Action.Ends.{Ends, Ends-and_then, Ends-weaken}
use fix_rs.ByteBuffer.{ByteBuffer}
use fix_rs.Version.{FixVersion, MessageVersion}
use fix_rs.Session.Fixt.{FixtMessage, resend_request}
use fix_rs.Session.State.{Timer, InternalConnection, from, push}
use fix_rs.Session.Writing.{SocketAnswer, write}
use fix_rs.Session.Writing.Sent.{count_auto, count_auto-append, Suffix, Written}
use fix_rs.Session.Writing.Order.{Stopped, write-Stopped}
use fix_rs.Session.Requests.{
  ResendResponse, message, gap, resent, resent_all, ask_again, queue_resent, on_resend_messages,
}

resent_all-count_auto : (rs : List ResendResponse) → count_auto (resent_all rs) ≡ 0
unfolding resent_all resent count_auto
resent_all-count_auto [] = refl
resent_all-count_auto (message v m ∷ rs) = omega (arith, resent_all-count_auto rs)
resent_all-count_auto (gap a b ∷ rs) = omega (arith, resent_all-count_auto rs)

-- Our own request takes a number, where one is outstanding.
unfoldable pub own_request : Option ℕ → ℕ
own_request none = 0
own_request (some _) = 1

count_request : (a b : ℕ) → count_auto (from (resend_request a b) ∷ []) ≡ 1
unfolding count_auto
count_request a b = refl

module _ {B T : Type 0} where
  -- The numbers that the messages in the queue will take are added.
  abbrev Queued : InternalConnection B T → Option ℕ → Unit {0} → InternalConnection B T → Type 0
  Queued c o _ s =
      (s.outbound_msg_seq_num ≡ c.outbound_msg_seq_num)
      × (count_auto s.outbound_messages ≡ count_auto c.outbound_messages + own_request o)

  ask_lem :
      (c d : InternalConnection B T) (o : Option ℕ) (n : ℕ)
      → Queued c none tt d
      → Ends (Queued c o) (λ _. Unit) (if_let o (λ _. push (from (resend_request n 0))) (pure tt) d)
  unfolding own_request
  ask_lem c d none n h = h
  ask_lem c d (some a) n h = (
    h.0,
    (let count = h.1 in
        omega (
          arith,
          count_auto-append d.outbound_messages (from (resend_request n 0) ∷ []),
          count_request n 0,
        )),
  )

  queue_lem :
      (rs : List ResendResponse) (c : InternalConnection B T)
      → Ends (Queued c c.inbound_resend_request_msg_seq_num) (λ _. Unit) (queue_resent rs c)
  unfolding queue_resent ask_again own_request ◌>>◌ ◌>>=◌
  queue_lem rs c =
      ask_lem c (record c { outbound_messages = c.outbound_messages ++ resent_all rs })
        c.inbound_resend_request_msg_seq_num c.inbound_msg_seq_num
        (
          refl,
          omega (
            arith,
            count_auto-append c.outbound_messages (resent_all rs),
            resent_all-count_auto rs,
          ),
        )

  after_write :
      (read : FixVersion → MessageVersion → FixtMessage → ByteBuffer → ByteBuffer) (now : ℕ)
      (counts : List ℕ) (s d : InternalConnection B T)
      → Written read now counts s d
      → d.outbound_msg_seq_num + count_auto d.outbound_messages
        ≡ s.outbound_msg_seq_num + count_auto s.outbound_messages
  after_write read now counts s d w =
      let number = w.number in
      omega (arith, ap count_auto w.front, count_auto-append w.sent d.outbound_messages)

module _ {B T : Type 0} (timer : Timer T)
    (read : FixVersion → MessageVersion → FixtMessage → ByteBuffer → ByteBuffer) (now : ℕ) where
  -- Messages that are sent again take no number: when they have been queued and `write` is done, the
  -- next number and those that the queue still has to take add up to what they were before, and one
  -- more for our own request where it is outstanding.
  pub on_resend_messages-Queued :
      (answers : List SocketAnswer) (rs : List ResendResponse) (c : InternalConnection B T)
      → Ends
          (λ _ d.
            d.outbound_msg_seq_num + count_auto d.outbound_messages
            ≡ c.outbound_msg_seq_num
              + count_auto c.outbound_messages
              + own_request c.inbound_resend_request_msg_seq_num)
          (λ _. Unit {0})
          (on_resend_messages timer read now answers rs c)
  unfolding on_resend_messages ◌>>◌ ◌>>=◌
  on_resend_messages-Queued answers rs c =
      Ends-and_then (Queued c c.inbound_resend_request_msg_seq_num) _ (λ _. Unit)
        (queue_resent rs c) _ (queue_lem rs c)
        (λ _ s q.
          Ends-weaken (λ _ d. Stopped timer read now answers s d) _ (Suffix s) (λ _. Unit)
            (write timer read now answers s) (write-Stopped timer read now answers s)
            (λ _ d k.
              let sum = after_write read now k.counts s d k.written in
              let number = q.0 in let count = q.1 in omega arith)
            (λ _ _. tt))
