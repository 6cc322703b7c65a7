-- ===== src/Session/Writing/Order.antt =====
-- src/fixt/engine_thread.rs: proofs that messages leave in their order, each with the next number.
use fix_rs.Prelude.{
  ℕ, Bool, true, false, some, List, [], ◌∷◌, ◌++◌, map, ◌==◌, if◌then◌else◌, ◌≡◌, refl, ap, ◌∙◌,
  ◌⊎◌, inl, inr, Bool-cases,
}
use mathlib.Core.Bool.{false≢true}
use fix_rs.Decimal.{max_u64}
use fix_rs.ByteBuffer
use fix_rs.ByteBuffer.{ByteBuffer}
use fix_rs.Version.{FixVersion, MessageVersion}
use fix_rs.Action.{pure, ◌>>=◌, ◌>>◌}
use fix_rs.Action.Ends.{Ends, Ends-and_then, Ends-weaken}
use fix_rs.Session.Fixt.{FixtMessage, setup_fixt_session_header}
use fix_rs.Session.State.{
  Timer, InternalConnection, ConnectionAction, OutboundMessage, modify,
  increment_outbound_msg_seq_num, reset_outbound_timeout, begin_blocking_inbound,
}
use fix_rs.Session.Inbound.Checks.{Ends-if, Ends-if_let}
use fix_rs.Session.Writing.{
  SocketAnswer, wrote, would_block, write_error, on_drained, take_number, serialize, load,
  fill_from, fill, advance_buffer, block, write_loop, write,
}
use fix_rs.Session.Writing.Sent.{
  count_nil, Suffix, IsDrained, Written, of_kept, start, Written-trans, after_suffix, to_suffix,
  one_number, no_number,
}
use fix_rs.Session.Writing.Leaving.{nothing_more, bytes_taken, numbered, with_own_number}
use fix_rs.Session.Writing.Kept.{
  Kept, Quiet, reset_outbound-Quiet, end_blocking-Kept, begin_blocking-Kept, on_drained-Kept,
}

-- The socket has no answer left, or answers that it would block.
abbrev pub Blocks : List SocketAnswer → Type 0
Blocks [] = Unit
Blocks (would_block ∷ _) = Unit
Blocks (wrote _ ∷ _) = ⊥
Blocks (write_error _ ∷ _) = ⊥

module _ {B T : Type 0} (timer : Timer T)
    (read : FixVersion → MessageVersion → FixtMessage → ByteBuffer → ByteBuffer) (now : ℕ) where
  abbrev Filled : InternalConnection B T → Bool → InternalConnection B T → Type 0
  Filled c more d = Written read now [] c d × ((more ≡ true) ⊎ IsDrained d)

  load_lem :
      (m : OutboundMessage) (rest : List OutboundMessage) (c : InternalConnection B T)
      → c.outbound_messages ≡ m ∷ rest
      → ByteBuffer.is_empty c.outbound_buffer ≡ true
      → Ends (Filled c) (Suffix c) (
          (modify (λ d. record d { outbound_messages = rest })
              >> load timer read now m
              >> pure true)
            c)
  unfolding load take_number serialize setup_fixt_session_header increment_outbound_msg_seq_num ◌>>◌
      ◌>>=◌
  load_lem m rest c e empty = elim (Bool-cases m.auto_msg_seq_num) [
    | inl a ↦ rw a (elim (Bool-cases (c.outbound_msg_seq_num == max_u64)) [
      | inl k ↦ rw k (m ∷ [], e)
      | inr k ↦ rw k (
        (record {
          sent = m ∷ [];
          front = e;
          number = one_number m a c.outbound_msg_seq_num;
          header = refl;
          leaves = rw e (numbered a empty nothing_more);
        }),
        inl refl,
      )
    ])
    | inr a ↦ rw a (
      (record {
        sent = m ∷ [];
        front = e;
        number = no_number m a c.outbound_msg_seq_num;
        header = refl;
        leaves = rw e (with_own_number a empty nothing_more);
      }),
      inl refl,
    )
  ]

  drained_lem :
      (c : InternalConnection B T)
      → c.outbound_messages ≡ []
      → ByteBuffer.is_empty c.outbound_buffer ≡ true
      → Ends (Filled c) (Suffix c) ((on_drained timer read now >> pure false) c)
  unfolding ◌>>◌ ◌>>=◌
  drained_lem c e b =
      Ends-and_then (λ _ d. Kept c d) (Filled c) (Suffix c) (on_drained timer read now c) _
        (Ends-weaken (λ _ d. Kept c d) (λ _ d. Kept c d) (Kept c) (Suffix c) _
          (on_drained-Kept timer read now c) (λ _ _ k. k)
          (λ d k. to_suffix read now [] c d (of_kept read now [] c c d (start read now c) k)))
        (λ _ d k. (
          of_kept read now [] c c d (start read now c) k,
          inr (k.messages ∙ e, ap ByteBuffer.is_empty k.buffer ∙ b),
        ))

  fill_from_lem :
      (ms : List OutboundMessage) (c : InternalConnection B T)
      → c.outbound_messages ≡ ms
      → ByteBuffer.is_empty c.outbound_buffer ≡ true
      → Ends (Filled c) (Suffix c) (fill_from timer read now ms c)
  unfolding fill_from
  fill_from_lem [] c e b = drained_lem c e b
  fill_from_lem (m ∷ rest) c e b = load_lem m rest c e b

  fill_lem : (c : InternalConnection B T) → Ends (Filled c) (Suffix c) (fill timer read now c)
  unfolding fill
  fill_lem c =
      Ends-if (Filled c) (Suffix c) (ByteBuffer.is_empty c.outbound_buffer) _ _
        (λ b. fill_from_lem c.outbound_messages c refl b) (λ _. (start read now c, inl refl))

  -- The loop stops when nothing is left, or when the socket blocks.
  pub record Stopped (answers : List SocketAnswer) (c d : InternalConnection B T) : Type 0 where
    pub counts : List ℕ
    pub unused : List SocketAnswer
    pub answered : answers ≡ map wrote counts ++ unused
    pub written : Written read now counts c d
    pub ended : IsDrained d ⊎ ((d.inbound_is_blocked ≡ true) × Blocks unused)

  -- A round, from what follows it when there is something to send.
  round_lem :
      (answers : List SocketAnswer) (sent : Bool) (f : ConnectionAction B T Bool)
      (c : InternalConnection B T)
      → ((d : InternalConnection B T) → Ends (λ _ e. Stopped answers d e) (Suffix d) (f d))
      → Ends
          (λ _ e. Stopped answers c e)
          (Suffix c)
          ((fill timer read now >>= λ more. if more then f else pure sent) c)
  unfolding ◌>>=◌
  round_lem answers sent f c h =
      Ends-and_then (Filled c) (λ _ e. Stopped answers c e) (Suffix c) (fill timer read now c) _
        (fill_lem c) go
    where
      go :
          (more : Bool) (d : InternalConnection B T)
          → Filled c more d
          → Ends (λ _ e. Stopped answers c e) (Suffix c) ((if more then f else pure sent) d)
      go true d k =
          Ends-weaken (λ _ e. Stopped answers d e) (λ _ e. Stopped answers c e) (Suffix d)
            (Suffix c) (f d) (h d)
            (λ _ e q. record {
              counts = q.counts;
              unused = q.unused;
              answered = q.answered;
              written = Written-trans read now [] q.counts c d e k.0 q.written;
              ended = q.ended;
            })
            (λ e q. after_suffix read now [] c d e k.0 q)
      go false d (w, inl e) = absurd (false≢true e)
      go false d (w, inr q) = record {
        counts = [];
        unused = answers;
        answered = refl;
        written = w;
        ended = inl q;
      }

  block_lem :
      (answers : List SocketAnswer) (sent : Bool) (c : InternalConnection B T)
      → Blocks answers
      → Ends (λ _ e. Stopped answers c e) (Suffix c) (block timer read now sent c)
  unfolding block ◌>>◌ ◌>>=◌
  block_lem answers sent c blocks =
      Ends-and_then (λ _ e. Kept c e × (e.inbound_is_blocked ≡ true)) (λ _ e. Stopped answers c e)
        (Suffix c) (begin_blocking_inbound timer c) _
        (Ends-weaken (λ _ e. Kept c e × (e.inbound_is_blocked ≡ true))
          (λ _ e. Kept c e × (e.inbound_is_blocked ≡ true)) (Kept c) (Suffix c) _
          (begin_blocking-Kept timer c) (λ _ _ k. k)
          (λ d k. to_suffix read now [] c d (of_kept read now [] c c d (start read now c) k)))
        (λ _ d k. record {
          counts = [];
          unused = answers;
          answered = refl;
          written = of_kept read now [] c c d (start read now c) k.0;
          ended = inr (k.1, blocks);
        })

  advance_lem :
      (n : ℕ) (c : InternalConnection B T)
      → Ends (λ _ d. Written read now (n ∷ []) c d) (Suffix c) (advance_buffer timer read now n c)
  unfolding advance_buffer
  advance_lem n c =
      Ends-if_let (λ _ d. Written read now (n ∷ []) c d) (Suffix c)
        (ByteBuffer.write (some n) c.outbound_buffer) _ _ c
        (λ buffer e.
          of_kept read now (n ∷ []) c (record c { outbound_buffer = buffer }) _
            (record {
              sent = [];
              front = refl;
              number = count_nil c.outbound_msg_seq_num;
              header = refl;
              leaves = bytes_taken n e nothing_more;
            })
            (end_blocking-Kept timer (record c { outbound_buffer = buffer })))
        (λ _. ([], refl))

  wrote_lem :
      (n : ℕ) (answers : List SocketAnswer) (rest : ConnectionAction B T Bool)
      (d : InternalConnection B T)
      → ((e : InternalConnection B T) → Ends (λ _ x. Stopped answers e x) (Suffix e) (rest e))
      → Ends
          (λ _ e. Stopped (wrote n ∷ answers) d e)
          (Suffix d)
          ((advance_buffer timer read now n >> rest) d)
  unfolding ◌>>◌ ◌>>=◌
  wrote_lem n answers rest d h =
      Ends-and_then (λ _ e. Written read now (n ∷ []) d e) (λ _ e. Stopped (wrote n ∷ answers) d e)
        (Suffix d) (advance_buffer timer read now n d) _ (advance_lem n d)
        (λ _ e w.
          Ends-weaken (λ _ x. Stopped answers e x) (λ _ x. Stopped (wrote n ∷ answers) d x)
            (Suffix e) (Suffix d) (rest e) (h e)
            (λ _ x q. record {
              counts = n ∷ q.counts;
              unused = q.unused;
              answered = ap (λ l. wrote n ∷ l) q.answered;
              written = Written-trans read now (n ∷ []) q.counts d e x w q.written;
              ended = q.ended;
            })
            (λ x q. after_suffix read now (n ∷ []) d e x w q))

  loop_lem :
      (answers : List SocketAnswer) (sent : Bool) (c : InternalConnection B T)
      → Ends (λ _ e. Stopped answers c e) (Suffix c) (write_loop timer read now answers sent c)
  unfolding write_loop
  loop_lem [] sent c = round_lem [] sent _ c (λ d. block_lem [] sent d tt)
  loop_lem (would_block ∷ answers) sent c =
      round_lem (would_block ∷ answers) sent _ c (λ d. block_lem (would_block ∷ answers) sent d tt)
  loop_lem (write_error e ∷ answers) sent c =
      round_lem (write_error e ∷ answers) sent _ c (λ d. ([], refl))
  loop_lem (wrote n ∷ answers) sent c =
      round_lem (wrote n ∷ answers) sent
        (advance_buffer timer read now n >> write_loop timer read now answers true) c
        (λ d. wrote_lem n answers _ d (λ e. loop_lem answers true e))

  still_stopped :
      (unused : List SocketAnswer) (d e : InternalConnection B T)
      → Quiet d e
      → IsDrained d ⊎ ((d.inbound_is_blocked ≡ true) × Blocks unused)
      → IsDrained e ⊎ ((e.inbound_is_blocked ≡ true) × Blocks unused)
  still_stopped unused d e k (inl q) =
      inl (k.0.messages ∙ q.0, ap ByteBuffer.is_empty k.0.buffer ∙ q.1)
  still_stopped unused d e k (inr q) = inr (k.1 ∙ q.0, q.1)

  -- When `write` is done, the messages that left are a front of the queue. In its order, each has been written by `read` into
  -- the buffer, when that was empty, with the connection's identifiers, the time and the next number, or with its own number
  -- where it takes none. Between them as many bytes as the socket said it took, each time, have been taken from the front
  -- of the buffer, and nothing else has changed it. Either nothing is left, in the queue or the buffer, or the socket has
  -- blocked and reading is blocked with it. On every other path too only a front of the queue is gone.
  pub write-Stopped :
      (answers : List SocketAnswer) (c : InternalConnection B T)
      → Ends (λ _ d. Stopped answers c d) (Suffix c) (write timer read now answers c)
  unfolding write ◌>>=◌
  write-Stopped answers c =
      Ends-and_then (λ _ d. Stopped answers c d) (λ _ d. Stopped answers c d) (Suffix c)
        (write_loop timer read now answers false c) _ (loop_lem answers false c) finish
    where
      reset_lem :
          (d : InternalConnection B T)
          → Stopped answers c d
          → Ends (λ _ e. Stopped answers c e) (Suffix c) (reset_outbound_timeout timer d)
      reset_lem d q =
          Ends-weaken (λ _ e. Quiet d e) (λ _ e. Stopped answers c e) (Quiet d) (Suffix c) _
            (reset_outbound-Quiet timer d)
            (λ _ e k. record {
              counts = q.counts;
              unused = q.unused;
              answered = q.answered;
              written = of_kept read now q.counts c d e q.written k.0;
              ended = still_stopped q.unused d e k q.ended;
            })
            (λ e k. to_suffix read now q.counts c e (of_kept read now q.counts c d e q.written k.0))

      finish :
          (sent : Bool) (d : InternalConnection B T)
          → Stopped answers c d
          → Ends
              (λ _ e. Stopped answers c e)
              (Suffix c)
              ((if sent then reset_outbound_timeout timer else pure tt) d)
      finish true d q = reset_lem d q
      finish false d q = q
