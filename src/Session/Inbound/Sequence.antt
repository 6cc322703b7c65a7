-- ===== src/Session/Inbound/Sequence.antt =====
-- src/fixt/engine_thread.rs: proofs on the part of `on_network_message` that compares MsgSeqNum.
use fix_rs.Prelude.{
  ℕ, ◌≤◌, ◌<◌, Bool, true, ◌&&◌, Option, none, some, ◌==◌, ltb, leb, Bool-cases, ◌≡◌, refl, ◌⊎◌,
  inl, inr, arith,
}
use fix_rs.Decimal.{max_u64}
use fix_rs.Action.{Outcome, pure, fail, ◌>>=◌, ◌>>◌}
use fix_rs.Action.Ends.{Ends, Ends-and_then, Ends-weaken}
use fix_rs.Session.Fixt.{FixtMessage}
use fix_rs.Session.State.{
  Timer, InternalConnection, Exit, return_now, push, send, increment_inbound_msg_seq_num,
  sequence_reset_reset_has_no_effect, sequence_reset_reset_in_the_past,
}
use fix_rs.Session.Resend.{
  on_greater_than_expected_msg_seq_num, on_less_than_expected_msg_seq_num, on_expected_msg_seq_num,
  reject_for_sending_time_accuracy,
}
use fix_rs.Session.Resend.Calm.{greater-IsCalm, less-IsCalm, in_order-IsCalm, reject_time-IsCalm}
use fix_rs.Session.Inbound.{
  on_sequence_reset_reset, reset_reject, passed_on, close_gap, too_high, as_expected, in_sequence,
}
use fix_rs.Session.Calm.{
  IsCalm, Calm, CalmTo, calm, Calm-refl, Calm-trans, stay, step, after, choose, bind, seq, calm_if,
  IsCalm-if_let, send-IsCalm, clear-IsCalm, is_delivery,
}
use fix_rs.Session.Inbound.Checks.{to_ends, never, Ends-if, Ends-choose, Ends-never}

module _ {B T : Type 0} (timer : Timer T) where
  pub reset-IsCalm : (n new : ℕ) → IsCalm {B = B} (on_sequence_reset_reset timer n new)
  unfolding on_sequence_reset_reset is_delivery
  reset-IsCalm n new c = elim (Bool-cases (ltb c.inbound_msg_seq_num new)) [
    | inl e ↦ rw e (
        let d = record c { inbound_msg_seq_num = new } in
        after c d _ (calm c d refl (ground arith)) (clear-IsCalm timer d))
    | inr e ↦ rw e (
        calm_if c (new == c.inbound_msg_seq_num) _ _
          (send-IsCalm (sequence_reset_reset_has_no_effect c.token) refl c)
          (seq (push (reset_reject n new)) (send (sequence_reset_reset_in_the_past c.token))
            (λ d. step _ d _ refl refl) (send-IsCalm _ refl) c))
  ]

  pub passed_on-IsCalm : (o : Option FixtMessage) → IsCalm {B = B} {T = T} (passed_on timer o)
  unfolding passed_on
  passed_on-IsCalm none = stay _
  passed_on-IsCalm (some m) = stay _

  pub close-IsCalm : IsCalm {B = B} (close_gap timer)
  unfolding close_gap
  close-IsCalm c =
      IsCalm-if_let c.inbound_resend_request_msg_seq_num _ _
        (λ n. choose (leb n c.inbound_msg_seq_num) _ _ (clear-IsCalm timer) (stay _)) (stay _) c

  -- The expected number has moved past that of the message.
  abbrev Moved : InternalConnection B T → {A : Type 0} → A → InternalConnection B T → Type 0
  Moved c _ s = Calm c s × (c.inbound_msg_seq_num < s.inbound_msg_seq_num)

  Moved-on :
      {A : Type 0} (c s : InternalConnection B T) (r : Outcome Exit A × InternalConnection B T)
      → Calm c s
      → c.inbound_msg_seq_num < s.inbound_msg_seq_num
      → CalmTo s r
      → Ends (λ a d. Moved c a d) (Calm c) r
  Moved-on c s r h k l =
      Ends-weaken (λ _ d. Calm s d) (λ a d. Moved c a d) (Calm s) (Calm c) r (to_ends s r l)
        (λ _ d q. (Calm-trans c s d h q, let not_lowered = q.not_lowered in omega arith))
        (λ d q. Calm-trans c s d h q)

  increment-Moved :
      (c : InternalConnection B T)
      → Ends (λ a d. Moved c a d) (Calm c) (increment_inbound_msg_seq_num c)
  unfolding increment_inbound_msg_seq_num
  increment-Moved c =
      Ends-if (λ a d. Moved c a d) (Calm c) (c.inbound_msg_seq_num == max_u64) _ _
        (λ _. Calm-refl c) (λ _. (calm c _ refl (omega arith), omega arith))

  expected_lem :
      (m : FixtMessage) (n : ℕ) (c : InternalConnection B T)
      → Ends (λ a d. Moved c a d) (Calm c) (on_expected_msg_seq_num timer m n c)
  unfolding on_expected_msg_seq_num ◌>>◌ ◌>>=◌
  expected_lem m n c =
      Ends-and_then (λ a d. Moved c a d) (λ a d. Moved c a d) (Calm c)
        (increment_inbound_msg_seq_num c) _ (increment-Moved c)
        (λ _ s k. Moved-on c s _ k.0 k.1 (
          choose (m.poss_dup_flag && ltb m.sending_time m.orig_sending_time) _ _
            (seq (reject_for_sending_time_accuracy timer m n) (pure none)
              (reject_time-IsCalm timer m n) (stay _))
            (in_order-IsCalm timer m n) s))

  as_expected_lem :
      (m : FixtMessage) (c : InternalConnection B T)
      → Ends (λ a d. Moved c a d) (Calm c) (as_expected timer m c)
  unfolding as_expected ◌>>=◌
  as_expected_lem m c =
      Ends-and_then (λ a d. Moved c a d) (λ a d. Moved c a d) (Calm c)
        (on_expected_msg_seq_num timer m m.msg_seq_num c) _ (expected_lem m m.msg_seq_num c)
        (λ answer s k. Moved-on c s _ k.0 k.1 (
          bind (passed_on timer answer) _ (passed_on-IsCalm answer)
            (λ m'. seq (close_gap timer) (pure m') close-IsCalm (stay _)) s))

  -- Passed on in sequence, or ahead of it as the Logon may be.
  abbrev pub InSequence :
      Bool → FixtMessage → InternalConnection B T → FixtMessage → InternalConnection B T → Type 0
  InSequence b m s _ d =
      Calm s d
      × (((m.msg_seq_num ≡ s.inbound_msg_seq_num) × (m.msg_seq_num < d.inbound_msg_seq_num))
          ⊎ ((b ≡ true) × (s.inbound_msg_seq_num ≤ m.msg_seq_num)))

  too_high_lem :
      (b : Bool) (m : FixtMessage) (s : InternalConnection B T)
      → s.inbound_msg_seq_num < m.msg_seq_num
      → Ends (InSequence b m s) (Calm s) (too_high timer b m s)
  unfolding too_high ◌>>=◌
  too_high_lem b m s h =
      Ends-and_then (λ _ d. Calm s d) (InSequence b m s) (Calm s)
        (on_greater_than_expected_msg_seq_num timer m m.msg_seq_num s) _
        (to_ends s _ (greater-IsCalm timer m m.msg_seq_num s))
        (λ answer d k.
          Ends-and_then (λ _ d'. Calm s d') (InSequence b m s) (Calm s) (passed_on timer answer d) _
            (to_ends s _ (after s d _ k (passed_on-IsCalm answer d)))
            (λ m' d' k'.
              Ends-choose (InSequence b m s) (Calm s) b _ _ d' (λ e. (k', inr (e, omega arith)))
                (λ _. k')))

  less_never :
      (m : FixtMessage) (n : ℕ) (s : InternalConnection B T)
      → Ends {A = FixtMessage}
          (λ _ _. ⊥)
          (Calm s)
          ((on_less_than_expected_msg_seq_num timer m n >> fail return_now) s)
  less_never m n s =
      never _ s (on_less_than_expected_msg_seq_num timer m n) return_now (less-IsCalm timer m n s)

  pub in_sequence_lem :
      (b : Bool) (m : FixtMessage) (s : InternalConnection B T)
      → Ends (InSequence b m s) (Calm s) (in_sequence timer b m s)
  unfolding in_sequence
  in_sequence_lem b m s =
      Ends-if (InSequence b m s) (Calm s) (ltb s.inbound_msg_seq_num m.msg_seq_num) _ _
        (λ e. too_high_lem b m s (ground arith))
        (λ e.
          Ends-if (InSequence b m s) (Calm s) (ltb m.msg_seq_num s.inbound_msg_seq_num) _ _
            (λ _. Ends-never (InSequence b m s) (Calm s) _ (less_never m m.msg_seq_num s))
            (λ e'.
              Ends-weaken (λ a d. Moved s a d) (InSequence b m s) (Calm s) (Calm s) _
                (as_expected_lem m s)
                (λ _ d k. (k.0, inl (ground arith, (let moved = k.1 in ground arith)))) (λ _ k. k)))
