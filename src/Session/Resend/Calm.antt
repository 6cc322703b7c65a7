-- ===== src/Session/Resend/Calm.antt =====
-- src/fixt/engine_thread.rs: proofs that the handlers by MsgSeqNum deliver nothing themselves.
use fix_rs.Prelude.{
  ℕ, ◌+◌, not, ◌&&◌, Option, none, some, ◌==◌, ltb, leb, Bool-cases, refl, inl, inr, arith,
}
use fix_rs.Action.{done, failed, ◌>>=◌}
use fix_rs.Session.Fixt.{FixtMessage, Body, as_resend_request, as_logout, as_sequence_reset}
use fix_rs.Session.Status.{
  LoggingOutInitiator, local, remote, resend_requesting, established, logging_out, continue_logout,
  is_logging_out, is_logging_out_with_responded, local_requested,
}
use fix_rs.Session.State.{
  Timer, terminate, OutboundMessage, message_received_duplicate, ConnectionAction, push, send,
  shutdown, reset_timeout, message_rejected, resend_requested,
}
use fix_rs.Session.Resend.{
  end_resend_loop, log_out_too_low, ask_engine, count_resend_request, cancel_logout, reject_range,
  accept_range, on_range, if_on_resend_request, reject_for_sending_time_accuracy, request_missing,
  remember_newest, suspend_logout, logging_out_initiator, on_early_logout, if_passed_on,
  on_greater_than_expected_msg_seq_num, on_less_than_expected_msg_seq_num, reject_gap_fill,
  fill_gap, on_gap_fill, answer_logout, on_logout, on_in_order, range_end,
}
use fix_rs.Session.Calm.{
  IsCalm, calm, still, Calm-trans, stay, step, after, choose, from_calm, bind, seq, calm_if,
  IsCalm-if_let, send-IsCalm, and_then_calm, cancel-Calm, reset_timeout-IsCalm,
  initiate_logout-IsCalm, respond_to_logout-IsCalm, is_delivery,
}

module _ {B T : Type 0} (timer : Timer T) where
  ask-IsCalm : (b e : ℕ) → IsCalm {B = B} (ask_engine timer b e)
  unfolding ask_engine is_delivery
  ask-IsCalm b e c =
      seq (send (resend_requested c.token b (range_end timer e c))) _ (send-IsCalm _ refl) (stay _)
        c

  loop-IsCalm : (b : ℕ) → IsCalm {B = B} (end_resend_loop timer b)
  unfolding end_resend_loop
  loop-IsCalm b = seq _ _ (initiate_logout-IsCalm timer _ _) (stay _)

  count-IsCalm : (b e : ℕ) → IsCalm {B = B} (count_resend_request timer b e)
  unfolding count_resend_request
  count-IsCalm b e c =
      let d = record c { last_seen_count = c.last_seen_count + 1 } in
      let d' = record c { last_seen_begin_seq_no = b; last_seen_count = 1 } in
      calm_if c (b == c.last_seen_begin_seq_no) _ _
        (after c d _ (still c d refl refl)
          (calm_if d (ltb 5 d.last_seen_count) _ _ (loop-IsCalm b d) (ask-IsCalm b e d)))
        (after c d' _ (still c d' refl refl) (ask-IsCalm b e d'))

  cancel_logout-IsCalm : IsCalm {B = B} (cancel_logout timer)
  unfolding cancel_logout
  cancel_logout-IsCalm c =
      let d = record c { status = established } in
      calm_if c (is_logging_out_with_responded c.status) _ _
        (from_calm (done tt) c _
          (Calm-trans c d _ (still c d refl refl) (cancel-Calm timer c.logout_timeout d)))
        (stay (done tt) c)

  push-IsCalm : (m : OutboundMessage) → IsCalm {B = B} {T = T} (push m)
  push-IsCalm m c = step _ c _ refl refl

  reject_range-IsCalm : (m : FixtMessage) (n : ℕ) → IsCalm {B = B} (reject_range timer m n)
  unfolding reject_range is_delivery
  reject_range-IsCalm m n =
      seq _ _ (seq _ _ (push-IsCalm _) cancel_logout-IsCalm)
        (λ c. seq (send (message_rejected c.token m)) _ (send-IsCalm _ refl) (stay _) c)

  accept_range-IsCalm : (m : FixtMessage) (b e : ℕ) → IsCalm {B = B} (accept_range timer m b e)
  unfolding accept_range
  accept_range-IsCalm m b e =
      bind (count_resend_request timer b e) _ (count-IsCalm b e)
        (λ goes_on. choose goes_on _ _ (seq _ _ cancel_logout-IsCalm (stay _)) (stay _))

  pub if_on_resend_request-IsCalm :
      (m : FixtMessage) (n : ℕ) → IsCalm {B = B} (if_on_resend_request timer m n)
  unfolding if_on_resend_request on_range
  if_on_resend_request-IsCalm m n =
      IsCalm-if_let (as_resend_request m.body) _ _
        (λ range.
          choose (ltb range.1 range.0 && not (range.1 == 0)) _ _ (reject_range-IsCalm m n)
            (accept_range-IsCalm m _ _))
        (stay _)

  pub reject_time-IsCalm :
      (m : FixtMessage) (n : ℕ) → IsCalm {B = B} (reject_for_sending_time_accuracy timer m n)
  unfolding reject_for_sending_time_accuracy is_delivery
  reject_time-IsCalm m n =
      seq _ _ (push-IsCalm _) (λ c. send-IsCalm (message_rejected c.token m) refl c)

  pub passed-IsCalm :
      (o : Option FixtMessage) (f : FixtMessage → ConnectionAction B T (Unit {0}))
      → ((m : FixtMessage) → IsCalm (f m))
      → IsCalm (if_passed_on timer o f)
  unfolding if_passed_on
  passed-IsCalm none f h = stay _
  passed-IsCalm (some m) f h = seq (f m) _ (h m) (stay _)

  suspend-IsCalm : (o : Option LoggingOutInitiator) → IsCalm {B = B} (suspend_logout timer o)
  unfolding suspend_logout
  suspend-IsCalm none c = stay _ c
  suspend-IsCalm (some local) c = step _ c _ refl refl
  suspend-IsCalm (some remote) c =
      let d = record c { status = logging_out (resend_requesting remote) } in
      and_then_calm c (reset_timeout timer c.logout_timeout (some 10000) continue_logout d) _
        (after c d _ (still c d refl refl)
          (reset_timeout-IsCalm timer c.logout_timeout (some 10000) continue_logout d))
        (λ _ e. step _ e _ refl refl)

  pub greater-IsCalm :
      (m : FixtMessage) (n : ℕ) → IsCalm {B = B} (on_greater_than_expected_msg_seq_num timer m n)
  unfolding on_greater_than_expected_msg_seq_num request_missing remember_newest on_early_logout
  greater-IsCalm m n =
      bind (if_on_resend_request timer m n) _ (if_on_resend_request-IsCalm m n) (λ answer.
        passed-IsCalm answer _ (λ m'.
          seq _ _
            (seq _ _
              (IsCalm-if_let (as_resend_request m'.body) _ _ (λ _. stay _) (λ c. push-IsCalm _ c))
              (λ c. step _ c _ refl refl))
            (IsCalm-if_let (as_logout m'.body) _ _
              (λ _ c. suspend-IsCalm (logging_out_initiator c.status) c) (stay _))))

  too_low-IsCalm : (n : ℕ) → IsCalm {B = B} (log_out_too_low timer n)
  unfolding log_out_too_low
  too_low-IsCalm n c = initiate_logout-IsCalm timer _ _ c

  pub less-IsCalm :
      (m : FixtMessage) (n : ℕ) → IsCalm {B = B} (on_less_than_expected_msg_seq_num timer m n)
  unfolding on_less_than_expected_msg_seq_num is_delivery
  less-IsCalm m n c =
      calm_if c m.poss_dup_flag _ _
        (calm_if c (leb m.orig_sending_time m.sending_time) _ _
          (send-IsCalm (message_received_duplicate c.token m) refl c) (reject_time-IsCalm m n c))
        (too_low-IsCalm n c)

  fill-IsCalm : (m : FixtMessage) (n new : ℕ) → IsCalm {B = B} (fill_gap timer m n new)
  unfolding fill_gap reject_gap_fill is_delivery
  fill-IsCalm m n new c = elim (Bool-cases (ltb c.inbound_msg_seq_num new)) [
    | inl e ↦ rw e (
        from_calm (done m) c (record c { inbound_msg_seq_num = new })
          (calm c _ refl (ground arith)))
    | inr e ↦ rw e (
        seq _ _ (seq _ _ (push-IsCalm _) (send-IsCalm (message_rejected c.token m) refl)) (stay _)
          c)
  ]

  gap_fill-IsCalm : (m : FixtMessage) (n : ℕ) → IsCalm {B = B} (on_gap_fill timer m n)
  unfolding on_gap_fill
  gap_fill-IsCalm m n =
      IsCalm-if_let (as_sequence_reset m.body) _ _
        (λ reset. choose reset.0 _ _ (fill-IsCalm m n reset.1) (stay _)) (stay _)

  on_logout-IsCalm : (b : Body) → IsCalm {B = B} (on_logout timer b)
  unfolding on_logout answer_logout shutdown
  on_logout-IsCalm b =
      IsCalm-if_let (as_logout b) _ _
        (λ _ c.
          calm_if c (is_logging_out c.status) _ _
            (step (failed (terminate local_requested)) c (shutdown c) refl refl)
            (respond_to_logout-IsCalm timer c))
        (stay _)

  pub passed_on-IsCalm :
      (m : FixtMessage) (n : ℕ)
      → IsCalm {B = B} (
          if_on_resend_request timer m n >>= λ answer.
          if_passed_on timer answer (λ m'. on_logout timer m'.body))
  passed_on-IsCalm m n =
      bind (if_on_resend_request timer m n) _ (if_on_resend_request-IsCalm m n)
        (λ answer. passed-IsCalm answer _ (λ m'. on_logout-IsCalm m'.body))

  pub in_order-IsCalm : (m : FixtMessage) (n : ℕ) → IsCalm {B = B} (on_in_order timer m n)
  unfolding on_in_order
  in_order-IsCalm m n =
      bind (on_gap_fill timer m n) _ (gap_fill-IsCalm m n) (λ m'. passed_on-IsCalm m' n)
