-- ===== src/Session/Writing/Kept.antt =====
-- src/fixt/engine_thread.rs: proofs on the steps of `write` that leave the queue, the number of the
-- next message and the buffer alone.
use fix_rs.Prelude.{ℕ, true, false, Option, none, some, ◌≡◌, refl, ◌∙◌, Bytes}
use fix_rs.Action.{if_let, Outcome, done, panic, and_then, ◌>>=◌, ◌>>◌}
use fix_rs.Action.Ends.{of_if, Ends, Ends-and_then, Ends-weaken}
use fix_rs.Session.Status.{
  TimeoutType, outbound, inbound_blocked, responded, logging_out, hang_up,
  is_logging_out_with_responding,
}
use fix_rs.Session.State.{
  Timer, InternalConnection, ConnectionAction, Exit, modify, set_timeout, cancel, set_optional,
  reset_timeout, reset_outbound_timeout, begin_blocking_inbound, end_blocking_inbound,
}
use fix_rs.Session.Inbound.Checks.{Ends-if, Ends-choose, Ends-if_let}
use fix_rs.Session.Writing.{close_with, start_hang_up, on_drained, logout_error}
use fix_rs.ByteBuffer.{ByteBuffer}
use fix_rs.Version.{FixVersion, MessageVersion}
use fix_rs.Session.Fixt.{FixtMessage}

-- What `write` puts into the header of each message, beside its number and the time.
pub record Header : Type 0 where
  pub fix_version : FixVersion
  pub default_message_version : MessageVersion
  pub sender_comp_id : Bytes
  pub target_comp_id : Bytes

module _ {B T : Type 0} where
  abbrev pub header_of : InternalConnection B T → Header
  header_of c = record {
    fix_version = c.fix_version;
    default_message_version = c.default_message_version;
    sender_comp_id = c.sender_comp_id;
    target_comp_id = c.target_comp_id;
  }

  pub record Kept (c d : InternalConnection B T) : Type 0 where
    pub messages : d.outbound_messages ≡ c.outbound_messages
    pub number : d.outbound_msg_seq_num ≡ c.outbound_msg_seq_num
    pub buffer : d.outbound_buffer ≡ c.outbound_buffer
    pub header : header_of d ≡ header_of c

  pub kept :
      (c d : InternalConnection B T)
      → d.outbound_messages ≡ c.outbound_messages
      → d.outbound_msg_seq_num ≡ c.outbound_msg_seq_num
      → d.outbound_buffer ≡ c.outbound_buffer
      → header_of d ≡ header_of c
      → Kept c d
  kept c d p q r h = record { messages = p; number = q; buffer = r; header = h }

  pub Kept-trans : (a b c : InternalConnection B T) → Kept a b → Kept b c → Kept a c
  Kept-trans a b c h k =
      kept a c (k.messages ∙ h.messages) (k.number ∙ h.number) (k.buffer ∙ h.buffer)
        (k.header ∙ h.header)

  -- What follows a step that keeps them.
  pub Kept-then :
      {A C : Type 0} (c : InternalConnection B T) (r : Outcome Exit A × InternalConnection B T)
      (f : A → ConnectionAction B T C)
      → Ends (λ _ d. Kept c d) (Kept c) r
      → ((a : A) (d : InternalConnection B T) → Kept c d → Ends (λ _ e. Kept c e) (Kept c) (f a d))
      → Ends (λ _ d. Kept c d) (Kept c) (and_then r f)
  Kept-then c r f h k = Ends-and_then (λ _ d. Kept c d) (λ _ d. Kept c d) (Kept c) r f h k

  -- Nor is reading blocked or unblocked.
  abbrev pub Quiet : InternalConnection B T → InternalConnection B T → Type 0
  Quiet c d = Kept c d × (d.inbound_is_blocked ≡ c.inbound_is_blocked)

  -- Another timer is all the same.
  timed :
      (c d e : InternalConnection B T)
      → Quiet c d
      → e.outbound_messages ≡ d.outbound_messages
      → e.outbound_msg_seq_num ≡ d.outbound_msg_seq_num
      → e.outbound_buffer ≡ d.outbound_buffer
      → header_of e ≡ header_of d
      → e.inbound_is_blocked ≡ d.inbound_is_blocked
      → Quiet c e
  timed c d e h p q r k b =
      (kept c e (p ∙ h.0.messages) (q ∙ h.0.number) (r ∙ h.0.buffer) (k ∙ h.0.header), b ∙ h.1)

module _ {B T : Type 0} (timer : Timer T) where
  set_timeout-Quiet :
      (n : ℕ) (k : TimeoutType) (c d : InternalConnection B T)
      → Quiet c d
      → Ends (λ _ e. Quiet c e) (Quiet c) (set_timeout timer n k d)
  unfolding set_timeout
  set_timeout-Quiet n k c d h =
      Ends-if_let (λ _ e. Quiet c e) (Quiet c) (timer.set_timeout n k d.token d.timer) _ _ d
        (λ a _. timed c d _ h refl refl refl refl refl) (λ _. h)

  pub set_timeout-Kept :
      (n : ℕ) (k : TimeoutType) (c d : InternalConnection B T)
      → Quiet c d
      → Ends (λ _ e. Kept c e) (Kept c) (set_timeout timer n k d)
  set_timeout-Kept n k c d h =
      Ends-weaken (λ _ e. Quiet c e) (λ _ e. Kept c e) (Quiet c) (Kept c) _
        (set_timeout-Quiet n k c d h) (λ _ _ q. q.0) (λ _ q. q.0)

  cancel-Quiet : (o : Option ℕ) (c : InternalConnection B T) → Quiet c (cancel timer o c)
  unfolding cancel
  cancel-Quiet none c = (kept c _ refl refl refl refl, refl)
  cancel-Quiet (some t) c = (kept c _ refl refl refl refl, refl)

  set_optional-Quiet :
      (o : Option ℕ) (k : TimeoutType) (c d : InternalConnection B T)
      → Quiet c d
      → Ends (λ _ e. Quiet c e) (Quiet c) (set_optional timer o k d)
  unfolding set_optional ◌>>=◌
  set_optional-Quiet none k c d h = h
  set_optional-Quiet (some n) k c d h =
      Ends-and_then (λ _ e. Quiet c e) (λ _ e. Quiet c e) (Quiet c) (set_timeout timer n k d) _
        (set_timeout-Quiet n k c d h) (λ _ e q. q)

  pub reset_outbound-Quiet :
      (c : InternalConnection B T)
      → Ends (λ _ e. Quiet c e) (Quiet c) (reset_outbound_timeout timer c)
  unfolding reset_outbound_timeout reset_timeout
  reset_outbound-Quiet c =
      Ends-and_then (λ _ e. Quiet c e) (λ _ e. Quiet c e) (Quiet c)
        (set_optional timer c.outbound_heartbeat_timeout_duration outbound
          (cancel timer c.outbound_heartbeat_timeout c))
        _ (set_optional-Quiet _ outbound c _ (cancel-Quiet c.outbound_heartbeat_timeout c))
        (λ _ d h. timed c d _ h refl refl refl refl refl)

  pub end_blocking-Kept : (c : InternalConnection B T) → Kept c (end_blocking_inbound timer c)
  unfolding end_blocking_inbound
  end_blocking-Kept c =
      let h =
        (cancel-Quiet c.inbound_blocked_timeout (record c { inbound_is_blocked = false })).0 in
      of_if (λ d. Kept c d) c.inbound_is_blocked _ _
        (kept c _ h.messages h.number h.buffer h.header) (kept c _ refl refl refl refl)

  -- When reading has been blocked, the socket could not be written to.
  pub begin_blocking-Kept :
      (c : InternalConnection B T)
      → Ends
          (λ _ e. Kept c e × (e.inbound_is_blocked ≡ true))
          (Kept c)
          (begin_blocking_inbound timer c)
  unfolding begin_blocking_inbound set_timeout
  begin_blocking-Kept c =
      Ends-if (λ _ e. Kept c e × (e.inbound_is_blocked ≡ true)) (Kept c) c.inbound_is_blocked _ _
        (λ b. (kept c c refl refl refl refl, b))
        (λ _. go (timer.set_timeout 10000 inbound_blocked c.token c.timer))
    where
      go :
          (o : Option (ℕ × T))
          → Ends
              (λ _ e. Kept c e × (e.inbound_is_blocked ≡ true))
              (Kept c)
              (and_then
                (if_let o
                  (λ set. (λ c'. (done set.0, record c' { timer = set.1 })))
                  panic
                  (record c { inbound_is_blocked = true }))
                (λ timeout. modify (λ c'. record c' { inbound_blocked_timeout = some timeout })))
      go none = kept c _ refl refl refl refl
      go (some s) = (kept c _ refl refl refl refl, refl)

module _ {B T : Type 0} (timer : Timer T)
    (read : FixVersion → MessageVersion → FixtMessage → ByteBuffer → ByteBuffer) (now : ℕ) where
  hang_up-Kept :
      (c : InternalConnection B T)
      → Ends (λ _ e. Kept c e) (Kept c) (start_hang_up timer read now c)
  unfolding start_hang_up ◌>>◌ ◌>>=◌
  hang_up-Kept c =
      Kept-then c (set_timeout timer 10000 hang_up (record c { status = logging_out responded })) _
        (set_timeout-Kept timer 10000 hang_up c _ (kept c _ refl refl refl refl, refl))
        (λ _ d h. kept c _ h.messages h.number h.buffer h.header)

  pub on_drained-Kept :
      (c : InternalConnection B T) → Ends (λ _ e. Kept c e) (Kept c) (on_drained timer read now c)
  unfolding on_drained close_with
  on_drained-Kept c =
      Ends-if_let (λ _ e. Kept c e) (Kept c) (logout_error c.status) _ _ c
        (λ reason _. kept c _ refl refl refl refl)
        (λ _.
          Ends-choose (λ _ e. Kept c e) (Kept c) (is_logging_out_with_responding c.status) _ _ c
            (λ _. hang_up-Kept c) (λ _. kept c c refl refl refl refl))
