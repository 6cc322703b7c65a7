-- ===== src/Session/Calm.antt =====
-- src/fixt/engine_thread.rs: proofs on the steps of a connection that hand no message to the user
-- and never lower the number expected of the next message.
use fix_rs.Prelude.{
  ℕ, ◌≤◌, Bool, true, false, Option, none, some, List, [], ◌∷◌, ◌++◌, ◌==◌, if◌then◌else◌, Bytes,
  ◌≡◌, refl, sym, ap, ◌∙◌, arith,
}
use mathlib.Core.Bool.{false≢true}
use fix_rs.Decimal.{max_u64}
use fix_rs.Action.{if_let, Outcome, done, pure, and_then, ◌>>=◌, ◌>>◌}
use fix_rs.Action.Ends.{Keeps, Keeps-and_then, of_if, of_if_let}
use fix_rs.Action.Ends
use fix_rs.Session.Fixt.{FixtMessage}
use fix_rs.Session.Status.{
  is_logging_out_with_resending_request_initiated_by_local,
  is_logging_out_with_resending_request_initiated_by_remote, LoggingOutType, ok, error, TimeoutType,
  outbound, inbound,
}
use fix_rs.Session.State.{
  Timer, InternalConnection, ConnectionAction, EngineEvent, Exit, message_received, modify, send,
  assert, set_timeout, cancel, set_optional, reset_timeout, reset_outbound_timeout,
  reset_inbound_timeout, increment_inbound_msg_seq_num, connection_logging_on, session_established,
  message_received_garbled, message_received_duplicate, message_rejected, resend_requested,
  sequence_reset_reset_has_no_effect, sequence_reset_reset_in_the_past, connection_failed,
  connection_succeeded, connection_terminated, connection_dropped, connection_accepted,
  listener_failed, listener_accept_failed, fatal_error,
}
use fix_rs.Session.Logout.{
  may_initiate, start_logout_timeout, initiate_logout, respond_to_logout,
  clear_inbound_resend_request_msg_seq_num,
}

-- The messages that were handed to the user.
unfoldable pub deliveries : List EngineEvent → List FixtMessage
deliveries [] = []
deliveries (e ∷ es) = elim e [ message_received _ m ↦ m ∷ deliveries es | _ ↦ deliveries es ]

unfoldable pub is_delivery : EngineEvent → Bool
is_delivery e = elim e [ message_received _ _ ↦ true | _ ↦ false ]

pub deliveries-append :
    (xs ys : List EngineEvent) → deliveries (xs ++ ys) ≡ deliveries xs ++ deliveries ys
unfolding deliveries
deliveries-append [] ys = refl
deliveries-append (connection_failed _ _ ∷ es) ys = deliveries-append es ys
deliveries-append (connection_succeeded _ ∷ es) ys = deliveries-append es ys
deliveries-append (connection_terminated _ _ ∷ es) ys = deliveries-append es ys
deliveries-append (connection_dropped _ _ ∷ es) ys = deliveries-append es ys
deliveries-append (connection_accepted _ _ _ ∷ es) ys = deliveries-append es ys
deliveries-append (listener_failed _ _ ∷ es) ys = deliveries-append es ys
deliveries-append (listener_accept_failed _ _ ∷ es) ys = deliveries-append es ys
deliveries-append (fatal_error _ _ ∷ es) ys = deliveries-append es ys
deliveries-append (connection_logging_on _ _ _ ∷ es) ys = deliveries-append es ys
deliveries-append (session_established _ ∷ es) ys = deliveries-append es ys
deliveries-append (message_received _ m ∷ es) ys = ap (λ zs. m ∷ zs) (deliveries-append es ys)
deliveries-append (message_received_garbled _ _ ∷ es) ys = deliveries-append es ys
deliveries-append (message_received_duplicate _ _ ∷ es) ys = deliveries-append es ys
deliveries-append (message_rejected _ _ ∷ es) ys = deliveries-append es ys
deliveries-append (resend_requested _ _ _ ∷ es) ys = deliveries-append es ys
deliveries-append (sequence_reset_reset_has_no_effect _ ∷ es) ys = deliveries-append es ys
deliveries-append (sequence_reset_reset_in_the_past _ ∷ es) ys = deliveries-append es ys

append_nil : {A : Type 0} (xs : List A) → xs ++ [] ≡ xs
append_nil [] = refl
append_nil (x ∷ xs) = ap (λ zs. x ∷ zs) (append_nil xs)

none_delivered : (e : EngineEvent) → is_delivery e ≡ false → deliveries (e ∷ []) ≡ []
unfolding deliveries is_delivery
none_delivered (connection_failed _ _) h = refl
none_delivered (connection_succeeded _) h = refl
none_delivered (connection_terminated _ _) h = refl
none_delivered (connection_dropped _ _) h = refl
none_delivered (connection_accepted _ _ _) h = refl
none_delivered (listener_failed _ _) h = refl
none_delivered (listener_accept_failed _ _) h = refl
none_delivered (fatal_error _ _) h = refl
none_delivered (connection_logging_on _ _ _) h = refl
none_delivered (session_established _) h = refl
none_delivered (message_received _ m) h = absurd (false≢true (sym h))
none_delivered (message_received_garbled _ _) h = refl
none_delivered (message_received_duplicate _ _) h = refl
none_delivered (message_rejected _ _) h = refl
none_delivered (resend_requested _ _ _) h = refl
none_delivered (sequence_reset_reset_has_no_effect _) h = refl
none_delivered (sequence_reset_reset_in_the_past _) h = refl

module _ {B T : Type 0} where
  -- Nothing is delivered, and the expected number does not go down.
  pub record Calm (c d : InternalConnection B T) : Type 0 where
    pub same_deliveries : deliveries d.events ≡ deliveries c.events
    pub not_lowered : c.inbound_msg_seq_num ≤ d.inbound_msg_seq_num

  pub calm :
      (c d : InternalConnection B T)
      → deliveries d.events ≡ deliveries c.events
      → c.inbound_msg_seq_num ≤ d.inbound_msg_seq_num
      → Calm c d
  calm c d p h = record { same_deliveries = p; not_lowered = h }

  -- A step that leaves the events and the expected number alone.
  pub still :
      (c d : InternalConnection B T)
      → d.events ≡ c.events
      → d.inbound_msg_seq_num ≡ c.inbound_msg_seq_num
      → Calm c d
  still c d p h = calm c d (ap deliveries p) (omega arith)

  pub Calm-refl : (c : InternalConnection B T) → Calm c c
  Calm-refl c = still c c refl refl

  pub Calm-trans : (a b c : InternalConnection B T) → Calm a b → Calm b c → Calm a c
  Calm-trans a b c h k =
      let not_lowered = h.not_lowered in
      let not_lowered' = k.not_lowered in
      calm a c (k.same_deliveries ∙ h.same_deliveries) (omega arith)

  -- The same of what an action ends with.
  unfoldable pub CalmTo :
      {A : Type 0} → InternalConnection B T → Outcome Exit A × InternalConnection B T → Type 0
  CalmTo c r = Calm c r.1

  abbrev pub IsCalm : {A : Type 0} → ConnectionAction B T A → Type 0
  IsCalm m = (c : InternalConnection B T) → CalmTo c (m c)

  pub from_calm :
      {A : Type 0} (o : Outcome Exit A) (c d : InternalConnection B T) → Calm c d → CalmTo c (o, d)
  unfolding CalmTo
  from_calm o c d h = h

  pub stay : {A : Type 0} (o : Outcome Exit A) (c : InternalConnection B T) → CalmTo c (o, c)
  unfolding CalmTo
  stay o c = Calm-refl c

  pub step :
      {A : Type 0} (o : Outcome Exit A) (c d : InternalConnection B T)
      → d.events ≡ c.events
      → d.inbound_msg_seq_num ≡ c.inbound_msg_seq_num
      → CalmTo c (o, d)
  unfolding CalmTo
  step o c d p h = still c d p h

  pub after :
      {A : Type 0} (c d : InternalConnection B T) (r : Outcome Exit A × InternalConnection B T)
      → Calm c d
      → CalmTo d r
      → CalmTo c r
  unfolding CalmTo
  after c d r h k = Calm-trans c d r.1 h k

  pub and_then_calm :
      {A C : Type 0} (c : InternalConnection B T) (r : Outcome Exit A × InternalConnection B T)
      (f : A → ConnectionAction B T C)
      → CalmTo c r
      → ((a : A) → IsCalm (f a))
      → CalmTo c (and_then r f)
  unfolding CalmTo
  and_then_calm = Keeps-and_then Calm Calm-trans

  pub bind :
      {A C : Type 0} (m : ConnectionAction B T A) (f : A → ConnectionAction B T C)
      → IsCalm m
      → ((a : A) → IsCalm (f a))
      → IsCalm (m >>= f)
  unfolding CalmTo
  bind = Ends.Keeps->>= Calm Calm-trans

  pub seq :
      {A C : Type 0} (m : ConnectionAction B T A) (n : ConnectionAction B T C)
      → IsCalm m
      → IsCalm n
      → IsCalm (m >> n)
  unfolding CalmTo
  seq = Ends.Keeps->> Calm Calm-trans

  pub send-IsCalm : (e : EngineEvent) → is_delivery e ≡ false → IsCalm (send e)
  unfolding CalmTo
  send-IsCalm e h c =
      calm c _
        (deliveries-append c.events (e ∷ [])
          ∙ ap (λ zs. deliveries c.events ++ zs) (none_delivered e h)
          ∙ append_nil (deliveries c.events))
        (omega arith)

  pub assert-IsCalm : (b : Bool) → IsCalm (assert b)
  assert-IsCalm true c = stay _ c
  assert-IsCalm false c = stay _ c

  pub calm_if :
      {A : Type 0} (c : InternalConnection B T) (b : Bool)
      (x y : Outcome Exit A × InternalConnection B T)
      → CalmTo c x
      → CalmTo c y
      → CalmTo c (if b then x else y)
  calm_if c true x y hx hy = hx
  calm_if c false x y hx hy = hy

  pub choose :
      {A : Type 0} (b : Bool) (x y : ConnectionAction B T A)
      → IsCalm x
      → IsCalm y
      → IsCalm (if b then x else y)
  choose true x y hx hy = hx
  choose false x y hx hy = hy

  pub IsCalm-if_let :
      {A C : Type 0} (o : Option C) (f : C → ConnectionAction B T A) (y : ConnectionAction B T A)
      → ((a : C) → IsCalm (f a))
      → IsCalm y
      → IsCalm (if_let o f y)
  IsCalm-if_let none f y hf hy = hy
  IsCalm-if_let (some a) f y hf hy = hf a

  pub increment-IsCalm : IsCalm increment_inbound_msg_seq_num
  unfolding increment_inbound_msg_seq_num
  increment-IsCalm c =
      calm_if c (c.inbound_msg_seq_num == max_u64) _ _ (stay _ c)
        (from_calm _ c _ (calm c _ refl (omega arith)))

module _ {B T : Type 0} (timer : Timer T) where
  pub set_timeout-IsCalm : (n : ℕ) (kind : TimeoutType) → IsCalm {B = B} (set_timeout timer n kind)
  unfolding set_timeout
  set_timeout-IsCalm n kind c =
      IsCalm-if_let (timer.set_timeout n kind c.token c.timer) _ _ (λ _ d. step _ d _ refl refl)
        (stay _) c

  pub cancel-Calm : (o : Option ℕ) (c : InternalConnection B T) → Calm c (cancel timer o c)
  unfolding cancel
  cancel-Calm none c = Calm-refl c
  cancel-Calm (some t) c = still c _ refl refl

  set_optional-IsCalm :
      (d : Option ℕ) (kind : TimeoutType) → IsCalm {B = B} (set_optional timer d kind)
  unfolding set_optional
  set_optional-IsCalm none kind = stay _
  set_optional-IsCalm (some d) kind =
      bind (set_timeout timer d kind) (λ t. pure (some t)) (set_timeout-IsCalm d kind) (λ _. stay _)

  pub reset_timeout-IsCalm :
      (o d : Option ℕ) (kind : TimeoutType) → IsCalm {B = B} (reset_timeout timer o d kind)
  unfolding reset_timeout
  reset_timeout-IsCalm o d kind c =
      after c (cancel timer o c) _ (cancel-Calm o c) (set_optional-IsCalm d kind (cancel timer o c))

  pub reset_outbound-IsCalm : IsCalm {B = B} (reset_outbound_timeout timer)
  unfolding reset_outbound_timeout
  reset_outbound-IsCalm c =
      and_then_calm c
        (reset_timeout timer c.outbound_heartbeat_timeout c.outbound_heartbeat_timeout_duration
          outbound c)
        (λ timeout. modify (λ c'. record c' { outbound_heartbeat_timeout = timeout }))
        (reset_timeout-IsCalm _ _ _ c) (λ _ d. step _ d _ refl refl)

  pub reset_inbound-IsCalm : IsCalm {B = B} (reset_inbound_timeout timer)
  unfolding reset_inbound_timeout
  reset_inbound-IsCalm c =
      and_then_calm c
        (reset_timeout timer c.inbound_testrequest_timeout c.inbound_testrequest_timeout_duration
          inbound c)
        (λ timeout. modify (λ c'. record c' { inbound_testrequest_timeout = timeout }))
        (reset_timeout-IsCalm _ _ _ c) (λ _ d. step _ d _ refl refl)

  start_logout-IsCalm : (kind : LoggingOutType) → IsCalm {B = B} (start_logout_timeout timer kind)
  unfolding start_logout_timeout
  start_logout-IsCalm ok =
      bind (set_timeout timer _ _) _ (set_timeout-IsCalm _ _) (λ _ c. step _ c _ refl refl)
  start_logout-IsCalm (error e) = stay _
  start_logout-IsCalm _ = stay _

  pub initiate_logout-IsCalm :
      (kind : LoggingOutType) (text : Bytes) → IsCalm {B = B} (initiate_logout timer kind text)
  unfolding initiate_logout
  initiate_logout-IsCalm kind text c =
      seq _ _
        (seq _ _
          (seq (assert (may_initiate kind c.status)) _ (assert-IsCalm _)
            (λ d. step _ d _ refl refl))
          (start_logout-IsCalm kind))
        (λ d. step _ d _ refl refl) c

  pub respond_to_logout-IsCalm : IsCalm {B = B} (respond_to_logout timer)
  unfolding respond_to_logout
  respond_to_logout-IsCalm c =
      seq _ _ (seq (assert _) _ (assert-IsCalm _) (λ d. step _ d _ refl refl))
        (λ d. step _ d _ refl refl) c

  pub clear-IsCalm : IsCalm {B = B} (clear_inbound_resend_request_msg_seq_num timer)
  unfolding clear_inbound_resend_request_msg_seq_num
  clear-IsCalm c =
      let d = record c { inbound_resend_request_msg_seq_num = none } in
      calm_if c (is_logging_out_with_resending_request_initiated_by_remote c.status) _ _
        (after c d _ (still c d refl refl) (respond_to_logout-IsCalm d))
        (calm_if c (is_logging_out_with_resending_request_initiated_by_local c.status) _ _
          (after c d _ (still c d refl refl) (initiate_logout-IsCalm ok [] d))
          (step (done tt) c d refl refl))
