-- ===== src/Session/Inbound/Checks.antt =====
-- src/fixt/engine_thread.rs: proofs on the checks of `on_network_message` that come before MsgSeqNum.
use fix_rs.Prelude.{
  zero, suc, Bool, true, false, not, ◌&&◌, Option, none, some, if◌then◌else◌, Bytes, codes,
  bytes_eq, ◌≡◌, refl, sym, ap, ◌⊎◌, inl, inr,
}
use mathlib.Core.Bool.{false≢true}
use fix_rs.Version.{FixVersion, fix_version_eq}
use fix_rs.Action.{if_let, Outcome, done, failed, panicked, fail, ◌>>=◌, ◌>>◌}
use fix_rs.Action.Ends.{Ends, Ends-and_then, Ends-weaken}
use fix_rs.Session.Fixt.{
  FixtMessage, Body, logon, logout_message, resend_request, test_request, heartbeat, sequence_reset,
  reject, business_message_reject, application, Logon, ℤ, pos, negsuc, as_logon,
}
use fix_rs.Session.Status.{
  ConnectionStatus, ConnectionTerminatedReason, error, established, receiving_logon,
  approving_logon, sending_logon, logging_out, is_receiving_logon, is_sending_logon,
  as_receiving_logon, sender_comp_id_wrong_error, target_comp_id_wrong_error,
}
use fix_rs.Session.State.{
  Timer, InternalConnection, ConnectionAction, Exit, terminate, return_now, shutdown,
  session_established, message_rejected,
}
use fix_rs.Session.Logout.{initiate_logout}
use fix_rs.Session.Inbound.{
  log_out_now, compare_versions, check_version, reject_comp_id, check_comp_ids, start_heart_bt,
  logon_accepted, not_a_logon, logon_answered, on_logon, set_heart_bt_durations,
}
use fix_rs.Session.Calm.{
  IsCalm, Calm, CalmTo, Calm-refl, stay, step, seq, send-IsCalm, reset_outbound-IsCalm,
  reset_inbound-IsCalm, initiate_logout-IsCalm, is_delivery,
}

module _ {B T : Type 0} where
  pub to_ends :
      {A : Type 0} (c : InternalConnection B T) (r : Outcome Exit A × InternalConnection B T)
      → CalmTo c r
      → Ends (λ _ s. Calm c s) (Calm c) r
  unfolding CalmTo
  to_ends c (done a, s) h = h
  to_ends c (failed e, s) h = h
  to_ends c (panicked, s) h = h

  -- What follows `fail` is never reached.
  pub never :
      {A : Type 0} (C : Type 0) (c : InternalConnection B T) (m : ConnectionAction B T A) (e : Exit)
      → CalmTo c (m c)
      → Ends {A = C} (λ _ _. ⊥) (Calm c) ((m >> fail e) c)
  unfolding ◌>>◌ ◌>>=◌
  never C c m e h =
      Ends-and_then (λ _ s. Calm c s) (λ _ _. ⊥) (Calm c) (m c) (λ _. fail e) (to_ends c (m c) h)
        (λ _ s k. k)

  -- The test of the version or the status does not speak of a connection that is changed.
  pub Ends-if :
      {A : Type 0} (P : A → InternalConnection B T → Type 0) (Q : InternalConnection B T → Type 0)
      (b : Bool) (x y : Outcome Exit A × InternalConnection B T)
      → (b ≡ true → Ends P Q x)
      → (b ≡ false → Ends P Q y)
      → Ends P Q (if b then x else y)
  Ends-if P Q true x y hx hy = hx refl
  Ends-if P Q false x y hx hy = hy refl

  pub Ends-choose :
      {A : Type 0} (P : A → InternalConnection B T → Type 0) (Q : InternalConnection B T → Type 0)
      (b : Bool) (x y : ConnectionAction B T A) (c : InternalConnection B T)
      → (b ≡ true → Ends P Q (x c))
      → (b ≡ false → Ends P Q (y c))
      → Ends P Q ((if b then x else y) c)
  Ends-choose P Q true x y c hx hy = hx refl
  Ends-choose P Q false x y c hx hy = hy refl

  pub Ends-if_let :
      {A C : Type 0} (P : A → InternalConnection B T → Type 0) (Q : InternalConnection B T → Type 0)
      (o : Option C) (f : C → ConnectionAction B T A) (y : ConnectionAction B T A)
      (c : InternalConnection B T)
      → ((a : C) → o ≡ some a → Ends P Q (f a c))
      → (o ≡ none → Ends P Q (y c))
      → Ends P Q (if_let o f y c)
  Ends-if_let P Q none f y c hf hy = hy refl
  Ends-if_let P Q (some a) f y c hf hy = hf a refl

  pub Ends-never :
      {A : Type 0} (P : A → InternalConnection B T → Type 0) (Q : InternalConnection B T → Type 0)
      (r : Outcome Exit A × InternalConnection B T)
      → Ends (λ _ _. ⊥) Q r
      → Ends P Q r
  Ends-never P Q (failed e, s) h = h
  Ends-never P Q (panicked, s) h = h
  Ends-never P Q (done a, s) h = absurd h

as_receiving-none :
    (s : ConnectionStatus) → is_receiving_logon s ≡ false → as_receiving_logon s ≡ none
unfolding is_receiving_logon as_receiving_logon
as_receiving-none sending_logon h = refl
as_receiving-none (receiving_logon _ _) h = absurd (false≢true (sym h))
as_receiving-none approving_logon h = refl
as_receiving-none established h = refl
as_receiving-none (logging_out _) h = refl

of_logon : (b : Body) (l : Logon) → as_logon b ≡ some l → b ≡ logon l
unfolding as_logon
of_logon (logon _) l e = cc
of_logon (logout_message _) l e = cc
of_logon (resend_request _ _) l e = cc
of_logon (test_request _) l e = cc
of_logon (heartbeat _) l e = cc
of_logon (sequence_reset _ _) l e = cc
of_logon (reject _) l e = cc
of_logon (business_message_reject _) l e = cc
of_logon (application _) l e = cc

-- The version that the parser found in the header of the message.
unfoldable pub received_version : FixtMessage → Option FixVersion
received_version m = if_let m.meta (λ meta. some meta.begin_string) none

abbrev pub HasVersion : FixtMessage → FixVersion → Type 0
HasVersion m w = (v : FixVersion) × (received_version m ≡ some v) × (fix_version_eq v w ≡ true)

module _ {B T : Type 0} (timer : Timer T) where
  log_out_never :
      (reason : ConnectionTerminatedReason) (text : Bytes) (c : InternalConnection B T)
      → Ends (λ _ _. ⊥) (Calm c) (log_out_now timer reason text c)
  unfolding log_out_now
  log_out_never reason text c =
      never _ c (initiate_logout timer (error reason) text) return_now
        (initiate_logout-IsCalm timer _ _ c)

  compare_lem :
      (v w : FixVersion) (c : InternalConnection B T)
      → Ends (λ _ s. (s ≡ c) × (fix_version_eq v w ≡ true)) (Calm c) (compare_versions timer v w c)
  unfolding compare_versions
  compare_lem v w c =
      Ends-choose (λ _ s. (s ≡ c) × (fix_version_eq v w ≡ true)) (Calm c) (fix_version_eq v w) _ _ c
        (λ e. (refl, e))
        (λ e.
          Ends-never (λ _ s. (s ≡ c) × (fix_version_eq v w ≡ true)) (Calm c) _
            (log_out_never _ _ c))

  pub version_lem :
      (m : FixtMessage) (c : InternalConnection B T)
      → is_receiving_logon c.status ≡ false
      → Ends (λ _ s. (s ≡ c) × HasVersion m c.fix_version) (Calm c) (check_version timer m c)
  unfolding check_version received_version
  version_lem m c h = rw h (
      Ends-if_let (λ _ s. (s ≡ c) × HasVersion m c.fix_version) (Calm c) m.meta _ _ c
        (λ meta e.
          Ends-weaken (λ _ s. (s ≡ c) × (fix_version_eq meta.begin_string c.fix_version ≡ true))
            (λ _ s. (s ≡ c) × HasVersion m c.fix_version) (Calm c) (Calm c) _
            (compare_lem meta.begin_string c.fix_version c)
            (λ _ s k.
              (k.0, (meta.begin_string, ap (λ o. if_let o (λ d. some d.begin_string) none) e, k.1)))
            (λ _ k. k))
        (λ _. Calm-refl c))

  abbrev pub HasIds : FixtMessage → InternalConnection B T → Type 0
  HasIds m c =
      (bytes_eq m.sender_comp_id c.target_comp_id ≡ true)
      × (bytes_eq m.target_comp_id c.sender_comp_id ≡ true)

  reject_never :
      (m : FixtMessage) (reason : ConnectionTerminatedReason) (text : Bytes)
      (c : InternalConnection B T)
      → Ends (λ _ _. ⊥) (Calm c) (reject_comp_id timer m reason text c)
  unfolding reject_comp_id is_delivery
  reject_never m reason text c = never _ c _ return_now (
      seq _ _ (seq _ _ (initiate_logout-IsCalm timer _ _) (λ d. step _ d _ refl refl))
        (λ d. send-IsCalm (message_rejected d.token m) refl d) c)

  pub ids_lem :
      (m : FixtMessage) (c : InternalConnection B T)
      → is_receiving_logon c.status ≡ false
      → Ends (λ _ s. (s ≡ c) × HasIds m c) (Calm c) (check_comp_ids timer m c)
  unfolding check_comp_ids
  ids_lem m c h =
      rw h (
        go (bytes_eq m.sender_comp_id c.target_comp_id)
          (bytes_eq m.target_comp_id c.sender_comp_id))
    where
      go :
          (a b : Bool)
          → Ends
              (λ _ s. (s ≡ c) × ((a ≡ true) × (b ≡ true)))
              (Calm c)
              (if not a && true
                then reject_comp_id timer m sender_comp_id_wrong_error
                    (codes "SenderCompID is wrong")
                    c
                else if not b
                then (if false
                    then (failed (terminate target_comp_id_wrong_error), shutdown c)
                    else reject_comp_id timer m target_comp_id_wrong_error
                        (codes "TargetCompID is wrong")
                        c)
                else (done tt, c))
      go false b = Ends-never _ (Calm c) _ (reject_never m _ _ c)
      go true false = Ends-never _ (Calm c) _ (reject_never m _ _ c)
      go true true = (refl, (refl, refl))

  start-IsCalm : (n : ℤ) → IsCalm {B = B} (start_heart_bt timer n)
  unfolding start_heart_bt set_heart_bt_durations log_out_now
  start-IsCalm (pos zero) = stay _
  start-IsCalm (pos (suc n)) =
      seq _ _ (seq _ _ (λ c. step _ c _ refl refl) (reset_outbound-IsCalm timer))
        (reset_inbound-IsCalm timer)
  start-IsCalm (negsuc n) = seq _ _ (initiate_logout-IsCalm timer _ _) (stay _)

  accepted-IsCalm : (l : Logon) → IsCalm {B = B} (logon_accepted timer l)
  unfolding logon_accepted is_delivery
  accepted-IsCalm l =
      seq _ _
        (seq _ _ (seq _ _ (λ c. step _ c _ refl refl) (start-IsCalm l.heart_bt_int))
          (λ c. step _ c _ refl refl))
        (λ c. send-IsCalm (session_established c.token) refl c)

  -- Only a Logon is accepted as the answer to a Logon.
  answered_lem :
      (m : FixtMessage) (c : InternalConnection B T)
      → Ends
          (λ _ s. Calm c s × ((l : Logon) × (m.body ≡ logon l)))
          (Calm c)
          (logon_answered timer m c)
  unfolding logon_answered not_a_logon
  answered_lem m c =
      Ends-if_let (λ _ s. Calm c s × ((l : Logon) × (m.body ≡ logon l))) (Calm c) (as_logon m.body)
        _ _ c
        (λ l e.
          Ends-weaken (λ _ s. Calm c s) _ (Calm c) (Calm c) _ (to_ends c _ (accepted-IsCalm l c))
            (λ _ s k. (k, (l, of_logon m.body l e))) (λ _ k. k))
        (λ _. Ends-never _ (Calm c) _ (log_out_never _ _ c))

  abbrev pub LoggedOn :
      FixtMessage → InternalConnection B T → Bool → InternalConnection B T → Type 0
  LoggedOn m c b s =
      Calm c s
      × (((is_sending_logon c.status ≡ true) × ((l : Logon) × (m.body ≡ logon l)))
          ⊎ ((b ≡ false) × (s ≡ c)))

  pub logon_lem :
      (m : FixtMessage) (c : InternalConnection B T)
      → is_receiving_logon c.status ≡ false
      → Ends (LoggedOn m c) (Calm c) (on_logon timer m c)
  unfolding on_logon ◌>>◌ ◌>>=◌
  logon_lem m c h =
      Ends-if (LoggedOn m c) (Calm c) (is_sending_logon c.status) _ _
        (λ e.
          Ends-and_then (λ _ s. Calm c s × ((l : Logon) × (m.body ≡ logon l))) (LoggedOn m c)
            (Calm c) (logon_answered timer m c) _ (answered_lem m c) (λ _ s k. (k.0, inl (e, k.1))))
        (λ _. rw (as_receiving-none c.status h) ((Calm-refl c, inr (refl, refl))))
