-- ===== src/Session/Thread/Loop/Cleaned.antt =====
-- src/fixt/engine_thread.rs: proofs on what is left of the connections that a round has terminated.
use mathlib.Core.List.{append_assoc, append-nil}
use mathlib.Core.Path.{subst}
use fix_rs.Prelude.{
  ℕ, false, Option, none, some, List, [], ◌∷◌, ◌++◌, ◌==◌, ◌≡◌, refl, sym, ap, ◌∙◌, Bool-cases, inl,
  inr, arith, All,
}
use fix_rs.NetworkReadRetry.{NetworkReadRetry, contains, remove_all}
use fix_rs.NetworkReadRetry.Order.{without, remove_all-without}
use fix_rs.Action.{if_let}
use fix_rs.Session.Status.{
  ConnectionTerminatedReason, ConnectionStatus, receiving_logon, as_receiving_logon,
}
use fix_rs.Session.State.{Timer, InternalConnection, EngineEvent}
use fix_rs.Session.Thread.{InternalThread}
use fix_rs.Session.Thread.Loop.Told.{AllTold, none_told, one_told, ended_event-IsTold}
use fix_rs.Session.Thread.Loop.{
  Terminated, cancel_optional, cancel_timeouts, timeouts, ended_event, clean_up, clean_up_all,
}

pub contains-without : (token : ℕ) (ts : List ℕ) → contains token (without token ts) ≡ false
unfolding contains without
contains-without token [] = refl
contains-without token (t ∷ ts) = elim (Bool-cases (t == token)) [
  | inl e ↦ rw e (contains-without token ts)
  | inr e ↦ rw (e, e) (contains-without token ts)
]

pub contains-without-other :
    (u token : ℕ) (ts : List ℕ) → contains u ts ≡ false → contains u (without token ts) ≡ false
unfolding contains without
contains-without-other u token [] h = refl
contains-without-other u token (t ∷ ts) h = ground (arith, contains-without-other u token ts)

queue_lem :
    (t u : ℕ) (q : NetworkReadRetry)
    → contains u (without t q.tokens_to_retry) ≡ false
    → contains u (remove_all t q).tokens_to_retry ≡ false
queue_lem t u q h = ap (contains u) (remove_all-without t q) ∙ h

-- Which handles of the timer are set.
module _ {T : Type 0} (timer : Timer T) (IsPending : ℕ → T → Type 0)
    (cancels : (h : ℕ) (state : T) → ¬ IsPending h (timer.cancel_timeout h state))
    (sets_none : (h u : ℕ) (state : T)
      → IsPending u (timer.cancel_timeout h state)
      → IsPending u state) where
  abbrev pub IsOff : Option ℕ → T → Type 0
  IsOff none state = Unit
  IsOff (some h) state = ¬ IsPending h state

  cancel_optional-IsOff : (o : Option ℕ) (state : T) → IsOff o (cancel_optional timer o state)
  unfolding cancel_optional
  cancel_optional-IsOff none state = tt
  cancel_optional-IsOff (some h) state = cancels h state

  cancel_optional-keeps :
      (o p : Option ℕ) (state : T) → IsOff o state → IsOff o (cancel_optional timer p state)
  unfolding cancel_optional
  cancel_optional-keeps none p state h = tt
  cancel_optional-keeps (some u) none state h = h
  cancel_optional-keeps (some u) (some v) state h = λ k. h (sets_none v u state k)

  cancel_timeouts-keeps :
      (o : Option ℕ) (os : List (Option ℕ)) (state : T)
      → IsOff o state
      → IsOff o (cancel_timeouts timer os state)
  unfolding cancel_timeouts
  cancel_timeouts-keeps o [] state h = h
  cancel_timeouts-keeps o (p ∷ os) state h =
      cancel_timeouts-keeps o os (cancel_optional timer p state) (cancel_optional-keeps o p state h)

  abbrev pub AllOff : List (Option ℕ) → T → Type 0
  AllOff os state = All (λ o. IsOff o state) os

  cancel_timeouts-off :
      (os : List (Option ℕ)) (state : T) → AllOff os (cancel_timeouts timer os state)
  unfolding cancel_timeouts
  cancel_timeouts-off [] state = tt
  cancel_timeouts-off (o ∷ os) state = (
    cancel_timeouts-keeps o os (cancel_optional timer o state) (cancel_optional-IsOff o state),
    cancel_timeouts-off os (cancel_optional timer o state),
  )

  module _ {B : Type 0} where
    -- No timeout of the connection is set, that of its first Logon too, and it is not to be read again.
    pub record Released (c : InternalConnection B T) (s : InternalThread B T) : Type 0 where
      pub outbound_off : IsOff c.outbound_heartbeat_timeout s.timer
      pub inbound_off : IsOff c.inbound_testrequest_timeout s.timer
      pub blocked_off : IsOff c.inbound_blocked_timeout s.timer
      pub logout_off : IsOff c.logout_timeout s.timer
      pub logon_off :
          (listener timeout : ℕ)
          → c.status ≡ receiving_logon listener timeout
          → ¬ IsPending timeout s.timer
      pub not_queued : contains c.token s.network_read_retry.tokens_to_retry ≡ false

    of_timeouts :
        (c : InternalConnection B T) (s : InternalThread B T)
        → AllOff (timeouts timer c) s.timer
        → contains c.token s.network_read_retry.tokens_to_retry ≡ false
        → Released c s
    unfolding timeouts as_receiving_logon
    of_timeouts c s (outbound, (inbound, (blocked, (logout, (logon, _))))) queued = record {
      outbound_off = outbound;
      inbound_off = inbound;
      blocked_off = blocked;
      logout_off = logout;
      logon_off = λ listener timeout e.
          subst
            (λ (st : ConnectionStatus).
              IsOff (if_let (as_receiving_logon st) (λ logon. some logon.1) none) s.timer)
            e logon;
      not_queued = queued;
    }

    clean_up-Released :
        (c : InternalConnection B T) (reason : ConnectionTerminatedReason) (s : InternalThread B T)
        → Released c (clean_up timer c reason s)
    unfolding clean_up
    clean_up-Released c reason s =
        of_timeouts c (clean_up timer c reason s) (cancel_timeouts-off (timeouts timer c) s.timer) (
          queue_lem c.token c.token s.network_read_retry
            (contains-without c.token s.network_read_retry.tokens_to_retry))

    IsOff-keeps :
        (o : Option ℕ) (c : InternalConnection B T) (state : T)
        → IsOff o state
        → IsOff o (cancel_timeouts timer (timeouts timer c) state)
    IsOff-keeps o c state h = cancel_timeouts-keeps o (timeouts timer c) state h

    clean_up-keeps :
        (d c : InternalConnection B T) (reason : ConnectionTerminatedReason)
        (s : InternalThread B T)
        → Released d s
        → Released d (clean_up timer c reason s)
    unfolding clean_up
    clean_up-keeps d c reason s r = record {
      outbound_off = IsOff-keeps d.outbound_heartbeat_timeout c s.timer r.outbound_off;
      inbound_off = IsOff-keeps d.inbound_testrequest_timeout c s.timer r.inbound_off;
      blocked_off = IsOff-keeps d.inbound_blocked_timeout c s.timer r.blocked_off;
      logout_off = IsOff-keeps d.logout_timeout c s.timer r.logout_off;
      logon_off = λ listener timeout e.
          IsOff-keeps (some timeout) c s.timer (r.logon_off listener timeout e);
      not_queued = queue_lem c.token d.token s.network_read_retry (
          contains-without-other d.token c.token s.network_read_retry.tokens_to_retry r.not_queued);
    }

    clean_up_all-keeps :
        (d : InternalConnection B T) (found : Terminated B T) (s : InternalThread B T)
        → Released d s
        → Released d (clean_up_all timer found s)
    unfolding clean_up_all
    clean_up_all-keeps d [] s r = r
    clean_up_all-keeps d ((c, reason) ∷ found) s r =
        clean_up_all-keeps d found (clean_up timer c reason s) (clean_up-keeps d c reason s r)

    -- Where a timeout that is cancelled is not set, and cancelling sets none: behind the clean-up of a round, of each
    -- connection that the round has terminated, the timeouts of its Heartbeat, TestRequest, blocked socket, Logout and first
    -- Logon are not set, and it is not to be read again. The user is told of each once, in their order, behind what was sent
    -- before: that it failed, where its socket was never connected and could not be read, else that it was terminated and why.
    -- The other connections and the tokens are as they were.
    pub clean_up_all-Released :
        (found : Terminated B T) (s : InternalThread B T)
        → All
            (λ (x : InternalConnection B T × ConnectionTerminatedReason).
              Released x.0 (clean_up_all timer found s))
            found
          × ((told : List EngineEvent) × AllTold found told
              × ((clean_up_all timer found s).events ≡ s.events ++ told))
          × ((clean_up_all timer found s).connections ≡ s.connections)
          × ((clean_up_all timer found s).token_generator ≡ s.token_generator)
    unfolding clean_up_all clean_up
    clean_up_all-Released [] s = (tt, ([], none_told, sym (append-nil s.events)), refl, refl)
    clean_up_all-Released ((c, reason) ∷ found) s =
        let next = clean_up timer c reason s in
        let (released, (told, each, events), connections, tokens) =
          clean_up_all-Released found next in
        let event = ended_event timer c reason in
        (
          (clean_up_all-keeps c found next (clean_up-Released c reason s), released),
          (
            event ∷ told,
            one_told (ended_event-IsTold timer c reason) each,
            events ∙ append_assoc s.events (event ∷ []) told,
          ),
          connections,
          tokens,
        )
