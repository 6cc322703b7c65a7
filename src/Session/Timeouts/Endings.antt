-- ===== src/Session/Timeouts/Endings.antt =====
-- src/fixt/engine_thread.rs: proofs on how a timeout leaves its connection.
use fix_rs.Prelude.{
  ℕ, Bool, true, false, ◌||◌, Option, none, some, [], ◌∷◌, ◌++◌, if◌then◌else◌, Bytes, ◌≡◌, refl,
  ◌⊎◌, inl, inr, Bool-cases,
}
use fix_rs.Action.{if_let, Outcome, done, failed, panicked, panic, and_then, ◌>>=◌, ◌>>◌}
use fix_rs.Session.Fixt.{heartbeat, test_request, logout_message}
use fix_rs.Session.Status.{
  ConnectionTerminatedReason, logon_never_received_error, test_request_not_responded_error,
  socket_not_writable_timeout_error, logout_no_response_error, logout_no_hang_up_error, TimeoutType,
  outbound, inbound, inbound_test_request, inbound_blocked, continue_logout, no_logon, logout,
  hang_up, is_established, is_receiving_logon,
  is_logging_out_with_resending_request_initiated_by_remote, logging_out, responding,
}
use fix_rs.Session.State.{
  Timer, InternalConnection, Exit, terminate, return_now, from, modify, assert, shutdown,
  set_timeout,
}
use fix_rs.Session.Logout.{respond_to_logout}
use fix_rs.Session.Timeouts.{end_connection, ask_for_life, on_timeout}

-- The reason given for a timeout that ends its connection.
unfoldable pub reason_of : TimeoutType → Option ConnectionTerminatedReason
reason_of outbound = none
reason_of inbound = none
reason_of inbound_test_request = some test_request_not_responded_error
reason_of inbound_blocked = some socket_not_writable_timeout_error
reason_of continue_logout = none
reason_of no_logon = some logon_never_received_error
reason_of logout = some logout_no_response_error
reason_of hang_up = some logout_no_hang_up_error

module _ {B T : Type 0} (timer : Timer T) where
  -- Where the timeout ends its connection: for a TestRequest, where it is established, and for a first Logon,
  -- where it is still awaited; for the others always.
  abbrev pub IsDue : TimeoutType → InternalConnection B T → Type 0
  IsDue inbound_test_request c = is_established c.status ≡ true
  IsDue no_logon c = is_receiving_logon c.status ≡ true
  IsDue _ c = Unit

  -- How the connection goes on, with the timeouts for which it does.
  pub data Continued (time : Bytes) (kind : TimeoutType) (c d : InternalConnection B T)
      : Type 0 where
    not_established :
        (kind ≡ outbound) ⊎ ((kind ≡ inbound) ⊎ (kind ≡ inbound_test_request))
        → is_established c.status ≡ false
        → d ≡ c
        → Continued time kind c d
    kept_alive :
        kind ≡ outbound
        → is_established c.status ≡ true
        → d ≡ record c { outbound_messages = c.outbound_messages ++ (from (heartbeat []) ∷ []) }
        → Continued time kind c d
    asked :
        (duration timeout : ℕ) (state : T)
        → kind ≡ inbound
        → is_established c.status ≡ true
        → c.inbound_testrequest_timeout_duration ≡ some duration
        → timer.set_timeout duration inbound_test_request c.token c.timer ≡ some (timeout, state)
        → d ≡ record c {
          outbound_messages = c.outbound_messages ++ (from (test_request time) ∷ []);
          timer = state;
          inbound_testrequest_timeout = some timeout;
        }
        → Continued time kind c d
    nothing_put_off :
        kind ≡ continue_logout
        → is_logging_out_with_resending_request_initiated_by_remote c.status ≡ false
        → d ≡ c
        → Continued time kind c d
    answered :
        kind ≡ continue_logout
        → is_logging_out_with_resending_request_initiated_by_remote c.status ≡ true
        → d ≡ record c {
          outbound_messages = c.outbound_messages ++ (from (logout_message []) ∷ []);
          status = logging_out responding;
        }
        → Continued time kind c d

  -- By outcome. A panic is that of the timer, of a duration that is missing, or of NoLogon after a Logon.
  abbrev pub TimeoutEnds :
      Bytes
      → TimeoutType
      → InternalConnection B T
      → Outcome Exit (Unit {0}) × InternalConnection B T
      → Type 0
  TimeoutEnds time kind c (done _, d) = Continued time kind c d
  TimeoutEnds time kind c (failed (terminate reason), d) =
      (reason_of kind ≡ some reason)
      × IsDue kind c
      × (d ≡ record c {
        outbound_messages = [];
        outbound_buffer = record {
          bytes = c.outbound_buffer.bytes;
          valid_bytes_begin = 0;
          valid_bytes_end = 0;
        };
        socket_is_shut_down = true;
      })
  TimeoutEnds time kind c (failed return_now, d) = ⊥
  TimeoutEnds time kind c (panicked, d) =
      ((kind ≡ inbound)
        × (is_established c.status ≡ true)
        × ((c.inbound_testrequest_timeout_duration ≡ none)
            ⊎ ((n : ℕ) × ((c.inbound_testrequest_timeout_duration ≡ some n)
                  × (timer.set_timeout n inbound_test_request c.token c.timer ≡ none)))))
      ⊎ ((kind ≡ no_logon) × (is_receiving_logon c.status ≡ false))

  of_test :
      (time : Bytes) (kind : TimeoutType) (c : InternalConnection B T) (b : Bool)
      (x y : Outcome Exit (Unit {0}) × InternalConnection B T)
      → (b ≡ true → TimeoutEnds time kind c x)
      → (b ≡ false → TimeoutEnds time kind c y)
      → TimeoutEnds time kind c (if b then x else y)
  of_test time kind c true x y h k = h refl
  of_test time kind c false x y h k = k refl

  ended :
      (time : Bytes) (kind : TimeoutType) (c : InternalConnection B T)
      (reason : ConnectionTerminatedReason)
      → reason_of kind ≡ some reason
      → IsDue kind c
      → TimeoutEnds time kind c (end_connection timer reason c)
  unfolding end_connection shutdown
  ended time kind c reason e due = (e, due, refl)

  alive_lem :
      (time : Bytes) (c : InternalConnection B T)
      → is_established c.status ≡ true
      → TimeoutEnds time inbound c (ask_for_life timer time c)
  unfolding ask_for_life set_timeout ◌>>◌ ◌>>=◌
  alive_lem time c e = go c.inbound_testrequest_timeout_duration refl
    where
      d : InternalConnection B T
      d = record c { outbound_messages = c.outbound_messages ++ (from (test_request time) ∷ []) }

      set :
          (n : ℕ) (o : Option (ℕ × T))
          → c.inbound_testrequest_timeout_duration ≡ some n
          → timer.set_timeout n inbound_test_request c.token c.timer ≡ o
          → TimeoutEnds time inbound c (
              and_then
                (if_let o (λ s. (λ c'. (done s.0, record c' { timer = s.1 }))) panic d)
                (λ timeout.
                  modify (λ c'. record c' { inbound_testrequest_timeout = some timeout })))
      set n none h k = inl (refl, e, inr (n, (h, k)))
      set n (some s) h k = asked n s.0 s.1 refl e h k refl

      go :
          (o : Option ℕ)
          → c.inbound_testrequest_timeout_duration ≡ o
          → TimeoutEnds time inbound c (
              if_let o
                (λ duration. set_timeout timer duration inbound_test_request >>= λ timeout.
                  modify (λ x. record x { inbound_testrequest_timeout = some timeout }))
                panic
                d)
      go none h = inl (refl, e, inl h)
      go (some n) h = set n (timer.set_timeout n inbound_test_request c.token c.timer) h refl

  answer_lem :
      (time : Bytes) (c : InternalConnection B T)
      → is_logging_out_with_resending_request_initiated_by_remote c.status ≡ true
      → TimeoutEnds time continue_logout c (respond_to_logout timer c)
  unfolding respond_to_logout ◌>>◌ ◌>>=◌
  answer_lem time c e = go (is_established c.status)
    where
      go :
          (b : Bool)
          → TimeoutEnds time continue_logout c (
              and_then
                (and_then
                  (assert
                    (b || is_logging_out_with_resending_request_initiated_by_remote c.status)
                    c)
                  (λ _ s. (
                    done tt,
                    record s {
                      outbound_messages = s.outbound_messages ++ (from (logout_message []) ∷ []);
                    },
                  )))
                (λ _ s. (done tt, record s { status = logging_out responding })))
      go true = answered refl e refl
      go false = rw e (answered refl e refl)

  -- What each kind of timeout does. On an established connection Outbound queues exactly one Heartbeat without
  -- an identifier, and Inbound exactly one TestRequest with the time and sets the timeout of its answer, or panics where that
  -- timeout has no duration or cannot be set; ContinueLogout answers the Logout that had been put off, where there is
  -- one; where that is not the status these change nothing. InboundTestRequest on an established connection (on others it changes
  -- nothing), NoLogon while the first Logon is awaited (later it panics), and InboundBlocked, Logout and HangUp always terminate the connection
  -- with the reason of their kind, its socket shut down and its queue and buffer empty. Nothing else of the connection changes.
  pub on_timeout-TimeoutEnds :
      (time : Bytes) (kind : TimeoutType) (c : InternalConnection B T)
      → TimeoutEnds time kind c (on_timeout timer time kind c)
  unfolding on_timeout reason_of ◌>>◌ ◌>>=◌
  on_timeout-TimeoutEnds time outbound c =
      of_test time outbound c (is_established c.status) _ _ (λ e. kept_alive refl e refl)
        (λ e. not_established (inl refl) e refl)
  on_timeout-TimeoutEnds time inbound c =
      of_test time inbound c (is_established c.status) _ _ (alive_lem time c)
        (λ e. not_established (inr (inl refl)) e refl)
  on_timeout-TimeoutEnds time inbound_test_request c =
      of_test time inbound_test_request c (is_established c.status) _ _
        (λ e. ended time inbound_test_request c test_request_not_responded_error refl e)
        (λ e. not_established (inr (inr refl)) e refl)
  on_timeout-TimeoutEnds time inbound_blocked c =
      ended time inbound_blocked c socket_not_writable_timeout_error refl tt
  on_timeout-TimeoutEnds time continue_logout c =
      of_test time continue_logout c
        (is_logging_out_with_resending_request_initiated_by_remote c.status) _ _ (answer_lem time c)
        (λ e. nothing_put_off refl e refl)
  on_timeout-TimeoutEnds time no_logon c = elim (Bool-cases (is_receiving_logon c.status)) [
    | inl e ↦ rw e (ended time no_logon c logon_never_received_error refl e)
    | inr e ↦ rw e (inr (refl, e))
  ]
  on_timeout-TimeoutEnds time logout c = ended time logout c logout_no_response_error refl tt
  on_timeout-TimeoutEnds time hang_up c = ended time hang_up c logout_no_hang_up_error refl tt
