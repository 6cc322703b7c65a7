-- ===== src/Session/Thread/Loop/Told.antt =====
-- src/fixt/engine_thread.rs: what the user is told of connections that end.
use fix_rs.Prelude.{ℕ, List, [], ◌∷◌, ◌≡◌, refl, Bool, true, false, if◌then◌else◌}
use fix_rs.Session.Status.{
  ConnectionTerminatedReason, begin_str_wrong_error, inbound_msg_seq_num_max_exceeded_error,
  inbound_msg_seq_num_lower_than_expected_error, inbound_resend_request_loop_error, local_requested,
  logon_heart_bt_int_negative_error, logon_parse_error, logon_never_received_error,
  logon_not_first_message_error, logon_rejected_error, logout_no_hang_up_error,
  logout_no_response_error, outbound_msg_seq_num_max_exceeded_error, remote_requested,
  sender_comp_id_wrong_error, socket_not_writable_timeout_error, socket_read_error,
  socket_write_error, target_comp_id_wrong_error, test_request_not_responded_error,
}
use fix_rs.Session.State.{
  Timer, InternalConnection, EngineEvent, connection_failed, connection_terminated,
}
use fix_rs.Session.Thread.Loop.{Terminated, ended_event}

module _ {B T : Type 0} where
  -- What the user is told of a connection that ends: that it failed, where its socket was never connected and the reason is
  -- an error of reading; that it was terminated, and why, for every other.
  pub data IsTold (c : InternalConnection B T) (reason : ConnectionTerminatedReason)
      : EngineEvent → Type 0 where
    of_failure :
        (error : ℕ)
        → reason ≡ socket_read_error error
        → c.is_connected ≡ false
        → IsTold c reason (connection_failed c.token error)
    of_termination :
        ((error : ℕ) → reason ≡ socket_read_error error → c.is_connected ≡ true)
        → IsTold c reason (connection_terminated c.token reason)

  -- One event for each connection, in the order in which they were terminated.
  pub data AllTold : Terminated B T → List EngineEvent → Type 0 where
    none_told : AllTold [] []
    one_told :
        {c : InternalConnection B T} {reason : ConnectionTerminatedReason} {event : EngineEvent}
        {found : Terminated B T} {events : List EngineEvent}
        → IsTold c reason event
        → AllTold found events
        → AllTold ((c, reason) ∷ found) (event ∷ events)

module _ {B T : Type 0} (timer : Timer T) where
  pub ended_event-IsTold :
      (c : InternalConnection B T) (reason : ConnectionTerminatedReason)
      → IsTold c reason (ended_event timer c reason)
  unfolding ended_event
  ended_event-IsTold c (socket_read_error error) = go c.is_connected refl
    where
      go :
          (b : Bool)
          → c.is_connected ≡ b
          → IsTold c (socket_read_error error) (
              if b
              then connection_terminated c.token (socket_read_error error)
              else connection_failed c.token error)
      go true h = of_termination (λ _ _. h)
      go false h = of_failure error refl h
  ended_event-IsTold c (begin_str_wrong_error _ _) = of_termination (λ _ e. cc)
  ended_event-IsTold c inbound_msg_seq_num_max_exceeded_error = of_termination (λ _ e. cc)
  ended_event-IsTold c inbound_msg_seq_num_lower_than_expected_error = of_termination (λ _ e. cc)
  ended_event-IsTold c inbound_resend_request_loop_error = of_termination (λ _ e. cc)
  ended_event-IsTold c local_requested = of_termination (λ _ e. cc)
  ended_event-IsTold c logon_heart_bt_int_negative_error = of_termination (λ _ e. cc)
  ended_event-IsTold c (logon_parse_error _) = of_termination (λ _ e. cc)
  ended_event-IsTold c logon_never_received_error = of_termination (λ _ e. cc)
  ended_event-IsTold c logon_not_first_message_error = of_termination (λ _ e. cc)
  ended_event-IsTold c logon_rejected_error = of_termination (λ _ e. cc)
  ended_event-IsTold c logout_no_hang_up_error = of_termination (λ _ e. cc)
  ended_event-IsTold c logout_no_response_error = of_termination (λ _ e. cc)
  ended_event-IsTold c outbound_msg_seq_num_max_exceeded_error = of_termination (λ _ e. cc)
  ended_event-IsTold c remote_requested = of_termination (λ _ e. cc)
  ended_event-IsTold c sender_comp_id_wrong_error = of_termination (λ _ e. cc)
  ended_event-IsTold c socket_not_writable_timeout_error = of_termination (λ _ e. cc)
  ended_event-IsTold c (socket_write_error _) = of_termination (λ _ e. cc)
  ended_event-IsTold c target_comp_id_wrong_error = of_termination (λ _ e. cc)
  ended_event-IsTold c test_request_not_responded_error = of_termination (λ _ e. cc)
