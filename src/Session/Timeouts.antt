-- ===== src/Session/Timeouts.antt =====
-- src/fixt/engine_thread.rs: what `on_timeout` does to the connection whose timeout it is, before
-- `write`. The text of the time in a TestRequest is a parameter.
pub mod Endings
use fix_rs.Prelude.{
  ℕ, Bool, true, false, Option, none, some, List, [], ◌∷◌, ◌++◌, if◌then◌else◌, Bytes,
}
use fix_rs.Action.{if_let, Outcome, Action, done, failed, panicked, pure, fail, panic, ◌>>=◌, ◌>>◌}
use fix_rs.Session.Fixt.{FixtMessage, heartbeat, test_request}
use fix_rs.Session.Status.{
  ConnectionStatus, ConnectionTerminatedReason, TimeoutType, outbound, inbound,
  inbound_test_request, inbound_blocked, continue_logout, no_logon, logout, hang_up, is_established,
  is_receiving_logon, is_logging_out_with_resending_request_initiated_by_remote,
  test_request_not_responded_error, socket_not_writable_timeout_error, logon_never_received_error,
  logout_no_response_error, logout_no_hang_up_error,
}
use fix_rs.Session.State.{
  Timer, InternalConnection, ConnectionAction, Exit, terminate, from, modify, push, assert,
  shutdown, set_timeout,
}
use fix_rs.Session.Logout.{respond_to_logout}

module _ {B T : Type 0} (timer : Timer T) where
  unfoldable pub end_connection : ConnectionTerminatedReason → ConnectionAction B T (Unit {0})
  unfolding shutdown
  end_connection reason c = (failed (terminate reason), shutdown c)

  unfoldable pub ask_for_life : Bytes → ConnectionAction B T (Unit {0})
  unfolding set_timeout
  ask_for_life time c =
      (push (from (test_request time))
          >> if_let c.inbound_testrequest_timeout_duration
              (λ duration. set_timeout timer duration inbound_test_request >>= λ timeout.
                modify (λ d. record d { inbound_testrequest_timeout = some timeout }))
              panic)
        c

  unfoldable pub on_timeout : Bytes → TimeoutType → ConnectionAction B T (Unit {0})
  unfolding end_connection ask_for_life respond_to_logout is_established is_receiving_logon
      is_logging_out_with_resending_request_initiated_by_remote
  on_timeout time outbound c =
      if is_established c.status then push (from (heartbeat [])) c else (done tt, c)
  on_timeout time inbound c = if is_established c.status then ask_for_life time c else (done tt, c)
  on_timeout time inbound_test_request c =
      if is_established c.status
      then end_connection test_request_not_responded_error c
      else (done tt, c)
  on_timeout time inbound_blocked c = end_connection socket_not_writable_timeout_error c
  on_timeout time continue_logout c =
      if is_logging_out_with_resending_request_initiated_by_remote c.status
      then respond_to_logout timer c
      else (done tt, c)
  on_timeout time no_logon c =
      (assert (is_receiving_logon c.status) >> end_connection logon_never_received_error) c
  on_timeout time logout c = end_connection logout_no_response_error c
  on_timeout time hang_up c = end_connection logout_no_hang_up_error c
