-- ===== src/Session/Logout.antt =====
-- src/fixt/engine_thread.rs: `initiate_logout`, `respond_to_logout` and what resumes a logout when
-- the missing messages have arrived. An assertion that fails is a panic.
use fix_rs.Prelude.{Bool, false, not, ◌||◌, none, some, [], ◌∷◌, if◌then◌else◌, Bytes}
use fix_rs.Action.{done, pure, ◌>>=◌, ◌>>◌}
use fix_rs.Session.Fixt.{logout_message}
use fix_rs.Session.Status.{
  ConnectionStatus, LoggingOutType, ok, error, responding, logging_out, logout, is_established,
  is_logging_out, is_logging_out_with_error,
  is_logging_out_with_resending_request_initiated_by_local,
  is_logging_out_with_resending_request_initiated_by_remote,
}
use fix_rs.Session.State.{
  Timer, ConnectionAction, from, modify, push, set_status, assert, set_timeout,
}

unfoldable pub may_initiate : LoggingOutType → ConnectionStatus → Bool
unfolding is_logging_out is_logging_out_with_resending_request_initiated_by_local
    is_logging_out_with_error
may_initiate kind s = elim kind [
  | ok ↦ not (is_logging_out s) || is_logging_out_with_resending_request_initiated_by_local s
  | error _ ↦ not (is_logging_out_with_error s)
  | _ ↦ false
]

module _ {B T : Type 0} (timer : Timer T) where
  -- The timer that ends a clean logout without an answer.
  unfoldable pub start_logout_timeout : LoggingOutType → ConnectionAction B T (Unit {0})
  unfolding set_timeout
  start_logout_timeout kind = elim kind [
    | ok ↦ set_timeout timer 10000 logout >>= λ timeout.
        modify (λ c. record c { logout_timeout = some timeout })
    | _ ↦ pure tt
  ]

  unfoldable pub initiate_logout : LoggingOutType → Bytes → ConnectionAction B T (Unit {0})
  unfolding may_initiate start_logout_timeout
  initiate_logout kind text c =
      (assert (may_initiate kind c.status)
          >> modify (λ c'. record c' { outbound_messages = from (logout_message text) ∷ [] })
          >> start_logout_timeout kind
          >> set_status (logging_out kind))
        c

  unfoldable pub respond_to_logout : ConnectionAction B T (Unit {0})
  unfolding is_established is_logging_out_with_resending_request_initiated_by_remote
  respond_to_logout c =
      (assert (
            is_established c.status
            || is_logging_out_with_resending_request_initiated_by_remote c.status)
          >> push (from (logout_message []))
          >> set_status (logging_out responding))
        c

  unfoldable pub clear_inbound_resend_request_msg_seq_num : ConnectionAction B T (Unit {0})
  unfolding respond_to_logout initiate_logout
  clear_inbound_resend_request_msg_seq_num c =
      let d = record c { inbound_resend_request_msg_seq_num = none } in
      if is_logging_out_with_resending_request_initiated_by_remote c.status
      then respond_to_logout d
      else if is_logging_out_with_resending_request_initiated_by_local c.status
      then initiate_logout ok [] d
      else (done tt, d)
