-- ===== src/Session/Inbound/Repeated.antt =====
-- src/fixt/engine_thread.rs: proofs on a second error while the connection logs out with one.
use fix_rs.Prelude.{true, false, some, Bytes, ◌≡◌, refl, ap, ◌∙◌}
use mathlib.Core.Bool.{false≢true}
use fix_rs.Version.{FixVersion, fix_version_eq}
use fix_rs.Action.{panic, if_let, panicked, ◌>>=◌, ◌>>◌}
use fix_rs.Parser.State.{Meta}
use fix_rs.Session.Fixt.{FixtMessage}
use fix_rs.Session.Status.{
  ConnectionStatus, ConnectionTerminatedReason, begin_str_wrong_error, error, sending_logon,
  receiving_logon, approving_logon, established, logging_out, is_logging_out_with_error,
  is_receiving_logon,
}
use fix_rs.Session.State.{Timer, InternalConnection}
use fix_rs.Session.Logout.{may_initiate, initiate_logout}
use fix_rs.Session.Inbound.{log_out_now, compare_versions, check_version, on_network_message}

not_receiving :
    (s : ConnectionStatus) → is_logging_out_with_error s ≡ true → is_receiving_logon s ≡ false
unfolding is_logging_out_with_error is_receiving_logon
not_receiving sending_logon h = refl
not_receiving (receiving_logon _ _) h = absurd (false≢true h)
not_receiving approving_logon h = refl
not_receiving established h = refl
not_receiving (logging_out _) h = refl

module _ {B T : Type 0} (timer : Timer T) where
  initiate_logout-panics :
      (reason : ConnectionTerminatedReason) (text : Bytes) (c : InternalConnection B T)
      → is_logging_out_with_error c.status ≡ true
      → initiate_logout timer (error reason) text c ≡ (panicked, c)
  unfolding initiate_logout may_initiate ◌>>◌ ◌>>=◌
  initiate_logout-panics reason text c h = rw h refl

  log_out_now-panics :
      (reason : ConnectionTerminatedReason) (text : Bytes) (c : InternalConnection B T)
      → is_logging_out_with_error c.status ≡ true
      → log_out_now timer reason text c ≡ (panicked, c)
  unfolding log_out_now ◌>>◌ ◌>>=◌
  log_out_now-panics reason text c h = rw (initiate_logout-panics reason text c h) refl

  compare_versions-panics :
      (v w : FixVersion) (c : InternalConnection B T)
      → fix_version_eq v w ≡ false
      → is_logging_out_with_error c.status ≡ true
      → compare_versions timer v w c ≡ (panicked, c)
  unfolding compare_versions
  compare_versions-panics v w c e h = rw e (log_out_now-panics (begin_str_wrong_error v w) _ c h)

  check_version-panics :
      (m : FixtMessage) (meta : Meta) (c : InternalConnection B T)
      → m.meta ≡ some meta
      → fix_version_eq meta.begin_string c.fix_version ≡ false
      → is_logging_out_with_error c.status ≡ true
      → check_version timer m c ≡ (panicked, c)
  unfolding check_version
  check_version-panics m meta c e v h = rw (not_receiving c.status h) (
      ap (λ o. if_let o (λ d. compare_versions timer d.begin_string c.fix_version) panic c) e
      ∙ compare_versions-panics meta.begin_string c.fix_version c v h)

  -- While a connection logs out with an error, a further message of a wrong version makes the handler
  -- panic: the assertion of `initiate_logout` fails.
  pub on_network_message-panics :
      (m : FixtMessage) (meta : Meta) (c : InternalConnection B T)
      → m.meta ≡ some meta
      → fix_version_eq meta.begin_string c.fix_version ≡ false
      → is_logging_out_with_error c.status ≡ true
      → on_network_message timer m c ≡ (panicked, c)
  unfolding on_network_message ◌>>◌ ◌>>=◌
  on_network_message-panics m meta c e v h = rw (check_version-panics m meta c e v h) refl
