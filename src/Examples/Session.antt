-- ===== src/Examples/Session.antt =====
-- Runs of the session layer, and instances of its theorems.
use fix_rs.Prelude.{[], ◌∷◌, codes, ◌≡◌, refl}
use fix_rs.Action.{panicked, ◌>>=◌, ◌>>◌}
use fix_rs.Action.Ends.{Ends}
use fix_rs.Parser.State.{unknown_tag}
use fix_rs.Session.Fixt.{FixtMessage, heartbeat}
use fix_rs.Session.Status.{is_logging_out_with_error, is_receiving_logon}
use fix_rs.Session.State.{from}
use fix_rs.Session.Calm.{Calm}
use fix_rs.Session.Inbound.{on_network_message}
use fix_rs.Session.Inbound.Delivery.{Delivered, on_network_message-Delivered}
use fix_rs.Session.ParseErrors.{on_network_parse_error}
use fix_rs.Session.ParseErrors.Answers.{ErrorEnds, on_network_parse_error-ErrorEnds}
use fix_rs.Version.{FixVersion, MessageVersion, fix_version_eq, fix_4_4, fix44}
use fix_rs.ByteBuffer.{ByteBuffer}
use fix_rs.Session.Inbound.Repeated.{on_network_message-panics}
use fix_rs.Session.Writing.{write, wrote, would_block}
use fix_rs.Session.Writing.Sent.{Suffix, count_auto}
use fix_rs.Session.Writing.Order.{Stopped, write-Stopped}
use fix_rs.Session.Requests.{gap, on_resend_messages}
use fix_rs.Session.Requests.Resending.{own_request, on_resend_messages-Queued}
use fix_rs.Session.Status.{hang_up}
use fix_rs.Session.Timeouts.{on_timeout}
use fix_rs.Session.Timeouts.Endings.{TimeoutEnds, on_timeout-TimeoutEnds}
use fix_rs.Prelude.{◌+◌}
use fix_rs.Examples.Data.{
  failing, other_version, sending, fixed_timer, connection, test_request_numbered,
}

-- The TestRequest that is expected next is answered and handed over.
test_request_answered :
    (on_network_message fixed_timer (test_request_numbered 7) connection).1.outbound_messages
    ≡ from (heartbeat (codes "ping")) ∷ []
unfolding on_network_message ◌>>=◌ ◌>>◌
test_request_answered = refl

on_network_message-Delivered_example :
    Ends
      (Delivered fixed_timer connection (test_request_numbered 7))
      (Calm connection)
      (on_network_message fixed_timer (test_request_numbered 7) connection)
unfolding is_receiving_logon
on_network_message-Delivered_example =
    on_network_message-Delivered fixed_timer (test_request_numbered 7) connection refl

on_network_parse_error-ErrorEnds_example :
    ErrorEnds (unknown_tag 9999) connection (on_network_parse_error (unknown_tag 9999) connection)
on_network_parse_error-ErrorEnds_example =
    on_network_parse_error-ErrorEnds (unknown_tag 9999) connection

on_network_message-panics_example :
    on_network_message fixed_timer other_version failing ≡ (panicked, failing)
unfolding fix_version_eq is_logging_out_with_error
on_network_message-panics_example =
    on_network_message-panics fixed_timer other_version
      (record { begin_string = fix_4_4; body_length = 50; message_version = fix44; checksum = 9 })
      failing refl refl refl

-- A message that is written as its number only.
abbrev one_byte : FixVersion → MessageVersion → FixtMessage → ByteBuffer → ByteBuffer
one_byte _ _ m _ = record { bytes = m.msg_seq_num ∷ []; valid_bytes_begin = 0; valid_bytes_end = 1 }

write-Stopped_example :
    Ends
      (λ _ d. Stopped fixed_timer one_byte 100 (wrote 1 ∷ would_block ∷ []) sending d)
      (Suffix sending)
      (write fixed_timer one_byte 100 (wrote 1 ∷ would_block ∷ []) sending)
write-Stopped_example = write-Stopped fixed_timer one_byte 100 (wrote 1 ∷ would_block ∷ []) sending

on_resend_messages-Queued_example :
    Ends
      (λ _ d.
        d.outbound_msg_seq_num + count_auto d.outbound_messages
        ≡ sending.outbound_msg_seq_num
          + count_auto sending.outbound_messages
          + own_request sending.inbound_resend_request_msg_seq_num)
      (λ _. Unit {0})
      (on_resend_messages fixed_timer
        (λ _ _ _ b. b)
        100
        (wrote 0 ∷ would_block ∷ [])
        (gap 3 6 ∷ [])
        sending)
on_resend_messages-Queued_example =
    on_resend_messages-Queued fixed_timer (λ _ _ _ b. b) 100 (wrote 0 ∷ would_block ∷ [])
      (gap 3 6 ∷ []) sending

on_timeout-TimeoutEnds_example :
    TimeoutEnds fixed_timer [] hang_up connection (on_timeout fixed_timer [] hang_up connection)
on_timeout-TimeoutEnds_example = on_timeout-TimeoutEnds fixed_timer [] hang_up connection
