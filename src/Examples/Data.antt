-- ===== src/Examples/Data.antt =====
-- The inputs: a message type with two fields, and a connection with a timer that never fails.
use fix_rs.Prelude.{
  ℕ, true, false, none, some, List, [], ◌∷◌, ◌++◌, Bytes, codes, ◌==◌, if◌then◌else◌,
}
use fix_rs.Version.{fix44, fix_4_4, fix42, fix_4_2}
use fix_rs.ByteBuffer
use fix_rs.ByteBuffer.{ByteBuffer}
use fix_rs.Parser.State.{Parser, second_byte, Traits, nothing, was_set, initial}
use fix_rs.NetworkReadRetry.{NetworkReadRetry}
use fix_rs.Session.Fixt.{application, FixtMessage, fresh, test_request}
use fix_rs.TokenGenerator.{TokenGenerator}
use fix_rs.Session.Status.{logging_out, error, sender_comp_id_wrong_error, established}
use fix_rs.Session.State.{from, Timer, InternalConnection}

-- Messages are the list of their fields.
abbrev pub Fields : Type 0
Fields = List (ℕ × Bytes)

abbrev pub two_fields : Traits (Unit {0}) Fields
two_fields = record {
  first_field = λ _ _. 49;
  fields = λ _ _. (49, nothing) ∷ (56, nothing) ∷ (58, nothing) ∷ [];
  required_fields = λ _ _. 49 ∷ 56 ∷ [];
  build = λ _. [];
  conditional_required_fields = λ _ _. [];
  set_meta = λ _ m. m;
  set_value = λ tag bytes m. was_set (m ++ ((tag, bytes) ∷ []));
  set_groups = λ _ _ m. m;
  msg_type = λ _. codes "0";
  null_message = [];
}

abbrev pub new_parser : Parser (Unit {0}) Fields
new_parser = initial two_fields ((codes "0", tt) ∷ []) 4096 []

-- The bytes of a text with `|` for the end of a field.
unfoldable pub with_ends : Bytes → Bytes
with_ends [] = []
with_ends (b ∷ bs) = (if b == b'|' then 1 else b) ∷ with_ends bs

unfoldable pub heartbeat_bytes : Bytes
unfolding with_ends
heartbeat_bytes = with_ends (codes "8=FIX.4.2|9=17|35=0|49=AB|56=CD|10=050|")

-- A parser that has read `10=050` and its end, behind bytes of sum 50.
abbrev pub at_checksum : Parser (Unit {0}) Fields
at_checksum = record new_parser {
  found_message = second_byte;
  current_tag = 10;
  current_bytes = codes "050";
  checksum = 102;
  next_tag_checksum = true;
  found_tag_count = 5;
}

abbrev pub buffer : ByteBuffer
buffer = record { bytes = codes "abcd"; valid_bytes_begin = 1; valid_bytes_end = 4 }

abbrev pub retry : NetworkReadRetry
retry = record { tokens_to_retry = 3 ∷ 5 ∷ []; set_readiness = some false }

-- A timer whose handles are all 0.
abbrev pub fixed_timer : Timer (Unit {0})
fixed_timer = record { set_timeout = λ _ _ _ t. some (0, t); cancel_timeout = λ _ t. t }

abbrev pub administrative : Traits (Unit {0}) FixtMessage
administrative = record {
  first_field = λ _ _. 49;
  fields = λ _ _. (49, nothing) ∷ (56, nothing) ∷ (112, nothing) ∷ [];
  required_fields = λ _ _. 49 ∷ 56 ∷ 112 ∷ [];
  build = λ _. fresh (test_request []);
  conditional_required_fields = λ _ _. [];
  set_meta = λ _ m. m;
  set_value = λ _ _ m. was_set m;
  set_groups = λ _ _ m. m;
  msg_type = λ _. codes "1";
  null_message = fresh (application []);
}

-- Established, with 7 as the number expected next.
abbrev pub connection : InternalConnection (Unit {0}) (Unit {0})
connection = record {
  fix_version = fix_4_2;
  default_message_version = fix42;
  socket_is_shut_down = false;
  token = 3;
  outbound_messages = [];
  outbound_buffer = ByteBuffer.new;
  outbound_msg_seq_num = 12;
  outbound_heartbeat_timeout = none;
  outbound_heartbeat_timeout_duration = none;
  inbound_buffer = buffer;
  inbound_msg_seq_num = 7;
  inbound_testrequest_timeout = none;
  inbound_testrequest_timeout_duration = none;
  inbound_resend_request_msg_seq_num = none;
  last_seen_begin_seq_no = 0;
  last_seen_count = 0;
  inbound_is_blocked = false;
  inbound_blocked_timeout = none;
  logout_timeout = none;
  parser = initial administrative ((codes "1", tt) ∷ []) 4096 [];
  is_connected = true;
  status = established;
  sender_comp_id = codes "US";
  target_comp_id = codes "THEM";
  timer = tt;
  network_read_retry = retry;
  events = [];
}

-- A TestRequest to that connection with the number given.
abbrev pub test_request_numbered : ℕ → FixtMessage
test_request_numbered n = record {
  meta =
      some (record {
        begin_string = fix_4_2;
        body_length = 50;
        message_version = fix42;
        checksum = 9;
      });
  sender_comp_id = codes "THEM";
  target_comp_id = codes "US";
  msg_seq_num = n;
  poss_dup_flag = false;
  sending_time = 100;
  orig_sending_time = 0;
  body = test_request (codes "ping");
}

-- The same connection while it logs out with an error.
abbrev pub failing : InternalConnection (Unit {0}) (Unit {0})
failing = record connection { status = logging_out (error sender_comp_id_wrong_error) }

-- The TestRequest with another version.
abbrev pub other_version : FixtMessage
other_version = record (test_request_numbered 7) {
  meta =
      some (record {
        begin_string = fix_4_4;
        body_length = 50;
        message_version = fix44;
        checksum = 9;
      });
}

-- The connection with two messages to send.
abbrev pub sending : InternalConnection (Unit {0}) (Unit {0})
sending = record connection {
  outbound_messages = from (test_request []) ∷ from (test_request []) ∷ [];
}

abbrev pub generator : TokenGenerator
generator = record { seed = 5; reserved_end = 3; max_tokens = 2; active_tokens = 5 ∷ [] }
