-- ===== src/Examples/Threads.antt =====
-- Runs of the engine's thread and of the engine, and instances of their theorems.
use mathlib.Core.Bool.{false≢true}
use fix_rs.Prelude.{
  sym, ◌∙◌, Bool-cases, ℕ, ◌≡◌, ◌≢◌, refl, ◌↔◌, ◌⊎◌, true, false, Option, none, some, List, [], ◌∷◌,
  ◌++◌, ◌==◌, codes, arith, All, inl, inr,
}
use fix_rs.ByteBuffer.{ByteBuffer}
use fix_rs.Action.{done, panicked}
use fix_rs.Version.{FixVersion, MessageVersion, fix_4_2, fix44, fixt_1_1, max_message_version}
use fix_rs.NetworkReadRetry.{contains}
use fix_rs.NetworkReadRetry.Order.{without}
use fix_rs.TokenGenerator
use fix_rs.TokenGenerator.{TokenGenerator, is_active}
use fix_rs.TokenGenerator.Fresh.{IsValid}
use fix_rs.Session.Fixt.{FixtMessage}
use fix_rs.Session.Status.{ConnectionTerminatedReason, remote_requested, outbound}
use fix_rs.Session.State.{Timer, InternalConnection, EngineEvent}
use fix_rs.Session.Requests.{ResendResponse, message, gap}
use fix_rs.Session.Thread.{InternalThread, InternalListener, get_entry}
use fix_rs.Session.Thread.Events.{resend_messages, new_connection}
use fix_rs.Session.Thread.Opening.{accepted, accept}
use fix_rs.Session.Thread.Kept.{has_entry, IsAccounted}
use fix_rs.Session.Thread.Loop.{Terminated, timeout_event, on_event, clean_up_all}
use fix_rs.Session.Thread.Loop.Told.{AllTold}
use fix_rs.Session.Thread.Loop.Cleaned.{
  Released, clean_up_all-Released, contains-without, contains-without-other,
}
use fix_rs.Session.Thread.Loop.Others.{on_event-Kept}
use fix_rs.Session.Thread.Loop.Reachable.{here, step, creates, Reaches-create}
use fix_rs.Engine
use fix_rs.Engine.{
  Engine, send, send_resend_response, message_version_for, add_connection, update_engine,
}
use fix_rs.Engine.Responses.{IsIncreasing, send_resend_response_iff}
use fix_rs.Engine.Adding.{Added, IsEndOf, add_connection-Added}
use fix_rs.Engine.Leaked.{Lost, accept-Lost}
use fix_rs.Examples.Data.{
  administrative, fixed_timer, connection, retry, generator, test_request_numbered,
}

-- A thread with one connection and one listener.
abbrev listener : InternalListener
listener = record { token = 4; sender_comp_id = codes "US" }

abbrev thread : InternalThread (Unit {0}) (Unit {0})
thread = record {
  token_generator = generator;
  events = [];
  connections = (5, record connection { token = 5 }) ∷ [];
  listeners = (4, listener) ∷ [];
  timer = tt;
  network_read_retry = retry;
}

generator-IsValid : IsValid generator
generator-IsValid = record {
  seed_in_range = omega arith;
  room = omega arith;
  within_limit = omega arith;
}

entry_active : (u : ℕ) → has_entry u thread.connections ≡ true → is_active u (5 ∷ []) ≡ true
unfolding get_entry is_active
entry_active u h = elim (Bool-cases (5 == u)) [
  | inl e ↦ rw e refl
  | inr e ↦ absurd (false≢true (sym (no_entry e) ∙ h))
]
  where
    no_entry : (5 == u) ≡ false → has_entry u thread.connections ≡ false
    no_entry e = rw e refl

thread-IsAccounted : IsAccounted thread
thread-IsAccounted = record { valid = generator-IsValid; active = entry_active }

abbrev nine : Option ℕ
nine = some 9

not_five : nine ≢ some 5
not_five e = cc

abbrev same_buffer : FixVersion → MessageVersion → FixtMessage → ByteBuffer → ByteBuffer
same_buffer _ _ _ buffer = buffer

abbrev after_timeout : InternalThread (Unit {0}) (Unit {0})
after_timeout =
    (on_event administrative fixed_timer same_buffer 0 [] 4096 []
      (timeout_event [] (some (outbound, 9)) []) thread).1

on_event-Kept_example :
    IsAccounted after_timeout
    × (has_entry 5 thread.connections ≡ true
        → get_entry 5 after_timeout.connections ≡ get_entry 5 thread.connections)
on_event-Kept_example =
    on_event-Kept 5 administrative fixed_timer same_buffer 0 [] 4096 []
      (timeout_event [] (some (outbound, 9)) []) thread thread-IsAccounted tt not_five

Reaches-create_example :
    IsAccounted (record thread { token_generator = (TokenGenerator.create generator).1 })
    × ((token : ℕ)
        → (TokenGenerator.create (TokenGenerator.create generator).1).0 ≡ some token
        → has_entry token thread.connections ≡ false)
Reaches-create_example =
    Reaches-create administrative fixed_timer same_buffer 0 [] 4096 [] thread
      (record thread { token_generator = (TokenGenerator.create generator).1 }) (step here creates)
      thread-IsAccounted

-- A timer whose state is the handles that are set.
abbrev handles : Timer (List ℕ)
handles = record {
  set_timeout = λ _ _ token set. some (token, token ∷ set);
  cancel_timeout = λ handle set. without handle set;
}

contains-without_lem : (h : ℕ) (set : List ℕ) → ¬ (contains h (without h set) ≡ true)
contains-without_lem h set e = false≢true (sym (contains-without h set) ∙ e)

other_lem : (h u : ℕ) (set : List ℕ) → contains u (without h set) ≡ true → contains u set ≡ true
other_lem h u set e = elim (Bool-cases (contains u set)) [
  | inl k ↦ k
  | inr k ↦ absurd (false≢true (sym (contains-without-other u h set k) ∙ e))
]

-- A connection that has ended with a timeout set, and a thread without it.
abbrev ended : InternalConnection (Unit {0}) (List ℕ)
ended = record {
  fix_version = connection.fix_version;
  default_message_version = connection.default_message_version;
  socket_is_shut_down = true;
  token = 3;
  outbound_messages = [];
  outbound_buffer = connection.outbound_buffer;
  outbound_msg_seq_num = 12;
  outbound_heartbeat_timeout = some 8;
  outbound_heartbeat_timeout_duration = some 30;
  inbound_buffer = connection.inbound_buffer;
  inbound_msg_seq_num = 7;
  inbound_testrequest_timeout = none;
  inbound_testrequest_timeout_duration = none;
  inbound_resend_request_msg_seq_num = none;
  last_seen_begin_seq_no = 0;
  last_seen_count = 0;
  inbound_is_blocked = false;
  inbound_blocked_timeout = none;
  logout_timeout = none;
  parser = connection.parser;
  is_connected = true;
  status = connection.status;
  sender_comp_id = codes "US";
  target_comp_id = codes "THEM";
  timer = [];
  network_read_retry = retry;
  events = [];
}

abbrev timed_thread : InternalThread (Unit {0}) (List ℕ)
timed_thread = record {
  token_generator = generator;
  events = [];
  connections = [];
  listeners = [];
  timer = 8 ∷ 6 ∷ [];
  network_read_retry = retry;
}

abbrev found : Terminated (Unit {0}) (List ℕ)
found = (ended, remote_requested) ∷ []

clean_up_all-Released_example :
    All
      (λ (x : InternalConnection (Unit {0}) (List ℕ) × ConnectionTerminatedReason).
        Released handles
          (λ h set. contains h set ≡ true)
          contains-without_lem
          other_lem
          x.0
          (clean_up_all handles found timed_thread))
      found
    × ((told : List EngineEvent) × AllTold found told
        × ((clean_up_all handles found timed_thread).events ≡ [] ++ told))
    × ((clean_up_all handles found timed_thread).connections ≡ [])
    × ((clean_up_all handles found timed_thread).token_generator ≡ generator)
clean_up_all-Released_example =
    clean_up_all-Released handles (λ h set. contains h set ≡ true) contains-without_lem other_lem
      found timed_thread

-- The thread with a token left.
abbrev waiting_thread : InternalThread (Unit {0}) (Unit {0})
waiting_thread = record thread { token_generator = record generator { seed = 6; max_tokens = 4 } }

waiting_IsAccounted : IsAccounted waiting_thread
waiting_IsAccounted = record {
  valid = record { seed_in_range = omega arith; room = omega arith; within_limit = omega arith };
  active = entry_active;
}

create_lem : (TokenGenerator.create waiting_thread.token_generator).0 ≡ some 6
unfolding TokenGenerator.create TokenGenerator.create_loop
create_lem = refl

accept-Lost_example :
    Lost administrative [] 4096 [] fixed_timer listener 80 1 6 waiting_thread
      (accept administrative [] 4096 [] fixed_timer
        (accepted 80 (some 1))
        listener
        waiting_thread).1
accept-Lost_example =
    accept-Lost administrative [] 4096 [] fixed_timer listener 80 1 6 0 tt waiting_thread
      waiting_IsAccounted create_lem refl

-- The responses to a ResendRequest: a message, and then a gap.
abbrev responses : List ResendResponse
responses = gap 3 5 ∷ []

send_resend_response_iff_example :
    ((send_resend_response 5 (message none (test_request_numbered 2) ∷ responses) Engine.new ≡ (
      done tt,
      send (resend_messages 5 (message none (test_request_numbered 2) ∷ responses)) Engine.new,
    ))
      ↔ IsIncreasing (message none (test_request_numbered 2) ∷ responses))
    × ((send_resend_response 5 (message none (test_request_numbered 2) ∷ responses) Engine.new
          ≡ (panicked, Engine.new))
        ↔ (¬ IsIncreasing (message none (test_request_numbered 2) ∷ responses)))
send_resend_response_iff_example =
    send_resend_response_iff 5 (message none (test_request_numbered 2)) responses Engine.new

-- A gap ends in front of the number that its end is, so that the message behind it has that number; and this panics.
gap_then_message :
    send_resend_response 5 (gap 3 5 ∷ message none (test_request_numbered 5) ∷ []) Engine.new
    ≡ (panicked, Engine.new)
unfolding send_resend_response
gap_then_message = refl

new_IsValid : IsValid Engine.new.token_generator
unfolding TokenGenerator.new
new_IsValid = record { seed_in_range = omega arith; room = omega arith; within_limit = omega arith }

abbrev with_connection : Option ℕ × Engine
with_connection = add_connection fix_4_2 fix44 (codes "US") (codes "THEM") (some 80) Engine.new

add_connection-Added_example :
    Added
      (λ token.
        new_connection token fix_4_2
          (message_version_for fix_4_2 fix44)
          (codes "US")
          (codes "THEM")
          80)
      Engine.new
      with_connection
    × ((fix_4_2 ≡ fixt_1_1) ⊎ (message_version_for fix_4_2 fix44 ≡ max_message_version fix_4_2))
    × ((token : ℕ)
        → with_connection.0 ≡ some token
        → (e : EngineEvent) → IsEndOf token e
        → (u : ℕ)
        → is_active u (update_engine e with_connection.1).token_generator.active_tokens
          ≡ is_active u Engine.new.token_generator.active_tokens)
add_connection-Added_example =
    add_connection-Added fix_4_2 fix44 (codes "US") (codes "THEM") 80 Engine.new new_IsValid
