-- ===== src/Engine.antt =====
-- src/fixt/engine.rs: the engine, through which the user adds connections and listeners and talks to the engine's thread. Addresses
-- are numbers, resolved or not; the tokens are shared with the thread.
pub mod Responses
pub mod Adding
pub mod Leaked
use fix_rs.Prelude.{
  ℕ, ◌+◌, ◌-◌, Bool, true, false, ◌&&◌, Option, none, some, List, [], ◌∷◌, ◌++◌, ltb, leb,
  if◌then◌else◌, Bytes,
}
use fix_rs.Action.{if_let, Outcome, Action, done, failed, panicked, pure, fail, ◌>>=◌, ◌>>◌}
use fix_rs.Version.{
  FixVersion, MessageVersion, fix_4_0, fix_4_1, fix_4_2, fix_4_3, fix_4_4, fixt_1_1, fix40, fix41,
  fix42, fix43, fix44,
}
use fix_rs.TokenGenerator
use fix_rs.TokenGenerator.{TokenGenerator}
use fix_rs.Session.Fixt.{FixtMessage, Logon}
use fix_rs.Session.Requests.{ResendResponse, message, gap}
use fix_rs.Session.State.{EngineEvent, connection_failed, connection_terminated}
use fix_rs.Session.Thread.Events.{
  InternalEngineToThreadEvent, new_connection, new_listener, send_message, resend_messages,
  approve_new_connection, reject_new_connection, logout, shutdown,
}

-- `requests` is what was sent to the thread. The thread holds its receiving end, so that a send does not fail.
pub record Engine : Type 0 where
  pub token_generator : TokenGenerator
  pub requests : List InternalEngineToThreadEvent

-- `Engine::new`, behind the calls of mio: `BASE_CONNECTION_TOKEN` and `CONNECTION_COUNT_MAX`.
abbrev pub new : Engine
new = record { token_generator = TokenGenerator.new 3 (some (65536 - 3)); requests = [] }

abbrev pub send : InternalEngineToThreadEvent → Engine → Engine
send request engine = record engine { requests = engine.requests ++ (request ∷ []) }

-- Only FIXT.1.1 lets messages have another version.
unfoldable pub message_version_for : FixVersion → MessageVersion → MessageVersion
message_version_for fix_4_0 default_message_version = fix40
message_version_for fix_4_1 default_message_version = fix41
message_version_for fix_4_2 default_message_version = fix42
message_version_for fix_4_3 default_message_version = fix43
message_version_for fix_4_4 default_message_version = fix44
message_version_for fixt_1_1 default_message_version = default_message_version

-- What is sent for the token that was created, if one was.
unfoldable pub send_created :
    (ℕ → InternalEngineToThreadEvent) → Option ℕ × TokenGenerator → Engine → Option ℕ × Engine
send_created request (none, generator) engine =
    (none, record engine { token_generator = generator })
send_created request (some token, generator) engine =
    (some token, send (request token) (record engine { token_generator = generator }))

unfoldable pub add_connection :
    FixVersion → MessageVersion → Bytes → Bytes → Option ℕ → Engine → Option ℕ × Engine
unfolding message_version_for send_created TokenGenerator.create
add_connection fix_version default_message_version sender_comp_id target_comp_id none engine =
    (none, engine)
add_connection fix_version default_message_version sender_comp_id target_comp_id (some address)
      engine =
    send_created
      (λ token.
        new_connection token fix_version (message_version_for fix_version default_message_version)
          sender_comp_id target_comp_id address)
      (TokenGenerator.create engine.token_generator) engine

-- `binds` is the error, if any, of `TcpListener::bind`.
unfoldable pub add_listener : Bytes → Option ℕ → Option ℕ → Action Engine ℕ (Option ℕ)
unfolding send_created TokenGenerator.create
add_listener sender_comp_id none binds engine = (done none, engine)
add_listener sender_comp_id (some address) (some e) engine = (failed e, engine)
add_listener sender_comp_id (some address) none engine =
    let (token, after) =
      send_created (λ token. new_listener token sender_comp_id)
        (TokenGenerator.create engine.token_generator) engine in
    (done token, after)

unfoldable pub send_message_box_with_message_version :
    ℕ → Option MessageVersion → FixtMessage → Engine → Engine
send_message_box_with_message_version connection version m engine =
    send (send_message connection version m) engine

unfoldable pub send_message_box : ℕ → FixtMessage → Engine → Engine
unfolding send_message_box_with_message_version
send_message_box connection m engine =
    send_message_box_with_message_version connection none m engine

-- The assertion on a gap fails with `none`.
unfoldable pub resend_response_end : ResendResponse → Option ℕ
resend_response_end (message _ m) = some m.msg_seq_num
resend_response_end (gap start end_seq_no) = if leb start end_seq_no then some end_seq_no else none

-- Whether the assertions on what follows hold.
unfoldable pub is_increasing_from : ℕ → List ResendResponse → Bool
unfolding resend_response_end
is_increasing_from previous [] = true
is_increasing_from previous (r ∷ rs) =
    if_let (resend_response_end r) (λ next. ltb previous next && is_increasing_from next rs) false

unfoldable pub is_increasing : List ResendResponse → Bool
unfolding resend_response_end is_increasing_from
is_increasing [] = true
is_increasing (r ∷ rs) =
    if_let (resend_response_end r) (λ previous. is_increasing_from previous rs) false

unfoldable pub send_resend_response : ℕ → List ResendResponse → Action Engine (Unit {0}) (Unit {0})
unfolding is_increasing
send_resend_response connection [] engine = (done tt, engine)
send_resend_response connection (r ∷ rs) engine =
    if is_increasing (r ∷ rs)
    then (done tt, send (resend_messages connection (r ∷ rs)) engine)
    else (panicked, engine)

-- `inbound_msg_seq_num.into().unwrap_or(2)`.
unfoldable pub approve : ℕ → FixtMessage → Logon → Option ℕ → Engine → Engine
approve connection m l inbound_msg_seq_num engine =
    send (approve_new_connection connection m l (if_let inbound_msg_seq_num (λ n. n) 2)) engine

unfoldable pub reject : ℕ → Option Bytes → Engine → Engine
reject connection reason engine = send (reject_new_connection connection reason) engine

unfoldable pub log_out : ℕ → Engine → Engine
log_out connection engine = send (logout connection) engine

-- The token of a connection that has ended may be used again.
unfoldable pub update_engine : EngineEvent → Engine → Engine
unfolding TokenGenerator.remove
update_engine e engine = elim e [
  | connection_failed connection _ ↦ record engine {
    token_generator = TokenGenerator.remove connection engine.token_generator;
  }
  | connection_terminated connection _ ↦ record engine {
    token_generator = TokenGenerator.remove connection engine.token_generator;
  }
  | _ ↦ engine
]

-- What a try to receive an event gives, or a failed poll.
pub data PollAnswer : Type 0 where
  received : EngineEvent → PollAnswer
  nothing disconnected poll_error : PollAnswer

-- The tries within the time given.
unfoldable pub poll_loop : List PollAnswer → Engine → Option EngineEvent × Engine
unfolding update_engine
poll_loop [] engine = (none, engine)
poll_loop (received e ∷ answers) engine = (some e, update_engine e engine)
poll_loop (nothing ∷ answers) engine = poll_loop answers engine
poll_loop (disconnected ∷ answers) engine = (none, engine)
poll_loop (poll_error ∷ answers) engine = (none, engine)

-- An event that is there already is taken without waiting; `none` in place of the answers is no duration.
unfoldable pub poll :
    Option EngineEvent → Option (List PollAnswer) → Engine → Option EngineEvent × Engine
unfolding update_engine poll_loop
poll (some e) answers engine = (some e, update_engine e engine)
poll none none engine = (none, engine)
poll none (some answers) engine = poll_loop answers engine

-- `Drop`, up to the join of the thread.
unfoldable pub drop : Engine → Engine
drop engine = send shutdown engine
