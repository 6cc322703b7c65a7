-- ===== src/Session/Thread.antt =====
-- src/fixt/engine_thread.rs: the state of the engine's thread, `InternalThread`. What mio's poll, timer and sockets answer
-- are arguments. A connection carries the timer, the queue of retries and the channel of events while its methods run.
pub mod Kept
pub mod Opening
pub mod Network
pub mod Events
pub mod Loop
use fix_rs.Prelude.{
  ℕ, Bool, true, false, Option, none, some, List, [], ◌∷◌, ◌++◌, ◌==◌, if◌then◌else◌, Bytes,
}
use fix_rs.Action.{if_let, Outcome, Action, done, failed, panicked}
use fix_rs.NetworkReadRetry.{NetworkReadRetry}
use fix_rs.TokenGenerator.{TokenGenerator}
use fix_rs.Session.Status.{ConnectionTerminatedReason}
use fix_rs.Session.State.{
  InternalConnection, ConnectionAction, EngineEvent, Exit, terminate, return_now,
}

-- Hash maps by token, with at most one entry of a token.
module _ {A : Type 0} where
  unfoldable pub get_entry : ℕ → List (ℕ × A) → Option A
  get_entry token [] = none
  get_entry token ((t, a) ∷ m) = if t == token then some a else get_entry token m

  unfoldable pub remove_entry : ℕ → List (ℕ × A) → List (ℕ × A)
  remove_entry token [] = []
  remove_entry token ((t, a) ∷ m) =
      let rest = remove_entry token m in if t == token then rest else (t, a) ∷ rest

  unfoldable pub insert_entry : ℕ → A → List (ℕ × A) → List (ℕ × A)
  unfolding remove_entry
  insert_entry token a m = (token, a) ∷ remove_entry token m

pub record InternalListener : Type 0 where
  pub token : ℕ
  pub sender_comp_id : Bytes

-- `events` is the channel `tx`.
pub record InternalThread (B T : Type 0) : Type 0 where
  pub token_generator : TokenGenerator
  pub events : List EngineEvent
  pub connections : List (ℕ × InternalConnection B T)
  pub listeners : List (ℕ × InternalListener)
  pub timer : T
  pub network_read_retry : NetworkReadRetry

pub data ConnectionEventError (B T : Type 0) : Type 0 where
  terminate_connection :
      InternalConnection B T → ConnectionTerminatedReason → ConnectionEventError B T
  shut_down : ConnectionEventError B T

abbrev pub ThreadAction : Type 0 → Type 0 → Type 0 → Type 0
ThreadAction B T A = Action (InternalThread B T) (ConnectionEventError B T) A

module _ {B T : Type 0} where
  -- `self.tx.send(…).unwrap()`.
  abbrev pub send_event : EngineEvent → ThreadAction B T (Unit {0})
  send_event e s = (done tt, record s { events = s.events ++ (e ∷ []) })

  unfoldable pub load : InternalThread B T → InternalConnection B T → InternalConnection B T
  load s c = record c {
    timer = s.timer;
    network_read_retry = s.network_read_retry;
    events = s.events;
  }

  unfoldable pub store : InternalConnection B T → InternalThread B T → InternalThread B T
  store c s = record s {
    timer = c.timer;
    network_read_retry = c.network_read_retry;
    events = c.events;
  }

  unfoldable pub keep_entry : ℕ → InternalConnection B T → InternalThread B T → InternalThread B T
  unfolding store insert_entry
  keep_entry token c s = record (store c s) { connections = insert_entry token c s.connections }

  -- `connection_entry.remove()`.
  unfoldable pub drop_entry : ℕ → InternalConnection B T → InternalThread B T → InternalThread B T
  unfolding store remove_entry
  drop_entry token c s = record (store c s) { connections = remove_entry token s.connections }

  -- A connection is taken out of the map only when it is to be terminated.
  unfoldable pub leave_entry :
      ℕ → Outcome Exit (Unit {0}) × InternalConnection B T → ThreadAction B T (Unit {0})
  unfolding keep_entry drop_entry
  leave_entry token (done _, c) s = (done tt, keep_entry token c s)
  leave_entry token (failed return_now, c) s = (done tt, keep_entry token c s)
  leave_entry token (failed (terminate reason), c) s =
      (failed (terminate_connection c reason), drop_entry token c s)
  leave_entry token (panicked, c) s = (panicked, keep_entry token c s)

  -- `if let Entry::Occupied(connection_entry) = self.connections.entry(token)`; else nothing happens.
  unfoldable pub with_connection : ℕ → ConnectionAction B T (Unit {0}) → ThreadAction B T (Unit {0})
  unfolding get_entry load leave_entry
  with_connection token action s =
      if_let (get_entry token s.connections) (λ c. leave_entry token (action (load s c)) s)
        (done tt, s)
