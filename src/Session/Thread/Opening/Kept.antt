-- ===== src/Session/Thread/Opening/Kept.antt =====
-- src/fixt/engine_thread.rs: proofs that a connection that is opened or accepted leaves the others as they are.
use mathlib.Core.Path.{subst}
use mathlib.Core.Bool.{false≢true}
use fix_rs.Prelude.{
  ℕ, true, Option, none, some, List, [], ◌∷◌, ◌++◌, Bytes, ◌≡◌, ◌≢◌, refl, sym, ap, ◌∙◌, ◌⊎◌, inl,
  inr, arith,
}
use fix_rs.Action.{if_let, panicked}
use fix_rs.Action.Ends.{Keeps}
use fix_rs.FieldTag.{FieldTag}
use fix_rs.Version.{FixVersion, MessageVersion}
use fix_rs.Parser.State.{Traits}
use fix_rs.TokenGenerator
use fix_rs.TokenGenerator.{TokenGenerator, is_active}
use fix_rs.TokenGenerator.Fresh.{CreateEnds, create-CreateEnds}
use fix_rs.Session.Fixt.{FixtMessage}
use fix_rs.Session.Status.{no_logon}
use fix_rs.Session.State.{Timer, connection_accepted}
use fix_rs.Session.Thread.{InternalThread, InternalListener}
use fix_rs.Session.Thread.Opening.{
  ConnectAnswer, connect_error, connecting, AcceptAnswer, accept_error, accepted, new_connection,
  open_connection, register_accepted, wait_for_logon, welcome, accept,
}
use fix_rs.Session.Thread.Kept.{has_entry, Kept, Kept-same, Kept-insert}

pub is_active-cons :
    (v token : ℕ) (ts : List ℕ)
    → (token ≡ v) ⊎ (is_active v ts ≡ true)
    → is_active v (token ∷ ts) ≡ true
unfolding is_active
is_active-cons v token ts (inl e) = ground arith
is_active-cons v token ts (inr e) = ground arith

module _ {B T : Type 0} (u : ℕ) (t : Traits B FixtMessage) (dictionary : List (Bytes × B))
    (max_message_size : ℕ) (value_to_length_tags : List (FieldTag × FieldTag)) where
  pub open_connection-Kept :
      (answer : ConnectAnswer) (token : ℕ) (fix_version : FixVersion) (version : MessageVersion)
      (sender target : Bytes) (s : InternalThread B T)
      → u ≢ token
      → is_active token s.token_generator.active_tokens ≡ true
      → Kept u s
          (open_connection t dictionary max_message_size value_to_length_tags answer token
            fix_version version sender target s).1
  unfolding open_connection
  open_connection-Kept (connect_error e) token fix_version version sender target s other h =
      Kept-same u s _ refl refl
  open_connection-Kept (connecting (some e)) token fix_version version sender target s other h =
      Kept-same u s _ refl refl
  open_connection-Kept (connecting none) token fix_version version sender target s other h =
      Kept-insert u s token
        (new_connection t dictionary max_message_size value_to_length_tags fix_version version token
          sender target s)
        _ (λ _. other) h refl refl

  -- The token of an accepted connection is not in use before.
  wait_for_logon-Kept :
      (timer : Timer T) (registered : Option ℕ) (listener : InternalListener) (address token : ℕ)
      (s : InternalThread B T)
      → (has_entry u s.connections ≡ true → u ≢ token)
      → is_active token s.token_generator.active_tokens ≡ true
      → Kept u s
          (wait_for_logon t dictionary max_message_size value_to_length_tags timer registered
            listener address token s).1
  unfolding wait_for_logon register_accepted
  wait_for_logon-Kept timer registered listener address token s other h =
      go registered (timer.set_timeout 10000 no_logon token s.timer)
    where
      go :
          (registered : Option ℕ) (o : Option (ℕ × T))
          → Kept u s
              (if_let o
                (λ set.
                  register_accepted t dictionary max_message_size value_to_length_tags registered
                    listener address token set.0
                    (record s { timer = set.1 }))
                (panicked, s)).1
      go registered none = Kept-same u s s refl refl
      go none (some set) = Kept-insert u s token _ _ other h refl refl
      go (some e) (some set) = Kept-same u s _ refl refl

  welcome-Kept :
      (timer : Timer T) (registered : Option ℕ) (listener : InternalListener) (address : ℕ)
      (s : InternalThread B T) (r : Option ℕ × TokenGenerator)
      → CreateEnds s.token_generator r
      → Kept u s
          (welcome t dictionary max_message_size value_to_length_tags timer registered listener
            address r.0
            (record s { token_generator = r.1 })).1
  unfolding welcome
  welcome-Kept timer registered listener address s (none, g) (_, same) accounted =
      Kept-same u s _ refl same accounted
  welcome-Kept timer registered listener address s (some token, g) (unused, _, more, valid)
        accounted =
      let next : InternalThread B T = record s {
        token_generator = g;
        events = s.events ++ (connection_accepted listener.token token address ∷ []);
      } in
      let active : (v : ℕ)
          → (token ≡ v) ⊎ (is_active v s.token_generator.active_tokens ≡ true)
          → is_active v g.active_tokens ≡ true =
        λ v h. ap (is_active v) more ∙ is_active-cons v token s.token_generator.active_tokens h in
      wait_for_logon-Kept timer registered listener address token next
        (λ has e. false≢true (
          sym unused
          ∙ subst (λ (v : ℕ). is_active v s.token_generator.active_tokens ≡ true) e
              (accounted.active u has)))
        (active token (inl refl))
        (record { valid = valid; active = λ v has. active v (inr (accounted.active v has)) })

  pub accept-Kept :
      (timer : Timer T) (answer : AcceptAnswer) (listener : InternalListener)
      → Keeps
          (Kept u)
          (accept t dictionary max_message_size value_to_length_tags timer answer listener)
  unfolding accept
  accept-Kept timer (accept_error e) listener s accounted = Kept-same u s _ refl refl accounted
  accept-Kept timer (accepted address registered) listener s accounted =
      welcome-Kept timer registered listener address s (TokenGenerator.create s.token_generator)
        (create-CreateEnds s.token_generator accounted.valid) accounted
