-- ===== src/Engine/Leaked.antt =====
-- src/fixt/engine_thread.rs and src/fixt/engine.rs: proofs that a token is lost where a connection that was accepted cannot be
-- registered.
use mathlib.Core.List.{append_assoc}
use fix_rs.Prelude.{
  ℕ, true, false, Option, none, some, List, [], ◌∷◌, ◌++◌, Bytes, ◌≡◌, refl, sym, ap, ◌∙◌, inl,
}
use fix_rs.FieldTag.{FieldTag}
use fix_rs.Parser.State.{Traits}
use fix_rs.TokenGenerator
use fix_rs.TokenGenerator.{TokenGenerator, is_active}
use fix_rs.TokenGenerator.Fresh.{CreateEnds, create-CreateEnds}
use fix_rs.Session.Fixt.{FixtMessage}
use fix_rs.Session.Status.{no_logon}
use fix_rs.Session.State.{Timer, connection_accepted, connection_dropped}
use fix_rs.Session.Thread.Opening.Kept.{is_active-cons}
use fix_rs.Session.Thread.{InternalThread, InternalListener}
use fix_rs.Session.Thread.Opening.{accepted, register_accepted, wait_for_logon, welcome, accept}
use fix_rs.Session.Thread.Kept.{has_entry, IsAccounted}
use fix_rs.Session.Thread.Loop.Reachable.{created_is_fresh}
use fix_rs.Engine.{Engine, update_engine}

module _ {B T : Type 0} (t : Traits B FixtMessage) (dictionary : List (Bytes × B))
    (max_message_size : ℕ) (value_to_length_tags : List (FieldTag × FieldTag)) (timer : Timer T)
    (listener : InternalListener) (address e : ℕ) where
  -- The token is in use and no connection has it, and the two events that the user gets give back no token.
  pub record Lost (token : ℕ) (s s' : InternalThread B T) : Type 0 where
    pub in_use : is_active token s'.token_generator.active_tokens ≡ true
    pub unowned : has_entry token s'.connections ≡ false
    pub told :
        s'.events
        ≡ s.events
          ++ (connection_accepted listener.token token address
              ∷ connection_dropped listener.token address
              ∷ [])
    pub kept :
        (engine : Engine)
        → update_engine
            (connection_dropped listener.token address)
            (update_engine (connection_accepted listener.token token address) engine)
          ≡ engine

  welcome_lem :
      (token handle : ℕ) (state : T) (s : InternalThread B T) (r : Option ℕ × TokenGenerator)
      → CreateEnds s.token_generator r
      → IsAccounted s
      → r.0 ≡ some token
      → timer.set_timeout 10000 no_logon token s.timer ≡ some (handle, state)
      → Lost token s
          (welcome t dictionary max_message_size value_to_length_tags timer
            (some e)
            listener
            address
            r.0
            (record s { token_generator = r.1 })).1
  unfolding welcome wait_for_logon register_accepted update_engine
  welcome_lem token handle state s (none, g) created accounted h set = absurd (cc)
  welcome_lem token handle state s (some new, g) created accounted h set =
      let same : token ≡ new = cc in
      let fresh = created_is_fresh s (some new, g) created accounted token h in
      rw (sym same, set)
        (record {
          in_use =
              ap (is_active token) created.2
              ∙ is_active-cons token new s.token_generator.active_tokens (inl (sym same));
          unowned = fresh;
          told =
              append_assoc s.events (connection_accepted listener.token token address ∷ [])
                (connection_dropped listener.token address ∷ []);
          kept = λ engine. refl;
        })

  -- Where the tokens are accounted for, there is one left and the timer works: when a connection is accepted and cannot be
  -- registered, its token stays in use though no connection has it, and what the user is told gives it back to no engine.
  pub accept-Lost :
      (token handle : ℕ) (state : T) (s : InternalThread B T)
      → IsAccounted s
      → (TokenGenerator.create s.token_generator).0 ≡ some token
      → timer.set_timeout 10000 no_logon token s.timer ≡ some (handle, state)
      → Lost token s
          (accept t dictionary max_message_size value_to_length_tags timer
            (accepted address (some e))
            listener
            s).1
  unfolding accept
  accept-Lost token handle state s accounted h set =
      welcome_lem token handle state s (TokenGenerator.create s.token_generator)
        (create-CreateEnds s.token_generator accounted.valid) accounted h set
