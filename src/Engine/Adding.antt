-- ===== src/Engine/Adding.antt =====
-- src/fixt/engine.rs: proofs on the tokens that the engine takes for what it adds, and gives back.
use fix_rs.Prelude.{
  ℕ, ◌≤◌, Bool, true, false, not, ◌&&◌, Option, none, some, [], ◌∷◌, ◌++◌, ◌==◌, if◌then◌else◌,
  Bytes, ◌≡◌, refl, ap, ◌∙◌, Bool-cases, ◌⊎◌, inl, inr, arith,
}
use fix_rs.Version.{
  FixVersion, MessageVersion, fixt_1_1, fix_4_0, fix_4_1, fix_4_2, fix_4_3, fix_4_4,
  max_message_version,
}
use fix_rs.TokenGenerator
use fix_rs.TokenGenerator.{TokenGenerator, is_active}
use fix_rs.TokenGenerator.Fresh.{IsValid, CreateEnds, create-CreateEnds, remove-IsValid}
use fix_rs.Session.Status.{ConnectionTerminatedReason}
use fix_rs.Session.State.{EngineEvent, connection_failed, connection_terminated}
use fix_rs.Session.Thread.Events.{InternalEngineToThreadEvent, new_connection}
use fix_rs.Engine.{Engine, message_version_for, send_created, add_connection, update_engine}

message_version_lem :
    (fix_version : FixVersion) (v : MessageVersion)
    → (fix_version ≡ fixt_1_1)
      ⊎ (message_version_for fix_version v ≡ max_message_version fix_version)
unfolding message_version_for max_message_version
message_version_lem fix_4_0 v = inr refl
message_version_lem fix_4_1 v = inr refl
message_version_lem fix_4_2 v = inr refl
message_version_lem fix_4_3 v = inr refl
message_version_lem fix_4_4 v = inr refl
message_version_lem fixt_1_1 v = inl refl

-- What adding answers: nothing is sent and no token is taken, or a token that was not in use is, one request names it, and it is
-- all that is in use more.
abbrev pub Added : (ℕ → InternalEngineToThreadEvent) → Engine → Option ℕ × Engine → Type 0
Added request engine (none, after) = after ≡ engine
Added request engine (some token, after) =
    (is_active token engine.token_generator.active_tokens ≡ false)
    × (engine.token_generator.reserved_end ≤ token)
    × ((u : ℕ)
        → is_active u after.token_generator.active_tokens
          ≡ (if token == u then true else is_active u engine.token_generator.active_tokens))
    × IsValid after.token_generator
    × (after.requests ≡ engine.requests ++ (request token ∷ []))

send_created_lem :
    (request : ℕ → InternalEngineToThreadEvent) (engine : Engine) (r : Option ℕ × TokenGenerator)
    → CreateEnds engine.token_generator r
    → Added request engine (send_created request r engine)
unfolding send_created is_active
send_created_lem request engine (none, g) (full, same) =
    ap (λ (generator : TokenGenerator). record engine { token_generator = generator }) same
send_created_lem request engine (some token, g) (unused, reserved, more, valid) =
    (unused, reserved, λ u. ap (is_active u) more, valid, refl)

-- The event that the connection of a token has ended.
pub data IsEndOf (token : ℕ) : EngineEvent → Type 0 where
  by_failure : (e : ℕ) → IsEndOf token (connection_failed token e)
  by_termination :
      (reason : ConnectionTerminatedReason) → IsEndOf token (connection_terminated token reason)

update_lem :
    (token : ℕ) (engine : Engine) (e : EngineEvent)
    → IsEndOf token e
    → (update_engine e engine).token_generator ≡ TokenGenerator.remove token engine.token_generator
unfolding update_engine
update_lem token engine _ (by_failure _) = refl
update_lem token engine _ (by_termination _) = refl

and_false : (b : Bool) → (b && false) ≡ false
and_false true = refl
and_false false = refl

and_true : (b : Bool) → (b && true) ≡ b
and_true true = refl
and_true false = refl

given_back :
    (request : ℕ → InternalEngineToThreadEvent) (engine : Engine) (r : Option ℕ × Engine)
    → Added request engine r
    → (token : ℕ) → r.0 ≡ some token
    → (e : EngineEvent) → IsEndOf token e
    → (u : ℕ)
    → is_active u (update_engine e r.1).token_generator.active_tokens
      ≡ is_active u engine.token_generator.active_tokens
given_back request engine (none, after) added token h e ended u = cc
given_back request engine (some new, after) (unused, _, active, valid, _) token h e ended u =
    let same : new ≡ token = cc in
    ap (λ (g : TokenGenerator). is_active u g.active_tokens) (update_lem token after e ended)
    ∙ (remove-IsValid token after.token_generator valid).1 u
    ∙ ap (λ (b : Bool). b && not (u == token)) (active u)
    ∙ go (is_active u engine.token_generator.active_tokens)
        (λ k. ap (λ (v : ℕ). is_active v engine.token_generator.active_tokens) k ∙ unused) same
  where
    go :
        (b : Bool)
        → (u ≡ new → b ≡ false)
        → new ≡ token
        → ((if new == u then true else b) && not (u == token)) ≡ b
    go b h same = elim (Bool-cases (u == token)) [
      | inl k ↦
          (let used : u ≡ new = ground arith in
            rw (k, h used) (and_false (if new == u then true else false)))
      | inr k ↦ (let unlike : (new == u) ≡ false = ground arith in rw (k, unlike) (and_true b))
    ]

-- With valid tokens and an address that is resolved, adding a connection takes a token that is not in use, and no other, and
-- sends one request that names it, or does nothing at all; the version of the messages is the newest of a FIX version before
-- FIXT.1.1; and once the user has been told that the connection has ended the same tokens are in use as before.
pub add_connection-Added :
    (fix_version : FixVersion) (v : MessageVersion) (sender target : Bytes) (address : ℕ)
    (engine : Engine)
    → IsValid engine.token_generator
    → Added
        (λ token.
          new_connection token fix_version
            (message_version_for fix_version v)
            sender
            target
            address)
        engine
        (add_connection fix_version v sender target (some address) engine)
      × ((fix_version ≡ fixt_1_1)
          ⊎ (message_version_for fix_version v ≡ max_message_version fix_version))
      × ((token : ℕ)
          → (add_connection fix_version v sender target (some address) engine).0 ≡ some token
          → (e : EngineEvent) → IsEndOf token e
          → (u : ℕ)
          → is_active u
              (update_engine e
                (add_connection fix_version v sender target
                  (some address)
                  engine).1).token_generator.active_tokens
            ≡ is_active u engine.token_generator.active_tokens)
unfolding add_connection
add_connection-Added fix_version v sender target address engine valid =
    let request = λ (token : ℕ).
      new_connection token fix_version (message_version_for fix_version v) sender target address in
    let added =
      send_created_lem request engine (TokenGenerator.create engine.token_generator)
        (create-CreateEnds engine.token_generator valid) in
    (
      added,
      message_version_lem fix_version v,
      given_back request engine
          (send_created request (TokenGenerator.create engine.token_generator) engine) added,
    )
