-- ===== src/Session/Thread/Loop/Reachable.antt =====
-- src/fixt/engine_thread.rs and src/fixt/engine.rs: proofs on the tokens in use, in every state that a thread reaches.
use mathlib.Core.Path.{subst}
use mathlib.Core.Bool.{false≢true}
use fix_rs.Prelude.{
  ℕ, ◌+◌, Bool, true, false, not, ◌&&◌, Option, none, some, List, [], ◌∷◌, ◌==◌, Bytes, ◌≡◌, ◌≢◌,
  refl, sym, ap, ◌∙◌, inl, inr, Bool-cases, arith,
}
use fix_rs.ByteBuffer.{ByteBuffer}
use fix_rs.FieldTag.{FieldTag}
use fix_rs.Version.{FixVersion, MessageVersion}
use fix_rs.Parser.State.{Traits}
use fix_rs.TokenGenerator
use fix_rs.TokenGenerator.{TokenGenerator, is_active}
use fix_rs.TokenGenerator.Fresh.{CreateEnds, create-CreateEnds, remove-IsValid}
use fix_rs.Session.Fixt.{FixtMessage}
use fix_rs.Session.State.{Timer}
use fix_rs.Session.Thread.Opening.Kept.{is_active-cons}
use fix_rs.Session.Thread.{InternalThread}
use fix_rs.Session.Thread.Kept.{has_entry, IsAccounted, Kept-same}
use fix_rs.Session.Thread.Loop.{PollEvent, Terminated, on_event, clean_up, clean_up_all}
use fix_rs.Session.Thread.Loop.Others.{IsRequested, event_token, on_event-Kept}

module _ {B T : Type 0} (t : Traits B FixtMessage) (timer : Timer T)
    (read : FixVersion → MessageVersion → FixtMessage → ByteBuffer → ByteBuffer) (now : ℕ)
    (dictionary : List (Bytes × B)) (max_message_size : ℕ)
    (value_to_length_tags : List (FieldTag × FieldTag)) where
  -- The steps that the thread takes, and those of the engine on the tokens that they share: it takes a token for what it is to
  -- add, and gives back that of a connection that has ended.
  pub data Step (s : InternalThread B T) : InternalThread B T → Type 0 where
    handles :
        (e : PollEvent)
        → IsRequested e s
        → Step s (on_event t timer read now dictionary max_message_size value_to_length_tags e s).1
    cleans_up : (found : Terminated B T) → Step s (clean_up_all timer found s)
    creates : Step s (record s { token_generator = (TokenGenerator.create s.token_generator).1 })
    removes :
        (token : ℕ)
        → has_entry token s.connections ≡ false
        → Step s (record s { token_generator = TokenGenerator.remove token s.token_generator })

  pub data Reaches (s : InternalThread B T) : InternalThread B T → Type 0 where
    here : Reaches s s
    step : {m e : InternalThread B T} → Reaches s m → Step m e → Reaches s e

module _ {B T : Type 0} where
  clean_up_all-same :
      (timer : Timer T) (found : Terminated B T) (s : InternalThread B T)
      → ((clean_up_all timer found s).connections ≡ s.connections)
        × ((clean_up_all timer found s).token_generator ≡ s.token_generator)
  unfolding clean_up_all clean_up
  clean_up_all-same timer [] s = (refl, refl)
  clean_up_all-same timer ((c, reason) ∷ found) s =
      clean_up_all-same timer found (clean_up timer c reason s)

  created-IsAccounted :
      (s : InternalThread B T) (r : Option ℕ × TokenGenerator)
      → CreateEnds s.token_generator r
      → IsAccounted s
      → IsAccounted (record s { token_generator = r.1 })
  created-IsAccounted s (none, g) (_, same) accounted =
      (Kept-same 0 s (record s { token_generator = g }) refl same accounted).0
  created-IsAccounted s (some token, g) (_, _, more, valid) accounted = record {
    valid = valid;
    active = λ v has.
        ap (is_active v) more
        ∙ is_active-cons v token s.token_generator.active_tokens (inr (accounted.active v has));
  }

  removed-IsAccounted :
      (s : InternalThread B T) (token : ℕ)
      → has_entry token s.connections ≡ false
      → IsAccounted s
      → IsAccounted (record s { token_generator = TokenGenerator.remove token s.token_generator })
  removed-IsAccounted s token gone accounted =
      let (valid, active) = remove-IsValid token s.token_generator accounted.valid in
      record {
        valid = valid;
        active = λ v has.
            active v
            ∙ both (is_active v s.token_generator.active_tokens) (v == token)
                (accounted.active v has)
                (λ e. false≢true (
                  sym gone
                  ∙ subst (λ (u : ℕ). has_entry u s.connections ≡ true) (equal v token e) has));
      }
    where
      both : (a b : Bool) → a ≡ true → ¬ (b ≡ true) → (a && not b) ≡ true
      both true false h k = refl
      both true true h k = absurd (k refl)
      both false b h k = h

      equal : (v token : ℕ) → (v == token) ≡ true → v ≡ token
      equal v token e = ground arith

  -- A token that `create` gives is not that of a connection.
  pub created_is_fresh :
      (s : InternalThread B T) (r : Option ℕ × TokenGenerator)
      → CreateEnds s.token_generator r
      → IsAccounted s
      → (token : ℕ) → r.0 ≡ some token
      → has_entry token s.connections ≡ false
  created_is_fresh s (none, g) h accounted token e = absurd (cc)
  created_is_fresh s (some new, g) (unused, _, _, _) accounted token e =
      let same : new ≡ token = cc in
      elim (Bool-cases (has_entry token s.connections)) [
        | inl h ↦ absurd (
            false≢true (
              sym unused
              ∙ subst (λ (v : ℕ). is_active v s.token_generator.active_tokens ≡ true) (sym same)
                  (accounted.active token h)))
        | inr h ↦ h
      ]

-- A token that an event is not about.
abbrev another : Option ℕ → ℕ
another none = 0
another (some token) = token + 1

another_lem : (o : Option ℕ) → o ≢ some (another o)
another_lem none e = cc
another_lem (some token) e =
    (let same : token ≡ another (some token) = cc in absurd (next token same))
  where
    next : (n : ℕ) → ¬ (n ≡ n + 1)
    next n h = omega arith

module _ {B T : Type 0} (t : Traits B FixtMessage) (timer : Timer T)
    (read : FixVersion → MessageVersion → FixtMessage → ByteBuffer → ByteBuffer) (now : ℕ)
    (dictionary : List (Bytes × B)) (max_message_size : ℕ)
    (value_to_length_tags : List (FieldTag × FieldTag)) where
  step-IsAccounted :
      (s s' : InternalThread B T)
      → Step t timer read now dictionary max_message_size value_to_length_tags s s'
      → IsAccounted s
      → IsAccounted s'
  step-IsAccounted s _ (handles e requested) accounted =
      (on_event-Kept (another (event_token e s)) t timer read now dictionary max_message_size
        value_to_length_tags e s accounted requested (another_lem (event_token e s))).0
  step-IsAccounted s _ (cleans_up found) accounted =
      (let (connections, tokens) = clean_up_all-same timer found s in
        (Kept-same 0 s (clean_up_all timer found s) connections tokens accounted).0)
  step-IsAccounted s _ creates accounted =
      created-IsAccounted s (TokenGenerator.create s.token_generator)
        (create-CreateEnds s.token_generator accounted.valid) accounted
  step-IsAccounted s _ (removes token gone) accounted = removed-IsAccounted s token gone accounted

  Reaches-IsAccounted :
      (s s' : InternalThread B T)
      → Reaches t timer read now dictionary max_message_size value_to_length_tags s s'
      → IsAccounted s
      → IsAccounted s'
  Reaches-IsAccounted s _ here accounted = accounted
  Reaches-IsAccounted s s' (step {m} before last) accounted =
      step-IsAccounted m s' last (Reaches-IsAccounted s m before accounted)

  -- Where connections are only opened under tokens in use, and no token is given back while a connection has it: in every state
  -- that is reached from one in which the tokens of the connections are in use, they are, and a token that is taken then is not
  -- that of a connection.
  pub Reaches-create :
      (s s' : InternalThread B T)
      → Reaches t timer read now dictionary max_message_size value_to_length_tags s s'
      → IsAccounted s
      → IsAccounted s'
        × ((token : ℕ)
            → (TokenGenerator.create s'.token_generator).0 ≡ some token
            → has_entry token s'.connections ≡ false)
  Reaches-create s s' reached accounted =
      let accounted' = Reaches-IsAccounted s s' reached accounted in
      (
        accounted',
        λ token.
            created_is_fresh s' (TokenGenerator.create s'.token_generator)
              (create-CreateEnds s'.token_generator accounted'.valid) accounted' token,
      )
