-- ===== src/Session/Thread/Kept.antt =====
-- src/fixt/engine_thread.rs: proofs on what a method of a connection does to the map of connections, and to the tokens that are
-- in use.
use mathlib.Core.Path.{subst}
use mathlib.Core.Bool.{false≢true}
use fix_rs.Prelude.{
  ℕ, Bool, true, false, Option, none, some, List, [], ◌∷◌, ◌==◌, ◌≡◌, ◌≢◌, refl, sym, ap, ◌∙◌,
  Bool-cases, ◌⊎◌, inl, inr, arith,
}
use fix_rs.Action.{if_let, Outcome, done, failed, panicked}
use fix_rs.Action.Ends.{Keeps}
use fix_rs.TokenGenerator.{TokenGenerator, is_active}
use fix_rs.TokenGenerator.Fresh.{IsValid}
use fix_rs.Session.State.{InternalConnection, ConnectionAction, Exit, terminate, return_now}
use fix_rs.Session.Thread.{
  InternalThread, get_entry, remove_entry, insert_entry, load, leave_entry, with_connection,
  keep_entry, drop_entry,
}

module _ {A : Type 0} where
  abbrev pub is_some : Option A → Bool
  is_some none = false
  is_some (some _) = true

  -- Whether the token has an entry.
  abbrev pub has_entry : ℕ → List (ℕ × A) → Bool
  has_entry token m = is_some (get_entry token m)

  get-remove :
      (u token : ℕ) (m : List (ℕ × A))
      → u ≢ token
      → get_entry u (remove_entry token m) ≡ get_entry u m
  unfolding get_entry remove_entry
  get-remove u token [] h = refl
  get-remove u token ((t, a) ∷ m) h = ground (arith, get-remove u token m h)

  get-insert :
      (u token : ℕ) (a : A) (m : List (ℕ × A))
      → u ≢ token
      → get_entry u (insert_entry token a m) ≡ get_entry u m
  unfolding get_entry insert_entry
  get-insert u token a m h = ground (arith, get-remove u token m h)

  has-insert :
      (v token : ℕ) (a : A) (m : List (ℕ × A))
      → has_entry v (insert_entry token a m) ≡ true
      → (token ≡ v) ⊎ (has_entry v m ≡ true)
  has-insert v token a m h = elim (Bool-cases (token == v)) [
    | inl e ↦ inl (ground arith)
    | inr e ↦ inr (sym (ap is_some (get-insert v token a m (ground arith))) ∙ h)
  ]

  get-removed : (token : ℕ) (m : List (ℕ × A)) → get_entry token (remove_entry token m) ≡ none
  unfolding get_entry remove_entry
  get-removed token [] = refl
  get-removed token ((t, a) ∷ m) = ground (arith, get-removed token m)

  has-remove :
      (v token : ℕ) (m : List (ℕ × A))
      → has_entry v (remove_entry token m) ≡ true
      → has_entry v m ≡ true
  has-remove v token m h = elim (Bool-cases (token == v)) [
    | inl e ↦
        (let same : token ≡ v = ground arith in
          absurd (
            false≢true (
              sym (
                ap is_some (
                  ap (λ (t : ℕ). get_entry t (remove_entry token m)) (sym same)
                  ∙ get-removed token m))
              ∙ h)))
    | inr e ↦ sym (ap is_some (get-remove v token m (ground arith))) ∙ h
  ]

-- The tokens are valid, and that of each connection is among them.
pub record IsAccounted {B T : Type 0} (s : InternalThread B T) : Type 0 where
  pub valid : IsValid s.token_generator
  pub active :
      (u : ℕ)
      → has_entry u s.connections ≡ true
      → is_active u s.token_generator.active_tokens ≡ true

module _ {B T : Type 0} (u : ℕ) where
  -- The connection of `u` stays as it was, if there is one, and the tokens stay accounted for.
  abbrev pub After : InternalThread B T → InternalThread B T → Type 0
  After s s' =
      IsAccounted s'
      × (has_entry u s.connections ≡ true → get_entry u s'.connections ≡ get_entry u s.connections)

  abbrev pub Kept : InternalThread B T → InternalThread B T → Type 0
  Kept s s' = IsAccounted s → After s s'

  pub Kept-trans : (a b c : InternalThread B T) → Kept a b → Kept b c → Kept a c
  Kept-trans a b c h k accounted =
      let (at_b, same) = h accounted in
      let (at_c, same') = k at_b in (at_c, λ e. same' (ap is_some (same e) ∙ e) ∙ same e)

  -- Where neither the connections nor the tokens change.
  pub Kept-same :
      (s s' : InternalThread B T)
      → s'.connections ≡ s.connections
      → s'.token_generator ≡ s.token_generator
      → Kept s s'
  Kept-same s s' e k accounted = (
    record {
      valid = subst IsValid (sym k) accounted.valid;
      active = λ v h.
          ap (λ (g : TokenGenerator). is_active v g.active_tokens) k
          ∙ accounted.active v
              (ap (λ (m : List (ℕ × InternalConnection B T)). has_entry v m) (sym e) ∙ h);
    },
    λ _. ap (get_entry u) e,
  )

  -- Where the entry of another token, which is active, is replaced.
  pub Kept-insert :
      (s : InternalThread B T) (token : ℕ) (c : InternalConnection B T) (s' : InternalThread B T)
      → (has_entry u s.connections ≡ true → u ≢ token)
      → is_active token s.token_generator.active_tokens ≡ true
      → s'.connections ≡ insert_entry token c s.connections
      → s'.token_generator ≡ s.token_generator
      → Kept s s'
  Kept-insert s token c s' other h e k accounted = (
    record {
      valid = subst IsValid (sym k) accounted.valid;
      active = λ v has.
          ap (λ (g : TokenGenerator). is_active v g.active_tokens) k
          ∙ elim (has-insert v token c s.connections
              (ap (λ (m : List (ℕ × InternalConnection B T)). has_entry v m) (sym e) ∙ has)) [
                | inl same ↦
                    subst (λ (t : ℕ). is_active t s.token_generator.active_tokens ≡ true) same h
                | inr before ↦ accounted.active v before
              ];
    },
    λ has. ap (get_entry u) e ∙ get-insert u token c s.connections (other has),
  )

  Kept-remove :
      (s : InternalThread B T) (token : ℕ) (s' : InternalThread B T)
      → u ≢ token
      → s'.connections ≡ remove_entry token s.connections
      → s'.token_generator ≡ s.token_generator
      → Kept s s'
  Kept-remove s token s' other e k accounted = (
    record {
      valid = subst IsValid (sym k) accounted.valid;
      active = λ v has.
          ap (λ (g : TokenGenerator). is_active v g.active_tokens) k
          ∙ accounted.active v (
              has-remove v token s.connections
                (ap (λ (m : List (ℕ × InternalConnection B T)). has_entry v m) (sym e) ∙ has));
    },
    λ _. ap (get_entry u) e ∙ get-remove u token s.connections other,
  )

  leave_entry-Kept :
      (s : InternalThread B T) (token : ℕ) (r : Outcome Exit (Unit {0}) × InternalConnection B T)
      → u ≢ token
      → has_entry token s.connections ≡ true
      → Kept s (leave_entry token r s).1
  unfolding leave_entry
  leave_entry-Kept s token r other has accounted = go r
    where
      put : (c : InternalConnection B T) → After s (keep_entry token c s)
      put c =
          Kept-insert s token c (keep_entry token c s) (λ _. other) (accounted.active token has)
            refl refl accounted

      go :
          (r : Outcome Exit (Unit {0}) × InternalConnection B T) → After s (leave_entry token r s).1
      go (done _, c) = put c
      go (failed return_now, c) = put c
      go (failed (terminate reason), c) =
          Kept-remove s token (drop_entry token c s) other refl refl accounted
      go (panicked, c) = put c

  pub with_connection-Kept :
      (token : ℕ) (action : ConnectionAction B T (Unit {0}))
      → u ≢ token
      → Keeps Kept (with_connection token action)
  unfolding with_connection
  with_connection-Kept token action other s = go (get_entry token s.connections) refl
    where
      go :
          (o : Option (InternalConnection B T))
          → get_entry token s.connections ≡ o
          → Kept s (if_let o (λ c. leave_entry token (action (load s c)) s) (done tt, s)).1
      go none e = Kept-same s s refl refl
      go (some c) e = leave_entry-Kept s token (action (load s c)) other (ap is_some e)
