-- ===== src/Action/Ends.antt =====
-- What holds when a method has run: `P` of its value and the state if it is done, and `Q` of the
-- state if it fails or panics.
use fix_rs.Prelude.{Bool, true, false, Option, none, some, if◌then◌else◌}
use fix_rs.Action.{if_let, Outcome, Action, done, failed, panicked, and_then, ◌>>=◌, ◌>>◌}

module _ {ℓ κ} {S E A : Type ℓ} (P : A → S → Type κ) (Q : S → Type κ) where
  abbrev pub Ends : Outcome E A × S → Type κ
  Ends (done a, s) = P a s
  Ends (failed e, s) = Q s
  Ends (panicked, s) = Q s

module _ {ℓ κ} {S E A B : Type ℓ} (P : A → S → Type κ) (P' : B → S → Type κ) (Q : S → Type κ) where
  -- The rule of composition.
  pub Ends-and_then :
      (r : Outcome E A × S) (f : A → Action S E B)
      → Ends P Q r
      → ((a : A) (s : S) → P a s → Ends P' Q (f a s))
      → Ends P' Q (and_then r f)
  Ends-and_then (done a, s) f h k = k a s h
  Ends-and_then (failed e, s) f h k = h
  Ends-and_then (panicked, s) f h k = h

module _ {ℓ κ} {S E A : Type ℓ} (P P' : A → S → Type κ) (Q Q' : S → Type κ) where
  -- The rule of consequence.
  pub Ends-weaken :
      (r : Outcome E A × S)
      → Ends P Q r
      → ((a : A) (s : S) → P a s → P' a s)
      → ((s : S) → Q s → Q' s)
      → Ends P' Q' r
  Ends-weaken (done a, s) h f g = f a s h
  Ends-weaken (failed e, s) h f g = g s h
  Ends-weaken (panicked, s) h f g = g s h

module _ {ℓ κ} {S E A : Type ℓ} (R : S → S → Type κ) where
  -- The action relates its state before and after, on every outcome.
  abbrev pub Keeps : Action S E A → Type (ℓ ⊔ κ)
  Keeps m = (s : S) → R s (m s).1

module _ {ℓ κ} {S E A B : Type ℓ} (R : S → S → Type κ)
    (trans : (a b c : S) → R a b → R b c → R a c) where
  pub Keeps-and_then :
      (s : S) (r : Outcome E A × S) (f : A → Action S E B)
      → R s r.1
      → ((a : A) → Keeps R (f a))
      → R s (and_then r f).1
  Keeps-and_then s (done a, s') f h k = trans s s' (f a s').1 h (k a s')
  Keeps-and_then s (failed e, s') f h k = h
  Keeps-and_then s (panicked, s') f h k = h

  pub Keeps->>= :
      (m : Action S E A) (f : A → Action S E B)
      → Keeps R m
      → ((a : A) → Keeps R (f a))
      → Keeps R (m >>= f)
  unfolding ◌>>=◌
  Keeps->>= m f h k s = Keeps-and_then s (m s) f (h s) k

  pub Keeps->> : (m : Action S E A) (n : Action S E B) → Keeps R m → Keeps R n → Keeps R (m >> n)
  unfolding ◌>>◌
  Keeps->> m n h k = Keeps->>= m (λ _. n) h (λ _. k)

module _ {ℓ κ} {X : Type ℓ} (P : X → Type κ) where
  -- What both branches of a test have.
  pub of_if : (b : Bool) (x y : X) → P x → P y → P (if b then x else y)
  of_if true x y hx hy = hx
  of_if false x y hx hy = hy

  pub of_if_let :
      {A : Type 0} (o : Option A) (f : A → X) (y : X) → ((a : A) → P (f a)) → P y → P (if_let o f y)
  of_if_let none f y hf hy = hy
  of_if_let (some a) f y hf hy = hf a

module _ {ℓ κ} {S E A : Type ℓ} (P P' : A → S → Type κ) (Q Q' : S → Type κ) where
  pub Ends-both :
      (r : Outcome E A × S) → Ends P Q r → Ends P' Q' r → Ends (λ a s. P a s × P' a s) Q r
  Ends-both (done a, s) h h' = (h, h')
  Ends-both (failed e, s) h h' = h
  Ends-both (panicked, s) h h' = h

module _ {S E : Type 0} where
  -- What holds of the value when the action is done.
  abbrev pub Gives : {A : Type 0} → (A → Type 0) → Outcome E A × S → Type 0
  Gives P r = Ends (λ a _. P a) (λ _. Unit {0}) r

  pub Gives-then :
      {A C : Type 0} (P : A → Type 0) (Q : C → Type 0) (m : Action S E A) (f : A → Action S E C)
      (s : S)
      → Gives P (m s)
      → ((a : A) → P a → (s : S) → Gives Q (f a s))
      → Gives Q ((m >>= f) s)
  unfolding ◌>>=◌
  Gives-then P Q m f s h k =
      Ends-and_then (λ a _. P a) (λ a _. Q a) (λ _. Unit) (m s) f h (λ a s' p. k a p s')

  Gives-any : {A : Type 0} (r : Outcome E A × S) → Gives (λ _. Unit {0}) r
  Gives-any (done a, s) = tt
  Gives-any (failed e, s) = tt
  Gives-any (panicked, s) = tt

  pub Gives-last :
      {A C : Type 0} (Q : C → Type 0) (m : Action S E A) (f : A → Action S E C) (s : S)
      → ((a : A) (s : S) → Gives Q (f a s))
      → Gives Q ((m >>= f) s)
  Gives-last Q m f s k = Gives-then (λ _. Unit) Q m f s (Gives-any (m s)) (λ a _ s'. k a s')

  pub Gives-seq :
      {A C : Type 0} (Q : C → Type 0) (m : Action S E A) (n : Action S E C) (s : S)
      → ((s : S) → Gives Q (n s))
      → Gives Q ((m >> n) s)
  unfolding ◌>>◌
  Gives-seq Q m n s k = Gives-last Q m (λ _. n) s (λ _ s'. k s')

  pub Gives-if :
      {A : Type 0} (Q : A → Type 0) (b : Bool) (x y : Action S E A) (s : S)
      → Gives Q (x s)
      → Gives Q (y s)
      → Gives Q ((if b then x else y) s)
  Gives-if Q true x y s h k = h
  Gives-if Q false x y s h k = k

  pub Gives-if_let :
      {A C : Type 0} (Q : A → Type 0) (o : Option C) (f : C → Action S E A) (y : Action S E A)
      (s : S)
      → ((c : C) → Gives Q (f c s))
      → Gives Q (y s)
      → Gives Q (if_let o f y s)
  Gives-if_let Q none f y s h k = k
  Gives-if_let Q (some c) f y s h k = h c
