-- ===== src/Action.antt =====
-- Methods that take `&mut self` and return a `Result`: a function from the state to an outcome and
-- the state as the method leaves it, on the error path too. A panic is an outcome of its own.
pub mod Ends
use fix_rs.Prelude.{Option, none, some}

pub data Outcome {ℓ} (E A : Type ℓ) : Type ℓ where
  done : A → Outcome E A
  failed : E → Outcome E A
  panicked : Outcome E A

abbrev pub Action {ℓ} : Type ℓ → Type ℓ → Type ℓ → Type ℓ
Action S E A = S → Outcome E A × S

module _ {ℓ} {S E A : Type ℓ} where
  abbrev pub pure : A → Action S E A
  pure a s = (done a, s)

  abbrev pub fail : E → Action S E A
  fail e s = (failed e, s)

  abbrev pub panic : Action S E A
  panic s = (panicked, s)

module _ {ℓ} {S E A B : Type ℓ} where
  -- `try!`: what follows runs on the state that the first part leaves.
  abbrev pub and_then : Outcome E A × S → (A → Action S E B) → Outcome E B × S
  and_then (done a, s) f = f a s
  and_then (failed e, s) f = (failed e, s)
  and_then (panicked, s) f = (panicked, s)

  infixl 5 ◌>>=◌ ◌>>◌
  unfoldable pub ◌>>=◌ : Action S E A → (A → Action S E B) → Action S E B
  ◌>>=◌ m f s = and_then (m s) f

  unfoldable pub ◌>>◌ : Action S E A → Action S E B → Action S E B
  unfolding ◌>>=◌
  m >> k = m >>= λ _. k

module _ {ℓ κ} {A : Type ℓ} {C : Type κ} where
  -- `if let Some(a) = o { f(a) } else { otherwise }`.
  abbrev pub if_let : Option A → (A → C) → C → C
  if_let none f otherwise = otherwise
  if_let (some a) f otherwise = f a
