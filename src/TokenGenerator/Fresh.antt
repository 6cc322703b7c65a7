-- ===== src/TokenGenerator/Fresh.antt =====
-- src/token_generator.rs: proofs that `create` ends, with a token that is not in use.
use fix_rs.Prelude.{
  ℕ, zero, suc, ◌+◌, ◌-◌, ◌%◌, ◌≤◌, ◌<◌, Bool, true, false, not, ◌&&◌, Option, none, some, List, [],
  ◌∷◌, ◌==◌, if◌then◌else◌, length, ◌≡◌, refl, sym, ap, ◌∙◌, ◌≢◌, inl, inr, arith, Bool-cases,
}
use mathlib.Core.Path.{subst₂}
use fix_rs.TokenGenerator.{
  TokenGenerator, usize_count, new, is_active, is_free, advance, create_loop, create, remove_token,
  remove,
}

-- The list less the first of the elements that are `token`.
unfoldable drop_one : ℕ → List ℕ → List ℕ
drop_one token [] = []
drop_one token (t ∷ ts) = let rest = drop_one token ts in if t == token then ts else t ∷ rest

length-drop_one :
    (token : ℕ) (ts : List ℕ)
    → is_active token ts ≡ true
    → length ts ≡ suc (length (drop_one token ts))
unfolding is_active drop_one
length-drop_one token [] h = ground arith
length-drop_one token (t ∷ ts) h = ground (arith, length-drop_one token ts)

is_active-drop_one :
    (token u : ℕ) (ts : List ℕ)
    → u ≢ token
    → is_active u ts ≡ true
    → is_active u (drop_one token ts) ≡ true
unfolding is_active drop_one
is_active-drop_one token u [] k h = ground arith
is_active-drop_one token u (t ∷ ts) k h = ground (arith, is_active-drop_one token u ts)

-- A list that holds every number of a range is at least as long as the range.
pigeonhole :
    (n a : ℕ) (ts : List ℕ) → ((i : ℕ) → a ≤ i → i < a + n → is_active i ts ≡ true) → n ≤ length ts
pigeonhole zero a ts h = omega arith
pigeonhole (suc n) a ts h =
    let shorter = length-drop_one a ts (h a (omega arith) (omega arith)) in
    let rest =
      pigeonhole n (suc a) (drop_one a ts)
        (λ i l u. is_active-drop_one a i ts (λ e. omega arith) (h i (omega arith) (omega arith))) in
    omega arith

-- What the loop answers: a free token, which becomes active, or `none` when no seed it tried was free.
abbrev LoopEnds : ℕ → TokenGenerator → Option ℕ × TokenGenerator → Type 0
LoopEnds fuel g (some token, g') =
    (is_free token g ≡ true)
    × (g'.active_tokens ≡ token ∷ g.active_tokens)
    × (g'.reserved_end ≡ g.reserved_end)
    × (g'.max_tokens ≡ g.max_tokens)
    × (g'.seed < usize_count)
LoopEnds fuel g (none, g') = (i : ℕ) → i < fuel → is_free ((g.seed + i) % usize_count) g ≡ false

is_free-advance : (token : ℕ) (g : TokenGenerator) → is_free token (advance g) ≡ is_free token g
unfolding is_free advance
is_free-advance token g = refl

loop_lem :
    (fuel : ℕ) (g : TokenGenerator) → g.seed < usize_count → LoopEnds fuel g (create_loop fuel g)
unfolding create_loop advance
loop_lem zero g h = λ i l. absurd (omega arith)
loop_lem (suc fuel) g h =
    go (is_free g.seed g) refl (create_loop fuel (advance g))
      (loop_lem fuel (advance g) (in_range g))
  where
    in_range : (g : TokenGenerator) → (advance g).seed < usize_count
    in_range g = omega arith

    none_free :
        is_free g.seed g ≡ false
        → ((i : ℕ) → i < fuel → is_free (((advance g).seed + i) % usize_count) (advance g) ≡ false)
        → (i : ℕ) → i < suc fuel
        → is_free ((g.seed + i) % usize_count) g ≡ false
    none_free e k zero l = ap (λ s. is_free s g) (omega arith) ∙ e
    none_free e k (suc i) l =
        ap (λ s. is_free s g) (omega arith) ∙ sym (is_free-advance _ g) ∙ k i (omega arith)

    go :
        (b : Bool)
        → is_free g.seed g ≡ b
        → (r : Option ℕ × TokenGenerator) → LoopEnds fuel (advance g) r
        → LoopEnds (suc fuel) g (
            if b
            then (some g.seed, record (advance g) { active_tokens = g.seed ∷ g.active_tokens })
            else r)
    go true e r k = (e, refl, refl, refl, omega arith)
    go false e (some token, g') k = (sym (is_free-advance token g) ∙ k.0, k.1, k.2, k.3, k.4)
    go false e (none, g') k = none_free e k

-- The seed is a value of `usize`, the reserved values and the limit fit into their number, and no
-- more tokens are in use than the limit allows.
pub record IsValid (g : TokenGenerator) : Type 0 where
  pub seed_in_range : g.seed < usize_count
  pub room : g.max_tokens + g.reserved_end ≤ usize_count
  pub within_limit : length g.active_tokens ≤ g.max_tokens

-- What `create` answers.
abbrev pub CreateEnds : TokenGenerator → Option ℕ × TokenGenerator → Type 0
CreateEnds g (none, g') = (length g.active_tokens ≡ g.max_tokens) × (g' ≡ g)
CreateEnds g (some token, g') =
    (is_active token g.active_tokens ≡ false)
    × (g.reserved_end ≤ token)
    × (g'.active_tokens ≡ token ∷ g.active_tokens)
    × IsValid g'

free_lem :
    (token : ℕ) (g : TokenGenerator)
    → is_free token g ≡ true
    → (is_active token g.active_tokens ≡ false) × (g.reserved_end ≤ token)
unfolding is_free
free_lem token g h = elim (Bool-cases (is_active token g.active_tokens)) [
  | inl e ↦ ground arith
  | inr e ↦ (e, ground arith)
]

busy_lem :
    (token : ℕ) (g : TokenGenerator)
    → is_free token g ≡ false
    → g.reserved_end ≤ token
    → is_active token g.active_tokens ≡ true
unfolding is_free
busy_lem token g h l = elim (Bool-cases (is_active token g.active_tokens)) [
  | inl e ↦ e
  | inr e ↦ ground arith
]

-- Every token is tried by a loop over all values.
all_tried :
    (g : TokenGenerator)
    → ((i : ℕ) → i < usize_count → is_free ((g.seed + i) % usize_count) g ≡ false)
    → g.seed < usize_count
    → (token : ℕ) → token < usize_count
    → is_free token g ≡ false
all_tried g h s token l =
    ap (λ t. is_free t g) (omega arith)
    ∙ h ((token + usize_count - g.seed) % usize_count) (omega arith)

-- `create` ends, within as many rounds as there are values of `usize`, and answers none only at the
-- limit, with nothing changed. Else it answers a token that was not in use and is not reserved, which
-- is in use from then on, in a generator that is valid again.
pub create-CreateEnds : (g : TokenGenerator) → IsValid g → CreateEnds g (create g)
unfolding create
create-CreateEnds g v = elim (Bool-cases (length g.active_tokens == g.max_tokens)) [
  | inl e ↦ rw e (ground arith, refl)
  | inr e ↦ rw e (go (create_loop usize_count g) (loop_lem usize_count g v.seed_in_range) e)
]
  where
    go :
        (r : Option ℕ × TokenGenerator)
        → LoopEnds usize_count g r
        → (length g.active_tokens == g.max_tokens) ≡ false
        → CreateEnds g r
    go (some token, g') k e =
        let free = free_lem token g k.0 in
        let limit = v.within_limit in
        (
          free.0,
          free.1,
          k.1,
          record {
            seed_in_range = k.4;
            room = subst₂ (λ n r. n + r ≤ usize_count) (sym k.3) (sym k.2) v.room;
            within_limit = subst₂ (λ ts n. length ts ≤ n) (sym k.1) (sym k.3) (ground arith);
          },
        )
    go (none, g') k e =
        let many =
          pigeonhole (usize_count - g.reserved_end) g.reserved_end g.active_tokens (λ i l u.
            busy_lem i g (all_tried g k v.seed_in_range i (let room = v.room in omega arith)) l) in
        let limit = v.within_limit in let room = v.room in absurd (ground arith)

length-remove_token : (token : ℕ) (ts : List ℕ) → length (remove_token token ts) ≤ length ts
unfolding remove_token
length-remove_token token [] = omega arith
length-remove_token token (t ∷ ts) = ground (arith, length-remove_token token ts)

is_active-remove_token :
    (token u : ℕ) (ts : List ℕ)
    → is_active u (remove_token token ts) ≡ (is_active u ts && not (u == token))
unfolding is_active remove_token
is_active-remove_token token u [] = refl
is_active-remove_token token u (t ∷ ts) = ground (arith, is_active-remove_token token u ts)

-- `remove` takes exactly the token given out of use, and leaves a valid generator valid.
pub remove-IsValid :
    (token : ℕ) (g : TokenGenerator)
    → IsValid g
    → IsValid (remove token g)
      × ((u : ℕ)
          → is_active u (remove token g).active_tokens
            ≡ (is_active u g.active_tokens && not (u == token)))
unfolding remove
remove-IsValid token g v = (
  record {
    seed_in_range = v.seed_in_range;
    room = v.room;
    within_limit =
        let limit = v.within_limit in omega (arith, length-remove_token token g.active_tokens);
  },
  λ u. is_active-remove_token token u g.active_tokens,
)

-- A new generator is valid where the limit leaves room for the reserved values.
pub new-IsValid :
    (reserved_end max_tokens : ℕ)
    → reserved_end < usize_count
    → max_tokens + reserved_end ≤ usize_count
    → IsValid (new reserved_end (some max_tokens)) × IsValid (new reserved_end none)
unfolding new
new-IsValid reserved_end max_tokens h k = (
  record { seed_in_range = h; room = k; within_limit = omega arith },
  record { seed_in_range = h; room = omega arith; within_limit = omega arith },
)
