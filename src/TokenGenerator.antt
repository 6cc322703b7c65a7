-- ===== src/TokenGenerator.antt =====
-- src/token_generator.rs: the tokens of connections and listeners. `usize` has 64 bits.
pub mod Fresh
use fix_rs.Prelude.{
  ℕ, zero, suc, ◌+◌, ◌-◌, ◌%◌, ◌^◌, Bool, true, false, not, ◌&&◌, Option, none, some, List, [], ◌∷◌,
  ◌==◌, ltb, leb, if◌then◌else◌, length,
}

-- `active_tokens` is the hash set, as the list of its elements.
pub record TokenGenerator : Type 0 where
  pub seed : ℕ
  pub reserved_end : ℕ
  pub max_tokens : ℕ
  pub active_tokens : List ℕ

-- The number of values of `usize`.
abbrev pub usize_count : ℕ
usize_count = 2 ^ 64

unfoldable pub new : ℕ → Option ℕ → TokenGenerator
new reserved_end max_tokens = record {
  seed = reserved_end;
  reserved_end = reserved_end;
  max_tokens = elim max_tokens [ none ↦ usize_count - 1 - reserved_end | some n ↦ n ];
  active_tokens = [];
}

unfoldable pub is_active : ℕ → List ℕ → Bool
is_active token [] = false
is_active token (t ∷ ts) = if t == token then true else is_active token ts

unfoldable pub is_free : ℕ → TokenGenerator → Bool
unfolding is_active
is_free token g = not (is_active token g.active_tokens) && leb g.reserved_end token

unfoldable pub advance : TokenGenerator → TokenGenerator
advance g = record g { seed = (g.seed + 1) % usize_count }

-- The loop of `create`. The answer is `none` when the fuel is used up.
unfoldable pub create_loop : ℕ → TokenGenerator → Option ℕ × TokenGenerator
unfolding is_free advance
create_loop zero g = (none, g)
create_loop (suc fuel) g =
    let next = create_loop fuel (advance g) in
    if is_free g.seed g
    then (some g.seed, record (advance g) { active_tokens = g.seed ∷ g.active_tokens })
    else next

-- As many rounds as there are values of `usize`.
unfoldable pub create : TokenGenerator → Option ℕ × TokenGenerator
create g = if length g.active_tokens == g.max_tokens then (none, g) else create_loop usize_count g

unfoldable pub remove_token : ℕ → List ℕ → List ℕ
remove_token token [] = []
remove_token token (t ∷ ts) =
    let rest = remove_token token ts in if t == token then rest else t ∷ rest

unfoldable pub remove : ℕ → TokenGenerator → TokenGenerator
unfolding remove_token
remove token g = record g { active_tokens = remove_token token g.active_tokens }
