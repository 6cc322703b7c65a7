-- ===== src/NetworkReadRetry.antt =====
-- src/network_read_retry.rs: the queue of the connections that have to be read again.
pub mod Order
use fix_rs.Prelude.{
  ℕ, zero, suc, ◌+◌, Bool, true, false, Option, none, some, List, [], ◌∷◌, ◌++◌, ◌==◌,
  if◌then◌else◌, length, get_elem?,
}

-- `registration` and `set_readiness` are set together: `none` before, and else the readiness that
-- was set last.
pub record NetworkReadRetry : Type 0 where
  pub tokens_to_retry : List ℕ
  pub set_readiness : Option Bool

abbrev pub new : NetworkReadRetry
new = record { tokens_to_retry = []; set_readiness = none }

unfoldable pub contains : ℕ → List ℕ → Bool
contains token [] = false
contains token (t ∷ ts) = if t == token then true else contains token ts

unfoldable pub set_readable : Bool → Option Bool → Option Bool
set_readable readable none = none
set_readable readable (some _) = some readable

unfoldable pub queue : ℕ → NetworkReadRetry → NetworkReadRetry
unfolding contains set_readable
queue token q = if contains token q.tokens_to_retry then q else record {
  tokens_to_retry = q.tokens_to_retry ++ (token ∷ []);
  set_readiness = set_readable true q.set_readiness;
}

-- `VecDeque::remove`.
unfoldable pub remove_at : ℕ → List ℕ → List ℕ
remove_at i [] = []
remove_at zero (t ∷ ts) = ts
remove_at (suc i) (t ∷ ts) = t ∷ remove_at i ts

unfoldable pub remove_by_index : ℕ → NetworkReadRetry → Option ℕ × NetworkReadRetry
unfolding remove_at set_readable
remove_by_index index q = (
  get_elem? q.tokens_to_retry index,
  record {
    tokens_to_retry = remove_at index q.tokens_to_retry;
    set_readiness = set_readable false q.set_readiness;
  },
)

unfoldable pub poll : NetworkReadRetry → Option ℕ × NetworkReadRetry
unfolding remove_by_index
poll q = remove_by_index 0 q

-- Each round either removes a token or moves on, so the length of the queue is fuel enough.
unfoldable pub remove_from : ℕ → ℕ → ℕ → NetworkReadRetry → NetworkReadRetry
unfolding remove_by_index
remove_from zero token x q = q
remove_from (suc fuel) token x q =
    let (removed, r) = remove_by_index x q in
    let gone = remove_from fuel token x r in
    let kept = remove_from fuel token (x + 1) q in
    elim (get_elem? q.tokens_to_retry x) [ none ↦ q | some t ↦ if t == token then gone else kept ]

unfoldable pub remove_all : ℕ → NetworkReadRetry → NetworkReadRetry
unfolding remove_from
remove_all token q = remove_from (length q.tokens_to_retry) token 0 q

-- `Evented`: the answer of the poll is an argument, `true` for `Ok`.
unfoldable pub register : Bool → NetworkReadRetry → Bool × NetworkReadRetry
register answer q = elim q.set_readiness [
  | some _ ↦ (false, q)
  | none ↦ if answer then (true, record q { set_readiness = some false }) else (false, q)
]

unfoldable pub reregister : Bool → NetworkReadRetry → Bool
reregister answer q = elim q.set_readiness [ none ↦ false | some _ ↦ answer ]

unfoldable pub deregister : Bool → NetworkReadRetry → Bool
deregister answer q = elim q.set_readiness [ none ↦ false | some _ ↦ answer ]
