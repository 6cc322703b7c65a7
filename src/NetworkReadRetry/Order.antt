-- ===== src/NetworkReadRetry/Order.antt =====
-- src/network_read_retry.rs: proofs on the order of the queue and on its tokens.
use mathlib.Core.Path.{ap₂}
use fix_rs.Prelude.{
  length-append, ℕ, zero, suc, ◌+◌, ◌≤◌, true, false, none, some, List, [], ◌∷◌, ◌++◌, ◌==◌,
  if◌then◌else◌, length, get_elem?, Bool-cases, ◌≡◌, refl, sym, ap, ◌∙◌, ◌≢◌, ◌⊎◌, inl, inr, arith,
}
use fix_rs.NetworkReadRetry.{
  NetworkReadRetry, contains, queue, remove_at, remove_by_index, remove_from, remove_all,
}

-- Every token is in the list once.
unfoldable pub IsDistinct : List ℕ → Type 0
IsDistinct [] = Unit
IsDistinct (t ∷ ts) = (contains t ts ≡ false) × IsDistinct ts

-- The tokens other than `token`, in their order.
unfoldable pub without : ℕ → List ℕ → List ℕ
without token [] = []
without token (t ∷ ts) = if t == token then without token ts else t ∷ without token ts

get_elem?-append :
    (front back : List ℕ) (t : ℕ) → get_elem? (front ++ (t ∷ back)) (length front) ≡ some t
get_elem?-append [] back t = refl
get_elem?-append (s ∷ front) back t = get_elem?-append front back t

remove_at-append :
    (front back : List ℕ) (t : ℕ) → remove_at (length front) (front ++ (t ∷ back)) ≡ front ++ back
unfolding remove_at
remove_at-append [] back t = refl
remove_at-append (s ∷ front) back t = ap (λ ts. s ∷ ts) (remove_at-append front back t)

get_elem?-end : (front : List ℕ) → get_elem? front (length front) ≡ none
get_elem?-end [] = refl
get_elem?-end (s ∷ front) = get_elem?-end front

append_nil : (xs : List ℕ) → xs ++ [] ≡ xs
append_nil [] = refl
append_nil (x ∷ xs) = ap (λ ts. x ∷ ts) (append_nil xs)

append_assoc : (xs ys zs : List ℕ) → (xs ++ ys) ++ zs ≡ xs ++ (ys ++ zs)
append_assoc [] ys zs = refl
append_assoc (x ∷ xs) ys zs = ap (λ ts. x ∷ ts) (append_assoc xs ys zs)

-- The round at `t`, from what both rounds after it give.
round :
    (token t : ℕ) (front back : List ℕ) (gone kept : NetworkReadRetry)
    → gone.tokens_to_retry ≡ front ++ without token back
    → kept.tokens_to_retry ≡ (front ++ (t ∷ [])) ++ without token back
    → (if t == token then gone else kept).tokens_to_retry ≡ front ++ without token (t ∷ back)
unfolding without
round token t front back gone kept g k = elim (Bool-cases (t == token)) [
  | inl e ↦ rw e g
  | inr e ↦ rw e (k ∙ append_assoc front (t ∷ []) (without token back))
]

at_end :
    (fuel token x : ℕ) (q : NetworkReadRetry)
    → get_elem? q.tokens_to_retry x ≡ none
    → remove_from (suc fuel) token x q ≡ q
unfolding remove_from
at_end fuel token x q h = rw (h, remove_from) refl

at_token :
    (fuel token x t : ℕ) (q : NetworkReadRetry)
    → get_elem? q.tokens_to_retry x ≡ some t
    → remove_from (suc fuel) token x q ≡ (
        if t == token
        then remove_from fuel token x (remove_by_index x q).1
        else remove_from fuel token (x + 1) q)
unfolding remove_from remove_by_index
at_token fuel token x t q h = rw (h, remove_from) refl

remove_from_lem :
    (fuel token x : ℕ) (front back : List ℕ) (q : NetworkReadRetry)
    → length back ≤ fuel
    → x ≡ length front
    → q.tokens_to_retry ≡ front ++ back
    → (remove_from fuel token x q).tokens_to_retry ≡ front ++ without token back
unfolding remove_from without remove_by_index
remove_from_lem zero token x front [] q h i e = e
remove_from_lem zero token x front (t ∷ back) q h i e = absurd (omega arith)
remove_from_lem (suc fuel) token x front [] q h i e =
    ap (λ r. r.tokens_to_retry)
      (at_end fuel token x q (
        ap₂ get_elem? e i
        ∙ ap (λ ts. get_elem? ts (length front)) (append_nil front)
        ∙ get_elem?-end front))
    ∙ e
remove_from_lem (suc fuel) token x front (t ∷ back) q h i e =
    ap (λ r. r.tokens_to_retry)
      (at_token fuel token x t q (ap₂ get_elem? e i ∙ get_elem?-append front back t))
    ∙ round token t front back _ _
        (remove_from_lem fuel token x front back (remove_by_index x q).1 (omega arith) i
          (ap₂ remove_at i e ∙ remove_at-append front back t))
        (remove_from_lem fuel token (x + 1) (front ++ (t ∷ [])) back q (omega arith)
          (omega (arith, length-append front (t ∷ [])))
          (e ∙ sym (append_assoc front (t ∷ []) back)))

-- `remove_all` leaves the other tokens, in their order.
pub remove_all-without :
    (token : ℕ) (q : NetworkReadRetry)
    → (remove_all token q).tokens_to_retry ≡ without token q.tokens_to_retry
unfolding remove_all
remove_all-without token q =
    remove_from_lem (length q.tokens_to_retry) token 0 [] q.tokens_to_retry q (omega arith) refl
      refl

contains-append :
    (token u : ℕ) (ts : List ℕ)
    → contains token ts ≡ false
    → u ≢ token
    → contains token (ts ++ (u ∷ [])) ≡ false
unfolding contains
contains-append token u [] h k = ground arith
contains-append token u (t ∷ ts) h k = ground (arith, contains-append token u ts)

IsDistinct-append :
    (u : ℕ) (ts : List ℕ) → IsDistinct ts → contains u ts ≡ false → IsDistinct (ts ++ (u ∷ []))
unfolding IsDistinct contains
IsDistinct-append u [] d h = (refl, tt)
IsDistinct-append u (t ∷ ts) d h =
    (contains-append t u ts d.0 (ground arith), IsDistinct-append u ts d.1 (ground arith))

-- What `queue` does to the tokens: it keeps them distinct, and adds one that is not among them at the
-- end, so that tokens are polled in the order in which they were queued.
pub queue-IsDistinct :
    (token : ℕ) (q : NetworkReadRetry)
    → IsDistinct q.tokens_to_retry
    → IsDistinct (queue token q).tokens_to_retry
      × (((contains token q.tokens_to_retry ≡ true) × (queue token q ≡ q))
          ⊎ ((contains token q.tokens_to_retry ≡ false)
              × ((queue token q).tokens_to_retry ≡ q.tokens_to_retry ++ (token ∷ []))))
unfolding queue
queue-IsDistinct token q d = elim (Bool-cases (contains token q.tokens_to_retry)) [
  | inl e ↦ rw e (d, inl (refl, refl))
  | inr e ↦ rw e (IsDistinct-append token q.tokens_to_retry d e, inr (refl, refl))
]
