-- ===== src/Engine/Responses.antt =====
-- src/fixt/engine.rs: proofs on which responses to a ResendRequest `send_resend_response` sends.
use mathlib.Core.Bool.{false≢true}
use fix_rs.Prelude.{
  ℕ, ◌≤◌, ◌<◌, Bool, true, false, ◌&&◌, List, [], ◌∷◌, ltb, leb, ◌≡◌, ◌↔◌, refl, sym, ap, ◌∙◌,
  Bool-cases, inl, inr, arith, All,
}
use fix_rs.Action.{done, panicked}
use fix_rs.Session.Requests.{ResendResponse, message, gap}
use fix_rs.Session.Thread.Events.{resend_messages}
use fix_rs.Engine.{
  Engine, send, resend_response_end, is_increasing_from, is_increasing, send_resend_response,
}

-- The number of a message, and the number behind a gap.
abbrev pub last_number : ResendResponse → ℕ
last_number (message _ m) = m.msg_seq_num
last_number (gap start end_seq_no) = end_seq_no

abbrev pub IsRange : ResendResponse → Type 0
IsRange (message _ _) = Unit
IsRange (gap start end_seq_no) = start ≤ end_seq_no

-- Every gap is a range, and each response has a number below those of all that follow it.
abbrev pub IsIncreasing : List ResendResponse → Type 0
IsIncreasing [] = Unit
IsIncreasing (r ∷ rs) =
    IsRange r × All (λ later. last_number r < last_number later) rs × IsIncreasing rs

above :
    (a b : ℕ) (rs : List ResendResponse)
    → a < b
    → All (λ later. b < last_number later) rs
    → All (λ later. a < last_number later) rs
above a b [] h k = tt
above a b (r ∷ rs) h k = (omega (arith, k.0), above a b rs h k.1)

both : (a b : Bool) → (a && b) ≡ true → (a ≡ true) × (b ≡ true)
both true b h = (refl, h)
both false b h = cc

-- A response with the number `n`, behind one with the number `previous`.
behind_lem :
    (previous n : ℕ) (rs : List ResendResponse)
    → ((is_increasing_from n rs ≡ true)
        ↔ (All (λ later. n < last_number later) rs × IsIncreasing rs))
    → ((ltb previous n && is_increasing_from n rs) ≡ true) ↔ (
        (previous < n)
        × All (λ later. previous < last_number later) rs
        × All (λ later. n < last_number later) rs
        × IsIncreasing rs)
behind_lem previous n rs (to, from) = (
  λ h.
      let (less, rest) = both (ltb previous n) (is_increasing_from n rs) h in
      let (below, later) = to rest in
      let smaller : previous < n = ground arith in
      (smaller, above previous n rs smaller below, below, later),
  λ h.
      let smaller : ltb previous n ≡ true = ground arith in
      ap (λ (b : Bool). b && is_increasing_from n rs) smaller ∙ from (h.2, h.3),
)

from_lem :
    (previous : ℕ) (rs : List ResendResponse)
    → (is_increasing_from previous rs ≡ true)
      ↔ (All (λ later. previous < last_number later) rs × IsIncreasing rs)
unfolding is_increasing_from resend_response_end
from_lem previous [] = (λ _. (tt, tt), λ _. refl)
from_lem previous (message v m ∷ rs) =
    let (to, from) = behind_lem previous m.msg_seq_num rs (from_lem m.msg_seq_num rs) in
    (λ h. (let (a, b, c, d) = to h in ((a, b), (tt, c, d))), λ h. from (h.0.0, h.0.1, h.1.1, h.1.2))
from_lem previous (gap start n ∷ rs) = elim (Bool-cases (leb start n)) [
  | inl e ↦ rw e (
      let range : start ≤ n = ground arith in
      let (to, from) = behind_lem previous n rs (from_lem n rs) in
      (
        λ h. (let (a, b, c, d) = to h in ((a, b), (range, c, d))),
        λ h. from (h.0.0, h.0.1, h.1.1, h.1.2),
      ))
  | inr e ↦ rw e (λ h. absurd (false≢true h), λ h. (let range : start ≤ n = h.1.0 in ground arith))
]

first_lem : (rs : List ResendResponse) → (is_increasing rs ≡ true) ↔ IsIncreasing rs
unfolding is_increasing resend_response_end
first_lem [] = (λ _. tt, λ _. refl)
first_lem (message v m ∷ rs) =
    (let (to, from) = from_lem m.msg_seq_num rs in
      (λ h. (let (a, b) = to h in (tt, a, b)), λ h. from (h.1, h.2)))
first_lem (gap start n ∷ rs) = elim (Bool-cases (leb start n)) [
  | inl e ↦ rw e (
      let range : start ≤ n = ground arith in
      let (to, from) = from_lem n rs in
      (λ h. (let (a, b) = to h in (range, a, b)), λ h. from (h.1, h.2)))
  | inr e ↦ rw e (λ h. absurd (false≢true h), λ h. (let range : start ≤ n = h.0 in ground arith))
]

-- A response that is not empty is sent exactly if each of its gaps is a range and the number of each of its parts, the end of a
-- gap, is below those of all that follow; else there is a panic, and nothing is sent.
pub send_resend_response_iff :
    (connection : ℕ) (r : ResendResponse) (rs : List ResendResponse) (engine : Engine)
    → ((send_resend_response connection (r ∷ rs) engine
          ≡ (done tt, send (resend_messages connection (r ∷ rs)) engine))
        ↔ IsIncreasing (r ∷ rs))
      × ((send_resend_response connection (r ∷ rs) engine ≡ (panicked, engine))
          ↔ (¬ IsIncreasing (r ∷ rs)))
unfolding send_resend_response
send_resend_response_iff connection r rs engine = elim (Bool-cases (is_increasing (r ∷ rs))) [
  | inl e ↦
      (let holds = (first_lem (r ∷ rs)).0 e in
        rw e ((λ _. holds, λ _. refl), (λ h. cc, λ h. absurd (h holds))))
  | inr e ↦
      (let fails : ¬ IsIncreasing (r ∷ rs) = λ h. false≢true (sym e ∙ (first_lem (r ∷ rs)).1 h) in
        rw e ((λ h. cc, λ h. absurd (fails h)), (λ _. fails, λ _. refl)))
]
