-- ===== src/Session/Inbound/Same.antt =====
-- src/fixt/engine_thread.rs: proofs that what `on_network_message` hands on is the message that it
-- was given, but for a rejected SequenceReset-GapFill, which is left as a new SequenceReset.
use fix_rs.Prelude.{
  ℕ, ◌+◌, ◌≤◌, ◌<◌, ap, Bool, true, false, not, ◌&&◌, Option, none, some, ◌==◌, ltb, if◌then◌else◌,
  ◌≡◌, refl, inl, inr, arith, Bool-cases,
}
use fix_rs.Action.{if_let, pure, fail, panic, ◌>>◌, ◌>>=◌}
use fix_rs.Decimal.{max_u64}
use fix_rs.Action.Ends.{Gives, Gives-then, Gives-last, Gives-seq, Gives-if, Gives-if_let}
use fix_rs.Session.Fixt.{
  FixtMessage, Body, Logon, fresh, logon, logout_message, resend_request, test_request, heartbeat,
  sequence_reset, reject, business_message_reject, application, as_resend_request,
  as_sequence_reset,
}
use fix_rs.Session.State.{
  Timer, InternalConnection, ConnectionAction, return_now, increment_inbound_msg_seq_num,
}
use fix_rs.Session.Resend.{
  reject_range, accept_range, on_range, if_on_resend_request, reject_for_sending_time_accuracy,
  if_passed_on, on_greater_than_expected_msg_seq_num, on_less_than_expected_msg_seq_num,
  reject_gap_fill, fill_gap, on_gap_fill, on_in_order, on_expected_msg_seq_num,
  count_resend_request,
}
use fix_rs.Session.Inbound.{
  on_sequence_reset_reset, reset_target, passed_on, close_gap, too_high, as_expected, in_sequence,
  on_msg_seq_num,
}

-- What becomes of a message before which the number `next` was expected: it is the same, unless it is a SequenceReset-GapFill
-- that does not go beyond that number, which is left as an empty SequenceReset.
pub data IsSame (next : ℕ) (m m' : FixtMessage) : Type 0 where
  same : ((new : ℕ) → m.body ≡ sequence_reset true new → next < new) → m' ≡ m → IsSame next m m'
  emptied :
      (new : ℕ)
      → m.body ≡ sequence_reset true new
      → new ≤ next
      → m' ≡ fresh (sequence_reset false 0)
      → IsSame next m m'

pub of_reset :
    (b : Body) (gap_fill : Bool) (new : ℕ)
    → as_sequence_reset b ≡ some (gap_fill, new)
    → b ≡ sequence_reset gap_fill new
unfolding as_sequence_reset
of_reset (logon _) gap_fill new e = cc
of_reset (logout_message _) gap_fill new e = cc
of_reset (resend_request _ _) gap_fill new e = cc
of_reset (test_request _) gap_fill new e = cc
of_reset (heartbeat _) gap_fill new e = cc
of_reset (sequence_reset _ _) gap_fill new e = cc
of_reset (reject _) gap_fill new e = cc
of_reset (business_message_reject _) gap_fill new e = cc
of_reset (application _) gap_fill new e = cc

not_reset : (m : FixtMessage) (next : ℕ) → as_sequence_reset m.body ≡ none → IsSame next m m
unfolding as_sequence_reset
not_reset m next e = same (λ new h. let k = ap as_sequence_reset h in cc) refl

-- A SequenceReset that fills no gap is the same.
not_gap_fill :
    (m : FixtMessage) (next new : ℕ)
    → as_sequence_reset m.body ≡ some (false, new)
    → IsSame next m m
not_gap_fill m next new e = let h = of_reset m.body false new e in same (λ new' k. cc) refl

pub same_number :
    (b : Body) (n k : ℕ) → b ≡ sequence_reset true n → b ≡ sequence_reset true k → n ≡ k
same_number b n k h h' = cc

-- A Logon is the same.
pub logon-IsSame :
    (m m' : FixtMessage) (l : Logon) (next next' : ℕ)
    → m.body ≡ logon l
    → IsSame next m m'
    → IsSame next' m m'
logon-IsSame m m' l next next' e (same _ k) = same (λ new h. cc) k
logon-IsSame m m' l next next' e (emptied new h _ _) = cc

-- Nothing, or that message.
abbrev IsOption : (FixtMessage → Type 0) → Option FixtMessage → Type 0
IsOption P none = Unit
IsOption P (some m) = P m

module _ {B T : Type 0} (timer : Timer T) where
  resend-Gives :
      (P : FixtMessage → Type 0) (m : FixtMessage) (n : ℕ) (c : InternalConnection B T)
      → P m
      → Gives (IsOption P) (if_on_resend_request timer m n c)
  unfolding if_on_resend_request on_range reject_range accept_range
  resend-Gives P m n c p =
      Gives-if_let (IsOption P) (as_resend_request m.body) _ _ c
        (λ range.
          Gives-if (IsOption P) (ltb range.1 range.0 && not (range.1 == 0)) _ _ c
            (Gives-seq (IsOption P) _ _ c (λ s. Gives-seq (IsOption P) _ _ s (λ _. tt)))
            (Gives-last (IsOption P) (count_resend_request timer range.0 range.1) _ c (λ goes_on s.
              Gives-if (IsOption P) goes_on _ _ s (Gives-seq (IsOption P) _ _ s (λ _. p)) tt)))
        p

  passed-Gives :
      (P : FixtMessage → Type 0) (o : Option FixtMessage)
      (f : FixtMessage → ConnectionAction B T (Unit {0})) (c : InternalConnection B T)
      → IsOption P o
      → Gives (IsOption P) (if_passed_on timer o f c)
  unfolding if_passed_on
  passed-Gives P none f c p = tt
  passed-Gives P (some m) f c p = Gives-seq (IsOption P) (f m) (pure (some m)) c (λ _. p)

  fill-Gives :
      (m : FixtMessage) (n new : ℕ) (c : InternalConnection B T)
      → m.body ≡ sequence_reset true new
      → Gives (IsSame c.inbound_msg_seq_num m) (fill_gap timer m n new c)
  unfolding fill_gap reject_gap_fill
  fill-Gives m n new c e = elim (Bool-cases (ltb c.inbound_msg_seq_num new)) [
    | inl h ↦ rw h (
        same
          (λ new' k.
            let number : new' ≡ new = same_number m.body new' new k e in rw number (ground arith))
          refl)
    | inr h ↦
        rw h (
          Gives-seq (IsSame c.inbound_msg_seq_num m) _ _ c (λ _. emptied new e (ground arith) refl))
  ]

  gap-Gives :
      (m : FixtMessage) (n : ℕ) (c : InternalConnection B T)
      → Gives (IsSame c.inbound_msg_seq_num m) (on_gap_fill timer m n c)
  unfolding on_gap_fill
  gap-Gives m n c = go (as_sequence_reset m.body) refl
    where
      go :
          (o : Option (Bool × ℕ))
          → as_sequence_reset m.body ≡ o
          → Gives
              (IsSame c.inbound_msg_seq_num m)
              (if_let o (λ reset. if reset.0 then fill_gap timer m n reset.1 else panic) (pure m) c)
      go none e = not_reset m c.inbound_msg_seq_num e
      go (some (true, new)) e = fill-Gives m n new c (of_reset m.body true new e)
      go (some (false, new)) e = tt

  in_order-Gives :
      (m : FixtMessage) (n : ℕ) (c : InternalConnection B T)
      → Gives (IsOption (IsSame c.inbound_msg_seq_num m)) (on_in_order timer m n c)
  unfolding on_in_order
  in_order-Gives m n c =
      Gives-then (IsSame c.inbound_msg_seq_num m) (IsOption (IsSame c.inbound_msg_seq_num m))
        (on_gap_fill timer m n) _ c (gap-Gives m n c)
        (λ m' p s.
          Gives-then (IsOption (IsSame c.inbound_msg_seq_num m))
            (IsOption (IsSame c.inbound_msg_seq_num m)) (if_on_resend_request timer m' n) _ s
            (resend-Gives (IsSame c.inbound_msg_seq_num m) m' n s p)
            (λ answer q s'. passed-Gives (IsSame c.inbound_msg_seq_num m) answer _ s' q))

  expected-Gives :
      (m : FixtMessage) (n : ℕ) (c : InternalConnection B T)
      → Gives
          (IsOption (IsSame (c.inbound_msg_seq_num + 1) m))
          (on_expected_msg_seq_num timer m n c)
  unfolding on_expected_msg_seq_num increment_inbound_msg_seq_num ◌>>◌ ◌>>=◌
  expected-Gives m n c = elim (Bool-cases (c.inbound_msg_seq_num == max_u64)) [
    | inl e ↦ rw e tt
    | inr e ↦ rw e (
        let s = record c { inbound_msg_seq_num = c.inbound_msg_seq_num + 1 } in
        Gives-if (IsOption (IsSame s.inbound_msg_seq_num m))
          (m.poss_dup_flag && ltb m.sending_time m.orig_sending_time) _ _ s
          (Gives-seq (IsOption (IsSame s.inbound_msg_seq_num m))
            (reject_for_sending_time_accuracy timer m n) (pure none) s (λ _. tt))
          (in_order-Gives m n s))
  ]

  passed_on-Gives :
      (P : FixtMessage → Type 0) (o : Option FixtMessage) (c : InternalConnection B T)
      → IsOption P o
      → Gives P (passed_on timer o c)
  unfolding passed_on
  passed_on-Gives P none c p = tt
  passed_on-Gives P (some m) c p = p

  high-Gives :
      (b : Bool) (next : ℕ) (m : FixtMessage) (c : InternalConnection B T)
      → (b ≡ true → (l : Logon) × (m.body ≡ logon l))
      → Gives (IsSame next m) (too_high timer b m c)
  unfolding too_high on_greater_than_expected_msg_seq_num
  high-Gives b next m c just =
      Gives-then (IsOption (λ m'. m' ≡ m)) (IsSame next m) _ _ c
        (Gives-then (IsOption (λ m'. m' ≡ m)) (IsOption (λ m'. m' ≡ m))
          (if_on_resend_request timer m m.msg_seq_num) _ c
          (resend-Gives (λ m'. m' ≡ m) m m.msg_seq_num c refl)
          (λ answer q s. passed-Gives (λ m'. m' ≡ m) answer _ s q))
        (λ answer q s.
          Gives-then (λ m'. m' ≡ m) (IsSame next m) (passed_on timer answer) _ s
            (passed_on-Gives (λ m'. m' ≡ m) answer s q) (λ m' p s'. last b just m' p s'))
    where
      last :
          (b : Bool)
          → (b ≡ true → (l : Logon) × (m.body ≡ logon l))
          → (m' : FixtMessage) → m' ≡ m
          → (s : InternalConnection B T)
          → Gives (IsSame next m) ((if b then pure m' else fail return_now) s)
      last true just m' p s = let (l, e) = just refl in same (λ new h. cc) p
      last false just m' p s = tt

  as_expected-Gives :
      (m : FixtMessage) (c : InternalConnection B T)
      → Gives (IsSame (c.inbound_msg_seq_num + 1) m) (as_expected timer m c)
  unfolding as_expected
  as_expected-Gives m c =
      let P = IsSame (c.inbound_msg_seq_num + 1) m in
      Gives-then (IsOption P) P (on_expected_msg_seq_num timer m m.msg_seq_num) _ c
        (expected-Gives m m.msg_seq_num c)
        (λ answer q s.
          Gives-then P P (passed_on timer answer) _ s (passed_on-Gives P answer s q)
            (λ m' p s'. Gives-seq P (close_gap timer) _ s' (λ _. p)))

  sequence-Gives :
      (b : Bool) (m : FixtMessage) (c : InternalConnection B T)
      → (b ≡ true → (l : Logon) × (m.body ≡ logon l))
      → Gives (IsSame (c.inbound_msg_seq_num + 1) m) (in_sequence timer b m c)
  unfolding in_sequence
  sequence-Gives b m c just =
      go (ltb c.inbound_msg_seq_num m.msg_seq_num) (ltb m.msg_seq_num c.inbound_msg_seq_num)
    where
      go :
          (h l : Bool)
          → Gives (IsSame (c.inbound_msg_seq_num + 1) m) (
              if h
              then too_high timer b m c
              else if l
              then (on_less_than_expected_msg_seq_num timer m m.msg_seq_num >> fail return_now) c
              else as_expected timer m c)
      go true l = high-Gives b (c.inbound_msg_seq_num + 1) m c just
      go false true =
          Gives-seq (IsSame (c.inbound_msg_seq_num + 1) m)
            (on_less_than_expected_msg_seq_num timer m m.msg_seq_num) _ c (λ _. tt)
      go false false = as_expected-Gives m c

  pub on_msg_seq_num-IsSame :
      (b : Bool) (m : FixtMessage) (c : InternalConnection B T)
      → (b ≡ true → (l : Logon) × (m.body ≡ logon l))
      → Gives (IsSame (c.inbound_msg_seq_num + 1) m) (on_msg_seq_num timer b m c)
  unfolding on_msg_seq_num reset_target
  on_msg_seq_num-IsSame b m c just = go (as_sequence_reset m.body) refl
    where
      go :
          (o : Option (Bool × ℕ))
          → as_sequence_reset m.body ≡ o
          → Gives (IsSame (c.inbound_msg_seq_num + 1) m) (
              if_let
                (if_let o (λ reset. if reset.0 then none else some reset.1) none)
                (λ n. on_sequence_reset_reset timer m.msg_seq_num n >> pure m)
                (in_sequence timer b m)
                c)
      go none e = sequence-Gives b m c just
      go (some (true, new)) e = sequence-Gives b m c just
      go (some (false, new)) e =
          Gives-seq (IsSame (c.inbound_msg_seq_num + 1) m)
            (on_sequence_reset_reset timer m.msg_seq_num new) (pure m) c
            (λ _. not_gap_fill m (c.inbound_msg_seq_num + 1) new e)
