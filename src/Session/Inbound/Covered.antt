-- ===== src/Session/Inbound/Covered.antt =====
-- src/fixt/engine_thread.rs: proofs that the number expected behind a SequenceReset-GapFill that is passed on is not below its
-- NewSeqNo.
use fix_rs.Prelude.{
  ℕ, ◌+◌, ◌≤◌, Bool, true, false, ◌&&◌, Option, none, some, ◌==◌, ltb, if◌then◌else◌, ◌≡◌, refl, ap,
  inl, inr, arith, Bool-cases,
}
use fix_rs.Action.{if_let, Outcome, done, failed, panicked, pure, panic, ◌>>◌, ◌>>=◌}
use fix_rs.Action.Ends.{Ends, Ends-and_then, Ends-weaken}
use fix_rs.Decimal.{max_u64}
use fix_rs.Session.Fixt.{FixtMessage, Logon, logon, sequence_reset, as_sequence_reset}
use fix_rs.Session.State.{
  Timer, InternalConnection, ConnectionAction, Exit, increment_inbound_msg_seq_num,
}
use fix_rs.Session.Resend.{
  reject_for_sending_time_accuracy, on_less_than_expected_msg_seq_num,
  on_greater_than_expected_msg_seq_num, reject_gap_fill, fill_gap, on_gap_fill, on_in_order,
  on_expected_msg_seq_num,
}
use fix_rs.Session.Resend.Calm
use fix_rs.Session.Calm.{IsCalm, Calm, seq, stay, bind, choose}
use fix_rs.Session.Inbound.{
  on_sequence_reset_reset, reset_target, passed_on, close_gap, too_high, as_expected, in_sequence,
  on_msg_seq_num,
}
use fix_rs.Session.Inbound.Checks.{to_ends, Ends-if}
use fix_rs.Session.Inbound.Sequence.{close-IsCalm, passed_on-IsCalm, reset-IsCalm}
use fix_rs.Session.Inbound.Same.{of_reset, same_number}

module _ {B T : Type 0} where
  -- A GapFill is covered by the number expected.
  abbrev pub IsCovered : FixtMessage → InternalConnection B T → Type 0
  IsCovered m d = (new : ℕ) → m.body ≡ sequence_reset true new → new ≤ d.inbound_msg_seq_num

  abbrev Covers : {A : Type 0} → FixtMessage → A → InternalConnection B T → Type 0
  Covers m _ d = IsCovered m d

  abbrev Any : InternalConnection B T → Type 0
  Any _ = Unit

  -- What is passed on, if anything.
  abbrev CoversAnswer : FixtMessage → Option FixtMessage → InternalConnection B T → Type 0
  CoversAnswer m none d = Unit
  CoversAnswer m (some _) d = IsCovered m d

  to_answer :
      (m : FixtMessage) (o : Option FixtMessage) (d : InternalConnection B T)
      → IsCovered m d
      → CoversAnswer m o d
  to_answer m none d h = tt
  to_answer m (some _) d h = h

  anything :
      {A : Type 0} (r : Outcome Exit A × InternalConnection B T) → Ends (λ _ _. Unit {0}) Any r
  anything (done a, d) = tt
  anything (failed e, d) = tt
  anything (panicked, d) = tt

  calm-Covers :
      {A : Type 0} (m : FixtMessage) (d : InternalConnection B T) (f : ConnectionAction B T A)
      → IsCalm f
      → IsCovered m d
      → Ends (Covers m) Any (f d)
  calm-Covers m d f k h =
      Ends-weaken (λ _ e. Calm d e) (Covers m) (Calm d) Any (f d) (to_ends d (f d) (k d))
        (λ _ e q new b. let a = h new b in let not_lowered = q.not_lowered in omega arith)
        (λ _ _. tt)

module _ {B T : Type 0} (timer : Timer T) where
  fill-Covers :
      (m : FixtMessage) (n new : ℕ) (c : InternalConnection B T)
      → m.body ≡ sequence_reset true new
      → Ends (Covers m) Any (fill_gap timer m n new c)
  unfolding fill_gap reject_gap_fill ◌>>◌ ◌>>=◌
  fill-Covers m n new c e = elim (Bool-cases (ltb c.inbound_msg_seq_num new)) [
    | inl h ↦ rw h (λ new' k. let number = same_number m.body new' new k e in omega arith)
    | inr h ↦ rw h (λ new' k. let number = same_number m.body new' new k e in ground arith)
  ]

  gap-Covers :
      (m : FixtMessage) (n : ℕ) (c : InternalConnection B T)
      → Ends (Covers m) Any (on_gap_fill timer m n c)
  unfolding on_gap_fill as_sequence_reset
  gap-Covers m n c = go (as_sequence_reset m.body) refl
    where
      go :
          (o : Option (Bool × ℕ))
          → as_sequence_reset m.body ≡ o
          → Ends
              (Covers m)
              Any
              (if_let o (λ reset. if reset.0 then fill_gap timer m n reset.1 else panic) (pure m) c)
      go none e = λ new h. let k = ap as_sequence_reset h in cc
      go (some (true, new)) e = fill-Covers m n new c (of_reset m.body true new e)
      go (some (false, new)) e = tt

  expected-Covers :
      (m : FixtMessage) (n : ℕ) (c : InternalConnection B T)
      → Ends (CoversAnswer m) Any (on_expected_msg_seq_num timer m n c)
  unfolding on_expected_msg_seq_num on_in_order increment_inbound_msg_seq_num ◌>>◌ ◌>>=◌
  expected-Covers m n c = elim (Bool-cases (c.inbound_msg_seq_num == max_u64)) [
    | inl e ↦ rw e tt
    | inr e ↦ rw e (
        let s = record c { inbound_msg_seq_num = c.inbound_msg_seq_num + 1 } in
        go s (m.poss_dup_flag && ltb m.sending_time m.orig_sending_time))
  ]
    where
      go :
          (s : InternalConnection B T) (b : Bool)
          → Ends (CoversAnswer m) Any (
              (if b
                  then (reject_for_sending_time_accuracy timer m n >> pure none)
                  else on_in_order timer m n)
                s)
      go s true = tt
      go s false =
          Ends-and_then (Covers m) (CoversAnswer m) Any (on_gap_fill timer m n s) _
            (gap-Covers m n s)
            (λ m' d k.
              Ends-weaken (Covers m) (CoversAnswer m) Any Any _
                (calm-Covers m d _ (Calm.passed_on-IsCalm timer m' n) k)
                (λ o e h. to_answer m o e h) (λ _ _. tt))

  as_expected-Covers :
      (m : FixtMessage) (c : InternalConnection B T) → Ends (Covers m) Any (as_expected timer m c)
  unfolding as_expected passed_on ◌>>=◌
  as_expected-Covers m c =
      Ends-and_then (CoversAnswer m) (Covers m) Any
        (on_expected_msg_seq_num timer m m.msg_seq_num c) _ (expected-Covers m m.msg_seq_num c) go
    where
      go :
          (o : Option FixtMessage) (d : InternalConnection B T)
          → CoversAnswer m o d
          → Ends (Covers m) Any ((passed_on timer o >>= λ m'. close_gap timer >> pure m') d)
      go none d k = tt
      go (some m') d k =
          calm-Covers m d (close_gap timer >> pure m')
            (seq (close_gap timer) (pure m') (close-IsCalm timer) (stay _)) k

  -- A Logon fills no gap.
  logon-IsCovered :
      (m : FixtMessage) (l : Logon) (d : InternalConnection B T) → m.body ≡ logon l → IsCovered m d
  logon-IsCovered m l d e = λ new h. cc

  -- Whatever is done with a Logon covers it.
  of_logon :
      {A : Type 0} (m : FixtMessage) (l : Logon) (f : ConnectionAction B T A)
      (c : InternalConnection B T)
      → m.body ≡ logon l
      → IsCalm f
      → Ends (Covers m) Any (f c)
  of_logon m l f c e k = calm-Covers m c f k (logon-IsCovered m l c e)

  high-IsCalm : (b : Bool) (m : FixtMessage) → IsCalm {B = B} (too_high timer b m)
  unfolding too_high
  high-IsCalm b m =
      bind (on_greater_than_expected_msg_seq_num timer m m.msg_seq_num) _
        (Calm.greater-IsCalm timer m m.msg_seq_num)
        (λ answer.
          bind (passed_on timer answer) _ (passed_on-IsCalm timer answer)
            (λ m'. choose b _ _ (stay _) (stay _)))

  -- Ahead of the number expected only a Logon is passed on.
  high-Covers :
      (b : Bool) (m : FixtMessage) (c : InternalConnection B T)
      → (b ≡ true → (l : Logon) × (m.body ≡ logon l))
      → Ends (Covers m) Any (too_high timer b m c)
  unfolding too_high ◌>>=◌
  high-Covers true m c just =
      let (l, e) = just refl in of_logon m l (too_high timer true m) c e (high-IsCalm true m)
  high-Covers false m c just =
      Ends-and_then (λ _ _. Unit) (Covers m) Any
        (on_greater_than_expected_msg_seq_num timer m m.msg_seq_num c) _
        (anything (on_greater_than_expected_msg_seq_num timer m m.msg_seq_num c))
        (λ answer d _.
          Ends-and_then (λ _ _. Unit) (Covers m) Any (passed_on timer answer d) _
            (anything (passed_on timer answer d)) (λ _ _ _. tt))

  sequence-Covers :
      (b : Bool) (m : FixtMessage) (c : InternalConnection B T)
      → (b ≡ true → (l : Logon) × (m.body ≡ logon l))
      → Ends (Covers m) Any (in_sequence timer b m c)
  unfolding in_sequence ◌>>◌ ◌>>=◌
  sequence-Covers b m c just =
      Ends-if (Covers m) Any (ltb c.inbound_msg_seq_num m.msg_seq_num) _ _
        (λ _. high-Covers b m c just)
        (λ _.
          Ends-if (Covers m) Any (ltb m.msg_seq_num c.inbound_msg_seq_num) _ _
            (λ _.
              Ends-and_then (λ _ _. Unit) (Covers m) Any
                (on_less_than_expected_msg_seq_num timer m m.msg_seq_num c) _
                (anything (on_less_than_expected_msg_seq_num timer m m.msg_seq_num c))
                (λ _ _ _. tt))
            (λ _. as_expected-Covers m c))

  pub on_msg_seq_num-Covers :
      (b : Bool) (m : FixtMessage) (c : InternalConnection B T)
      → (b ≡ true → (l : Logon) × (m.body ≡ logon l))
      → Ends (λ _ d. IsCovered m d) Any (on_msg_seq_num timer b m c)
  unfolding on_msg_seq_num reset_target
  on_msg_seq_num-Covers b m c just = go (as_sequence_reset m.body) refl
    where
      go :
          (o : Option (Bool × ℕ))
          → as_sequence_reset m.body ≡ o
          → Ends (Covers m) Any (
              if_let
                (if_let o (λ reset. if reset.0 then none else some reset.1) none)
                (λ n. on_sequence_reset_reset timer m.msg_seq_num n >> pure m)
                (in_sequence timer b m)
                c)
      go none e = sequence-Covers b m c just
      go (some (true, new)) e = sequence-Covers b m c just
      go (some (false, new)) e =
          let body = of_reset m.body false new e in
          calm-Covers m c (on_sequence_reset_reset timer m.msg_seq_num new >> pure m)
            (seq (on_sequence_reset_reset timer m.msg_seq_num new) (pure m)
              (reset-IsCalm timer m.msg_seq_num new) (stay _))
            (λ new' h. cc)
