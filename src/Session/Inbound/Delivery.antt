-- ===== src/Session/Inbound/Delivery.antt =====
-- src/fixt/engine_thread.rs: proofs on which messages `on_network_message` hands to the user.
use fix_rs.Prelude.{
  ℕ, ◌+◌, ◌≤◌, ◌<◌, Bool, true, false, some, [], ◌∷◌, ◌++◌, ◌≡◌, refl, sym, ap, ◌∙◌, ◌⊎◌, inl, inr,
  arith,
}
use mathlib.Core.Bool.{false≢true}
use mathlib.Core.Path.{subst}
use fix_rs.Action.{pure, and_then, ◌>>=◌, ◌>>◌}
use fix_rs.Action.Ends.{Ends-both, Ends, Ends-and_then, Ends-weaken}
use fix_rs.Session.Fixt.{FixtMessage, Logon, logon, as_test_request}
use fix_rs.Session.Status.{is_receiving_logon, is_sending_logon}
use fix_rs.Session.State.{Timer, InternalConnection, message_received}
use fix_rs.Session.Inbound.{
  check_version, check_comp_ids, on_logon, on_sequence_reset_reset, reset_target, on_msg_seq_num,
  reply_to_test_request, deliver, on_network_message,
}
use fix_rs.Session.Calm.{
  Calm, Calm-trans, stay, step, seq, IsCalm-if_let, deliveries, deliveries-append,
}
use fix_rs.Session.Inbound.Covered.{IsCovered, on_msg_seq_num-Covers}
use fix_rs.Session.Inbound.Same.{IsSame, logon-IsSame, on_msg_seq_num-IsSame}
use fix_rs.Session.Inbound.Checks.{
  to_ends, Ends-if_let, HasVersion, version_lem, HasIds, ids_lem, LoggedOn, logon_lem,
}
use fix_rs.Session.Inbound.Sequence.{reset-IsCalm, InSequence, in_sequence_lem}

-- Why the number of a message that is passed on is the right one: it is the expected one, and the
-- expected one moves past it; or it is that of the Logon by which the session begins; or it does not
-- matter, in a SequenceReset-Reset.
pub data Accepted {B T : Type 0} (c d : InternalConnection B T) (m : FixtMessage) : Type 0 where
  in_order :
      m.msg_seq_num ≡ c.inbound_msg_seq_num → m.msg_seq_num < d.inbound_msg_seq_num → Accepted c d m
  session_begins :
      (l : Logon)
      → is_sending_logon c.status ≡ true
      → m.body ≡ logon l
      → c.inbound_msg_seq_num ≤ m.msg_seq_num
      → Accepted c d m
  sequence_is_reset : (n : ℕ) → reset_target m.body ≡ some n → Accepted c d m

module _ {B T : Type 0} (timer : Timer T) where
  -- Passed on for one of the reasons, relative to the connection after the Logon.
  abbrev PassedOn :
      Bool → FixtMessage → InternalConnection B T → FixtMessage → InternalConnection B T → Type 0
  PassedOn b m s m' d =
      InSequence timer b m s m' d ⊎ (Calm s d × ((n : ℕ) × (reset_target m.body ≡ some n)))

  seq_num_lem :
      (b : Bool) (m : FixtMessage) (s : InternalConnection B T)
      → Ends (PassedOn b m s) (Calm s) (on_msg_seq_num timer b m s)
  unfolding on_msg_seq_num
  seq_num_lem b m s =
      Ends-if_let (PassedOn b m s) (Calm s) (reset_target m.body) _ _ s
        (λ n e.
          Ends-weaken (λ _ d. Calm s d) (PassedOn b m s) (Calm s) (Calm s) _
            (to_ends s _ (
              seq (on_sequence_reset_reset timer m.msg_seq_num n) (pure m)
                (reset-IsCalm timer m.msg_seq_num n) (stay _) s))
            (λ _ d k. inr (k, (n, e))) (λ _ k. k))
        (λ _.
          Ends-weaken (InSequence timer b m s) (PassedOn b m s) (Calm s) (Calm s) _
            (in_sequence_lem timer b m s) (λ _ d k. inl k) (λ _ k. k))

  -- How a message that is handed to the user changes the connection.
  abbrev pub Delivered :
      InternalConnection B T → FixtMessage → Unit {0} → InternalConnection B T → Type 0
  Delivered c m _ d =
      ((m' : FixtMessage) × IsSame (c.inbound_msg_seq_num + 1) m m'
        × (deliveries d.events ≡ deliveries c.events ++ (m' ∷ [])))
      × (c.inbound_msg_seq_num ≤ d.inbound_msg_seq_num)
      × IsCovered m d
      × HasVersion m c.fix_version
      × HasIds timer m c
      × Accepted c d m

  -- The reply to a TestRequest comes first, and then the message is handed over.
  deliver_lem :
      (m : FixtMessage) (s : InternalConnection B T)
      → Ends
          (λ _ d.
            (deliveries d.events ≡ deliveries s.events ++ (m ∷ []))
            × (s.inbound_msg_seq_num ≤ d.inbound_msg_seq_num))
          (Calm s)
          (deliver timer m s)
  unfolding deliver reply_to_test_request ◌>>◌ ◌>>=◌ deliveries
  deliver_lem m s =
      Ends-and_then (λ _ d. Calm s d)
        (λ _ d.
          (deliveries d.events ≡ deliveries s.events ++ (m ∷ []))
          × (s.inbound_msg_seq_num ≤ d.inbound_msg_seq_num))
        (Calm s) (reply_to_test_request timer m.body s) _
        (to_ends s _
          (IsCalm-if_let (as_test_request m.body) _ _ (λ _ c. step _ c _ refl refl) (stay _) s))
        (λ _ d k. (
          deliveries-append d.events (message_received d.token m ∷ [])
              ∙ ap (λ ms. ms ++ (m ∷ [])) k.same_deliveries,
          k.not_lowered,
        ))

  -- From the states along the way to those at the ends.
  delivered_lem :
      (m m' : FixtMessage) (b : Bool) (c s d e : InternalConnection B T)
      → HasVersion m c.fix_version
      → HasIds timer m c
      → LoggedOn timer m c b s
      → PassedOn b m s m' d
      → IsSame (s.inbound_msg_seq_num + 1) m m'
      → IsCovered m d
      → deliveries e.events ≡ deliveries d.events ++ (m' ∷ [])
      → d.inbound_msg_seq_num ≤ e.inbound_msg_seq_num
      → Delivered c m tt e
  delivered_lem m m' b c s d e v i l p z covered q h = (
    (
      m',
      same_at l.1,
      q ∙ ap (λ ms. ms ++ (m' ∷ [])) ((calm_sd p).same_deliveries ∙ l.0.same_deliveries),
    ),
    (let a = l.0.not_lowered in let a' = (calm_sd p).not_lowered in omega arith),
    (λ new g. let above = covered new g in omega arith),
    v,
    i,
    accepted p l.1,
  )
    where
      calm_sd : PassedOn b m s m' d → Calm s d
      calm_sd (inl k) = k.0
      calm_sd (inr k) = k.0

      same_at :
          ((is_sending_logon c.status ≡ true) × ((l : Logon) × (m.body ≡ logon l)))
            ⊎ ((b ≡ false) × (s ≡ c))
          → IsSame (c.inbound_msg_seq_num + 1) m m'
      same_at (inl (_, (f, g))) =
          logon-IsSame m m' f (s.inbound_msg_seq_num + 1) (c.inbound_msg_seq_num + 1) g z
      same_at (inr (_, e)) = subst (λ x. IsSame (x.inbound_msg_seq_num + 1) m m') e z

      accepted :
          PassedOn b m s m' d
          → ((is_sending_logon c.status ≡ true) × ((l : Logon) × (m.body ≡ logon l)))
            ⊎ ((b ≡ false) × (s ≡ c))
          → Accepted c e m
      accepted (inr (k, (n, r))) w = sequence_is_reset n r
      accepted (inl (k, inl (r, r'))) (inl (w, (f, g))) =
          session_begins f w g (let a = l.0.not_lowered in omega arith)
      accepted (inl (k, inr (r, r'))) (inl (w, (f, g))) =
          session_begins f w g (let a = l.0.not_lowered in omega arith)
      accepted (inl (k, inl (r, r'))) (inr (w, w')) =
          in_order (subst (λ z. m.msg_seq_num ≡ z.inbound_msg_seq_num) w' r) (omega arith)
      accepted (inl (k, inr (r, r'))) (inr (w, w')) = absurd (false≢true (sym w ∙ r))

  abbrev Checked : InternalConnection B T → FixtMessage → Unit {0} → InternalConnection B T → Type 0
  Checked c m _ s = (s ≡ c) × HasVersion m c.fix_version × HasIds timer m c

  checks_lem :
      (m : FixtMessage) (c : InternalConnection B T)
      → is_receiving_logon c.status ≡ false
      → Ends
          (Checked c m)
          (Calm c)
          (and_then (check_version timer m c) (λ _. check_comp_ids timer m))
  checks_lem m c h =
      Ends-and_then (λ _ s. (s ≡ c) × HasVersion m c.fix_version) (Checked c m) (Calm c)
        (check_version timer m c) _ (version_lem timer m c h)
        (λ _ s k.
          subst (λ z. Ends (Checked c m) (Calm c) (check_comp_ids timer m z)) (sym k.0)
            (Ends-weaken (λ _ z. (z ≡ c) × HasIds timer m c) (Checked c m) (Calm c) (Calm c) _
              (ids_lem timer m c h) (λ _ z k'. (k'.0, k.1, k'.1)) (λ _ k'. k')))

  abbrev OnLogon : InternalConnection B T → FixtMessage → Bool → InternalConnection B T → Type 0
  OnLogon c m b s = LoggedOn timer m c b s × HasVersion m c.fix_version × HasIds timer m c

  logon_stage :
      (m : FixtMessage) (c : InternalConnection B T)
      → is_receiving_logon c.status ≡ false
      → Ends (OnLogon c m) (Calm c) (
          and_then
            (and_then (check_version timer m c) (λ _. check_comp_ids timer m))
            (λ _. on_logon timer m))
  logon_stage m c h =
      Ends-and_then (Checked c m) (OnLogon c m) (Calm c) _ _ (checks_lem m c h) (λ _ s k.
        subst (λ z. Ends (OnLogon c m) (Calm c) (on_logon timer m z)) (sym k.0)
          (Ends-weaken (LoggedOn timer m c) (OnLogon c m) (Calm c) (Calm c) _
            (logon_lem timer m c h) (λ _ z k'. (k', k.1, k.2)) (λ _ k'. k')))

  rest_lem :
      (m : FixtMessage) (c : InternalConnection B T) (b : Bool) (s : InternalConnection B T)
      → OnLogon c m b s
      → Ends
          (Delivered c m)
          (Calm c)
          (and_then (on_msg_seq_num timer b m s) (λ m'. deliver timer m'))
  rest_lem m c b s k =
      Ends-and_then
        (λ m' d. PassedOn b m s m' d × (IsSame (s.inbound_msg_seq_num + 1) m m' × IsCovered m d))
        (Delivered c m) (Calm c) _ _
        (Ends-both (PassedOn b m s)
          (λ m' d. IsSame (s.inbound_msg_seq_num + 1) m m' × IsCovered m d) (Calm c) (λ _. Unit) _
          (Ends-weaken (PassedOn b m s) (PassedOn b m s) (Calm s) (Calm c) _ (seq_num_lem b m s)
            (λ _ _ l. l) (λ d l. Calm-trans c s d k.0.0 l))
          (Ends-both (λ m' _. IsSame (s.inbound_msg_seq_num + 1) m m') (λ _ d. IsCovered m d)
            (λ _. Unit) (λ _. Unit) _ (on_msg_seq_num-IsSame timer b m s (just k.0.1))
            (on_msg_seq_num-Covers timer b m s (just k.0.1))))
        (λ m' d l.
          Ends-weaken _ (Delivered c m) (Calm d) (Calm c) _ (deliver_lem m' d)
            (λ _ e q. delivered_lem m m' b c s d e k.1 k.2 k.0 l.0 l.1.0 l.1.1 q.0 q.1)
            (λ e q. Calm-trans c d e (Calm-trans c s d k.0.0 (calm_of b m s m' d l.0)) q))
    where
      just :
          ((is_sending_logon c.status ≡ true) × ((l : Logon) × (m.body ≡ logon l)))
            ⊎ ((b ≡ false) × (s ≡ c))
          → b ≡ true
          → (l : Logon) × (m.body ≡ logon l)
      just (inl (_, g)) e = g
      just (inr (f, _)) e = absurd (false≢true (sym f ∙ e))

      calm_of :
          (b : Bool) (m : FixtMessage) (s : InternalConnection B T) (m' : FixtMessage)
          (d : InternalConnection B T)
          → PassedOn b m s m' d
          → Calm s d
      calm_of b m s m' d (inl l) = l.0
      calm_of b m s m' d (inr l) = l.0

  -- Outside the wait for a first Logon, the handler of a message ends in one of two ways. When it is
  -- done, exactly one message has been handed to the user. This is the received one, but for a SequenceReset-GapFill whose
  -- NewSeqNo is at most one above the number that was expected, for which it is an empty SequenceReset; behind a GapFill
  -- the number expected is not below its NewSeqNo. The version and
  -- both identifiers of the received message are those of the connection, and its number was the expected one, which then
  -- moves past it, unless it is a Logon that answers ours, with a number that is not lower, or a SequenceReset-Reset. Whenever it
  -- ends early, nothing has been handed over. The expected number never goes down.
  pub on_network_message-Delivered :
      (m : FixtMessage) (c : InternalConnection B T)
      → is_receiving_logon c.status ≡ false
      → Ends (Delivered c m) (Calm c) (on_network_message timer m c)
  unfolding on_network_message ◌>>◌ ◌>>=◌
  on_network_message-Delivered m c h =
      Ends-and_then (OnLogon c m) (Delivered c m) (Calm c) _ _ (logon_stage m c h)
        (λ b s k. rest_lem m c b s k)
