-- ===== src/Session/ParseErrors/Answers.antt =====
-- src/fixt/engine_thread.rs: proofs on how a message that cannot be parsed is answered.
use fix_rs.Prelude.{
  ℕ, ◌+◌, true, false, Option, none, some, [], ◌∷◌, ◌++◌, ◌==◌, Bytes, ◌≡◌, ◌≢◌, refl, ap, arith,
  Bool-cases, ◌∙◌, ◌⊎◌, inl, inr,
}
use fix_rs.Decimal.{max_u64}
use fix_rs.Action.{Outcome, done, failed, panicked, ◌>>=◌, ◌>>◌}
use fix_rs.Parser.State.{
  ParseError, missing_required_tag, missing_conditionally_required_tag, begin_str_not_first_tag,
  body_length_not_second_tag, body_length_not_number, msg_type_not_third_tag, msg_type_unknown,
  sender_comp_id_not_fourth_tag, target_comp_id_not_fifth_tag, appl_ver_id_not_sixth_tag,
  checksum_not_last_tag, checksum_does_not_match, checksum_wrong_format, duplicate_tag,
  unexpected_tag, unknown_tag, wrong_format_tag, out_of_range_tag, no_value_after_tag,
  missing_preceding_length_tag, missing_following_length_tag,
  non_repeating_group_tag_in_repeating_group, repeating_group_tag_with_no_repeating_group,
  missing_first_repeating_group_tag_after_number_of_repeating_group_tag, message_size_too_big,
}
use fix_rs.Session.Fixt.{FixtMessage, Body, reject, business_message_reject}
use fix_rs.Session.Status.{
  is_sending_logon, logon_parse_error, inbound_msg_seq_num_max_exceeded_error,
}
use fix_rs.Session.State.{
  Exit, return_now, send, InternalConnection, from, terminate, shutdown,
  increment_inbound_msg_seq_num, message_received_garbled,
}
use fix_rs.Session.Dictionary.{standard_msg_types, contains_type}
use fix_rs.Session.ParseErrors.{
  orig_sending_time_tag, reject_for, reject_tag, out_of_order, missing_conditional, unknown_type,
  wrong_group, answer, push_answer, on_network_parse_error,
}

-- The number of the message that a Reject or a BusinessMessageReject is about.
unfoldable pub refers_to : Body → Option ℕ
refers_to b = elim b [
  | reject r ↦ some r.ref_seq_num
  | business_message_reject r ↦ some r.ref_seq_num
  | _ ↦ none
]

unfoldable pub RefersTo : ℕ → Option Body → Type 0
RefersTo n none = Unit
RefersTo n (some b) = refers_to b ≡ some n

conditional_refers : (n tag : ℕ) (t : Bytes) → refers_to (missing_conditional n tag t) ≡ some n
unfolding refers_to missing_conditional reject_for
conditional_refers n tag t = elim (Bool-cases (tag == orig_sending_time_tag)) [
  | inl e ↦ rw e refl
  | inr e ↦ rw e refl
]

type_refers : (n : ℕ) (t : Bytes) → refers_to (unknown_type n t) ≡ some n
unfolding refers_to unknown_type reject_for
type_refers n t = elim (Bool-cases (contains_type t standard_msg_types)) [
  | inl e ↦ rw e refl
  | inr e ↦ rw e refl
]

answer_refers : (n max : ℕ) (e : ParseError FixtMessage) → RefersTo n (answer n max e)
unfolding RefersTo answer refers_to reject_tag reject_for out_of_order wrong_group
answer_refers n max (missing_required_tag tag _) = refl
answer_refers n max (unexpected_tag tag) = refl
answer_refers n max (unknown_tag tag) = refl
answer_refers n max (no_value_after_tag tag) = refl
answer_refers n max (out_of_range_tag tag) = refl
answer_refers n max (wrong_format_tag tag) = refl
answer_refers n max sender_comp_id_not_fourth_tag = refl
answer_refers n max target_comp_id_not_fifth_tag = refl
answer_refers n max appl_ver_id_not_sixth_tag = refl
answer_refers n max message_size_too_big = refl
answer_refers n max begin_str_not_first_tag = refl
answer_refers n max body_length_not_second_tag = refl
answer_refers n max msg_type_not_third_tag = refl
answer_refers n max checksum_not_last_tag = refl
answer_refers n max (missing_preceding_length_tag _) = refl
answer_refers n max (missing_following_length_tag _) = refl
answer_refers n max (duplicate_tag tag) = refl
answer_refers n max (missing_conditionally_required_tag tag m) = conditional_refers n tag _
answer_refers n max (missing_first_repeating_group_tag_after_number_of_repeating_group_tag tag) =
    refl
answer_refers n max (non_repeating_group_tag_in_repeating_group tag) = refl
answer_refers n max (repeating_group_tag_with_no_repeating_group tag) = refl
answer_refers n max (msg_type_unknown t) = type_refers n t
answer_refers n max body_length_not_number = tt
answer_refers n max (checksum_does_not_match _ _) = tt
answer_refers n max checksum_wrong_format = tt

module _ {B T : Type 0} where
  -- At most one message is queued, about the message with this number.
  pub data Answered (n : ℕ) (c d : InternalConnection B T) : Type 0 where
    silent : d.outbound_messages ≡ c.outbound_messages → Answered n c d
    answered :
        (body : Body)
        → refers_to body ≡ some n
        → d.outbound_messages ≡ c.outbound_messages ++ (from body ∷ [])
        → Answered n c d

  -- What is left after the error, by outcome.
  abbrev pub ErrorEnds :
      ParseError FixtMessage
      → InternalConnection B T
      → Outcome Exit (Unit {0}) × InternalConnection B T
      → Type 0
  ErrorEnds e c (done _, d) =
      Answered c.inbound_msg_seq_num c d
      × (c.inbound_msg_seq_num ≢ max_u64)
      × (d.inbound_msg_seq_num ≡ c.inbound_msg_seq_num + 1)
      × (d.events ≡ c.events ++ (message_received_garbled c.token e ∷ []))
      × (is_sending_logon c.status ≡ false)
      × (d.status ≡ c.status)
  ErrorEnds e c (failed (terminate reason), d) =
      ((is_sending_logon c.status ≡ true)
        × (reason ≡ logon_parse_error e)
        × (d.socket_is_shut_down ≡ true)
        × (d.outbound_messages ≡ []))
      ⊎ ((is_sending_logon c.status ≡ false)
          × (reason ≡ inbound_msg_seq_num_max_exceeded_error)
          × (c.inbound_msg_seq_num ≡ max_u64))
  ErrorEnds e c (failed return_now, d) = ⊥
  ErrorEnds e c (panicked, d) = ⊥

  answer_lem :
      (n : ℕ) (o : Option Body) (e : ParseError FixtMessage) (c : InternalConnection B T)
      → RefersTo n o
      → n ≡ c.inbound_msg_seq_num
      → is_sending_logon c.status ≡ false
      → ErrorEnds e c (
          (increment_inbound_msg_seq_num >> (λ d. send (message_received_garbled d.token e) d))
            (push_answer o c))
  unfolding push_answer increment_inbound_msg_seq_num ◌>>◌ ◌>>=◌ RefersTo
  answer_lem n o e c r q h = elim (Bool-cases (c.inbound_msg_seq_num == max_u64)) [
    | inl k ↦ go_max o k
    | inr k ↦ go o r k
  ]
    where
      go_max :
          (o : Option Body)
          → (c.inbound_msg_seq_num == max_u64) ≡ true
          → ErrorEnds e c (
              (increment_inbound_msg_seq_num >> (λ d. send (message_received_garbled d.token e) d))
                (push_answer o c))
      go_max none k = rw k (inr (h, refl, ground arith))
      go_max (some b) k = rw k (inr (h, refl, ground arith))

      go :
          (o : Option Body)
          → RefersTo n o
          → (c.inbound_msg_seq_num == max_u64) ≡ false
          → ErrorEnds e c (
              (increment_inbound_msg_seq_num >> (λ d. send (message_received_garbled d.token e) d))
                (push_answer o c))
      go none r k = rw k (silent refl, (λ p. absurd (ground arith)), refl, refl, h, refl)
      go (some b) r k =
          rw k (answered b (r ∙ ap some q) refl, (λ p. absurd (ground arith)), refl, refl, h, refl)

  -- A message that cannot be parsed ends a connection that waits for the answer to its Logon. In every
  -- other status it uses up one MsgSeqNum, the user is told, the status stays, and at most one message
  -- is queued in answer, which names that MsgSeqNum; the connection is terminated only when the numbers
  -- are used up. There is no panic.
  pub on_network_parse_error-ErrorEnds :
      (e : ParseError FixtMessage) (c : InternalConnection B T)
      → ErrorEnds e c (on_network_parse_error e c)
  unfolding on_network_parse_error shutdown
  on_network_parse_error-ErrorEnds e c = elim (Bool-cases (is_sending_logon c.status)) [
    | inl h ↦ rw h (inl (h, refl, refl, refl))
    | inr h ↦ rw h (
        answer_lem c.inbound_msg_seq_num
          (answer c.inbound_msg_seq_num c.parser.max_message_length e) e c
          (answer_refers c.inbound_msg_seq_num _ e) refl h)
  ]
