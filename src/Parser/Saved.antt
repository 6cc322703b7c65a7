-- ===== src/Parser/Saved.antt =====
-- When a message is saved: at a checksum field that states the sum of the bytes before it, with no
-- required field missing. Everything else that happens at the end of a value leaves the saved
-- messages alone.
use fix_rs.Prelude.{
  ℕ, ◌≡◌, refl, sym, ◌∙◌, Bool, true, false, Option, none, some, [], ◌∷◌, ◌++◌, arith, Bytes,
  length, ◌==◌, ◌||◌, ◌&&◌, if◌then◌else◌, bytes_eq, Bool-cases, inl, inr,
}
use fix_rs.Action.{Outcome, done, failed, panicked, and_then}
use fix_rs.Decimal.{from_str, max_u8}
use fix_rs.Version.{fix_version_eq, fixt_1_1}
use fix_rs.Parser.State.{
  Parser, Traits, ParseError, MessageEnd, yes_end, yes_but_stop, no_end, checksum_tag, FieldHashSet,
  not_found, reset_parser, no_value_after_tag,
}
use fix_rs.Parser.BookKeeping.{validate_checksum, calculated_checksum, check_stated}
use fix_rs.Parser.Groups.{first_missing, store_in_groups}
use fix_rs.Parser.Header.{
  begin_str_value, body_length_value, msg_type_value, sender_value, target_value, sixth_field,
}
use fix_rs.Parser.Value.{
  logon_msg_type, save_message, check_conditional, check_required, finish_message, go_on,
  store_in_message, after_groups, store_checked, store_value, body_value, match_value_end,
}
use fix_rs.Parser.Frame.{Frame, store_in_groups-Frame, sixth_field-Frame, store_in_message-Frame}

module _ {B M : Type 0} (t : Traits B M) where
  -- The message `m` was added behind those saved before `p`, and the parser was reset; `logon` says
  -- whether it is a Logon.
  pub record Added (p q : Parser B M) (logon : Bool) : Type 0 where
    pub message : M
    pub added : q.messages ≡ p.messages ++ (message ∷ [])
    pub kind : bytes_eq (t.msg_type message) logon_msg_type ≡ logon
    pub ready : q.found_message ≡ not_found

  -- The last field is a checksum of three bytes that states the sum calculated.
  pub record IsChecked (p : Parser B M) : Type 0 where
    pub tag : p.current_tag ≡ checksum_tag
    pub size : length p.current_bytes ≡ 3
    pub stated : from_str max_u8 p.current_bytes ≡ some (calculated_checksum p)

  -- Nothing that the message must have is missing.
  pub record IsComplete (p : Parser B M) : Type 0 where
    pub in_groups : p.missing_tag ≡ 0
    pub in_groups_conditional : p.missing_conditional_tag ≡ 0
    pub required : p.remaining_required_fields ≡ []
    pub conditional :
        first_missing
          (t.conditional_required_fields p.current_message p.message_version)
          p.remaining_fields
        ≡ none

  -- The outcome at the end of a message.
  abbrev pub Finished : Parser B M → Outcome (ParseError M) MessageEnd × Parser B M → Type 0
  Finished p (done yes_end, q) = IsComplete p × Added p q false
  Finished p (done yes_but_stop, q) = IsComplete p × Added p q true
  Finished p (done no_end, q) = ⊥
  Finished p (failed e, q) = q.messages ≡ p.messages
  Finished p (panicked, q) = ⊥

  saved_message : Parser B M → M
  saved_message p =
      t.set_meta
        (record {
          begin_string = p.fix_version;
          body_length = p.body_length;
          message_version = p.message_version;
          checksum = p.checksum;
        })
        p.current_message

  save_message_lem : (p : Parser B M) → IsComplete p → Finished p (save_message t p)
  unfolding save_message reset_parser saved_message
  save_message_lem p c =
      elim (Bool-cases (bytes_eq (t.msg_type (saved_message p)) logon_msg_type)) [
        | inl e ↦
            rw (e, save_message)
              (c, record { message = saved_message p; added = refl; kind = e; ready = refl })
        | inr e ↦
            rw (e, save_message)
              (c, record { message = saved_message p; added = refl; kind = e; ready = refl })
      ]

  check_conditional_lem :
      (o : Option ℕ) (p : Parser B M)
      → (o ≡ none → IsComplete p)
      → Finished p (check_conditional t o p)
  unfolding check_conditional
  check_conditional_lem none p c = save_message_lem p (c refl)
  check_conditional_lem (some tag) p c = refl

  check_required_lem :
      (s : FieldHashSet) (p : Parser B M)
      → s ≡ p.remaining_required_fields
      → p.missing_tag ≡ 0
      → p.missing_conditional_tag ≡ 0
      → Finished p (check_required t s p)
  unfolding check_required
  check_required_lem (tag ∷ _) p e h k = refl
  check_required_lem [] p e h k =
      check_conditional_lem _ p
        λ n. record { in_groups = h; in_groups_conditional = k; required = sym e; conditional = n }

  finish_message_lem : (p : Parser B M) → Finished p (finish_message t p)
  unfolding finish_message
  finish_message_lem p = elim (Bool-cases (p.missing_tag == 0)) [
    | inr e ↦ rw (e, finish_message) refl
    | inl e ↦
        rw (e, finish_message)
          (elim (Bool-cases (p.missing_conditional_tag == 0)) [
            | inr f ↦ rw f refl
            | inl f ↦ rw f (
                check_required_lem p.remaining_required_fields p refl (ground arith) (ground arith))
          ])
  ]

  -- The outcome at the end of a value. `IsChecked` speaks of the state before it.
  abbrev pub ValueEnds : Parser B M → Outcome (ParseError M) MessageEnd × Parser B M → Type 0
  ValueEnds p (done yes_end, q) = IsChecked p × Added p q false
  ValueEnds p (done yes_but_stop, q) = IsChecked p × Added p q true
  ValueEnds p (done no_end, q) = q.messages ≡ p.messages
  ValueEnds p (failed e, q) = q.messages ≡ p.messages
  ValueEnds p (panicked, q) = q.messages ≡ p.messages

  go_on_lem :
      (p : Parser B M) (r : Outcome (ParseError M) (Unit {0}) × Parser B M)
      → r.1.messages ≡ p.messages
      → ValueEnds p (go_on t r)
  go_on_lem p (done _, q) h = h
  go_on_lem p (failed e, q) h = h
  go_on_lem p (panicked, q) h = h

  of_Finished :
      (p q : Parser B M) (r : Outcome (ParseError M) MessageEnd × Parser B M)
      → IsChecked p
      → q.messages ≡ p.messages
      → Finished q r
      → ValueEnds p r
  of_Finished p q (done yes_end, u) c e (_, a) =
      (c, record { message = a.message; added = rw (← e) a.added; kind = a.kind; ready = a.ready })
  of_Finished p q (done yes_but_stop, u) c e (_, a) =
      (c, record { message = a.message; added = rw (← e) a.added; kind = a.kind; ready = a.ready })
  of_Finished p q (done no_end, u) c e h = absurd h
  of_Finished p q (failed x, u) c e h = h ∙ e
  of_Finished p q (panicked, u) c e h = absurd h

  abbrev Checked : Parser B M → Outcome (ParseError M) (Unit {0}) × Parser B M → Type 0
  Checked p (done _, q) =
      (length p.current_bytes ≡ 3)
      × (from_str max_u8 p.current_bytes ≡ some (calculated_checksum p))
      × (q.messages ≡ p.messages)
  Checked p (failed _, q) = q.messages ≡ p.messages
  Checked p (panicked, q) = q.messages ≡ p.messages

  check_stated_lem :
      (o : Option ℕ) (p : Parser B M)
      → o ≡ from_str max_u8 p.current_bytes
      → length p.current_bytes ≡ 3
      → Checked p (check_stated (calculated_checksum p) o p)
  unfolding check_stated
  check_stated_lem none p e h = refl
  check_stated_lem (some stated) p e h = elim (Bool-cases (calculated_checksum p == stated)) [
    | inl f ↦ rw (f, check_stated) (h, ground arith, refl)
    | inr f ↦ rw (f, check_stated) refl
  ]

  validate_checksum_lem : (p : Parser B M) → Checked p (validate_checksum p)
  unfolding validate_checksum
  validate_checksum_lem p = elim (Bool-cases (length p.current_bytes == 3)) [
    | inl e ↦ rw (e, validate_checksum) (check_stated_lem _ p refl (ground arith))
    | inr e ↦ rw (e, validate_checksum) refl
  ]

  -- The rest of a value, where its field may be the checksum.
  finish_or_go_on :
      (p q : Parser B M) (is_end skip in_group : Bool)
      → q.messages ≡ p.messages
      → (is_end ≡ true → IsChecked p)
      → ValueEnds p (after_groups t is_end skip in_group q)
  unfolding after_groups
  finish_or_go_on p q true skip in_group e c =
      of_Finished p q (finish_message t q) (c refl) e (finish_message_lem q)
  finish_or_go_on p q false skip in_group e c = elim (Bool-cases (skip || in_group)) [
    | inl f ↦ rw (f, after_groups) e
    | inr f ↦
        rw (f, after_groups)
          (go_on_lem p (store_in_message t q) ((store_in_message-Frame t q).messages ∙ e))
  ]

  store_in_groups_then :
      (p q : Parser B M) (is_end skip : Bool)
      → q.messages ≡ p.messages
      → (is_end ≡ true → IsChecked p)
      → ValueEnds p (store_checked t is_end skip q)
  unfolding store_checked
  store_in_groups_then p q is_end skip e c =
      go (store_in_groups t _ _ q) (store_in_groups-Frame t _ _ q).messages
    where
      go :
          (r : Outcome (ParseError M) Bool × Parser B M)
          → r.1.messages ≡ q.messages
          → ValueEnds p (and_then r (after_groups t is_end skip))
      go (done in_group, u) h = finish_or_go_on p u is_end skip in_group (h ∙ e) c
      go (failed x, u) h = h ∙ e
      go (panicked, u) h = h ∙ e

  store_value_lem : (skip : Bool) (p : Parser B M) → ValueEnds p (store_value t skip p)
  unfolding store_value
  store_value_lem skip p = elim (Bool-cases (p.current_tag == checksum_tag)) [
    | inr e ↦ rw (e, store_value) (store_in_groups_then p p false skip refl (λ h. cc))
    | inl e ↦
        rw (e, store_value) (go (validate_checksum p) (validate_checksum_lem p) (ground arith))
  ]
    where
      go :
          (r : Outcome (ParseError M) (Unit {0}) × Parser B M)
          → Checked p r
          → p.current_tag ≡ checksum_tag
          → ValueEnds p (and_then r (λ _ q. store_checked t true skip q))
      go (done _, q) (size, stated, same) tag =
          store_in_groups_then p q true skip same
            (λ _. record { tag = tag; size = size; stated = stated })
      go (failed x, q) h tag = h
      go (panicked, q) h tag = h

  IsChecked-of : (p q : Parser B M) → Frame p q → IsChecked q → IsChecked p
  unfolding calculated_checksum
  IsChecked-of p q f c = record {
    tag = sym f.current_tag ∙ c.tag;
    size = rw (← f.current_bytes) c.size;
    stated = rw (← f.current_bytes, ← f.checksum) c.stated;
  }

  begin_str-messages : (p : Parser B M) → (begin_str_value p).1.messages ≡ p.messages
  unfolding begin_str_value
  begin_str-messages p = ground arith

  body_length-messages : (p : Parser B M) → (body_length_value p).1.messages ≡ p.messages
  unfolding body_length_value
  body_length-messages p = ground arith

  msg_type-messages : (p : Parser B M) → (msg_type_value t p).1.messages ≡ p.messages
  unfolding msg_type_value
  msg_type-messages p = ground arith

  sender-messages : (p : Parser B M) → (sender_value p).1.messages ≡ p.messages
  unfolding sender_value
  sender-messages p = ground arith

  target-messages : (p : Parser B M) → (target_value p).1.messages ≡ p.messages
  unfolding target_value
  target-messages p = ground arith

  -- The same facts of the state before a step that leaves the field alone.
  of_Frame :
      (p q : Parser B M) (r : Outcome (ParseError M) MessageEnd × Parser B M)
      → Frame p q
      → ValueEnds q r
      → ValueEnds p r
  of_Frame p q (done yes_end, u) f (c, a) = (
    IsChecked-of p q f c,
    record {
      message = a.message;
      added = rw (← f.messages) a.added;
      kind = a.kind;
      ready = a.ready;
    },
  )
  of_Frame p q (done yes_but_stop, u) f (c, a) = (
    IsChecked-of p q f c,
    record {
      message = a.message;
      added = rw (← f.messages) a.added;
      kind = a.kind;
      ready = a.ready;
    },
  )
  of_Frame p q (done no_end, u) f h = h ∙ f.messages
  of_Frame p q (failed x, u) f h = h ∙ f.messages
  of_Frame p q (panicked, u) f h = h ∙ f.messages

  body_value_lem : (p : Parser B M) → ValueEnds p (body_value t p)
  unfolding body_value
  body_value_lem p =
      elim (Bool-cases ((p.found_tag_count == 5) && fix_version_eq p.fix_version fixt_1_1)) [
        | inr e ↦ rw (e, body_value) (store_value_lem false p)
        | inl e ↦ rw (e, body_value) (go (sixth_field t p) (sixth_field-Frame t p))
      ]
    where
      go :
          (r : Outcome (ParseError M) Bool × Parser B M)
          → Frame p r.1
          → ValueEnds p (and_then r (store_value t))
      go (done skip, q) f = of_Frame p q (store_value t skip q) f (store_value_lem skip q)
      go (failed x, q) f = f.messages
      go (panicked, q) f = f.messages

  by_tag_count :
      (p : Parser B M) (b : Bool) (r s : Outcome (ParseError M) MessageEnd × Parser B M)
      → ValueEnds p r
      → ValueEnds p s
      → ValueEnds p (if b then r else s)
  by_tag_count p true r s h k = h
  by_tag_count p false r s h k = k

  nonempty_value :
      (p : Parser B M) (bytes : Bytes)
      → ValueEnds p (elim bytes [
        | [] ↦ (failed (no_value_after_tag p.current_tag), p)
        | _ ∷ _ ↦ body_value t p
      ])
  nonempty_value p [] = refl
  nonempty_value p (_ ∷ _) = body_value_lem p

  -- At the end of a value: a message is saved only at a checksum field of three bytes that states
  -- the sum calculated from the bytes before it, and one message is added, a Logon exactly where
  -- the parser stops. On every other branch, errors included, the saved messages stay as they are.
  pub match_value_end_lem : (p : Parser B M) → ValueEnds p (match_value_end t p)
  unfolding match_value_end
  match_value_end_lem p =
      by_tag_count p (p.found_tag_count == 0) _ _
        (go_on_lem p (begin_str_value p) (begin_str-messages p))
        (by_tag_count p (p.found_tag_count == 1) _ _
          (go_on_lem p (body_length_value p) (body_length-messages p))
          (by_tag_count p (p.found_tag_count == 2) _ _
            (go_on_lem p (msg_type_value t p) (msg_type-messages p))
            (by_tag_count p ((p.found_tag_count == 3) && fix_version_eq p.fix_version fixt_1_1) _ _
              (go_on_lem p (sender_value p) (sender-messages p))
              (by_tag_count p ((p.found_tag_count == 4) && fix_version_eq p.fix_version fixt_1_1) _
                _ (go_on_lem p (target_value p) (target-messages p))
                (nonempty_value p p.current_bytes)))))
