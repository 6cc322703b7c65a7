-- ===== src/Parser/Frame.antt =====
-- What storing a field's value leaves alone: the saved messages, the field itself and the checksum.
use fix_rs.Prelude.{
  ℕ, zero, suc, ◌≡◌, refl, ◌∙◌, Bool, true, false, Option, none, some, List, [], ◌∷◌, arith, Bytes,
}
use fix_rs.Action.{Outcome, done, failed, panicked, and_then}
use fix_rs.Decimal.{from_str}
use fix_rs.FieldTag.{FieldTag}
use fix_rs.Parser.State.{
  Parser, Traits, ParseError, Rule, TagRuleMode, ParseRepeatingGroupState, ParseGroupState,
  length_then_value, repeating_groups, repeating_group_start, get, remove, remove_key,
  appl_ver_id_tag, sender_comp_id_tag, target_comp_id_tag, nothing, begin_group, prepare_for_bytes,
  confirm_previous_tag, requires_fix_version,
}
use fix_rs.Parser.BookKeeping.{set_current_value, prepare_for_message}
use fix_rs.Parser.Rules.{handle_rule_after_value, begin_groups}
use fix_rs.Parser.Groups.{
  check_last_group_complete, fold_groups, fold_into_parents, fold_top_repeating_group_down,
  start_group, put_in_group, leave_groups, missing_in_last, with_groups, put_and_handle, in_last,
  group_round, store_in_groups, group_messages,
}
use fix_rs.Parser.Header.{select_version, take_header_field, mark_appl_ver_id, sixth_field}
use fix_rs.Parser.Value.{refuse, take_rule, store_in_message}

module _ {B M : Type 0} where
  -- What storing a value leaves alone.
  pub record Frame (p q : Parser B M) : Type 0 where
    pub messages : q.messages ≡ p.messages
    pub current_tag : q.current_tag ≡ p.current_tag
    pub current_bytes : q.current_bytes ≡ p.current_bytes
    pub checksum : q.checksum ≡ p.checksum

  pub Frame-refl : (p : Parser B M) → Frame p p
  Frame-refl p = record {
    messages = refl;
    current_tag = refl;
    current_bytes = refl;
    checksum = refl;
  }

  pub Frame-trans : {p q r : Parser B M} → Frame p q → Frame q r → Frame p r
  Frame-trans f g = record {
    messages = g.messages ∙ f.messages;
    current_tag = g.current_tag ∙ f.current_tag;
    current_bytes = g.current_bytes ∙ f.current_bytes;
    checksum = g.checksum ∙ f.checksum;
  }

module _ {B M A C : Type 0} where
  -- A step and what follows it.
  pub and_then-Frame :
      {p : Parser B M} (r : Outcome (ParseError M) A × Parser B M)
      (f : A → Parser B M → Outcome (ParseError M) C × Parser B M)
      → Frame p r.1
      → ((a : A) (q : Parser B M) → Frame q (f a q).1)
      → Frame p (and_then r f).1
  and_then-Frame (done a, q) f h k = Frame-trans h (k a q)
  and_then-Frame (failed e, q) f h k = h
  and_then-Frame (panicked, q) f h k = h

module _ {B M : Type 0} (t : Traits B M) where
  begin_groups-Frame : (b : B) (n : Option ℕ) (p : Parser B M) → Frame p (begin_groups t b n p).1
  unfolding begin_groups
  begin_groups-Frame b none p = ground arith
  begin_groups-Frame b (some zero) p = ground arith
  begin_groups-Frame b (some (suc n)) p = ground arith

  pub handle_rule-Frame :
      (rule : Rule B) (p : Parser B M) → Frame p (handle_rule_after_value t rule p).1
  unfolding handle_rule_after_value
  handle_rule-Frame nothing p = ground arith
  handle_rule-Frame (begin_group b) p = begin_groups-Frame b (from_str _ p.current_bytes) p
  handle_rule-Frame (prepare_for_bytes v) p = ground arith
  handle_rule-Frame (confirm_previous_tag v) p = ground arith
  handle_rule-Frame (requires_fix_version v) p = ground arith

  check_last-Frame :
      (prgs : ParseRepeatingGroupState B M) (p : Parser B M)
      → Frame p (check_last_group_complete t prgs p)
  unfolding check_last_group_complete
  check_last-Frame prgs p = ground arith

  fold_groups-Frame :
      (prgs : ParseRepeatingGroupState B M) (r : Option (List (TagRuleMode B M) × Bool))
      (p : Parser B M)
      → Frame p (fold_groups t prgs r p).1
  unfolding fold_groups
  fold_groups-Frame prgs none p = ground arith
  fold_groups-Frame prgs (some (below, true)) p = ground arith
  fold_groups-Frame prgs (some (below, false)) p = ground arith

  start_group-Frame :
      (prgs : ParseRepeatingGroupState B M) (below : List (TagRuleMode B M)) (p : Parser B M)
      → Frame p (start_group t prgs below p).1
  unfolding start_group
  start_group-Frame prgs below p = ground (arith, check_last-Frame prgs p)

  put_in_group-Frame :
      (rule : Rule B) (g : ParseGroupState B M) (p : Parser B M)
      → Frame p (put_in_group t rule g p).1
  unfolding put_in_group
  put_in_group-Frame rule g p = ground arith

  leave_groups-Frame :
      (prgs : ParseRepeatingGroupState B M) (below : List (TagRuleMode B M)) (p : Parser B M)
      → Frame p (leave_groups t prgs below p).1
  unfolding leave_groups fold_top_repeating_group_down
  leave_groups-Frame prgs below p = ground (
    arith,
    check_last-Frame prgs p,
    fold_groups-Frame prgs (fold_into_parents t prgs.number_of_tag (group_messages t prgs) below)
        (check_last_group_complete t prgs p),
  )

  stored-Frame :
      (prgs : ParseRepeatingGroupState B M) (below : List (TagRuleMode B M)) (rule : Rule B)
      (g : ParseGroupState B M) (gs : List (ParseGroupState B M)) (p : Parser B M)
      → Frame p (put_and_handle t prgs below rule g gs p).1
  unfolding put_and_handle
  stored-Frame prgs below rule g gs p =
      and_then-Frame (put_in_group t rule g p) _ (put_in_group-Frame rule g p) λ g' r.
        and_then-Frame (handle_rule_after_value t rule (with_groups t prgs g' gs below r)) _
          (Frame-trans {q = with_groups t prgs g' gs below r} (ground arith)
            (handle_rule-Frame rule (with_groups t prgs g' gs below r)))
          (λ _ u. Frame-refl u)

  in_last-Frame :
      (prgs : ParseRepeatingGroupState B M) (below : List (TagRuleMode B M))
      (o : Option (Rule B × ParseGroupState B M × List (ParseGroupState B M))) (p : Parser B M)
      → Frame p (in_last t prgs below o p).1
  unfolding in_last
  in_last-Frame prgs below none p =
      and_then-Frame (leave_groups t prgs below p) _ (leave_groups-Frame prgs below p)
        (λ _ u. Frame-refl u)
  in_last-Frame prgs below (some (rule, g, gs)) p = stored-Frame prgs below rule g gs p

  group_round-Frame :
      (prgs : ParseRepeatingGroupState B M) (below : List (TagRuleMode B M)) (p : Parser B M)
      → Frame p (group_round t prgs below p).1
  unfolding group_round
  group_round-Frame prgs below p =
      and_then-Frame (start_group t prgs below p) _ (start_group-Frame prgs below p)
        λ prgs' q. in_last-Frame prgs' below (missing_in_last t q.current_tag prgs'.groups) q

  pub store_in_groups-Frame :
      (n : ℕ) (stack : List (TagRuleMode B M)) (p : Parser B M)
      → Frame p (store_in_groups t n stack p).1
  unfolding store_in_groups
  store_in_groups-Frame zero stack p = Frame-refl p
  store_in_groups-Frame (suc n) [] p = Frame-refl p
  store_in_groups-Frame (suc n) (length_then_value v k ∷ below) p = Frame-refl p
  store_in_groups-Frame (suc n) (repeating_group_start v ∷ below) p = Frame-refl p
  store_in_groups-Frame (suc n) (repeating_groups prgs ∷ below) p =
      and_then-Frame (group_round t prgs below p) _ (group_round-Frame prgs below p)
        λ stored q. ground (arith, store_in_groups-Frame n q.tag_rule_mode_stack q)

  pub set_current-Frame :
      (tag : FieldTag) (bytes : Bytes) (p : Parser B M)
      → Frame p (set_current_value t tag bytes p).1
  unfolding set_current_value
  set_current-Frame tag bytes p = ground arith

  prepare-Frame : (p : Parser B M) → Frame p (prepare_for_message t p).1
  unfolding prepare_for_message
  prepare-Frame p = ground arith

  select_version-Frame : (p : Parser B M) → Frame p (select_version p).1
  unfolding select_version
  select_version-Frame p = ground arith

  take_header-Frame :
      (tag : FieldTag) (bytes : Bytes) (p : Parser B M)
      → Frame p (take_header_field t tag bytes p).1
  unfolding take_header_field
  take_header-Frame tag bytes p =
      and_then-Frame (set_current_value t tag bytes p) _ (set_current-Frame tag bytes p)
        (λ _ q. ground arith)

  mark-Frame : (given : Bool) (p : Parser B M) → Frame p (mark_appl_ver_id t given p).1
  unfolding mark_appl_ver_id
  mark-Frame true p =
      and_then-Frame (set_current_value t appl_ver_id_tag p.current_bytes p) _
        (set_current-Frame _ p.current_bytes p) (λ _ q. ground arith)
  mark-Frame false p = ground arith

  pub sixth_field-Frame : (p : Parser B M) → Frame p (sixth_field t p).1
  unfolding sixth_field
  sixth_field-Frame p = and_then-Frame (select_version p) _ (select_version-Frame p) λ given q.
      and_then-Frame (prepare_for_message t q) _ (prepare-Frame q) λ _ r.
        and_then-Frame (take_header_field t sender_comp_id_tag r.sender_comp_id r) _
          (take_header-Frame _ r.sender_comp_id r)
          λ _ s.
            and_then-Frame (take_header_field t target_comp_id_tag s.target_comp_id s) _
              (take_header-Frame _ s.target_comp_id s) λ _ u. mark-Frame given u

  take_rule-Frame : (o : Option (Rule B)) (p : Parser B M) → Frame p (take_rule t o p).1
  unfolding take_rule refuse
  take_rule-Frame none p = ground arith
  take_rule-Frame (some rule) p =
      Frame-trans {q = taken} (ground arith) (handle_rule-Frame rule taken)
    where
      taken : Parser B M
      taken = record p { remaining_fields = remove_key p.current_tag p.remaining_fields }

  pub store_in_message-Frame : (p : Parser B M) → Frame p (store_in_message t p).1
  unfolding store_in_message
  store_in_message-Frame p =
      let q = record p {
        remaining_required_fields = remove p.current_tag p.remaining_required_fields;
      } in
      Frame-trans {q = q} (ground arith) (
        and_then-Frame (take_rule t (get q.current_tag q.remaining_fields) q) _
          (take_rule-Frame (get q.current_tag q.remaining_fields) q)
          λ skip r. ground (arith, set_current-Frame r.current_tag r.current_bytes r))
