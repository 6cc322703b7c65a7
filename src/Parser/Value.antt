-- ===== src/Parser/Value.antt =====
-- src/fix.rs, the rest of `match_value_end`: a field's value is stored, and the message is finished
-- at the checksum.
use fix_rs.Prelude.{
  ◌+◌, Bool, true, false, Option, none, some, List, [], ◌∷◌, ◌++◌, ◌==◌, ◌&&◌, ◌||◌, not,
  if◌then◌else◌, Bytes, length, bytes_eq, codes,
}
use fix_rs.Action.{Outcome, done, failed, panicked, and_then}
use fix_rs.FieldTag
use fix_rs.FieldTag.{FieldTag, is_empty}
use fix_rs.Version.{fixt_1_1, fix_version_eq, MessageVersion}
use fix_rs.Parser.State.{
  Parser, Rule, Traits, ParseError, MessageEnd, yes_end, yes_but_stop, no_end, reset_parser, get,
  contains_key, remove_key, remove, get_bytes, checksum_tag, appl_ver_id_tag, missing_required_tag,
  missing_conditionally_required_tag, FieldHashSet, appl_ver_id_not_sixth_tag, duplicate_tag,
  unexpected_tag, unknown_tag, no_value_after_tag,
}
use fix_rs.Parser.BookKeeping.{ParserAction, validate_checksum, set_current_value}
use fix_rs.Parser.Rules.{handle_rule_after_value}
use fix_rs.Parser.Groups.{first_missing, store_in_groups}
use fix_rs.Parser.Header.{
  begin_str_value, body_length_value, msg_type_value, sender_value, target_value, sixth_field,
}

-- `Logon::msg_type()`
abbrev pub logon_msg_type : Bytes
logon_msg_type = codes "A"

module _ {B M : Type 0} (t : Traits B M) where
  -- Some message of the dictionary has the tag.
  unfoldable pub is_known : FieldTag → MessageVersion → List (Bytes × B) → Bool
  is_known tag version [] = false
  is_known tag version ((_, builder) ∷ d) =
      if contains_key tag (t.fields builder version) then true else is_known tag version d

  -- Why a tag that is not waited for is refused.
  unfoldable pub refuse : Option B → ParserAction B M Bool
  refuse none p = (panicked, p)
  refuse (some builder) p =
      if contains_key p.current_tag (t.fields builder p.message_version)
      then (if p.current_tag == appl_ver_id_tag
          then (failed appl_ver_id_not_sixth_tag, p)
          else (failed (duplicate_tag p.current_tag), p))
      else (failed (unexpected_tag p.current_tag), p)

  unfoldable pub take_rule : Option (Rule B) → ParserAction B M Bool
  unfolding refuse handle_rule_after_value is_known
  take_rule (some rule) p =
      handle_rule_after_value t rule
        (record p { remaining_fields = remove_key p.current_tag p.remaining_fields })
  take_rule none p =
      if is_known p.current_tag p.message_version p.message_dictionary
      then refuse (get_bytes p.message_type p.message_dictionary) p
      else (failed (unknown_tag p.current_tag), p)

  -- A field outside of all groups: it must be waited for, and its rule says whether it has a value.
  unfoldable pub store_in_message : ParserAction B M (Unit {0})
  unfolding take_rule set_current_value
  store_in_message p =
      let q = record p {
        remaining_required_fields = remove p.current_tag p.remaining_required_fields;
      } in
      and_then (take_rule (get q.current_tag q.remaining_fields) q)
        λ skip r. if skip then (done tt, r) else set_current_value t r.current_tag r.current_bytes r

  unfoldable pub save_message : ParserAction B M MessageEnd
  save_message p =
      let message =
        t.set_meta
          (record {
            begin_string = p.fix_version;
            body_length = p.body_length;
            message_version = p.message_version;
            checksum = p.checksum;
          })
          p.current_message in
      let stop = bytes_eq (t.msg_type message) logon_msg_type in
      (
        done (if stop then yes_but_stop else yes_end),
        reset_parser t (record p { messages = p.messages ++ (message ∷ []) }),
      )

  abbrev pub give_up : ParseError M → ParserAction B M MessageEnd
  give_up e p = (failed e, record p { current_message = t.null_message })

  unfoldable pub check_conditional : Option FieldTag → ParserAction B M MessageEnd
  unfolding save_message
  check_conditional none p = save_message p
  check_conditional (some tag) p =
      give_up (missing_conditionally_required_tag tag p.current_message) p

  unfoldable pub check_required : FieldHashSet → ParserAction B M MessageEnd
  unfolding check_conditional
  check_required (tag ∷ _) p = give_up (missing_required_tag tag p.current_message) p
  check_required [] p =
      check_conditional
        (first_missing (t.conditional_required_fields p.current_message p.message_version)
          p.remaining_fields)
        p

  -- The message is saved if no field is missing, and the parser is ready for the next one.
  unfoldable pub finish_message : ParserAction B M MessageEnd
  unfolding check_required
  finish_message p =
      if not (is_empty p.missing_tag)
      then give_up (missing_required_tag p.missing_tag p.current_message) p
      else if not (is_empty p.missing_conditional_tag)
      then give_up (missing_conditionally_required_tag p.missing_conditional_tag p.current_message)
          p
      else check_required p.remaining_required_fields p

  abbrev pub next_tag : Parser B M → Parser B M
  next_tag p = record p {
    previous_tag = p.current_tag;
    current_tag = FieldTag.empty;
    current_bytes = [];
    found_tag_count = p.found_tag_count + 1;
  }

  abbrev pub go_on :
      Outcome (ParseError M) (Unit {0}) × Parser B M
      → Outcome (ParseError M) MessageEnd × Parser B M
  go_on r = and_then r (λ _ q. (done no_end, next_tag q))

  unfoldable pub after_groups : Bool → Bool → Bool → ParserAction B M MessageEnd
  unfolding store_in_message finish_message
  after_groups is_end skip in_group p =
      if is_end
      then finish_message p
      else if skip || in_group
      then (done no_end, next_tag p)
      else go_on (store_in_message p)

  -- The loop over the groups comes before the message's own fields; it never takes the checksum.
  unfoldable pub store_checked : Bool → Bool → ParserAction B M MessageEnd
  unfolding after_groups store_in_groups
  store_checked is_end skip p =
      and_then (store_in_groups t (length p.tag_rule_mode_stack) p.tag_rule_mode_stack p)
        (after_groups is_end skip)

  unfoldable pub store_value : Bool → ParserAction B M MessageEnd
  unfolding store_checked validate_checksum
  store_value skip p =
      let is_end = p.current_tag == checksum_tag in
      and_then (if is_end then validate_checksum p else (done tt, p))
        (λ _ q. store_checked is_end skip q)

  unfoldable pub body_value : ParserAction B M MessageEnd
  unfolding store_value sixth_field
  body_value p =
      if (p.found_tag_count == 5) && fix_version_eq p.fix_version fixt_1_1
      then and_then (sixth_field t p) store_value
      else store_value false p

  -- The scan for the next message, which ends this method in the source, is made by the caller.
  unfoldable pub match_value_end : ParserAction B M MessageEnd
  unfolding body_value begin_str_value body_length_value msg_type_value sender_value target_value
  match_value_end p =
      if p.found_tag_count == 0
      then go_on (begin_str_value p)
      else if p.found_tag_count == 1
      then go_on (body_length_value p)
      else if p.found_tag_count == 2
      then go_on (msg_type_value t p)
      else if (p.found_tag_count == 3) && fix_version_eq p.fix_version fixt_1_1
      then go_on (sender_value p)
      else if (p.found_tag_count == 4) && fix_version_eq p.fix_version fixt_1_1
      then go_on (target_value p)
      else elim p.current_bytes [
        | [] ↦ (failed (no_value_after_tag p.current_tag), p)
        | _ ∷ _ ↦ body_value p
      ]
