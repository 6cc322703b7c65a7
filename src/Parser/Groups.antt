-- ===== src/Parser/Groups.antt =====
-- src/fix.rs: repeating groups. A field goes into the innermost group that has it, groups that are
-- complete are folded into the message around them, and a missing required field is noted.
use mathlib.Core.List.{reverse}
use fix_rs.Prelude.{
  ℕ, suc, Bool, true, false, Option, none, some, List, [], ◌∷◌, map, ◌==◌, ◌||◌, not, ltb,
  if◌then◌else◌, length,
}
use fix_rs.Action.{done, failed, panicked, and_then}
use fix_rs.FieldTag.{FieldTag, is_empty}
use fix_rs.Parser.State.{
  Parser, Rule, begin_group, Traits, ParseGroupState, ParseRepeatingGroupState, TagRuleMode,
  FieldHashMap, FieldHashSet, repeating_groups, length_then_value, repeating_group_start, get,
  contains_key, remove_key, remove, duplicate_tag, non_repeating_group_tag_in_repeating_group,
  repeating_group_tag_with_no_repeating_group,
}
use fix_rs.Parser.BookKeeping.{ParserAction, set_message_value}
use fix_rs.Parser.Rules.{handle_rule_after_value}

module _ {B : Type 0} where
  -- The first of the conditionally required tags that has not been found.
  unfoldable pub first_missing : List FieldTag → FieldHashMap B → Option FieldTag
  unfolding contains_key
  first_missing [] remaining = none
  first_missing (tag ∷ tags) remaining =
      if contains_key tag remaining then some tag else first_missing tags remaining

module _ {B M : Type 0} (t : Traits B M) where
  unfoldable pub note_conditional : Option FieldTag → Parser B M → Parser B M
  note_conditional none p = p
  note_conditional (some tag) p = record p { missing_conditional_tag = tag }

  unfoldable pub check_group : FieldHashSet → ParseGroupState B M → Parser B M → Parser B M
  unfolding note_conditional
  check_group [] g p =
      note_conditional
        (first_missing (t.conditional_required_fields g.message p.message_version)
          g.remaining_fields)
        p
  check_group (tag ∷ _) g p = record p { missing_tag = tag }

  unfoldable pub check_last_group : List (ParseGroupState B M) → Parser B M → Parser B M
  unfolding check_group
  check_last_group [] p = p
  check_last_group (g ∷ _) p = check_group g.remaining_required_fields g p

  -- Only the first missing tag is noted.
  unfoldable pub check_last_group_complete : ParseRepeatingGroupState B M → Parser B M → Parser B M
  unfolding check_last_group
  check_last_group_complete prgs p =
      if not (is_empty p.missing_tag) || not (is_empty p.missing_conditional_tag)
      then p
      else check_last_group prgs.groups p

  -- `set_groups` on the last group of each repeating group below; the first of them takes the
  -- groups, and the others are given none. `none` is the `unwrap` of an empty list of groups.
  unfoldable pub fold_into_parents :
      FieldTag → List M → List (TagRuleMode B M) → Option (List (TagRuleMode B M) × Bool)
  fold_into_parents tag messages [] = some ([], false)
  fold_into_parents tag messages (repeating_groups parent ∷ below) =
      let rest = fold_into_parents tag [] below in
      elim parent.groups [
        | [] ↦ none
        | g ∷ gs ↦
            let parent' = record parent {
              groups = record g { message = t.set_groups tag messages g.message } ∷ gs;
            } in
            elim rest [
              | none ↦ none
              | some (below', _) ↦ some (repeating_groups parent' ∷ below', true)
            ]
      ]
  fold_into_parents tag messages (length_then_value v n ∷ below) =
      elim (fold_into_parents tag messages below) [
        | none ↦ none
        | some (below', folded) ↦ some (length_then_value v n ∷ below', folded)
      ]
  fold_into_parents tag messages (repeating_group_start v ∷ below) =
      elim (fold_into_parents tag messages below) [
        | none ↦ none
        | some (below', folded) ↦ some (repeating_group_start v ∷ below', folded)
      ]

  abbrev pub group_messages : ParseRepeatingGroupState B M → List M
  group_messages prgs = reverse (map (λ (g : ParseGroupState B M). g.message) prgs.groups)

  unfoldable pub fold_groups :
      ParseRepeatingGroupState B M
      → Option (List (TagRuleMode B M) × Bool)
      → ParserAction B M (Unit {0})
  fold_groups prgs none p = (panicked, p)
  fold_groups prgs (some (below, true)) p = (done tt, record p { tag_rule_mode_stack = below })
  fold_groups prgs (some (below, false)) p = (
    done tt,
    record p {
      tag_rule_mode_stack = below;
      current_message = t.set_groups prgs.number_of_tag (group_messages prgs) p.current_message;
    },
  )

  -- The repeating group on the top of the stack, above `below`.
  unfoldable pub fold_top_repeating_group_down :
      ParseRepeatingGroupState B M → List (TagRuleMode B M) → ParserAction B M (Unit {0})
  unfolding fold_groups fold_into_parents
  fold_top_repeating_group_down prgs below p =
      fold_groups prgs (fold_into_parents prgs.number_of_tag (group_messages prgs) below) p

  -- At the first tag of a group a new group begins, if the stated number is not exceeded.
  unfoldable pub start_group :
      ParseRepeatingGroupState B M
      → List (TagRuleMode B M)
      → ParserAction B M (ParseRepeatingGroupState B M)
  unfolding check_last_group_complete
  start_group prgs below p =
      if not (p.current_tag == prgs.first_tag)
      then (done prgs, p)
      else let q = check_last_group_complete prgs p in
        let prgs' = record prgs {
          groups =
              record {
                remaining_fields = t.fields prgs.group_builder p.message_version;
                remaining_required_fields = t.required_fields prgs.group_builder p.message_version;
                message = t.build prgs.group_builder;
              }
              ∷ prgs.groups;
        } in
        if ltb prgs.group_count (length prgs'.groups)
        then (failed (repeating_group_tag_with_no_repeating_group p.current_tag), q)
        else (done prgs', q)

  -- The field is in the last group and has not been found there: mark it, and set its value.
  -- The value of a field that begins groups is not set.
  unfoldable pub put_in_group :
      Rule B → ParseGroupState B M → ParserAction B M (ParseGroupState B M)
  put_in_group rule g p =
      let found = record g {
        remaining_fields = remove_key p.current_tag g.remaining_fields;
        remaining_required_fields = remove p.current_tag g.remaining_required_fields;
      } in
      elim rule [
        | begin_group _ ↦ (done found, p)
        | _ ↦ elim (set_message_value t p.current_tag p.current_bytes g.message).0 [
          | done _ ↦ (
            done (record found {
              message = (set_message_value t p.current_tag p.current_bytes g.message).1;
            }),
            p,
          )
          | failed e ↦ (failed e, p)
          | panicked ↦ (panicked, p)
        ]
      ]

  -- The tag is not one that the last group still lacks: an error, or the end of the groups.
  unfoldable pub leave_groups :
      ParseRepeatingGroupState B M → List (TagRuleMode B M) → ParserAction B M (Unit {0})
  leave_groups prgs below p =
      if contains_key p.current_tag (t.fields prgs.group_builder p.message_version)
      then (failed (duplicate_tag p.current_tag), p)
      else if ltb (length prgs.groups) prgs.group_count
      then (failed (non_repeating_group_tag_in_repeating_group p.current_tag), p)
      else fold_top_repeating_group_down prgs below (check_last_group_complete prgs p)

  -- The rule of the current tag, if the last group still lacks it.
  abbrev pub missing_in_last :
      FieldTag
      → List (ParseGroupState B M)
      → Option (Rule B × ParseGroupState B M × List (ParseGroupState B M))
  missing_in_last tag [] = none
  missing_in_last tag (g ∷ gs) = elim (get tag g.remaining_fields) [
    | none ↦ none
    | some rule ↦ some (rule, g, gs)
  ]

  abbrev pub with_groups :
      ParseRepeatingGroupState B M
      → ParseGroupState B M
      → List (ParseGroupState B M)
      → List (TagRuleMode B M)
      → Parser B M
      → Parser B M
  with_groups prgs g gs below p = record p {
    tag_rule_mode_stack = repeating_groups (record prgs { groups = g ∷ gs }) ∷ below;
  }

  unfoldable pub put_and_handle :
      ParseRepeatingGroupState B M
      → List (TagRuleMode B M)
      → Rule B
      → ParseGroupState B M
      → List (ParseGroupState B M)
      → ParserAction B M Bool
  unfolding put_in_group handle_rule_after_value
  put_and_handle prgs below rule g gs p = and_then (put_in_group rule g p) λ g' r.
      and_then (handle_rule_after_value t rule (with_groups prgs g' gs below r))
        (λ _ u. (done true, u))

  unfoldable pub in_last :
      ParseRepeatingGroupState B M
      → List (TagRuleMode B M)
      → Option (Rule B × ParseGroupState B M × List (ParseGroupState B M))
      → ParserAction B M Bool
  unfolding put_and_handle leave_groups
  in_last prgs below none p = and_then (leave_groups prgs below p) (λ _ q. (done false, q))
  in_last prgs below (some (rule, g, gs)) p = put_and_handle prgs below rule g gs p

  -- One round of the loop over the innermost repeating group; the result says whether the tag was
  -- stored in it, and if not, the group has been folded down.
  unfoldable pub group_round :
      ParseRepeatingGroupState B M → List (TagRuleMode B M) → ParserAction B M Bool
  unfolding start_group in_last
  group_round prgs below p =
      and_then (start_group prgs below p)
        λ prgs' q. in_last prgs' below (missing_in_last q.current_tag prgs'.groups) q

  -- The loop ends where the top of the stack is no repeating group, or holds the tag. Each round
  -- that goes on takes one entry from the stack, so the fuel is the height of the stack.
  unfoldable pub store_in_groups : ℕ → List (TagRuleMode B M) → ParserAction B M Bool
  unfolding group_round
  store_in_groups (suc n) (repeating_groups prgs ∷ below) p =
      and_then (group_round prgs below p) λ stored q.
        let again = store_in_groups n q.tag_rule_mode_stack q in
        if stored then (done true, q) else again
  store_in_groups _ _ p = (done false, p)
