-- ===== src/Parser/Tag.antt =====
-- src/fix.rs, `match_tag_end`: the end of a tag, where an ordering that is in effect is checked.
use fix_rs.Prelude.{ℕ, ◌+◌, Option, none, some, List, [], ◌∷◌, ◌==◌, not, if◌then◌else◌, Bytes}
use fix_rs.Action.{Outcome, done, failed, panicked}
use fix_rs.FieldTag.{FieldTag, from_bytes}
use fix_rs.Version.{tag_end}
use fix_rs.Parser.State.{
  Parser, ParseError, TagRuleMode, length_then_value, repeating_groups, repeating_group_start, get,
  missing_following_length_tag, missing_preceding_length_tag,
  missing_first_repeating_group_tag_after_number_of_repeating_group_tag,
}
use fix_rs.Parser.Scan.{Cursor}
use fix_rs.Parser.BookKeeping.{if_checksum_then_is_last_tag, fast_track_read_bytes}

module _ {B M : Type 0} where
  -- `*index` still stands at the `=`, which the next parse meets again.
  abbrev pub tag_error :
      ParseError M → Parser B M → ℕ → Bytes → Outcome (ParseError M) (Unit {0}) × Cursor B M
  tag_error e p index rest = (failed e, record { parser = p; index = index; rest = tag_end ∷ rest })

  abbrev pub tag_accepted : Parser B M → ℕ → Bytes → Outcome (ParseError M) (Unit {0}) × Cursor B M
  tag_accepted p index rest = (done tt, record { parser = p; index = index + 1; rest = rest })

  unfoldable pub check_preceding :
      Option FieldTag → Parser B M → ℕ → Bytes → Outcome (ParseError M) (Unit {0}) × Cursor B M
  check_preceding none p index rest = tag_accepted p index rest
  check_preceding (some required) p index rest =
      if not (required == p.previous_tag)
      then tag_error (missing_preceding_length_tag p.current_tag) p index rest
      else tag_accepted p index rest

  unfoldable pub check_order :
      List (TagRuleMode B M)
      → Parser B M
      → ℕ
      → Bytes
      → Outcome (ParseError M) (Unit {0}) × Cursor B M
  unfolding check_preceding
  check_order [] p index rest =
      check_preceding (get p.current_tag p.value_to_length_tags) p index rest
  check_order (length_then_value value_tag byte_count ∷ below) p index rest =
      let q = record p { tag_rule_mode_stack = below } in
      if not (p.current_tag == value_tag)
      then tag_error (missing_following_length_tag p.previous_tag) q index rest
      else fast_track_read_bytes (record {
        parser = record q { fast_track_bytes_remaining = byte_count };
        index = index + 1;
        rest = rest;
      })
  check_order (repeating_group_start first_tag ∷ below) p index rest =
      let q = record p { tag_rule_mode_stack = below } in
      if not (p.current_tag == first_tag)
      then tag_error
          (missing_first_repeating_group_tag_after_number_of_repeating_group_tag p.previous_tag) q
          index rest
      else tag_accepted q index rest
  check_order (repeating_groups _ ∷ below) p index rest = tag_accepted p index rest

  -- `index` is the place of the `=`, and `rest` what follows it. Where the source returns with no
  -- error, its caller steps over one more byte; that step is made here.
  unfoldable pub match_tag_end :
      Parser B M → ℕ → Bytes → Outcome (ParseError M) (Unit {0}) × Cursor B M
  unfolding check_order if_checksum_then_is_last_tag fast_track_read_bytes
  match_tag_end p index rest =
      let q = record p { current_tag = from_bytes p.current_bytes; current_bytes = [] } in
      elim (if_checksum_then_is_last_tag q).0 [
        | done _ ↦ check_order q.tag_rule_mode_stack q index rest
        | failed e ↦ tag_error e q index rest
        | panicked ↦ (panicked, record { parser = q; index = index; rest = tag_end ∷ rest })
      ]
