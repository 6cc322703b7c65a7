-- ===== src/Parser/Rules.antt =====
-- src/fix.rs, `handle_rule_after_value`: what a field's rule asks of the fields that follow it.
use fix_rs.Prelude.{ℕ, zero, suc, Bool, true, false, Option, none, some, [], ◌∷◌}
use fix_rs.Decimal.{from_str, max_u64}
use fix_rs.Action.{done, failed}
use fix_rs.FieldTag.{FieldTag}
use fix_rs.Parser.State.{
  Rule, nothing, begin_group, prepare_for_bytes, confirm_previous_tag, requires_fix_version, Traits,
  length_then_value, repeating_groups, repeating_group_start, wrong_format_tag,
}
use fix_rs.Parser.BookKeeping.{ParserAction}

module _ {B M : Type 0} (t : Traits B M) where
  -- `usize` has 64 bits.
  unfoldable pub begin_groups : B → Option ℕ → ParserAction B M Bool
  begin_groups builder none p = (failed (wrong_format_tag p.current_tag), p)
  begin_groups builder (some zero) p = (done true, p)
  begin_groups builder (some (suc n)) p =
      let first_field = t.first_field builder p.message_version in
      (
        done true,
        record p {
          tag_rule_mode_stack =
              repeating_group_start first_field
              ∷ repeating_groups (record {
                number_of_tag = p.current_tag;
                group_count = suc n;
                group_builder = builder;
                first_tag = first_field;
                groups = [];
              })
              ∷ p.tag_rule_mode_stack;
        },
      )

  unfoldable pub expect_bytes : FieldTag → Option ℕ → ParserAction B M Bool
  expect_bytes bytes_tag none p = (failed (wrong_format_tag p.current_tag), p)
  expect_bytes bytes_tag (some byte_count) p = (
    done true,
    record p {
      tag_rule_mode_stack = length_then_value bytes_tag byte_count ∷ p.tag_rule_mode_stack;
    },
  )

  -- The result says whether setting the field's value is skipped.
  unfoldable pub handle_rule_after_value : Rule B → ParserAction B M Bool
  unfolding begin_groups expect_bytes
  handle_rule_after_value nothing p = (done false, p)
  handle_rule_after_value (begin_group builder) p =
      begin_groups builder (from_str max_u64 p.current_bytes) p
  handle_rule_after_value (prepare_for_bytes bytes_tag) p =
      expect_bytes bytes_tag (from_str max_u64 p.current_bytes) p
  handle_rule_after_value (confirm_previous_tag previous_tag) p = (done false, p)
  handle_rule_after_value (requires_fix_version fix_version) p = (done false, p)
