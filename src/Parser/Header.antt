-- ===== src/Parser/Header.antt =====
-- src/fix.rs, the first part of `match_value_end`: the fields that a message must begin with.
use fix_rs.Prelude.{
  ℕ, ◌+◌, ◌%◌, ◌^◌, Bool, true, false, Option, none, some, [], ◌==◌, ltb, not, if◌then◌else◌, Bytes,
  length, bytes_eq,
}
use fix_rs.Decimal.{from_str, max_u64}
use fix_rs.Action.{done, failed, and_then}
use fix_rs.FieldTag.{FieldTag}
use fix_rs.Version.{
  FixVersion, MessageVersion, fixt_1_1, fix_4_0, fix_4_1, fix_4_2, fix_4_3, fix_4_4, fix40, fix41,
  fix42, fix43, fix44, fixt_1_1_begin_string, fix_4_0_begin_string, fix_4_1_begin_string,
  fix_4_2_begin_string, fix_4_3_begin_string, fix_4_4_begin_string, fix_version_eq, from_bytes,
  begin_string,
}
use fix_rs.Parser.State.{
  Parser, Traits, begin_str_tag, body_length_tag, msg_type_tag, sender_comp_id_tag,
  target_comp_id_tag, appl_ver_id_tag, get_bytes, remove_key, remove, begin_str_not_first_tag,
  body_length_not_second_tag, body_length_not_number, message_size_too_big, msg_type_not_third_tag,
  sender_comp_id_not_fourth_tag, target_comp_id_not_fifth_tag, wrong_format_tag, out_of_range_tag,
}
use fix_rs.Parser.BookKeeping.{ParserAction, prepare_for_message, set_current_value}

-- The versions that a BeginString stands for; FIXT.1.1 falls back to the default given.
unfoldable pub versions_of : MessageVersion → Bytes → Option (FixVersion × MessageVersion)
unfolding bytes_eq
versions_of default bytes =
    if bytes_eq bytes fix_4_0_begin_string
    then some (fix_4_0, fix40)
    else if bytes_eq bytes fix_4_1_begin_string
    then some (fix_4_1, fix41)
    else if bytes_eq bytes fix_4_2_begin_string
    then some (fix_4_2, fix42)
    else if bytes_eq bytes fix_4_3_begin_string
    then some (fix_4_3, fix43)
    else if bytes_eq bytes fix_4_4_begin_string
    then some (fix_4_4, fix44)
    else if bytes_eq bytes fixt_1_1_begin_string
    then some (fixt_1_1, default)
    else none

module _ {B M : Type 0} where
  unfoldable pub set_versions : Option (FixVersion × MessageVersion) → ParserAction B M (Unit {0})
  set_versions none p = (failed (wrong_format_tag begin_str_tag), p)
  set_versions (some (fix_version, message_version)) p = (
    done tt,
    record p { fix_version = fix_version; message_version = message_version; current_bytes = [] },
  )

  unfoldable pub begin_str_value : ParserAction B M (Unit {0})
  unfolding set_versions versions_of
  begin_str_value p =
      if not (p.current_tag == begin_str_tag)
      then (failed begin_str_not_first_tag, p)
      else set_versions (versions_of p.default_message_version p.current_bytes) p

  -- The sum is taken on u64, which wraps in a release build.
  unfoldable pub total_message_length : Parser B M → ℕ
  total_message_length p =
      (1
        + 2
        + length (begin_string p.fix_version)
        + 1
        + 2
        + length p.current_bytes
        + p.body_length
        + 2
        + 5)
      % 2 ^ 64

  unfoldable pub set_body_length : Option ℕ → ParserAction B M (Unit {0})
  set_body_length none p = (failed body_length_not_number, p)
  set_body_length (some n) p =
      let q = record p { body_length = n; body_remaining_length = n } in
      if ltb p.max_message_length (total_message_length q)
      then (failed message_size_too_big, q)
      else (done tt, q)

  unfoldable pub body_length_value : ParserAction B M (Unit {0})
  unfolding set_body_length total_message_length
  body_length_value p =
      if not (p.current_tag == body_length_tag)
      then (failed body_length_not_second_tag, p)
      else set_body_length (from_str max_u64 p.current_bytes) p

  unfoldable pub sender_value : ParserAction B M (Unit {0})
  sender_value p =
      if not (p.current_tag == sender_comp_id_tag)
      then (failed sender_comp_id_not_fourth_tag, p)
      else (done tt, record p { sender_comp_id = p.current_bytes })

  unfoldable pub target_value : ParserAction B M (Unit {0})
  target_value p =
      if not (p.current_tag == target_comp_id_tag)
      then (failed target_comp_id_not_fifth_tag, p)
      else (done tt, record p { target_comp_id = p.current_bytes })

  -- The version that the sixth field gives: the ApplVerID itself, the default of the message type,
  -- or the default of the session. The result says whether the field was the ApplVerID.
  unfoldable pub by_default : Option MessageVersion → ParserAction B M Bool
  by_default none p = (done false, record p { message_version = p.default_message_version })
  by_default (some version) p = (done false, record p { message_version = version })

  unfoldable pub by_appl_ver_id : Option MessageVersion → ParserAction B M Bool
  by_appl_ver_id none p = (failed (out_of_range_tag p.current_tag), p)
  by_appl_ver_id (some version) p = (done true, record p { message_version = version })

  unfoldable pub select_version : ParserAction B M Bool
  unfolding by_default by_appl_ver_id
  select_version p =
      if p.current_tag == appl_ver_id_tag
      then by_appl_ver_id (from_bytes p.current_bytes) p
      else by_default (get_bytes p.message_type p.default_message_type_version) p

module _ {B M : Type 0} (t : Traits B M) where
  unfoldable pub msg_type_value : ParserAction B M (Unit {0})
  unfolding prepare_for_message
  msg_type_value p =
      if not (p.current_tag == msg_type_tag)
      then (failed msg_type_not_third_tag, p)
      else let q = record p { message_type = p.current_bytes } in
        if fix_version_eq q.fix_version fixt_1_1 then (done tt, q) else prepare_for_message t q

  -- The field is set, and is no longer waited for.
  unfoldable pub take_header_field : FieldTag → Bytes → ParserAction B M (Unit {0})
  unfolding set_current_value
  take_header_field tag bytes p = and_then (set_current_value t tag bytes p) λ _ q. (
    done tt,
    record q {
      remaining_fields = remove_key tag q.remaining_fields;
      remaining_required_fields = remove tag q.remaining_required_fields;
    },
  )

  -- ApplVerID is marked as found whether it came or not, so that it is refused further on.
  unfoldable pub mark_appl_ver_id : Bool → ParserAction B M Bool
  mark_appl_ver_id given p =
      and_then
        (if given then set_current_value t appl_ver_id_tag p.current_bytes p else (done tt, p))
        λ _ q. (
          done given,
          record q { remaining_fields = remove_key appl_ver_id_tag q.remaining_fields },
        )

  unfoldable pub sixth_field : ParserAction B M Bool
  unfolding select_version take_header_field prepare_for_message mark_appl_ver_id
  sixth_field p = and_then (select_version p) λ given q. and_then (prepare_for_message t q) λ _ r.
      and_then (take_header_field sender_comp_id_tag r.sender_comp_id r) λ _ s.
        and_then (take_header_field target_comp_id_tag s.target_comp_id s)
          λ _ u. mark_appl_ver_id given u
