-- ===== src/Parser/State.antt =====
-- src/fix.rs: the parser's types and state, and the traits of src/message.rs and
-- src/fixt/message.rs by which it builds messages.
use fix_rs.Prelude.{
  ℕ, Bool, true, false, Option, none, some, List, [], ◌∷◌, ◌==◌, if◌then◌else◌, Bytes, bytes_eq,
}
use fix_rs.Version.{MessageVersion, FixVersion, fix40, fix50, fix_4_0}
use fix_rs.FieldTag
use fix_rs.FieldTag.{FieldTag}

-- src/rule.rs. `B` is the type of message builders.
pub data Rule (B : Type 0) : Type 0 where
  nothing : Rule B
  begin_group : B → Rule B
  prepare_for_bytes : FieldTag → Rule B
  confirm_previous_tag : FieldTag → Rule B
  requires_fix_version : FixVersion → Rule B

-- The hash map of fields, as the list of its entries with each key once.
abbrev pub FieldHashMap : Type 0 → Type 0
FieldHashMap B = List (FieldTag × Rule B)

-- The hash set of tags, as the list of its elements in the order of iteration.
abbrev pub FieldHashSet : Type 0
FieldHashSet = List FieldTag

module _ {V : Type 0} where
  unfoldable pub get : FieldTag → List (FieldTag × V) → Option V
  get tag [] = none
  get tag ((t, v) ∷ m) = if t == tag then some v else get tag m

  unfoldable pub contains_key : FieldTag → List (FieldTag × V) → Bool
  contains_key tag [] = false
  contains_key tag ((t, v) ∷ m) = if t == tag then true else contains_key tag m

  unfoldable pub remove_key : FieldTag → List (FieldTag × V) → List (FieldTag × V)
  remove_key tag [] = []
  remove_key tag ((t, v) ∷ m) =
      let rest = remove_key tag m in if t == tag then rest else (t, v) ∷ rest

  -- `HashMap::get` at a byte string.
  unfoldable pub get_bytes : Bytes → List (Bytes × V) → Option V
  unfolding bytes_eq
  get_bytes key [] = none
  get_bytes key ((k, v) ∷ m) = if bytes_eq k key then some v else get_bytes key m

unfoldable pub contains : FieldTag → FieldHashSet → Bool
contains tag [] = false
contains tag (t ∷ s) = if t == tag then true else contains tag s

unfoldable pub remove : FieldTag → FieldHashSet → FieldHashSet
remove tag [] = []
remove tag (t ∷ s) = let rest = remove tag s in if t == tag then rest else t ∷ rest

pub record Meta : Type 0 where
  pub begin_string : FixVersion
  pub body_length : ℕ
  pub message_version : MessageVersion
  pub checksum : ℕ

pub data SetValueError : Type 0 where
  wrong_format out_of_range : SetValueError

pub data SetValue (M : Type 0) : Type 0 where
  was_set : M → SetValue M
  set_error : SetValueError → SetValue M
  set_panicked : SetValue M

-- The traits `BuildMessage` and `Message`: `B` is the type of builders and `M` that of messages.
pub record Traits (B M : Type 0) : Type 0 where
  pub first_field : B → MessageVersion → FieldTag
  pub fields : B → MessageVersion → FieldHashMap B
  pub required_fields : B → MessageVersion → FieldHashSet
  pub build : B → M
  pub conditional_required_fields : M → MessageVersion → List FieldTag
  pub set_meta : Meta → M → M
  pub set_value : FieldTag → Bytes → M → SetValue M
  pub set_groups : FieldTag → List M → M → M
  pub msg_type : M → Bytes
  pub null_message : M

pub data ParseError (M : Type 0) : Type 0 where
  missing_required_tag : FieldTag → M → ParseError M
  missing_conditionally_required_tag : FieldTag → M → ParseError M
  begin_str_not_first_tag : ParseError M
  body_length_not_second_tag : ParseError M
  body_length_not_number : ParseError M
  msg_type_not_third_tag : ParseError M
  msg_type_unknown : Bytes → ParseError M
  sender_comp_id_not_fourth_tag : ParseError M
  target_comp_id_not_fifth_tag : ParseError M
  appl_ver_id_not_sixth_tag : ParseError M
  checksum_not_last_tag : ParseError M
  checksum_does_not_match : ℕ → ℕ → ParseError M
  checksum_wrong_format : ParseError M
  duplicate_tag : FieldTag → ParseError M
  unexpected_tag : FieldTag → ParseError M
  unknown_tag : FieldTag → ParseError M
  wrong_format_tag : FieldTag → ParseError M
  out_of_range_tag : FieldTag → ParseError M
  no_value_after_tag : FieldTag → ParseError M
  missing_preceding_length_tag : FieldTag → ParseError M
  missing_following_length_tag : FieldTag → ParseError M
  non_repeating_group_tag_in_repeating_group : FieldTag → ParseError M
  repeating_group_tag_with_no_repeating_group : FieldTag → ParseError M
  missing_first_repeating_group_tag_after_number_of_repeating_group_tag : FieldTag → ParseError M
  message_size_too_big : ParseError M

pub record ParseGroupState (B M : Type 0) : Type 0 where
  pub remaining_fields : FieldHashMap B
  pub remaining_required_fields : FieldHashSet
  pub message : M

-- `groups` has the newest group first, where the source pushes at the end of its vector.
pub record ParseRepeatingGroupState (B M : Type 0) : Type 0 where
  pub number_of_tag : FieldTag
  pub group_count : ℕ
  pub group_builder : B
  pub first_tag : FieldTag
  pub groups : List (ParseGroupState B M)

pub data TagRuleMode (B M : Type 0) : Type 0 where
  length_then_value : FieldTag → ℕ → TagRuleMode B M
  repeating_groups : ParseRepeatingGroupState B M → TagRuleMode B M
  repeating_group_start : FieldTag → TagRuleMode B M

pub data FoundMessage : Type 0 where
  not_found first_byte second_byte : FoundMessage

pub data MessageEnd : Type 0 where
  yes_end yes_but_stop no_end : MessageEnd

-- `tag_rule_mode_stack` has its top first, and `messages` in the order in which they were parsed.
pub record Parser (B M : Type 0) : Type 0 where
  pub message_dictionary : List (Bytes × B)
  pub max_message_length : ℕ
  pub default_message_version : MessageVersion
  pub default_message_type_version : List (Bytes × MessageVersion)
  pub value_to_length_tags : List (FieldTag × FieldTag)
  pub found_message : FoundMessage
  pub current_tag : FieldTag
  pub current_bytes : Bytes
  pub fix_version : FixVersion
  pub message_version : MessageVersion
  pub body_length : ℕ
  pub message_type : Bytes
  pub checksum : ℕ
  pub sender_comp_id : Bytes
  pub target_comp_id : Bytes
  pub body_remaining_length : ℕ
  pub previous_tag : FieldTag
  pub next_tag_checksum : Bool
  pub tag_rule_mode_stack : List (TagRuleMode B M)
  pub fast_track_bytes_remaining : ℕ
  pub found_tag_count : ℕ
  pub remaining_fields : FieldHashMap B
  pub remaining_required_fields : FieldHashSet
  pub missing_tag : FieldTag
  pub missing_conditional_tag : FieldTag
  pub current_message : M
  pub messages : List M

abbrev pub begin_str_tag : FieldTag
begin_str_tag = 8

abbrev pub body_length_tag : FieldTag
body_length_tag = 9

abbrev pub msg_type_tag : FieldTag
msg_type_tag = 35

abbrev pub checksum_tag : FieldTag
checksum_tag = 10

-- The tags of src/dictionary/fields.rs that the parser names.
abbrev pub sender_comp_id_tag : FieldTag
sender_comp_id_tag = 49

abbrev pub target_comp_id_tag : FieldTag
target_comp_id_tag = 56

abbrev pub appl_ver_id_tag : FieldTag
appl_ver_id_tag = 1128

module _ {B M : Type 0} (t : Traits B M) where
  unfoldable pub reset_parser : Parser B M → Parser B M
  reset_parser p = record p {
    found_message = not_found;
    current_tag = FieldTag.empty;
    current_bytes = [];
    body_length = 0;
    message_type = [];
    checksum = 0;
    sender_comp_id = [];
    target_comp_id = [];
    body_remaining_length = 0;
    previous_tag = FieldTag.empty;
    next_tag_checksum = false;
    tag_rule_mode_stack = [];
    fast_track_bytes_remaining = 0;
    found_tag_count = 0;
    remaining_fields = [];
    remaining_required_fields = [];
    missing_tag = FieldTag.empty;
    missing_conditional_tag = FieldTag.empty;
    current_message = t.null_message;
  }

  -- The state that `Parser::new` builds, over the map that its walk of the dictionary collects.
  unfoldable pub initial : List (Bytes × B) → ℕ → List (FieldTag × FieldTag) → Parser B M
  initial dictionary max_message_length value_to_length_tags = record {
    message_dictionary = dictionary;
    max_message_length = max_message_length;
    default_message_version = fix50;
    default_message_type_version = [];
    value_to_length_tags = value_to_length_tags;
    found_message = not_found;
    current_tag = FieldTag.empty;
    current_bytes = [];
    fix_version = fix_4_0;
    message_version = fix40;
    body_length = 0;
    message_type = [];
    checksum = 0;
    sender_comp_id = [];
    target_comp_id = [];
    body_remaining_length = 0;
    previous_tag = FieldTag.empty;
    next_tag_checksum = false;
    tag_rule_mode_stack = [];
    fast_track_bytes_remaining = 0;
    found_tag_count = 0;
    remaining_fields = [];
    remaining_required_fields = [];
    missing_tag = FieldTag.empty;
    missing_conditional_tag = FieldTag.empty;
    current_message = t.null_message;
    messages = [];
  }
