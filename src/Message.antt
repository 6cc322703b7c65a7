-- ===== src/Message.antt =====
-- src/message.rs, src/field.rs and fix-rs-macros/src/lib.rs: what `define_message!` and `define_fields!` make of a
-- list of fields, and `Message::read`, which writes a whole message into a buffer.
pub mod Reading
pub mod Frame
pub mod Description
pub mod Accepted
pub mod Fields
use fix_rs.Prelude.{
  ℕ, zero, suc, ◌+◌, ◌-◌, ◌%◌, Bool, true, false, not, ◌&&◌, Option, none, some, List, [], ◌∷◌,
  ◌++◌, ◌==◌, ltb, if◌then◌else◌, Bytes, codes, length,
}
use fix_rs.Action.{if_let}
use fix_rs.Version.{
  MessageVersion, FixVersion, match_message_version, fix_version_eq, tag_end, value_end,
}
use fix_rs.FieldTag
use fix_rs.FieldTag.{FieldTag}
use fix_rs.Parser.State.{
  Rule, nothing, begin_group, prepare_for_bytes, confirm_previous_tag, requires_fix_version,
  FieldHashMap, FieldHashSet, Meta, Traits, SetValue, was_set, set_error, set_panicked,
  wrong_format, contains, contains_key,
}
use fix_rs.FieldTypes.{FieldType}

-- One line of `define_message!`: a field of `M` and how its type reads and writes it.
pub record MessageField (B M : Type 0) : Type 0 where
  pub tag : FieldTag
  pub is_required : Bool
  pub minimum_version : MessageVersion
  pub maximum_version : MessageVersion
  pub rule : Rule B
  pub required_when : Option (M → MessageVersion → Bool)
  pub set_value : Bytes → M → SetValue M
  pub set_groups : List M → M → M
  pub is_empty : M → Bool
  pub len : M → ℕ
  pub read : FixVersion → MessageVersion → M → Option Bytes

module _ {A M : Type 0} where
  unfoldable pub set_field : (A → M) → SetValue A → SetValue M
  set_field put (was_set a) = was_set (put a)
  set_field put (set_error e) = set_error e
  set_field put set_panicked = set_panicked

module _ {B : Type 0} where
  -- `HashMap::insert`.
  unfoldable pub insert_rule : FieldTag → Rule B → FieldHashMap B → FieldHashMap B
  insert_rule tag rule [] = (tag, rule) ∷ []
  insert_rule tag rule ((t, r) ∷ m) =
      if t == tag then (t, rule) ∷ m else (t, r) ∷ insert_rule tag rule m

module _ {B M : Type 0} where
  abbrev pub is_in : MessageVersion → MessageField B M → Bool
  is_in version f = match_message_version version f.minimum_version f.maximum_version

  unfoldable pub first_field : MessageVersion → List (MessageField B M) → FieldTag
  unfolding match_message_version
  first_field version [] = FieldTag.empty
  first_field version (f ∷ fs) = if is_in version f then f.tag else first_field version fs

  unfoldable pub field_count : MessageVersion → List (MessageField B M) → ℕ
  unfolding match_message_version
  field_count version [] = 0
  field_count version (f ∷ fs) = (if is_in version f then 1 else 0) + field_count version fs

  unfoldable pub required_field_count : MessageVersion → List (MessageField B M) → ℕ
  unfolding match_message_version
  required_field_count version [] = 0
  required_field_count version (f ∷ fs) =
      (if is_in version f && f.is_required then 1 else 0) + required_field_count version fs

  -- The loops put the fields in one after the other.
  unfoldable pub insert_fields :
      MessageVersion → List (MessageField B M) → FieldHashMap B → FieldHashMap B
  unfolding match_message_version insert_rule
  insert_fields version [] m = m
  insert_fields version (f ∷ fs) m =
      insert_fields version fs (if is_in version f then insert_rule f.tag f.rule m else m)

  unfoldable pub fields : MessageVersion → List (MessageField B M) → FieldHashMap B
  unfolding insert_fields
  fields version fs = insert_fields version fs []

  unfoldable pub insert_required :
      MessageVersion → List (MessageField B M) → FieldHashSet → FieldHashSet
  unfolding match_message_version contains
  insert_required version [] s = s
  insert_required version (f ∷ fs) s =
      insert_required version fs (
        if is_in version f && f.is_required then (if contains f.tag s then s else f.tag ∷ s) else s)

  unfoldable pub required_fields : MessageVersion → List (MessageField B M) → FieldHashSet
  unfolding insert_required
  required_fields version fs = insert_required version fs []

  unfoldable pub is_required_now : M → MessageVersion → MessageField B M → Bool
  is_required_now m version f = elim f.required_when [
    | none ↦ false
    | some required_when ↦ required_when m version
  ]

  -- A field that is required and conditionally required fails an assertion, of a constant of the macro.
  unfoldable pub conditional_required_fields :
      M → MessageVersion → List (MessageField B M) → List FieldTag
  unfolding is_required_now
  conditional_required_fields m version [] = []
  conditional_required_fields m version (f ∷ fs) =
      let rest = conditional_required_fields m version fs in
      if is_required_now m version f then f.tag ∷ rest else rest

  -- The first field with the tag takes the value, of whatever version it is.
  unfoldable pub set_value : List (MessageField B M) → FieldTag → Bytes → M → SetValue M
  set_value [] key value m = set_error wrong_format
  set_value (f ∷ fs) key value m =
      if key == f.tag then f.set_value value m else set_value fs key value m

  unfoldable pub set_groups : List (MessageField B M) → FieldTag → List M → M → M
  set_groups [] key groups m = m
  set_groups (f ∷ fs) key groups m =
      if key == f.tag then f.set_groups groups m else set_groups fs key groups m

  -- `Field::read`, from the tag on.
  unfoldable pub write_tagged :
      MessageField B M → Bytes → Bytes → FixVersion → MessageVersion → M → Option Bytes
  unfolding FieldTag.to_bytes
  write_tagged f before after fix_version version m =
      if_let (f.read fix_version version m)
        (λ value. some (before ++ (FieldTag.to_bytes f.tag ++ (tag_end ∷ (value ++ after))))) none

  -- The rule decides whether the field is written, with its length in front, or without an end, which the type of a group
  -- writes itself.
  unfoldable pub read_by_rule :
      Rule B → MessageField B M → FixVersion → MessageVersion → M → Option Bytes
  unfolding write_tagged fix_version_eq FieldTag.to_bytes
  read_by_rule nothing f fix_version version m =
      write_tagged f [] (value_end ∷ []) fix_version version m
  read_by_rule (begin_group _) f fix_version version m = write_tagged f [] [] fix_version version m
  read_by_rule (prepare_for_bytes _) f fix_version version m = some []
  read_by_rule (confirm_previous_tag previous) f fix_version version m =
      write_tagged f
        (FieldTag.to_bytes previous
          ++ (tag_end ∷ (FieldTag.to_bytes (f.len m) ++ (value_end ∷ []))))
        (value_end ∷ []) fix_version version m
  read_by_rule (requires_fix_version needed) f fix_version version m =
      if fix_version_eq fix_version needed
      then write_tagged f [] (value_end ∷ []) fix_version version m
      else some []

  unfoldable pub read_field : MessageField B M → FixVersion → MessageVersion → M → Option Bytes
  unfolding read_by_rule
  read_field f fix_version version m =
      if not f.is_required && f.is_empty m
      then some []
      else read_by_rule f.rule f fix_version version m

  unfoldable pub read_body :
      List (MessageField B M) → FixVersion → MessageVersion → M → Option Bytes
  unfolding read_field match_message_version
  read_body [] fix_version version m = some []
  read_body (f ∷ fs) fix_version version m =
      if_let (if is_in version f then read_field f fix_version version m else some [])
        (λ bytes. if_let (read_body fs fix_version version m) (λ rest. some (bytes ++ rest)) none)
        none

-- What the derived code makes of the type of a message.
unfoldable pub msg_type_header : Bytes → Bytes
msg_type_header message_type = codes "35=" ++ (message_type ++ (value_end ∷ []))

module _ {B M A : Type 0} where
  -- A field with a type, whose value stands in the message where `get` finds it and `put` sets it.
  unfoldable pub of_type :
      FieldType A
      → (M → A)
      → (A → M → M)
      → FieldTag
      → Bool
      → MessageVersion
      → MessageVersion
      → Rule B
      → MessageField B M
  unfolding set_field
  of_type type get put tag is_required minimum_version maximum_version rule = record {
    tag = tag;
    is_required = is_required;
    minimum_version = minimum_version;
    maximum_version = maximum_version;
    rule = rule;
    required_when = none;
    set_value = λ bytes m. set_field (λ a. put a m) (type.set_value bytes (get m));
    set_groups = λ _ m. m;
    is_empty = λ m. type.is_empty (get m);
    len = λ m. type.len (get m);
    read = λ _ _ m. type.read (get m);
  }

-- The traits `BuildMessage` and `Message` of described messages: what a builder builds, the fields of a kind of
-- message, and the kind of a message.
module _ {B M : Type 0} (describe : B → List (MessageField B M)) (build : B → M) (kind : M → B)
    (set_meta : Meta → M → M) (msg_type : M → Bytes) (null_message : M) where
  unfoldable pub traits : Traits B M
  unfolding first_field fields required_fields conditional_required_fields set_value set_groups
  traits = record {
    first_field = λ b version. first_field version (describe b);
    fields = λ b version. fields version (describe b);
    required_fields = λ b version. required_fields version (describe b);
    build = build;
    conditional_required_fields =
        λ m version. conditional_required_fields m version (describe (kind m));
    set_meta = set_meta;
    set_value = λ key value m. set_value (describe (kind m)) key value m;
    set_groups = λ key groups m. set_groups (describe (kind m)) key groups m;
    msg_type = msg_type;
    null_message = null_message;
  }
