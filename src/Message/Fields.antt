-- ===== src/Message/Fields.antt =====
-- src/field.rs and src/message.rs: proofs on how a field with a type is written and set.
use mathlib.Core.List.{append_assoc}
use fix_rs.Prelude.{
  ℕ, ◌<◌, ◌≡◌, refl, ap, ◌∙◌, sym, ◌⊎◌, inl, inr, Bool, true, false, not, ◌&&◌, Option, none, some,
  if◌then◌else◌, List, [], ◌∷◌, ◌++◌, ◌==◌, ==_refl, Bytes, All, arith,
}
use fix_rs.Prelude.Int.{pos}
use fix_rs.Action.{panicked, if_let}
use fix_rs.Version.{
  FixVersion, fixt_1_1, fix_4_0, fix_4_1, fix_4_2, fix_4_3, fix_4_4, MessageVersion, fix_version_eq,
  tag_end, value_end,
}
use fix_rs.FieldTag
use fix_rs.FieldTag.{FieldTag}
use fix_rs.Parser.State.{
  Parser, Traits, Meta, Rule, nothing, requires_fix_version, confirm_previous_tag, was_set,
  set_panicked, checksum_tag, get,
}
use fix_rs.Parser.BookKeeping.{set_message_value, set_current_value}
use fix_rs.Parser.Groups.{store_in_groups}
use fix_rs.Parser.Rules.{handle_rule_after_value}
use fix_rs.Parser.Value.{
  take_rule, store_in_message, after_groups, store_checked, store_value, body_value,
  match_value_end,
}
use fix_rs.FieldTypes.{FieldType, IsLossless}
use fix_rs.FieldTypes.Dates.{Chrono, HmsMilli, DateTime, utc_timestamp}
use fix_rs.FieldTypes.Dates.RoundTrip.{IsPrintable, date_digits, time_digits}
use fix_rs.FieldTypes.Dates.Panics.{set_timestamp_panics_iff}
use fix_rs.Message.{
  MessageField, set_field, of_type, is_in, read_field, read_body, set_value, traits,
}

not_skipped : (a b : Bool) → (a ≡ true) ⊎ (b ≡ false) → (not a && b) ≡ false
not_skipped true b h = refl
not_skipped false true h = elim h [ inl e ↦ cc | inr e ↦ cc ]
not_skipped false false h = refl

same_version : (v : FixVersion) → fix_version_eq v v ≡ true
unfolding fix_version_eq
same_version fixt_1_1 = refl
same_version fix_4_0 = refl
same_version fix_4_1 = refl
same_version fix_4_2 = refl
same_version fix_4_3 = refl
same_version fix_4_4 = refl

-- The bytes of one part and then of the other, where neither panics.
unfoldable joined : Option Bytes → Option Bytes → Option Bytes
joined a b = if_let a (λ x. if_let b (λ y. some (x ++ y)) none) none

joined_nothing : (o : Option Bytes) → joined (some []) o ≡ o
unfolding joined
joined_nothing none = refl
joined_nothing (some y) = refl

joined_assoc : (a b c : Option Bytes) → joined a (joined b c) ≡ joined (joined a b) c
unfolding joined
joined_assoc none b c = refl
joined_assoc (some x) none c = refl
joined_assoc (some x) (some y) none = refl
joined_assoc (some x) (some y) (some z) = ap (λ (l : Bytes). some l) (sym (append_assoc x y z))

module _ {B M : Type 0} where
  -- No field of the list has the tag.
  abbrev pub IsWithout : FieldTag → List (MessageField B M) → Type 0
  IsWithout tag = All (λ f. (tag == f.tag) ≡ false)

  -- The field that is the first one with its tag takes the value.
  set_value-first :
      (before after : List (MessageField B M)) (f : MessageField B M) (value : Bytes) (m : M)
      → IsWithout f.tag before
      → set_value (before ++ (f ∷ after)) f.tag value m ≡ f.set_value value m
  unfolding set_value
  set_value-first [] after f value m h = rw (==_refl f.tag) refl
  set_value-first (g ∷ before) after f value m h =
      rw (h.0) (set_value-first before after f value m h.1)

  read_body-append :
      (before after : List (MessageField B M)) (fix_version : FixVersion) (version : MessageVersion)
      (m : M)
      → read_body (before ++ after) fix_version version m
        ≡ joined (read_body before fix_version version m) (read_body after fix_version version m)
  unfolding read_body joined
  read_body-append [] after fix_version version m =
      sym (joined_nothing (read_body after fix_version version m))
  read_body-append (f ∷ before) after fix_version version m =
      let first = if is_in version f then read_field f fix_version version m else some [] in
      ap (joined first) (read_body-append before after fix_version version m)
      ∙ joined_assoc first (read_body before fix_version version m)
          (read_body after fix_version version m)

module _ {B M A : Type 0} (type : FieldType A) (get : M → A) (put : A → M → M) (tag : FieldTag)
    (is_required : Bool) (minimum maximum : MessageVersion) where
  abbrev pub field : Rule B → MessageField B M
  field = of_type type get put tag is_required minimum maximum

  -- What a rule puts in front of the field: the field with the length of the value, or nothing.
  pub data Puts (fix_version : FixVersion) (m : M) : Rule B → Bytes → Type 0 where
    plain : Puts fix_version m nothing []
    of_version : Puts fix_version m (requires_fix_version fix_version) []
    with_length :
        (previous : FieldTag)
        → Puts fix_version m (confirm_previous_tag previous) (
            FieldTag.to_bytes previous
            ++ (tag_end ∷ (FieldTag.to_bytes (type.len (get m)) ++ (value_end ∷ []))))

  read_field_lem :
      (fix_version : FixVersion) (version : MessageVersion) (m : M) (rule : Rule B)
      (front value : Bytes)
      → Puts fix_version m rule front
      → (is_required ≡ true) ⊎ (type.is_empty (get m) ≡ false)
      → type.read (get m) ≡ some value
      → read_field (field rule) fix_version version m
        ≡ some (front ++ (FieldTag.to_bytes tag ++ (tag_end ∷ (value ++ (value_end ∷ [])))))
  unfolding of_type read_field
  read_field_lem fix_version version m _ _ value plain kept reads =
      rw (not_skipped is_required (type.is_empty (get m)) kept, reads) refl
  read_field_lem fix_version version m _ _ value of_version kept reads =
      rw (not_skipped is_required (type.is_empty (get m)) kept, same_version fix_version, reads)
        refl
  read_field_lem fix_version version m _ _ value (with_length previous) kept reads =
      rw (not_skipped is_required (type.is_empty (get m)) kept, reads) refl

  -- A field of the version written whose type reads back what it writes, with the rule `nothing`, that of the FIX version written or one
  -- that puts the length of its value in front: unless it is empty and not required, it is written in the body, between the fields
  -- before it and those behind it, as its tag, `=`, its value and an end, behind that length if there is one; and `set_value`
  -- of that tag and value on any message sets it there, where no field before it has the same tag.
  pub written-set_value :
      {P : A → Type 0}
      → IsLossless type P
      → (fix_version : FixVersion) (version : MessageVersion) (m old : M)
        (before after : List (MessageField B M)) (rule : Rule B) (front x y : Bytes)
      → Puts fix_version m rule front
      → P (get m)
      → (is_required ≡ true) ⊎ (type.is_empty (get m) ≡ false)
      → is_in version (field rule) ≡ true
      → IsWithout tag before
      → read_body before fix_version version m ≡ some x
      → read_body after fix_version version m ≡ some y
      → (value : Bytes) × (read_body (before ++ (field rule ∷ after)) fix_version version m
          ≡ some (
              x
              ++ ((front ++ (FieldTag.to_bytes tag ++ (tag_end ∷ (value ++ (value_end ∷ [])))))
                  ++ y)))
        × (set_value (before ++ (field rule ∷ after)) tag value old ≡ was_set (put (get m) old))
  unfolding read_body joined of_type set_field
  written-set_value lossless fix_version version m old before after rule front x y puts p kept now
        first h k =
      let (value, reads, sets) = lossless (get m) p in
      (
        value,
        read_body-append before (field rule ∷ after) fix_version version m
            ∙ (rw (h, now, read_field_lem fix_version version m rule front value puts kept reads, k)
                refl),
        set_value-first before after (field rule) value old first ∙ rw (sets (get old)) refl,
      )

-- A parser at the end of a value of the body, outside of all groups, whose tag it waits for.
pub record IsAtValue {B M : Type 0} (tag : FieldTag) (bytes : Bytes) (p : Parser B M) : Type 0 where
  pub in_body : 5 < p.found_tag_count
  pub no_group : p.tag_rule_mode_stack ≡ []
  pub current_tag : p.current_tag ≡ tag
  pub current_bytes : p.current_bytes ≡ bytes
  pub not_checksum : (tag == checksum_tag) ≡ false
  pub awaited : get tag p.remaining_fields ≡ some nothing

module _ {B M : Type 0} (t : Traits B M) where
  set_current_value-panics :
      (tag : FieldTag) (bytes : Bytes) (p : Parser B M)
      → t.set_value tag bytes p.current_message ≡ set_panicked
      → (set_current_value t tag bytes p).0 ≡ panicked
  unfolding set_current_value
  set_current_value-panics tag bytes p h = rw (h, set_message_value) refl

  match_value_end-panics :
      (tag : FieldTag) (b : ℕ) (bytes : Bytes) (p : Parser B M)
      → IsAtValue tag (b ∷ bytes) p
      → t.set_value tag (b ∷ bytes) p.current_message ≡ set_panicked
      → (match_value_end t p).0 ≡ panicked
  unfolding match_value_end body_value store_value store_checked store_in_groups after_groups
      store_in_message take_rule handle_rule_after_value set_current_value
  match_value_end-panics tag b bytes p at h =
      let body = at.in_body in
      let not_at : (k : ℕ) → k < 6 → (p.found_tag_count == k) ≡ false = λ k l. ground arith in
      rw
        (
          not_at 0 (omega arith),
          not_at 1 (omega arith),
          not_at 2 (omega arith),
          not_at 3 (omega arith),
          not_at 4 (omega arith),
          at.current_bytes,
          not_at 5 (omega arith),
          at.current_tag,
          at.not_checksum,
          at.no_group,
          at.awaited,
          at.current_bytes,
          h,
          set_message_value,
        )
        refl

module _ (c : Chrono) {B M : Type 0} (get : M → DateTime) (put : DateTime → M → M) (tag : FieldTag)
    (is_required : Bool) (minimum maximum : MessageVersion) (describe : B → List (MessageField B M))
    (build : B → M) (kind : M → B) (set_meta : Meta → M → M) (msg_type : M → Bytes)
    (null_message : M) where
  -- A parser whose current message has a timestamp as its first field with the tag panics at the end of the value of that
  -- field, behind the first six fields, outside of all groups and where it waits for the tag, which is not that of the checksum, by a text in
  -- the form of a timestamp with milliseconds, of a year from 0 to 9999, whose date or time there is not.
  pub stamped_panics :
      (y m d : ℕ) (t : HmsMilli) (p : Parser B M) (before after : List (MessageField B M))
      → y < 10000
      → m < 100
      → d < 100
      → IsPrintable t
      → describe (kind p.current_message)
        ≡ before
          ++ (field (utc_timestamp c) get put tag is_required minimum maximum nothing ∷ after)
      → IsWithout tag before
      → IsAtValue tag (date_digits y m d (b'-' ∷ time_digits t)) p
      → (c.is_date (pos y) m d ≡ false) ⊎ (c.is_time t.hour t.minute t.second t.millisecond ≡ false)
      → (match_value_end (traits describe build kind set_meta msg_type null_message) p).0 ≡ panicked
  unfolding traits of_type utc_timestamp set_field
  stamped_panics y m d t p before after hy hm hd printable described first at missing =
      let stamp = field (utc_timestamp c) get put tag is_required minimum maximum nothing in
      let bytes = date_digits y m d (b'-' ∷ time_digits t) in
      match_value_end-panics (traits describe build kind set_meta msg_type null_message) tag _ _ p
        at
        (ap (λ (fs : List (MessageField B M)). set_value fs tag bytes p.current_message) described
          ∙ set_value-first before after stamp bytes p.current_message first
          ∙ rw ((set_timestamp_panics_iff c y m d t hy hm hd printable).1 missing) refl)
