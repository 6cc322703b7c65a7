-- ===== src/Message/Description.antt =====
-- src/message.rs: proofs that what `define_message!` makes of the fields of a message fits together, as the parser
-- relies on.
use fix_rs.Prelude.{
  suc, ◌≡◌, refl, ◌∙◌, sym, ◌⊎◌, inl, inr, Bool, true, false, ◌&&◌, ◌||◌, List, [], ◌∷◌, ◌==◌,
  if◌then◌else◌, length, arith, Bool-cases, ==_refl,
}
use fix_rs.Version.{MessageVersion}
use fix_rs.FieldTag.{FieldTag}
use fix_rs.Parser.State.{Rule, FieldHashMap, FieldHashSet, contains, contains_key}
use fix_rs.Message.{
  MessageField, is_in, first_field, insert_rule, insert_fields, fields, insert_required,
  required_fields,
}

module _ {B M : Type 0} where
  -- Whether a field of the version has the tag, and one that is required.
  abbrev pub has_field : MessageVersion → FieldTag → List (MessageField B M) → Bool
  has_field version tag [] = false
  has_field version tag (f ∷ fs) = (is_in version f && (f.tag == tag)) || has_field version tag fs

  abbrev pub has_required : MessageVersion → FieldTag → List (MessageField B M) → Bool
  has_required version tag [] = false
  has_required version tag (f ∷ fs) =
      (is_in version f && f.is_required && (f.tag == tag)) || has_required version tag fs

contains-add :
    (tag t : FieldTag) (s : FieldHashSet)
    → contains tag (if contains t s then s else t ∷ s) ≡ (t == tag) || contains tag s
unfolding contains
contains-add tag t s = elim (Bool-cases (t == tag)) [
  | inl e ↦ (let same : t ≡ tag = ground arith in rw same (self (contains tag s) refl))
  | inr e ↦ other (contains t s) e
]
  where
    self :
        (b : Bool)
        → contains tag s ≡ b
        → contains tag (if b then s else tag ∷ s) ≡ (tag == tag) || contains tag s
    self true h = ground arith
    self false h = ground arith

    other :
        (b : Bool)
        → (t == tag) ≡ false
        → contains tag (if b then s else t ∷ s) ≡ (t == tag) || contains tag s
    other true e = ground arith
    other false e = ground arith

module _ {B : Type 0} where
  contains_key-insert :
      (tag t : FieldTag) (rule : Rule B) (m : FieldHashMap B)
      → contains_key tag (insert_rule t rule m) ≡ (t == tag) || contains_key tag m
  unfolding insert_rule contains_key
  contains_key-insert tag t rule [] = ground arith
  contains_key-insert tag t rule ((u, r) ∷ m) = ground (arith, contains_key-insert tag t rule m)

  length-insert :
      (t : FieldTag) (rule : Rule B) (m : FieldHashMap B)
      → length (insert_rule t rule m) ≡ (if contains_key t m then length m else suc (length m))
  unfolding insert_rule contains_key
  length-insert t rule [] = refl
  length-insert t rule ((u, r) ∷ m) = ground (arith, length-insert t rule m)

module _ {B M : Type 0} where
  contains_key-fields :
      (version : MessageVersion) (tag : FieldTag) (fs : List (MessageField B M))
      (m : FieldHashMap B)
      → contains_key tag (insert_fields version fs m)
        ≡ has_field version tag fs || contains_key tag m
  unfolding insert_fields
  contains_key-fields version tag [] m = refl
  contains_key-fields version tag (f ∷ fs) m =
      contains_key-fields version tag fs (if is_in version f then insert_rule f.tag f.rule m else m)
      ∙ go (is_in version f)
    where
      go :
          (b : Bool)
          → (has_field version tag fs
              || contains_key tag (if b then insert_rule f.tag f.rule m else m))
            ≡ ((b && (f.tag == tag)) || has_field version tag fs) || contains_key tag m
      go true = ground (arith, contains_key-insert tag f.tag f.rule m)
      go false = refl

  contains-required :
      (version : MessageVersion) (tag : FieldTag) (fs : List (MessageField B M)) (s : FieldHashSet)
      → contains tag (insert_required version fs s) ≡ has_required version tag fs || contains tag s
  unfolding insert_required
  contains-required version tag [] s = refl
  contains-required version tag (f ∷ fs) s =
      contains-required version tag fs (
        if is_in version f && f.is_required then (if contains f.tag s then s else f.tag ∷ s) else s)
      ∙ go (is_in version f) f.is_required
    where
      go :
          (a b : Bool)
          → (has_required version tag fs
              || contains tag (if a && b then (if contains f.tag s then s else f.tag ∷ s) else s))
            ≡ ((a && b && (f.tag == tag)) || has_required version tag fs) || contains tag s
      go true true = ground (arith, contains-add tag f.tag s)
      go true false = refl
      go false b = refl

  has_required→has_field :
      (version : MessageVersion) (tag : FieldTag) (fs : List (MessageField B M))
      → has_required version tag fs ≡ true
      → has_field version tag fs ≡ true
  has_required→has_field version tag [] h = cc
  has_required→has_field version tag (f ∷ fs) h =
      go (is_in version f) f.is_required (f.tag == tag) (has_required→has_field version tag fs) h
    where
      go :
          (a b c : Bool)
          → (has_required version tag fs ≡ true → has_field version tag fs ≡ true)
          → ((a && b && c) || has_required version tag fs) ≡ true
          → ((a && c) || has_field version tag fs) ≡ true
      go true true true k h = refl
      go true true false k h = k h
      go true false true k h = refl
      go true false false k h = k h
      go false b c k h = k h

  has_first :
      (version : MessageVersion) (fs : List (MessageField B M)) (m : FieldHashMap B)
      → (has_field version (first_field version fs) fs ≡ true) ⊎ (insert_fields version fs m ≡ m)
  unfolding first_field insert_fields
  has_first version [] m = inr refl
  has_first version (f ∷ fs) m = go (is_in version f) (has_first version fs m)
    where
      go :
          (b : Bool)
          → (has_field version (first_field version fs) fs ≡ true)
            ⊎ (insert_fields version fs m ≡ m)
          → (((b && (f.tag == (if b then f.tag else first_field version fs)))
                || has_field version (if b then f.tag else first_field version fs) fs)
              ≡ true)
            ⊎ (insert_fields version fs (if b then insert_rule f.tag f.rule m else m) ≡ m)
      go true h = inl (rw (==_refl f.tag) refl)
      go false h = h

  -- The fields that the parser is given for a version have exactly the tags of the fields of that version, and those that
  -- it is to require exactly the tags of the required ones, so that each required tag is among the fields; the first
  -- field is among them too, unless there is none.
  pub fields_lem :
      (version : MessageVersion) (fs : List (MessageField B M)) (tag : FieldTag)
      → (contains_key tag (fields version fs) ≡ has_field version tag fs)
        × (contains tag (required_fields version fs) ≡ has_required version tag fs)
        × (contains tag (required_fields version fs) ≡ true
            → contains_key tag (fields version fs) ≡ true)
        × ((contains_key (first_field version fs) (fields version fs) ≡ true)
            ⊎ (fields version fs ≡ []))
  unfolding fields required_fields contains_key contains
  fields_lem version fs tag =
      let keys =
        λ (t : FieldTag). contains_key-fields version t fs [] ∙ or_false (has_field version t fs) in
      let needed = contains-required version tag fs [] ∙ or_false (has_required version tag fs) in
      (
        keys tag,
        needed,
        λ h. keys tag ∙ has_required→has_field version tag fs (sym needed ∙ h),
        elim (has_first version fs []) [
          | inl h ↦ inl (keys (first_field version fs) ∙ h)
          | inr e ↦ inr e
        ],
      )
    where
      or_false : (b : Bool) → (b || false) ≡ b
      or_false true = refl
      or_false false = refl
