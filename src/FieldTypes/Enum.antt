-- ===== src/FieldTypes/Enum.antt =====
-- src/dictionary/field_types/macros.rs: the types that `define_enum_field_type!` makes of an enumeration. `all` has
-- its variants in their order, and `to_bytes` or `value_of` what each is written as.
pub mod RoundTrip
pub mod Unknown
use fix_rs.Prelude.{
  ℕ, Bool, true, false, Option, none, some, List, [], ◌∷◌, ◌==◌, if◌then◌else◌, Bytes, bytes_eq,
  length,
}
use fix_rs.Prelude.Int.{ℤ, pos, ltb_ℤ, ◌==ℤ◌}
use fix_rs.Decimal.Signed.{signed_from_str, signed_to_string, max_i64}
use fix_rs.Parser.State.{SetValue, was_set, set_error, SetValueError, wrong_format, out_of_range}
use fix_rs.FieldTypes.{FieldType}
use fix_rs.FieldTypes.Generic.{is_none}

-- `MUST_BE_STRING`, `MUST_BE_CHAR` and `MUST_BE_INT`.
pub data MustBe : Type 0 where
  must_be_string must_be_char must_be_int : MustBe

-- The error of bytes that no variant has. The lossy string of bytes that are no text is no number, nor are the bytes.
unfoldable pub unknown_error : MustBe → Bytes → SetValueError
unfolding signed_from_str
unknown_error must_be_string bytes = out_of_range
unknown_error must_be_char bytes = if length bytes == 1 then out_of_range else wrong_format
unknown_error must_be_int bytes = elim (signed_from_str max_i64 bytes) [
  | none ↦ wrong_format
  | some _ ↦ out_of_range
]

module _ {V : Type 0} where
  -- The table of the bytes of the variants.
  unfoldable pub lookup : (V → Bytes) → List V → Bytes → Option V
  unfolding bytes_eq
  lookup to_bytes [] bytes = none
  lookup to_bytes (v ∷ vs) bytes =
      if bytes_eq (to_bytes v) bytes then some v else lookup to_bytes vs bytes

  unfoldable pub lookup_value : (V → ℤ) → List V → ℤ → Option V
  lookup_value value_of [] value = none
  lookup_value value_of (v ∷ vs) value =
      if value_of v ==ℤ value then some v else lookup_value value_of vs value

  unfoldable pub set_known : {A : Type 0} → (V → A) → SetValueError → Option V → SetValue A
  set_known f e none = set_error e
  set_known f e (some v) = was_set (f v)

  -- An optional value is written as nothing where there is none.
  unfoldable pub read_optional : (V → Bytes) → Option V → Option Bytes
  read_optional to_bytes none = some []
  read_optional to_bytes (some v) = some (to_bytes v)

-- A type that reserves the numbers from a minimum on, and one that has a variant for other bytes.
pub data Reserved (V : Type 0) : Type 0 where
  known : V → Reserved V
  reserved : ℤ → Reserved V

pub data WithOther (V : Type 0) : Type 0 where
  known : V → WithOther V
  other : Bytes → WithOther V

module _ {V : Type 0} (to_bytes : V → Bytes) (first : V) (all : List V) where
  -- The default is the first variant.
  unfoldable pub required : MustBe → FieldType V
  unfolding lookup set_known unknown_error
  required must_be = record {
    default_value = first;
    set_value =
        λ bytes _. set_known (λ v. v) (unknown_error must_be bytes) (lookup to_bytes all bytes);
    is_empty = λ _. false;
    len = λ _. 0;
    read = λ v. some (to_bytes v);
  }

  unfoldable pub not_required : MustBe → FieldType (Option V)
  unfolding lookup set_known unknown_error is_none read_optional
  not_required must_be = record {
    default_value = none;
    set_value = λ bytes _. set_known some (unknown_error must_be bytes) (lookup to_bytes all bytes);
    is_empty = is_none;
    len = λ _. 0;
    read = read_optional to_bytes;
  }

  -- `as_bytes` of a type with a variant for other bytes.
  unfoldable pub as_bytes : WithOther V → Bytes
  as_bytes (known v) = to_bytes v
  as_bytes (other bytes) = bytes

  -- `BYTES`, required.
  unfoldable pub required_bytes : FieldType (WithOther V)
  unfolding lookup set_known as_bytes
  required_bytes = record {
    default_value = known first;
    set_value = λ bytes _. set_known known out_of_range (lookup to_bytes all bytes);
    is_empty = λ _. false;
    len = λ _. 0;
    read = λ v. some (as_bytes v);
  }

  unfoldable pub known_bytes : Option V → Option (WithOther V)
  known_bytes none = none
  known_bytes (some v) = some (known v)

  unfoldable pub read_bytes : Option (WithOther V) → Option Bytes
  unfolding as_bytes
  read_bytes none = some []
  read_bytes (some v) = some (as_bytes v)

  -- `BYTES`, not required: what is unknown sets no value, and is no error.
  unfoldable pub not_required_bytes : FieldType (Option (WithOther V))
  unfolding lookup is_none known_bytes read_bytes
  not_required_bytes = record {
    default_value = none;
    set_value = λ bytes _. was_set (known_bytes (lookup to_bytes all bytes));
    is_empty = is_none;
    len = λ _. 0;
    read = read_bytes;
  }

module _ {V : Type 0} (value_of : V → ℤ) (first : V) (all : List V) (minimum : ℤ) where
  unfoldable pub new_value : ℤ → Option (Reserved V)
  unfolding lookup_value
  new_value value = elim (lookup_value value_of all value) [
    | some v ↦ some (known v)
    | none ↦ if ltb_ℤ value minimum then none else some (reserved value)
  ]

  unfoldable pub to_value : Reserved V → ℤ
  to_value (known v) = value_of v
  to_value (reserved value) = value

  unfoldable pub set_reserved : {A : Type 0} → (Reserved V → A) → Option ℤ → SetValue A
  unfolding new_value set_known
  set_reserved f none = set_error wrong_format
  set_reserved f (some value) = set_known f out_of_range (new_value value)

  unfoldable pub required_reserved : FieldType (Reserved V)
  unfolding set_reserved to_value signed_from_str signed_to_string
  required_reserved = record {
    default_value = known first;
    set_value = λ bytes _. set_reserved (λ v. v) (signed_from_str max_i64 bytes);
    is_empty = λ _. false;
    len = λ _. 0;
    read = λ v. some (signed_to_string (to_value v));
  }

  unfoldable pub not_required_reserved : FieldType (Option (Reserved V))
  unfolding set_reserved to_value is_none read_optional signed_from_str signed_to_string
  not_required_reserved = record {
    default_value = none;
    set_value = λ bytes _. set_reserved some (signed_from_str max_i64 bytes);
    is_empty = is_none;
    len = λ _. 0;
    read = read_optional (λ v. signed_to_string (to_value v));
  }
