-- ===== src/FieldTypes/Generic.antt =====
-- src/dictionary/field_types/generic.rs: the types of truth values, characters, bytes and numbers.
use fix_rs.Prelude.{
  ℕ, Bool, true, false, not, ◌||◌, Option, none, some, [], ◌∷◌, ◌==◌, ltb, if◌then◌else◌, Bytes,
  length,
}
use fix_rs.Prelude.Int.{ℤ, pos}
use fix_rs.Decimal.{to_string, from_str, max_u8, max_u64}
use fix_rs.Decimal.Signed.{signed_to_string, signed_from_str, max_i64}
use fix_rs.Parser.State.{SetValue, was_set, set_error, wrong_format, out_of_range}
use fix_rs.FieldTypes.{FieldType, set_or}

unfoldable pub set_bool : Bytes → SetValue Bool
set_bool (b ∷ []) =
    if b == b'Y' then was_set true else if b == b'N' then was_set false else set_error wrong_format
set_bool _ = set_error wrong_format

unfoldable pub bool_true_or_blank : FieldType Bool
unfolding set_bool
bool_true_or_blank = record {
  default_value = false;
  set_value = λ bytes _. set_bool bytes;
  is_empty = not;
  len = λ _. 1;
  read = λ v. some (if v then b'Y' ∷ [] else b'N' ∷ []);
}

unfoldable pub set_char : Bytes → SetValue ℕ
set_char (b ∷ []) = was_set b
set_char _ = set_error wrong_format

unfoldable pub char_type : FieldType ℕ
unfolding set_char
char_type = record {
  default_value = 0;
  set_value = λ bytes _. set_char bytes;
  is_empty = λ v. v == 0;
  len = λ _. 1;
  read = λ v. some (v ∷ []);
}

unfoldable pub is_empty_bytes : Bytes → Bool
is_empty_bytes [] = true
is_empty_bytes (_ ∷ _) = false

-- `DataFieldType` and `StringFieldType` differ only in how they copy the bytes.
unfoldable pub data_type : FieldType Bytes
unfolding is_empty_bytes
data_type = record {
  default_value = [];
  set_value = λ bytes _. was_set bytes;
  is_empty = is_empty_bytes;
  len = length;
  read = λ v. some v;
}

unfoldable pub string_type : FieldType Bytes
unfolding is_empty_bytes
string_type = record {
  default_value = [];
  set_value = λ bytes _. was_set bytes;
  is_empty = is_empty_bytes;
  len = length;
  read = λ v. some v;
}

module _ {A : Type 0} where
  unfoldable pub is_none : Option A → Bool
  is_none none = true
  is_none (some _) = false

unfoldable pub set_day : Option ℕ → SetValue (Option ℕ)
set_day none = set_error wrong_format
set_day (some day) = if ltb day 1 || ltb 31 day then set_error out_of_range else was_set (some day)

unfoldable pub day_of_month : FieldType (Option ℕ)
unfolding set_day is_none to_string from_str
day_of_month = record {
  default_value = none;
  set_value = λ bytes _. set_day (from_str max_u8 bytes);
  is_empty = is_none;
  len = λ _. 0;
  read = λ v. elim v [ none ↦ some [] | some day ↦ some (to_string day) ];
}

unfoldable pub int : FieldType ℤ
unfolding set_or signed_from_str signed_to_string
int = record {
  default_value = pos 0;
  set_value = λ bytes _. set_or wrong_format (signed_from_str max_i64 bytes);
  is_empty = λ _. false;
  len = λ _. 0;
  read = λ v. some (signed_to_string v);
}

-- Also `LengthFieldType`.
unfoldable pub seq_num : FieldType ℕ
unfolding set_or from_str to_string
seq_num = record {
  default_value = 0;
  set_value = λ bytes _. set_or wrong_format (from_str max_u64 bytes);
  is_empty = λ v. v == 0;
  len = λ _. 0;
  read = λ v. some (to_string v);
}
