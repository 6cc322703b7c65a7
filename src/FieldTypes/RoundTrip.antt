-- ===== src/FieldTypes/RoundTrip.antt =====
-- src/dictionary/field_types/generic.rs: proofs that values are read back from what is written.
use fix_rs.Prelude.{ℕ, ◌≤◌, ◌≡◌, refl, ap, ◌∙◌, true, false, Option, none, some, [], ◌∷◌, arith}
use fix_rs.Decimal.{to_string, max_u8, max_u64}
use fix_rs.Decimal.RoundTrip.{from_str-to_string}
use fix_rs.Decimal.Signed.{signed_to_string, InRange, max_i64, signed_from_str-to_string}
use fix_rs.Parser.State.{was_set}
use fix_rs.FieldTypes.{IsLossless}
use fix_rs.FieldTypes.Generic.{
  bool_true_or_blank, char_type, data_type, string_type, day_of_month, int, seq_num, set_day,
}

bool_true_or_blank-IsLossless : IsLossless bool_true_or_blank (λ _. Unit {0})
unfolding bool_true_or_blank
bool_true_or_blank-IsLossless true _ = (b'Y' ∷ [], refl, λ _. refl)
bool_true_or_blank-IsLossless false _ = (b'N' ∷ [], refl, λ _. refl)

char_type-IsLossless : IsLossless char_type (λ _. Unit {0})
unfolding char_type
char_type-IsLossless v _ = (v ∷ [], refl, λ _. refl)

data_type-IsLossless : IsLossless data_type (λ _. Unit {0})
unfolding data_type
data_type-IsLossless v _ = (v, refl, λ _. refl)

string_type-IsLossless : IsLossless string_type (λ _. Unit {0})
unfolding string_type
string_type-IsLossless v _ = (v, refl, λ _. refl)

-- A day of a month.
abbrev pub IsDay : Option ℕ → Type 0
IsDay none = ⊥
IsDay (some d) = (1 ≤ d) × (d ≤ 31)

set_day_lem : (d : ℕ) → IsDay (some d) → set_day (some d) ≡ was_set (some d)
unfolding set_day
set_day_lem d h = ground arith

day_of_month-IsLossless : IsLossless day_of_month IsDay
unfolding day_of_month
day_of_month-IsLossless none h = absurd h
day_of_month-IsLossless (some d) h = (
  to_string d,
  refl,
  λ _. ap set_day (from_str-to_string max_u8 d (omega arith)) ∙ set_day_lem d h,
)

int-IsLossless : IsLossless int (InRange max_i64)
unfolding int
int-IsLossless v h = (signed_to_string v, refl, λ _. rw (signed_from_str-to_string max_i64 v h))

seq_num-IsLossless : IsLossless seq_num (λ v. v ≤ max_u64)
unfolding seq_num
seq_num-IsLossless v h = (to_string v, refl, λ _. rw (from_str-to_string max_u64 v h))

-- Truth values, characters, bytes and strings, days from 1 to 31, integers of 64 bits and sequence numbers of 64 bits are
-- read back from what is written of them.
pub generic-IsLossless :
    IsLossless bool_true_or_blank (λ _. Unit {0})
    × IsLossless char_type (λ _. Unit {0})
    × IsLossless data_type (λ _. Unit {0})
    × IsLossless string_type (λ _. Unit {0})
    × IsLossless day_of_month IsDay
    × IsLossless int (InRange max_i64)
    × IsLossless seq_num (λ v. v ≤ max_u64)
generic-IsLossless = (
  bool_true_or_blank-IsLossless, char_type-IsLossless, data_type-IsLossless, string_type-IsLossless,
  day_of_month-IsLossless, int-IsLossless, seq_num-IsLossless,
)
