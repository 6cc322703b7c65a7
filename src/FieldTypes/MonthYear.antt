-- ===== src/FieldTypes/MonthYear.antt =====
-- src/dictionary/field_types/generic.rs: `MonthYear`. `String::from_utf8_lossy` is a parameter, which leaves
-- ASCII as it is. A slice of a string that does not lie on the bounds of characters panics.
pub mod Misread
use fix_rs.Prelude.{
  ℕ, ◌+◌, ◌-◌, Bool, true, false, ◌||◌, ◌&&◌, not, Option, none, some, [], ◌∷◌, ◌++◌, ◌==◌, ltb,
  leb, if◌then◌else◌, Bytes, length, take, drop, get_elem?,
}
use fix_rs.Prelude.Int.{ℤ, pos, negsuc, ltb_ℤ}
use fix_rs.Action.{Outcome, done, failed, panicked}
use fix_rs.Decimal.{to_string, from_str, max_u8}
use fix_rs.Decimal.Signed.{signed_from_str, max_i16}
use fix_rs.Decimal.Padded.{pad}
use fix_rs.Parser.State.{SetValue, was_set, set_error, set_panicked, wrong_format}
use fix_rs.FieldTypes.{FieldType}
use fix_rs.FieldTypes.Dates.{slice, byte_is, pad_year, is_before_zero}

pub data MonthYearRemainder : Type 0 where
  day week : ℕ → MonthYearRemainder

pub record MonthYear : Type 0 where
  pub year : ℤ
  pub month : ℕ
  pub remainder : Option MonthYearRemainder

-- A result that may be refused, or panic.
abbrev pub Checked : Type 0 → Type 0
Checked A = Outcome (Unit {0}) A

infixl 5 ◌>>=◌
abbrev pub ◌>>=◌ : {A C : Type 0} → Checked A → (A → Checked C) → Checked C
done a >>= f = f a
failed e >>= f = failed e
panicked >>= f = panicked

module _ {A : Type 0} where
  abbrev pub of_option : Option A → Checked A
  of_option none = failed tt
  of_option (some a) = done a

abbrev pub guard : Bool → Checked (Unit {0})
guard b = if b then done tt else failed tt

-- `str::is_char_boundary`: a byte that continues a character is in 128..192.
unfoldable pub is_char_boundary : ℕ → Bytes → Bool
is_char_boundary i s =
    if i == length s
    then true
    else elim (get_elem? s i) [ none ↦ false | some b ↦ ltb b 128 || leb 192 b ]

-- `&s[a..b]` of a string.
unfoldable pub str_slice : ℕ → ℕ → Bytes → Checked Bytes
unfolding is_char_boundary slice
str_slice a b s =
    if leb a b && is_char_boundary a s && is_char_boundary b s then done (slice a b s) else panicked

unfoldable pub week_of : Option ℕ → Checked (Option MonthYearRemainder)
week_of none = failed tt
week_of (some w) = if leb 1 w && leb w 5 then done (some (week w)) else failed tt

unfoldable pub day_of : Option ℕ → Checked (Option MonthYearRemainder)
day_of none = failed tt
day_of (some d) = if leb 1 d && leb d 31 then done (some (day d)) else failed tt

unfoldable pub read_remainder : Bytes → Bytes → Checked (Option MonthYearRemainder)
unfolding byte_is str_slice week_of day_of from_str
read_remainder bytes s =
    if leb (length bytes) 6
    then done none
    else if byte_is 6 b'w' bytes
    then (str_slice 7 (length s) s >>= λ digits. week_of (from_str max_u8 digits))
    else (str_slice 6 7 s >>= λ digits. day_of (from_str max_u8 digits))

unfoldable pub is_year : ℤ → Bool
is_year y = not (ltb_ℤ y (pos 0) || ltb_ℤ (pos 9999) y)

unfoldable pub is_month : ℕ → Bool
is_month m = not (ltb m 1 || ltb 12 m)

-- `MonthYear::new` behind the test of the length, over the string of the bytes.
unfoldable pub new_from : Bytes → Bytes → Checked MonthYear
unfolding str_slice signed_from_str from_str is_year is_month read_remainder
new_from bytes s = str_slice 0 4 s >>= λ y. of_option (signed_from_str max_i16 y) >>= λ year.
    guard (is_year year) >>= λ _. str_slice 4 5 s >>= λ m.
    of_option (from_str max_u8 m) >>= λ month. guard (is_month month) >>= λ _.
    read_remainder bytes s >>= λ remainder.
    done (record { year = year; month = month; remainder = remainder })

unfoldable pub set_month_year : Checked MonthYear → SetValue MonthYear
set_month_year (done v) = was_set v
set_month_year (failed _) = set_error wrong_format
set_month_year panicked = set_panicked

unfoldable pub write_remainder : Option MonthYearRemainder → Bytes
unfolding to_string
write_remainder none = []
write_remainder (some (day d)) = to_string d
write_remainder (some (week w)) = b'w' ∷ to_string w

module _ (from_utf8_lossy : Bytes → Bytes) where
  unfoldable pub new : Bytes → Checked MonthYear
  unfolding new_from
  new bytes =
      if ltb (length bytes) 6 || ltb 8 (length bytes)
      then failed tt
      else new_from bytes (from_utf8_lossy bytes)

  unfoldable pub month_year : FieldType MonthYear
  unfolding new set_month_year write_remainder pad_year pad is_before_zero
  month_year = record {
    default_value = record { year = negsuc 0; month = 1; remainder = none };
    set_value = λ bytes _. set_month_year (new bytes);
    is_empty = λ v. is_before_zero v.year;
    len = λ _. 0;
    read = λ v. some (pad_year v.year ++ (pad 2 v.month ++ write_remainder v.remainder));
  }
