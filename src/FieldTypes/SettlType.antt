-- ===== src/FieldTypes/SettlType.antt =====
-- src/dictionary/field_types/other.rs: `SettlType`, with its tenors of a number of days, months, weeks or years.
pub mod RoundTrip
use fix_rs.Prelude.{
  ℕ, suc, Bool, true, false, Option, none, some, List, [], ◌∷◌, ◌==◌, if◌then◌else◌, Bytes, codes,
}
use fix_rs.Decimal.{to_string, from_str, max_u64}
use fix_rs.Parser.State.{SetValue, out_of_range}
use fix_rs.FieldTypes.{FieldType}
use fix_rs.FieldTypes.Generic.{is_none}
use fix_rs.FieldTypes.Enum.{set_known, read_optional}

pub data SettlType : Type 0 where
  regular_or_fx_spot_settlement cash next_day t_plus2 t_plus3 t_plus4 future when_and_if_issued
        sellers_option t_plus5 broken_date fx_spot_next_settlement :
      SettlType
  days months weeks years : ℕ → SettlType

unfoldable pub new_of_byte : ℕ → Option SettlType
new_of_byte b =
    if b == b'0'
    then some regular_or_fx_spot_settlement
    else if b == b'1'
    then some cash
    else if b == b'2'
    then some next_day
    else if b == b'3'
    then some t_plus2
    else if b == b'4'
    then some t_plus3
    else if b == b'5'
    then some t_plus4
    else if b == b'6'
    then some future
    else if b == b'7'
    then some when_and_if_issued
    else if b == b'8'
    then some sellers_option
    else if b == b'9'
    then some t_plus5
    else if b == b'B'
    then some broken_date
    else if b == b'C'
    then some fx_spot_next_settlement
    else none

unfoldable pub new_tenor : ℕ → ℕ → Option SettlType
new_tenor b number =
    if b == b'D'
    then some (days number)
    else if b == b'M'
    then some (months number)
    else if b == b'W'
    then some (weeks number)
    else if b == b'Y'
    then some (years number)
    else none

-- A tenor has a number above 0. The lossy string of bytes that are no text holds no number either.
unfoldable pub new_of_number : ℕ → Option ℕ → Option SettlType
unfolding new_tenor
new_of_number b none = none
new_of_number b (some number) = if number == 0 then none else new_tenor b number

unfoldable pub new : Bytes → Option SettlType
unfolding new_of_byte new_of_number from_str
new [] = none
new (b ∷ []) = new_of_byte b
new (b ∷ c ∷ rest) = new_of_number b (from_str max_u64 (c ∷ rest))

unfoldable pub read : SettlType → Bytes
unfolding to_string
read regular_or_fx_spot_settlement = codes "0"
read cash = codes "1"
read next_day = codes "2"
read t_plus2 = codes "3"
read t_plus3 = codes "4"
read t_plus4 = codes "5"
read future = codes "6"
read when_and_if_issued = codes "7"
read sellers_option = codes "8"
read t_plus5 = codes "9"
read broken_date = codes "B"
read fx_spot_next_settlement = codes "C"
read (days number) = b'D' ∷ to_string number
read (months number) = b'M' ∷ to_string number
read (weeks number) = b'W' ∷ to_string number
read (years number) = b'Y' ∷ to_string number

unfoldable pub field_type : FieldType (Option SettlType)
unfolding new read is_none set_known read_optional
field_type = record {
  default_value = none;
  set_value = λ bytes _. set_known some out_of_range (new bytes);
  is_empty = is_none;
  len = λ _. 0;
  read = read_optional read;
}
