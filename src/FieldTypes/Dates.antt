-- ===== src/FieldTypes/Dates.antt =====
-- src/dictionary/field_types/generic.rs: the types of dates and times. Which dates and times there are is
-- chrono's knowledge and a parameter; its constructors panic on the others. A date in chrono's form is
-- its year, month and day, and a time is its hour, minute, second and nanosecond, where a leap second has more than
-- 999999999 of these.
pub mod RoundTrip
pub mod Panics
use fix_rs.Prelude.{
  ℕ, ◌+◌, ◌-◌, ◌*◌, ◌/◌, ◌%◌, ◌^◌, Bool, true, false, not, ◌&&◌, ◌||◌, Option, none, some, [], ◌∷◌,
  ◌++◌, ◌==◌, ltb, if◌then◌else◌, Bytes, length, take, drop, get_elem?,
}
use fix_rs.Prelude.Int.{ℤ, pos, negsuc, ltb_ℤ}
use fix_rs.Action.{if_let}
use fix_rs.Decimal.{to_string, from_str}
use fix_rs.Decimal.Signed.{signed_from_str, signed_to_string, max_i32}
use fix_rs.Decimal.Padded.{pad}
use fix_rs.Parser.State.{SetValue, was_set, set_error, set_panicked, wrong_format}
use fix_rs.FieldTypes.{FieldType, set_or_panic}

abbrev pub max_u32 : ℕ
max_u32 = 2 ^ 32 - 1

pub record NaiveDate : Type 0 where
  pub year : ℤ
  pub month : ℕ
  pub day : ℕ

pub record NaiveTime : Type 0 where
  pub hour : ℕ
  pub minute : ℕ
  pub second : ℕ
  pub nanosecond : ℕ

-- The arguments of `from_hms_milli`.
pub record HmsMilli : Type 0 where
  pub hour : ℕ
  pub minute : ℕ
  pub second : ℕ
  pub millisecond : ℕ

pub record DateTime : Type 0 where
  pub date : NaiveDate
  pub time : NaiveTime

pub record Chrono : Type 0 where
  pub is_date : ℤ → ℕ → ℕ → Bool
  pub is_time : ℕ → ℕ → ℕ → ℕ → Bool

-- `&bytes[a..b]`, where the range lies in the bytes.
unfoldable pub slice : ℕ → ℕ → Bytes → Bytes
slice a b bytes = take (b - a) (drop a bytes)

-- `bytes[i] == c`, where the index lies in the bytes.
unfoldable pub byte_is : ℕ → ℕ → Bytes → Bool
byte_is i c bytes = elim (get_elem? bytes i) [ none ↦ false | some b ↦ b == c ]

-- `{:04}` of a signed year: the sign counts as one of the characters.
unfoldable pub pad_year : ℤ → Bytes
unfolding pad
pad_year (pos n) = pad 4 n
pad_year (negsuc n) = b'-' ∷ pad 3 (n + 1)

-- chrono's `%Y`, which puts a sign before a year that four digits do not hold.
unfoldable pub format_year : ℤ → Bytes
unfolding pad to_string
format_year (pos n) = if ltb n 10000 then pad 4 n else b'+' ∷ to_string n
format_year (negsuc n) = b'-' ∷ pad 4 (n + 1)

unfoldable pub is_before_zero : ℤ → Bool
is_before_zero year = ltb_ℤ year (pos 0)

-- The year -1 stands for an empty value.
abbrev pub new_empty_date : NaiveDate
new_empty_date = record { year = negsuc 0; month = 1; day = 1 }

abbrev pub new_empty_timestamp : DateTime
new_empty_timestamp = record {
  date = new_empty_date;
  time = record { hour = 0; minute = 0; second = 0; nanosecond = 0 };
}

unfoldable pub two_digits : ℕ → Bytes → Option ℕ
unfolding slice from_str
two_digits at bytes = from_str max_u32 (slice at (at + 2) bytes)

unfoldable pub read_date : Bytes → Option NaiveDate
unfolding slice signed_from_str two_digits
read_date bytes =
    if_let (signed_from_str max_i32 (slice 0 4 bytes))
      (λ y.
        if_let (two_digits 4 bytes)
          (λ m.
            if_let (two_digits 6 bytes) (λ d. some (record { year = y; month = m; day = d })) none)
          none)
      none

-- The milliseconds from `at` on, if there are any.
unfoldable pub read_milliseconds : ℕ → Bytes → Option ℕ
unfolding slice from_str byte_is
read_milliseconds at bytes =
    if length bytes == at
    then some 0
    else if (length bytes == at + 4) && byte_is at b'.' bytes
    then from_str max_u32 (slice (at + 1) (at + 4) bytes)
    else none

-- A time from `at` on: `HH:MM:SS`, with or without milliseconds.
unfoldable pub read_time : ℕ → Bytes → Option HmsMilli
unfolding two_digits read_milliseconds
read_time at bytes =
    if_let (two_digits at bytes)
      (λ h.
        if_let (two_digits (at + 3) bytes)
          (λ m.
            if_let (two_digits (at + 6) bytes)
              (λ s.
                if_let (read_milliseconds (at + 8) bytes)
                  (λ ms. some (record { hour = h; minute = m; second = s; millisecond = ms })) none)
              none)
          none)
      none

unfoldable pub write_date : NaiveDate → Bytes
unfolding pad_year pad
write_date d = pad_year d.year ++ (pad 2 d.month ++ pad 2 d.day)

unfoldable pub write_time : NaiveTime → Bytes
unfolding pad
write_time t =
    pad 2 t.hour
    ++ (b':'
        ∷ (pad 2 t.minute ++ (b':' ∷ (pad 2 t.second ++ (b'.' ∷ pad 3 (t.nanosecond / 1000000))))))

-- chrono's `%T%.3f`, which counts a leap second as one more second.
unfoldable pub format_time : NaiveTime → Bytes
unfolding write_time
format_time t = write_time (record t {
  second = t.second + t.nanosecond / 1000000000;
  nanosecond = t.nanosecond % 1000000000;
})

module _ (c : Chrono) where
  -- `NaiveDate::from_ymd`.
  unfoldable pub from_ymd : NaiveDate → Option NaiveDate
  from_ymd d = if c.is_date d.year d.month d.day then some d else none

  -- `NaiveTime::from_hms_milli`.
  unfoldable pub from_hms_milli : HmsMilli → Option NaiveTime
  from_hms_milli t =
      if c.is_time t.hour t.minute t.second t.millisecond
      then some (record {
        hour = t.hour;
        minute = t.minute;
        second = t.second;
        nanosecond = t.millisecond * 1000000;
      })
      else none

  unfoldable pub and_hms_milli : NaiveDate → HmsMilli → Option DateTime
  unfolding from_ymd from_hms_milli
  and_hms_milli d t =
      if_let (from_ymd d)
        (λ d'. if_let (from_hms_milli t) (λ t'. some (record { date = d'; time = t' })) none) none

  unfoldable pub set_date : Bytes → SetValue NaiveDate
  unfolding read_date from_ymd set_or_panic
  set_date bytes =
      if not (length bytes == 8)
      then set_error wrong_format
      else if_let (read_date bytes) (λ d. set_or_panic (from_ymd d)) (set_error wrong_format)

  unfoldable pub local_mkt_date : FieldType NaiveDate
  unfolding set_date is_before_zero format_year pad
  local_mkt_date = record {
    default_value = new_empty_date;
    set_value = λ bytes _. set_date bytes;
    is_empty = λ d. is_before_zero d.year;
    len = λ _. 0;
    read = λ d.
        if is_before_zero d.year
        then none
        else some (format_year d.year ++ (pad 2 d.month ++ pad 2 d.day));
  }

  unfoldable pub set_time : Bytes → SetValue NaiveTime
  unfolding read_time from_hms_milli byte_is set_or_panic
  set_time bytes =
      if ltb (length bytes) 8 || not (byte_is 2 b':' bytes) || not (byte_is 5 b':' bytes)
      then set_error wrong_format
      else if_let (read_time 0 bytes) (λ t. set_or_panic (from_hms_milli t))
          (set_error wrong_format)

  -- `UTCTimeOnlyFieldType::new_now`, from the seconds since 1970: `none` is the panic of `from_hms`.
  unfoldable pub time_now : ℕ → Option NaiveTime
  unfolding from_hms_milli
  time_now sec = from_hms_milli (record {
    hour = sec % (24 * 60 * 60);
    minute = sec % (60 * 60);
    second = sec % 60;
    millisecond = 0;
  })

  -- The default is the time at which the field is made.
  unfoldable pub utc_time_only : NaiveTime → FieldType NaiveTime
  unfolding set_time format_time
  utc_time_only now = record {
    default_value = now;
    set_value = λ bytes _. set_time bytes;
    is_empty = λ _. false;
    len = λ _. 0;
    read = λ t. some (format_time t);
  }

  unfoldable pub set_timestamp : Bytes → SetValue DateTime
  unfolding read_date read_time and_hms_milli byte_is set_or_panic
  set_timestamp bytes =
      if ltb (length bytes) 17
        || not (byte_is 8 b'-' bytes)
        || not (byte_is 11 b':' bytes)
        || not (byte_is 14 b':' bytes)
      then set_error wrong_format
      else if_let (read_date bytes)
          (λ d.
            if_let (read_time 9 bytes) (λ t. set_or_panic (and_hms_milli d t))
              (set_error wrong_format))
          (set_error wrong_format)

  unfoldable pub utc_timestamp : FieldType DateTime
  unfolding set_timestamp is_before_zero write_date write_time
  utc_timestamp = record {
    default_value = new_empty_timestamp;
    set_value = λ bytes _. set_timestamp bytes;
    is_empty = λ v. is_before_zero v.date.year;
    len = λ _. 0;
    read = λ v.
        if is_before_zero v.date.year
        then none
        else some (write_date v.date ++ (b'-' ∷ write_time v.time));
  }
