-- ===== src/FieldTypes/Dates/RoundTrip.antt =====
-- src/dictionary/field_types/generic.rs: proofs that dates and times are read back.
use fix_rs.Prelude.{
  ℕ, ◌+◌, ◌*◌, ◌/◌, ◌%◌, ◌<◌, ◌≡◌, refl, ap, ◌∙◌, sym, true, false, some, [], ◌∷◌, Bytes, arith,
  ltb,
}
use fix_rs.Prelude.Int.{ℤ, pos}
use fix_rs.Decimal.Signed.{signed_from_str, max_i32}
use fix_rs.Decimal.Padded.{
  pad_two, pad_three, pad_four, from_str-two, from_str-three, from_digits-four,
}
use fix_rs.Parser.State.{was_set}
use fix_rs.FieldTypes.{FieldType, IsLossless}
use fix_rs.FieldTypes.Dates.{
  max_u32, NaiveDate, NaiveTime, HmsMilli, format_time, DateTime, Chrono, pad_year, format_year,
  is_before_zero, read_date, read_time, write_date, write_time, from_ymd, from_hms_milli,
  local_mkt_date, utc_time_only, set_timestamp, utc_timestamp,
}

-- Four digits, as the year of a date.
year_digits :
    (n : ℕ)
    → n < 10000
    → signed_from_str max_i32 (
        (b'0' + n / 10 / 10 / 10)
        ∷ (b'0' + n / 10 / 10 % 10)
        ∷ (b'0' + n / 10 % 10)
        ∷ (b'0' + n % 10)
        ∷ [])
      ≡ some (pos n)
unfolding signed_from_str
year_digits n h = ground (arith, from_digits-four max_i32 n h (omega arith))

-- What is written of a date, a time and a timestamp.
abbrev pub date_digits : ℕ → ℕ → ℕ → Bytes → Bytes
date_digits y m d rest =
    (b'0' + y / 10 / 10 / 10)
    ∷ (b'0' + y / 10 / 10 % 10)
    ∷ (b'0' + y / 10 % 10)
    ∷ (b'0' + y % 10)
    ∷ (b'0' + m / 10)
    ∷ (b'0' + m % 10)
    ∷ (b'0' + d / 10)
    ∷ (b'0' + d % 10)
    ∷ rest

-- The fields have two digits, and the milliseconds three.
pub record IsPrintable (t : HmsMilli) : Type 0 where
  pub hour : t.hour < 100
  pub minute : t.minute < 100
  pub second : t.second < 100
  pub millisecond : t.millisecond < 1000

unfoldable pub time_digits : HmsMilli → Bytes
time_digits t =
    (b'0' + t.hour / 10)
    ∷ (b'0' + t.hour % 10)
    ∷ b':'
    ∷ (b'0' + t.minute / 10)
    ∷ (b'0' + t.minute % 10)
    ∷ b':'
    ∷ (b'0' + t.second / 10)
    ∷ (b'0' + t.second % 10)
    ∷ b'.'
    ∷ (b'0' + t.millisecond / 10 / 10)
    ∷ (b'0' + t.millisecond / 10 % 10)
    ∷ (b'0' + t.millisecond % 10)
    ∷ []

-- A time in whole milliseconds, by truncation.
abbrev pub to_milli : NaiveTime → HmsMilli
to_milli t = record {
  hour = t.hour;
  minute = t.minute;
  second = t.second;
  millisecond = t.nanosecond / 1000000;
}

abbrev pub truncated : NaiveTime → NaiveTime
truncated t = record t { nanosecond = t.nanosecond / 1000000 * 1000000 }

write_time_lem :
    (t : NaiveTime) → IsPrintable (to_milli t) → write_time t ≡ time_digits (to_milli t)
unfolding write_time time_digits
write_time_lem t p =
    rw
      (
        pad_two t.hour p.hour,
        pad_two t.minute p.minute,
        pad_two t.second p.second,
        pad_three (t.nanosecond / 1000000) p.millisecond,
      )
      refl

format_time_lem : (t : NaiveTime) → IsPrintable (to_milli t) → format_time t ≡ write_time t
unfolding format_time write_time
format_time_lem t p =
    let h = p.millisecond in
    let no_leap : t.nanosecond / 1000000000 ≡ 0 = omega arith in
    let same : t.nanosecond % 1000000000 ≡ t.nanosecond = omega arith in
    let zero : t.second + 0 ≡ t.second = omega arith in rw (no_leap, same, zero) refl

pub read_date_lem :
    (y m d : ℕ) (rest : Bytes)
    → y < 10000
    → m < 100
    → d < 100
    → read_date (date_digits y m d rest) ≡ some (record { year = pos y; month = m; day = d })
unfolding read_date
read_date_lem y m d rest hy hm hd =
    rw
      (
        year_digits y hy,
        from_str-two max_u32 m hm (omega arith),
        from_str-two max_u32 d hd (omega arith),
      )
      refl

read_time_lem : (t : HmsMilli) → IsPrintable t → read_time 0 (time_digits t) ≡ some t
unfolding read_time time_digits
read_time_lem t p =
    rw
      (
        from_str-two max_u32 t.hour p.hour (omega arith),
        from_str-two max_u32 t.minute p.minute (omega arith),
        from_str-two max_u32 t.second p.second (omega arith),
        from_str-three max_u32 t.millisecond p.millisecond (omega arith),
      )
      refl

-- A date that exists, of a year with four digits.
abbrev pub IsWritable : Chrono → NaiveDate → Type 0
IsWritable c d =
    (n : ℕ) × (d.year ≡ pos n)
    × (n < 10000)
    × (d.month < 100)
    × (d.day < 100)
    × (c.is_date d.year d.month d.day ≡ true)

-- A time that exists, with no leap second.
abbrev pub IsTime : Chrono → NaiveTime → Type 0
IsTime c t =
    IsPrintable (to_milli t) × (c.is_time t.hour t.minute t.second (t.nanosecond / 1000000) ≡ true)

-- The values with P are written, and what is read back of them is what `g` makes of them.
abbrev pub ReadsBack : {A : Type 0} → FieldType A → (A → Type 0) → (A → A) → Type 0
ReadsBack {A} f P g =
    (v : A)
    → P v
    → (bytes : Bytes) × (f.read v ≡ some bytes)
      × ((old : A) → f.set_value bytes old ≡ was_set (g v))

ReadsBack-IsLossless :
    {A : Type 0} (f : FieldType A) (P : A → Type 0) (g : A → A)
    → ReadsBack f P g
    → IsLossless f (λ v. P v × (g v ≡ v))
ReadsBack-IsLossless f P g h v (p, e) =
    let (bytes, written, back) = h v p in (bytes, written, λ old. back old ∙ ap was_set e)

date_lem :
    (c : Chrono) (d : NaiveDate) (n : ℕ)
    → d.year ≡ pos n
    → n < 10000
    → d.month < 100
    → d.day < 100
    → write_date d ≡ date_digits n d.month d.day []
unfolding write_date pad_year
date_lem c d n e hy hm hd = rw (e, pad_four n hy, pad_two d.month hm, pad_two d.day hd) refl

not_before_zero : (n : ℕ) → is_before_zero (pos n) ≡ false
unfolding is_before_zero
not_before_zero n = ground arith

module _ (c : Chrono) where
  exists_at :
      (d : NaiveDate) (n : ℕ)
      → d.year ≡ pos n
      → c.is_date d.year d.month d.day ≡ true
      → c.is_date (pos n) d.month d.day ≡ true
  exists_at d n e ok = ap (λ (y : ℤ). c.is_date y d.month d.day) (sym e) ∙ ok

  local_mkt_date-IsLossless : IsLossless (local_mkt_date c) (IsWritable c)
  unfolding local_mkt_date format_year from_ymd
  local_mkt_date-IsLossless d (n, e, hy, hm, hd, ok) =
      let four : ltb n 10000 ≡ true = ground arith in
      (
        date_digits n d.month d.day [],
        rw (e, not_before_zero n, four, pad_four n hy, pad_two d.month hm, pad_two d.day hd) refl,
        λ _.
            rw (read_date_lem n d.month d.day [] hy hm hd, exists_at d n e ok)
              (ap (λ (y : ℤ). was_set (record d { year = y })) (sym e)),
      )

  utc_time_only-ReadsBack : (now : NaiveTime) → ReadsBack (utc_time_only c now) (IsTime c) truncated
  unfolding utc_time_only time_digits from_hms_milli
  utc_time_only-ReadsBack now t (p, ok) = (
    format_time t,
    refl,
    λ _. rw (format_time_lem t p, write_time_lem t p, read_time_lem (to_milli t) p, ok) refl,
  )

  pub read_time_at_nine :
      (t : HmsMilli) (y m d : ℕ)
      → IsPrintable t
      → read_time 9 (date_digits y m d (b'-' ∷ time_digits t)) ≡ some t
  unfolding read_time time_digits
  read_time_at_nine t y m d p =
      rw
        (
          from_str-two max_u32 t.hour p.hour (omega arith),
          from_str-two max_u32 t.minute p.minute (omega arith),
          from_str-two max_u32 t.second p.second (omega arith),
          from_str-three max_u32 t.millisecond p.millisecond (omega arith),
        )
        refl

  timestamp_read :
      (v : DateTime) (n : ℕ)
      → v.date.year ≡ pos n
      → n < 10000
      → v.date.month < 100
      → v.date.day < 100
      → IsPrintable (to_milli v.time)
      → (utc_timestamp c).read v
        ≡ some (date_digits n v.date.month v.date.day (b'-' ∷ time_digits (to_milli v.time)))
  unfolding utc_timestamp
  timestamp_read v n e hy hm hd p =
      rw (date_lem c v.date n e hy hm hd, write_time_lem v.time p, e, not_before_zero n) refl

  set_timestamp_lem :
      (d : NaiveDate) (t : HmsMilli) (n : ℕ)
      → n < 10000
      → d.month < 100
      → d.day < 100
      → IsPrintable t
      → c.is_date (pos n) d.month d.day ≡ true
      → c.is_time t.hour t.minute t.second t.millisecond ≡ true
      → set_timestamp c (date_digits n d.month d.day (b'-' ∷ time_digits t))
        ≡ was_set (record {
          date = record d { year = pos n };
          time = record {
            hour = t.hour;
            minute = t.minute;
            second = t.second;
            nanosecond = t.millisecond * 1000000;
          };
        })
  unfolding set_timestamp time_digits
  set_timestamp_lem d t n hy hm hd p ok fine =
      rw
        (
          read_date_lem n d.month d.day (b'-' ∷ time_digits t) hy hm hd,
          read_time_at_nine t n d.month d.day p,
          ok,
          fine,
        )
        refl

  utc_timestamp-ReadsBack :
      ReadsBack
        (utc_timestamp c)
        (λ v. IsWritable c v.date × IsTime c v.time)
        (λ v. record v { time = truncated v.time })
  unfolding utc_timestamp
  utc_timestamp-ReadsBack v ((n, e, hy, hm, hd, ok), (p, fine)) = (
    date_digits n v.date.month v.date.day (b'-' ∷ time_digits (to_milli v.time)),
    timestamp_read v n e hy hm hd p,
    λ _.
        set_timestamp_lem v.date (to_milli v.time) n hy hm hd p (exists_at v.date n e ok) fine
        ∙ ap
            (λ (y : ℤ).
              was_set (record { date = record v.date { year = y }; time = truncated v.time }))
            (sym e),
  )

  -- Of a date of a year from 0 to 9999, a time of day with no leap second and a timestamp of both, where the calendar has
  -- them, what is read back is the date, and the time truncated to whole milliseconds; so that the dates, and the times and
  -- timestamps in whole milliseconds, are read back as they were.
  pub dates-IsLossless :
      (now : NaiveTime)
      → IsLossless (local_mkt_date c) (IsWritable c)
        × ReadsBack (utc_time_only c now) (IsTime c) truncated
        × IsLossless (utc_time_only c now) (λ t. IsTime c t × (truncated t ≡ t))
        × ReadsBack
            (utc_timestamp c)
            (λ v. IsWritable c v.date × IsTime c v.time)
            (λ v. record v { time = truncated v.time })
        × IsLossless (utc_timestamp c) (λ v.
          (IsWritable c v.date × IsTime c v.time) × (record v { time = truncated v.time } ≡ v))
  dates-IsLossless now = (
    local_mkt_date-IsLossless,
    utc_time_only-ReadsBack now,
    ReadsBack-IsLossless (utc_time_only c now) (IsTime c) truncated (utc_time_only-ReadsBack now),
    utc_timestamp-ReadsBack,
    ReadsBack-IsLossless (utc_timestamp c) (λ v. IsWritable c v.date × IsTime c v.time)
        (λ v. record v { time = truncated v.time }) utc_timestamp-ReadsBack,
  )
