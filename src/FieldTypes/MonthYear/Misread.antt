-- ===== src/FieldTypes/MonthYear/Misread.antt =====
-- src/dictionary/field_types/generic.rs: proofs on how `MonthYear::new` misreads the month, and the day.
use fix_rs.Prelude.{
  ℕ, zero, suc, ◌+◌, ◌/◌, ◌%◌, ◌≤◌, ◌<◌, ◌≡◌, refl, true, false, ◌||◌, Option, none, some, [], ◌∷◌,
  ◌==◌, ltb, leb, if◌then◌else◌, Bytes, length, get_elem?, All, arith, Bool-cases, inl, inr,
}
use fix_rs.Prelude.Int.{pos}
use fix_rs.Action.{done}
use fix_rs.Decimal.{from_str, max_u8}
use fix_rs.Decimal.Signed.{signed_from_str, max_i16}
use fix_rs.Decimal.Padded.{pad_two, pad_four, from_digits-four, to_string-small, to_string-big}
use fix_rs.Parser.State.{was_set, set_error, wrong_format}
use fix_rs.FieldTypes.Dates.{slice, byte_is, pad_year}
use fix_rs.FieldTypes.MonthYear.{
  MonthYear, MonthYearRemainder, day, week, ◌>>=◌, guard, is_char_boundary, str_slice, day_of,
  read_remainder, is_year, is_month, new_from, new, set_month_year, write_remainder, month_year,
}

abbrev pub IsAscii : Bytes → Type 0
IsAscii = All (λ b. b < 128)

boundary_lem :
    (s t : Bytes) (i : ℕ) → IsAscii s → IsAscii t → i ≤ length s → is_char_boundary i s ≡ true
unfolding is_char_boundary
boundary_lem s t i h k l = elim (Bool-cases (i == length s)) [
  | inl e ↦ rw e refl
  | inr e ↦ rw e (inside s i h (ground arith))
]
  where
    inside :
        (s : Bytes) (i : ℕ)
        → IsAscii s
        → i < length s
        → elim (get_elem? s i) [ none ↦ false | some b ↦ ltb b 128 || leb 192 b ] ≡ true
    inside [] i h l = absurd (omega arith)
    inside (b ∷ s) zero h l =
        let low : ltb b 128 ≡ true = (let p = h.0 in ground arith) in rw low refl
    inside (b ∷ s) (suc i) h l = inside s i h.1 (omega arith)

str_slice-ascii :
    (a b : ℕ) (s : Bytes) → IsAscii s → a ≤ b → b ≤ length s → str_slice a b s ≡ done (slice a b s)
unfolding str_slice
str_slice-ascii a b s h l k =
    let order : leb a b ≡ true = ground arith in
    rw (order, boundary_lem s s a h h (omega arith), boundary_lem s s b h h k) refl

-- The bytes of a year and a month, before others.
abbrev digits : ℕ → ℕ → Bytes → Bytes
digits y m rest =
    (b'0' + y / 10 / 10 / 10)
    ∷ (b'0' + y / 10 / 10 % 10)
    ∷ (b'0' + y / 10 % 10)
    ∷ (b'0' + y % 10)
    ∷ (b'0' + m / 10)
    ∷ (b'0' + m % 10)
    ∷ rest

digits-IsAscii :
    (y m : ℕ) (rest : Bytes) → y < 10000 → m < 100 → IsAscii rest → IsAscii (digits y m rest)
digits-IsAscii y m rest hy hm h =
    (omega arith, (omega arith, (omega arith, (omega arith, (omega arith, (omega arith, h))))))

year_lem :
    (y : ℕ)
    → y < 10000
    → signed_from_str max_i16 (
        (b'0' + y / 10 / 10 / 10)
        ∷ (b'0' + y / 10 / 10 % 10)
        ∷ (b'0' + y / 10 % 10)
        ∷ (b'0' + y % 10)
        ∷ [])
      ≡ some (pos y)
unfolding signed_from_str
year_lem y h = ground (arith, from_digits-four max_i16 y h (omega arith))

is_year_lem : (y : ℕ) → y < 10000 → is_year (pos y) ≡ true
unfolding is_year
is_year_lem y h = ground arith

-- Only the first digit of the month is read.
month_lem : (m : ℕ) → m < 100 → from_str max_u8 ((b'0' + m / 10) ∷ []) ≡ some (m / 10)
unfolding from_str
month_lem m h = ground arith

-- What `new` makes of a year and a month, and of what follows.
new_lem :
    (y m : ℕ) (rest : Bytes)
    → y < 10000
    → m < 100
    → IsAscii rest
    → length rest ≤ 2
    → new_from (digits y m rest) (digits y m rest) ≡ (
        guard (is_month (m / 10)) >>= λ _.
        read_remainder (digits y m rest) (digits y m rest) >>= λ remainder.
        done (record { year = pos y; month = m / 10; remainder = remainder }))
unfolding new_from slice
new_lem y m rest hy hm h l =
    let ascii = digits-IsAscii y m rest hy hm h in
    rw
      (
        str_slice-ascii 0 4 (digits y m rest) ascii (omega arith) (omega arith),
        year_lem y hy,
        is_year_lem y hy,
        str_slice-ascii 4 5 (digits y m rest) ascii (omega arith) (omega arith),
        month_lem m hm,
      )
      refl

-- The day that is read of a day, and the remainders that this is about.
abbrev pub first_digit : ℕ → ℕ
first_digit d = if ltb d 10 then d else d / 10

abbrev pub misread : Option MonthYearRemainder → Option MonthYearRemainder
misread none = none
misread (some (day d)) = some (day (first_digit d))
misread (some (week w)) = some (week w)

abbrev pub IsPlain : Option MonthYearRemainder → Type 0
IsPlain none = Unit
IsPlain (some (day d)) = (1 ≤ d) × (d ≤ 31)
IsPlain (some (week w)) = ⊥

digit_lem : (d : ℕ) → d < 10 → from_str max_u8 ((b'0' + d) ∷ []) ≡ some d
unfolding from_str
digit_lem d h = ground arith

not_week : (y m c : ℕ) (rest : Bytes) → c < 119 → byte_is 6 b'w' (digits y m (c ∷ rest)) ≡ false
unfolding byte_is
not_week y m c rest h = ground arith

day_of_lem : (d : ℕ) → 1 ≤ d → d ≤ 31 → day_of (some d) ≡ done (some (day d))
unfolding day_of
day_of_lem d h k = ground arith

one_digit :
    (y m d : ℕ) (rest : Bytes)
    → y < 10000
    → m < 100
    → 1 ≤ d
    → d < 10
    → IsAscii rest
    → length rest ≤ 1
    → read_remainder (digits y m ((b'0' + d) ∷ rest)) (digits y m ((b'0' + d) ∷ rest))
      ≡ done (some (day d))
unfolding read_remainder slice
one_digit y m d rest hy hm h k a l =
    let s = digits y m ((b'0' + d) ∷ rest) in
    let long : leb (length s) 6 ≡ false = ground arith in
    rw
      (
        long,
        not_week y m (b'0' + d) rest (omega arith),
        str_slice-ascii 6 7 s (digits-IsAscii y m ((b'0' + d) ∷ rest) hy hm (omega arith, a))
            (omega arith) (omega arith),
        digit_lem d k,
      )
      (day_of_lem d h (omega arith))

-- The remainder that is read, and the length and the bytes of what was written.
remainder_lem :
    (y m : ℕ) (r : Option MonthYearRemainder)
    → y < 10000
    → m < 100
    → IsPlain r
    → (read_remainder (digits y m (write_remainder r)) (digits y m (write_remainder r))
        ≡ done (misread r))
      × IsAscii (write_remainder r)
      × (length (write_remainder r) ≤ 2)
unfolding write_remainder read_remainder
remainder_lem y m none hy hm h = (refl, tt, omega arith)
remainder_lem y m (some (week w)) hy hm h = absurd h
remainder_lem y m (some (day d)) hy hm h = elim (Bool-cases (ltb d 10)) [
  | inl e ↦
      rw (to_string-small d (ground arith), e)
        (
          one_digit y m d [] hy hm h.0 (ground arith) tt (omega arith),
          (omega arith, tt),
          omega arith,
        )
  | inr e ↦
      let ten : 10 ≤ d = ground arith in
      rw (to_string-big d ten, to_string-small (d / 10) (omega arith), e)
        (
          one_digit y m (d / 10) ((b'0' + d % 10) ∷ []) hy hm (omega arith) (omega arith)
              (omega arith, tt) (omega arith),
          (omega arith, (omega arith, tt)),
          omega arith,
        )
]

month_cases :
    (y m : ℕ) (r : Option MonthYearRemainder)
    → 1 ≤ m
    → m ≤ 12
    → set_month_year (
        guard (is_month (m / 10)) >>= λ _.
        done (record { year = pos y; month = m / 10; remainder = r }))
      ≡ (if ltb m 10
          then set_error wrong_format
          else was_set (record { year = pos y; month = 1; remainder = r }))
unfolding is_month set_month_year
month_cases y m r h k = elim (Bool-cases (ltb m 10)) [
  | inl e ↦ (let z : m / 10 ≡ 0 = (let l : m < 10 = ground arith in omega arith) in rw (e, z) refl)
  | inr e ↦ (let z : m / 10 ≡ 1 = (let l : 10 ≤ m = ground arith in omega arith) in rw (e, z) refl)
]

module _ (from_utf8_lossy : Bytes → Bytes)
    (ascii_stays : (s : Bytes) → IsAscii s → from_utf8_lossy s ≡ s) where
  -- Where the lossy string of ASCII is that ASCII: a month of a year from 0 to 9999, alone or with a day, can be written, but is not read back: no month from January
  -- to September is accepted, and the others are read as January; of a day with two digits the first one is read.
  pub month_year-misread :
      (y m : ℕ) (r : Option MonthYearRemainder) (old : MonthYear)
      → y < 10000
      → 1 ≤ m
      → m ≤ 12
      → IsPlain r
      → (bytes : Bytes) × ((month_year from_utf8_lossy).read
            (record { year = pos y; month = m; remainder = r })
          ≡ some bytes)
        × ((month_year from_utf8_lossy).set_value bytes old ≡ (
            if ltb m 10
            then set_error wrong_format
            else was_set (record { year = pos y; month = 1; remainder = misread r })))
  unfolding month_year new pad_year
  month_year-misread y m r old hy h k plain =
      let (back, ascii, short) = remainder_lem y m r hy (omega arith) plain in
      let size : (ltb (length (digits y m (write_remainder r))) 6
            || ltb 8 (length (digits y m (write_remainder r))))
          ≡ false =
        ground arith in
      (
        digits y m (write_remainder r),
        rw (pad_four y hy, pad_two m (omega arith)) refl,
        rw
            (
              size,
              ascii_stays _ (digits-IsAscii y m (write_remainder r) hy (omega arith) ascii),
              new_lem y m (write_remainder r) hy (omega arith) ascii short,
              back,
            )
            (month_cases y m (misread r) h k),
      )
