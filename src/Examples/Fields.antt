-- ===== src/Examples/Fields.antt =====
-- Runs of the types of fields and of the writing of messages, and instances of their theorems.
use fix_rs.Prelude.{
  ℕ, ◌%◌, ◌*◌, ◌≤◌, ◌<◌, ◌≡◌, ◌≢◌, refl, ◌↔◌, ◌⊎◌, inl, true, ◌&&◌, ltb, leb, none, some, [], ◌∷◌,
  ◌++◌, Bytes, codes, arith, List, replicate, if◌then◌else◌,
}
use fix_rs.Prelude.Int.{ℤ, pos, negsuc}
use fix_rs.Action.{panicked}
use fix_rs.ByteBuffer.{ByteBuffer, valid_bytes}
use fix_rs.ByteBuffer.Queue.{IsValid}
use fix_rs.Decimal.Signed.{InRange, max_i64}
use fix_rs.FieldTag
use fix_rs.Version.{fix_4_2, fix42, fix40, fix50sp2, tag_end, value_end}
use fix_rs.Parser.State.{
  Parser, Traits, get, nothing, prepare_for_bytes, was_set, set_error, out_of_range, wrong_format,
  contains, contains_key, initial,
}
use fix_rs.Parser.Value.{match_value_end}
use fix_rs.FieldTypes.{IsLossless}
use fix_rs.FieldTypes.Generic.{int, string_type}
use fix_rs.FieldTypes.RoundTrip.{generic-IsLossless}
use fix_rs.FieldTypes.Dates.{
  Chrono, NaiveTime, DateTime, local_mkt_date, utc_time_only, utc_timestamp, time_now,
  new_empty_timestamp,
}
use fix_rs.FieldTypes.Dates.RoundTrip.{
  IsWritable, IsTime, ReadsBack, truncated, date_digits, time_digits, dates-IsLossless,
}
use fix_rs.FieldTypes.Dates.Panics.{time_now-none_iff}
use fix_rs.FieldTypes.MonthYear.{day, month_year}
use fix_rs.FieldTypes.MonthYear.Misread.{misread, month_year-misread}
use fix_rs.FieldTypes.Enum.{
  must_be_char, required, other, known, required_bytes, not_required_bytes, lookup, new_value,
  to_value, reserved,
}
use fix_rs.FieldTypes.Enum.RoundTrip.{IsReservedAt, required_iff, new_value_sound}
use fix_rs.FieldTypes.Enum.Unknown.{other_never_set}
use fix_rs.FieldTypes.Tables.Side
use fix_rs.FieldTypes.Tables.Side.{Side}
use fix_rs.FieldTypes.Tables.TimeUnit
use fix_rs.FieldTypes.Tables.EventType
use fix_rs.FieldTypes.Tables.Lossless.{Side-IsTable}
use fix_rs.FieldTypes.SettlType.{days}
use fix_rs.FieldTypes.SettlType
use fix_rs.FieldTypes.SettlType.RoundTrip.{field_type-IsLossless}
use fix_rs.Message.{
  MessageField, of_type, traits, read_body, set_value, fields, required_fields, first_field,
}
use fix_rs.Message.Reading.{read_into, header_padding_len}
use fix_rs.Message.Frame.{frame, len, read_into_lem}
use fix_rs.Message.Description.{has_field, has_required, fields_lem}
use fix_rs.Message.Fields.{field, plain, written-set_value, stamped_panics}
use fix_rs.Examples.Data.{Fields, new_parser, buffer}

-- A calendar whose months all have 31 days, and the hours of a day.
abbrev chrono : Chrono
chrono = record {
  is_date = λ _ m d. leb 1 m && leb m 12 && leb 1 d && leb d 31;
  is_time = λ h m s _. ltb h 24 && ltb m 60 && ltb s 60;
}

abbrev noon : NaiveTime
noon = record { hour = 12; minute = 30; second = 5; nanosecond = 250123456 }

dates-IsLossless_example :
    IsLossless (local_mkt_date chrono) (IsWritable chrono)
    × ReadsBack (utc_time_only chrono noon) (IsTime chrono) truncated
    × IsLossless (utc_time_only chrono noon) (λ t. IsTime chrono t × (truncated t ≡ t))
    × ReadsBack
        (utc_timestamp chrono)
        (λ v. IsWritable chrono v.date × IsTime chrono v.time)
        (λ v. record v { time = truncated v.time })
    × IsLossless (utc_timestamp chrono) (λ v.
      (IsWritable chrono v.date × IsTime chrono v.time)
      × (record v { time = truncated v.time } ≡ v))
dates-IsLossless_example = dates-IsLossless chrono noon

chrono_times : (h m s : ℕ) → (chrono.is_time h m s 0 ≡ true) ↔ ((h < 24) × (m < 60) × (s < 60))
chrono_times h m s = ground arith

time_now-none_iff_example : (time_now chrono 100000 ≡ none) ↔ (24 ≤ 100000 % (24 * 60 * 60))
time_now-none_iff_example = time_now-none_iff chrono chrono_times 100000

month_year-misread_example :
    (bytes : Bytes) × ((month_year (λ s. s)).read
        (record { year = pos 2016; month = 12; remainder = some (day 31) })
      ≡ some bytes)
    × ((month_year (λ s. s)).set_value bytes
          (record { year = negsuc 0; month = 1; remainder = none })
        ≡ (if ltb 12 10
            then set_error wrong_format
            else was_set
                (record { year = pos 2016; month = 1; remainder = misread (some (day 31)) })))
month_year-misread_example =
    month_year-misread (λ s. s) (λ s _. refl) 2016 12 (some (day 31))
      (record { year = negsuc 0; month = 1; remainder = none }) (omega arith) (omega arith)
      (omega arith) (omega arith)

required_iff_example :
    ((required Side.to_bytes Side.buy Side.all must_be_char).set_value (codes "2") Side.buy
      ≡ was_set Side.sell)
    ↔ (Side.to_bytes Side.sell ≡ codes "2")
required_iff_example =
    required_iff Side.to_bytes Side.buy Side.all Side-IsTable must_be_char (codes "2") Side.buy
      Side.sell

new_value_sound_example :
    (to_value EventType.value_of EventType.put EventType.all (pos 100) (reserved (pos 120))
      ≡ pos 120)
    × IsReservedAt EventType.value_of EventType.put EventType.all (pos 100) (reserved (pos 120))
unfolding new_value lookup EventType.value_of
new_value_sound_example =
    new_value_sound EventType.value_of EventType.put EventType.all (pos 100) (pos 120)
      (reserved (pos 120)) refl

other_never_set_example :
    ((required_bytes TimeUnit.to_bytes TimeUnit.hour TimeUnit.all).read (other (codes "Q"))
      ≡ some (codes "Q"))
    × ((not_required_bytes TimeUnit.to_bytes TimeUnit.hour TimeUnit.all).read
          (some (other (codes "Q")))
        ≡ some (codes "Q"))
    × ((required_bytes TimeUnit.to_bytes TimeUnit.hour TimeUnit.all).set_value
          (codes "Q")
          (known TimeUnit.hour)
        ≢ was_set (other (codes "Q")))
    × ((not_required_bytes TimeUnit.to_bytes TimeUnit.hour TimeUnit.all).set_value (codes "Q") none
        ≢ was_set (some (other (codes "Q"))))
    × (lookup TimeUnit.to_bytes TimeUnit.all (codes "Q") ≡ none
        → ((required_bytes TimeUnit.to_bytes TimeUnit.hour TimeUnit.all).set_value
              (codes "Q")
              (known TimeUnit.hour)
            ≡ set_error out_of_range)
          × ((not_required_bytes TimeUnit.to_bytes TimeUnit.hour TimeUnit.all).set_value
                (codes "Q")
                none
              ≡ was_set none))
other_never_set_example =
    other_never_set TimeUnit.to_bytes TimeUnit.hour TimeUnit.all (codes "Q") (codes "Q")
      (known TimeUnit.hour) none

read_into_lem_example :
    ((len fix_4_2 (codes "x") (codes "y") ≤ header_padding_len)
      × (b : ByteBuffer) × (read_into fix_4_2 (codes "x") (codes "y") buffer ≡ some b)
      × IsValid b
      × (valid_bytes b ≡ frame fix_4_2 (codes "x") (codes "y")))
    ⊎ ((header_padding_len < len fix_4_2 (codes "x") (codes "y"))
        × (read_into fix_4_2 (codes "x") (codes "y") buffer ≡ none))
read_into_lem_example = read_into_lem fix_4_2 (codes "x") (codes "y") buffer

-- What is written of a message with a type of one byte and no body, up to the checksum field, and a parser that has read it.
abbrev covered : Bytes
covered = codes "8=FIX.4.2" ++ (1 ∷ (codes "9=5" ++ (1 ∷ (codes "35=0" ++ (1 ∷ [])))))

abbrev at_own_checksum : Parser (Unit {0}) Fields
at_own_checksum = record new_parser { current_bytes = codes "161"; checksum = 216 }

abbrev written_buffer : ByteBuffer
written_buffer = record {
  bytes = replicate 13 0 ++ (covered ++ (codes "10=161" ++ (1 ∷ [])));
  valid_bytes_begin = 13;
  valid_bytes_end = 39;
}

-- Messages of one number.
abbrev number : MessageField (Unit {0}) ℤ
number = field int (λ v. v) (λ v _. v) 34 true fix40 fix50sp2 nothing

fields_lem_example :
    (contains_key 34 (fields fix42 (number ∷ [])) ≡ has_field fix42 34 (number ∷ []))
    × (contains 34 (required_fields fix42 (number ∷ [])) ≡ has_required fix42 34 (number ∷ []))
    × (contains 34 (required_fields fix42 (number ∷ [])) ≡ true
        → contains_key 34 (fields fix42 (number ∷ [])) ≡ true)
    × ((contains_key (first_field fix42 (number ∷ [])) (fields fix42 (number ∷ [])) ≡ true)
        ⊎ (fields fix42 (number ∷ []) ≡ []))
fields_lem_example = fields_lem fix42 (number ∷ []) 34

in_range : InRange max_i64 (negsuc 41)
in_range = omega arith

-- Another field that stands before it, never written.
abbrev empty_group : MessageField (Unit {0}) ℤ
empty_group = field int (λ v. v) (λ v _. v) 33 true fix40 fix50sp2 (prepare_for_bytes 34)

written-set_value_example :
    (value : Bytes) × (read_body ((empty_group ∷ []) ++ (number ∷ [])) fix_4_2 fix42 (negsuc 41)
      ≡ some
          ([] ++ (([] ++ (FieldTag.to_bytes 34 ++ (tag_end ∷ (value ++ (value_end ∷ []))))) ++ [])))
    × (set_value ((empty_group ∷ []) ++ (number ∷ [])) 34 value (pos 0) ≡ was_set (negsuc 41))
unfolding read_body of_type
written-set_value_example =
    written-set_value {B = Unit {0}} int (λ v. v) (λ v _. v) 34 true fix40 fix50sp2
      generic-IsLossless.5 fix_4_2 fix42 (negsuc 41) (pos 0) (empty_group ∷ []) [] nothing [] [] []
      plain in_range (inl refl) refl (refl, tt) refl refl

-- Messages whose SenderCompID stands before their time.
abbrev stamp_fields : List (MessageField (Unit {0}) DateTime)
stamp_fields =
    field string_type (λ _. codes "US") (λ _ v. v) 49 true fix40 fix50sp2 nothing
    ∷ field (utc_timestamp chrono) (λ v. v) (λ v _. v) 52 true fix40 fix50sp2 nothing
    ∷ []

abbrev stamp_traits : Traits (Unit {0}) DateTime
stamp_traits =
    traits (λ _. stamp_fields) (λ _. new_empty_timestamp) (λ _. tt) (λ _ v. v) (λ _. codes "0")
      new_empty_timestamp

-- A text of no date, of the thirteenth month.
abbrev no_date : Bytes
no_date =
    date_digits 2016 13 1
      (b'-' ∷ time_digits (record { hour = 12; minute = 30; second = 5; millisecond = 250 }))

abbrev stamp_parser : Parser (Unit {0}) DateTime
stamp_parser = record (initial stamp_traits ((codes "0", tt) ∷ []) 4096 []) {
  found_tag_count = 6;
  current_tag = 52;
  current_bytes = no_date;
  remaining_fields = (52, nothing) ∷ [];
}

stamped_panics_example : (match_value_end stamp_traits stamp_parser).0 ≡ panicked
unfolding of_type initial get
stamped_panics_example =
    stamped_panics chrono (λ v. v) (λ v _. v) 52 true fix40 fix50sp2 (λ _. stamp_fields)
      (λ _. new_empty_timestamp) (λ _. tt) (λ _ v. v) (λ _. codes "0") new_empty_timestamp 2016 13 1
      (record { hour = 12; minute = 30; second = 5; millisecond = 250 }) stamp_parser
      (field string_type (λ _. codes "US") (λ _ v. v) 49 true fix40 fix50sp2 nothing ∷ []) []
      (omega arith) (omega arith) (omega arith) (omega arith) refl (refl, tt)
      (record {
        in_body = omega arith;
        no_group = refl;
        current_tag = refl;
        current_bytes = refl;
        not_checksum = refl;
        awaited = refl;
      })
      (inl refl)

settl_type_example :
    (bytes : Bytes) × (SettlType.field_type.read (some (days 3)) ≡ some bytes)
    × ((old : _) → SettlType.field_type.set_value bytes old ≡ was_set (some (days 3)))
settl_type_example = field_type-IsLossless (some (days 3)) (omega arith, omega arith)
