-- ===== src/FieldTypes/Dates/Panics.antt =====
-- src/dictionary/field_types/generic.rs: proofs on where chrono's constructors panic.
use fix_rs.Prelude.{
  ℕ, ◌*◌, ◌%◌, ◌≤◌, ◌<◌, ◌≡◌, refl, ◌↔◌, ◌⊎◌, inl, inr, Bool, true, false, none, some, ◌∷◌, arith,
  Bool-cases, if◌then◌else◌, ltb,
}
use fix_rs.Prelude.Int.{pos}
use fix_rs.Action.{if_let}
use fix_rs.Parser.State.{set_panicked}
use fix_rs.FieldTypes.{set_or_panic}
use fix_rs.FieldTypes.Dates.{
  Chrono, NaiveDate, HmsMilli, DateTime, from_hms_milli, and_hms_milli, set_timestamp, time_now,
}
use fix_rs.FieldTypes.Dates.RoundTrip.{
  IsPrintable, date_digits, time_digits, read_date_lem, read_time_at_nine,
}

module _ (c : Chrono) where
  made_iff :
      (d : NaiveDate) (t : HmsMilli)
      → (set_or_panic (and_hms_milli c d t) ≡ set_panicked) ↔ (
          (c.is_date d.year d.month d.day ≡ false)
          ⊎ (c.is_time t.hour t.minute t.second t.millisecond ≡ false))
  unfolding and_hms_milli set_or_panic
  made_iff d t =
      go (c.is_date d.year d.month d.day) (c.is_time t.hour t.minute t.second t.millisecond)
    where
      go :
          (a b : Bool)
          → (set_or_panic {A = DateTime} (
                if_let
                  (if a then some d else none)
                  (λ d'.
                    if_let
                      (if b
                        then some (record {
                          hour = t.hour;
                          minute = t.minute;
                          second = t.second;
                          nanosecond = t.millisecond * 1000000;
                        })
                        else none)
                      (λ t'. some (record { date = d'; time = t' }))
                      none)
                  none)
              ≡ set_panicked)
            ↔ ((a ≡ false) ⊎ (b ≡ false))
      go true true = ((λ e. cc), (λ e. elim e [ inl f ↦ cc | inr f ↦ cc ]))
      go true false = ((λ e. inr refl), (λ e. refl))
      go false b = ((λ e. inl refl), (λ e. refl))

  -- A text in the form of a timestamp, with a year of four digits and milliseconds, makes `set_value` panic exactly
  -- where there is no such date or no such time.
  pub set_timestamp_panics_iff :
      (y m d : ℕ) (t : HmsMilli)
      → y < 10000
      → m < 100
      → d < 100
      → IsPrintable t
      → (set_timestamp c (date_digits y m d (b'-' ∷ time_digits t)) ≡ set_panicked) ↔ (
          (c.is_date (pos y) m d ≡ false)
          ⊎ (c.is_time t.hour t.minute t.second t.millisecond ≡ false))
  unfolding set_timestamp time_digits
  set_timestamp_panics_iff y m d t hy hm hd p =
      rw (read_date_lem y m d (b'-' ∷ time_digits t) hy hm hd, read_time_at_nine c t y m d p)
        (made_iff (record { year = pos y; month = m; day = d }) t)

  -- Where chrono has the 24 hours of a day, the time of a new field is made only in the first 24 seconds of a day, and
  -- panics at all other times.
  pub time_now-none_iff :
      ((h m s : ℕ) → (c.is_time h m s 0 ≡ true) ↔ ((h < 24) × (m < 60) × (s < 60)))
      → (sec : ℕ) → (time_now c sec ≡ none) ↔ (24 ≤ sec % (24 * 60 * 60))
  unfolding time_now from_hms_milli
  time_now-none_iff law sec =
      elim (Bool-cases (c.is_time (sec % (24 * 60 * 60)) (sec % (60 * 60)) (sec % 60) 0)) [
        | inl e ↦ rw e ((λ n. cc), (λ h. let l = (law _ _ _).0 e in absurd (omega arith)))
        | inr e ↦ rw e (
          (λ n. elim (Bool-cases (ltb (sec % (24 * 60 * 60)) 24)) [
            | inl f ↦
                (let early : sec % (24 * 60 * 60) < 24 = ground arith in
                  cc (
                    (law (sec % (24 * 60 * 60)) (sec % (60 * 60)) (sec % 60)).1
                      (early, omega arith, omega arith)))
            | inr f ↦ ground arith
          ]),
          (λ h. refl),
        )
      ]
