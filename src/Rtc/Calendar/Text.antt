-- ===== src/Rtc/Calendar/Text.antt =====
-- TIMESTAMP_TO_STRING gives the date and the time that a Unix time was made from.
use shadow_os.Base.{
  ℕ, zero, suc, ◌+◌, ◌-◌, ◌*◌, ◌/◌, ◌%◌, ◌^◌, ◌≤◌, ◌<◌, ◌≡◌, refl, ◌∙◌, if◌then◌else◌, arith, ap,
  length, take, drop,
}
use shadow_os.Base.Outcome.{ok}
use shadow_os.Memory.Chars.{Chars}
use shadow_os.Rtc.{
  is_leap_year, month_length, day_to_length, days_of_years, days_of_months, Date, IsDate,
  timestamp_of, unix_timestamp, december, months_to,
}
use shadow_os.Rtc.Calendar.{
  find_year, days_in, find_month, write_fields, year_after, years_mono, find_year_lem, days_in_lem,
  month_after, months_mono, find_month_lem, timestamp_to_string, number_of,
}

-- the days before a date in its year
abbrev day_of_year : Date → ℕ
day_of_year d = days_of_months d.year (d.month - 1) + (d.day - 1)

day_of_year-lt : (d : Date) → IsDate d → day_of_year d < (if is_leap_year d.year then 366 else 365)
day_of_year-lt d v =
    let later = months_mono d.year d.month (12 - d.month) in
    let all : d.month + (12 - d.month) ≡ 12 = omega (arith, v.month_to) in
    let end = month_after d.year 11 in
    omega (
      arith,
      v.day_from,
      day_to_length d v,
      months_to d.year d.month v.month_from,
      rw all at later,
      december d.year,
      end,
      days_in_lem d.year 11,
    )

last_year : days_of_years 136 ≡ 49673
unfolding days_of_years is_leap_year
last_year = refl

-- The text is a date and a time: the fields are decimal numbers of fixed widths.
pub record Writes (d : Date) (h m s : ℕ) (text : Chars) : Type 0 where
  pub width : length text ≡ 19
  pub year_is : number_of (take 4 text) 0 ≡ d.year
  pub month_is : number_of (take 2 (drop 5 text)) 0 ≡ d.month
  pub day_is : number_of (take 2 (drop 8 text)) 0 ≡ d.day
  pub hour_is : number_of (take 2 (drop 11 text)) 0 ≡ h
  pub minute_is : number_of (take 2 (drop 14 text)) 0 ≡ m
  pub second_is : number_of (take 2 (drop 17 text)) 0 ≡ s

write_fields-Writes :
    (y m dd h mi s : ℕ)
    → y ≤ 9999
    → m < 12
    → dd < 32
    → h < 24
    → mi < 60
    → s < 60
    → Writes (record { year = y; month = m + 1; day = dd }) h mi s (write_fields y m dd h mi s)
unfolding write_fields number_of
write_fields-Writes y m dd h mi s hy hm hd hh hmi hs = record {
  width = refl;
  year_is = omega arith;
  month_is = omega arith;
  day_is = omega arith;
  hour_is = omega arith;
  minute_is = omega arith;
  second_is = omega arith;
}

-- the seconds before a time on a date in its year
abbrev second_of_year : Date → (h m s : ℕ) → ℕ
second_of_year d h m s = day_of_year d * 86400 + (h * 3600 + m * 60 + s)

-- A time before 2106 fits uint32_t.
timestamp_of-eq :
    (d : Date) (h m s : ℕ)
    → IsDate d
    → d.year ≤ 2105
    → h < 24
    → m < 60
    → s < 60
    → (timestamp_of d h m s ≡ days_of_years (d.year - 1970) * 86400 + second_of_year d h m s)
      × (timestamp_of d h m s < 2 ^ 32)
unfolding timestamp_of unix_timestamp
timestamp_of-eq d h m s v last hh hm hs =
    let n = d.year - 1970 in
    let all : suc n + (135 - n) ≡ 136 = omega (arith, v.from_1970) in
    let in_year : 1970 + n ≡ d.year = omega (arith, v.from_1970) in
    omega (
      arith,
      v.day_from,
      rw in_year at (year_after n),
      rw all at (years_mono (suc n) (135 - n)),
      last_year,
      day_of_year-lt d v,
    )

-- The longest month has 31 days.
pub month_length_bound : (y m : ℕ) → month_length y m ≤ 31
unfolding month_length
month_length_bound y zero = ground arith
month_length_bound y (suc zero) = ground arith
month_length_bound y (suc (suc zero)) = ground arith
month_length_bound y (suc (suc (suc zero))) = ground arith
month_length_bound y (suc (suc (suc (suc zero)))) = ground arith
month_length_bound y (suc (suc (suc (suc (suc zero))))) = ground arith
month_length_bound y (suc (suc (suc (suc (suc (suc zero)))))) = ground arith
month_length_bound y (suc (suc (suc (suc (suc (suc (suc zero))))))) = ground arith
month_length_bound y (suc (suc (suc (suc (suc (suc (suc (suc zero)))))))) = ground arith
month_length_bound y (suc (suc (suc (suc (suc (suc (suc (suc (suc zero))))))))) = ground arith
month_length_bound y (suc (suc (suc (suc (suc (suc (suc (suc (suc (suc zero)))))))))) = ground arith
month_length_bound y (suc (suc (suc (suc (suc (suc (suc (suc (suc (suc (suc zero))))))))))) =
    ground arith
month_length_bound y (suc (suc (suc (suc (suc (suc (suc (suc (suc (suc (suc (suc zero)))))))))))) =
    ground arith
month_length_bound y
      (suc (suc (suc (suc (suc (suc (suc (suc (suc (suc (suc (suc (suc m))))))))))))) =
    ground arith

-- the seconds before a time in its month
abbrev second_of_month : Date → (h m s : ℕ) → ℕ
second_of_month d h m s = (d.day - 1) * 86400 + (h * 3600 + m * 60 + s)

module _ (d : Date) (h m s : ℕ) (v : IsDate d) (hh : h < 24) (hm : m < 60) (hs : s < 60) where
  month_is : d.month - 1 + 1 ≡ d.month
  month_is = omega (arith, v.month_from)

  -- What the first loop leaves of a timestamp.
  find_year-timestamp_of :
      (fuel : ℕ)
      → d.year ≤ 2105
      → d.year - 1970 < fuel
      → find_year fuel ((timestamp_of d h m s + 0 * 3600) % 2 ^ 64) 1970
        ≡ ok (second_of_year d h m s, d.year)
  find_year-timestamp_of fuel last enough =
      let (t_is, fits) = timestamp_of-eq d h m s v last hh hm hs in
      let n = d.year - 1970 in
      let year_is : 1970 + n ≡ d.year = omega (arith, v.from_1970) in
      let none_before : days_of_years 0 ≡ 0 = unfold days_of_years in refl in
      let long = day_of_year-lt d v in
      rw year_is at (
        find_year_lem (second_of_year d h m s) n n 0 ((timestamp_of d h m s + 0 * 3600) % 2 ^ 64)
          fuel (omega arith) (omega arith) enough (rw year_is (omega (arith, long)))
          (omega (arith, t_is, fits, none_before)))

  -- What the second loop leaves of that.
  find_month-second_of_year :
      find_month 12 (second_of_year d h m s) d.year 0 ≡ (second_of_month d h m s, d.month - 1)
  find_month-second_of_year =
      let none_before : days_of_months d.year 0 ≡ 0 = unfold days_of_months in refl in
      let long : days_in d.year (d.month - 1) ≡ month_length d.year d.month =
        days_in_lem d.year (d.month - 1) ∙ ap (month_length d.year) (omega (arith, month_is)) in
      find_month_lem d.year (second_of_month d h m s) (d.month - 1) (d.month - 1) 0
        (second_of_year d h m s) 12 (omega arith) (omega (arith, v.month_to))
        (omega (arith, long, v.day_from, day_to_length d v)) (omega (arith, none_before))

  timestamp_to_string-eq :
      (fuel : ℕ)
      → d.year ≤ 2105
      → d.year - 1970 < fuel
      → timestamp_to_string fuel (timestamp_of d h m s) 0
        ≡ ok (write_fields d.year (d.month - 1) d.day h m s)
  unfolding timestamp_to_string
  timestamp_to_string-eq fuel last enough =
      let t = second_of_month d h m s in
      let day_is : 1 + t / 86400 ≡ d.day = omega (arith, v.day_from) in
      let hour_is : t % 86400 / 3600 ≡ h = omega arith in
      let minute_is : t % 86400 % 3600 / 60 ≡ m = omega arith in
      let second_is : t % 86400 % 3600 % 60 ≡ s = omega arith in
      rw
        (
          find_year-timestamp_of fuel last enough,
          find_month-second_of_year,
          day_is,
          hour_is,
          minute_is,
          second_is,
        )
        refl

-- The Unix time of a date and time from 1970 to 2105, written as text, gives back the year, the
-- month, the day, the hour, the minute and the second, with fuel for the years since 1970.
pub timestamp_to_string-timestamp_of :
    (d : Date) (h m s fuel : ℕ)
    → IsDate d
    → d.year ≤ 2105
    → h < 24
    → m < 60
    → s < 60
    → d.year - 1970 < fuel
    → (text : Chars) × (timestamp_to_string fuel (timestamp_of d h m s) 0 ≡ ok text)
      × Writes d h m s text
timestamp_to_string-timestamp_of d h m s fuel v last hh hm hs enough =
    let days = month_length_bound d.year d.month in
    let fields =
      write_fields-Writes d.year (d.month - 1) d.day h m s (omega arith) (omega (arith, v.month_to))
        (omega (arith, days, day_to_length d v)) hh hm hs in
    (
      write_fields d.year (d.month - 1) d.day h m s,
      timestamp_to_string-eq d h m s v hh hm hs fuel last enough,
      rw (month_is d h m s v hh hm hs) at fields,
    )
