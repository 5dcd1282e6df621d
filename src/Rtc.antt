-- ===== src/Rtc.antt =====
-- kernel/src/dev/time/rtc.c and rtc.h: the values of the clock's registers, and Unix time.
pub mod Calendar
pub mod Registers
use shadow_os.Base.{
  ℕ, zero, suc, ◌+◌, ◌-◌, ◌*◌, ◌/◌, ◌%◌, ◌^◌, ◌≤◌, ◌<◌, ◌≡◌, refl, Bool, ◌&&◌, ◌||◌, ◌==◌, ◌!=◌,
  ltb, if◌then◌else◌, arith, ap, Bool-cases, inl, inr, List, [], ◌∷◌, get_or,
}

-- rtc_bcd_to_binary, on a uint8_t
pub bcd_to_binary : ℕ → ℕ
bcd_to_binary bcd = (bcd / 16 * 10 + bcd % 16) % 2 ^ 8

-- RTC_IS_LEAP_YEAR
unfoldable pub is_leap_year : ℕ → Bool
is_leap_year y = (y % 4 == 0) && ((y % 100 != 0) || (y % 400 == 0))

-- RTC_DAYS_IN_MONTHS
abbrev days_in_months : List ℕ
days_in_months = 0 ∷ 31 ∷ 28 ∷ 31 ∷ 30 ∷ 31 ∷ 30 ∷ 31 ∷ 31 ∷ 30 ∷ 31 ∷ 30 ∷ 31 ∷ []

-- The first loop, with the number of years from 1970 on. The sum of a uint16_t of years fits
-- uint32_t.
pub days_of_years : ℕ → ℕ
days_of_years zero = 0
days_of_years (suc n) = days_of_years n + (if is_leap_year (1970 + n) then 366 else 365)

-- the term of the second loop
unfoldable pub month_length : ℕ → ℕ → ℕ
unfolding is_leap_year
month_length year m = get_or days_in_months m 0 + (if (m == 2) && is_leap_year year then 1 else 0)

-- The second loop, with the number of months before.
pub days_of_months : ℕ → ℕ → ℕ
days_of_months year zero = 0
days_of_months year (suc n) = days_of_months year n + month_length year (suc n)

-- RTC_TO_UNIX_TIMESTAMP; `day - 1` is an int that is added to a uint32_t.
pub unix_timestamp : (year month day hours minutes seconds : ℕ) → ℕ
unix_timestamp year month day hours minutes seconds =
    let days = days_of_years (year - 1970) + days_of_months year (month - 1) in
    ((days + day + (2 ^ 32 - 1)) % 2 ^ 32 * 86400 + hours * 3600 + minutes * 60 + seconds) % 2 ^ 32

pub record Date : Type 0 where
  pub year : ℕ
  pub month : ℕ
  pub day : ℕ

-- The Gregorian calendar, for the dates of the theorems: a year of a full century is a leap year where
-- the century is a multiple of four, and any other where the year is.
unfoldable pub extra_day : ℕ → ℕ
extra_day y =
    if y % 100 == 0 then (if y / 100 % 4 == 0 then 1 else 0) else if y % 4 == 0 then 1 else 0

-- April, June, September and November have thirty days, and February has 28 or 29.
unfoldable pub month_days : ℕ → ℕ → ℕ
unfolding extra_day
month_days y m =
    if m == 2
    then 28 + extra_day y
    else if (m == 4) || (m == 6) || (m == 9) || (m == 11)
    then 30
    else 31

-- the day after, by the calendar
pub next_day : Date → Date
next_day d =
    if ltb d.day (month_days d.year d.month)
    then record d { day = d.day + 1 }
    else if ltb d.month 12
    then record d { month = d.month + 1; day = 1 }
    else record { year = d.year + 1; month = 1; day = 1 }

pub timestamp_of : Date → (hours minutes seconds : ℕ) → ℕ
timestamp_of d h m s = unix_timestamp d.year d.month d.day h m s

-- a date that the calendar has, from 1970 on
pub record IsDate (d : Date) : Type 0 where
  pub from_1970 : 1970 ≤ d.year
  pub month_from : 1 ≤ d.month
  pub month_to : d.month ≤ 12
  pub day_from : 1 ≤ d.day
  pub day_to : d.day ≤ month_days d.year d.month

is_leap_year-extra_day : (y : ℕ) → (if is_leap_year y then 1 else 0) ≡ extra_day y
unfolding is_leap_year extra_day
is_leap_year-extra_day y = ground arith

-- The months of the code have the days of the calendar.
pub month_length-month_days : (y m : ℕ) → 1 ≤ m → m ≤ 12 → month_length y m ≡ month_days y m
unfolding month_length month_days
month_length-month_days y m lo hi = ground (arith, is_leap_year-extra_day y)

pub day_to_length : (d : Date) → IsDate d → d.day ≤ month_length d.year d.month
day_to_length d v =
    omega (arith, v.day_to, month_length-month_days d.year d.month v.month_from v.month_to)

-- The number in a register is the number that its two decimal digits write.
pub bcd_to_binary_lem :
    (tens ones : ℕ) → tens < 10 → ones < 10 → bcd_to_binary (tens * 16 + ones) ≡ tens * 10 + ones
unfolding bcd_to_binary
bcd_to_binary_lem tens ones h k = omega arith

-- The days before a date, that date's own included.
pub day_number : Date → ℕ
day_number d = days_of_years (d.year - 1970) + days_of_months d.year (d.month - 1) + d.day

pub december :
    (y : ℕ) → days_of_months y 11 + month_length y 12 ≡ (if is_leap_year y then 366 else 365)
unfolding days_of_months month_length
december y = ground arith

pub months_to : (y m : ℕ) → 1 ≤ m → days_of_months y m ≡ days_of_months y (m - 1) + month_length y m
unfolding days_of_months
months_to y zero h = absurd (omega arith)
months_to y (suc m) h = let e : suc m - 1 ≡ m = omega arith in rw e refl

years_to :
    (y : ℕ)
    → 1970 ≤ y
    → days_of_years (y + 1 - 1970)
      ≡ days_of_years (y - 1970) + (if is_leap_year y then 366 else 365)
years_to y h = rw next (unfold days_of_years in rw same refl)
  where
    next : y + 1 - 1970 ≡ suc (y - 1970)
    next = omega arith

    same : 1970 + (y - 1970) ≡ y
    same = omega arith

day_number-next_day : (d : Date) → IsDate d → day_number (next_day d) ≡ day_number d + 1
unfolding day_number next_day days_of_months
day_number-next_day d v =
    let same = month_length-month_days d.year d.month v.month_from v.month_to in
    elim (Bool-cases (ltb d.day (month_days d.year d.month))) [
      | inl within ↦ rw within (omega arith)
      | inr last ↦ elim (Bool-cases (ltb d.month 12)) [
        | inl inner ↦
            let full : d.day ≡ month_length d.year d.month = ground (arith, last, v.day_to, same) in
            let back : d.month + 1 - 1 ≡ d.month = omega arith in
            rw (last, inner) (rw back (omega (arith, months_to d.year d.month v.month_from, full)))
        | inr outer ↦
            let full : d.day ≡ month_length d.year d.month = ground (arith, last, v.day_to, same) in
            let twelve : d.month ≡ 12 = ground (arith, outer, v.month_to) in
            rw (last, outer)
              (omega (
                arith,
                years_to d.year v.from_1970,
                december d.year,
                full,
                ap (month_length d.year) twelve,
                ap (λ m. days_of_months d.year (m - 1)) twelve,
              ))
      ]
    ]

-- From any time of any date of the Gregorian calendar from 1970 on, the same time of the next day is 86400 seconds later, over the ends
-- of months and years, up to the wrap-around of uint32_t.
pub timestamp_of-next_day :
    (d : Date) (h m s : ℕ)
    → IsDate d
    → timestamp_of (next_day d) h m s ≡ (timestamp_of d h m s + 86400) % 2 ^ 32
unfolding timestamp_of unix_timestamp day_number
timestamp_of-next_day d h m s v = omega (arith, day_number-next_day d v)
