-- ===== src/Rtc/Calendar.antt =====
-- TIMESTAMP_TO_STRING of kernel/src/dev/vfs.h: the date and the time of a Unix time, as text.
pub mod Text
use shadow_os.Base.{
  ℕ, zero, suc, ◌+◌, ◌-◌, ◌*◌, ◌/◌, ◌%◌, ◌^◌, ◌≤◌, ◌<◌, ◌≡◌, refl, ◌∙◌, Bool, ◌&&◌, ◌||◌, ◌==◌,
  ◌!=◌, ltb, leb, if◌then◌else◌, arith, List, [], ◌∷◌, get_or, ap, length, take, drop,
}
use native.Mathlib.Nat.{add-zero, add-suc, suc-add}
use shadow_os.Base.Outcome.{Outcome, ok, fault, stuck, ◌>>=◌}
use shadow_os.Memory.Chars.{Chars}
use shadow_os.Rtc.{
  is_leap_year, month_length, days_of_years, days_of_months, Date, IsDate, timestamp_of,
  unix_timestamp, december, months_to,
}

-- `((y % 4 == 0 && …) ? 366 : 365) * 86400ULL`
abbrev pub seconds_of_year : ℕ → ℕ
seconds_of_year y = (if is_leap_year y then 366 else 365) * 86400

-- The first loop, on fuel. `y` is an int, which C does not let overflow.
pub find_year : ℕ → ℕ → ℕ → Outcome (ℕ × ℕ)
find_year zero t y = stuck
find_year (suc k) t y =
    let rest = find_year k (t - seconds_of_year y) (y + 1) in
    if leb (seconds_of_year y) t
    then (if leb (y + 1) (2 ^ 31 - 1) then rest else fault)
    else ok (t, y)

-- `dim`
abbrev dim : List ℕ
dim = 31 ∷ 28 ∷ 31 ∷ 30 ∷ 31 ∷ 30 ∷ 31 ∷ 31 ∷ 30 ∷ 31 ∷ 30 ∷ 31 ∷ []

-- `days`
pub days_in : ℕ → ℕ → ℕ
days_in y m = get_or dim m 0 + (if (m == 1) && is_leap_year y then 1 else 0)

-- The second loop at month `m`, with 12 - m rounds to go.
pub find_month : ℕ → ℕ → ℕ → ℕ → ℕ × ℕ
find_month zero t y m = (t, m)
find_month (suc left) t y m =
    let rest = find_month left (t - days_in y m * 86400) y (m + 1) in
    if ltb t (days_in y m * 86400) then (t, m) else rest

-- two digits, '0' for 48
abbrev two_digits : ℕ → Chars → Chars
two_digits n rest = (48 + n / 10) ∷ (48 + n % 10) ∷ rest

-- the text of `buffer`, up to its final zero byte
pub write_fields : (y m d h min s : ℕ) → Chars
write_fields y m d h min s =
    (48 + y / 1000 % 10)
    ∷ (48 + y / 100 % 10)
    ∷ (48 + y / 10 % 10)
    ∷ (48 + y % 10)
    ∷ 45
    ∷ two_digits (m + 1)
        (45 ∷ two_digits d (32 ∷ two_digits h (58 ∷ two_digits min (58 ∷ two_digits s []))))

-- TIMESTAMP_TO_STRING, with fuel for the years
pub timestamp_to_string : ℕ → ℕ → ℕ → Outcome Chars
unfolding find_year
timestamp_to_string fuel timestamp utc_offset = do
  (t, y) ← find_year fuel ((timestamp + utc_offset * 3600) % 2 ^ 64) 1970
  let (r, m) = find_month 12 t y 0
  let c = r % 86400
  ok (write_fields y m (1 + r / 86400) (c / 3600) (c % 3600 / 60) (c % 3600 % 60))

-- the number that decimal digits write
pub number_of : Chars → ℕ → ℕ
number_of [] n = n
number_of (c ∷ cs) n = number_of cs (n * 10 + (c - 48))

pub year_after :
    (j : ℕ)
    → days_of_years (suc j) ≡ days_of_years j + (if is_leap_year (1970 + j) then 366 else 365)
unfolding days_of_years
year_after j = refl

pub years_mono : (j k : ℕ) → days_of_years j ≤ days_of_years (j + k)
years_mono j zero = rw add-zero (omega arith)
years_mono j (suc k) = rw add-suc (omega (arith, years_mono j k, year_after (j + k)))

-- The years that the first loop takes off.
pub find_year_lem :
    (r n k j t fuel : ℕ)
    → j + k ≡ n
    → n < 2 ^ 30
    → k < fuel
    → r < seconds_of_year (1970 + n)
    → t + days_of_years j * 86400 ≡ days_of_years n * 86400 + r
    → find_year fuel t (1970 + j) ≡ ok (r, 1970 + n)
unfolding find_year
find_year_lem r n k j t zero hj hy hk hr e = absurd (omega arith)
find_year_lem r n zero j t (suc fuel) hj hy hk hr e =
    let same : j ≡ n = omega arith in
    let t_is : t ≡ r = omega (arith, e, ap days_of_years same) in
    rw (same, t_is) (ground (arith, hr))
find_year_lem r n (suc k) j t (suc fuel) hj hy hk hr e =
    let step = year_after j in
    let next : suc j + k ≡ n = omega arith in
    let more = rw next at (years_mono (suc j) k) in
    let rest = find_year_lem r n k (suc j) (t - seconds_of_year (1970 + j)) fuel next hy in
    ground (arith, e, step, more, rest)

pub days_in_lem : (y m : ℕ) → days_in y m ≡ month_length y (suc m)
unfolding days_in month_length
days_in_lem y m = ground arith

pub month_after : (y m : ℕ) → days_of_months y (suc m) ≡ days_of_months y m + days_in y m
unfolding days_of_months
month_after y m = rw (days_in_lem y m) refl

pub months_mono : (y m k : ℕ) → days_of_months y m ≤ days_of_months y (m + k)
months_mono y m zero = rw add-zero (omega arith)
months_mono y m (suc k) = rw add-suc (omega (arith, months_mono y m k, month_after y (m + k)))

-- The months that the second loop takes off.
pub find_month_lem :
    (y r n k m t left : ℕ)
    → m + k ≡ n
    → k < left
    → r < days_in y n * 86400
    → t + days_of_months y m * 86400 ≡ days_of_months y n * 86400 + r
    → find_month left t y m ≡ (r, n)
unfolding find_month
find_month_lem y r n k m t zero hm hk hr e = absurd (omega arith)
find_month_lem y r n zero m t (suc left) hm hk hr e =
    let same : m ≡ n = omega arith in
    let t_is : t ≡ r = omega (arith, e, ap (days_of_months y) same) in
    rw (same, t_is) (ground (arith, hr))
find_month_lem y r n (suc k) m t (suc left) hm hk hr e =
    let next : suc m + k ≡ n = omega arith in
    let more = rw next at (months_mono y (suc m) k) in
    let rest = find_month_lem y r n k (suc m) (t - days_in y m * 86400) left next in
    ground (arith, e, month_after y m, more, rest)
