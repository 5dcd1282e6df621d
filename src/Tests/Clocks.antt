-- ===== src/Tests/Clocks.antt =====
-- A clock that reaches midnight after the time is read, and dates as text.
use shadow_os.Base.{
  ℕ, ◌+◌, ◌-◌, ◌≤◌, ◌≡◌, refl, ◌==◌, leb, if◌then◌else◌, some, arith, Bool-cases, inl, inr,
}
use mathlib.Core.Option
use shadow_os.Base.Outcome.{ok}
use shadow_os.Memory.Chars.{Chars}
use shadow_os.Ports.{Ports}
use shadow_os.Rtc.{extra_day, Date, IsDate, month_days, timestamp_of}
use shadow_os.Rtc.Calendar.{timestamp_to_string}
use shadow_os.Rtc.Calendar.Text.{Writes, timestamp_to_string-timestamp_of}
use shadow_os.Rtc.Registers.{wait_for_update, time_registers, date_registers, current_unix_time}
use shadow_os.Rtc.Registers.Clock.{Moment, register, IsClock, IsMoment}
use shadow_os.Rtc.Registers.Moments.{current_unix_time-timestamp_of}

abbrev eve : Date
eve = record { year = 2024; month = 12; day = 31 }

abbrev new_year : Date
new_year = record { year = 2025; month = 1; day = 1 }

eve-IsDate : IsDate eve
unfolding month_days extra_day
eve-IsDate = record {
  from_1970 = omega arith;
  month_from = omega arith;
  month_to = omega arith;
  day_from = omega arith;
  day_to = omega arith;
}

new_year-IsDate : IsDate new_year
unfolding month_days extra_day
new_year-IsDate = record {
  from_1970 = omega arith;
  month_from = omega arith;
  month_to = omega arith;
  day_from = omega arith;
  day_to = omega arith;
}

timestamp_to_string-timestamp_of_example :
    (text : Chars) × (timestamp_to_string 100 (timestamp_of eve 23 59 58) 0 ≡ ok text)
    × Writes eve 23 59 58 text
timestamp_to_string-timestamp_of_example =
    timestamp_to_string-timestamp_of eve 23 59 58 100 eve-IsDate (omega arith) (omega arith)
      (omega arith) (omega arith) (omega arith)

-- the last selected register, and the number of accesses
record Ticks : Type 0 where
  selected : ℕ
  count : ℕ

abbrev last_second : Moment
last_second = record { date = eve; hour = 23; minute = 59; second = 59 }

abbrev first_second : Moment
first_second = record { date = new_year; hour = 0; minute = 0; second = 0 }

abbrev moment : Ticks → Moment
moment s = if leb s.count 8 then last_second else first_second

-- The update is announced from the second access to the seventh.
abbrev midnight : Ports
midnight = record {
  State = Ticks;
  inb = λ p s. (
    if s.selected == 0x0A
        then (if leb 2 s.count then (if leb s.count 7 then 0x80 else 0) else 0)
        else Option.get_or (register (moment s) s.selected) 0,
    record s { count = s.count + 1 },
  );
  outb = λ p v s. record { selected = v; count = s.count + 1 };
  inl = λ p s. (0, s);
  outl = λ p v s. s;
}

abbrev calm_of : Ticks → ℕ
calm_of s = if leb s.count 8 then 8 - s.count else 100

same_moment :
    (r : ℕ) (s : Ticks)
    → 2 ≤ calm_of s
    → moment (record { selected = r; count = s.count + 1 }) ≡ moment s
same_moment r s h = ground arith

reads_it :
    (r v : ℕ) (s : Ticks)
    → 2 ≤ calm_of s
    → register (moment s) r ≡ some v
    → (midnight.inb 0x71 (midnight.outb 0x70 r s)).0 ≡ v
reads_it r v s h e = elim (Bool-cases (r == 0x0A)) [
  | inl ten ↦ let ten' : r ≡ 0x0A = ground (arith, ten) in cc (rw ten' at e)
  | inr other ↦ rw (other, same_moment r s h, e) refl
]

midnight-IsClock : IsClock midnight
midnight-IsClock = record {
  now = moment;
  calm = calm_of;
  busy = λ s. 9 - s.count;
  index = λ s. s.selected;
  index-outb = λ r s. refl;
  index-inb = λ s. refl;
  reads = reads_it;
  stays = λ r s h. ground arith;
  lasts = λ r s h. ground arith;
  announces = λ s polled clear. let shown = rw polled at clear in ground (arith, shown);
  passes = λ s polled set. let shown = rw polled at set in ground (arith, shown);
}

moment-IsMoment : (s : Ticks) → IsMoment (moment s)
moment-IsMoment s = elim (Bool-cases (leb s.count 8)) [
  | inl before ↦ rw before (record {
    date_in = eve-IsDate;
    from_2000 = omega arith;
    to_2099 = omega arith;
    hour_in = omega arith;
    minute_in = omega arith;
    second_in = omega arith;
  })
  | inr after ↦ rw after (record {
    date_in = new_year-IsDate;
    from_2000 = omega arith;
    to_2099 = omega arith;
    hour_in = omega arith;
    minute_in = omega arith;
    second_in = omega arith;
  })
]

abbrev started : Ticks
started = record { selected = 0; count = 0 }

current_unix_time-timestamp_of_example :
    (a b : Ticks) × (wait_for_update midnight 10 started ≡ ok a)
    × (wait_for_update midnight 10 (time_registers midnight a).1 ≡ ok b)
    × (current_unix_time midnight 10 started
        ≡ ok (
          timestamp_of (moment b).date (moment a).hour (moment a).minute (moment a).second,
          (date_registers midnight b).1,
        ))
unfolding midnight-IsClock
current_unix_time-timestamp_of_example =
    current_unix_time-timestamp_of midnight midnight-IsClock 10 started (λ u. omega arith)
      moment-IsMoment
