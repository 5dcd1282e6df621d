-- ===== src/Rtc/Registers/Clock.antt =====
-- What rtc.c relies on of the clock: registers that hold a moment, and a bit that announces updates.
use shadow_os.Base.{
  ℕ, ◌+◌, ◌*◌, ◌/◌, ◌%◌, ◌≤◌, ◌<◌, ◌≡◌, ◌≢◌, Option, none, some, ◌==◌, if◌then◌else◌, bit_and,
}
use shadow_os.Ports.{Ports}
use shadow_os.Rtc.{Date, IsDate, timestamp_of}

-- a point in time, and the value of a register that holds a part of it in two decimal digits
pub record Moment : Type 0 where
  pub date : Date
  pub hour : ℕ
  pub minute : ℕ
  pub second : ℕ

abbrev pub bcd : ℕ → ℕ
bcd n = n / 10 * 16 + n % 10

abbrev pub register : Moment → ℕ → Option ℕ
register m r =
    if r == 0x00
    then some (bcd m.second)
    else if r == 0x02
    then some (bcd m.minute)
    else if r == 0x04
    then some (bcd m.hour)
    else if r == 0x07
    then some (bcd m.date.day)
    else if r == 0x08
    then some (bcd m.date.month)
    else if r == 0x09
    then some (bcd (m.date.year % 100))
    else none

-- What the clock's documentation promises of the 24-hour mode with binary coded decimals, which
-- register B sets. `calm` is a number of accesses for which the clock will
-- not update its registers, and `busy` one of reads after which an update is over.
pub record IsClock (P : Ports) : Type 0 where
  pub now : P.State → Moment
  pub calm : P.State → ℕ
  pub busy : P.State → ℕ
  pub index : P.State → ℕ
  pub index-outb : (r : ℕ) (s : P.State) → index (P.outb 0x70 r s) ≡ r
  pub index-inb : (s : P.State) → index (P.inb 0x71 s).1 ≡ index s
  -- a register that is read while the clock is calm
  pub reads :
      (r v : ℕ) (s : P.State)
      → 2 ≤ calm s
      → register (now s) r ≡ some v
      → (P.inb 0x71 (P.outb 0x70 r s)).0 ≡ v
  pub stays : (r : ℕ) (s : P.State) → 2 ≤ calm s → now (P.inb 0x71 (P.outb 0x70 r s)).1 ≡ now s
  pub lasts :
      (r : ℕ) (s : P.State) → 2 ≤ calm s → calm s ≤ calm (P.inb 0x71 (P.outb 0x70 r s)).1 + 2
  -- the bit of register A that announces an update
  pub announces :
      (s : P.State) → index s ≡ 0x0A → bit_and (P.inb 0x71 s).0 0x80 ≡ 0 → 6 ≤ calm (P.inb 0x71 s).1
  pub passes :
      (s : P.State)
      → index s ≡ 0x0A
      → bit_and (P.inb 0x71 s).0 0x80 ≢ 0
      → busy (P.inb 0x71 s).1 < busy s

-- a moment of the century that the registers can hold
pub record IsMoment (m : Moment) : Type 0 where
  pub date_in : IsDate m.date
  pub from_2000 : 2000 ≤ m.date.year
  pub to_2099 : m.date.year ≤ 2099
  pub hour_in : m.hour < 24
  pub minute_in : m.minute < 60
  pub second_in : m.second < 60

-- the Unix time of a moment
abbrev pub seconds_of : Moment → ℕ
seconds_of m = timestamp_of m.date m.hour m.minute m.second
