-- ===== src/Rtc/Registers.antt =====
-- kernel/src/dev/time/rtc.c: the registers of the clock, read through its two ports.
pub mod Clock
pub mod Moments
use shadow_os.Base.{ℕ, zero, suc, ◌+◌, ◌%◌, ◌^◌, Bool, ◌==◌, not, if◌then◌else◌, bit_and}
use shadow_os.Base.Outcome.{Outcome, ok, stuck, ◌>>=◌}
use shadow_os.Ports.{Ports}
use shadow_os.Rtc.{bcd_to_binary, unix_timestamp}

-- rtc_read_time and rtc_read_date: what is stored through their three pointers
pub record Time : Type 0 where
  pub hours : ℕ
  pub minutes : ℕ
  pub seconds : ℕ

pub record Day : Type 0 where
  pub day : ℕ
  pub month : ℕ
  pub year : ℕ

module _ (P : Ports) where
  -- `while (inb(RTC_IO_DATA) & 0x80)`, on fuel
  pub wait_loop : ℕ → P.State → Outcome P.State
  wait_loop zero s = stuck
  wait_loop (suc k) s =
      let (v, t) = P.inb 0x71 s in
      let rest = wait_loop k t in if bit_and v 0x80 == 0 then ok t else rest

  pub wait_for_update : ℕ → P.State → Outcome P.State
  wait_for_update fuel s = wait_loop fuel (P.outb 0x70 0x0A s)

  unfoldable pub read_register : ℕ → P.State → ℕ × P.State
  read_register reg s = P.inb 0x71 (P.outb 0x70 reg s)

  -- rtc_init: whether the clock is in 12-hour mode, which is only warned of
  pub init : P.State → Bool × P.State
  unfolding read_register
  init s = let (reg_b, t) = read_register 0x0B s in (bit_and reg_b 2 == 0, t)

  -- behind the wait
  pub time_registers : P.State → Time × P.State
  time_registers s =
      let (seconds, t) = read_register 0x00 s in
      let (minutes, u) = read_register 0x02 t in
      let (hours, v) = read_register 0x04 u in
      (
        record {
          hours = bcd_to_binary hours;
          minutes = bcd_to_binary minutes;
          seconds = bcd_to_binary seconds;
        },
        v,
      )

  pub read_time : ℕ → P.State → Outcome (Time × P.State)
  read_time fuel s = do s' ← wait_for_update fuel s; ok (time_registers s')

  -- `*year` is a uint16_t
  pub date_registers : P.State → Day × P.State
  date_registers s =
      let (day, t) = read_register 0x07 s in
      let (month, u) = read_register 0x08 t in
      let (year, v) = read_register 0x09 u in
      (
        record {
          day = bcd_to_binary day;
          month = bcd_to_binary month;
          year = (bcd_to_binary year + 2000) % 2 ^ 16;
        },
        v,
      )

  pub read_date : ℕ → P.State → Outcome (Day × P.State)
  read_date fuel s = do s' ← wait_for_update fuel s; ok (date_registers s')

  -- GET_CURRENT_UNIX_TIME
  pub current_unix_time : ℕ → P.State → Outcome (ℕ × P.State)
  current_unix_time fuel s = do
    (t, s1) ← read_time fuel s
    (d, s2) ← read_date fuel s1
    ok (unix_timestamp d.year d.month d.day t.hours t.minutes t.seconds, s2)
