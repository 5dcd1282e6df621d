-- ===== src/Rtc/Registers/Moments.antt =====
-- The Unix time that is read is made of two looks at the clock.
use shadow_os.Base.{
  ℕ, zero, suc, ◌+◌, ◌/◌, ◌%◌, ◌^◌, ◌≤◌, ◌<◌, ◌≡◌, refl, ◌∙◌, Bool-cases, inl, inr, some, ◌==◌,
  bit_and, arith,
}
use shadow_os.Base.Outcome.{ok}
use shadow_os.Ports.{Ports}
use shadow_os.Rtc.{day_to_length, timestamp_of, bcd_to_binary, bcd_to_binary_lem}
use shadow_os.Rtc.Calendar.Text.{month_length_bound}
use shadow_os.Rtc.Registers.Clock.{Moment, bcd, register, IsClock, IsMoment}
use shadow_os.Rtc.Registers.{
  wait_loop, wait_for_update, read_register, time_registers, date_registers, read_time, read_date,
  current_unix_time,
}

module _ (P : Ports) (C : IsClock P) where
  wait_loop-calm :
      (fuel : ℕ) (s : P.State)
      → C.index s ≡ 0x0A
      → C.busy s < fuel
      → (t : P.State) × (wait_loop P fuel s ≡ ok t) × (6 ≤ C.calm t)
  unfolding wait_loop
  wait_loop-calm zero s polled enough = absurd (omega arith)
  wait_loop-calm (suc k) s polled enough =
      let again = C.index-inb s ∙ polled in
      elim (Bool-cases (bit_and (P.inb 0x71 s).0 0x80 == 0)) [
        | inl clear ↦
            rw clear ((P.inb 0x71 s).1, refl, C.announces s polled (ground (arith, clear)))
        | inr set ↦
            let sooner = C.passes s polled (ground (arith, set)) in
            rw set (wait_loop-calm k (P.inb 0x71 s).1 again (omega (arith, sooner)))
      ]

  wait_for_update-calm :
      (fuel : ℕ) (s : P.State)
      → ((u : P.State) → C.busy u < fuel)
      → (t : P.State) × (wait_for_update P fuel s ≡ ok t) × (6 ≤ C.calm t)
  unfolding wait_for_update
  wait_for_update-calm fuel s enough =
      wait_loop-calm fuel (P.outb 0x70 0x0A s) (C.index-outb 0x0A s) (enough (P.outb 0x70 0x0A s))

  bcd_to_binary-bcd : (n : ℕ) → n < 100 → bcd_to_binary (bcd n) ≡ n
  bcd_to_binary-bcd n h =
      bcd_to_binary_lem (n / 10) (n % 10) (omega arith) (omega arith) ∙ omega arith

  -- Three registers, one after the other, while the clock stays calm.
  module _ (r1 r2 r3 v1 v2 v3 : ℕ) (s : P.State) (calm : 6 ≤ C.calm s)
      (e1 : register (C.now s) r1 ≡ some v1) (e2 : register (C.now s) r2 ≡ some v2)
      (e3 : register (C.now s) r3 ≡ some v3) where
    abbrev next : ℕ → P.State → P.State
    next r u = (P.inb 0x71 (P.outb 0x70 r u)).1

    three_registers :
        ((P.inb 0x71 (P.outb 0x70 r1 s)).0 ≡ v1)
        × ((P.inb 0x71 (P.outb 0x70 r2 (next r1 s))).0 ≡ v2)
        × ((P.inb 0x71 (P.outb 0x70 r3 (next r2 (next r1 s)))).0 ≡ v3)
    three_registers =
        let h : 2 ≤ C.calm s = omega (arith, calm) in
        let same1 = C.stays r1 s h in
        let h1 : 4 ≤ C.calm (next r1 s) = omega (arith, calm, C.lasts r1 s h) in
        let h1' : 2 ≤ C.calm (next r1 s) = omega (arith, h1) in
        let same2 = C.stays r2 (next r1 s) h1' ∙ same1 in
        let h2 : 2 ≤ C.calm (next r2 (next r1 s)) = omega (arith, h1, C.lasts r2 (next r1 s) h1') in
        (
          C.reads r1 v1 s h e1,
          C.reads r2 v2 (next r1 s) h1' (rw same1 e2),
          C.reads r3 v3 (next r2 (next r1 s)) h2 (rw same2 e3),
        )

  module _ (m : Moment) (v : IsMoment m) where
    time_fields :
        (bcd_to_binary (bcd m.second) ≡ m.second)
        × (bcd_to_binary (bcd m.minute) ≡ m.minute)
        × (bcd_to_binary (bcd m.hour) ≡ m.hour)
    time_fields = (
      bcd_to_binary-bcd m.second (omega (arith, v.second_in)),
      bcd_to_binary-bcd m.minute (omega (arith, v.minute_in)),
      bcd_to_binary-bcd m.hour (omega (arith, v.hour_in)),
    )

    date_fields :
        (bcd_to_binary (bcd m.date.day) ≡ m.date.day)
        × (bcd_to_binary (bcd m.date.month) ≡ m.date.month)
        × ((bcd_to_binary (bcd (m.date.year % 100)) + 2000) % 2 ^ 16 ≡ m.date.year)
    date_fields =
        let d = v.date_in in
        let year = bcd_to_binary-bcd (m.date.year % 100) (omega arith) in
        (
          bcd_to_binary-bcd m.date.day
              (omega (arith, day_to_length m.date d, month_length_bound m.date.year m.date.month)),
          bcd_to_binary-bcd m.date.month (omega (arith, d.month_to)),
          rw year (omega (arith, v.from_2000, v.to_2099)),
        )

  time_registers_lem :
      (s : P.State)
      → 6 ≤ C.calm s
      → IsMoment (C.now s)
      → (time_registers P s).0
        ≡ record { hours = (C.now s).hour; minutes = (C.now s).minute; seconds = (C.now s).second }
  unfolding time_registers read_register
  time_registers_lem s calm v =
      let (second, minute, hour) = three_registers 0 2 4 _ _ _ s calm refl refl refl in
      let (second', minute', hour') = time_fields (C.now s) v in
      rw (second, minute, hour) (rw (second', minute', hour') refl)

  date_registers_lem :
      (s : P.State)
      → 6 ≤ C.calm s
      → IsMoment (C.now s)
      → (date_registers P s).0 ≡ record {
        day = (C.now s).date.day;
        month = (C.now s).date.month;
        year = (C.now s).date.year;
      }
  unfolding date_registers read_register
  date_registers_lem s calm v =
      let (day, month, year) = three_registers 7 8 9 _ _ _ s calm refl refl refl in
      let (day', month', year') = date_fields (C.now s) v in
      rw (day, month, year) (rw (day', month', year') refl)

  -- Over a clock that keeps its registers in binary coded decimals and 24 hours, that holds a date of
  -- 2000 to 2099 in every state, and whose updates take less reads than there is fuel,
  -- GET_CURRENT_UNIX_TIME returns. It waits for the end of an
  -- update twice, and gives the Unix time of the date at the end of the second wait, with the hour,
  -- the minute and the second at the end of the first.
  pub current_unix_time-timestamp_of :
      (fuel : ℕ) (s : P.State)
      → ((u : P.State) → C.busy u < fuel)
      → ((u : P.State) → IsMoment (C.now u))
      → (a b : P.State) × (wait_for_update P fuel s ≡ ok a)
        × (wait_for_update P fuel (time_registers P a).1 ≡ ok b)
        × (current_unix_time P fuel s
            ≡ ok (
              timestamp_of (C.now b).date (C.now a).hour (C.now a).minute (C.now a).second,
              (date_registers P b).1,
            ))
  unfolding current_unix_time read_time read_date timestamp_of
  current_unix_time-timestamp_of fuel s enough century =
      let (a, first, calm) = wait_for_update-calm fuel s enough in
      let (b, second, calm') = wait_for_update-calm fuel (time_registers P a).1 enough in
      let time = time_registers_lem a calm (century a) in
      let date = date_registers_lem b calm' (century b) in
      (a, b, first, second, rw (first, second) (rw (time, date) refl))
