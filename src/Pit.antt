-- ===== src/Pit.antt =====
-- kernel/src/dev/timer/pit.c: the timer, whose interrupt is the tick of the scheduler.
pub mod Ticks
use shadow_os.Base.{ℕ, ◌/◌, ◌^◌, bit_and}
use shadow_os.Base.Outcome.{Outcome, ok, ◌>>=◌}
use shadow_os.Sched.{RegisterCtx, Sched, tick}
use shadow_os.Pic.{Pic, unmask, eoi}
use shadow_os.Ports.{Ports}

unfoldable pub pit_handler : RegisterCtx → Sched → Pic → Outcome (Sched × RegisterCtx × Pic)
pit_handler frame s pic = do (t, frame') ← tick frame s; ok (t, frame', eoi 0 pic)

abbrev pub divisor : ℕ
divisor = 5966

-- pit_init, without the registration of the handler
pub pit_init : (P : Ports) → Pic → P.State → P.State × Pic
pit_init P pic s =
    let t = P.outb 0x43 0x36 s in
    let u = P.outb 0x40 (bit_and divisor 0xFF) t in
    let v = P.outb 0x40 (bit_and (divisor / 2 ^ 8) 0xFF) u in (v, unmask 0 pic)
