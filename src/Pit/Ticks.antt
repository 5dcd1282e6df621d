-- ===== src/Pit/Ticks.antt =====
-- The timer's interrupts turn the processes round and are all acknowledged.
use shadow_os.Base.{
  ℕ, zero, suc, ◌+◌, ◌%◌, ◌≡◌, refl, ◌∙◌, ap, false, List, [], ◌∷◌, ◌++◌, replicate, length,
}
use shadow_os.Base.Outcome.{Outcome, ok, ◌>>=◌, >>=-eq-ok}
use shadow_os.Sched.{RegisterCtx, Sched, Pcb, tick}
use shadow_os.Sched.RoundRobin.{Busy, ticks, round_robin}
use shadow_os.Pic.{Pic, eoi}
use shadow_os.Pit.{pit_handler}

-- interrupts of the timer, one after the other
pub interrupts : List RegisterCtx → Sched → Pic → Outcome (Sched × Pic)
interrupts [] s pic = ok (s, pic)
interrupts (c ∷ cs) s pic = do (t, frame, pic') ← pit_handler c s pic; interrupts cs t pic'

replicate-cons :
    {A : Type 0} (n : ℕ) (x : A) (ys : List A) → replicate n x ++ x ∷ ys ≡ x ∷ (replicate n x ++ ys)
replicate-cons zero x ys = refl
replicate-cons (suc n) x ys = ap (λ zs. x ∷ zs) (replicate-cons n x ys)

-- so many acknowledgements of the first controller, and no other change
pub record Acknowledged (n : ℕ) (pic pic' : Pic) : Type 0 where
  pub commands_are : pic'.commands ≡ replicate n (false, 0x20) ++ pic.commands
  pub same_mask : pic'.curmask ≡ pic.curmask
  pub same_master : pic'.master_data ≡ pic.master_data
  pub same_slave : pic'.slave_data ≡ pic.slave_data

interrupts-ticks :
    (cs : List RegisterCtx) (s t : Sched) (pic : Pic)
    → ticks cs s ≡ ok t
    → (pic' : Pic) × (interrupts cs s pic ≡ ok (t, pic')) × Acknowledged (length cs) pic pic'
unfolding interrupts ticks pit_handler eoi
interrupts-ticks [] s t pic e = (
  pic,
  cc,
  record { commands_are = refl; same_mask = refl; same_master = refl; same_slave = refl },
)
interrupts-ticks (c ∷ cs) s t pic e =
    let (x, first, rest) = >>=-eq-ok (tick c s) _ e in
    let (pic', later, a) = interrupts-ticks cs x.0 t (eoi 0 pic) rest in
    (
      pic',
      rw first later,
      record {
        commands_are = a.commands_are ∙ replicate-cons (length cs) (false, 0x20) pic.commands;
        same_mask = a.same_mask;
        same_master = a.same_master;
        same_slave = a.same_slave;
      },
    )

-- Where the process table is valid (each pid below the count has its own process, with a page map, a
-- time slice of one tick and neither terminated nor waiting; no other than the current one runs; the
-- lock is free), the current process is running and none is in a system call, any number of interrupts of the timer
-- returns: the processor has gone on by as many processes, round at `count`, and each interrupt has
-- been acknowledged to the first controller, whose mask has not changed.
pub interrupts-Acknowledged :
    (cs : List RegisterCtx) {s : Sched} {at : ℕ → Pcb} (pic : Pic)
    → Busy s at
    → (t : Sched) × (pic' : Pic) × (interrupts cs s pic ≡ ok (t, pic'))
      × (t.current_pid ≡ (s.current_pid + length cs) % s.count)
      × Acknowledged (length cs) pic pic'
interrupts-Acknowledged cs {s} pic b =
    let end = round_robin cs b in
    let (pic', returns, all) = interrupts-ticks cs s end.final pic end.returns in
    (end.final, pic', returns, end.current, all)
