-- ===== src/Tests/Processes.antt =====
-- The theorems on the scheduler at a table of two processes, the first of them running.
use shadow_os.Base.{
  ◌+◌, ◌%◌, ℕ, zero, suc, ◌<◌, ◌≡◌, ◌≢◌, refl, true, false, none, some, [], ◌∷◌, get_elem?, length,
  arith, replicate,
}
use shadow_os.Base.Outcome.{ok}
use shadow_os.Pic.{Pic}
use shadow_os.Pit.Ticks.{interrupts, Acknowledged, interrupts-Acknowledged}
use shadow_os.Sched.{State, RegisterCtx, Pcb, Sched}
use shadow_os.Sched.Valid.{IsLive, Runs, update}
use shadow_os.Sched.RoundRobin.{Busy, After, ticks, round_robin, every_process_runs}
use shadow_os.Sched.Files.Padded.{padded}
use shadow_os.Sched.Files.Table.{Opens}
use shadow_os.Sched.Life.{Resources, spawn}
use shadow_os.Sched.Life.Spawn.{spawn-Runs}

abbrev pub regs : RegisterCtx
regs = record { others = []; rip = 4096; cs = 0x1b; rflags = 0x202; rsp = 8192; ss = 0x23 }

abbrev pub process : ℕ → State → Pcb
process i st = record {
  ctx = regs;
  pid = i;
  state = st;
  timeslice = 1;
  pagemap = 4096;
  fd_table = padded 1024 (7 ∷ 8 ∷ []);
  fd_count = 2;
  errno = 0;
  whoami = record { uid = 0; gid = 0 };
  vma_ctx = 0;
  in_syscall = false;
}

abbrev pub at : ℕ → Pcb
at zero = process 0 State.running
at (suc i) = process (suc i) State.ready

abbrev pub two : Sched
two = record {
  procs = some (at 0) ∷ some (at 1) ∷ replicate 2046 none;
  count = 2;
  current_pid = 0;
  locked = false;
  cr3 = 4096;
}

at_slot : (i : ℕ) → i < 2 → get_elem? two.procs i ≡ some (some (at i))
at_slot zero h = refl
at_slot (suc zero) h = refl
at_slot (suc (suc i)) h = absurd (omega arith)

live : (i : ℕ) → i < 2 → IsLive i (at i)
live zero h = record { own_pid = refl; mapped = omega arith; fresh_slice = refl; runnable = refl }
live (suc i) h = record {
  own_pid = refl;
  mapped = omega arith;
  fresh_slice = refl;
  runnable = refl;
}

only_current : (i : ℕ) → i < 2 → i ≢ 0 → (at i).state ≡ State.ready
only_current zero h ne = absurd (ne refl)
only_current (suc i) h ne = refl

outside : (i : ℕ) → i < 2 → (at i).in_syscall ≡ false
outside zero h = refl
outside (suc i) h = refl

runs : Runs two at
runs = record {
  table = refl;
  some_process = omega arith;
  fits = omega arith;
  current_in = omega arith;
  unlocked = refl;
  at_slot = at_slot;
  live = live;
  only_current = only_current;
}

busy : Busy two at
busy = record { runs = runs; turn = refl; outside = outside }

round_robin_example :
    After two (length (regs ∷ regs ∷ regs ∷ [])) (ticks (regs ∷ regs ∷ regs ∷ []) two)
round_robin_example = round_robin (regs ∷ regs ∷ regs ∷ []) busy

every_process_runs_example :
    (t : Sched) × (at' : ℕ → Pcb) × (ticks (regs ∷ []) two ≡ ok t)
    × (t.current_pid ≡ 1)
    × Runs t at'
    × ((at' 1).state ≡ State.running)
every_process_runs_example = every_process_runs 1 (regs ∷ []) busy (omega arith) refl

abbrev fresh : Resources
fresh = record { fresh = some (process 9 State.waiting); vma_ctx = 4096; stack = 8192 }

spawn-Runs_example :
    (t : Sched) × (p : Pcb) × (spawn true 4096 4096 fresh (some 7) two ≡ ok (t, two.count))
    × Runs t (update at two.count p)
    × (t.count ≡ two.count + 1)
    × (t.current_pid ≡ two.current_pid)
    × (p.pid ≡ two.count)
    × (p.state ≡ State.ready)
    × (p.ctx.rip ≡ 4096)
    × (p.pagemap ≡ 4096)
    × (p.whoami ≡ record { uid = 0; gid = 0 })
    × Opens p (7 ∷ [])
spawn-Runs_example =
    spawn-Runs true 4096 4096 fresh (process 9 State.waiting) 7 two runs (omega arith) (omega arith)
      refl

abbrev pub same_pid : Pcb → ℕ
same_pid p = p.pid

-- the first process has ended by itself
abbrev ended : Sched
ended = record two { procs = some (process 0 State.terminated) ∷ some (at 1) ∷ replicate 2046 none }

-- a controller with all lines open
abbrev open_lines : Pic
open_lines = record { curmask = 0; master_data = 0; slave_data = 0; commands = [] }

interrupts-Acknowledged_example :
    (t : Sched) × (pic' : Pic) × (interrupts (regs ∷ regs ∷ regs ∷ []) two open_lines
      ≡ ok (t, pic'))
    × (t.current_pid ≡ (two.current_pid + length (regs ∷ regs ∷ regs ∷ [])) % two.count)
    × Acknowledged (length (regs ∷ regs ∷ regs ∷ [])) open_lines pic'
interrupts-Acknowledged_example = interrupts-Acknowledged (regs ∷ regs ∷ regs ∷ []) open_lines busy
