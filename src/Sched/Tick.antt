-- ===== src/Sched/Tick.antt =====
-- The timer tick on a valid process table: round robin with one tick for each process.
use shadow_os.Base.{
  ℕ, ◌+◌, ◌%◌, ◌^◌, ◌<◌, ◌≡◌, true, false, some, get_elem?, set, length, arith, get_elem?-set,
  length-set,
}
use shadow_os.Base.Outcome.{ok, stuck, ◌>>=◌}
use shadow_os.Sched.{
  State, Pcb, Sched, RegisterCtx, is_running, tick, slot, preempt, preempt_current, dispatch,
  acquire, reap, release, set_slot,
}
use shadow_os.Sched.Valid.{IsLive, Runs, Runs-set, update, saved, resumed, given}

module _ {s : Sched} {at : ℕ → Pcb} (ctx : RegisterCtx) (v : Runs s at) where
  slot_current : slot (record s { locked = true }) s.current_pid ≡ ok (some (at s.current_pid))
  unfolding slot
  slot_current = ground (arith, v.at_slot s.current_pid)

  -- A process that is ready is started: it gets its registers and its page map.
  pub tick_ready :
      (at s.current_pid).state ≡ State.ready
      → tick ctx s ≡ ok (given s s.procs s.current_pid (at s.current_pid), (at s.current_pid).ctx)
  unfolding tick acquire preempt_current preempt is_running dispatch set_slot release given
  tick_ready e =
      ground (arith, slot_current, v.at_slot s.current_pid, v.live s.current_pid, v.table)

  -- A process in a system call keeps the processor.
  pub tick_syscall :
      (at s.current_pid).state ≡ State.running
      → (at s.current_pid).in_syscall ≡ true
      → tick ctx s ≡ ok (record s { locked = false }, ctx)
  unfolding tick
  tick_syscall e f = ground (arith, slot_current, v.at_slot s.current_pid)

  -- the pid whose turn comes next
  abbrev pub next_pid : ℕ
  next_pid = (s.current_pid + 1) % s.count

  -- the processes once the running one is saved
  abbrev pub parked : ℕ → Pcb
  parked = update at s.current_pid (saved ctx (at s.current_pid))

  next_in : next_pid < s.count
  next_in = ground (arith, v.some_process, v.current_in)

  slot_next :
      slot
        (record s {
          procs = set s.procs s.current_pid (some (saved ctx (at s.current_pid)));
          locked = true;
          current_pid = next_pid;
        })
        next_pid
      ≡ ok (some (parked next_pid))
  unfolding slot
  slot_next = ground (
    arith,
    get_elem?-set s.procs s.current_pid next_pid (some (saved ctx (at s.current_pid))),
    v.at_slot next_pid,
    next_in,
    v.table,
  )

  preempted :
      (at s.current_pid).state ≡ State.running
      → (at s.current_pid).in_syscall ≡ false
      → preempt_current ctx (record s { locked = true })
        ≡ ok (record s {
          procs = set s.procs s.current_pid (some (saved ctx (at s.current_pid)));
          locked = true;
          current_pid = next_pid;
        })
  unfolding preempt_current preempt is_running set_slot saved
  preempted e f =
      ground (arith, slot_current, v.at_slot s.current_pid, v.live s.current_pid, v.table)

  parked_ready : (j : ℕ) → j < s.count → (parked j).state ≡ State.ready
  unfolding saved
  parked_ready j h = ground (arith, v.only_current j h)

  parked-IsLive : (j : ℕ) → j < s.count → IsLive j (parked j)
  unfolding saved
  parked-IsLive j h = ground (arith, v.live j h)

  -- On a valid table, a running process outside of system calls gives the processor up after one
  -- tick: its registers are saved, and the next process in the order of pids is started with its
  -- own registers.
  pub tick_running :
      (at s.current_pid).state ≡ State.running
      → (at s.current_pid).in_syscall ≡ false
      → tick ctx s
        ≡ ok (
          given s
              (set s.procs s.current_pid (some (saved ctx (at s.current_pid))))
              next_pid
              (parked next_pid),
          (parked next_pid).ctx,
        )
  unfolding tick acquire dispatch set_slot release given
  tick_running e f =
      let p = saved ctx (at s.current_pid) in
      ground (
        arith,
        preempted e f,
        slot_next,
        parked_ready next_pid next_in,
        parked-IsLive next_pid next_in,
        length-set s.procs s.current_pid (some p),
        v.table,
        next_in,
      )

  -- The table that such a tick leaves is valid.
  pub Runs-given :
      Runs
        (given s
          (set s.procs s.current_pid (some (saved ctx (at s.current_pid))))
          next_pid
          (parked next_pid))
        (update parked next_pid (resumed (parked next_pid)))
  unfolding given saved resumed
  Runs-given =
      Runs-set next_pid next_pid (resumed (parked next_pid)) (parked next_pid).pagemap mid next_in
        next_in (ground (arith, parked-IsLive next_pid next_in))
        (λ j hj ne. ground (arith, parked_ready j hj))
    where
      mid :
          Runs
            (record s {
              procs = set s.procs s.current_pid (some (saved ctx (at s.current_pid)));
              current_pid = next_pid;
              locked = false;
              cr3 = s.cr3;
            })
            parked
      mid =
          Runs-set s.current_pid next_pid (saved ctx (at s.current_pid)) s.cr3 v v.current_in
            next_in (ground (arith, v.live s.current_pid)) (λ j hj ne. parked_ready j hj)

-- A tick that finds the current process terminated, with others left, returns with the lock held:
-- the tick after it spins for ever.
pub tick_terminated :
    (ctx : RegisterCtx) (s : Sched) (p : Pcb)
    → s.locked ≡ false
    → 1 < s.count
    → s.count < 2 ^ 64
    → get_elem? s.procs s.current_pid ≡ some (some p)
    → p.state ≡ State.terminated
    → p.pid < length s.procs
    → (do (t, regs) ← tick ctx s; tick regs t) ≡ stuck
unfolding tick acquire preempt_current preempt is_running dispatch reap slot set_slot release
tick_terminated ctx s p free more fits here done inside = ground arith
