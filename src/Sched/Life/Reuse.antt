-- ===== src/Sched/Life/Reuse.antt =====
-- What becomes of the process table when a process ends: the pids above `count` are lost.
use shadow_os.Base.{
  ℕ, ◌+◌, ◌-◌, ◌%◌, ◌^◌, ◌≤◌, ◌<◌, ◌≡◌, Bool, none, some, ◌==◌, if◌then◌else◌, get_elem?, set,
  length, arith, get_elem?-set, get_elem?-bound, get_elem?-set_self, length-set,
}
use shadow_os.Base.Outcome.{ok, halted, ◌>>=◌}
use shadow_os.Sched.{
  Pcb, Sched, RegisterCtx, tick, acquire, preempt_current, slot, set_slot, max_procs,
}
use shadow_os.Sched.Files.{find}
use shadow_os.Sched.Valid.{Runs}
use shadow_os.Sched.Life.Spawn.{newcomer, joined, spawn_lem}
use shadow_os.Sched.Life.{Resources, spawn, exit, new_process}

module _ (freed_pid : Pcb → ℕ) {s : Sched} {at : ℕ → Pcb} (v : Runs s at)
    (intact : freed_pid (at s.current_pid) ≡ s.current_pid) where
  -- the table once the current process has left it
  abbrev pub left : Sched
  left = record s {
    procs = set s.procs s.current_pid none;
    count = s.count - 1;
    current_pid = (s.current_pid + 1) % (s.count - 1);
  }

  current_slot : slot s s.current_pid ≡ ok (some (at s.current_pid))
  unfolding slot
  current_slot = ground (arith, v.at_slot s.current_pid)

  -- Ending the current process empties its entry and counts one process less; the last process
  -- takes the machine down.
  pub exit_lem : exit freed_pid s ≡ (if s.count == 1 then halted else ok left)
  unfolding exit set_slot
  exit_lem = ground (arith, current_slot, v.table, v.fits, v.current_in)

  -- After a process other than the last one of the table ends, the process with the highest pid
  -- still has its entry, but no operation that looks a pid up finds it.
  pub find-exit :
      s.current_pid < s.count - 1
      → (exit freed_pid s ≡ ok left)
        × (get_elem? left.procs (s.count - 1) ≡ some (some (at (s.count - 1))))
        × (find left (s.count - 1) ≡ ok none)
  unfolding find
  find-exit h = (
    ground (arith, exit_lem),
    ground (
      arith,
      get_elem?-set s.procs s.current_pid (s.count - 1) none,
      v.table,
      v.fits,
      v.at_slot (s.count - 1),
    ),
    ground arith,
  )

  -- After a process other than the last one of the table has ended, the next process that is
  -- spawned takes the pid of that last one, and its entry: the live process that held it is gone
  -- from the table.
  pub spawn-exit :
      (user : Bool) (entry pagemap : ℕ) (r : Resources) (raw : Pcb) (node : ℕ)
      → s.current_pid < s.count - 1
      → r.fresh ≡ some raw
      → let last = s.count - 1 in
        (t : Sched) × ((do u ← exit freed_pid s; spawn user entry pagemap r (some node) u)
          ≡ ok (t, last))
        × (get_elem? t.procs last ≡ some (some (newcomer user entry pagemap r raw node left)))
  spawn-exit user entry pagemap r raw node h e = (
    joined user entry pagemap r raw node left,
    rw (find-exit h).0 (spawn_lem user entry pagemap r raw node left e room small),
    get_elem?-set_self
        (set left.procs left.count (some (new_process user entry pagemap r left.count raw)))
        left.count (some (newcomer user entry pagemap r raw node left))
        (omega (
          arith,
          room,
          length-set left.procs left.count (some (new_process user entry pagemap r left.count raw)),
        )),
  )
    where
      size : length left.procs ≡ max_procs
      size = omega (arith, v.table, length-set s.procs s.current_pid none)

      room : left.count < length left.procs
      room = omega (arith, size, v.fits, v.some_process)

      small : length left.procs ≤ max_procs
      small = omega (arith, size)

  -- With two processes, the end of the first leaves `current_pid` at the empty entry, so that the
  -- next tick fails its assertion and halts the machine.
  pub tick-exit :
      (ctx : RegisterCtx)
      → s.count ≡ 2
      → s.current_pid ≡ 0
      → (do u ← exit freed_pid s; tick ctx u) ≡ halted
  unfolding tick acquire preempt_current slot
  tick-exit ctx two first =
      ground (arith, exit_lem, get_elem?-set s.procs s.current_pid 0 none, v.table, v.unlocked)

-- The same of a table of which no more is known than the entry of the current process.
pub exit-entry :
    (freed_pid : Pcb → ℕ) (s : Sched) (p : Pcb)
    → get_elem? s.procs s.current_pid ≡ some (some p)
    → freed_pid p ≡ s.current_pid
    → 1 < s.count
    → s.count < 2 ^ 64
    → exit freed_pid s
      ≡ ok (record s {
        procs = set s.procs s.current_pid none;
        count = s.count - 1;
        current_pid = (s.current_pid + 1) % (s.count - 1);
      })
unfolding exit set_slot slot
exit-entry freed_pid s p e same more small =
    ground (arith, e, same, get_elem?-bound s.procs s.current_pid e)
