-- ===== src/Sched/Life/Spawn.antt =====
-- What scheduler_spawn adds to the process table.
use shadow_os.Base.{
  ℕ, zero, suc, ◌+◌, ◌%◌, ◌^◌, ◌≤◌, ◌<◌, ◌≡◌, ◌≢◌, refl, Bool, none, some, [], ◌∷◌, set, length,
  arith, get_elem?-set, length-set, ap, lt→ltb, replicate,
}
use shadow_os.Base.Outcome.{ok}
use shadow_os.Sched.{Pcb, State, Sched, slot, set_slot, max_procs, max_fds}
use shadow_os.Sched.Files.{find}
use shadow_os.Sched.Files.Padded.{padded}
use shadow_os.Sched.Files.Table.{Opens, with_files, add_vnode_lem}
use shadow_os.Sched.Valid.{Runs, update}
use shadow_os.Sched.Life.{Resources, spawn, new_process}

padded-nil : (k : ℕ) → replicate k none ≡ padded k []
unfolding padded
padded-nil zero = refl
padded-nil (suc k) = ap (λ t. none ∷ t) (padded-nil k)

-- A new process has no open file.
new_process-Opens :
    (user : Bool) (entry pagemap : ℕ) (r : Resources) (pid : ℕ) (raw : Pcb)
    → Opens (new_process user entry pagemap r pid raw) []
unfolding new_process
new_process-Opens user entry pagemap r pid raw = record {
  table = padded-nil max_fds;
  counted = refl;
  fits = omega arith;
}

module _ (user : Bool) (entry pagemap : ℕ) (r : Resources) (raw : Pcb) (node : ℕ) (s : Sched) where
  -- the new process, with `stdout` as descriptor 0
  abbrev pub newcomer : Pcb
  newcomer = with_files (new_process user entry pagemap r s.count raw) (node ∷ [])

  -- the table that holds it
  abbrev pub joined : Sched
  joined = record s {
    procs =
        set (set s.procs s.count (some (new_process user entry pagemap r s.count raw))) s.count
          (some newcomer);
    count = s.count + 1;
  }

  -- Where the table has room, a new process gets the pid `count`, and standard output.
  pub spawn_lem :
      r.fresh ≡ some raw
      → s.count < length s.procs
      → length s.procs ≤ max_procs
      → spawn user entry pagemap r (some node) s ≡ ok (joined, s.count)
  unfolding spawn set_slot
  spawn_lem e room small = rw (
    e,
    wrap,
    lt→ltb s.count (length s.procs) room,
    add_vnode_lem started s.count first [] found
        (new_process-Opens user entry pagemap r s.count raw) node,
  )
    where
      first : Pcb
      first = new_process user entry pagemap r s.count raw

      started : Sched
      started = record s { procs = set s.procs s.count (some first); count = s.count + 1 }

      wrap : (s.count + 1) % 2 ^ 64 ≡ s.count + 1
      wrap = omega arith

      found : find started s.count ≡ ok (some first)
      found = unfold find slot in ground (arith, get_elem?-set s.procs s.count s.count (some first))

  joined-Runs :
      {at : ℕ → Pcb}
      → Runs s at
      → s.count < max_procs
      → pagemap ≢ 0
      → Runs joined (update at s.count newcomer)
  unfolding new_process with_files
  joined-Runs {at} v room mapped = record {
    table = omega (
      arith,
      v.table,
      length-set s.procs s.count (some first),
      length-set (set s.procs s.count (some first)) s.count (some newcomer),
    );
    some_process = omega arith;
    fits = omega arith;
    current_in = omega (arith, v.current_in);
    unlocked = v.unlocked;
    at_slot = λ i h. ground (
      arith,
      get_elem?-set s.procs s.count i (some first),
      get_elem?-set (set s.procs s.count (some first)) s.count i (some newcomer),
      length-set s.procs s.count (some first),
      v.table,
      v.at_slot i,
    );
    live = λ i h. ground (arith, v.live i);
    only_current = λ i h ne. ground (arith, v.only_current i);
  }
    where
      first : Pcb
      first = new_process user entry pagemap r s.count raw

  -- Where the table is valid and has room, with a live process in every entry below the count, there
  -- is a standard output, kmalloc gives an object and the page map is not NULL: scheduler_spawn returns
  -- the old count as the pid, and leaves a table that is valid again, with one process more, which is
  -- live; the new process stands at its pid, is ready, starts at the entry point with its page map as
  -- root, and has standard output as its only open file; the other processes and the turn are as they
  -- were.
  pub spawn-Runs :
      {at : ℕ → Pcb}
      → Runs s at
      → s.count < max_procs
      → pagemap ≢ 0
      → r.fresh ≡ some raw
      → (t : Sched) × (p : Pcb) × (spawn user entry pagemap r (some node) s ≡ ok (t, s.count))
        × Runs t (update at s.count p)
        × (t.count ≡ s.count + 1)
        × (t.current_pid ≡ s.current_pid)
        × (p.pid ≡ s.count)
        × (p.state ≡ State.ready)
        × (p.ctx.rip ≡ entry)
        × (p.pagemap ≡ pagemap)
        × (p.whoami ≡ record { uid = 0; gid = 0 })
        × Opens p (node ∷ [])
  unfolding new_process with_files
  spawn-Runs {at} v room mapped e = (
    joined,
    newcomer,
    spawn_lem e (omega (arith, v.table, room)) (omega (arith, v.table)),
    joined-Runs v room mapped,
    refl,
    refl,
    refl,
    refl,
    refl,
    refl,
    refl,
    record { table = refl; counted = refl; fits = omega arith },
  )
