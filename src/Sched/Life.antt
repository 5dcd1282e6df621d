-- ===== src/Sched/Life.antt =====
-- scheduler_spawn and scheduler_exit of kernel/src/proc/scheduler.c. What they ask of the memory
-- code comes in as its results; the mappings that it adds to the page map of the new process are
-- no part of the state here.
pub mod Spawn
pub mod Reuse
use shadow_os.Base.{
  ℕ, ◌+◌, ◌-◌, ◌*◌, ◌%◌, ◌^◌, Bool, true, false, Option, none, some, ◌==◌, if◌then◌else◌, replicate,
}
use shadow_os.Base.Outcome.{Outcome, ok, halted, ◌>>=◌}
use shadow_os.Sched.{
  RegisterCtx, Sched, Pcb, State, User, slot, set_slot, max_fds, default_time, dec64,
}
use shadow_os.Sched.Files.{add_vnode}

-- What a new process is given: `kmalloc`'s object, whose contents are arbitrary, or NULL; the
-- result of `vma_create_context`; that of `vma_alloc` for the stack.
pub record Resources : Type 0 where
  pub fresh : Option Pcb
  pub vma_ctx : ℕ
  pub stack : ℕ

abbrev pub root : User
root = record { uid = 0; gid = 0 }

-- The process control block as scheduler_spawn fills it in, over what the object held.
pub new_process : Bool → ℕ → ℕ → Resources → ℕ → Pcb → Pcb
new_process user entry pagemap r pid raw = record raw {
  ctx = record raw.ctx {
    rip = entry;
    cs = if user then 0x1b else 0x08;
    rflags = 0x202;
    rsp = (r.stack + (4096 * 4 - 1)) % 2 ^ 64;
    ss = if user then 0x23 else 0x10;
  };
  pid = pid;
  state = State.ready;
  timeslice = default_time;
  pagemap = pagemap;
  fd_table = replicate max_fds none;
  fd_count = 0;
  errno = 0;
  whoami = root;
  vma_ctx = r.vma_ctx;
  in_syscall = false;
}

-- `out` is `stdout`. The result is the new pid, or -1 as a uint64_t.
pub spawn : Bool → ℕ → ℕ → Resources → Option ℕ → Sched → Outcome (Sched × ℕ)
unfolding new_process set_slot
spawn user entry pagemap r out s = elim r.fresh [
  | none ↦ ok (s, 2 ^ 64 - 1)
  | some raw ↦ do
    let pid = s.count
    t ←
        set_slot (record s { count = (pid + 1) % 2 ^ 64 }) pid
          (some (new_process user entry pagemap r pid raw))
    (u, fd) ← add_vnode pid out t
    ok (u, pid)
]

-- An entry of the table stands for the pointer and for the object behind it: the entry that is emptied
-- is the object that is freed. The page map that vmm_destroy_pagemap gives back is no part of the state.
-- After `kfree(proc)` the code reads `proc->pid`: the parameter is what that read gives.
module _ (freed_pid : Pcb → ℕ) where
  -- Without processes `die_func` is called and the processor is halted.
  pub exit : Sched → Outcome Sched
  unfolding slot set_slot
  exit s = do
    proc ← slot s s.current_pid
    elim proc [
      | none ↦ ok s
      | some p ↦ do
        t ← set_slot s (freed_pid p) none
        let c = dec64 t.count
        let u = record t { count = c; current_pid = if c == 0 then 0 else (t.current_pid + 1) % c }
        if c == 0 then halted else ok u
    ]
