-- ===== src/Sched.antt =====
-- kernel/src/proc/scheduler.c and scheduler.h: the process table, the timer tick, and the open
-- files of a process. The operations on file descriptors are in Files, those that create and end
-- processes in Life.
pub mod Files
pub mod Life
pub mod Valid
pub mod Tick
pub mod RoundRobin
use shadow_os.Base.{
  ℕ, zero, suc, ◌+◌, ◌-◌, ◌*◌, ◌%◌, ◌^◌, Bool, true, false, not, ◌&&◌, Option, none, some, List, [],
  ◌∷◌, ◌==◌, ◌!=◌, if◌then◌else◌, get_elem?, set, replicate, length, ltb,
}
use shadow_os.Base.Outcome.{Outcome, ok, fault, stuck, ◌>>=◌, ◌>>◌, assert, assert_some}

abbrev pub default_time : ℕ
default_time = 1

abbrev pub max_procs : ℕ
max_procs = 2048

abbrev pub max_fds : ℕ
max_fds = 1024

-- `process_state_t`
pub data State : Type 0 where
  ready running waiting terminated : State

-- `user_t`
pub record User : Type 0 where
  pub uid : ℕ
  pub gid : ℕ

-- `struct register_ctx`: `others` are the registers from `es` to `err`, which this code only moves.
pub record RegisterCtx : Type 0 where
  pub others : List ℕ
  pub rip : ℕ
  pub cs : ℕ
  pub rflags : ℕ
  pub rsp : ℕ
  pub ss : ℕ

-- `pcb_t`. Pointers to page maps, nodes and memory contexts are numbers, 0 for NULL, but an entry of
-- the descriptor table is an option.
pub record Pcb : Type 0 where
  pub ctx : RegisterCtx
  pub pid : ℕ
  pub state : State
  pub timeslice : ℕ
  pub pagemap : ℕ
  pub fd_table : List (Option ℕ)
  pub fd_count : ℕ
  pub errno : ℕ
  pub whoami : User
  pub vma_ctx : ℕ
  pub in_syscall : Bool

-- The globals, with the page map that the processor has loaded. `procs` before its allocation, and
-- after one that failed, is [].
pub record Sched : Type 0 where
  pub procs : List (Option Pcb)
  pub count : ℕ
  pub current_pid : ℕ
  pub locked : Bool
  pub cr3 : ℕ

-- `uint64_t` decrement
abbrev pub dec64 : ℕ → ℕ
dec64 n = (n + 2 ^ 64 - 1) % 2 ^ 64

-- `procs[i]`
unfoldable pub slot : Sched → ℕ → Outcome (Option Pcb)
slot s i = elim (get_elem? s.procs i) [ none ↦ fault | some p ↦ ok p ]

-- `procs[i] = p`
unfoldable pub set_slot : Sched → ℕ → Option Pcb → Outcome Sched
set_slot s i p = if ltb i (length s.procs) then ok (record s { procs = set s.procs i p }) else fault

-- `spinlock_acquire(&lock)` and its release
unfoldable pub acquire : Sched → Outcome Sched
acquire s = if s.locked then stuck else ok (record s { locked = true })

unfoldable pub release : Sched → Sched
release s = record s { locked = false }

-- `kcalloc` gives a zeroed table, or NULL.
pub init : Bool → Sched → Sched
init allocated s = record s { procs = if allocated then replicate max_procs none else [] }

is_running : State → Bool
is_running State.running = true
is_running State.ready = false
is_running State.waiting = false
is_running State.terminated = false

-- The process that the timer interrupted: its registers are saved, and its time runs down.
pub preempt : RegisterCtx → Sched → Pcb → Outcome Sched
unfolding is_running set_slot
preempt ctx s p =
    let left = dec64 p.timeslice in
    if not (is_running p.state && not p.in_syscall)
    then ok s
    else if left == 0
    then (do
      s' ←
          set_slot s s.current_pid
            (some (record p { ctx = ctx; state = State.ready; timeslice = default_time }))
      ok (record s' { current_pid = (s.current_pid + 1) % s.count }))
    else set_slot s s.current_pid (some (record p { ctx = ctx; timeslice = left }))

-- `if (proc && …)` of scheduler_tick
pub preempt_current : RegisterCtx → Sched → Outcome Sched
unfolding preempt slot
preempt_current ctx s = do
  proc ← slot s s.current_pid
  elim proc [ none ↦ ok s | some p ↦ preempt ctx s p ]

-- A terminated process leaves the table. Both ways out return; one does not release the lock.
pub reap : RegisterCtx → Sched → Pcb → Outcome (Sched × RegisterCtx)
unfolding set_slot release
reap ctx s p = do
  s' ← set_slot s p.pid none
  let c = dec64 s'.count
  let s'' = record s' { count = c }
  ok (if c == 0 then release s'' else s'', ctx)

-- The process at `current_pid` is given the processor.
pub dispatch : RegisterCtx → Sched → Pcb → Outcome (Sched × RegisterCtx)
unfolding reap set_slot release
dispatch ctx s p = elim p.state [
  | ready ↦ do
    assert (p.pagemap != 0)
    s' ← set_slot s s.current_pid (some (record p { state = State.running }))
    ok (release (record s' { cr3 = p.pagemap }), p.ctx)
  | terminated ↦ reap ctx s p
  | running ↦ ok (release s, ctx)
  | waiting ↦ ok (release s, ctx)
]

-- `ctx` is the interrupt frame, which is never NULL; it is returned as it is left.
pub tick : RegisterCtx → Sched → Outcome (Sched × RegisterCtx)
unfolding preempt_current dispatch slot acquire release
tick ctx s = do
  s' ← acquire s
  if s'.count == 0 then ok (release s', ctx) else do
    t ← preempt_current ctx s'
    next ← slot t t.current_pid
    p ← assert_some next
    dispatch ctx t p

unfoldable pub get_current : Sched → Outcome (Option Pcb)
unfolding slot
get_current s = elim s.procs [ [] ↦ ok none | _ ∷ _ ↦ slot s s.current_pid ]
