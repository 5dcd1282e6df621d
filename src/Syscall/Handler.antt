-- ===== src/Syscall/Handler.antt =====
-- syscall_handler of kernel/src/sys/intr.c, with the table of kernel/src/sys/syscall.c.
pub mod Status
use shadow_os.Base.{
  ℕ, zero, suc, ◌+◌, ◌-◌, ◌%◌, ◌^◌, Bool, true, false, Option, none, some, ◌==◌, ltb, if◌then◌else◌,
  ℤ, pos, negsuc, get_elem?,
}
use mathlib.Core.Option
use shadow_os.Base.Outcome.{Outcome, ok, fault, ◌>>=◌}
use shadow_os.Memory.Chars.{Chars}
use shadow_os.Sched.{Sched, Pcb, slot, set_slot, get_current}
use shadow_os.Vfs.{NodeType, Ops}
use shadow_os.Syscall.{
  Kernel, Stat, einval, sys_exit, sys_open, sys_close, sys_write, sys_read, sys_stat, sys_setuid,
  sys_setgid, sys_ioctl, sys_getpid, sys_uname,
}

-- the registers that a call is read from
pub record Call : Type 0 where
  pub rax : ℕ
  pub rdi : ℕ
  pub rsi : ℕ
  pub rdx : ℕ

-- SYSCALL_TABLE_SIZE
abbrev pub table_size : ℕ
table_size = 11

-- the argument of type int that a register passes
abbrev pub to_int : ℕ → ℤ
to_int r = let m = r % 2 ^ 32 in if ltb m (2 ^ 31) then pos m else negsuc (2 ^ 32 - 1 - m)

-- A `vnode_type_t` by its number. A number that stands for none is taken for that of a device.
abbrev kind_of : ℕ → NodeType
kind_of r =
    let m = r % 2 ^ 8 in
    if m == 1
    then NodeType.dir
    else if m == 2
    then NodeType.file
    else if m == 3
    then NodeType.dev
    else NodeType.other

-- The write through a pointer to the process that stood in entry `i` at the start of the call. The
-- entry owns the object: no call but sys_exit empties an entry, which frees the object, and none puts
-- another process there.
unfoldable pub touch : ℕ → (Pcb → Pcb) → Kernel → Outcome Kernel
unfolding slot set_slot
touch i f k = do
  proc ← slot k.sched i
  elim proc [
    | none ↦ fault
    | some p ↦ do s ← set_slot k.sched i (some (f p)); ok (record k { sched = s })
  ]

-- `if (proc)`, with the entry that the pointer was read from
unfoldable pub touch_any : Option ℕ → (Pcb → Pcb) → Kernel → Outcome Kernel
unfolding touch
touch_any none f k = ok k
touch_any (some i) f k = touch i f k

unfoldable pub enter : Pcb → Pcb
enter p = record p { in_syscall = true }

unfoldable pub leave : ℤ → Pcb → Pcb
leave (pos n) p = record p { in_syscall = false }
leave (negsuc n) p = record p { errno = n + 1; in_syscall = false }

-- the entry of the current process, none where there is no process
unfoldable pub current_entry : Kernel → Outcome (Option ℕ)
current_entry k = do proc ← get_current k.sched; ok (Option.map (λ p. k.sched.current_pid) proc)

-- As for the calls, and what stands in the memory of the user at an address.
module _ (ops_at : ℕ → Ops) (now fuel : ℕ) (freed_pid : Pcb → ℕ) (text_at : ℕ → Chars) where
  -- `syscall_table[rax](…)`
  pub dispatch : Call → Kernel → Outcome (Kernel × ℤ)
  dispatch c k =
      if c.rax == 0
      then sys_exit ops_at now fuel freed_pid k
      else if c.rax == 1
      then sys_open ops_at now fuel freed_pid (text_at c.rdi) c.rsi (kind_of c.rdx) k
      else if c.rax == 2
      then sys_close (to_int c.rdi) k
      else if c.rax == 3
      then sys_write ops_at now fuel freed_pid (to_int c.rdi) c.rsi c.rdx k
      else if c.rax == 4
      then sys_read ops_at now fuel freed_pid (to_int c.rdi) c.rsi c.rdx k
      else if c.rax == 5
      then (do (k', out) ← sys_stat (to_int c.rdi) c.rsi k; ok (k', out.0))
      else if c.rax == 6
      then sys_setuid (c.rdi % 2 ^ 32) k
      else if c.rax == 7
      then sys_setgid (c.rdi % 2 ^ 32) k
      else if c.rax == 8
      then sys_ioctl ops_at now fuel freed_pid (to_int c.rdi) (c.rsi % 2 ^ 32) (c.rdx % 2 ^ 32) k
      else if c.rax == 9
      then sys_getpid k
      else sys_uname k

  -- The result is the status, which goes to `rax`.
  pub syscall_handler : Call → Kernel → Outcome (Kernel × ℤ)
  unfolding dispatch current_entry touch_any enter leave
  syscall_handler c k = do
    proc ← current_entry k
    entered ← touch_any proc enter k
    (called, status) ← (if ltb c.rax table_size then dispatch c entered else ok (entered, einval))
    left ← touch_any proc (leave status) called
    ok (left, status)
