-- ===== src/Sched/Files.antt =====
-- The descriptor table of a process: scheduler_proc_add_vnode, scheduler_proc_remove_vnode and
-- scheduler_proc_change_whoami.
pub mod Padded
pub mod Table
use shadow_os.Base.{
  ℕ, zero, suc, ◌+◌, ◌-◌, ◌*◌, ◌%◌, ◌^◌, Bool, true, false, not, ◌&&◌, Option, none, some, List, [],
  ◌∷◌, ◌==◌, ◌!=◌, if◌then◌else◌, get_elem?, set, replicate, length, ltb, leb, ℤ, pos, negsuc,
  is_none,
}
use shadow_os.Base.Outcome.{Outcome, ok, fault, stuck, ◌>>=◌, ◌>>◌, assert, assert_some}
use shadow_os.Sched.{Sched, Pcb, User, slot, set_slot, max_fds, dec64}

-- `pid >= count || procs[pid] == NULL`, in C's order: NULL also stands for the first test
unfoldable pub find : Sched → ℕ → Outcome (Option Pcb)
unfolding slot
find s pid = if leb s.count pid then ok none else slot s pid

-- `fd_table[i]`
unfoldable pub read_fd : List (Option ℕ) → ℕ → Outcome (Option ℕ)
read_fd t i = elim (get_elem? t i) [ none ↦ fault | some n ↦ ok n ]

-- `fd_table[i] = n`
unfoldable pub write_fd : List (Option ℕ) → ℕ → Option ℕ → Outcome (List (Option ℕ))
write_fd t i n = if ltb i (length t) then ok (set t i n) else fault

-- `node` may be NULL, which fails an assertion. The result is an int.
unfoldable pub add_to : Sched → Pcb → ℕ → Option ℕ → Outcome (Sched × ℤ)
unfolding set_slot write_fd
add_to s p pid node = do
  n ← assert_some node
  if leb max_fds p.fd_count then ok (s, negsuc 0) else do
    t ← write_fd p.fd_table p.fd_count (some n)
    s' ← set_slot s pid (some (record p { fd_table = t; fd_count = p.fd_count + 1 }))
    ok (s', pos p.fd_count)

unfoldable pub add_vnode : ℕ → Option ℕ → Sched → Outcome (Sched × ℤ)
unfolding find add_to
add_vnode pid node s = do
  proc ← find s pid
  elim proc [ none ↦ ok (s, negsuc 0) | some p ↦ add_to s p pid node ]

-- `for (i = fd; i < fd_count - 1; i++) fd_table[i] = fd_table[i + 1];` over the rounds left
pub shift_down : ℕ → ℕ → List (Option ℕ) → Outcome (List (Option ℕ))
unfolding read_fd write_fd
shift_down zero i t = ok t
shift_down (suc n) i t = do
  next ← read_fd t (i + 1)
  t' ← write_fd t i next
  shift_down n (i + 1) t'

-- the removal itself: the loop, then `fd_table[--fd_count] = NULL`
pub close_fd : ℕ → Pcb → Outcome Pcb
unfolding shift_down write_fd
close_fd fd p = do
  let c = dec64 p.fd_count
  t ← shift_down (c - fd) fd p.fd_table
  t' ← write_fd t c none
  ok (record p { fd_table = t'; fd_count = c })

pub remove_from : Sched → Pcb → ℕ → ℤ → Outcome (Sched × ℤ)
unfolding read_fd close_fd set_slot
remove_from s p pid (negsuc k) = ok (s, negsuc 0)
remove_from s p pid (pos fd) = if leb max_fds fd then ok (s, negsuc 0) else do
  n ← read_fd p.fd_table fd
  if is_none n
      then ok (s, negsuc 0)
      else do p' ← close_fd fd p; s' ← set_slot s pid (some p'); ok (s', pos 0)

pub remove_vnode : ℕ → ℤ → Sched → Outcome (Sched × ℤ)
unfolding find remove_from
remove_vnode pid fd s = do
  proc ← find s pid
  elim proc [ none ↦ ok (s, negsuc 1) | some p ↦ remove_from s p pid fd ]

pub change_whoami : ℕ → User → Sched → Outcome (Sched × ℤ)
unfolding find set_slot
change_whoami pid info s = do
  proc ← find s pid
  elim proc [
    | none ↦ ok (s, negsuc 1)
    | some p ↦ do s' ← set_slot s pid (some (record p { whoami = info })); ok (s', pos 0)
  ]
