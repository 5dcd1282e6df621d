-- ===== src/Syscall.antt =====
-- kernel/src/sys/syscall.c: the system calls, over the process table and the nodes of the file
-- system. An error is the negated number of kernel/src/util/errno.h.
pub mod Handler
pub mod Permission
pub mod Descriptors
use shadow_os.Base.{
  ℕ, zero, suc, ◌+◌, ◌-◌, Bool, true, false, not, ◌&&◌, Option, none, some, List, [], ◌∷◌, ◌==◌,
  ◌!=◌, if◌then◌else◌, ℤ, pos, negsuc, bit_and, drop, is_none, get_or,
}
use mathlib.Core.Option
use shadow_os.Base.Outcome.{Outcome, ok, fault, ◌>>=◌, ◌>>◌, deref, assert}
use shadow_os.Memory.Chars.{Chars, strrchr}
use shadow_os.Sched.{Sched, Pcb, User, set_slot, get_current}
use shadow_os.Sched.Files.{read_fd, add_vnode, remove_vnode}
use shadow_os.Sched.Life.{exit}
use shadow_os.Vfs.{Fs, Ops, Vnode, NodeType, modify, create_vnode}
use shadow_os.Vfs
use shadow_os.Vfs.Access.{am_i_allowed}
use shadow_os.Vfs.Paths.{lazy_lookup, lazy_lookup_last}

-- the globals that system calls reach; `roots` are the roots of the mounts, the first one's first
pub record Kernel : Type 0 where
  pub sched : Sched
  pub fs : Fs
  pub roots : List ℕ

-- What sys_stat writes.
pub record Stat : Type 0 where
  pub size : ℕ
  pub flags : ℕ
  pub kind : NodeType
  pub uid : ℕ
  pub gid : ℕ
  pub mode : ℕ

abbrev pub enoent : ℤ
enoent = negsuc 0

abbrev pub ebadf : ℤ
ebadf = negsuc 1

abbrev pub efault : ℤ
efault = negsuc 2

abbrev pub einval : ℤ
einval = negsuc 3

abbrev pub ebadpid : ℤ
ebadpid = negsuc 4

abbrev pub enotimpl : ℤ
enotimpl = negsuc 5

abbrev pub eacces : ℤ
eacces = negsuc 6

abbrev pub enotty : ℤ
enotty = negsuc 7

abbrev pub esrch : ℤ
esrch = negsuc 8

-- `if (!scheduler_get_current()) return -ESRCH;` before the rest
unfoldable pub or_esrch :
    (Pcb → Kernel → Outcome (Kernel × ℤ)) → Kernel → Option Pcb → Outcome (Kernel × ℤ)
or_esrch f k none = ok (k, esrch)
or_esrch f k (some p) = f p k

unfoldable pub with_current : (Pcb → Kernel → Outcome (Kernel × ℤ)) → Kernel → Outcome (Kernel × ℤ)
unfolding or_esrch
with_current f k = do proc ← get_current k.sched; or_esrch f k proc

-- a write through the pointer to the current process
unfoldable pub set_current : Pcb → Kernel → Outcome (Kernel × ℤ)
unfolding set_slot
set_current p k = do
  s ← set_slot k.sched k.sched.current_pid (some p)
  ok (record k { sched = s }, pos 0)

-- `fd_table[fd]`: the code does not test the range of `fd`.
unfoldable pub node_of : Pcb → ℤ → Outcome (Option ℕ)
node_of p (pos fd) = read_fd p.fd_table fd
node_of p (negsuc i) = fault

-- FILENAME_FROM_PATH. Behind a `/` at the end there is nothing, and one byte in front is taken.
unfoldable pub filename_from_path : Chars → Outcome Chars
filename_from_path path = do
  last ← deref (strrchr path b'/')
  elim last [
    | none ↦ ok path
    | some i ↦
        if get_or path (i + 1) 0 != 0
        then ok (drop (i + 1) path)
        else if i == 0
        then ok (b'/' ∷ 0 ∷ [])
        else ok (drop (i - 1) path)
  ]

-- the result of a read or a write, as sys_read and sys_write pass it on
unfoldable pub or_enotimpl : ℤ → ℤ
or_enotimpl (pos n) = pos n
or_enotimpl (negsuc zero) = enotimpl
or_enotimpl (negsuc (suc n)) = negsuc (suc n)

-- The result of scheduler_proc_remove_vnode
close_status : ℤ → ℤ
close_status (pos n) = pos 0
close_status (negsuc zero) = ebadf
close_status (negsuc (suc zero)) = ebadpid
close_status (negsuc (suc (suc n))) = pos 0

pub sys_close : ℤ → Kernel → Outcome (Kernel × ℤ)
unfolding with_current close_status
sys_close fd = with_current λ p k. do
  (s, status) ← remove_vnode p.pid fd k.sched
  ok (record k { sched = s }, close_status status)

pub sys_setuid : ℕ → Kernel → Outcome (Kernel × ℤ)
unfolding with_current set_current
sys_setuid uid =
    with_current λ p. set_current (record p { whoami = record { uid = uid; gid = p.whoami.gid } })

pub sys_setgid : ℕ → Kernel → Outcome (Kernel × ℤ)
unfolding with_current set_current
sys_setgid gid =
    with_current λ p. set_current (record p { whoami = record { uid = p.whoami.uid; gid = gid } })

-- The pid is cut to an int, which it fits.
pub sys_getpid : Kernel → Outcome (Kernel × ℤ)
unfolding with_current
sys_getpid = with_current λ p k. ok (k, pos p.pid)

pub sys_uname : Kernel → Outcome (Kernel × ℤ)
sys_uname k = ok (k, enotimpl)

stat_of : Vnode → Stat
stat_of v = record {
  size = v.size;
  flags = v.flags;
  kind = v.kind;
  uid = v.uid;
  gid = v.gid;
  mode = v.mode;
}

-- The buffer is a pointer, 0 for NULL; what is written to it comes with the result.
pub sys_stat : ℤ → ℕ → Kernel → Outcome (Kernel × (ℤ × Option Stat))
unfolding node_of stat_of
sys_stat fd buf k = do
  proc ← get_current k.sched
  elim proc [
    | none ↦ ok (k, (esrch, none))
    | some p ↦ if buf == 0 then ok (k, (efault, none)) else (do
      node ← node_of p fd
      elim node [
        | none ↦ ok (k, (ebadf, none))
        | some n ↦ do v ← deref (k.fs.nodes n); ok (k, (pos 0, some (stat_of v)))
      ])
  ]

-- What sys_read and sys_write do before and after the call of the file system: `action` is the
-- right that they ask for.
unfoldable pub checked_node :
    ℕ → ℕ → ℕ → (ℕ → Fs → Outcome (Fs × ℤ)) → Pcb → Kernel → Option ℕ → Outcome (Kernel × ℤ)
unfolding or_enotimpl
checked_node action buff size call p k none = ok (k, ebadf)
checked_node action buff size call p k (some n) = do
  v ← deref (k.fs.nodes n)
  (if not (am_i_allowed (some v) p.whoami.uid p.whoami.gid action) then ok (k, eacces) else (do
    assert (buff != 0)
    assert (size != 0)
    (fs, ret) ← call n k.fs
    ok (record k { fs = fs }, or_enotimpl ret)))

unfoldable pub checked : ℕ → ℤ → ℕ → ℕ → (ℕ → Fs → Outcome (Fs × ℤ)) → Kernel → Outcome (Kernel × ℤ)
unfolding with_current node_of checked_node
checked action fd buff size call =
    with_current λ p k. do node ← node_of p fd; checked_node action buff size call p k node

-- The tables of operations by address, the time, the fuel for lists of children, and what a read of
-- a freed process finds as its pid.
module _ (ops_at : ℕ → Ops) (now fuel : ℕ) (freed_pid : Pcb → ℕ) where
  unfoldable pub sys_write : ℤ → ℕ → ℕ → Kernel → Outcome (Kernel × ℤ)
  unfolding checked
  sys_write fd buff size = checked 2 fd buff size (λ n. Vfs.write ops_at now n buff size 0)

  pub sys_read : ℤ → ℕ → ℕ → Kernel → Outcome (Kernel × ℤ)
  unfolding checked
  sys_read fd buff size = checked 1 fd buff size (λ n. Vfs.read ops_at now n buff size 0)

  pub sys_exit : Kernel → Outcome (Kernel × ℤ)
  unfolding with_current
  sys_exit = with_current λ p k. do s ← exit freed_pid k.sched; ok (record k { sched = s }, pos 0)

  -- `node->ops->ioctl` through a NULL `ops` is a fault.
  pub sys_ioctl : ℤ → ℕ → ℕ → Kernel → Outcome (Kernel × ℤ)
  unfolding with_current node_of
  sys_ioctl fd cmd arg = with_current λ p k. do
    node ← node_of p fd
    elim node [
      | none ↦ ok (k, ebadf)
      | some n ↦ do
        v ← deref (k.fs.nodes n)
        (if v.ops == 0 then fault else elim ((ops_at v.ops).ioctl) [
          | none ↦ ok (k, enotty)
          | some f ↦ do (fs, ret) ← f n cmd arg k.fs; ok (record k { fs = fs }, ret)
        ])
    ]

  -- `node` after the first two steps of sys_open: looked up, or else created if the flag asks for it
  unfoldable pub open_node : Chars → ℕ → NodeType → Kernel → Outcome (Fs × Option ℕ)
  unfolding filename_from_path
  open_node path flags kind k = do
    found ← lazy_lookup fuel k.roots path k.fs
    (if (bit_and flags 1 != 0) && is_none found
        then (do
          parent ← lazy_lookup_last fuel (elim k.roots [ [] ↦ none | r ∷ _ ↦ some r ]) path k.fs
          name ← filename_from_path path
          n ← deref parent
          create_vnode ops_at now n name kind k.fs)
        else ok (k.fs, found))

  -- what follows, for the node or NULL
  unfoldable pub finish_open : Pcb → Kernel → Fs → Option ℕ → Outcome (Kernel × ℤ)
  unfolding modify
  finish_open p k fs none = ok (record k { fs = fs }, enoent)
  finish_open p k fs (some n) = do
    fs' ← modify n (λ v. record v { access_time = now }) fs
    (s, fd) ← add_vnode p.pid (some n) k.sched
    ok (record k { sched = s; fs = fs' }, fd)

  unfoldable pub sys_open : Chars → ℕ → NodeType → Kernel → Outcome (Kernel × ℤ)
  unfolding with_current open_node finish_open
  sys_open path flags kind =
      with_current λ p k. do (fs, node) ← open_node path flags kind k; finish_open p k fs node
