-- ===== src/Tests/Calls.antt =====
-- The theorems on system calls and on new nodes at a kernel of two processes and three nodes.
use shadow_os.Base.{
  ℕ, ◌≡◌, refl, some, [], ◌∷◌, ◌==◌, if◌then◌else◌, get_elem?, arith, length, ℤ, pos,
}
use shadow_os.Base.Outcome.{Outcome, ok, fault, halted, stuck}
use shadow_os.Base.Returning.{Returning}
use shadow_os.Memory.Chars.{Chars, strcmp}
use shadow_os.Sched.{State, get_current, slot, set_slot}
use shadow_os.Sched.Files.{find, add_vnode, add_to, read_fd, write_fd}
use shadow_os.Sched.Files.Padded.{padded}
use shadow_os.Sched.Files.Table.{Opens}
use shadow_os.Vfs.{Vnode, NodeType, Fs}
use shadow_os.Vfs
use shadow_os.Vfs.Access.{am_i_allowed, grants, bit_of}
use shadow_os.Vfs.Paths.{lookup, lazy_lookup, walk, split, skip_slash, find_child}
use shadow_os.Vfs.Paths.Children.{Child}
use shadow_os.Ramfs.Create.{create}
use shadow_os.Ramfs.Create.Children.{lookup-create}
use shadow_os.Syscall.{Kernel, sys_write, sys_open, sys_close, open_node, finish_open}
use shadow_os.Syscall.Permission.{Permitted, sys_write-Permitted}
use shadow_os.Syscall.Descriptors.{Runs, sys_close-sys_open}
use shadow_os.Syscall.Handler.{Call, current_entry, syscall_handler}
use shadow_os.Syscall.Handler.Status.{Left, current_entry_lem, syscall_handler-Left}
use shadow_os.Tests.Devices.{memory_of, b-Gives}
use shadow_os.Tests.Processes.{process, two, same_pid}
use shadow_os.Tests.Nodes.{plain, accepting, folder, folder-Chain}

abbrev b_child : Child
b_child = record { at = 24; text = b'b' ∷ []; behind = [] }

abbrev a_child : Child
a_child = record { at = 16; text = b'a' ∷ []; behind = [] }

lookup-create_example :
    (u : Fs) × (create 9 1
        (record { node = some 24; data_at = some 32; copy = memory_of })
        8
        (b'b' ∷ 0 ∷ [])
        NodeType.file
        folder
      ≡ ok (u, some 24))
    × (lookup 9 8 (b'b' ∷ 0 ∷ []) u ≡ ok (some 24))
lookup-create_example =
    lookup-create 9 1 8 24 32 memory_of NodeType.file folder
      (record plain { kind = NodeType.dir; child = 16 }) (a_child ∷ []) (b'b' ∷ []) [] []
      (b'b' ∷ []) [] refl folder-Chain (omega arith, tt) b-Gives refl refl (omega arith)
      (omega arith) (omega arith, tt)

-- the two processes, and a node 7 that is the superuser's
abbrev kernel : Kernel
kernel = record {
  sched = two;
  fs = record folder {
    nodes = λ n. if n == 7 then some (record plain { uid = 0 }) else folder.nodes n;
  };
  roots = 8 ∷ [];
}

abbrev path_at : ℕ → Chars
path_at a = b'/' ∷ b'a' ∷ 0 ∷ []

abbrev call : ℕ → Call
call rax = record { rax = rax; rdi = 0; rsi = 0; rdx = 0 }

first_entry : current_entry kernel ≡ ok (some 0)
first_entry = current_entry_lem kernel (process 0 State.running) refl

syscall_handler-Left_example :
    Returning
      (λ r. Left 0 r.1 r.0)
      (syscall_handler accepting 100 9 same_pid path_at (call 2) kernel)
syscall_handler-Left_example =
    syscall_handler-Left accepting 100 9 same_pid path_at (call 2) kernel 0 first_entry

-- the state that a call leaves
reached : Outcome (Kernel × ℤ) → Kernel
reached (ok r) = r.0
reached fault = kernel
reached halted = kernel
reached stuck = kernel

abbrev written : Kernel
written = reached (sys_write accepting 100 9 same_pid (pos 0) 4096 2 kernel)

written_lem : sys_write accepting 100 9 same_pid (pos 0) 4096 2 kernel ≡ ok (written, pos 2)
unfolding sys_write get_current reached Vfs.write Vfs.modify Vfs.lock Vfs.unlock_with Vfs.unlock
    Vfs.entry_of Vfs.run_write read_fd padded am_i_allowed grants bit_of
written_lem = refl

sys_write-Permitted_example :
    Permitted 2 (pos 0) (λ n. Vfs.write accepting 100 n 4096 2 0) 2 kernel written
sys_write-Permitted_example =
    sys_write-Permitted accepting 100 9 same_pid (pos 0) 4096 2 2 kernel written written_lem

opens_two : Opens (process 0 State.running) (7 ∷ 8 ∷ [])
opens_two = record { table = refl; counted = refl; fits = omega arith }

runs_two : Runs kernel (process 0 State.running) (7 ∷ 8 ∷ [])
runs_two = record { entry = refl; own_pid = refl; counted = omega arith; opens = opens_two }

abbrev opened : Kernel
opened = reached (sys_open accepting 100 9 same_pid (path_at 0) 0 NodeType.file kernel)

opened_lem :
    sys_open accepting 100 9 same_pid (path_at 0) 0 NodeType.file kernel ≡ ok (opened, pos 2)
unfolding sys_open get_current reached Vfs.modify open_node finish_open lazy_lookup walk split
    skip_slash lookup find_child add_vnode add_to find slot read_fd write_fd strcmp set_slot padded
opened_lem = refl

sys_close-sys_open_example :
    (k'' : Kernel) × (2 ≡ length {A = ℕ} (7 ∷ 8 ∷ []))
    × (sys_close (pos 2) opened ≡ ok (k'', pos 0))
    × (get_elem? k''.sched.procs 0 ≡ some (some (process 0 State.running)))
sys_close-sys_open_example =
    sys_close-sys_open accepting 100 9 same_pid kernel (process 0 State.running) (7 ∷ 8 ∷ [])
      runs_two (omega arith) (path_at 0) 0 NodeType.file opened 2 opened_lem
