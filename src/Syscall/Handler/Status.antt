-- ===== src/Syscall/Handler/Status.antt =====
-- What syscall_handler leaves of the process that made the call.
use shadow_os.Base.{
  ℕ, ◌+◌, ◌-◌, ◌%◌, ◌^◌, ◌≤◌, ◌<◌, ◌≡◌, ◌≢◌, refl, true, false, Option, none, some, List, ltb,
  if◌then◌else◌, ℤ, pos, negsuc, get_elem?, set, length, arith, get_elem?-set_self, get_elem?-bound,
  get_elem?-set_ne, length-set, sym, ◌∙◌,
}
use shadow_os.Base.Outcome.{ok, fault}
use shadow_os.Base.Returning.{Returning, Returning-bind, Returning-next, Returning-intro}
use shadow_os.Memory.Chars.{Chars}
use shadow_os.Sched.{Pcb, slot, set_slot}
use shadow_os.Sched.Life.Reuse.{exit-entry}
use shadow_os.Sched.Valid.{get_current_lem}
use shadow_os.Vfs.{Ops}
use shadow_os.Syscall.{Kernel, einval, sys_exit}
use shadow_os.Syscall.Handler.{
  Call, table_size, touch, enter, leave, current_entry, dispatch, syscall_handler,
}

-- The number is that of an error, if the status is one.
unfoldable pub Reports : ℤ → ℕ → Type 0
Reports (pos n) errno = Unit
Reports (negsuc n) errno = errno ≡ n + 1

-- The process at entry `i` is out of the call, and an error is what its `errno` says.
pub record Left (i : ℕ) (status : ℤ) (k : Kernel) : Type 0 where
  pub process : Pcb
  pub at_entry : get_elem? k.sched.procs i ≡ some (some process)
  pub outside : process.in_syscall ≡ false
  pub told : Reports status process.errno

leave_lem :
    (status : ℤ) (p : Pcb)
    → ((leave status p).in_syscall ≡ false) × Reports status (leave status p).errno
unfolding leave Reports
leave_lem (pos n) p = (refl, tt)
leave_lem (negsuc n) p = (refl, refl)

-- A touch that goes well finds a process, and changes it.
touch_lem :
    (i : ℕ) (f : Pcb → Pcb) (k : Kernel) (p : Pcb)
    → get_elem? k.sched.procs i ≡ some (some p)
    → touch i f k
      ≡ ok (record k { sched = record k.sched { procs = set k.sched.procs i (some (f p)) } })
unfolding touch slot set_slot
touch_lem i f k p e = ground (arith, e, get_elem?-bound k.sched.procs i e)

touch-eq-ok :
    (i : ℕ) (f : Pcb → Pcb) (k k' : Kernel)
    → touch i f k ≡ ok k'
    → (p : Pcb) × (get_elem? k.sched.procs i ≡ some (some p))
unfolding touch slot
touch-eq-ok i f k k' h = go (get_elem? k.sched.procs i) refl
  where
    go :
        (o : Option (Option Pcb))
        → get_elem? k.sched.procs i ≡ o
        → (p : Pcb) × (get_elem? k.sched.procs i ≡ some (some p))
    go none e = absurd (ground (arith, e, h))
    go (some none) e = absurd (ground (arith, e, h))
    go (some (some p)) e = (p, e)

touch-Left :
    (i : ℕ) (status : ℤ) (k : Kernel) → Returning (Left i status) (touch i (leave status) k)
touch-Left i status k = Returning-intro (Left i status) (touch i (leave status) k) λ k' h.
    let (p, e) = touch-eq-ok i (leave status) k k' h in
    let out = leave_lem status p in
    let here =
      get_elem?-set_self k.sched.procs i (some (leave status p))
        (get_elem?-bound k.sched.procs i e) in
    let same = touch_lem i (leave status) k p e in
    record {
      process = leave status p;
      at_entry = ground (arith, h, same, here);
      outside = out.0;
      told = out.1;
    }

pub current_entry_lem :
    (k : Kernel) (p : Pcb)
    → get_elem? k.sched.procs k.sched.current_pid ≡ some (some p)
    → current_entry k ≡ ok (some k.sched.current_pid)
unfolding current_entry
current_entry_lem k p e = rw (get_current_lem k.sched p e) refl

-- Where there is a current process and syscall_handler returns, with any status and for any number,
-- the process is out of the call, and its `errno` is the error that is returned.
pub syscall_handler-Left :
    (ops_at : ℕ → Ops) (now fuel : ℕ) (freed_pid : Pcb → ℕ) (text_at : ℕ → Chars) (c : Call)
    (k : Kernel) (i : ℕ)
    → current_entry k ≡ ok (some i)
    → Returning (λ r. Left i r.1 r.0) (syscall_handler ops_at now fuel freed_pid text_at c k)
unfolding syscall_handler
syscall_handler-Left ops_at now fuel freed_pid text_at c k i e = rw e (
    Returning-next (λ r. Left i r.1 r.0) (touch i enter k) _
      λ entered.
        Returning-next (λ r. Left i r.1 r.0)
          (if ltb c.rax table_size
            then dispatch ops_at now fuel freed_pid text_at c entered
            else ok (entered, einval))
          _
          λ (called, status).
            Returning-bind (Left i status) (λ r. Left i r.1 r.0) (touch i (leave status) called)
              (λ left. ok (left, status)) (touch-Left i status called) (λ left h. h))

-- A number outside of the table gives -EINVAL, and nothing else of the kernel changes than the
-- `errno` of the process.
pub syscall_handler_unknown :
    (ops_at : ℕ → Ops) (now fuel : ℕ) (freed_pid : Pcb → ℕ) (text_at : ℕ → Chars) (c : Call)
    (k : Kernel) (p : Pcb) (j : ℕ)
    → table_size ≤ c.rax
    → get_elem? k.sched.procs k.sched.current_pid ≡ some (some p)
    → p.in_syscall ≡ false
    → j ≢ k.sched.current_pid
    → (k' : Kernel) × (syscall_handler ops_at now fuel freed_pid text_at c k ≡ ok (k', einval))
      × (get_elem? k'.sched.procs k.sched.current_pid ≡ some (some (record p { errno = 4 })))
      × (get_elem? k'.sched.procs j ≡ get_elem? k.sched.procs j)
unfolding syscall_handler leave enter
syscall_handler_unknown ops_at now fuel freed_pid text_at c k p j over there out other = (
  record k { sched = record k.sched { procs = set entered i (some (leave einval (enter p))) } },
  rw (current_entry_lem k p there, touch_lem i enter k p there, beyond)
      (rw
        (touch_lem i (leave einval) (record k { sched = record k.sched { procs = entered } })
          (enter p) here)
        refl),
  get_elem?-set_self entered i (some (leave einval (enter p)))
        (omega (arith, inside, length-set k.sched.procs i (some (enter p))))
      ∙ ground (arith, out),
  get_elem?-set_ne entered (some (leave einval (enter p))) (λ e. other (sym e))
      ∙ get_elem?-set_ne k.sched.procs (some (enter p)) (λ e. other (sym e)),
)
  where
    i : ℕ
    i = k.sched.current_pid

    inside : i < length k.sched.procs
    inside = get_elem?-bound k.sched.procs i there

    entered : List (Option Pcb)
    entered = set k.sched.procs i (some (enter p))

    here : get_elem? entered i ≡ some (some (enter p))
    here = get_elem?-set_self k.sched.procs i (some (enter p)) inside

    beyond : ltb c.rax table_size ≡ false
    beyond = ground arith

touch_gone :
    (i : ℕ) (f : Pcb → Pcb) (k : Kernel)
    → get_elem? k.sched.procs i ≡ some none
    → touch i f k ≡ fault
unfolding touch slot
touch_gone i f k e = ground (arith, e)

dispatch-exit :
    (ops_at : ℕ → Ops) (now fuel : ℕ) (freed_pid : Pcb → ℕ) (text_at : ℕ → Chars) (c : Call)
    (k : Kernel) (p : Pcb)
    → c.rax ≡ 0
    → get_elem? k.sched.procs k.sched.current_pid ≡ some (some p)
    → freed_pid p ≡ k.sched.current_pid
    → 1 < k.sched.count
    → k.sched.count < 2 ^ 64
    → dispatch ops_at now fuel freed_pid text_at c k
      ≡ ok (
        record k {
          sched = record k.sched {
            procs = set k.sched.procs k.sched.current_pid none;
            count = k.sched.count - 1;
            current_pid = (k.sched.current_pid + 1) % (k.sched.count - 1);
          };
        },
        pos 0,
      )
unfolding dispatch sys_exit
dispatch-exit ops_at now fuel freed_pid text_at c k p zeroth there same more small =
    rw
      (
        zeroth,
        get_current_lem k.sched p there,
        exit-entry freed_pid k.sched p there same more small,
      )
      refl

-- sys_exit frees the process of which syscall_handler then clears the flag.
pub syscall_handler-exit :
    (ops_at : ℕ → Ops) (now fuel : ℕ) (freed_pid : Pcb → ℕ) (text_at : ℕ → Chars) (c : Call)
    (k : Kernel) (p : Pcb)
    → c.rax ≡ 0
    → get_elem? k.sched.procs k.sched.current_pid ≡ some (some p)
    → freed_pid (enter p) ≡ k.sched.current_pid
    → 1 < k.sched.count
    → k.sched.count < 2 ^ 64
    → syscall_handler ops_at now fuel freed_pid text_at c k ≡ fault
unfolding syscall_handler
syscall_handler-exit ops_at now fuel freed_pid text_at c k p zeroth there same more small =
    rw (current_entry_lem k p there, touch_lem i enter k p there, within)
      (rw
        (dispatch-exit ops_at now fuel freed_pid text_at c entered (enter p) zeroth here same more
          small)
        (rw (touch_gone i (leave (pos 0)) after gone) refl))
  where
    i : ℕ
    i = k.sched.current_pid

    inside : i < length k.sched.procs
    inside = get_elem?-bound k.sched.procs i there

    entered : Kernel
    entered = record k { sched = record k.sched { procs = set k.sched.procs i (some (enter p)) } }

    here : get_elem? entered.sched.procs i ≡ some (some (enter p))
    here = get_elem?-set_self k.sched.procs i (some (enter p)) inside

    gone : get_elem? (set entered.sched.procs i none) i ≡ some none
    gone =
        get_elem?-set_self entered.sched.procs i none
          (omega (arith, inside, length-set k.sched.procs i (some (enter p))))

    after : Kernel
    after = record entered {
      sched = record entered.sched {
        procs = set entered.sched.procs i none;
        count = k.sched.count - 1;
        current_pid = (i + 1) % (k.sched.count - 1);
      };
    }

    within : ltb c.rax table_size ≡ true
    within = ground arith
