-- ===== src/Sched/Valid.antt =====
-- What a process table stands for: one live process for each pid below `count`.
use shadow_os.Base.{
  refl, Option, [], ◌∷◌, List, ℕ, ◌≤◌, ◌<◌, ◌≡◌, ◌≢◌, Bool, true, false, some, ◌==◌, if◌then◌else◌,
  get_elem?, set, length, arith, get_elem?-set, length-set,
}
use shadow_os.Base.Outcome.{ok}
use shadow_os.Sched.{RegisterCtx, default_time, State, Pcb, Sched, max_procs, slot, get_current}

-- states that the code ever sets
abbrev pub is_runnable : State → Bool
is_runnable State.ready = true
is_runnable State.running = true
is_runnable State.waiting = false
is_runnable State.terminated = false

pub record IsLive (i : ℕ) (p : Pcb) : Type 0 where
  pub own_pid : p.pid ≡ i
  pub mapped : p.pagemap ≢ 0
  pub fresh_slice : p.timeslice ≡ 1
  pub runnable : is_runnable p.state ≡ true

-- The processes of `s` are `at 0`, …, `at (count - 1)`, none other than the current one running.
pub record Runs (s : Sched) (at : ℕ → Pcb) : Type 0 where
  pub table : length s.procs ≡ max_procs
  pub some_process : 0 < s.count
  pub fits : s.count ≤ max_procs
  pub current_in : s.current_pid < s.count
  pub unlocked : s.locked ≡ false
  pub at_slot : (i : ℕ) → i < s.count → get_elem? s.procs i ≡ some (some (at i))
  pub live : (i : ℕ) → i < s.count → IsLive i (at i)
  pub only_current : (i : ℕ) → i < s.count → i ≢ s.current_pid → (at i).state ≡ State.ready

-- a family changed at one pid
abbrev pub update : (ℕ → Pcb) → ℕ → Pcb → ℕ → Pcb
update at i p j = if i == j then p else at j

-- The table after the process at `i` is replaced, and `n` made the current one.
pub Runs-set :
    {s : Sched} {at : ℕ → Pcb} (i n : ℕ) (p : Pcb) (page : ℕ)
    → Runs s at
    → i < s.count
    → n < s.count
    → IsLive i p
    → ((j : ℕ) → j < s.count → j ≢ n → (update at i p j).state ≡ State.ready)
    → Runs
        (record s { procs = set s.procs i (some p); current_pid = n; locked = false; cr3 = page })
        (update at i p)
Runs-set {s} {at} i n p page v hi hn live ready = record {
  table = omega (arith, length-set s.procs i (some p), v.table);
  some_process = v.some_process;
  fits = v.fits;
  current_in = hn;
  unlocked = refl;
  at_slot = λ j hj. ground (arith, get_elem?-set s.procs i j (some p), v.at_slot j, v.table);
  live = λ j hj. ground (arith, v.live j hj);
  only_current = ready;
}

-- the process whose registers the timer saves, and the one that it starts
unfoldable pub saved : RegisterCtx → Pcb → Pcb
saved ctx p = record p { ctx = ctx; state = State.ready; timeslice = default_time }

unfoldable pub resumed : Pcb → Pcb
resumed p = record p { state = State.running }

-- The processor is given to the process `p` at `n`.
unfoldable pub given : Sched → List (Option Pcb) → ℕ → Pcb → Sched
unfolding resumed
given s procs n p = record s {
  procs = set procs n (some (resumed p));
  current_pid = n;
  locked = false;
  cr3 = p.pagemap;
}

-- The current process is the one of its entry.
pub get_current_lem :
    (s : Sched) (p : Pcb)
    → get_elem? s.procs s.current_pid ≡ some (some p)
    → get_current s ≡ ok (some p)
unfolding get_current slot
get_current_lem s p e = go s.procs e
  where
    go :
        (procs : List (Option Pcb))
        → get_elem? procs s.current_pid ≡ some (some p)
        → get_current (record s { procs = procs }) ≡ ok (some p)
    go [] h = cc
    go (x ∷ procs) h = rw (h, slot) refl
