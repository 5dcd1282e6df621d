-- ===== src/Sched/RoundRobin.antt =====
-- Any number of timer ticks: every process gets its turn, in the order of pids.
use shadow_os.Base.{
  ℕ, suc, ◌+◌, ◌-◌, ◌%◌, ◌<◌, ◌≡◌, refl, false, some, List, [], ◌∷◌, set, length, arith, ap, sym,
  ◌∙◌,
}
use native.Mathlib.Nat.{mod-add-mod, mod-eq_of_lt, mod-eq-sub-mod, add-zero}
use native.Mathlib.Decide.{dec_lt}
use shadow_os.Base.Outcome.{Outcome, ok, ◌>>=◌}
use shadow_os.Sched.{State, Pcb, Sched, RegisterCtx, tick}
use shadow_os.Sched.Valid.{Runs, update, saved, resumed, given}
use shadow_os.Sched.Tick.{tick_running, Runs-given, next_pid, parked}

-- Ticks that interrupt with these registers.
unfoldable pub ticks : List RegisterCtx → Sched → Outcome Sched
ticks [] s = ok s
ticks (c ∷ cs) s = do (t, regs) ← tick c s; ticks cs t

-- The table is valid, its current process is running, and none is in a system call.
pub record Busy (s : Sched) (at : ℕ → Pcb) : Type 0 where
  pub runs : Runs s at
  pub turn : (at s.current_pid).state ≡ State.running
  pub outside : (i : ℕ) → i < s.count → (at i).in_syscall ≡ false

-- what holds after `k` ticks from `s`
pub record After (s : Sched) (k : ℕ) (o : Outcome Sched) : Type 0 where
  pub final : Sched
  pub processes : ℕ → Pcb
  pub returns : o ≡ ok final
  pub current : final.current_pid ≡ (s.current_pid + k) % s.count
  pub same_count : final.count ≡ s.count
  pub busy : Busy final processes

module _ {s : Sched} {at : ℕ → Pcb} (ctx : RegisterCtx) (b : Busy s at) where
  -- the state after one tick
  step : Sched
  unfolding given
  step =
      given s (set s.procs s.current_pid (some (saved ctx (at s.current_pid))))
        (next_pid ctx b.runs) (parked ctx b.runs (next_pid ctx b.runs))

  Busy-step : Busy step (
      update
        (parked ctx b.runs)
        (next_pid ctx b.runs)
        (resumed (parked ctx b.runs (next_pid ctx b.runs))))
  unfolding step saved resumed
  Busy-step = record {
    runs = Runs-given ctx b.runs;
    turn = ground arith;
    outside = λ i h. ground (arith, b.outside i h);
  }

  tick-step : (rest : List RegisterCtx) → ticks (ctx ∷ rest) s ≡ ticks rest step
  unfolding ticks step
  tick-step rest = rw (tick_running ctx b.runs b.turn (b.outside s.current_pid b.runs.current_in))

-- One turn and `k` more.
shift : (c n k : ℕ) → ((c + 1) % n + k) % n ≡ (c + suc k) % n
shift c n k = rw mod-add-mod (ap (λ j. j % n) (omega arith))

-- Where the process table is valid (each pid below the count has its own process, with a page map, a
-- time slice of one tick and neither terminated nor waiting; no other than the current one runs; the
-- lock is free), the current process is running and none is in a system call, ticks never fail, and
-- the processor goes round: after `k` of them the process `k` places on, in the order of pids and round again at
-- `count`, is running.
pub round_robin :
    (cs : List RegisterCtx) {s : Sched} {at : ℕ → Pcb}
    → Busy s at
    → After s (length cs) (ticks cs s)
unfolding ticks step given
round_robin [] {s} {at} b = record {
  final = s;
  processes = at;
  returns = refl;
  current = sym (ap (λ k. k % s.count) (add-zero s.current_pid) ∙ mod-eq_of_lt b.runs.current_in);
  same_count = refl;
  busy = b;
}
round_robin (c ∷ cs) {s} {at} b =
    let rest = round_robin cs {s = step c b} (Busy-step c b) in
    record {
      final = rest.final;
      processes = rest.processes;
      returns = tick-step c b cs ∙ rest.returns;
      current = rest.current ∙ shift s.current_pid s.count (length cs);
      same_count = rest.same_count;
      busy = rest.busy;
    }

-- The distance in turns from one process to another.
abbrev pub turns : ℕ → ℕ → ℕ → ℕ
turns from to n = (to + n - from) % n

reach_ahead : (c i n : ℕ) → c < n → i < n → ¬ (i < c) → (c + turns c i n) % n ≡ i
reach_ahead c i n hc hi p =
    let e : turns c i n ≡ i - c =
      mod-eq-sub-mod {n = i + n - c} {m = n} (omega arith)
      ∙ ap (λ k. k % n) less
      ∙ mod-eq_of_lt (omega arith) in
    rw e (ap (λ k. k % n) there ∙ mod-eq_of_lt hi)
  where
    less : i + n - c - n ≡ i - c
    less = omega arith

    there : c + (i - c) ≡ i
    there = omega arith

reach_behind : (c i n : ℕ) → c < n → i < n → i < c → (c + turns c i n) % n ≡ i
reach_behind c i n hc hi p =
    let e : turns c i n ≡ i + n - c = mod-eq_of_lt (omega arith) in
    rw e (
      ap (λ k. k % n) round
      ∙ mod-eq-sub-mod {n = i + n} {m = n} (omega arith)
      ∙ ap (λ k. k % n) back
      ∙ mod-eq_of_lt hi)
  where
    round : c + (i + n - c) ≡ i + n
    round = omega arith

    back : i + n - n ≡ i
    back = omega arith

reach : (c i n : ℕ) → c < n → i < n → (c + turns c i n) % n ≡ i
reach c i n hc hi = elim (dec_lt i c) [
  | yes p ↦ reach_behind c i n hc hi p
  | no p ↦ reach_ahead c i n hc hi p
]

-- Where the process table is valid (each pid below the count has its own process, with a page map, a
-- time slice of one tick and neither terminated nor waiting; no other than the current one runs; the
-- lock is free), the current process is running and none is in a system call, no process starves:
-- each gets the
-- processor within `count` ticks, after as many as its pid is ahead, round at `count`.
pub every_process_runs :
    {s : Sched} {at : ℕ → Pcb} (i : ℕ) (cs : List RegisterCtx)
    → Busy s at
    → i < s.count
    → length cs ≡ turns s.current_pid i s.count
    → (t : Sched) × (at' : ℕ → Pcb) × (ticks cs s ≡ ok t)
      × (t.current_pid ≡ i)
      × Runs t at'
      × ((at' i).state ≡ State.running)
every_process_runs {s} {at} i cs b h e =
    let end = round_robin cs b in
    let here : end.final.current_pid ≡ i =
      end.current
      ∙ ap (λ k. (s.current_pid + k) % s.count) e
      ∙ reach s.current_pid i s.count b.runs.current_in h in
    (end.final, end.processes, end.returns, here, end.busy.runs, rw (← here) end.busy.turn)
