-- ===== src/Spinlock/Exclusion.antt =====
-- At most one thread holds a spinlock, and every thread that waits can get it.
use shadow_os.Base.{
  ℕ, ◌≡◌, ◌≢◌, refl, List, [], ◌∷◌, ◌==◌, if◌then◌else◌, arith, Bool-cases, inl, inr, ◌⊎◌,
}
use shadow_os.Spinlock.{Place, Threads, advance, step, run, start, Reached, first, later}

-- The thread that is inside is the only one, and the lock is taken just while there is one.
pub record Exclusive (s : Threads) : Type 0 where
  pub unique : (i j : ℕ) → s.places i ≡ Place.inside → s.places j ≡ Place.inside → i ≡ j
  pub held : (i : ℕ) → s.places i ≡ Place.inside → s.locked ≢ 0
  pub owner : s.locked ≢ 0 → (i : ℕ) × (s.places i ≡ Place.inside)

start-Exclusive : Exclusive start
start-Exclusive = record {
  unique = λ i j p q. absurd (cc);
  held = λ i p. absurd (cc);
  owner = λ n. absurd (n refl);
}

-- the state in which thread `i` stands at `p`, and the lock is `l`
abbrev placed : ℕ → Place → ℕ → Threads → Threads
placed i p l s = record { locked = l; places = λ j. if j == i then p else s.places j }

-- A step that does not take the lock, and does not give it back.
stays-Exclusive :
    (s : Threads) (i l : ℕ) (p : Place)
    → Exclusive s
    → s.places i ≢ Place.inside
    → p ≢ Place.inside
    → ((l ≡ 0) ⊎ (s.locked ≢ 0))
    → ((s.locked ≡ 0) ⊎ (l ≢ 0))
    → Exclusive (placed i p l s)
stays-Exclusive s i l p e out out' free taken = record {
  unique = λ a b q r. ground (arith, e.unique a b);
  held = λ a q. ground (arith, e.held a);
  owner = λ n. let (k, at_k) = e.owner (ground arith) in (k, ground (arith, at_k));
}

takes-Exclusive :
    (s : Threads) (i : ℕ) → Exclusive s → s.locked ≡ 0 → Exclusive (placed i Place.inside 1 s)
takes-Exclusive s i e free = record {
  unique = λ a b q r. ground (arith, e.held a, e.held b);
  held = λ a q. omega arith;
  owner = λ n. (i, ground arith);
}

gives-Exclusive :
    (s : Threads) (i : ℕ)
    → Exclusive s
    → s.places i ≡ Place.inside
    → Exclusive (placed i Place.outside 0 s)
gives-Exclusive s i e at_i = record {
  unique = λ a b q r. ground (arith, e.unique a i, e.unique b i);
  held = λ a q. absurd (ground (arith, e.unique a i));
  owner = λ n. absurd (n refl);
}

step-Exclusive : (s : Threads) (i : ℕ) → Exclusive s → Exclusive (step i s)
unfolding step advance
step-Exclusive s i e = go (s.places i) refl
  where
    go : (p : Place) → s.places i ≡ p → Exclusive (step i s)
    go Place.outside at_i = rw at_i (
        stays-Exclusive s i s.locked Place.trying e (ground (arith, at_i)) (λ h. cc) (ground arith)
          (ground arith))
    go Place.trying at_i = elim (Bool-cases (s.locked == 0)) [
      | inl free ↦ rw (at_i, free) (takes-Exclusive s i e (ground (arith, free)))
      | inr taken ↦
          rw (at_i, taken)
            (stays-Exclusive s i 1 Place.waiting e (ground (arith, at_i)) (λ h. cc)
              (ground (arith, taken)) (ground arith))
    ]
    go Place.waiting at_i = elim (Bool-cases (s.locked == 0)) [
      | inl free ↦
          rw (at_i, free)
            (stays-Exclusive s i s.locked Place.trying e (ground (arith, at_i)) (λ h. cc)
              (ground arith) (ground arith))
      | inr taken ↦
          rw (at_i, taken)
            (stays-Exclusive s i s.locked Place.waiting e (ground (arith, at_i)) (λ h. cc)
              (ground arith) (ground arith))
    ]
    go Place.inside at_i = rw at_i (gives-Exclusive s i e at_i)

Reached-Exclusive : {s : Threads} → Reached s → Exclusive s
Reached-Exclusive first = start-Exclusive
Reached-Exclusive (later {s} r i) = step-Exclusive s i (Reached-Exclusive r)

-- In every state that some order of steps reaches, at most one thread is behind spinlock_acquire.
pub mutual_exclusion :
    {s : Threads}
    → Reached s
    → (i j : ℕ) → s.places i ≡ Place.inside
    → s.places j ≡ Place.inside
    → i ≡ j
mutual_exclusion r = (Reached-Exclusive r).unique

enters_free :
    (s : Threads) (i : ℕ) → s.locked ≡ 0 → (is : List ℕ) × ((run is s).places i ≡ Place.inside)
unfolding run step advance
enters_free s i free = go (s.places i) refl
  where
    go : (p : Place) → s.places i ≡ p → (is : List ℕ) × ((run is s).places i ≡ Place.inside)
    go Place.inside at_i = ([], at_i)
    go Place.trying at_i = (i ∷ [], ground (arith, at_i, free))
    go Place.waiting at_i = (i ∷ i ∷ [], ground (arith, at_i, free))
    go Place.outside at_i = (i ∷ i ∷ [], ground (arith, at_i, free))

step-free : (s : Threads) (k : ℕ) → s.places k ≡ Place.inside → (step k s).locked ≡ 0
unfolding step advance
step-free s k at_k = ground (arith, at_k)

-- From every state that is reached, some order of steps brings any thread behind spinlock_acquire.
pub can_enter :
    {s : Threads} (i : ℕ) → Reached s → (is : List ℕ) × ((run is s).places i ≡ Place.inside)
unfolding run
can_enter {s} i r = elim (Bool-cases (s.locked == 0)) [
  | inl free ↦ enters_free s i (ground (arith, free))
  | inr taken ↦
      let (k, at_k) = (Reached-Exclusive r).owner (ground (arith, taken)) in
      let (is, enters) = enters_free (step k s) i (step-free s k at_k) in (k ∷ is, enters)
]
