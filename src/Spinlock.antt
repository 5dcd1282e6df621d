-- ===== src/Spinlock.antt =====
-- kernel/src/lib/spinlock.h: threads that acquire and release one lock, in any order of their steps.
-- A step is one access to the lock. The threads release only what they hold.
pub mod Exclusion
use shadow_os.Base.{ℕ, Bool, true, false, List, [], ◌∷◌, ◌==◌, if◌then◌else◌, ◌≡◌, refl}

-- where a thread stands: outside, in front of `__sync_lock_test_and_set`, in the inner loop that
-- reads the lock, or behind spinlock_acquire
pub data Place : Type 0 where
  outside trying waiting inside : Place

-- `spinlock_t`, and the threads
pub record Threads : Type 0 where
  pub locked : ℕ
  pub places : ℕ → Place

-- the next access of a thread: where it stands then, and the lock
unfoldable pub advance : Place → ℕ → Place × ℕ
advance Place.outside l = (Place.trying, l)
advance Place.trying l = (if l == 0 then Place.inside else Place.waiting, 1)
advance Place.waiting l = (if l == 0 then Place.trying else Place.waiting, l)
advance Place.inside l = (Place.outside, 0)

unfoldable pub step : ℕ → Threads → Threads
unfolding advance
step i s =
    let (place, l) = advance (s.places i) s.locked in
    record { locked = l; places = λ j. if j == i then place else s.places j }

-- the threads in the order in which they make their steps
unfoldable pub run : List ℕ → Threads → Threads
unfolding step
run [] s = s
run (i ∷ is) s = run is (step i s)

-- SPINLOCK_INIT, with all threads outside
abbrev pub start : Threads
start = record { locked = 0; places = λ i. Place.outside }

-- the states that some order of steps reaches
pub data Reached : Threads → Type 0 where
  first : Reached start
  later : {s : Threads} → Reached s → (i : ℕ) → Reached (step i s)
