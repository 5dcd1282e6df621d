-- ===== src/Tests/Threads.antt =====
-- The theorems on spinlocks where one thread holds the lock and another waits for it.
use shadow_os.Base.{ℕ, ◌≡◌, refl, List}
use shadow_os.Spinlock.{Place, Threads, advance, step, run, start, Reached, first, later}
use shadow_os.Spinlock.Exclusion.{mutual_exclusion, can_enter}

abbrev contended : Threads
contended = step 1 (step 1 (step 0 (step 0 start)))

contended-Reached : Reached contended
contended-Reached = later (later (later (later first 0) 0) 1) 1

holder : contended.places 0 ≡ Place.inside
unfolding step advance
holder = refl

mutual_exclusion_example : ◌≡◌ {A = ℕ} 0 0
mutual_exclusion_example = mutual_exclusion contended-Reached 0 0 holder holder

can_enter_example : (is : List ℕ) × ((run is contended).places 1 ≡ Place.inside)
can_enter_example = can_enter 1 contended-Reached
