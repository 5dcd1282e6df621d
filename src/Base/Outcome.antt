-- ===== src/Base/Outcome.antt =====
-- The outcomes of kernel code that can go wrong, with the steps of a `do` block.
use mathlib.Core.Bool.{Bool, true, false}
use mathlib.Core.Option.{Option, none, some}
use mathlib.Core.Path.{◌≡◌, refl}

pub data Outcome {ℓ} (A : Type ℓ) : Type ℓ where
  ok : A → Outcome A
  -- an access that C leaves undefined: out of range, or through NULL
  fault : Outcome A
  -- a failed `assert`, which ends in `hlt()`
  halted : Outcome A
  -- `spinlock_acquire` of a lock that nobody will release
  stuck : Outcome A

infixl 5 ◌>>=◌ ◌>>◌
abbrev pub ◌>>=◌ {ℓ κ} : {A : Type ℓ} {B : Type κ} → Outcome A → (A → Outcome B) → Outcome B
ok a >>= f = f a
fault >>= f = fault
halted >>= f = halted
stuck >>= f = stuck

abbrev pub ◌>>◌ {ℓ} : {B : Type ℓ} → Outcome (Unit {0}) → Outcome B → Outcome B
m >> k = m >>= λ _. k

-- `assert(b)`
abbrev pub assert : Bool → Outcome (Unit {0})
assert true = ok tt
assert false = halted

-- a pointer that is dereferenced
abbrev pub deref {ℓ} : {A : Type ℓ} → Option A → Outcome A
deref none = fault
deref (some a) = ok a

-- `assert(p)`, and what `p` points to from there on
abbrev pub assert_some {ℓ} : {A : Type ℓ} → Option A → Outcome A
assert_some none = halted
assert_some (some a) = ok a

module _ {ℓ κ} {A : Type ℓ} {B : Type κ} where
  -- A sequence that goes well has a first step that does.
  pub >>=-eq-ok :
      (first : Outcome A) (next : A → Outcome B) {r : B}
      → (first >>= next) ≡ ok r
      → (x : A) × (first ≡ ok x) × (next x ≡ ok r)
  >>=-eq-ok stuck next e = cc
  >>=-eq-ok halted next e = cc
  >>=-eq-ok fault next e = cc
  >>=-eq-ok (ok x) next e = (x, refl, e)
