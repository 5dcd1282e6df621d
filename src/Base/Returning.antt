-- ===== src/Base/Returning.antt =====
-- What holds of every result of code that returns, and the steps of a `do` block.
use mathlib.Core.Bool.{Bool, true, false}
use mathlib.Core.Path.{◌≡◌, refl}
use shadow_os.Base.Tests.{if◌then◌else◌}
use shadow_os.Base.Outcome.{Outcome, ok, fault, halted, stuck, ◌>>=◌}

-- The predicate holds of the result of code that returns.
abbrev pub Returning {ℓ} : {A : Type ℓ} → (A → Type 0) → Outcome A → Type 0
Returning P (ok a) = P a
Returning P fault = Unit
Returning P halted = Unit
Returning P stuck = Unit

module _ {ℓ κ} {A : Type ℓ} {B : Type κ} where
  pub Returning-bind :
      (P : A → Type 0) (Q : B → Type 0) (m : Outcome A) (f : A → Outcome B)
      → Returning P m
      → ((a : A) → P a → Returning Q (f a))
      → Returning Q (m >>= f)
  Returning-bind P Q (ok a) f h k = k a h
  Returning-bind P Q fault f h k = tt
  Returning-bind P Q halted f h k = tt
  Returning-bind P Q stuck f h k = tt

module _ {ℓ} {A : Type ℓ} where
  pub anything : (m : Outcome A) → Returning (λ a. Unit) m
  anything (ok a) = tt
  anything fault = tt
  anything halted = tt
  anything stuck = tt

  pub Returning-if :
      (Q : A → Type 0) (b : Bool) (x y : Outcome A)
      → Returning Q x
      → Returning Q y
      → Returning Q (if b then x else y)
  Returning-if Q true x y h k = h
  Returning-if Q false x y h k = k

-- A step of which nothing has to be known.
pub Returning-next {ℓ κ} :
    {A : Type ℓ} {B : Type κ} (Q : B → Type 0) (m : Outcome A) (f : A → Outcome B)
    → ((a : A) → Returning Q (f a))
    → Returning Q (m >>= f)
Returning-next Q m f h = Returning-bind (λ a. Unit) Q m f (anything m) (λ a u. h a)

pub Returning-intro {ℓ} :
    {A : Type ℓ} (P : A → Type 0) (m : Outcome A) → ((a : A) → m ≡ ok a → P a) → Returning P m
Returning-intro P (ok a) h = h a refl
Returning-intro P fault h = tt
Returning-intro P halted h = tt
Returning-intro P stuck h = tt
