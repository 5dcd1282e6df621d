-- ===== src/Ports.antt =====
-- kernel/src/dev/portio.c: the port instructions, over the devices that answer them.
pub mod Logged
use shadow_os.Base.{ℕ, Option, none, some}

-- The state of the devices and what one instruction does to it. Time may pass with each.
pub record Ports : Type 1 where
  pub State : Type 0
  pub inb : ℕ → State → ℕ × State
  pub outb : ℕ → ℕ → State → State
  pub inl : ℕ → State → ℕ × State
  pub outl : ℕ → ℕ → State → State

-- Code that goes on from a state of the devices: none where it waits for them in the end, on fuel.
abbrev pub Run : Type 0 → Type 0 → Type 0
Run S A = S → S × Option A

abbrev pub continue : {S A B : Type 0} → S × Option A → (A → Run S B) → S × Option B
continue (t, none) f = (t, none)
continue (t, some a) f = f a t

infixl 5 ◌>>=◌ ◌>>◌
abbrev pub ◌>>=◌ : {S A B : Type 0} → Run S A → (A → Run S B) → Run S B
(m >>= f) s = continue (m s) f

abbrev pub ◌>>◌ : {S B : Type 0} → Run S (Unit {0}) → Run S B → Run S B
m >> k = m >>= λ _. k

abbrev pub done : {S A : Type 0} → A → Run S A
done a s = (s, some a)

module _ (P : Ports) where
  abbrev pub input : ℕ → Run P.State ℕ
  input port s = let (v, t) = P.inb port s in (t, some v)

  abbrev pub output : ℕ → ℕ → Run P.State (Unit {0})
  output port v s = (P.outb port v s, some tt)
