-- ===== src/Idt/Registered.antt =====
-- What stands in the interrupt table after idt_init, and after registrations of handlers.
use shadow_os.Base.{
  ℕ, zero, suc, ◌+◌, ◌*◌, ◌/◌, ◌%◌, ◌^◌, ◌<◌, ◌≡◌, ◌≢◌, ◌↔◌, refl, sym, ap, ◌∙◌, Bool, List, [],
  ◌∷◌, ◌==◌, ltb, leb, ◌&&◌, bit_or, if◌then◌else◌, arith, Bool-cases, inl, inr,
}
use shadow_os.Base.Bits.{bit_and-low}
use shadow_os.Base.Outcome.{Outcome, ok, ◌>>=◌}
use shadow_os.Base.Returning.{Returning, Returning-bind, Returning-intro}
use shadow_os.Idt.{
  Gate, Handler, Idt, is_default, interrupt_gate, trap_gate, access_ring3, gate, set_gate,
  set_handler, set_exceptions, set_interrupts, idt_init, idt_register_handler,
}

-- the address that the processor takes from a gate
abbrev pub target : Gate → ℕ
target g = g.off_low + g.off_mid * 2 ^ 16 + g.off_high * 2 ^ 32

target-gate : (base flags : ℕ) → base < 2 ^ 64 → target (gate base flags) ≡ base
unfolding gate
target-gate base flags h =
    omega
      (arith, bit_and-low 16 base, bit_and-low 16 (base / 2 ^ 16), bit_and-low 32 (base / 2 ^ 32))

-- whether `j` is one of the `n` vectors from `i` on
abbrev within : ℕ → ℕ → ℕ → Bool
within i n j = leb i j && ltb j (i + n)

module _ (stubs : ℕ → ℕ) where
  gates-set_exceptions :
      (n i : ℕ) (t : Idt) (j : ℕ)
      → (set_exceptions stubs n i t).gates j
        ≡ (if within i n j then gate (stubs j) trap_gate else t.gates j)
  unfolding set_exceptions set_gate set_handler
  gates-set_exceptions zero i t j = ground arith
  gates-set_exceptions (suc n) i t j =
      gates-set_exceptions n (i + 1)
        (set_handler i Handler.default_handler (set_gate i (stubs i) trap_gate t)) j
      ∙ ground arith

  handlers-set_exceptions :
      (n i : ℕ) (t : Idt) (j : ℕ)
      → (set_exceptions stubs n i t).handlers j
        ≡ (if within i n j then Handler.default_handler else t.handlers j)
  unfolding set_exceptions set_gate set_handler
  handlers-set_exceptions zero i t j = ground arith
  handlers-set_exceptions (suc n) i t j =
      handlers-set_exceptions n (i + 1)
        (set_handler i Handler.default_handler (set_gate i (stubs i) trap_gate t)) j
      ∙ ground arith

  gates-set_interrupts :
      (n i : ℕ) (t : Idt) (j : ℕ)
      → (set_interrupts stubs n i t).gates j
        ≡ (if within i n j then gate (stubs j) interrupt_gate else t.gates j)
  unfolding set_interrupts set_gate
  gates-set_interrupts zero i t j = ground arith
  gates-set_interrupts (suc n) i t j =
      gates-set_interrupts n (i + 1) (set_gate i (stubs i) interrupt_gate t) j ∙ ground arith

  handlers-set_interrupts :
      (n i : ℕ) (t : Idt) (j : ℕ) → (set_interrupts stubs n i t).handlers j ≡ t.handlers j
  unfolding set_interrupts set_gate
  handlers-set_interrupts zero i t j = refl
  handlers-set_interrupts (suc n) i t j =
      handlers-set_interrupts n (i + 1) (set_gate i (stubs i) interrupt_gate t) j

-- The registrations that drivers make, one after the other.
pub register_all : List (ℕ × Handler) → Idt → Outcome Idt
register_all [] t = ok t
register_all ((vector, h) ∷ rs) t = do
  (u, result) ← idt_register_handler vector h t
  register_all rs u

gates-set_gate :
    (i base flags j : ℕ) (t : Idt)
    → (set_gate i base flags t).gates j ≡ (if j == i then gate base flags else t.gates j)
unfolding set_gate
gates-set_gate i base flags j t = refl

-- the attributes of the gate of a vector
abbrev attr_of : ℕ → ℕ
attr_of v = if v == 0x80 then 0xEE else if ltb v 32 then trap_gate else interrupt_gate

-- which of the three writes a vector has its gate from
attr_choice :
    (g : ℕ → ℕ → Gate) (base v : ℕ) (other : Gate)
    → v < 256
    → v ≢ 0x80
    → (if within 32 224 v
        then g base interrupt_gate
        else if within 0 32 v
        then g base trap_gate
        else other)
      ≡ g base (attr_of v)
attr_choice g base v other small ne = elim (Bool-cases (ltb v 32)) [
  | inl low ↦ ground (arith, low)
  | inr high ↦ ground (arith, high)
]

gates-idt_init :
    (stubs : ℕ → ℕ) (t : Idt) (v : ℕ)
    → v < 256
    → (idt_init stubs t).gates v ≡ gate (stubs v) (attr_of v)
unfolding idt_init set_handler
gates-idt_init stubs t v small =
    gates-set_gate 0x80 (stubs 0x80) (bit_or interrupt_gate access_ring3) v
      (set_interrupts stubs 224 32 (set_exceptions stubs 32 0 t))
    ∙ elim (Bool-cases (v == 0x80)) [
      | inl eq ↦
          let e : v ≡ 0x80 = ground (arith, eq) in rw eq (ap (λ k. gate (stubs k) 0xEE) (sym e))
      | inr ne ↦
          rw
            (
              ne,
              gates-set_interrupts stubs 224 32 (set_exceptions stubs 32 0 t) v,
              gates-set_exceptions stubs 32 0 t v,
            )
            (rw ne at (attr_choice gate (stubs v) v (t.gates v) small (ground (arith, ne))))
    ]

attr-gate : (base flags : ℕ) → (gate base flags).attr ≡ flags
unfolding gate
attr-gate base flags = refl

-- After idt_init, the gate of every vector leads to its stub, an address of 64 bits, and the one of
-- the system call is the only one that user mode may call.
pub idt_init-target :
    (stubs : ℕ → ℕ) (t : Idt) (v : ℕ)
    → v < 256
    → stubs v < 2 ^ 64
    → (target ((idt_init stubs t).gates v) ≡ stubs v)
      × ((((idt_init stubs t).gates v).attr / 32 % 4 ≡ 3) ↔ (v ≡ 0x80))
idt_init-target stubs t v small fits = rw (gates-idt_init stubs t v small) (
  target-gate (stubs v) (attr_of v) fits,
  (
    λ h. ground (arith, attr-gate (stubs v) (attr_of v), h),
    λ h. ground (arith, attr-gate (stubs v) (attr_of v), h),
  ),
)

-- The exceptions have the handler that panics.
abbrev pub Panics : Idt → Type 0
Panics t = (v : ℕ) → v < 32 → t.handlers v ≡ Handler.default_handler

idt_init-Panics : (stubs : ℕ → ℕ) (t : Idt) → Panics (idt_init stubs t)
unfolding idt_init set_handler set_gate
idt_init-Panics stubs t v h = ground (
  arith,
  handlers-set_interrupts stubs 224 32 (set_exceptions stubs 32 0 t) v,
  handlers-set_exceptions stubs 32 0 t v,
)

register-Panics :
    (vector : ℕ) (h : Handler) (t : Idt)
    → Panics t
    → Returning (λ r. Panics r.0) (idt_register_handler vector h t)
unfolding idt_register_handler set_handler
register-Panics vector h t p = elim (Bool-cases (ltb vector 256)) [
  | inr out ↦ rw out tt
  | inl inside ↦ elim (Bool-cases (is_default (t.handlers vector))) [
    | inl taken ↦ rw (inside, taken) p
    | inr free ↦ rw (inside, free) (λ v small. ground (arith, p v small, free))
  ]
]

register_all-Panics :
    (rs : List (ℕ × Handler)) (t : Idt) → Panics t → Returning Panics (register_all rs t)
unfolding register_all
register_all-Panics [] t p = p
register_all-Panics ((vector, h) ∷ rs) t p =
    Returning-bind (λ r. Panics r.0) Panics (idt_register_handler vector h t)
      (λ r. register_all rs r.0) (register-Panics vector h t p)
      (λ r q. register_all-Panics rs r.0 q)

-- No sequence of registrations takes an exception from the handler that panics, and one more for it
-- gives 1 and changes nothing.
pub exceptions-Panics :
    (stubs : ℕ → ℕ) (rs : List (ℕ × Handler)) (t : Idt) (v : ℕ) (h : Handler)
    → v < 32
    → Returning
        (λ u. (u.handlers v ≡ Handler.default_handler) × (idt_register_handler v h u ≡ ok (u, 1)))
        (register_all rs (idt_init stubs t))
unfolding idt_register_handler
exceptions-Panics stubs rs t v h small =
    Returning-intro _ (register_all rs (idt_init stubs t)) λ u e.
      let p : Panics u =
        rw e at (register_all-Panics rs (idt_init stubs t) (idt_init-Panics stubs t)) in
      (p v small, rw (p v small) (ground arith))
