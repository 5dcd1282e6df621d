-- ===== src/Idt.antt =====
-- The interrupt table of kernel/src/sys/intr.c: the gates that the processor reads, and the handlers
-- that the stubs call.
pub mod Registered
use shadow_os.Base.{
  ℕ, zero, suc, ◌+◌, ◌-◌, ◌*◌, ◌/◌, ◌%◌, ◌^◌, Bool, true, false, not, List, [], ◌∷◌, ◌==◌, ltb,
  bit_and, bit_or, if◌then◌else◌,
}
use shadow_os.Base.Outcome.{Outcome, ok, fault, ◌>>=◌}

-- `struct idt_entry`
pub record Gate : Type 0 where
  pub off_low : ℕ
  pub sel : ℕ
  pub ist : ℕ
  pub attr : ℕ
  pub off_mid : ℕ
  pub off_high : ℕ
  pub zeroes : ℕ

-- a handler: none, the two that the kernel has from the start, and those of the devices by address
pub data Handler : Type 0 where
  null default_handler system_call : Handler
  device : ℕ → Handler

-- `idt_descriptor` and `real_handlers`, each of 256 entries
pub record Idt : Type 0 where
  pub gates : ℕ → Gate
  pub handlers : ℕ → Handler

-- `real_handlers[vector] != idt_default_interrupt_handler`
abbrev pub is_default : Handler → Bool
is_default Handler.null = false
is_default Handler.default_handler = true
is_default Handler.system_call = false
is_default (Handler.device a) = false

-- IDT_INTERRUPT_GATE, IDT_TRAP_GATE and GDT_ACCESS_RING3
abbrev pub interrupt_gate : ℕ
interrupt_gate = 0x8E

abbrev pub trap_gate : ℕ
trap_gate = 0x8F

abbrev pub access_ring3 : ℕ
access_ring3 = 0x60

-- SET_GATE
unfoldable pub gate : ℕ → ℕ → Gate
gate base flags = record {
  off_low = bit_and base 0xFFFF;
  sel = 0x8;
  ist = 0;
  attr = flags;
  off_mid = bit_and (base / 2 ^ 16) 0xFFFF;
  off_high = bit_and (base / 2 ^ 32) 0xFFFFFFFF;
  zeroes = 0;
}

unfoldable pub set_gate : ℕ → ℕ → ℕ → Idt → Idt
unfolding gate
set_gate i base flags t = record t { gates = λ j. if j == i then gate base flags else t.gates j }

unfoldable pub set_handler : ℕ → Handler → Idt → Idt
set_handler i h t = record t { handlers = λ j. if j == i then h else t.handlers j }

-- `stubs`, which the assembler code has
module _ (stubs : ℕ → ℕ) where
  -- the loop over the exceptions, and that over the other vectors, from `i` on for so many rounds
  pub set_exceptions : ℕ → ℕ → Idt → Idt
  unfolding set_gate set_handler
  set_exceptions zero i t = t
  set_exceptions (suc n) i t =
      set_exceptions n (i + 1)
        (set_handler i Handler.default_handler (set_gate i (stubs i) trap_gate t))

  pub set_interrupts : ℕ → ℕ → Idt → Idt
  unfolding set_gate
  set_interrupts zero i t = t
  set_interrupts (suc n) i t = set_interrupts n (i + 1) (set_gate i (stubs i) interrupt_gate t)

  pub idt_init : Idt → Idt
  idt_init t =
      let u = set_interrupts 224 32 (set_exceptions 32 0 t) in
      set_handler 0x80 Handler.system_call
        (set_gate 0x80 (stubs 0x80) (bit_or interrupt_gate access_ring3) u)

-- The vector is not tested. The result is 0 where the handler is set, and 1 where it is not.
pub idt_register_handler : ℕ → Handler → Idt → Outcome (Idt × ℕ)
unfolding set_handler
idt_register_handler vector h t =
    if not (ltb vector 256)
    then fault
    else if not (is_default (t.handlers vector))
    then ok (set_handler vector h t, 0)
    else ok (t, 1)
