-- ===== src/Tests/Vectors.antt =====
-- The theorems on the interrupt table at stubs sixteen bytes apart, and on two open lines.
use shadow_os.Base.{ℕ, ◌+◌, ◌*◌, ◌≡◌, [], ◌∷◌, arith}
use shadow_os.Base.Outcome.{ok}
use shadow_os.Base.Returning.{Returning}
use shadow_os.Idt.{Handler, Idt, gate, idt_init, idt_register_handler}
use shadow_os.Idt.Registered.{register_all, exceptions-Panics}
use shadow_os.Pic.{Pic, unmask, pic_init}
use shadow_os.Pic.Ports.{Mirrors, initial, unmasked, Reached-Mirrors}

abbrev stubs : ℕ → ℕ
stubs v = 0xFFFFFFFF80001000 + v * 16

abbrev no_table : Idt
no_table = record { gates = λ i. gate 0 0; handlers = λ i. Handler.null }

exceptions-Panics_example :
    Returning
      (λ u.
        (u.handlers 14 ≡ Handler.default_handler)
        × (idt_register_handler 14 (Handler.device 4096) u ≡ ok (u, 1)))
      (register_all
        ((33, Handler.device 8192) ∷ (14, Handler.device 4096) ∷ [])
        (idt_init stubs no_table))
exceptions-Panics_example =
    exceptions-Panics stubs ((33, Handler.device 8192) ∷ (14, Handler.device 4096) ∷ []) no_table 14
      (Handler.device 4096) (omega arith)

-- pic_init, then the lines of the timer and of the second controller
abbrev lines_open : Pic
lines_open =
    unmask 8
      (unmask 0 (pic_init (record { curmask = 0; master_data = 0; slave_data = 0; commands = [] })))

Reached-Mirrors_example : Mirrors lines_open
Reached-Mirrors_example = Reached-Mirrors (
    unmasked
      (unmasked (initial (record { curmask = 0; master_data = 0; slave_data = 0; commands = [] })) 0
        (omega arith))
      8 (omega arith))
