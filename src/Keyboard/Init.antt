-- ===== src/Keyboard/Init.antt =====
-- kernel/src/dev/input/keyboard.c: the initialisation of the keyboard, and its interrupt, through the
-- ports. The waits are those of ps2.c.
use shadow_os.Base.{ℕ, Bool, ◌==◌, ltb, if◌then◌else◌}
use shadow_os.Ports.{Ports, Run, output, ◌>>=◌, ◌>>◌, done}
use shadow_os.Ps2.{data_port, status_port, send, receive, ps2_init}
use shadow_os.Pic.{Pic, eoi, unmask}
use shadow_os.Idt.{Idt, Handler, idt_register_handler}
use shadow_os.Base.Outcome.{Outcome}
use shadow_os.Keyboard.{Keyboard, ack, handler}

module _ (P : Ports) where
  unfoldable pub kbd_send_command : ℕ → ℕ → Run P.State (Unit {0})
  kbd_send_command fuel command = send P fuel data_port command

  unfoldable pub kbd_read_scancode : ℕ → Run P.State ℕ
  kbd_read_scancode fuel = receive P fuel

  -- pic_unmask through the ports, with the wait of io_wait
  unfoldable pub unmask_line : ℕ → Pic → Run P.State Pic
  unmask_line irq pic = do
    let u = unmask irq pic
    output P 0x80 0
    output P (if ltb irq 8 then 0x21 else 0xA1) (if ltb irq 8 then u.master_data else u.slave_data)
    done u

  -- kbd_init, with the address of kbd_handler: what idt_register_handler gives, which makes no access,
  -- the interrupt controller, and whether the keyboard has acknowledged its reset
  unfoldable pub kbd_init : ℕ → ℕ → Idt → Pic → Run P.State (Outcome (Idt × ℕ) × Pic × Bool)
  unfolding kbd_send_command kbd_read_scancode unmask_line
  kbd_init fuel kbd_handler_at idt pic = do
    send P fuel status_port 0xAE
    kbd_send_command fuel 0xFF
    response ← kbd_read_scancode fuel
    kbd_send_command fuel 0xF4
    let registered = idt_register_handler 33 (Handler.device kbd_handler_at) idt
    pic' ← unmask_line 1 pic
    done (registered, pic', response == ack)

  -- the two calls of kmain
  unfoldable pub init_input : ℕ → ℕ → Idt → Pic → Run P.State (Outcome (Idt × ℕ) × Pic × Bool)
  init_input fuel kbd_handler_at idt pic = do
    passed ← ps2_init P fuel
    kbd_init fuel kbd_handler_at idt pic

  -- kbd_handler, with the interrupt controller
  pub kbd_handler : ℕ → Keyboard → Pic → Run P.State (Keyboard × Pic)
  unfolding kbd_read_scancode
  kbd_handler fuel k pic = do
    scancode ← kbd_read_scancode fuel
    done (handler scancode k, eoi 1 pic)
