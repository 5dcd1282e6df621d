-- ===== src/Ps2/Polite.antt =====
-- What is asked of the PS/2 controller, it is asked when it is ready.
use shadow_os.Base.{
  ℕ, zero, suc, ◌≡◌, ◌≢◌, arith, Bool, true, false, Option, none, some, List, [], ◌∷◌, ◌==◌, ◌!=◌,
  if◌then◌else◌, bit_and, Bool-cases, inl, inr,
}
use shadow_os.Ports.{Ports, Run, ◌>>=◌, continue, done, output}
use shadow_os.Ports.Logged.{Access, got, put, logged}
use shadow_os.Ps2.{
  data_port, status_port, input_full, output_full, wait_for_write, wait_for_read, send, receive,
  flush, configure, new_config, ps2_init,
}
use shadow_os.Keyboard.Init.{unmask_line, kbd_init, kbd_send_command, kbd_read_scancode, init_input}
use shadow_os.Keyboard.{ack}
use shadow_os.Pic.{Pic, unmask}
use shadow_os.Idt.{Idt, Handler, idt_register_handler}

-- The latest access is a read of the status in which the controller can take a byte, or has one.
pub data CanWrite : List Access → Type 0 where
  can_write :
      (status : ℕ) (log : List Access)
      → input_full status ≡ false
      → CanWrite (got status_port status ∷ log)

pub data CanRead : List Access → Type 0 where
  can_read :
      (status : ℕ) (log : List Access)
      → output_full status ≡ true
      → CanRead (got status_port status ∷ log)

-- Each access is a read of the status, a write to a controller that can take it, a read of a byte that
-- is there, or a write to a port that is not one of the two of the controller.
pub data Polite : List Access → Type 0 where
  nothing : Polite []
  asks : (status : ℕ) {log : List Access} → Polite log → Polite (got status_port status ∷ log)
  writes : (port v : ℕ) {log : List Access} → CanWrite log → Polite log → Polite (put port v ∷ log)
  elsewhere :
      (port v : ℕ) {log : List Access}
      → port ≢ status_port
      → port ≢ data_port
      → Polite log
      → Polite (put port v ∷ log)
  reads : (v : ℕ) {log : List Access} → CanRead log → Polite log → Polite (got data_port v ∷ log)

module _ (P : Ports) where
  abbrev S : Type 0
  S = P.State × List Access

  -- Code that keeps the list of accesses polite, be it that it ends or that it waits.
  Safe : {A : Type 0} → Run S A → Type 0
  Safe m = (s : S) → Polite s.1 → Polite (m s).0.1

  Safe-continue :
      {A B : Type 0} (r : S × Option A) (f : A → Run S B)
      → Polite r.0.1
      → ((a : A) → Safe (f a))
      → Polite (continue r f).0.1
  unfolding Safe
  Safe-continue (t, none) f h k = h
  Safe-continue (t, some a) f h k = k a t h

  Safe-bind :
      {A B : Type 0} (m : Run S A) (f : A → Run S B)
      → Safe m
      → ((a : A) → Safe (f a))
      → Safe (m >>= f)
  unfolding Safe
  Safe-bind m f h k s polite = Safe-continue (m s) f (h s polite) k

  Safe-done : {A : Type 0} (a : A) → Safe (done a)
  unfolding Safe
  Safe-done a s polite = polite

  Safe-if : {A : Type 0} (b : Bool) (x y : Run S A) → Safe x → Safe y → Safe (if b then x else y)
  Safe-if true x y h k = h
  Safe-if false x y h k = k

  -- where code has ended, the list is of a kind besides
  abbrev Waited : {A : Type 0} → (List Access → Type 0) → S × Option A → Type 0
  Waited Post (t, none) = Polite t.1
  Waited Post (t, some a) = Polite t.1 × Post t.1

  Waited-continue :
      {A B : Type 0} (Post : List Access → Type 0) (r : S × Option A) (f : A → Run S B)
      → Waited Post r
      → ((a : A) (t : S) → Polite t.1 → Post t.1 → Polite (f a t).0.1)
      → Polite (continue r f).0.1
  Waited-continue Post (t, none) f h k = h
  Waited-continue Post (t, some a) f (h, post) k = k a t h post

  wait_for_write-Waited :
      (fuel : ℕ) (s : S) → Polite s.1 → Waited CanWrite (wait_for_write (logged P) fuel s)
  unfolding wait_for_write
  wait_for_write-Waited zero s polite = polite
  wait_for_write-Waited (suc k) s polite =
      let (status, t) = P.inb status_port s.0 in
      let again = asks status polite in
      elim (Bool-cases (input_full status)) [
        | inl full ↦ rw full (wait_for_write-Waited k (t, got status_port status ∷ s.1) again)
        | inr free ↦ rw free (again, can_write status s.1 free)
      ]

  wait_for_read-Waited :
      (fuel : ℕ) (s : S) → Polite s.1 → Waited CanRead (wait_for_read (logged P) fuel s)
  unfolding wait_for_read
  wait_for_read-Waited zero s polite = polite
  wait_for_read-Waited (suc k) s polite =
      let (status, t) = P.inb status_port s.0 in
      let again = asks status polite in
      elim (Bool-cases (output_full status)) [
        | inl full ↦ rw full (again, can_read status s.1 full)
        | inr empty ↦ rw empty (wait_for_read-Waited k (t, got status_port status ∷ s.1) again)
      ]

  send-Safe : (fuel port v : ℕ) → Safe (send (logged P) fuel port v)
  unfolding Safe send
  send-Safe fuel port v s polite =
      Waited-continue CanWrite (wait_for_write (logged P) fuel s) _
        (wait_for_write-Waited fuel s polite) λ a t again can. writes port v can again

  receive-Safe : (fuel : ℕ) → Safe (receive (logged P) fuel)
  unfolding Safe receive
  receive-Safe fuel s polite =
      Waited-continue CanRead (wait_for_read (logged P) fuel s) _
        (wait_for_read-Waited fuel s polite) λ a t again can. reads _ can again

  flush-Safe : (fuel : ℕ) → Safe (flush (logged P) fuel)
  unfolding Safe flush
  flush-Safe zero s polite = polite
  flush-Safe (suc k) s polite =
      let (status, t) = P.inb status_port s.0 in
      let (v, u) = P.inb data_port t in
      let again = asks status polite in
      elim (Bool-cases (output_full status)) [
        | inl full ↦ rw full (
            flush-Safe k (u, got data_port v ∷ got status_port status ∷ s.1)
              (reads v (can_read status s.1 full) again))
        | inr empty ↦ rw empty again
      ]

  send-next :
      {A : Type 0} (fuel port v : ℕ) (f : Unit {0} → Run S A)
      → ((a : Unit {0}) → Safe (f a))
      → Safe (send (logged P) fuel port v >>= f)
  send-next fuel port v f = Safe-bind (send (logged P) fuel port v) f (send-Safe fuel port v)

  configure-Safe : (fuel conf : ℕ) → Safe (configure (logged P) fuel conf)
  unfolding configure
  configure-Safe fuel conf =
      let has = bit_and conf 0x20 == 0 in
      Safe-bind (if has then done tt else send (logged P) fuel status_port 0xA7) _
        (Safe-if has _ _ (Safe-done tt) (send-Safe fuel status_port 0xA7))
        λ a. send-next fuel status_port 0x60 _ λ b.
          send-next fuel data_port (new_config conf has) _ λ c.
            send-next fuel status_port 0xAE _
              λ d. Safe-if has _ _ (send-Safe fuel status_port 0xA8) (Safe-done tt)

  ps2_init-Safe : (fuel : ℕ) → Safe (ps2_init (logged P) fuel)
  unfolding ps2_init
  ps2_init-Safe fuel = send-next fuel status_port 0xAD _ λ a. send-next fuel status_port 0xA7 _ λ b.
      Safe-bind (flush (logged P) fuel) _ (flush-Safe fuel) λ c.
        send-next fuel status_port 0xAA _ λ d.
          Safe-bind (receive (logged P) fuel) _ (receive-Safe fuel) λ result.
            Safe-if (result != 0x55) _ _ (Safe-done false) (
              send-next fuel status_port 0xA8 _ λ e. send-next fuel status_port 0x20 _ λ g.
                Safe-bind (receive (logged P) fuel) _ (receive-Safe fuel) λ conf.
                  Safe-bind (configure (logged P) fuel conf) _ (configure-Safe fuel conf)
                    λ h. Safe-done true)

  output-Safe :
      (port v : ℕ) → port ≢ status_port → port ≢ data_port → Safe (output (logged P) port v)
  unfolding Safe
  output-Safe port v ns nd s polite = elsewhere port v ns nd polite

  unmask_line-Safe : (pic : Pic) → Safe (unmask_line (logged P) 1 pic)
  unfolding unmask_line
  unmask_line-Safe pic =
      let u = unmask 1 pic in
      Safe-bind (output (logged P) 0x80 0) _ (output-Safe 0x80 0 (omega arith) (omega arith)) λ a.
        Safe-bind (output (logged P) 0x21 u.master_data) _
          (output-Safe 0x21 u.master_data (omega arith) (omega arith)) λ b. Safe-done u

  kbd_init-Safe :
      (fuel kbd_handler_at : ℕ) (idt : Idt) (pic : Pic)
      → Safe (kbd_init (logged P) fuel kbd_handler_at idt pic)
  unfolding kbd_init kbd_send_command kbd_read_scancode
  kbd_init-Safe fuel kbd_handler_at idt pic = send-next fuel status_port 0xAE _ λ a.
      send-next fuel data_port 0xFF _ λ b.
        Safe-bind (receive (logged P) fuel) _ (receive-Safe fuel) λ response.
          send-next fuel data_port 0xF4 _ λ c.
            Safe-bind (unmask_line (logged P) 1 pic) _ (unmask_line-Safe pic) λ pic'.
              Safe-done
                (idt_register_handler 33 (Handler.device kbd_handler_at) idt, pic', response == ack)

-- Whatever the devices answer, and whether the code ends or waits for ever: when the controller and
-- then the keyboard are initialised, with the interrupt of the keyboard at the end, every byte to a
-- port of the controller is written right behind a read of its status that allows a write, and every
-- byte is read right behind one that shows a byte.
pub init_input-Polite :
    (P : Ports) (fuel kbd_handler_at : ℕ) (idt : Idt) (pic : Pic) (s : P.State) (log : List Access)
    → Polite log
    → Polite (init_input (logged P) fuel kbd_handler_at idt pic (s, log)).0.1
unfolding init_input Safe
init_input-Polite P fuel kbd_handler_at idt pic s log polite =
    Safe-bind P (ps2_init (logged P) fuel) _ (ps2_init-Safe P fuel)
      (λ passed. kbd_init-Safe P fuel kbd_handler_at idt pic) (s, log) polite
