-- ===== src/Keyboard.antt =====
-- kernel/src/dev/input/keyboard.c: the scan code that the interrupt handler leaves for /dev/ps2kb.
pub mod Init
use shadow_os.Base.{
  ℕ, ◌≤◌, ◌≡◌, ◌≢◌, Bool, true, false, ◌==◌, leb, if◌then◌else◌, ℤ, pos, negsuc, arith, Option,
  none, some,
}

-- `last_scancode` and `has_scancode`
pub record Keyboard : Type 0 where
  pub last : ℕ
  pub has : Bool

-- KBD_ACK
abbrev pub ack : ℕ
ack = 0xFA

-- kbd_handler, with the byte that kbd_read_scancode got from the port
pub handler : ℕ → Keyboard → Keyboard
handler scancode k =
    if scancode == ack
    then record { last = 0; has = false }
    else record { last = scancode; has = true }

-- kbd_read: what is written to `out`, if anything, and the result
pub read : ℕ → Keyboard → Keyboard × (Option ℕ × ℤ)
read size k =
    if k.has
    then (if leb 1 size
        then (record k { has = false }, (some k.last, pos 1))
        else (k, (none, pos 1)))
    else (k, (none, negsuc 0))

-- A scan code other than the acknowledgement is read once, whatever came before it: the first read
-- that has room for it gets it, and the next read fails.
pub read-handler :
    (code size size' : ℕ) (k : Keyboard)
    → code ≢ ack
    → 1 ≤ size
    → let (k', out) = read size (handler code k) in
      (out ≡ (some code, pos 1)) × ((read size' k').1 ≡ (none, negsuc 0))
unfolding read handler
read-handler code size size' k other room = ground (arith, other)
