-- ===== src/Ps2.antt =====
-- kernel/src/dev/input/ps2.c: the initialisation of the PS/2 controller. Its waits are on fuel.
pub mod Polite
use shadow_os.Base.{
  ℕ, zero, suc, ◌-◌, Bool, true, false, none, some, ◌==◌, ◌!=◌, if◌then◌else◌, bit_and, bit_or,
}
use shadow_os.Ports.{Ports, Run, ◌>>=◌, ◌>>◌, done, input, output}

-- PS2_IO_DATA, PS2_IO_STATUS and PS2_IO_COMMAND
abbrev pub data_port : ℕ
data_port = 0x60

abbrev pub status_port : ℕ
status_port = 0x64

-- PS2_STATUS_INPUT_FULL and PS2_STATUS_OUTPUT_FULL
abbrev pub input_full : ℕ → Bool
input_full status = bit_and status 2 != 0

abbrev pub output_full : ℕ → Bool
output_full status = bit_and status 1 != 0

-- the byte that is written back: both clocks on, and an interrupt for each port that there is
unfoldable pub new_config : ℕ → Bool → ℕ
new_config conf has_second_port =
    let enabled = bit_or (bit_and conf (0xFF - 0x30)) 1 in
    if has_second_port then bit_or enabled 2 else enabled

module _ (P : Ports) where
  unfoldable pub wait_for_write : ℕ → Run P.State (Unit {0})
  wait_for_write zero s = (s, none)
  wait_for_write (suc k) s =
      let (status, t) = P.inb status_port s in
      let rest = wait_for_write k t in if input_full status then rest else (t, some tt)

  unfoldable pub wait_for_read : ℕ → Run P.State (Unit {0})
  wait_for_read zero s = (s, none)
  wait_for_read (suc k) s =
      let (status, t) = P.inb status_port s in
      let rest = wait_for_read k t in if output_full status then (t, some tt) else rest

  -- `wait_for_write();` and an `outb`, `wait_for_read();` and an `inb` of the data port
  unfoldable pub send : ℕ → ℕ → ℕ → Run P.State (Unit {0})
  send fuel port v = do wait_for_write fuel; output P port v

  unfoldable pub receive : ℕ → Run P.State ℕ
  receive fuel = do tt ← wait_for_read fuel; input P data_port

  -- the loop that empties the output buffer
  unfoldable pub flush : ℕ → Run P.State (Unit {0})
  flush zero s = (s, none)
  flush (suc k) s =
      let (status, t) = P.inb status_port s in
      let (v, u) = P.inb data_port t in
      let rest = flush k u in if output_full status then rest else (t, some tt)

  -- behind the test for the second port
  unfoldable pub configure : ℕ → ℕ → Run P.State (Unit {0})
  configure fuel conf = do
    let has_second_port = bit_and conf 0x20 == 0
    if has_second_port then done tt else send fuel status_port 0xA7
    send fuel status_port 0x60
    send fuel data_port (new_config conf has_second_port)
    send fuel status_port 0xAE
    if has_second_port then send fuel status_port 0xA8 else done tt

  -- ps2_init: whether the controller has passed its test
  unfoldable pub ps2_init : ℕ → Run P.State Bool
  ps2_init fuel = do
    send fuel status_port 0xAD
    send fuel status_port 0xA7
    flush fuel
    send fuel status_port 0xAA
    test_result ← receive fuel
    if test_result != 0x55 then done false else (do
      send fuel status_port 0xA8
      send fuel status_port 0x20
      conf ← receive fuel
      configure fuel conf
      done true)
