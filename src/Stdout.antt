-- ===== src/Stdout.antt =====
-- kernel/src/dev/stdout.c: the device of the standard output, which writes to the serial port.
pub mod Sent
use shadow_os.Base.{
  int_of_size, ℕ, zero, suc, ◌+◌, ◌%◌, ◌^◌, ◌==◌, if◌then◌else◌, Option, none, some, List, ℤ, pos,
  negsuc, [], ◌∷◌,
}
use shadow_os.Base.Outcome.{Outcome, ok, halted, ◌>>=◌}
use shadow_os.Memory.Block.{Bytes}
use shadow_os.Memory.Chars.{Chars}
use shadow_os.Vfs.{Ops}
use shadow_os.Vfs.Paths.{is_zero, lazy_lookup}
use shadow_os.Devfs.{Driver, Devices, add_dev}
use shadow_os.Ports.{Ports}

-- DEFAULT_COM_PORT
abbrev pub com_port : ℕ
com_port = 0x3F8

-- read
pub read : ℤ
read = negsuc 0

-- `_GRAPHICAL_STDOUT` is set: `putchar` gives each byte to the terminal, of which the bytes are kept,
-- the latest first.
module _ (P : Ports) where
  -- the loop of write, with the number of bytes that are left
  unfoldable pub write_bytes : ℕ → Bytes → ℕ → P.State × Chars → P.State × Chars
  write_bytes zero mem at s = s
  write_bytes (suc n) mem at (s, screen) =
      let c = mem at % 2 ^ 8 in write_bytes n mem (at + 1) (P.outb com_port c s, c ∷ screen)

  unfoldable pub write : Bytes → ℕ → ℕ → P.State × Chars → Outcome ((P.State × Chars) × ℤ)
  write mem buf size s =
      if buf == 0 then halted else ok (write_bytes size mem buf s, int_of_size size)

-- stdout_init, over the mounts by their roots; the result is `stdout`
pub stdout_init :
    (ops_at : ℕ → Ops) (now devfs_at : ℕ)
    → ℕ
    → Option ℕ
    → Option ℕ
    → Driver
    → Driver
    → List ℕ
    → Devices
    → Outcome (Devices × Option ℕ)
stdout_init ops_at now devfs_at fuel memory root rd wr roots s = do
  (t, ret) ←
      add_dev ops_at now devfs_at fuel memory root
        (some (b's' ∷ b't' ∷ b'd' ∷ b'o' ∷ b'u' ∷ b't' ∷ 0 ∷ [])) (some rd) (some wr) s
  if is_zero ret
      then (do
        found ←
            lazy_lookup fuel roots
              (b'/' ∷ b'd' ∷ b'e' ∷ b'v' ∷ b'/' ∷ b's' ∷ b't' ∷ b'd' ∷ b'o' ∷ b'u' ∷ b't' ∷ 0 ∷ [])
              t.fs
        ok (t, found))
      else halted
