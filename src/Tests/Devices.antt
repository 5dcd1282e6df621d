-- ===== src/Tests/Devices.antt =====
-- A device in a directory of ramfs.
use shadow_os.Base.{
  Option, replicate, length-replicate, ℕ, ◌≡◌, refl, true, none, some, [], ◌∷◌, arith, pos,
}
use shadow_os.Base.Outcome.{ok, ◌>>=◌}
use shadow_os.Vfs.{Fs, NodeType, Ops, unlock_with}
use shadow_os.Vfs
use shadow_os.Vfs.Paths.{lookup}
use shadow_os.Ramfs.Create.{Allocated, put_node}
use shadow_os.Ramfs.Create.Children.{Gives}
use shadow_os.Memory.Chars.{Chars}
use shadow_os.Ramfs.Create
use shadow_os.Devfs.{Driver, Devices, devfs_ops, add_dev}
use shadow_os.Devfs.Added.{with_devfs, device_node, read-add_dev}
use shadow_os.Tests.Nodes.{plain, folder, folder-Chain}

abbrev pub memory_of : ℕ → Option Chars
memory_of n = some (replicate n 0)

-- memory for the copy of a text of one byte
pub b-Gives : Gives memory_of (b'b' ∷ []) []
b-Gives = record {
  roomy = λ n b e. ground (arith, e, length-replicate {A = ℕ} n 0);
  object = 0 ∷ 0 ∷ [];
  given = refl;
  behind = refl;
}

abbrev memory : Allocated
memory = record { node = some 24; data_at = some 32; copy = memory_of }

-- ramfs at address 1
abbrev pub of_ramfs : ℕ → Ops
of_ramfs i = record {
  read = none;
  write = none;
  create = some (Create.create 9 1 memory);
  ioctl = none;
}

-- a driver that reads one byte, whatever it is asked for
abbrev one_byte : Driver
one_byte buf size offset s = ok (s, pos 1)

abbrev no_devices : Devices
no_devices = record { fs = folder; table = λ i. none }

read-add_dev_example :
    (u : Devices) × (add_dev of_ramfs 100 2 9
        (some 40)
        (some 8)
        (some (b'b' ∷ 0 ∷ []))
        (some one_byte)
        (some one_byte)
        no_devices
      ≡ ok (u, pos 0))
    × (lookup 9 8 (b'b' ∷ 0 ∷ 7 ∷ []) u.fs ≡ ok (some 24))
    × (Vfs.read (with_devfs 2 (devfs_ops 9 none u.table) of_ramfs) 100 24 4096 1 0 u.fs ≡ (do
      (e, n) ← one_byte 4096 1 0 (
          put_node 24
            (some (record (device_node 100 2 8 0 1 32 40 (b'b' ∷ 0 ∷ [])) { locked = true }))
            u.fs)
      unlock_with 24 n e))
read-add_dev_example =
    read-add_dev of_ramfs 100 2 1 9 8 24 32 40 4096 1 0 memory_of none one_byte one_byte no_devices
      (record plain { kind = NodeType.dir; child = 16 })
      (record { at = 16; text = b'a' ∷ []; behind = [] } ∷ []) (b'b' ∷ []) [] [] (7 ∷ []) refl refl
      refl (omega arith) refl folder-Chain (omega arith, tt) b-Gives refl refl (omega arith)
      (omega arith) (omega arith)
