-- ===== src/Devfs.antt =====
-- kernel/src/fs/devfs.c: nodes whose reads and writes are functions of drivers.
pub mod Added
use shadow_os.Base.{ℕ, true, Option, none, some, ◌==◌, if◌then◌else◌, ℤ, pos, negsuc, Bool, [], ◌∷◌}
use shadow_os.Base.Outcome.{Outcome, ok, fault, ◌>>=◌, deref, assert_some}
use shadow_os.Memory.Chars.{Chars}
use shadow_os.Vfs.{NodeType, Fs, Ops, modify, lock, unlock, create_vnode}
use shadow_os.Vfs.Paths.{lookup}
use shadow_os.Vfs.Delete.{delete_node}
use shadow_os.Vfs.Mounts.{Mounts, vfs_mount, put_mount}

-- The functions of a driver: buffer, size, offset.
abbrev pub Driver : Type 0
Driver = ℕ → ℕ → ℕ → Fs → Outcome (Fs × ℤ)

-- `dev_t`
pub record Device : Type 0 where
  pub read : Driver
  pub write : Driver

-- the nodes, and the objects of devfs by address
pub record Devices : Type 0 where
  pub fs : Fs
  pub table : ℕ → Option Device

module _ (table : ℕ → Option Device) where
  -- `vnode->data` is taken to be the address of a device.
  unfoldable pub read : ℕ → ℕ → ℕ → ℕ → Fs → Outcome (Fs × ℤ)
  read n buf size offset s = do
    v ← deref (s.nodes n)
    d ← deref (table v.data_at)
    d.read buf size offset s

  pub write : ℕ → ℕ → ℕ → ℕ → Fs → Outcome (Fs × ℤ)
  write n buf size offset s = do
    v ← deref (s.nodes n)
    d ← deref (table v.data_at)
    d.write buf size offset s

-- devfs_create, with the node that is allocated, if any. It copies the name to where `name` of the
-- new node points, which is not set.
pub create : ℕ → Option ℕ → ℕ → Chars → NodeType → Fs → Outcome (Fs × Option ℕ)
unfolding lock unlock
create fuel memory self name kind s = do
  t ← unlock self s
  found ← lookup fuel self name t
  elim found [
    | some n ↦ ok (t, none)
    | none ↦ do (u, v) ← lock self t; elim memory [ none ↦ ok (u, none) | some a ↦ fault ]
  ]

-- `devfs_ops`, for an allocator of nodes
abbrev pub devfs_ops : ℕ → Option ℕ → (ℕ → Option Device) → Ops
devfs_ops fuel memory table = record {
  read = some (read table);
  write = some (write table);
  create = some (create fuel memory);
  ioctl = none;
}

abbrev pub put_device : ℕ → Device → Devices → Devices
put_device d device s = record s { table = λ i. if i == d then some device else s.table i }

-- The tables of operations by address, the time of new nodes, and the address of `devfs_ops`.
module _ (ops_at : ℕ → Ops) (now devfs_at : ℕ) where
  -- behind the creation of the node, with where the device is allocated
  unfoldable pub fill_device : ℕ → Option ℕ → ℕ → Device → Devices → Outcome (Devices × ℤ)
  fill_device fuel memory n device s = do
    t ← modify n (λ v. record v { ops = devfs_at }) s.fs
    elim memory [
      | none ↦ do u ← delete_node fuel n t; ok (record s { fs = u }, negsuc 0)
      | some d ↦ do
        u ← modify n (λ v. record v { data_at = d }) t
        ok (put_device d device (record s { fs = u }), pos 0)
    ]

  -- devfs_add_dev, its arguments none for NULL, on the root of the mount that is `devfs_root`
  unfoldable pub add_dev :
      ℕ
      → Option ℕ
      → Option ℕ
      → Option Chars
      → Option Driver
      → Option Driver
      → Devices
      → Outcome (Devices × ℤ)
  unfolding fill_device
  add_dev fuel memory root none read write s = ok (s, negsuc 0)
  add_dev fuel memory root (some name) none write s = ok (s, negsuc 0)
  add_dev fuel memory root (some name) (some read) none s = ok (s, negsuc 0)
  add_dev fuel memory root (some name) (some read) (some write) s = do
    r ← deref root
    (t, made) ← create_vnode ops_at now r name NodeType.dev s.fs
    elim made [
      | none ↦ ok (record s { fs = t }, negsuc 0)
      | some n ↦
          fill_device fuel memory n (record { read = read; write = write }) (record s { fs = t })
    ]

  -- devfs_init; the result is `devfs_root`, 0 where it stays NULL
  pub devfs_init : ℕ → Option ℕ → Bool → Mounts → Outcome (Mounts × ℕ)
  devfs_init fuel memory has_strings s = do
    m ← deref (s.mounts s.root_mount)
    (t, made) ← create_vnode ops_at now m.root (b'd' ∷ b'e' ∷ b'v' ∷ 0 ∷ []) NodeType.dir s.fs
    dir ← assert_some made
    u ← modify dir (λ v. record v { flags = 1 }) t
    (w, mount) ←
        vfs_mount fuel memory has_strings (b'/' ∷ b'd' ∷ b'e' ∷ b'v' ∷ 0 ∷ [])
          (b'd' ∷ b'e' ∷ b'v' ∷ b'f' ∷ b's' ∷ 0 ∷ []) (record s { fs = u })
    (if mount == 0 then ok (w, 0) else (do
      n ← deref (w.mounts mount)
      x ← modify dir (λ v. record v { mount = mount }) w.fs
      ok (put_mount mount (some (record n { root = dir })) (record w { fs = x }), mount)))
