-- ===== src/Devfs/Added.antt =====
-- A device that is added is found by its name, and its node's reads are calls of its driver.
use shadow_os.Base.{
  ℕ, ◌+◌, ◌<◌, ◌≡◌, ◌≢◌, refl, ◌==◌, true, false, Option, none, some, List, length, arith,
  if◌then◌else◌, pos,
}
use shadow_os.Base.Outcome.{ok, ◌>>=◌}
use shadow_os.Memory.Chars.{Chars}
use shadow_os.Memory.Chars.Length.{IsText, cstr}
use shadow_os.Vfs.{
  Vnode, NodeType, Fs, Ops, is_dir, modify, lock, unlock, unlock_with, entry_of, run_read,
}
use shadow_os.Vfs
use shadow_os.Vfs.Paths.{lookup}
use shadow_os.Vfs.Paths.Children.{Child, Chain, first_named}
use shadow_os.Ramfs.Create.{Allocated, put_node, new_node}
use shadow_os.Ramfs.Create
use shadow_os.Ramfs.Create.Children.{Gives}
use shadow_os.Ramfs.Create.Made.{stamped, create_vnode-Chain, lookup-changed_last}
use shadow_os.Devfs.{Driver, Device, Devices, devfs_ops, fill_device, add_dev, put_device}
use shadow_os.Devfs

-- the table of operations in which `devfs_ops` stands at its address
abbrev pub with_devfs : ℕ → Ops → (ℕ → Ops) → ℕ → Ops
with_devfs at ops others i = if i == at then ops else others i

read_lem :
    (table : ℕ → Option Device) (a buf size offset : ℕ) (device : Device) (s : Fs) (w : Vnode)
    → s.nodes a ≡ some w
    → table w.data_at ≡ some device
    → Devfs.read table a buf size offset s ≡ device.read buf size offset s
unfolding Devfs.read
read_lem table a buf size offset device s w there has = rw (there, has) refl

-- A read of a node calls the driver of its device while it holds the lock of the node.
read-driver :
    (ops_at : ℕ → Ops) (now devfs_at fuel a d buf size offset : ℕ) (memory : Option ℕ)
    (table : ℕ → Option Device) (device : Device) (s : Fs) (w : Vnode)
    → devfs_at ≢ 0
    → s.nodes a ≡ some w
    → w.locked ≡ false
    → is_dir w.kind ≡ false
    → w.ops ≡ devfs_at
    → w.data_at ≡ d
    → table d ≡ some device
    → Vfs.read (with_devfs devfs_at (devfs_ops fuel memory table) ops_at) now a buf size offset s
      ≡ (do
        (t, n) ← device.read buf size offset (put_node a (some (record w { locked = true })) s)
        unlock_with a n t)
unfolding Vfs.read lock modify entry_of run_read
read-driver ops_at now devfs_at fuel a d buf size offset memory table device s w nz there free file
      is_devfs at_d has =
    let set : (w.ops == 0) ≡ false = ground (arith, is_devfs, nz) in
    let its : (w.ops == devfs_at) ≡ true = ground (arith, is_devfs) in
    rw (there, free)
      (rw
        (
          file,
          set,
          its,
          read_lem table a buf size offset device (put_node a (some (record w { locked = true })) s)
              (record w { locked = true }) (ground arith) (rw at_d has),
        )
        refl)

-- What add_dev makes of a new node `a`.
fill_device-Keeps :
    (ops_at : ℕ → Ops) (now devfs_at fuel a d : ℕ) (device : Device) (s : Devices) (w : Vnode)
    → s.fs.nodes a ≡ some w
    → fill_device ops_at now devfs_at fuel (some d) a device s
      ≡ ok (
        put_device d device (record s {
          fs =
              put_node a
                (some (record w { ops = devfs_at; data_at = d }))
                (put_node a (some (record w { ops = devfs_at })) s.fs);
        }),
        pos 0,
      )
unfolding fill_device modify
fill_device-Keeps ops_at now devfs_at fuel a d device s w there = rw there (ground arith)

-- the node of a new device
abbrev pub device_node : (now devfs_at self mount ramfs_at m d : ℕ) → Chars → Vnode
unfolding new_node
device_node now devfs_at self mount ramfs_at m d name =
    record (stamped now (new_node self mount ramfs_at name NodeType.dev m)) {
      ops = devfs_at;
      data_at = d;
    }

-- A device is added to a directory of ramfs that is not locked and does not have its name, with
-- allocations that give memory that nothing uses and an object for the copy of the name. Then devfs_add_dev returns 0, vfs_lookup finds the
-- node by the name, and vfs_read of that node calls the driver with the buffer, the size and the
-- offset while it holds the lock of the node, releases the lock and returns what the driver returned.
pub read-add_dev :
    (ops_at : ℕ → Ops) (now devfs_at ramfs_at fuel self a m d buf size offset : ℕ)
    (copy : ℕ → Option Chars) (memory : Option ℕ) (rd wr : Driver) (s : Devices) (v : Vnode)
    (xs : List Child) (t q r behind : Chars)
    → s.fs.nodes self ≡ some v
    → v.locked ≡ false
    → is_dir v.kind ≡ true
    → v.ops ≢ 0
    → (ops_at v.ops).create
      ≡ some (Create.create fuel ramfs_at (record { node = some a; data_at = some m; copy = copy }))
    → Chain s.fs v.child xs
    → IsText t
    → Gives copy t r
    → first_named t xs ≡ none
    → s.fs.nodes a ≡ none
    → a ≢ 0
    → 1 + length xs < fuel
    → devfs_at ≢ 0
    → (u : Devices) × (add_dev ops_at now devfs_at fuel
          (some d)
          (some self)
          (some (cstr t q))
          (some rd)
          (some wr)
          s
        ≡ ok (u, pos 0))
      × (lookup fuel self (cstr t behind) u.fs ≡ ok (some a))
      × (Vfs.read
            (with_devfs devfs_at (devfs_ops fuel memory u.table) ops_at)
            now
            a
            buf
            size
            offset
            u.fs
          ≡ (do
            (e, n) ← rd buf size offset (
                put_node a
                  (some (record (device_node now devfs_at self v.mount ramfs_at m d (cstr t r)) {
                    locked = true;
                  }))
                  u.fs)
            unlock_with a n e))
unfolding add_dev new_node
read-add_dev ops_at now devfs_at ramfs_at fuel self a m d buf size offset copy memory rd wr s v xs t
      q r behind there free dir nonzero entry h ht gives new fresh a_nz lt nz =
    let device : Device = record { read = rd; write = wr } in
    let (u, v', made, there', node, longer) =
      create_vnode-Chain ops_at now fuel ramfs_at self a m copy NodeType.dev s.fs v xs t q r there
        free dir nonzero entry h ht gives new fresh a_nz lt in
    let w = stamped now (new_node self v.mount ramfs_at (cstr t r) NodeType.dev m) in
    let apart : a ≢ self = ground (arith, there, fresh) in
    let w1 = record w { ops = devfs_at } in
    let w2 = record w { ops = devfs_at; data_at = d } in
    let u2 = put_node a (some w2) (put_node a (some w1) u) in
    let filled =
      fill_device-Keeps ops_at now devfs_at fuel a d device (record s { fs = u }) w node in
    (
      put_device d device (record s { fs = u2 }),
      rw made filled,
      lookup-changed_last fuel self u v' w w1 w2 xs (record { at = a; text = t; behind = r }) behind
          there' node apart longer ht new lt refl refl refl refl,
      read-driver ops_at now devfs_at fuel a d buf size offset memory
          (put_device d device (record s { fs = u2 })).table device u2 w2 nz (ground arith) refl
          refl refl refl (ground arith),
    )
