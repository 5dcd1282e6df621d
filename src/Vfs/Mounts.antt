-- ===== src/Vfs/Mounts.antt =====
-- vfs_init, vfs_mount and vfs_umount of kernel/src/dev/vfs.c: the doubly linked list of mounts. It is
-- followed on fuel, `stuck` where that runs out.
pub mod Undo
use shadow_os.Base.{
  ℕ, zero, suc, Bool, true, false, not, ◌&&◌, ◌||◌, Option, none, some, is_none, List, [], ◌∷◌,
  ◌==◌, if◌then◌else◌,
}
use shadow_os.Base.Outcome.{Outcome, ok, stuck, ◌>>=◌, deref}
use shadow_os.Memory.Chars.{Chars, strcmp}
use shadow_os.Vfs.{Vnode, NodeType, Fs, is_dir}
use shadow_os.Vfs.Paths.{is_zero, lazy_lookup}

-- `mount_t`, its pointers as numbers, 0 for NULL
pub record Mount : Type 0 where
  pub root : ℕ
  pub next : ℕ
  pub prev : ℕ
  pub mountpoint : Chars
  pub kind : Chars

-- The mounts by address, and `root_mount`.
pub record Mounts : Type 0 where
  pub mounts : ℕ → Option Mount
  pub root_mount : ℕ
  pub fs : Fs

-- What the allocations of vfs_init give: the mount, the root with what its memory held, and whether
-- there is memory for the three strings.
pub record RootMemory : Type 0 where
  pub mount : Option ℕ
  pub root : Option (ℕ × Vnode)
  pub has_name : Bool
  pub has_mountpoint : Bool
  pub has_kind : Bool

-- VNODE_MODE_RUSR | WUSR | XUSR | RGRP | XGRP | ROTH | XOTH
abbrev root_mode : ℕ
root_mode = 0x1ED

-- The root as it is filled in: `next` stays what it was.
root_node : ℕ → ℕ → Vnode → Vnode
root_node self mount old = record old {
  name = b'/' ∷ 0 ∷ [];
  kind = NodeType.dir;
  child = 0;
  mount = mount;
  parent = self;
  uid = 0;
  gid = 0;
  mode = root_mode;
  locked = false;
  data_at = 0;
  ops = 0;
  size = 0;
  creation_time = 0;
  access_time = 0;
  modify_time = 0;
  flags = 0;
}

abbrev pub put_mount : ℕ → Option Mount → Mounts → Mounts
put_mount a m s = record s { mounts = λ i. if i == a then m else s.mounts i }

init_with : ℕ → ℕ × Vnode → Mounts → Mounts
unfolding root_node
init_with a (r, old) s = record s {
  mounts = λ i.
      if i == a
      then some (record {
        root = r;
        next = 0;
        prev = 0;
        mountpoint = 0 ∷ [];
        kind = b'r' ∷ b'o' ∷ b'o' ∷ b't' ∷ b'f' ∷ b's' ∷ 0 ∷ [];
      })
      else s.mounts i;
  root_mount = a;
  fs = record s.fs { nodes = λ i. if i == r then some (root_node r a old) else s.fs.nodes i };
}

-- Where an allocation fails, what was allocated is freed again.
pub vfs_init : RootMemory → Mounts → Mounts
unfolding init_with
vfs_init memory s = elim memory.mount [
  | none ↦ s
  | some a ↦ elim memory.root [
    | none ↦ s
    | some r ↦
        if memory.has_name && memory.has_mountpoint && memory.has_kind then init_with a r s else s
  ]
]

-- the first loop of vfs_mount: whether the path is a mount point
unfoldable pub is_used : ℕ → Mounts → ℕ → Chars → Outcome Bool
is_used zero s current path = stuck
is_used (suc k) s current path = if current == 0 then ok false else (do
  m ← deref (s.mounts current)
  order ← deref (strcmp m.mountpoint path)
  let rest = is_used k s m.next path
  (if is_zero order then ok true else rest))

-- the roots of the mounts that follow each other, for the lookup of a path
unfoldable pub roots_from : ℕ → Mounts → ℕ → Outcome (List ℕ)
roots_from zero s current = stuck
roots_from (suc k) s current =
    if current == 0
    then ok []
    else (do m ← deref (s.mounts current); rest ← roots_from k s m.next; ok (m.root ∷ rest))

-- the last loop of vfs_mount
pub last_mount : ℕ → Mounts → ℕ → Outcome ℕ
last_mount zero s current = stuck
last_mount (suc k) s current = do
  m ← deref (s.mounts current)
  let rest = last_mount k s m.next
  (if m.next == 0 then ok current else rest)

-- The new mount `a` becomes the last one. It has no root.
pub append_mount : ℕ → ℕ → Chars → Chars → Mounts → Outcome Mounts
append_mount fuel a path kind s = do
  last ← last_mount fuel s s.root_mount
  m ← deref (s.mounts last)
  ok (
      put_mount last (some (record m { next = a })) (
        put_mount a
          (some (record { root = 0; next = 0; prev = last; mountpoint = path; kind = kind })) s))

-- whether a path is that of a directory
is_dir_at : Option ℕ → Mounts → Outcome Bool
is_dir_at none s = ok false
is_dir_at (some n) s = do v ← deref (s.fs.nodes n); ok (is_dir v.kind)

-- `memory` is where the mount is allocated, with whether there is memory for its strings. The result
-- is the mount, 0 for NULL.
pub vfs_mount : ℕ → Option ℕ → Bool → Chars → Chars → Mounts → Outcome (Mounts × ℕ)
unfolding is_dir_at
vfs_mount fuel memory has_strings path kind s = do
  used ← is_used fuel s s.root_mount path
  (if used then ok (s, 0) else (do
    roots ← roots_from fuel s s.root_mount
    found ← lazy_lookup fuel roots path s.fs
    dir ← is_dir_at found s
    (if not dir then ok (s, 0) else elim memory [
      | none ↦ ok (s, 0)
      | some a ↦
          if not has_strings then ok (s, 0) else (do t ← append_mount fuel a path kind s; ok (t, a))
    ])))

-- `if (a)`, and a write to that mount
unfoldable pub modify_some : ℕ → (Mount → Mount) → Mounts → Outcome Mounts
modify_some a f s =
    if a == 0 then ok s else (do m ← deref (s.mounts a); ok (put_mount a (some (f m)) s))

pub vfs_umount : ℕ → Mounts → Outcome Mounts
unfolding modify_some
vfs_umount a s = if a == 0 then ok s else (do
  m ← deref (s.mounts a)
  t ← modify_some m.prev (λ p. record p { next = m.next }) s
  u ← modify_some m.next (λ n. record n { prev = m.prev }) t
  ok (put_mount a none u))
