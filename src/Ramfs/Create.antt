-- ===== src/Ramfs/Create.antt =====
-- ramfs_create of kernel/src/fs/ramfs.c: a new node at the end of the children of its parent.
pub mod Append
pub mod Children
pub mod Made
use shadow_os.Base.{
  ℕ, zero, suc, Bool, true, false, Option, none, some, [], ◌==◌, ◌!=◌, if◌then◌else◌,
}
use shadow_os.Base.Outcome.{Outcome, ok, stuck, ◌>>=◌, deref}
use shadow_os.Memory.Chars.{Chars}
use shadow_os.Memory.Dup.{strdup}
use shadow_os.Vfs.{Vnode, NodeType, Fs, modify, lock, unlock}
use shadow_os.Vfs.Paths.{lookup}

-- What the allocator gives: the address of the node, that of its data, and the objects for the copy
-- of the name, by their sizes.
pub record Allocated : Type 0 where
  pub node : Option ℕ
  pub data_at : Option ℕ
  pub copy : ℕ → Option Chars

-- VNODE_MODE_RUSR | VNODE_MODE_WUSR | VNODE_MODE_RGRP, and VNODE_MODE_ROTH for all but devices
abbrev mode_of : NodeType → ℕ
mode_of NodeType.dev = 0x1A0
mode_of NodeType.dir = 0x1A4
mode_of NodeType.file = 0x1A4
mode_of NodeType.other = 0x1A4

-- the node as it is filled in, with the address of its data and that of `ramfs_ops`
unfoldable pub new_node : ℕ → ℕ → ℕ → Chars → NodeType → ℕ → Vnode
new_node self mount ops name kind data_at = record {
  parent = self;
  next = 0;
  child = 0;
  mount = mount;
  kind = kind;
  name = name;
  size = 0;
  data_at = data_at;
  uid = 0;
  gid = 0;
  mode = mode_of kind;
  creation_time = 0;
  access_time = 0;
  modify_time = 0;
  ops = ops;
  flags = 0;
  locked = false;
}

-- a write to the memory of a new node
abbrev pub put_node : ℕ → Option Vnode → Fs → Fs
put_node a v s = record s { nodes = λ i. if i == a then v else s.nodes i }

-- `while (current->next != NULL) current = current->next;` on fuel, `stuck` in a circle
pub last_child : ℕ → Fs → ℕ → Outcome ℕ
last_child zero s current = stuck
last_child (suc k) s current = do
  v ← deref (s.nodes current)
  let rest = last_child k s v.next
  (if v.next == 0 then ok current else rest)

-- The new node becomes the first child, or the one after the last.
pub append_child : ℕ → ℕ → ℕ → Fs → Outcome Fs
unfolding modify last_child
append_child fuel self a s = do
  v ← deref (s.nodes self)
  (if v.child == 0
      then modify self (λ v. record v { child = a }) s
      else (do last ← last_child fuel s v.child; modify last (λ v. record v { next = a }) s))

-- the name that a node gets, [] for NULL
abbrev pub copied_name : Option Chars → Chars
copied_name none = []
copied_name (some b) = b

-- behind the test of the name: `memory` is what was allocated
pub create_new : ℕ → ℕ → Allocated → ℕ → Chars → NodeType → Fs → Outcome (Fs × Option ℕ)
unfolding new_node
create_new fuel ops memory self name kind s = elim memory.node [
  | none ↦ ok (s, none)
  | some a ↦ do
    copy ← deref (strdup memory.copy name)
    v ← deref (s.nodes self)
    elim memory.data_at [
      | none ↦ ok (put_node a none s, none)
      | some d ↦ do
        t ←
            append_child fuel self a
              (put_node a (some (new_node self v.mount ops (copied_name copy) kind d)) s)
        ok (t, some a)
    ]
]

-- A name that exists is refused with the lock of the parent left free, which its caller releases
-- again.
pub create : ℕ → ℕ → Allocated → ℕ → Chars → NodeType → Fs → Outcome (Fs × Option ℕ)
unfolding lock unlock create_new
create fuel ops memory self name kind s = do
  t ← unlock self s
  found ← lookup fuel self name t
  elim found [
    | some n ↦ ok (t, none)
    | none ↦ do (u, v) ← lock self t; create_new fuel ops memory self name kind u
  ]
