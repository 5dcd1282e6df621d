-- ===== src/Vfs.antt =====
-- kernel/src/dev/vfs.c: nodes, their locks and permissions, and the calls into a file system's
-- operations.
pub mod Access
pub mod Delete
pub mod Locks
pub mod Mounts
pub mod Paths
use shadow_os.Base.{ℕ, Bool, true, false, Option, none, some, ◌==◌, if◌then◌else◌, ℤ, pos, negsuc}
use mathlib.Core.Option
use shadow_os.Base.Outcome.{Outcome, ok, stuck, ◌>>=◌, deref}
use shadow_os.Memory.Block.{Bytes}
use shadow_os.Memory.Chars.{Chars}

-- `vnode_type_t`
pub data NodeType : Type 0 where
  dir file dev : NodeType
  -- a number that the enumeration does not have, as a system call can pass it
  other : NodeType

-- `vnode_t`, with its pointers as numbers, 0 for NULL
pub record Vnode : Type 0 where
  pub parent : ℕ
  pub next : ℕ
  pub child : ℕ
  pub mount : ℕ
  pub kind : NodeType
  pub name : Chars
  pub size : ℕ
  pub data_at : ℕ
  pub uid : ℕ
  pub gid : ℕ
  pub mode : ℕ
  pub creation_time : ℕ
  pub access_time : ℕ
  pub modify_time : ℕ
  pub ops : ℕ
  pub flags : ℕ
  pub locked : Bool

-- The nodes by address, none where no node stands, and the memory of the buffers.
pub record Fs : Type 0 where
  pub nodes : ℕ → Option Vnode
  pub mem : Bytes

-- `vnode_ops_t`, each entry none for NULL: node, buffer, size, offset; node, name, type;
-- node, command, argument
pub record Ops : Type 0 where
  pub read : Option (ℕ → ℕ → ℕ → ℕ → Fs → Outcome (Fs × ℤ))
  pub write : Option (ℕ → ℕ → ℕ → ℕ → Fs → Outcome (Fs × ℤ))
  pub create : Option (ℕ → Chars → NodeType → Fs → Outcome (Fs × Option ℕ))
  pub ioctl : Option (ℕ → ℕ → ℕ → Fs → Outcome (Fs × ℤ))

abbrev pub is_dir : NodeType → Bool
is_dir NodeType.dir = true
is_dir NodeType.file = false
is_dir NodeType.dev = false
is_dir NodeType.other = false

-- a write through a pointer to a node
unfoldable pub modify : ℕ → (Vnode → Vnode) → Fs → Outcome Fs
modify n f s = do
  v ← deref (s.nodes n)
  ok (record s { nodes = λ i. if i == n then some (f v) else s.nodes i })

unfoldable pub lock : ℕ → Fs → Outcome (Fs × Vnode)
unfolding modify
lock n s = do
  v ← deref (s.nodes n)
  if v.locked then stuck else (do t ← modify n (λ v. record v { locked = true }) s; ok (t, v))

unfoldable pub unlock : ℕ → Fs → Outcome Fs
unfolding modify
unlock n s = modify n (λ v. record v { locked = false }) s

-- `spinlock_release` before a result
unfoldable pub unlock_with {ℓ} : {A : Type ℓ} → ℕ → A → Fs → Outcome (Fs × A)
unfolding unlock
unlock_with n a s = do t ← unlock n s; ok (t, a)

-- The tables of operations by address, and the time that GET_CURRENT_UNIX_TIME gives.
module _ (ops_at : ℕ → Ops) (now : ℕ) where
  -- `vnode->ops ? vnode->ops->… : NULL`
  unfoldable pub entry_of {ℓ} : {A : Type ℓ} → (Ops → Option A) → Vnode → Option A
  entry_of f v = if v.ops == 0 then none else f (ops_at v.ops)

  -- The call of the file system's read, if there is one, and what follows it.
  unfoldable pub run_read : ℕ → Option (Fs → Outcome (Fs × ℤ)) → Fs → Outcome (Fs × ℤ)
  unfolding unlock_with
  run_read n none s = unlock_with n (negsuc 0) s
  run_read n (some f) s = do (t, ret) ← f s; unlock_with n ret t

  -- The lock comes before the test for NULL, which is never met: address 0 faults.
  unfoldable pub read : ℕ → ℕ → ℕ → ℕ → Fs → Outcome (Fs × ℤ)
  unfolding lock unlock_with entry_of run_read
  read n buf size offset s = do
    (t, v) ← lock n s
    (if is_dir v.kind
        then unlock_with n (negsuc 0) t
        else run_read n (Option.map (λ f. f n buf size offset) (entry_of (λ o. o.read) v)) t)

  -- The time is set when the lock is free again.
  unfoldable pub run_write : ℕ → Option (Fs → Outcome (Fs × ℤ)) → Fs → Outcome (Fs × ℤ)
  unfolding unlock_with modify
  run_write n none s = unlock_with n (negsuc 0) s
  run_write n (some f) s = do
    (t, ret) ← f s
    (u, ret') ← unlock_with n ret t
    w ← modify n (λ v. record v { modify_time = now }) u
    ok (w, ret')

  unfoldable pub write : ℕ → ℕ → ℕ → ℕ → Fs → Outcome (Fs × ℤ)
  unfolding lock unlock_with entry_of run_write
  write n buf size offset s = do
    (t, v) ← lock n s
    (if is_dir v.kind
        then unlock_with n (negsuc 0) t
        else run_write n (Option.map (λ f. f n buf size offset) (entry_of (λ o. o.write) v)) t)

  -- the times of a node that a file system has made
  unfoldable pub stamp : Option ℕ → Fs → Outcome (Fs × Option ℕ)
  unfolding modify
  stamp none s = ok (s, none)
  stamp (some c) s = do
    t ← modify c (λ v. record v { creation_time = now; modify_time = now; access_time = now }) s
    ok (t, some c)

  unfoldable pub run_create :
      ℕ → Option (Fs → Outcome (Fs × Option ℕ)) → Fs → Outcome (Fs × Option ℕ)
  unfolding unlock_with stamp
  run_create parent none s = unlock_with parent none s
  run_create parent (some f) s = do
    (t, ret) ← f s
    (u, ret') ← unlock_with parent ret t
    stamp ret' u

  unfoldable pub create_vnode : ℕ → Chars → NodeType → Fs → Outcome (Fs × Option ℕ)
  unfolding lock unlock_with entry_of run_create
  create_vnode parent name kind s = do
    (t, v) ← lock parent s
    (if is_dir v.kind
        then run_create parent (Option.map (λ f. f parent name kind) (entry_of (λ o. o.create) v)) t
        else unlock_with parent none t)

pub chown : ℕ → ℕ → Fs → Outcome (Fs × ℤ)
unfolding lock unlock_with modify
chown n uid s = do
  (t, v) ← lock n s
  u ← modify n (λ v. record v { uid = uid }) t
  unlock_with n (pos 0) u

pub chmod : ℕ → ℕ → Fs → Outcome (Fs × ℤ)
unfolding lock unlock_with modify
chmod n mode s = do
  (t, v) ← lock n s
  u ← modify n (λ v. record v { mode = mode }) t
  unlock_with n (pos 0) u
