-- ===== src/Syscall/Permission.antt =====
-- A system call reads or writes a node only with the right to do so.
use shadow_os.Base.{
  ℕ, ◌≡◌, refl, true, Option, none, some, ℤ, pos, negsuc, zero, suc, ◌∙◌, ◌!=◌, arith, Bool-cases,
  inl, inr,
}
use shadow_os.Base.Outcome.{Outcome, ok, ◌>>=◌, >>=-eq-ok, deref, assert}
use shadow_os.Sched.{Pcb, get_current}
use shadow_os.Vfs.{Fs, Ops, Vnode}
use shadow_os.Vfs
use shadow_os.Vfs.Access.{Class, IsIn, HasRight, am_i_allowed, am_i_allowed_iff}
use shadow_os.Syscall.{
  Kernel, with_current, or_esrch, node_of, checked, checked_node, or_enotimpl, sys_write, sys_read,
}

-- The current process has the descriptor open, some class that it is in has the right in the mode of
-- the node, and the call of the file system is one on that node.
pub record Permitted (action : ℕ) (fd : ℤ) (call : ℕ → Fs → Outcome (Fs × ℤ)) (m : ℕ)
    (k k' : Kernel) : Type 0 where
  pub process : Pcb
  pub node : ℕ
  pub vnode : Vnode
  pub through : Class
  pub current : get_current k.sched ≡ ok (some process)
  pub open_at : node_of process fd ≡ ok (some node)
  pub there : k.fs.nodes node ≡ some vnode
  pub in_class : IsIn through vnode process.whoami.uid process.whoami.gid
  pub granted : HasRight through vnode.mode action
  pub done : call node k.fs ≡ ok (k'.fs, pos m)

module _ (action : ℕ) (fd : ℤ) (buff size : ℕ) (call : ℕ → Fs → Outcome (Fs × ℤ)) (k k' : Kernel)
    (m : ℕ) where
  -- A system call that returns a count has the count of the file system, and its state.
  same_count :
      (fs : Fs) (ret : ℤ)
      → Path (Outcome (Kernel × ℤ)) (ok (record k { fs = fs }, or_enotimpl ret)) (ok (k', pos m))
      → Path (Outcome (Fs × ℤ)) (ok (fs, ret)) (ok (k'.fs, pos m))
  unfolding or_enotimpl
  same_count fs (pos n) h = cc
  same_count fs (negsuc zero) h = cc
  same_count fs (negsuc (suc n)) h = cc

  called :
      (p : Pcb) (n : ℕ) (v : Vnode)
      → k.fs.nodes n ≡ some v
      → am_i_allowed (some v) p.whoami.uid p.whoami.gid action ≡ true
      → checked_node action buff size call p k (some n) ≡ ok (k', pos m)
      → call n k.fs ≡ ok (k'.fs, pos m)
  unfolding checked_node
  called p n v there may h =
      let (v', here, h1) = >>=-eq-ok (deref (k.fs.nodes n)) _ h in
      let same : v' ≡ v = ground (arith, there, here) in
      let allowed : am_i_allowed (some v') p.whoami.uid p.whoami.gid action ≡ true = rw same may in
      let (t, e, h2) = >>=-eq-ok (assert (buff != 0)) _ (rw allowed at h1) in
      let (t', e', h3) = >>=-eq-ok (assert (size != 0)) _ h2 in
      let ((fs, ret), e3, h4) = >>=-eq-ok (call n k.fs) _ h3 in e3 ∙ same_count fs ret h4

  checked_node-Permitted :
      (p : Pcb) (node : Option ℕ)
      → get_current k.sched ≡ ok (some p)
      → node_of p fd ≡ ok node
      → checked_node action buff size call p k node ≡ ok (k', pos m)
      → Permitted action fd call m k k'
  unfolding checked_node
  checked_node-Permitted p none cur e h = cc
  checked_node-Permitted p (some n) cur e h = go (k.fs.nodes n) refl
    where
      go : (o : Option Vnode) → k.fs.nodes n ≡ o → Permitted action fd call m k k'
      go none f = absurd (ground (arith, h, f))
      go (some v) f = elim (Bool-cases (am_i_allowed (some v) p.whoami.uid p.whoami.gid action)) [
        | inl yes_ ↦
            let (c, within, may) = (am_i_allowed_iff v p.whoami.uid p.whoami.gid action).0 yes_ in
            record {
              process = p;
              node = n;
              vnode = v;
              through = c;
              current = cur;
              open_at = e;
              there = f;
              in_class = within;
              granted = may;
              done = called p n v f yes_ h;
            }
        | inr no_ ↦ absurd (ground (arith, h, f, no_))
      ]

  checked-Permitted :
      checked action fd buff size call k ≡ ok (k', pos m) → Permitted action fd call m k k'
  unfolding checked with_current or_esrch
  checked-Permitted h = let (proc, cur, h') = >>=-eq-ok (get_current k.sched) _ h in go proc cur h'
    where
      go :
          (proc : Option Pcb)
          → get_current k.sched ≡ ok proc
          → or_esrch
              (λ p k. node_of p fd >>= λ node. checked_node action buff size call p k node)
              k
              proc
            ≡ ok (k', pos m)
          → Permitted action fd call m k k'
      go none cur h' = cc
      go (some p) cur h' =
          let (node, e, h'') = >>=-eq-ok (node_of p fd) _ h' in
          checked_node-Permitted p node cur e h''

module _ (ops_at : ℕ → Ops) (now fuel : ℕ) (freed_pid : Pcb → ℕ) (fd : ℤ) (buff size m : ℕ)
    (k k' : Kernel) where
  -- A write that succeeds is the write of that many bytes by the file system to the node that the
  -- process has open as the descriptor, and some class that the process is in has the right to write
  -- in the mode of that node.
  pub sys_write-Permitted :
      sys_write ops_at now fuel freed_pid fd buff size k ≡ ok (k', pos m)
      → Permitted 2 fd (λ n. Vfs.write ops_at now n buff size 0) m k k'
  unfolding sys_write
  sys_write-Permitted =
      checked-Permitted 2 fd buff size (λ n. Vfs.write ops_at now n buff size 0) k k' m

  -- A read that succeeds is the read of that many bytes by the file system of the node that the
  -- process has open as the descriptor, and some class that the process is in has the right to read
  -- in the mode of that node.
  pub sys_read-Permitted :
      sys_read ops_at now fuel freed_pid fd buff size k ≡ ok (k', pos m)
      → Permitted 1 fd (λ n. Vfs.read ops_at now n buff size 0) m k k'
  unfolding sys_read
  sys_read-Permitted =
      checked-Permitted 1 fd buff size (λ n. Vfs.read ops_at now n buff size 0) k k' m
