-- ===== src/Vfs/Locks.antt =====
-- Every call of kernel/src/dev/vfs.c that takes the lock of a node gives it back.
use shadow_os.Base.{
  ℕ, ◌≡◌, refl, false, Option, none, some, if◌then◌else◌, ℤ, negsuc, arith, Option-cases, inl, inr,
}
use mathlib.Core.Option
use shadow_os.Base.Outcome.{Outcome, ok, ◌>>=◌}
use shadow_os.Base.Returning.{Returning, Returning-bind, Returning-if, anything}
use shadow_os.Vfs.{
  Vnode, Fs, Ops, is_dir, modify, lock, unlock, unlock_with, entry_of, run_read, read, run_write,
  write,
}

-- The lock of the node is free.
pub record IsFree (n : ℕ) (s : Fs) : Type 0 where
  pub node : Vnode
  pub there : s.nodes n ≡ some node
  pub free : node.locked ≡ false

module _ {ℓ} {A : Type ℓ} where
  unlock_with-IsFree : (n : ℕ) (a : A) (s : Fs) → Returning (λ p. IsFree n p.0) (unlock_with n a s)
  unfolding unlock_with unlock modify
  unlock_with-IsFree n a s = elim (Option-cases (s.nodes n)) [
    | inl e ↦ rw e tt
    | inr (v, e) ↦
        rw e (record { node = record v { locked = false }; there = ground arith; free = refl })
  ]

-- A second write to the node that leaves its lock alone.
modify-IsFree :
    (n : ℕ) (f : Vnode → Vnode) (s : Fs)
    → ((v : Vnode) → (f v).locked ≡ v.locked)
    → IsFree n s
    → Returning (IsFree n) (modify n f s)
unfolding modify
modify-IsFree n f s same h =
    rw (h.there)
      (record { node = f h.node; there = ground arith; free = ground (arith, same h.node, h.free) })

module _ (ops_at : ℕ → Ops) (now : ℕ) where
  run_read-IsFree :
      (n : ℕ) (o : Option (Fs → Outcome (Fs × ℤ))) (s : Fs)
      → Returning (λ p. IsFree n p.0) (run_read ops_at now n o s)
  unfolding run_read
  run_read-IsFree n none s = unlock_with-IsFree n (negsuc 0) s
  run_read-IsFree n (some f) s =
      Returning-bind (λ p. Unit) (λ p. IsFree n p.0) (f s) (λ p. unlock_with n p.1 p.0)
        (anything (f s)) (λ p h. unlock_with-IsFree n p.1 p.0)

  -- A read that returns, with any result and whatever the file system does, leaves the lock of the
  -- node free.
  pub read-IsFree :
      (n buf size offset : ℕ) (s : Fs)
      → Returning (λ p. IsFree n p.0) (read ops_at now n buf size offset s)
  unfolding read
  read-IsFree n buf size offset s =
      Returning-bind (λ p. Unit) (λ p. IsFree n p.0) (lock n s)
        (λ p.
          if is_dir p.1.kind
          then unlock_with n (negsuc 0) p.0
          else run_read ops_at now n
              (Option.map (λ f. f n buf size offset) (entry_of ops_at now (λ o. o.read) p.1)) p.0)
        (anything (lock n s))
        (λ p h.
          Returning-if (λ p. IsFree n p.0) (is_dir p.1.kind) _ _
            (unlock_with-IsFree n (negsuc 0) p.0)
            (run_read-IsFree n
              (Option.map (λ f. f n buf size offset) (entry_of ops_at now (λ o. o.read) p.1)) p.0))

  run_write-IsFree :
      (n : ℕ) (o : Option (Fs → Outcome (Fs × ℤ))) (s : Fs)
      → Returning (λ p. IsFree n p.0) (run_write ops_at now n o s)
  unfolding run_write
  run_write-IsFree n none s = unlock_with-IsFree n (negsuc 0) s
  run_write-IsFree n (some f) s =
      Returning-bind (λ p. Unit) (λ p. IsFree n p.0) (f s)
        (λ p. unlock_with n p.1 p.0 >>= λ q.
          modify n (λ v. record v { modify_time = now }) q.0 >>= λ w. ok (w, q.1))
        (anything (f s))
        (λ p h.
          Returning-bind (λ q. IsFree n q.0) (λ q. IsFree n q.0) (unlock_with n p.1 p.0)
            (λ q. modify n (λ v. record v { modify_time = now }) q.0 >>= λ w. ok (w, q.1))
            (unlock_with-IsFree n p.1 p.0)
            (λ q free.
              Returning-bind (IsFree n) (λ q. IsFree n q.0)
                (modify n (λ v. record v { modify_time = now }) q.0) (λ w. ok (w, q.1))
                (modify-IsFree n (λ v. record v { modify_time = now }) q.0 (λ v. refl) free)
                (λ w free'. free')))

  -- A write that returns, with any result and whatever the file system does, leaves the lock of
  -- the node free, although it changes the node once more after it has given the lock back.
  pub write-IsFree :
      (n buf size offset : ℕ) (s : Fs)
      → Returning (λ p. IsFree n p.0) (write ops_at now n buf size offset s)
  unfolding write
  write-IsFree n buf size offset s =
      Returning-bind (λ p. Unit) (λ p. IsFree n p.0) (lock n s)
        (λ p.
          if is_dir p.1.kind
          then unlock_with n (negsuc 0) p.0
          else run_write ops_at now n
              (Option.map (λ f. f n buf size offset) (entry_of ops_at now (λ o. o.write) p.1)) p.0)
        (anything (lock n s))
        (λ p h.
          Returning-if (λ p. IsFree n p.0) (is_dir p.1.kind) _ _
            (unlock_with-IsFree n (negsuc 0) p.0)
            (run_write-IsFree n
              (Option.map (λ f. f n buf size offset) (entry_of ops_at now (λ o. o.write) p.1)) p.0))
