-- ===== src/Syscall/Descriptors.antt =====
-- The descriptors that sys_open gives out and sys_close takes back.
use shadow_os.Base.{
  ℕ, ◌<◌, ◌≡◌, refl, ap, ◌∙◌, true, Option, none, some, List, [], ◌∷◌, ◌++◌, pos, get_elem?, set,
  length, arith, length-append, ltb, lt→ltb, get_elem?-set_self, get_elem?-bound,
}
use mathlib.Core.Path.{subst}
use shadow_os.Base.Outcome.{ok, >>=-eq-ok}
use shadow_os.Memory.Chars.{Chars}
use shadow_os.Sched.{Pcb, slot, max_fds}
use shadow_os.Sched.Valid.{get_current_lem}
use shadow_os.Sched.Files.{find, add_vnode}
use shadow_os.Sched.Files.Padded.{remove_nth}
use shadow_os.Sched.Files.Table.{Opens, with_files, with_open, add_vnode_lem, remove_vnode_lem}
use shadow_os.Vfs.{Fs, Ops, NodeType, modify}
use shadow_os.Syscall.{
  Kernel, with_current, or_esrch, open_node, finish_open, sys_open, sys_close, close_status,
}

-- the current process, its entry, and the files that it has open
pub record Runs (k : Kernel) (p : Pcb) (fds : List ℕ) : Type 0 where
  pub entry : get_elem? k.sched.procs k.sched.current_pid ≡ some (some p)
  pub own_pid : p.pid ≡ k.sched.current_pid
  pub counted : k.sched.current_pid < k.sched.count
  pub opens : Opens p fds

remove_nth-append : (xs : List ℕ) (x : ℕ) → remove_nth (length xs) (xs ++ x ∷ []) ≡ xs
remove_nth-append [] x = refl
remove_nth-append (y ∷ xs) x = ap (λ t. y ∷ t) (remove_nth-append xs x)

find_current :
    (k : Kernel) (p : Pcb) (fds : List ℕ) → Runs k p fds → find k.sched p.pid ≡ ok (some p)
unfolding find slot
find_current k p fds r = ground (arith, r.entry, r.own_pid, r.counted)

-- The list of open files says all of the table.
with_files_twice :
    (p : Pcb) (fds fds' : List ℕ) → Opens p fds → with_files (with_files p fds') fds ≡ p
unfolding with_files
with_files_twice p fds fds' o = ground (arith, o.table, o.counted)

-- The state after sys_open, which gives the next descriptor.
record Opened (k : Kernel) (p : Pcb) (fds : List ℕ) (k' : Kernel) (fd : ℕ) : Type 0 where
  node : ℕ
  table : k'.sched ≡ record k.sched {
    procs = set k.sched.procs k.sched.current_pid (some (with_files p (fds ++ node ∷ [])));
  }
  next : fd ≡ length fds

module _ (ops_at : ℕ → Ops) (now fuel : ℕ) (freed_pid : Pcb → ℕ) (k : Kernel) (p : Pcb)
    (fds : List ℕ) (r : Runs k p fds) (room : length fds < max_fds) where
  finish_open-Opened :
      (fs : Fs) (node : Option ℕ) (k' : Kernel) (fd : ℕ)
      → finish_open ops_at now fuel freed_pid p k fs node ≡ ok (k', pos fd)
      → Opened k p fds k' fd
  unfolding finish_open
  finish_open-Opened fs none k' fd h = cc
  finish_open-Opened fs (some n) k' fd h =
      let (fs', e, h') = >>=-eq-ok (modify n (λ v. record v { access_time = now }) fs) _ h in
      let h'' = rw (added n) at h' in
      record { node = n; table = ground (arith, h'', r.own_pid); next = ground (arith, h'') }
    where
      added :
          (n : ℕ)
          → add_vnode p.pid (some n) k.sched
            ≡ ok (
              with_open k.sched p.pid p fds (find_current k p fds r) r.opens (fds ++ n ∷ []),
              pos (length fds),
            )
      added n =
          add_vnode_lem k.sched p.pid p fds (find_current k p fds r) r.opens n
          ∙ rw (lt→ltb (length fds) max_fds room) refl

  -- After a sys_open that gave a descriptor, which is the next one, the current process has it open.
  opened-Runs :
      (k' : Kernel) (fd : ℕ) (o : Opened k p fds k' fd)
      → Runs k' (with_files p (fds ++ o.node ∷ [])) (fds ++ o.node ∷ [])
  unfolding with_files
  opened-Runs k' fd o = record {
    entry = rw o.table (
        get_elem?-set_self k.sched.procs k.sched.current_pid
          (some (with_files p (fds ++ o.node ∷ [])))
          (get_elem?-bound k.sched.procs k.sched.current_pid r.entry));
    own_pid = rw o.table r.own_pid;
    counted = rw o.table r.counted;
    opens = record {
      table = refl;
      counted = refl;
      fits = omega (arith, length-append fds (o.node ∷ []));
    };
  }

  sys_open-Opened :
      (path : Chars) (flags : ℕ) (kind : NodeType) (k' : Kernel) (fd : ℕ)
      → sys_open ops_at now fuel freed_pid path flags kind k ≡ ok (k', pos fd)
      → Opened k p fds k' fd
  unfolding sys_open with_current or_esrch
  sys_open-Opened path flags kind k' fd h =
      let h' = rw (get_current_lem k.sched p r.entry) at h in
      let (out, e, h'') = >>=-eq-ok (open_node ops_at now fuel freed_pid path flags kind k) _ h' in
      finish_open-Opened out.0 out.1 k' fd h''

  -- Where the current process has room for one more descriptor, a sys_open that gives one gives the
  -- next, and sys_close of it leaves the process as it was.
  pub sys_close-sys_open :
      (path : Chars) (flags : ℕ) (kind : NodeType) (k' : Kernel) (fd : ℕ)
      → sys_open ops_at now fuel freed_pid path flags kind k ≡ ok (k', pos fd)
      → (k'' : Kernel) × (fd ≡ length fds)
        × (sys_close (pos fd) k' ≡ ok (k'', pos 0))
        × (get_elem? k''.sched.procs k.sched.current_pid ≡ some (some p))
  unfolding sys_close with_current or_esrch close_status
  sys_close-sys_open path flags kind k' fd h =
      let o = sys_open-Opened path flags kind k' fd h in
      let r' = opened-Runs k' fd o in
      let p' = with_files p (fds ++ o.node ∷ []) in
      let more = fds ++ o.node ∷ [] in
      let found = find_current k' p' more r' in
      let inside : ltb fd (length more) ≡ true =
        lt→ltb fd (length more) (omega (arith, o.next, length-append fds (o.node ∷ []))) in
      let removed = rw inside at (remove_vnode_lem k'.sched p'.pid p' more found r'.opens fd) in
      let back : with_files p' (remove_nth fd more) ≡ p =
        rw (o.next, remove_nth-append fds o.node) (with_files_twice p fds more r.opens) in
      let same : p'.pid ≡ k.sched.current_pid = r'.own_pid ∙ ap (λ s. s.current_pid) o.table in
      let at_pid =
        get_elem?-set_self k'.sched.procs p'.pid (some p)
          (rw r'.own_pid (get_elem?-bound k'.sched.procs k'.sched.current_pid r'.entry)) in
      (
        record k' { sched = with_open k'.sched p'.pid p' more found r'.opens (remove_nth fd more) },
        o.next,
        rw (get_current_lem k'.sched p' r'.entry, removed) refl,
        rw back (
            subst (λ j. get_elem? (set k'.sched.procs p'.pid (some p)) j ≡ some (some p)) same
              at_pid),
      )
