-- ===== src/Sched/Files/Table.antt =====
-- The descriptor table as the list of the open nodes: a new file goes to the end, and closing one
-- takes it out of the list, so that the files behind it move down by one descriptor.
use shadow_os.Base.{
  get_elem?-bound, ℕ, ◌+◌, ◌-◌, ◌≤◌, ◌<◌, ◌≡◌, ap, sym, true, false, Option, none, some, List, [],
  ◌∷◌, ◌++◌, if◌then◌else◌, get_elem?, set, length, ltb, leb, pos, negsuc, is_none, arith,
  length-append, get_elem?-eq-get_or, Bool-cases, inl, inr, ltb→lt, lt→ltb, lt→ltb,
}
use mathlib.Core.Path.{ap₂}
use shadow_os.Base.Outcome.{ok}
use shadow_os.Sched.{Sched, Pcb, slot, set_slot, max_fds, dec64}
use shadow_os.Sched.Files.{
  find, read_fd, write_fd, add_to, add_vnode, close_fd, remove_from, remove_vnode,
}
use shadow_os.Sched.Files.Padded.{
  padded, remove_nth, length-padded, set-padded, get_elem?-padded, shifted, shift_down-shifted,
  length-shifted, close_nth, length-remove_nth, get_elem?-none,
}

-- The open files of a process are `fds`, by descriptor.
pub record Opens (p : Pcb) (fds : List ℕ) : Type 0 where
  pub table : p.fd_table ≡ padded max_fds fds
  pub counted : p.fd_count ≡ length fds
  pub fits : length fds ≤ max_fds

-- a process with these files open
unfoldable pub with_files : Pcb → List ℕ → Pcb
with_files p fds = record p { fd_table = padded max_fds fds; fd_count = length fds }

-- What a process table entry that `find` yields says of the table.
find-slot :
    (s : Sched) (pid : ℕ) {p : Pcb}
    → find s pid ≡ ok (some p)
    → get_elem? s.procs pid ≡ some (some p)
unfolding find slot
find-slot s pid e = ground arith

set_slot-ok :
    (s : Sched) (pid : ℕ) (p q : Pcb)
    → find s pid ≡ ok (some p)
    → set_slot s pid (some q) ≡ ok (record s { procs = set s.procs pid (some q) })
unfolding set_slot
set_slot-ok s pid p q e = rw (lt→ltb _ _ (get_elem?-bound s.procs pid (find-slot s pid e)))

module _ (s : Sched) (pid : ℕ) (p : Pcb) (fds : List ℕ) (found : find s pid ≡ ok (some p))
    (opens : Opens p fds) where
  -- the table of processes with other files open in this one
  abbrev pub with_open : List ℕ → Sched
  with_open fds' = record s { procs = set s.procs pid (some (with_files p fds')) }

  write_new :
      (node : ℕ)
      → length fds < max_fds
      → write_fd p.fd_table p.fd_count (some node) ≡ ok (padded max_fds (fds ++ node ∷ []))
  unfolding write_fd
  write_new node h =
      rw (opens.table, opens.counted, length-padded max_fds fds, lt→ltb (length fds) max_fds h)
        (ap ok (set-padded max_fds fds node h))

  read_open : (fd : ℕ) → fd < max_fds → read_fd p.fd_table fd ≡ ok (get_elem? fds fd)
  unfolding read_fd padded
  read_open fd h = rw (opens.table, get_elem?-padded max_fds fds fd h)

  is_none_open : (fd : ℕ) → fd < length fds → is_none (get_elem? fds fd) ≡ false
  is_none_open fd h = rw (get_elem?-eq-get_or fds fd 0 h)

  close_open : (fd : ℕ) → fd < length fds → close_fd fd p ≡ ok (with_files p (remove_nth fd fds))
  unfolding close_fd with_files
  close_open fd h =
      rw
        (
          last,
          opens.table,
          shift_down-shifted rounds fd full (omega (arith, length-padded max_fds fds)),
          write_none,
        )
        (ap (λ n. ok (record p { fd_table = padded max_fds (remove_nth fd fds); fd_count = n }))
          (sym (length-remove_nth fd fds h)))
    where
      full : List (Option ℕ)
      full = padded max_fds fds

      rounds : ℕ
      rounds = length fds - 1 - fd

      last : dec64 p.fd_count ≡ length fds - 1
      last = omega (arith, opens.counted, opens.fits)

      write_none :
          write_fd (shifted rounds fd full) (length fds - 1) none
          ≡ ok (padded max_fds (remove_nth fd fds))
      write_none =
          rw
            (
              write_fd,
              length-shifted rounds fd full,
              length-padded max_fds fds,
              lt→ltb (length fds - 1) max_fds (omega (arith, opens.fits)),
            )
            (ap ok (close_nth max_fds fd fds h opens.fits))

  -- A process with fewer than 1024 open files gets the new one under the next descriptor, which is
  -- the result; any other gets -1 and is left alone.
  pub add_vnode_lem :
      (node : ℕ)
      → add_vnode pid (some node) s ≡ (
          if ltb (length fds) max_fds
          then ok (with_open (fds ++ node ∷ []), pos (length fds))
          else ok (s, negsuc 0))
  unfolding add_vnode add_to with_files
  add_vnode_lem node = elim (Bool-cases (ltb (length fds) max_fds)) [
    | inl room ↦
        let test : leb max_fds p.fd_count ≡ false = ground (arith, opens.counted) in
        rw
          (
            room,
            found,
            test,
            write_new node (ltb→lt _ _ room),
            set_slot-ok s pid p
                (record p {
                  fd_table = padded max_fds (fds ++ node ∷ []);
                  fd_count = p.fd_count + 1;
                })
                found,
          )
          (ap₂
            (λ n m. ok (
              record s {
                procs = set s.procs pid (
                    some (record p { fd_table = padded max_fds (fds ++ node ∷ []); fd_count = n }));
              },
              pos m,
            ))
            (omega (arith, opens.counted, length-append fds (node ∷ []))) opens.counted)
    | inr full ↦
        let test : leb max_fds p.fd_count ≡ true = ground (arith, opens.counted) in
        rw (full, found, test)
  ]

  pub remove_vnode_lem :
      (fd : ℕ)
      → remove_vnode pid (pos fd) s ≡ (
          if ltb fd (length fds)
          then ok (with_open (remove_nth fd fds), pos 0)
          else ok (s, negsuc 0))
  unfolding remove_vnode remove_from with_files
  remove_vnode_lem fd = elim (Bool-cases (ltb fd (length fds))) [
    | inl open_fd ↦
        let lt : fd < length fds = ltb→lt _ _ open_fd in
        let test : leb max_fds fd ≡ false = ground (arith, opens.fits) in
        rw (
          open_fd,
          found,
          test,
          read_open fd (omega (arith, opens.fits)),
          is_none_open fd lt,
          close_open fd lt,
          set_slot-ok s pid p (with_files p (remove_nth fd fds)) found,
        )
    | inr closed ↦ elim (Bool-cases (leb max_fds fd)) [
      | inl out ↦ rw (closed, found, out)
      | inr within ↦
          rw (
            closed,
            found,
            within,
            read_open fd (ground arith),
            get_elem?-none fds fd (ground arith),
          )
    ]
  ]
