-- ===== src/Vfs/Mounts/Undo.antt =====
-- vfs_umount takes a vfs_mount back.
use shadow_os.Base.{
  ℕ, zero, suc, ◌<◌, ◌≡◌, ◌≢◌, refl, sym, ap, true, false, Option, none, some, List, [], ◌∷◌,
  length, arith,
}
use shadow_os.Base.Outcome.{ok}
use shadow_os.Memory.Chars.{Chars}
use shadow_os.Vfs.{Vnode, is_dir}
use shadow_os.Vfs.Paths.{lazy_lookup}
use shadow_os.Vfs.Mounts.{
  Mount, Mounts, put_mount, is_used, roots_from, last_mount, append_mount, is_dir_at, vfs_mount,
  modify_some, vfs_umount,
}

-- The list of mounts from `c` on is at these addresses.
unfoldable pub MountList : (ℕ → Option Mount) → ℕ → List ℕ → Type 0
MountList h c [] = c ≡ 0
MountList h c (a ∷ bs) = (c ≡ a) × (a ≢ 0) × ((m : Mount) × (h a ≡ some m) × MountList h m.next bs)

record Last (fuel : ℕ) (s : Mounts) (c : ℕ) : Type 0 where
  at : ℕ
  mount : Mount
  reached : last_mount fuel s c ≡ ok at
  not_null : at ≢ 0
  there : s.mounts at ≡ some mount
  ends : mount.next ≡ 0

Last-mount :
    (fuel : ℕ) (s : Mounts) (c a : ℕ) (rest : List ℕ)
    → MountList s.mounts c (a ∷ rest)
    → length rest < fuel
    → Last fuel s c
unfolding MountList last_mount
Last-mount zero s c a rest l lt = absurd (omega arith)
Last-mount (suc k) s c a [] (e, ne, (m, found, end)) lt = record {
  at = a;
  mount = m;
  reached = ground (arith, e, found, end);
  not_null = ne;
  there = found;
  ends = end;
}
Last-mount (suc k) s c a (b ∷ rest) (e, ne, (m, found, l)) lt =
    let later = Last-mount k s m.next b rest l (omega arith) in
    record {
      at = later.at;
      mount = later.mount;
      reached = ground (arith, e, found, l.0, l.1, later.reached);
      not_null = later.not_null;
      there = later.there;
      ends = later.ends;
    }

-- a mount `a` behind the last one
abbrev added : ℕ → Mount → ℕ → Chars → Chars → Mounts → Mounts
added l m a path kind s =
    put_mount l (some (record m { next = a })) (
      put_mount a (some (record { root = 0; next = 0; prev = l; mountpoint = path; kind = kind }))
        s)

-- the state in which it is gone again
abbrev gone : ℕ → Mount → ℕ → Chars → Chars → Mounts → Mounts
gone l m a path kind s =
    put_mount a none (put_mount l (some (record m { next = 0 })) (added l m a path kind s))

gone_same :
    (l : ℕ) (m : Mount) (a : ℕ) (path kind : Chars) (s : Mounts) (i : ℕ)
    → s.mounts l ≡ some m
    → m.next ≡ 0
    → s.mounts a ≡ none
    → (gone l m a path kind s).mounts i ≡ s.mounts i
gone_same l m a path kind s i there ends fresh =
    let same : record m { next = 0 } ≡ m = ap (λ k. record m { next = k }) (sym ends) in
    ground (arith, there, fresh, same)

vfs_umount-added :
    (l : ℕ) (m : Mount) (a : ℕ) (path kind : Chars) (s : Mounts)
    → l ≢ 0
    → a ≢ 0
    → s.mounts l ≡ some m
    → s.mounts a ≡ none
    → vfs_umount a (added l m a path kind s) ≡ ok (gone l m a path kind s)
unfolding vfs_umount modify_some
vfs_umount-added l m a path kind s not_null new there fresh =
    ground (arith, not_null, new, there, fresh)

-- Where a path is that of a directory and no mount point, and there is memory for a mount, vfs_mount
-- gives a mount, and vfs_umount of it leaves every mount and all nodes as they were before.
pub vfs_umount-vfs_mount :
    (fuel a n c : ℕ) (rest roots : List ℕ) (path kind : Chars) (s : Mounts) (v : Vnode) (i : ℕ)
    → MountList s.mounts s.root_mount (c ∷ rest)
    → length rest < fuel
    → is_used fuel s s.root_mount path ≡ ok false
    → roots_from fuel s s.root_mount ≡ ok roots
    → lazy_lookup fuel roots path s.fs ≡ ok (some n)
    → s.fs.nodes n ≡ some v
    → is_dir v.kind ≡ true
    → a ≢ 0
    → s.mounts a ≡ none
    → (t : Mounts) × (u : Mounts) × (vfs_mount fuel (some a) true path kind s ≡ ok (t, a))
      × (vfs_umount a t ≡ ok u)
      × (u.mounts i ≡ s.mounts i)
      × (u.root_mount ≡ s.root_mount)
      × (u.fs ≡ s.fs)
unfolding vfs_mount append_mount is_dir_at
vfs_umount-vfs_mount fuel a n c rest roots path kind s v i list enough unused listed found node dir
      new fresh =
    let l = Last-mount fuel s s.root_mount c rest list enough in
    (
      added l.at l.mount a path kind s,
      gone l.at l.mount a path kind s,
      rw (unused, listed, found, node, dir, l.reached, l.there) refl,
      vfs_umount-added l.at l.mount a path kind s l.not_null new l.there fresh,
      gone_same l.at l.mount a path kind s i l.there l.ends fresh,
      refl,
      refl,
    )
