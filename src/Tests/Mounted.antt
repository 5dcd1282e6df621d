-- ===== src/Tests/Mounted.antt =====
-- The theorem on mounts where the first mount has a directory d.
use shadow_os.Base.{◌≡◌, refl, true, false, none, some, [], ◌∷◌, ◌==◌, if◌then◌else◌, arith}
use shadow_os.Base.Outcome.{ok}
use shadow_os.Memory.Chars.{Chars, strcmp}
use shadow_os.Vfs.{NodeType}
use shadow_os.Vfs.Paths.{lookup, lazy_lookup, walk, split, skip_slash, find_child}
use shadow_os.Vfs.Mounts.{Mount, Mounts, is_used, roots_from, vfs_mount, vfs_umount}
use shadow_os.Vfs.Mounts.Undo.{MountList, vfs_umount-vfs_mount}
use shadow_os.Tests.Nodes.{plain}

abbrev first_mount : Mount
first_mount = record { root = 8; next = 0; prev = 0; mountpoint = 0 ∷ []; kind = 0 ∷ [] }

abbrev path : Chars
path = b'/' ∷ b'd' ∷ 0 ∷ []

abbrev one_mount : Mounts
one_mount = record {
  mounts = λ i. if i == 40 then some first_mount else none;
  root_mount = 40;
  fs = record {
    nodes = λ n.
        if n == 8
        then some (record plain { kind = NodeType.dir; child = 16 })
        else if n == 16
        then some (record plain { kind = NodeType.dir; name = b'd' ∷ 0 ∷ [] })
        else none;
    mem = λ a. 0;
  };
}

listed : MountList one_mount.mounts 40 (40 ∷ [])
unfolding MountList
listed = (refl, omega arith, (first_mount, refl, refl))

unused : is_used 9 one_mount 40 path ≡ ok false
unfolding is_used strcmp
unused = refl

rooted : roots_from 9 one_mount 40 ≡ ok (8 ∷ [])
unfolding roots_from
rooted = refl

resolved : lazy_lookup 9 (8 ∷ []) path one_mount.fs ≡ ok (some 16)
unfolding lazy_lookup walk split skip_slash lookup find_child strcmp
resolved = refl

vfs_umount-vfs_mount_example :
    (t : Mounts) × (u : Mounts) × (vfs_mount 9 (some 48) true path (b'x' ∷ 0 ∷ []) one_mount
      ≡ ok (t, 48))
    × (vfs_umount 48 t ≡ ok u)
    × (u.mounts 40 ≡ some first_mount)
    × (u.root_mount ≡ 40)
    × (u.fs ≡ one_mount.fs)
vfs_umount-vfs_mount_example =
    vfs_umount-vfs_mount 9 48 16 40 [] (8 ∷ []) path (b'x' ∷ 0 ∷ []) one_mount
      (record plain { kind = NodeType.dir; name = b'd' ∷ 0 ∷ [] }) 40 listed (omega arith) unused
      rooted resolved refl refl (omega arith) refl
