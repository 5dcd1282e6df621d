-- ===== src/Ramfs/Archive/Entry.antt =====
-- What the loader does with a file in the root of an archive.
use shadow_os.Base.{
  ℕ, suc, ◌+◌, ◌≤◌, ◌≡◌, ◌≢◌, refl, true, false, Option, none, some, [], ◌∷◌, ◌++◌, ◌==◌, leb, take,
  drop, length, get_elem?, arith, if◌then◌else◌,
}
use native.Mathlib.Nat.{zero-add}
use shadow_os.Base.Outcome.{ok}
use shadow_os.Memory.Chars.{Chars, strlen, strcmp, strncmp}
use shadow_os.Memory.Chars.Length.{IsText, cstr, strlen-cstr}
use shadow_os.Memory.Chars.Spans.{All}
use shadow_os.Memory.Tokens.Whole.{strtok-whole}
use shadow_os.Vfs.{Vnode, NodeType, Fs, Ops, modify, create_vnode}
use shadow_os.Vfs.Paths.{lookup}
use shadow_os.Ramfs.{transfer}
use shadow_os.Ramfs.Create.{put_node}
use shadow_os.Ramfs.Archive.{
  Loader, octal, header_size, mode_at, mtime_at, typeflag_at, slash, mark, descend, fill_file,
  add_file, name_of, is_skipped, load_sized,
}

-- a name that is not empty, is not that of a directory on the way, and does not begin with a dot
pub record IsFileName (c : ℕ) (tl : Chars) : Type 0 where
  pub plain : All false slash (c ∷ tl)
  pub no_dot : c ≢ b'.'

pub All-IsText : (delim t : Chars) → All false delim t → IsText t
All-IsText delim [] all = tt
All-IsText delim (c ∷ t) (ne, out, all) = (ne, All-IsText delim t all)

abbrev pub filled_node : ℕ → ℕ → Vnode → Vnode
filled_node d size w = record w { data_at = d; size = size }

-- the node of a file, as it is left
abbrev pub file_node : (ramfs_at d size mode time : ℕ) → Vnode → Vnode
file_node ramfs_at d size mode time w = record w {
  data_at = d;
  size = size;
  ops = ramfs_at;
  mode = mode;
  creation_time = time;
}

abbrev pub filled : ℕ → Vnode → Vnode → Fs → Fs
filled n v w s = put_node n (some w) (put_node n (some v) s)

-- what strtok keeps behind a name
abbrev pub behind_name : ℕ → ℕ → Chars → Loader → Loader
behind_name h c tl s = record s { last = some (h + length (c ∷ tl)) }

module _ (ops_at : ℕ → Ops) (now ramfs_at : ℕ) (new_data : Loader → Option ℕ)
    (kmalloc : ℕ → Option Chars) (fuel : ℕ) where
  name_of-eq :
      (h c : ℕ) (tl behind archive : Chars)
      → drop h archive ≡ cstr (c ∷ tl) behind
      → c ≢ b'.'
      → name_of ops_at now ramfs_at new_data kmalloc fuel h archive ≡ ok h
  unfolding name_of strncmp
  name_of-eq h c tl behind archive here no_dot = rw here (ground (arith, no_dot))

  is_skipped-eq :
      (c : ℕ) (tl behind : Chars)
      → IsFileName c tl
      → is_skipped ops_at now ramfs_at new_data kmalloc fuel (cstr (c ∷ tl) behind) ≡ ok false
  unfolding is_skipped strcmp
  is_skipped-eq c tl behind v =
      let size = strlen-cstr (c ∷ tl) behind (All-IsText slash (c ∷ tl) v.plain) in
      rw size (ground (arith, v.no_dot, v.plain))

  -- A name that the directory does not have is the component that the loop stops at.
  descend-missing :
      (k h p root : ℕ) (s : Loader)
      → lookup fuel root (drop p s.archive) s.fs ≡ ok none
      → descend ops_at now ramfs_at new_data kmalloc fuel (suc k) false h (some root) (some p) s
        ≡ ok (s, some (some root, some p))
  unfolding descend
  descend-missing k h p root s missing = rw missing refl

  -- What the contents and the fields of a new file become.
  pub fill_file-eq :
      (h size n d mode time : ℕ) (fresh : Chars) (s : Loader) (w : Vnode)
      → s.fs.nodes n ≡ some w
      → new_data s ≡ some d
      → kmalloc size ≡ some fresh
      → size ≤ length fresh
      → h + header_size + size ≤ length s.archive
      → octal (drop (h + mode_at) s.archive) ≡ ok mode
      → octal (drop (h + mtime_at) s.archive) ≡ ok time
      → fill_file ops_at now ramfs_at new_data kmalloc fuel h size n s
        ≡ ok (
          record s {
            fs = filled n (filled_node d size w) (file_node ramfs_at d size mode time w) s.fs;
            files = λ i.
                if i == d
                then some (record {
                  bytes = take size (drop (h + header_size) s.archive) ++ drop size fresh;
                  size = size;
                })
                else s.files i;
          },
          true,
        )
  unfolding fill_file transfer modify mark
  fill_file-eq h size n d mode time fresh s w there at_d memory room inside m t =
      let fits : leb size (length fresh) ≡ true = ground arith in
      let fits' : leb (h + header_size + size) (length s.archive) ≡ true = ground arith in
      rw (fill_file, at_d, memory, zero-add, fits, fits', there) (rw (m, t) (ground arith))

  pub add_file-eq :
      (h size root a c : ℕ) (tl behind : Chars) (s u : Loader) (t : Fs)
      → drop h s.archive ≡ cstr (c ∷ tl) behind
      → IsFileName c tl
      → create_vnode ops_at now root (drop h s.archive) NodeType.file s.fs ≡ ok (t, some a)
      → fill_file ops_at now ramfs_at new_data kmalloc fuel h size a
          (record (behind_name h c tl s) { fs = t })
        ≡ ok (u, true)
      → add_file ops_at now ramfs_at new_data kmalloc fuel h size (some root) (some h) s
        ≡ ok (u, true)
  unfolding add_file
  add_file-eq h size root a c tl behind s u t here v made full =
      let whole = strtok-whole s.archive slash tl behind h c s.last here v.plain in
      let long : strlen (drop h s.archive) ≡ some (length (c ∷ tl)) =
        rw here (strlen-cstr (c ∷ tl) behind (All-IsText slash (c ∷ tl) v.plain)) in
      let some_name : (length (c ∷ tl) == 0) ≡ false = ground arith in
      rw (whole, long) (rw (made, full) (rw some_name refl))

  pub load_sized-eq :
      (h size root c flag : ℕ) (tl behind : Chars) (s u : Loader)
      → get_elem? s.archive (h + typeflag_at) ≡ some flag
      → flag ≢ b'5'
      → drop h s.archive ≡ cstr (c ∷ tl) behind
      → IsFileName c tl
      → lookup fuel root (drop h s.archive) s.fs ≡ ok none
      → add_file ops_at now ramfs_at new_data kmalloc fuel h size
          (some root)
          (some h)
          (behind_name h c tl s)
        ≡ ok (u, true)
      → load_sized ops_at now ramfs_at new_data kmalloc fuel root h size s ≡ ok (u, true)
  unfolding load_sized
  load_sized-eq h size root c flag tl behind s u type file here v missing added =
      let is_file : (flag == b'5') ≡ false = ground (arith, file) in
      let whole = strtok-whole s.archive slash tl behind h c s.last here v.plain in
      let name = name_of-eq h c tl behind s.archive here v.no_dot in
      let kept : is_skipped ops_at now ramfs_at new_data kmalloc fuel (drop h s.archive)
          ≡ ok false =
        rw here (is_skipped-eq c tl behind v) in
      rw (type, name, kept, whole, is_file)
        (rw
          (
            descend-missing (length s.archive) h h root (behind_name h c tl s) missing,
            is_file,
            added,
          )
          refl)
