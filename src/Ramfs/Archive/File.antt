-- ===== src/Ramfs/Archive/File.antt =====
-- A file in the root of an archive is found afterwards, with its contents.
use shadow_os.Base.{
  Bool, ℕ, ◌+◌, ◌≤◌, ◌<◌, ◌≡◌, ◌≢◌, refl, ap, true, false, Option, none, some, List, ◌∷◌, ◌++◌,
  take, drop, length, get_elem?, arith,
}
use shadow_os.Base.Outcome.{ok}
use shadow_os.Memory.Chars.{Chars}
use shadow_os.Memory.Chars.Length.{cstr}
use shadow_os.Vfs.{Vnode, NodeType, Ops, is_dir}
use shadow_os.Vfs.Paths.{lookup}
use shadow_os.Vfs.Paths.Children.{Child, Chain, first_named, lookup-first_named}
use shadow_os.Ramfs.Create.{Allocated, put_node, new_node}
use shadow_os.Ramfs.Create
use shadow_os.Ramfs.Create.Children.{Gives}
use shadow_os.Ramfs.Create.Made.{stamped, create_vnode-Chain, lookup-changed_last}
use shadow_os.Ramfs.Archive.{
  Loader, octal, header_size, size_at, mode_at, mtime_at, typeflag_at, slash, load_sized,
  load_entry,
}
use shadow_os.Ramfs.Archive.Entry.{
  IsFileName, All-IsText, filled_node, file_node, behind_name, fill_file-eq, add_file-eq,
  load_sized-eq,
}

load_entry-sized :
    (ops_at : ℕ → Ops) (now ramfs_at : ℕ) (new_data : Loader → Option ℕ)
    (kmalloc : ℕ → Option Chars) (fuel root h size : ℕ) (s u : Loader) (b : Bool)
    → octal (drop (h + size_at) s.archive) ≡ ok size
    → load_sized ops_at now ramfs_at new_data kmalloc fuel root h size s ≡ ok (u, b)
    → load_entry ops_at now ramfs_at new_data kmalloc fuel root h s ≡ ok (u, (size, b))
unfolding load_entry
load_entry-sized ops_at now ramfs_at new_data kmalloc fuel root h size s u b size_is e =
    rw (size_is, e) refl

-- An entry that is a file, whose name has neither a slash nor a dot in front and is not that of a
-- child of the root, an unlocked directory of ramfs, with contents inside of the archive and memory
-- for the node, the copy of its name and the contents. Then the loader goes on, vfs_lookup finds the node by the name, and the node is a file of ramfs with
-- the size, the mode and the time that the header says, and with the bytes that stand behind the
-- header.
pub load_entry-file :
    (ops_at : ℕ → Ops) (now ramfs_at fuel h size root flag a m d mode time c : ℕ)
    (copy : ℕ → Option Chars) (new_data : Loader → Option ℕ) (kmalloc : ℕ → Option Chars)
    (fresh : Chars) (s : Loader) (v : Vnode) (xs : List Child) (tl behind r q : Chars)
    → get_elem? s.archive (h + typeflag_at) ≡ some flag
    → flag ≢ b'5'
    → drop h s.archive ≡ cstr (c ∷ tl) behind
    → IsFileName c tl
    → octal (drop (h + size_at) s.archive) ≡ ok size
    → octal (drop (h + mode_at) s.archive) ≡ ok mode
    → octal (drop (h + mtime_at) s.archive) ≡ ok time
    → h + header_size + size ≤ length s.archive
    → s.fs.nodes root ≡ some v
    → v.locked ≡ false
    → is_dir v.kind ≡ true
    → v.ops ≢ 0
    → (ops_at v.ops).create
      ≡ some (Create.create fuel ramfs_at (record { node = some a; data_at = some m; copy = copy }))
    → Chain s.fs v.child xs
    → Gives copy (c ∷ tl) r
    → first_named (c ∷ tl) xs ≡ none
    → s.fs.nodes a ≡ none
    → a ≢ 0
    → 1 + length xs < fuel
    → ((t : Loader) → new_data t ≡ some d)
    → kmalloc size ≡ some fresh
    → size ≤ length fresh
    → (u : Loader) × (w : Vnode) × (load_entry ops_at now ramfs_at new_data kmalloc fuel root h s
        ≡ ok (u, (size, true)))
      × (lookup fuel root (cstr (c ∷ tl) q) u.fs ≡ ok (some a))
      × (u.fs.nodes a ≡ some (file_node ramfs_at d size mode time w))
      × (w.kind ≡ NodeType.file)
      × (u.files d
          ≡ some (record {
            bytes = take size (drop (h + header_size) s.archive) ++ drop size fresh;
            size = size;
          }))
unfolding new_node
load_entry-file ops_at now ramfs_at fuel h size root flag a m d mode time c copy new_data kmalloc
      fresh s v xs tl behind r q type not_dir here name size_is mode_is time_is inside there free
      dir nonzero entry chain gives new unused a_nz lt data_is memory room =
    let t = c ∷ tl in
    let text = All-IsText slash t name.plain in
    let (u, v', made, there', node, longer) =
      create_vnode-Chain ops_at now fuel ramfs_at root a m copy NodeType.file s.fs v xs t behind r
        there free dir nonzero entry chain text gives new unused a_nz lt in
    let w = stamped now (new_node root v.mount ramfs_at (cstr t r) NodeType.file m) in
    let w1 = filled_node d size w in
    let w2 = file_node ramfs_at d size mode time w in
    let apart : a ≢ root = ground (arith, there, unused) in
    let filling =
      fill_file-eq ops_at now ramfs_at new_data kmalloc fuel h size a d mode time fresh
        (record (behind_name h c tl s) { fs = u }) w node
        (data_is (record (behind_name h c tl s) { fs = u })) memory room inside mode_is time_is in
    let missing : lookup fuel root (drop h s.archive) s.fs ≡ ok none =
      rw
        (here, lookup-first_named fuel root s.fs v xs t behind there chain text (omega (arith, lt)))
        (ap ok new) in
    (
      _,
      w,
      load_entry-sized ops_at now ramfs_at new_data kmalloc fuel root h size s _ true size_is (
          load_sized-eq ops_at now ramfs_at new_data kmalloc fuel h size root c flag tl behind s _
            type not_dir here name missing
            (add_file-eq ops_at now ramfs_at new_data kmalloc fuel h size root a c tl behind
              (behind_name h c tl s) _ u here name (rw here made) filling)),
      lookup-changed_last fuel root u v' w w1 w2 xs (record { at = a; text = t; behind = r }) q
          there' node apart longer text new lt refl refl refl refl,
      ground arith,
      refl,
      ground arith,
    )
