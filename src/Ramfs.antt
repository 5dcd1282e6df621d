-- ===== src/Ramfs.antt =====
-- kernel/src/fs/ramfs.c: reading and writing a file that is held in memory.
pub mod Archive
pub mod Contents
pub mod Create
use shadow_os.Base.{
  int_of_size, ℕ, ◌+◌, ◌-◌, ◌%◌, ◌^◌, Bool, true, false, Option, none, some, List, ◌++◌, ◌&&◌, ltb,
  leb, if◌then◌else◌, length, take, drop, ℤ, pos, negsuc,
}
use shadow_os.Base.Outcome.{Outcome, ok, fault, ◌>>=◌}
use shadow_os.Memory.Chars.{Chars}
use shadow_os.Vfs.{NodeType}

-- `ramfs_data_t`: the object that `data` points to, [] for NULL, and the size of the contents
pub record Data : Type 0 where
  pub bytes : Chars
  pub size : ℕ

-- what the code reads and writes of a node; `content` is its `data`
pub record File : Type 0 where
  pub kind : NodeType
  pub content : Option Data
  pub size : ℕ

abbrev pub is_file : NodeType → Bool
is_file NodeType.file = true
is_file NodeType.dir = false
is_file NodeType.dev = false
is_file NodeType.other = false

-- memcpy between two objects, from `from` in one to `to` in the other
unfoldable pub transfer : Chars → ℕ → Chars → ℕ → ℕ → Outcome Chars
transfer dest to src from n =
    if leb (to + n) (length dest) && leb (from + n) (length src)
    then ok (take to dest ++ (take n (drop from src) ++ drop (to + n) dest))
    else fault

-- The result is an int.
pub read : File → Option Chars → ℕ → ℕ → Outcome (Option Chars × ℤ)
unfolding transfer
read f buf size offset =
    if is_file f.kind
    then elim f.content [
      | none ↦ ok (buf, pos 0)
      | some d ↦
          if leb d.size offset
          then ok (buf, pos 0)
          else let to_read = if ltb (d.size - offset) size then d.size - offset else size in
            elim buf [
              | none ↦ ok (none, negsuc 0)
              | some b ↦ do
                b' ← transfer b 0 d.bytes offset to_read
                ok (some b', int_of_size to_read)
            ]
    ]
    else ok (buf, negsuc 0)

-- The object grows where the write starts at or behind the end of the contents: `kmalloc` gives a
-- new one, or NULL.
module _ (kmalloc : ℕ → Option Chars) where
  -- none for a failed allocation
  grow : File → Data → ℕ → ℕ → Outcome (Option (File × Data))
  unfolding transfer
  grow f d size offset =
      let new_size = (offset + size) % 2 ^ 64 in
      if leb d.size offset && ltb d.size new_size
      then elim (kmalloc new_size) [
        | none ↦ ok none
        | some fresh ↦ do
          bytes ← transfer fresh 0 d.bytes 0 d.size
          let d' : Data = record { bytes = bytes; size = new_size }
          ok (some (record f { content = some d'; size = new_size }, d'))
      ]
      else ok (some (f, d))

  -- what follows: the bytes are copied, and the sizes set
  store : File → Data → Option Chars → ℕ → ℕ → Outcome (File × ℤ)
  unfolding transfer
  store f d none size offset = ok (f, negsuc 0)
  store f d (some b) size offset = do
    bytes ← transfer d.bytes offset b 0 size
    let end = (offset + size) % 2 ^ 64
    let s = if ltb end f.size then f.size else end
    ok (
      record f { content = some (record { bytes = bytes; size = s }); size = s },
      int_of_size size,
    )

  pub write : File → Option Chars → ℕ → ℕ → Outcome (File × ℤ)
  unfolding grow store
  write f buf size offset =
      if is_file f.kind
      then elim f.content [
        | none ↦ ok (f, negsuc 0)
        | some d ↦ do
          grown ← grow f d size offset
          elim grown [ none ↦ ok (f, negsuc 0) | some (f', d') ↦ store f' d' buf size offset ]
      ]
      else ok (f, negsuc 0)
