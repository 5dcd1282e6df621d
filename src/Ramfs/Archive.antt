-- ===== src/Ramfs/Archive.antt =====
-- ramfs_init_ustar of kernel/src/fs/ramfs.c. The archive is an object whose names are cut into
-- components in place; a header is a place in it.
pub mod Components
pub mod Rounds
pub mod Entry
pub mod File
use shadow_os.Base.{
  ℕ, zero, suc, ◌+◌, ◌-◌, ◌*◌, ◌/◌, ◌%◌, ◌^◌, Bool, true, false, not, ◌||◌, Option, none, some, [],
  ◌∷◌, ◌==◌, ltb, leb, if◌then◌else◌, length, drop, get_elem?, ℤ, pos, negsuc,
}
use shadow_os.Base.Outcome.{Outcome, ok, stuck, ◌>>=◌, deref, assert, assert_some}
use shadow_os.Memory.Chars.{Chars, strlen, strcmp, strncmp}
use shadow_os.Memory.Number.{strtol}
use shadow_os.Memory.Tokens.{Token, strtok}
use shadow_os.Vfs.{Vnode, NodeType, Fs, Ops, modify, create_vnode}
use shadow_os.Vfs.Paths.{is_zero, lookup}
use shadow_os.Ramfs.{Data, transfer}

-- The archive, what strtok keeps, the nodes, and the objects `ramfs_data_t` by address.
pub record Loader : Type 0 where
  pub archive : Chars
  pub last : Option ℕ
  pub fs : Fs
  pub files : ℕ → Option Data

-- a `long` that becomes a uint32_t
abbrev to_u32 : ℤ → ℕ
to_u32 (pos n) = n % 2 ^ 32
to_u32 (negsuc n) = 2 ^ 32 - 1 - n % 2 ^ 32

-- USTAR_HEADER_SIZE, and the places of fields of `ustar_header_t`
abbrev pub header_size : ℕ
header_size = 512

abbrev pub mode_at : ℕ
mode_at = 100

abbrev pub size_at : ℕ
size_at = 124

abbrev pub mtime_at : ℕ
mtime_at = 136

abbrev pub typeflag_at : ℕ
typeflag_at = 156

-- `strtol(field, NULL, 8)`, in a uint32_t
unfoldable pub octal : Chars → Outcome ℕ
octal s = do (v, end) ← deref (strtol s 8); ok (to_u32 v)

-- `(file_size + 511) & ~511` on a uint32_t
abbrev pub round_up : ℕ → ℕ
round_up file_size = (file_size + 511) % 2 ^ 32 / 512 * 512

abbrev pub slash : Chars
slash = b'/' ∷ 0 ∷ []

abbrev pub with_token : Token → Loader → Loader
with_token t s = record s { archive = t.text; last = t.kept }

-- The tables of operations by address, the time of new nodes, the address of `ramfs_ops`, what
-- kmalloc gives for a `ramfs_data_t` and for contents, and fuel for lists of children.
module _ (ops_at : ℕ → Ops) (now ramfs_at : ℕ) (new_data : Loader → Option ℕ)
    (kmalloc : ℕ → Option Chars) (fuel : ℕ) where
  -- the fields that are set in every new node
  unfoldable pub mark : ℕ → ℕ → Loader → Outcome Loader
  unfolding octal modify
  mark header n s = do
    mode ← octal (drop (header + mode_at) s.archive)
    time ← octal (drop (header + mtime_at) s.archive)
    t ← modify n (λ v. record v { ops = ramfs_at; mode = mode; creation_time = time }) s.fs
    ok (record s { fs = t })

  -- a directory that is missing; false for `return`
  unfoldable pub make_directory : ℕ → ℕ → ℕ → Loader → Outcome (Loader × Bool)
  unfolding mark
  make_directory header parent token s = do
    (t, made) ← create_vnode ops_at now parent (drop token s.archive) NodeType.dir s.fs
    elim made [
      | none ↦ ok (record s { fs = t }, false)
      | some n ↦ do u ← mark header n (record s { fs = t }); ok (u, true)
    ]

  -- `strtok(NULL, "/")`
  unfoldable pub next_token : Loader → Outcome (Loader × Option ℕ)
  next_token s = do t ← strtok none slash s.last s.archive; ok (with_token t s, t.token)

  -- The loop over the components, on fuel: `cur_parent` and `token`, each none for NULL. The result
  -- is none for `return`. Behind a directory that is made, `cur_parent` is NULL.
  unfoldable pub descend :
      ℕ → Bool → ℕ → Option ℕ → Option ℕ → Loader → Outcome (Loader × Option (Option ℕ × Option ℕ))
  unfolding make_directory next_token
  descend zero dir header parent token s = stuck
  descend (suc k) dir header parent none s = ok (s, some (parent, none))
  descend (suc k) dir header parent (some p) s = do
    c ← deref parent
    found ← lookup fuel c (drop p s.archive) s.fs
    elim found [
      | some n ↦ do (t, token) ← next_token s; descend k dir header (some n) token t
      | none ↦ if not dir then ok (s, some (parent, some p)) else (do
        (t, goes_on) ← make_directory header c p s
        (if not goes_on
            then ok (t, none)
            else (do (u, token) ← next_token t; descend k dir header none token u)))
    ]

  -- the contents and the fields of a new file; false for `return`
  unfoldable pub fill_file : ℕ → ℕ → ℕ → Loader → Outcome (Loader × Bool)
  unfolding mark
  fill_file header size n s = elim (new_data s) [
    | none ↦ ok (s, false)
    | some d ↦ elim (kmalloc size) [
      | none ↦ ok (s, false)
      | some fresh ↦ do
        bytes ← transfer fresh 0 s.archive (header + header_size) size
        t ← modify n (λ v. record v { data_at = d; size = size }) s.fs
        u ← mark header n (record s {
          fs = t;
          files = λ i. if i == d then some (record { bytes = bytes; size = size }) else s.files i;
        })
        ok (u, true)
    ]
  ]

  -- what follows the loop where the entry is not a directory
  unfoldable pub add_file : ℕ → ℕ → Option ℕ → Option ℕ → Loader → Outcome (Loader × Bool)
  unfolding fill_file
  add_file header size parent token s = do
    t ← strtok token slash s.last s.archive
    let s' = with_token t s
    elim t.token [
      | none ↦ ok (s', true)
      | some p ↦ do
        n ← deref (strlen (drop p s'.archive))
        (if n == 0 then ok (s', true) else (do
          c ← deref parent
          (u, made) ← create_vnode ops_at now c (drop p s'.archive) NodeType.file s'.fs
          elim made [
            | none ↦ ok (record s' { fs = u }, false)
            | some file ↦ fill_file header size file (record s' { fs = u })
          ]))
    ]

  -- `name`, behind a leading "./"
  unfoldable pub name_of : ℕ → Chars → Outcome ℕ
  name_of header archive = do
    order ← deref (strncmp (drop header archive) (b'.' ∷ b'/' ∷ 0 ∷ []) 2)
    ok (if is_zero order then header + 2 else header)

  -- `strlen(name) == 0 || strcmp(name, ".") == 0`
  unfoldable pub is_skipped : Chars → Outcome Bool
  is_skipped name = do
    n ← deref (strlen name)
    order ← deref (strcmp name (b'.' ∷ 0 ∷ []))
    ok ((n == 0) || is_zero order)

  -- the body of the loop behind the reading of the size
  unfoldable pub load_sized : ℕ → ℕ → ℕ → Loader → Outcome (Loader × Bool)
  unfolding add_file name_of is_skipped
  load_sized root header size s = do
    flag ← deref (get_elem? s.archive (header + typeflag_at))
    let dir = flag == b'5'
    name ← name_of header s.archive
    skipped ← is_skipped (drop name s.archive)
    (if skipped then ok (s, true) else (do
      first ← strtok (some name) slash s.last s.archive
      (t, place) ←
          descend (suc (length s.archive)) dir header (some root) first.token (with_token first s)
      elim place [
        | none ↦ ok (t, false)
        | some (parent, token) ↦ if dir then ok (t, true) else add_file header size parent token t
      ]))

  -- The body of the loop: the size that the header says, and whether the loop goes on.
  unfoldable pub load_entry : ℕ → ℕ → Loader → Outcome (Loader × (ℕ × Bool))
  unfolding load_sized
  load_entry root header s = do
    file_size ← octal (drop (header + size_at) s.archive)
    (t, goes_on) ← load_sized root header file_size s
    ok (t, (file_size, goes_on))

  -- the loop over the headers, on fuel
  unfoldable pub load_from : ℕ → ℕ → ℕ → ℕ → Loader → Outcome Loader
  unfolding load_entry
  load_from zero root size offset s = stuck
  load_from (suc k) root size offset s = if leb size offset then ok s else (do
    c ← deref (get_elem? s.archive offset)
    (if c == 0 then ok s else (do
      (t, (file_size, goes_on)) ← load_entry root offset s
      let rest = load_from k root size ((offset + header_size + round_up file_size) % 2 ^ 64) t
      (if goes_on then rest else ok t))))

  -- ramfs_init_ustar, on the root of a mount; none for NULL
  pub init_ustar : ℕ → Option ℕ → ℕ → Loader → Outcome Loader
  init_ustar rounds root size s = do
    r ← assert_some root
    tt ← assert (leb header_size size)
    load_from rounds r size 0 s

  -- ramfs_init, with the type of the archive; `mount->type` is a constant from here on
  pub ramfs_init : ℕ → Option ℕ → ℕ → ℕ → Loader → Outcome Loader
  unfolding modify
  ramfs_init rounds root kind size s = do
    r ← assert_some root
    t ← modify r (λ v. record v { ops = ramfs_at }) s.fs
    (if kind == 1
        then init_ustar rounds (some r) size (record s { fs = t })
        else ok (record s { fs = t }))
