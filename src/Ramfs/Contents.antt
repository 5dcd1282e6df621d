-- ===== src/Ramfs/Contents.antt =====
-- What a write leaves in a file, and a read finds.
use shadow_os.Base.{
  ℕ, ◌+◌, ◌<◌, ◌≡◌, Option, some, ◌++◌, ltb, if◌then◌else◌, length, take, drop, arith,
}
use shadow_os.Base.Outcome.{Outcome, fault}
use shadow_os.Memory.Chars.{Chars}
use shadow_os.Vfs.{NodeType}
use shadow_os.Ramfs.{Data, File, transfer, grow, store, write}

-- an object with `n` bytes of `b` written over it from `to` on
abbrev pub patched : Chars → ℕ → Chars → ℕ → Chars
patched d to b n = take to d ++ (take n b ++ drop (to + n) d)

-- the file that `store` leaves
abbrev stored : File → Data → Chars → ℕ → ℕ → File
stored f d b n offset =
    let s = if ltb (offset + n) f.size then f.size else offset + n in
    record f { content = some (record { bytes = patched d.bytes offset b n; size = s }); size = s }

-- A write that begins inside the contents and ends behind the object that holds them runs past the
-- end of that object.
pub write_past :
    (kmalloc : ℕ → Option Chars) (f : File) (d : Data) (b : Chars) (n offset : ℕ)
    → f.kind ≡ NodeType.file
    → f.content ≡ some d
    → offset < d.size
    → length d.bytes < offset + n
    → write kmalloc f (some b) n offset ≡ fault
unfolding write grow store transfer
write_past kmalloc f d b n offset is has inside past = ground (arith, is, has)
