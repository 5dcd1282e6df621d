-- ===== src/Tests/Archives.antt =====
-- An archive of one file of two bytes.
use shadow_os.Base.{◌+◌, ◌≡◌, refl, true, none, some, [], ◌∷◌, ◌++◌, replicate, take, drop, arith}
use shadow_os.Base.Outcome.{ok}
use shadow_os.Memory.Chars.{Chars, in_set}
use shadow_os.Memory.Number.{strtol}
use shadow_os.Vfs.{Vnode, NodeType}
use shadow_os.Vfs.Paths.{lookup}
use shadow_os.Ramfs.Archive.{Loader, header_size, octal, load_entry}
use shadow_os.Ramfs.Archive.Entry.{IsFileName, file_node}
use shadow_os.Ramfs.Archive.File.{load_entry-file}
use shadow_os.Tests.Nodes.{plain, folder, folder-Chain}
use shadow_os.Tests.Devices.{of_ramfs, memory_of, b-Gives}

-- the name, the mode, the size and the time, and the type of a file
abbrev header : Chars
header =
    b'b' ∷ replicate 99 0
    ++ b'6' ∷ b'4' ∷ b'4' ∷ replicate 21 0
    ++ b'2' ∷ replicate 11 0
    ++ b'1' ∷ b'7' ∷ replicate 18 0
    ++ b'0' ∷ replicate 355 0

abbrev loader : Loader
loader = record { archive = header ++ 65 ∷ 66 ∷ []; last = none; fs = folder; files = λ i. none }

b-IsFileName : IsFileName b'b' []
unfolding in_set
b-IsFileName = record { plain = (omega arith, refl, tt); no_dot = omega arith }

size_is : octal (drop 124 loader.archive) ≡ ok 2
unfolding octal strtol
size_is = refl

mode_is : octal (drop 100 loader.archive) ≡ ok 0x1A4
unfolding octal strtol
mode_is = refl

time_is : octal (drop 136 loader.archive) ≡ ok 15
unfolding octal strtol
time_is = refl

load_entry-file_example :
    (u : Loader) × (w : Vnode) × (load_entry of_ramfs 100 1 (λ t. some 40) memory_of 9 8 0 loader
      ≡ ok (u, (2, true)))
    × (lookup 9 8 (b'b' ∷ 0 ∷ []) u.fs ≡ ok (some 24))
    × (u.fs.nodes 24 ≡ some (file_node 1 40 2 0x1A4 15 w))
    × (w.kind ≡ NodeType.file)
    × (u.files 40
        ≡ some (record {
          bytes = take 2 (drop (0 + header_size) loader.archive) ++ drop 2 (replicate 2 0);
          size = 2;
        }))
load_entry-file_example =
    load_entry-file of_ramfs 100 1 9 0 2 8 b'0' 24 32 40 0x1A4 15 b'b' memory_of (λ t. some 40)
      memory_of (replicate 2 0) loader (record plain { kind = NodeType.dir; child = 16 })
      (record { at = 16; text = b'a' ∷ []; behind = [] } ∷ []) [] (drop 2 loader.archive) [] [] refl
      (omega arith) refl b-IsFileName size_is mode_is time_is (omega arith) refl refl refl
      (omega arith) refl folder-Chain b-Gives refl refl (omega arith) (omega arith) (λ t. refl) refl
      (omega arith)
