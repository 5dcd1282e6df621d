-- ===== src/Tests/Blocks.antt =====
-- The theorems on blocks of memory at a concrete memory.
use shadow_os.Base.{◌≡◌, arith}
use shadow_os.Memory.Block.{Bytes, memmove}
use shadow_os.Memory.Block.Laws.{moved, Agree, memmove-moved}

-- each byte holds its own address
abbrev count_up : Bytes
count_up a = a

memmove-moved_example : memmove 2 1 3 count_up 4 ≡ moved 2 1 3 count_up 4
memmove-moved_example = memmove-moved 2 1 3 count_up 4

Agree-nowhere : Agree 1 2 0 count_up
Agree-nowhere i h = absurd (omega arith)
