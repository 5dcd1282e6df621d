-- ===== src/Pmm/Boot/Filled.antt =====
-- pmm_init: the stack fits the array that it is given.
use shadow_os.Base.{
  ℕ, ◌+◌, ◌*◌, ◌/◌, ◌%◌, ◌^◌, ◌≡◌, Option, none, some, List, [], ◌∷◌, if◌then◌else◌,
}
use mathlib.Core.Option
use shadow_os.Pmm.{page_size, align_up, Entry, Pmm, is_usable}
use shadow_os.Pmm.Boot.Listed.{IsSmall}
use shadow_os.Pmm.Boot.{rounds}

-- the pages of the usable entries, with no wrap
unfoldable pub total : List Entry → ℕ
total [] = 0
total (e ∷ es) = if is_usable e.kind then rounds e.len + total es else total es

-- What is left by a claim is such a map again.
Remains : Option (ℕ × List Entry) → Type 0
Remains none = Unit
Remains (some (b, es)) = IsSmall es

-- The entries that are left by a claim of `a` bytes have `a / page_size` pages less than `n`.
abbrev Leaves : ℕ → ℕ → Option (ℕ × List Entry) → Type 0
Leaves a n none = Unit
Leaves a n (some (b, es)) = total es + a / page_size ≡ n

-- the size of the array of the stack
abbrev pub array_bytes : List Entry → ℕ
array_bytes es = align_up (total es * 8 % 2 ^ 64) page_size
