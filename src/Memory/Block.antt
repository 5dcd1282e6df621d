-- ===== src/Memory/Block.antt =====
-- memcpy, memset, memmove and memcmp of kernel/src/lib/memory.c, over one byte memory that source
-- and destination share. An address is a number, and no object goes round the end of the address
-- space.
pub mod Laws
use shadow_os.Base.{ℕ, zero, suc, ◌+◌, ◌-◌, ◌%◌, ◌==◌, ◌!=◌, ltb, if◌then◌else◌, ℤ, pos, negsuc}

abbrev pub Bytes : Type 0
Bytes = ℕ → ℕ

abbrev pub poke : Bytes → ℕ → ℕ → Bytes
poke m p v a = if a == p then v else m a

-- `while (n--) *d++ = *s++;`
copy_up : ℕ → ℕ → ℕ → Bytes → Bytes
copy_up d s zero m = m
copy_up d s (suc n) m = copy_up (d + 1) (s + 1) n (poke m d (m s))

-- `while (n--) *(--d) = *(--s);`
copy_down : ℕ → ℕ → ℕ → Bytes → Bytes
copy_down d s zero m = m
copy_down d s (suc n) m = copy_down (d - 1) (s - 1) n (poke m (d - 1) (m (s - 1)))

unfoldable pub memcpy : ℕ → ℕ → ℕ → Bytes → Bytes
unfolding copy_up
memcpy dest src n m = copy_up dest src n m

-- `c` is an int, cut to a byte.
unfoldable pub memset : ℕ → ℕ → ℕ → Bytes → Bytes
memset p c zero m = m
memset p c (suc n) m = memset (p + 1) c n (poke m p (c % 256))

unfoldable pub memmove : ℕ → ℕ → ℕ → Bytes → Bytes
unfolding copy_up copy_down
memmove dest src n m =
    if ltb dest src then copy_up dest src n m else copy_down (dest + n) (src + n) n m

unfoldable pub memcmp : ℕ → ℕ → ℕ → Bytes → ℤ
memcmp p q zero m = pos 0
memcmp p q (suc n) m =
    let rest = memcmp (p + 1) (q + 1) n m in
    if m p != m q then (if ltb (m p) (m q) then negsuc 0 else pos 1) else rest
