-- ===== src/Pmm.antt =====
-- kernel/src/mm/pmm.c and pmm.h: the physical page allocator, a stack of free pages behind a cache
-- of addresses that were found valid.
pub mod Caches
pub mod Boot
pub mod Stack
use shadow_os.Base.{
  ℕ, suc, ◌+◌, ◌-◌, ◌*◌, ◌/◌, ◌%◌, ◌^◌, Bool, true, false, not, ◌&&◌, ◌||◌, Option, none, some,
  List, [], ◌∷◌, ◌==◌, ltb, leb, if◌then◌else◌,
}
use shadow_os.Memory.Block.{Bytes, memset}
use shadow_os.Pmm.Caches.{CacheEntry, Cache, hash_page, read_primary, update_cache_access, remember}

abbrev pub page_size : ℕ
page_size = 4096

-- DIV_ROUND_UP, ALIGN_UP and ALIGN_DOWN on uint64_t
abbrev pub div_round_up : ℕ → ℕ → ℕ
div_round_up x y = (x + (y - 1)) % 2 ^ 64 / y

abbrev pub align_up : ℕ → ℕ → ℕ
align_up x y = div_round_up x y * y % 2 ^ 64

abbrev pub align_down : ℕ → ℕ → ℕ
align_down x y = x / y * y

-- `entry->type`, as far as the code tells types apart
pub data Kind : Type 0 where
  usable bootloader_reclaimable other : Kind

-- `struct limine_memmap_entry`
pub record Entry : Type 0 where
  pub base : ℕ
  pub len : ℕ
  pub kind : Kind

-- The globals: `stack` with its array `pages`, the memory map, the caches, and the physical memory,
-- which the code reaches through the higher half.
pub record Pmm : Type 0 where
  pub pages : ℕ → ℕ
  pub idx : ℕ
  pub max : ℕ
  pub memmap : List Entry
  pub cache : Cache
  pub reclaimed : Bool
  pub mem : Bytes

abbrev pub is_usable : Kind → Bool
is_usable Kind.usable = true
is_usable Kind.bootloader_reclaimable = false
is_usable Kind.other = false

abbrev pub is_reclaimable : Kind → Bool
is_reclaimable Kind.usable = false
is_reclaimable Kind.bootloader_reclaimable = true
is_reclaimable Kind.other = false

-- the condition on an entry in the loop of is_page_valid
unfoldable pub covers : Bool → ℕ → Entry → Bool
covers reclaimed addr e =
    (is_usable e.kind || (is_reclaimable e.kind && reclaimed))
    && leb e.base addr
    && ltb addr ((e.base + e.len) % 2 ^ 64)

unfoldable pub in_memmap : Bool → ℕ → List Entry → Bool
in_memmap reclaimed addr [] = false
in_memmap reclaimed addr (e ∷ es) = covers reclaimed addr e || in_memmap reclaimed addr es

-- whether the primary cache holds the address at its place
unfoldable pub cached : Cache → ℕ → Bool
cached c addr = let e = read_primary c (hash_page addr) in e.is_valid && (e.page_addr == addr)

-- is_page_valid: the verdict, and the caches as they are left
unfoldable pub is_page_valid : Pmm → ℕ → Bool × Cache
unfolding cached in_memmap covers
is_page_valid s addr =
    if cached s.cache addr || in_memmap s.reclaimed addr s.memmap
    then (true, update_cache_access s.cache addr)
    else (false, s.cache)

-- `stack.pages[stack.idx++] = addr`
unfoldable pub push : Pmm → ℕ → Pmm
push s addr = record s { pages = λ i. if i == s.idx then addr else s.pages i; idx = s.idx + 1 }

-- The result is 0 for NULL. `hhdm` is `hhdm_offset`, which the boot loader sets.
module _ (hhdm : ℕ) where
  unfoldable pub request_page : Pmm → Pmm × ℕ
  unfolding is_page_valid
  request_page s =
      if s.idx == 0
      then (s, 0)
      else let addr = s.pages (s.idx - 1) in
        let (valid, cache) = is_page_valid (record s { idx = s.idx - 1 }) addr in
        let t = record s { idx = s.idx - 1; cache = cache } in
        if not valid
        then (t, 0)
        else if (addr + hhdm) % 2 ^ 64 == 0
        then (t, 0)
        else (record t { mem = memset addr 0 page_size s.mem }, align_up addr page_size)

pub release_page : ℕ → Pmm → Pmm
unfolding is_page_valid push remember
release_page page s =
    if page == 0
    then s
    else let (valid, cache) = is_page_valid s page in
      let t = record s { cache = cache } in
      if not valid
      then t
      else if leb t.max t.idx
      then t
      else push (record t { cache = remember t.cache page }) page

pub get_free_memory : Pmm → ℕ
get_free_memory s = s.idx * page_size % 2 ^ 64

pub get_total_memory : Pmm → ℕ
get_total_memory s = s.max * page_size % 2 ^ 64
