-- ===== src/Pmm/Boot.antt =====
-- pmm_init and pmm_vmm_cleanup of kernel/src/mm/pmm.c: the stack is filled from the memory map.
pub mod Filled
pub mod Listed
pub mod Reclaim
use shadow_os.Base.{
  ℕ, zero, suc, ◌+◌, ◌-◌, ◌*◌, ◌/◌, ◌%◌, ◌^◌, Bool, true, false, ◌&&◌, ◌||◌, Option, none, some,
  List, [], ◌∷◌, ◌==◌, ltb, leb, if◌then◌else◌, min,
}
use mathlib.Core.Option
use shadow_os.Base.Outcome.{Outcome, ok, fault}
use shadow_os.Pmm.Caches.{CacheEntry, Cache, cache_size}
use shadow_os.Pmm.{
  page_size, div_round_up, align_up, Entry, Pmm, is_usable, is_reclaimable, push, release_page,
}

-- the first loop: `free_pages`
count_free : List Entry → ℕ
count_free [] = 0
count_free (e ∷ es) =
    if is_usable e.kind
    then (div_round_up e.len page_size + count_free es) % 2 ^ 64
    else count_free es

-- The second loop up to its `break`: the first entry that holds the array gives it room at its
-- start. The result is the place of the array, with the map as it is left.
unfoldable pub claim : ℕ → List Entry → Option (ℕ × List Entry)
claim array_size [] = none
claim array_size (e ∷ es) =
    let rest = claim array_size es in
    if leb array_size e.len && is_usable e.kind
    then some
        (e.base, record e { len = e.len - array_size; base = (e.base + array_size) % 2 ^ 64 } ∷ es)
    else Option.map (λ (b, es'). (b, e ∷ es')) rest

-- the loop that enters the first addresses behind the array in the primary cache
fill_cache : ℕ → ℕ → Cache → Cache
fill_cache base free_pages c = record c {
  primary = λ j.
      if ltb j (min cache_size free_pages)
      then record { page_addr = (base + j * page_size) % 2 ^ 64; is_valid = true; access_count = 0 }
      else c.primary j;
}

-- how often `for (j = 0; j < length; j += PAGE_SIZE)` goes round
abbrev pub rounds : ℕ → ℕ
rounds len = (len + (page_size - 1)) / page_size

-- Such a loop over the pages of a region, which pushes each.
push_region : ℕ → ℕ → Pmm → Pmm
push_region zero addr s = s
push_region (suc n) addr s = push_region n ((addr + page_size) % 2 ^ 64) (push s addr)

-- the third loop
pub push_usable : List Entry → Pmm → Pmm
unfolding push_region
push_usable [] s = s
push_usable (e ∷ es) s =
    push_usable es (if is_usable e.kind then push_region (rounds e.len) e.base s else s)

-- Whether the third loop writes at all, which it must not where no entry holds the array.
has_pages : List Entry → Bool
has_pages [] = false
has_pages (e ∷ es) = (is_usable e.kind && ltb 0 e.len) || has_pages es

-- pmm_init behind its first loop, which has counted `free` pages. The base of the claimed entry is
-- the array's, and the pages behind it go into the cache.
pub fill_stack : ℕ → List Entry → Pmm → Outcome Pmm
fill_stack free memmap s =
    let array_size = align_up (free * 8 % 2 ^ 64) page_size in
    elim (claim array_size memmap) [
      | none ↦
          if has_pages memmap
          then fault
          else ok (record s { memmap = memmap; max = s.idx; reclaimed = false })
      | some (b, memmap') ↦
          let start = record s {
            memmap = memmap';
            cache = fill_cache ((b + array_size) % 2 ^ 64) free s.cache;
          } in
          let t = push_usable memmap' start in ok (record t { max = t.idx; reclaimed = false })
    ]

-- The state before is that of the zeroed globals.
pub init : List Entry → Pmm → Outcome Pmm
init memmap s = fill_stack (count_free memmap) memmap s

-- pmm_vmm_cleanup, the body of its inner loop, the loop, and the loop over the map
pub reclaim_page : ℕ → Pmm → Pmm
reclaim_page addr s = release_page addr (push s addr)

pub reclaim_region : ℕ → ℕ → Pmm → Pmm
unfolding reclaim_page
reclaim_region zero addr s = s
reclaim_region (suc n) addr s = reclaim_region n ((addr + page_size) % 2 ^ 64) (reclaim_page addr s)

reclaim_all : List Entry → Pmm → Pmm
unfolding reclaim_region
reclaim_all [] s = s
reclaim_all (e ∷ es) s =
    reclaim_all es (if is_reclaimable e.kind then reclaim_region (rounds e.len) e.base s else s)

pub vmm_cleanup : List Entry → Pmm → Pmm
unfolding reclaim_all
vmm_cleanup memmap s =
    let t = reclaim_all memmap (record s { reclaimed = true }) in record t { max = t.idx }
