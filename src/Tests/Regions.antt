-- ===== src/Tests/Regions.antt =====
-- The theorems on vma_alloc at a context with a root and a region of three pages.
use shadow_os.Base.{ℕ, ◌≡◌, refl, ◌⊎◌, none, some, [], ◌∷◌, ◌==◌, if◌then◌else◌, arith}
use shadow_os.Base.Outcome.{ok}
use shadow_os.Pmm.{is_page_valid, cached, in_memmap, covers, request_page}
use shadow_os.Pmm.Caches.{read_primary}
use shadow_os.Vma.{Vma, higher_half, alloc}
use shadow_os.Vma.Regions.{Item, Regions, with_new}
use shadow_os.Vma.Alloc.{HasRegions, alloc-Regions}
use shadow_os.Tests.Pages.{small}

abbrev root : Item
root = record { at = 8; start = 4096; size = 0 }

abbrev three_pages : Item
three_pages = record { at = 16; start = 4096; size = 3 }

abbrev space : Vma
space = record {
  pmm = small;
  regions = λ i.
      if i == 8
      then some (record { start = 4096; size = 0; flags = 0; next = 16; prev = 0 })
      else if i == 16
      then some (record { start = 4096; size = 3; flags = 7; next = 0; prev = 8 })
      else none;
  contexts = λ i. if i == 24 then some (record { pagemap = 4096; root = 8 }) else none;
}

pub page_lem : (request_page 4294967296 small).1 ≡ 1052672
unfolding request_page is_page_valid cached read_primary in_memmap covers
page_lem = refl

listed : Regions space.regions 8 (root ∷ three_pages ∷ [])
unfolding Regions
listed = (
  refl,
  omega arith,
  (omega arith, tt),
  (
    record { start = 4096; size = 0; flags = 0; next = 16; prev = 0 },
    refl,
    refl,
    refl,
    (
      refl,
      omega arith,
      tt,
      (record { start = 4096; size = 3; flags = 7; next = 0; prev = 8 }, refl, refl, refl, refl),
    ),
  ),
)

abbrev has_regions : HasRegions 4294967296 9 24 space root (three_pages ∷ [])
has_regions = record {
  context = record { pagemap = 4096; root = 8 };
  there = refl;
  not_null = omega arith;
  has_table = omega arith;
  listed = listed;
  enough = omega arith;
  page = rw page_lem (omega arith);
  fresh = rw page_lem refl;
}

alloc-Regions_example :
    (t : Vma) × (ptr : ℕ) × (alloc 4294967296 9 24 2 7 space ≡ ok (t, ptr))
    × Regions t.regions 8 (
        with_new root
          (three_pages ∷ [])
          (higher_half 4294967296 (request_page 4294967296 small).1)
          2)
    × ((ptr ≡ 0) ⊎ (ptr ≡ 4099))
alloc-Regions_example = alloc-Regions 4294967296 9 24 2 7 space root (three_pages ∷ []) has_regions
