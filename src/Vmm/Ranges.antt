-- ===== src/Vmm/Ranges.antt =====
-- map_range_to_pagemap of kernel/src/proc/scheduler.c, over the page tables.
use shadow_os.Base.{ℕ, zero, suc, ◌+◌, ◌-◌, ◌/◌, ◌%◌, ◌^◌, ◌==◌, if◌then◌else◌}
use shadow_os.Pmm.{page_size, Pmm}
use shadow_os.Vmm.{virt_to_phys, vmm_map}

module _ (hhdm dest src start flags : ℕ) where
  -- the rounds of the loop from an offset on
  map_pages : ℕ → ℕ → Pmm → Pmm
  map_pages zero offset s = s
  map_pages (suc n) offset s =
      let virt = (start + offset) % 2 ^ 64 in
      let phys = virt_to_phys s src virt in
      map_pages n (offset + page_size)
        (if phys == 0 then s else vmm_map hhdm dest virt phys flags s)

  map_range : ℕ → Pmm → Pmm
  unfolding map_pages
  map_range size s = map_pages ((size + (page_size - 1)) / page_size) 0 s
