-- ===== src/Vmm.antt =====
-- kernel/src/mm/vmm.c: the four levels of page tables. A table is named by its physical address;
-- the code reaches it through the higher half.
pub mod Words
pub mod Walk
pub mod Ranges
use shadow_os.Base.{
  ℕ, ◌+◌, ◌*◌, ◌/◌, ◌%◌, ◌^◌, Bool, true, false, not, Option, none, some, ◌==◌, ◌!=◌, bit_and,
  bit_or, if◌then◌else◌,
}
use shadow_os.Memory.Block.{Bytes, memset, memcpy}
use shadow_os.Pmm.{page_size, Pmm, request_page, release_page}
use shadow_os.Vmm.Words.{read_word, put_word}

-- `(virt & (uint64_t)0x1ff << k) >> k`
unfoldable pub index : ℕ → ℕ → ℕ
index k virt = bit_and virt (0x1ff * 2 ^ k) / 2 ^ k

unfoldable pub is_present : ℕ → Bool
is_present e = bit_and e 1 != 0

-- the address part of an entry
unfoldable pub frame : ℕ → ℕ
frame e = bit_and e 0x000FFFFFFFFFF000

-- `table[i]`
unfoldable pub entry : Pmm → ℕ → ℕ → ℕ
entry s table i = read_word s.mem (table + i * 8)

unfoldable pub set_entry : Pmm → ℕ → ℕ → ℕ → Pmm
set_entry s table i v = record s { mem = put_word s.mem (table + i * 8) v }

-- The level-1 entry is taken as it is, present or not.
pub virt_to_phys : Pmm → ℕ → ℕ → ℕ
unfolding index is_present frame entry
virt_to_phys s pagemap virt =
    let e4 = entry s pagemap (index 39 virt) in
    if not (is_present e4)
    then 0
    else let e3 = entry s (frame e4) (index 30 virt) in
      if not (is_present e3)
      then 0
      else let e2 = entry s (frame e3) (index 21 virt) in
        if not (is_present e2) then 0 else frame (entry s (frame e2) (index 12 virt))

pub unmap : ℕ → ℕ → Pmm → Pmm
unfolding index is_present frame entry set_entry
unmap pagemap virt s =
    let e4 = entry s pagemap (index 39 virt) in
    if not (is_present e4)
    then set_entry s pagemap (index 39 virt) 0
    else let e3 = entry s (frame e4) (index 30 virt) in
      if not (is_present e3)
      then set_entry s (frame e4) (index 30 virt) 0
      else let e2 = entry s (frame e3) (index 21 virt) in
        if not (is_present e2)
        then set_entry s (frame e3) (index 21 virt) 0
        else set_entry s (frame e2) (index 12 virt) 0

-- the upper half of the kernel's table, where there is one
inherit : Option ℕ → ℕ → Bytes → Bytes
inherit none page m = m
inherit (some k) page m = memcpy (page + 256 * 8) (k + 256 * 8) (256 * 8) m

module _ (hhdm : ℕ) where
  -- An entry that is not present gets a new page. The result is the table that the entry names.
  pub descend : ℕ → ℕ → Pmm → Pmm × ℕ
  unfolding is_present frame entry set_entry
  descend table i s =
      let t =
        if not (is_present (entry s table i))
        then (let (u, page) = request_page hhdm s in set_entry u table i (bit_or page 7))
        else s in
      (t, frame (entry t table i))

  pub vmm_map : ℕ → ℕ → ℕ → ℕ → Pmm → Pmm
  unfolding descend index set_entry
  vmm_map pagemap virt phys flags s =
      let (s3, pml3) = descend pagemap (index 39 virt) s in
      let (s2, pml2) = descend pml3 (index 30 virt) s3 in
      let (s1, pml1) = descend pml2 (index 21 virt) s2 in
      set_entry s1 pml1 (index 12 virt) (bit_or phys flags)

  -- The result is the new table, `none` for NULL. With no page left the request is 0, whose place
  -- in the higher half is not NULL.
  pub new_pagemap : Option ℕ → Pmm → Pmm × Option ℕ
  unfolding inherit
  new_pagemap kernel s =
      let (t, page) = request_page hhdm s in
      if (page + hhdm) % 2 ^ 64 == 0
      then (t, none)
      else let cleared = memset page 0 page_size t.mem in
        (record t { mem = inherit kernel page cleared }, some page)

pub destroy_pagemap : ℕ → Pmm → Pmm
destroy_pagemap pagemap s = release_page pagemap s
