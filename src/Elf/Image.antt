-- ===== src/Elf/Image.antt =====
-- What a page of a segment holds when it is loaded.
use shadow_os.Base.{
  ℕ, ◌+◌, ◌-◌, ◌*◌, ◌%◌, ◌^◌, ◌<◌, ◌≡◌, ◌≢◌, refl, ◌∙◌, true, false, ◌==◌, ltb, leb, ◌&&◌,
  if◌then◌else◌, arith,
}
use shadow_os.Base.Bits.{bit_and-low}
use shadow_os.Memory.Block.{Bytes, memset}
use shadow_os.Memory.Block.Laws.{memset_lem}
use shadow_os.Pmm.{page_size, Pmm, request_page, align_down}
use shadow_os.Vmm.{vmm_map}
use shadow_os.Elf.{Segment, copy_in, copy_page, load_page, flags_of}

-- the byte of the file that is loaded `j` bytes into the page that is `from_start` bytes behind the
-- first of the segment, or 0
abbrev pub loaded_byte : Bytes → Segment → ℕ → ℕ → ℕ
loaded_byte file p from_start j =
    let skipped = if from_start == 0 then p.vaddr % 4096 else 0 in
    if leb skipped j && ltb (from_start + (j - skipped)) p.filesz
    then file (p.offset + (from_start + (j - skipped)))
    else 0

copy_page_lem :
    (file : Bytes) (p : Segment) (from_start phys : ℕ) (m : Bytes) (j : ℕ)
    → p.offset + p.filesz < 2 ^ 64
    → p.offset + from_start + page_size < 2 ^ 64
    → j < page_size
    → (copy_page file p from_start phys (memset phys 0 page_size m)) (phys + j)
      ≡ loaded_byte file p from_start j
unfolding copy_page copy_in
copy_page_lem file p from_start phys m j fits room small =
    ground (arith, bit_and-low 12 p.vaddr, memset_lem phys 0 page_size m (phys + j))

-- the byte that a segment has at an address: that of the file, or 0 behind the part that is in it
abbrev pub image : Bytes → Segment → ℕ → ℕ
image file p a = if ltb (a - p.vaddr) p.filesz then file (p.offset + (a - p.vaddr)) else 0

module _ (hhdm pagemap : ℕ) (file : Bytes) (p : Segment) (k : ℕ) (s : Pmm) (j : ℕ)
    (has_page : (request_page hhdm s).1 ≢ 0) (fits : p.offset + p.filesz < 2 ^ 64)
    (room : p.offset + k * page_size + page_size < 2 ^ 64) (small : j < page_size) where
  load_page_lem :
      (t : Pmm) × (load_page hhdm pagemap file p (align_down p.vaddr page_size + k * page_size) s
        ≡ (t, true))
      × (t.mem ((request_page hhdm s).1 + j) ≡ loaded_byte file p (k * page_size) j)
  unfolding load_page
  load_page_lem =
      let u =
        vmm_map hhdm pagemap (align_down p.vaddr page_size + k * page_size) (request_page hhdm s).1
          (flags_of p.flags) (request_page hhdm s).0 in
      let taken : ((request_page hhdm s).1 == 0) ≡ false = ground (arith, has_page) in
      let behind : align_down p.vaddr page_size + k * page_size - align_down p.vaddr page_size
          ≡ k * page_size =
        omega arith in
      (
        record u {
          mem =
              copy_page file p (k * page_size) (request_page hhdm s).1
                (memset (request_page hhdm s).1 0 page_size u.mem);
        },
        rw (taken, behind) refl,
        copy_page_lem file p (k * page_size) (request_page hhdm s).1 u.mem j fits room small,
      )

  -- Where a segment starts at a page, and its place in the file does not go round the end of the
  -- numbers, every page of it that is loaded holds its bytes, and zeros behind those that are in
  -- the file.
  pub load_page-image :
      p.vaddr % 4096 ≡ 0
      → (t : Pmm) × (load_page hhdm pagemap file p (align_down p.vaddr page_size + k * page_size) s
          ≡ (t, true))
        × (t.mem ((request_page hhdm s).1 + j) ≡ image file p (p.vaddr + k * page_size + j))
  load_page-image aligned =
      let (t, done, holds) = load_page_lem in (t, done, holds ∙ ground (arith, aligned))

  -- Where a segment starts inside of a page, the bytes that the pages behind the first have from
  -- the file are bytes that stand too far behind in the file, by the distance of the start from
  -- that of its page.
  pub load_page_shifts :
      0 < p.vaddr % 4096
      → 0 < k
      → k * page_size + j < p.filesz
      → (t : Pmm) × (load_page hhdm pagemap file p (align_down p.vaddr page_size + k * page_size) s
          ≡ (t, true))
        × (t.mem ((request_page hhdm s).1 + j)
            ≡ image file p (align_down p.vaddr page_size + k * page_size + j + p.vaddr % 4096))
  load_page_shifts inside later in_file =
      let (t, done, holds) = load_page_lem in
      (t, done, holds ∙ ground (arith, inside, later, in_file))
