-- ===== src/Elf.antt =====
-- kernel/src/proc/data/elf.c: the loading of a program. The file is a function from offsets to its
-- bytes, which the pages that are loaded do not overlap.
pub mod Image
use shadow_os.Base.{
  ℕ, zero, suc, ◌+◌, ◌-◌, ◌*◌, ◌/◌, ◌%◌, ◌^◌, Bool, true, false, not, ◌==◌, ◌!=◌, ltb, leb, ◌&&◌,
  bit_and, bit_or, if◌then◌else◌,
}
use shadow_os.Memory.Block.{Bytes, memset}
use shadow_os.Pmm.{page_size, Pmm, request_page, align_up, align_down}
use shadow_os.Vmm.{vmm_map}
use shadow_os.Vmm.Words.{read_bytes}

-- `elf_header_t`, what the code reads of it
pub record Header : Type 0 where
  pub magic : ℕ
  pub class : ℕ
  pub kind : ℕ
  pub entry : ℕ
  pub phoff : ℕ
  pub phnum : ℕ

-- `elf_pheader_t`, what the code reads of it
pub record Segment : Type 0 where
  pub kind : ℕ
  pub flags : ℕ
  pub offset : ℕ
  pub vaddr : ℕ
  pub filesz : ℕ
  pub memsz : ℕ

-- the fields at their places in the packed structs
pub header_of : Bytes → Header
header_of file = record {
  magic = read_bytes 4 file 0;
  class = read_bytes 1 file 4;
  kind = read_bytes 2 file 16;
  entry = read_bytes 8 file 24;
  phoff = read_bytes 8 file 32;
  phnum = read_bytes 2 file 56;
}

pub segment_at : Bytes → ℕ → Segment
segment_at file a = record {
  kind = read_bytes 4 file a;
  flags = read_bytes 4 file (a + 4);
  offset = read_bytes 8 file (a + 8);
  vaddr = read_bytes 8 file (a + 16);
  filesz = read_bytes 8 file (a + 32);
  memsz = read_bytes 8 file (a + 40);
}

abbrev elf_magic : ℕ
elf_magic = 0x464C457F

-- VMM_PRESENT, VMM_WRITE if PF_W, VMM_NX if not PF_X, and VMM_USER
pub flags_of : ℕ → ℕ
flags_of p =
    let writable = if bit_and p 2 != 0 then bit_or 1 2 else 1 in
    let executable = if bit_and p 1 == 0 then bit_or writable (2 ^ 63) else writable in
    bit_or executable 4

-- `memcpy` from the file into a page
unfoldable pub copy_in : Bytes → ℕ → ℕ → ℕ → Bytes → Bytes
copy_in file dest src n m a =
    if leb dest a && ltb a (dest + n) then file (src + (a - dest)) else m a

-- what is copied into the page at `phys`, which is the one that is `from_start` bytes behind the
-- first of the segment
unfoldable pub copy_page : Bytes → Segment → ℕ → ℕ → Bytes → Bytes
unfolding copy_in
copy_page file p from_start phys m =
    let file_page_offset = (p.offset + from_start) % 2 ^ 64 in
    let file_data_end = (p.offset + p.filesz) % 2 ^ 64 in
    if ltb file_page_offset file_data_end
    then (let page_data_offset = if from_start == 0 then bit_and p.vaddr 0xFFF else 0 in
        let whole = page_size - page_data_offset in
        let copy_size =
          if ltb file_data_end ((file_page_offset + whole) % 2 ^ 64)
          then file_data_end - file_page_offset
          else whole in
        copy_in file (phys + page_data_offset) file_page_offset copy_size m)
    else m

module _ (hhdm pagemap : ℕ) (file : Bytes) where
  -- one round of the loop over the pages; false where no page is left
  pub load_page : Segment → ℕ → Pmm → Pmm × Bool
  unfolding copy_page
  load_page p vaddr s =
      let (t, phys) = request_page hhdm s in
      if phys == 0
      then (t, false)
      else let u = vmm_map hhdm pagemap vaddr phys (flags_of p.flags) t in
        (
          record u {
            mem =
                copy_page file p (vaddr - align_down p.vaddr page_size) phys
                  (memset phys 0 page_size u.mem);
          },
          true,
        )

  -- so many pages from an address on
  pub load_pages : Segment → ℕ → ℕ → Pmm → Pmm × Bool
  load_pages p zero vaddr s = (s, true)
  load_pages p (suc n) vaddr s =
      let (t, loaded) = load_page p vaddr s in
      let rest = load_pages p n (vaddr + page_size) t in if loaded then rest else (t, false)

  pub load_segment : Segment → Pmm → Pmm × Bool
  unfolding load_pages
  load_segment p s =
      if p.kind != 1
      then (s, true)
      else let first = align_down p.vaddr page_size in
        let end = align_up ((p.vaddr + p.memsz) % 2 ^ 64) page_size in
        load_pages p ((end - first) / page_size) first s

  -- so many entries of the table, from an offset on
  pub load_segments : ℕ → ℕ → Pmm → Pmm × Bool
  unfolding load_segment segment_at
  load_segments zero a s = (s, true)
  load_segments (suc n) a s =
      let (t, loaded) = load_segment (segment_at file a) s in
      let rest = load_segments n (a + 56) t in if loaded then rest else (t, false)

  -- The result is the entry point, 0 for a file that is refused or does not fit.
  pub elf_load_binary : Pmm → Pmm × ℕ
  unfolding load_segments header_of
  elf_load_binary s =
      let h = header_of file in
      if h.magic != elf_magic
      then (s, 0)
      else if h.class != 2
      then (s, 0)
      else if h.kind != 2
      then (s, 0)
      else let (t, loaded) = load_segments h.phnum h.phoff s in (t, if loaded then h.entry else 0)
