-- ===== src/Tests/Programs.antt =====
-- The theorems on the loading of programs at a segment of 5000 bytes.
use shadow_os.Base.{ℕ, ◌+◌, ◌%◌, ◌≡◌, ◌≢◌, refl, true, arith}
use shadow_os.Memory.Block.{Bytes}
use shadow_os.Pmm.{Pmm, request_page}
use shadow_os.Elf.{Segment, load_page}
use shadow_os.Elf.Image.{image, load_page-image}
use shadow_os.Tests.Pages.{small}
use shadow_os.Tests.Regions.{page_lem}

abbrev file : Bytes
file a = a % 251

abbrev aligned : Segment
aligned = record {
  kind = 1;
  flags = 5;
  offset = 4096;
  vaddr = 0x400000;
  filesz = 5000;
  memsz = 9000;
}

abbrev shifted : Segment
shifted = record aligned { vaddr = 0x400100 }

abbrev hhdm : ℕ
hhdm = 4294967296

has_page : (request_page hhdm small).1 ≢ 0
has_page = rw page_lem (omega arith)

load_page-image_example :
    (t : Pmm) × (load_page hhdm 4096 file aligned 0x401000 small ≡ (t, true))
    × (t.mem ((request_page hhdm small).1 + 10) ≡ image file aligned 0x40100A)
load_page-image_example =
    load_page-image hhdm 4096 file aligned 1 small 10 has_page (omega arith) (omega arith)
      (omega arith) refl
