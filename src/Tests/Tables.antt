-- ===== src/Tests/Tables.antt =====
-- The theorems on page tables at three tables that map nothing yet.
use shadow_os.Base.{◌*◌, ◌≡◌, refl, inr, false, [], arith}
use shadow_os.Pmm.{Pmm}
use shadow_os.Vmm.Words.{read_bytes, put_bytes, put_word}
use shadow_os.Vmm.{index, is_present, frame, entry, virt_to_phys, vmm_map, unmap}
use shadow_os.Vmm.Walk.{Walk, IsProper, virt_to_phys-vmm_map, virt_to_phys-unmap}

-- tables at 0x1000, 0x2000, 0x3000 and 0x4000, the first entry of each naming the next
abbrev tables : Pmm
tables = record {
  pages = λ i. 0;
  idx = 0;
  max = 0;
  memmap = [];
  cache = record {
    primary = λ i. record { page_addr = 0; is_valid = false; access_count = 0 };
    secondary = λ i. record { page_addr = 0; is_valid = false; access_count = 0 };
    head = 0;
  };
  reclaimed = false;
  mem = put_word (put_word (put_word (λ a. 0) 4096 8199) 8192 12295) 12288 16391;
}

tables-Walk : Walk tables 4096 8192
unfolding index is_present frame entry read_bytes put_bytes
tables-Walk = record {
  pml3 = 8192;
  pml2 = 12288;
  pml1 = 16384;
  has_pml3 = refl;
  has_pml2 = refl;
  has_pml1 = refl;
  pml3_at = refl;
  pml2_at = refl;
  pml1_at = refl;
}

IsProper-tables : IsProper tables-Walk
unfolding index tables-Walk
IsProper-tables = record {
  below_pml4 = inr (omega arith);
  below_pml3 = inr (omega arith);
  below_pml2 = inr (omega arith);
}

virt_to_phys-vmm_map_example :
    virt_to_phys (vmm_map 4294967296 4096 8192 (9 * 4096) 3 tables) 4096 8192 ≡ 9 * 4096
virt_to_phys-vmm_map_example =
    virt_to_phys-vmm_map 4294967296 4096 8192 9 3 tables tables-Walk IsProper-tables (omega arith)
      (omega arith)

virt_to_phys-unmap_example : virt_to_phys (unmap 4096 8192 tables) 4096 8192 ≡ 0
virt_to_phys-unmap_example = virt_to_phys-unmap 4096 8192 tables tables-Walk IsProper-tables
