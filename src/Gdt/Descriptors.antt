-- ===== src/Gdt/Descriptors.antt =====
-- What the processor reads from the descriptors.
use shadow_os.Base.{ℕ, ◌+◌, ◌-◌, ◌*◌, ◌/◌, ◌%◌, ◌^◌, ◌<◌, ◌≡◌, refl, List, some, get_elem?, arith}
use shadow_os.Base.Bits.{bit_and-low}
use shadow_os.Gdt.{
  GdtEntry, entry, gdt_init, kernel_code, kernel_data, user_code, user_data, granularity_flat,
  tss_size, tss_low, tss_high, tss_init,
}

-- the base and the limit of a system segment, from its two entries
abbrev pub base_of : GdtEntry → GdtEntry → ℕ
base_of low high =
    low.base_low
    + low.base_middle * 2 ^ 16
    + low.base_high * 2 ^ 24
    + (high.limit_low + high.base_low * 2 ^ 16) * 2 ^ 32

abbrev pub limit_of : GdtEntry → ℕ
limit_of low = low.limit_low + low.granularity % 16 * 2 ^ 16

-- the level of privilege of a segment
abbrev pub privilege : GdtEntry → ℕ
privilege e = e.access / 2 ^ 5 % 4

base_of-tss :
    (base : ℕ) → base < 2 ^ 64 → base_of (tss_low base (tss_size - 1)) (tss_high base) ≡ base
unfolding tss_low tss_high
base_of-tss base fits =
    rw (bit_and-low 16 base, bit_and-low 8 (base / 2 ^ 16), bit_and-low 8 (base / 2 ^ 24))
      (omega arith)

-- A segment of the table: where it stands, its privilege, and whether it holds code.
pub record IsSegment (gdt : List GdtEntry) (at level executable : ℕ) : Type 0 where
  pub found : GdtEntry
  pub there : get_elem? gdt at ≡ some found
  pub level_is : privilege found ≡ level
  pub executable_is : found.access / 2 ^ 3 % 2 ≡ executable
  pub present : found.access / 2 ^ 7 ≡ 1

-- After gdt_init and tss_init, whatever the address of the segment and the stack: the kernel has its
-- code and its data in entries 1 and 2, the user in entries 3 and 4, and the processor finds in
-- entries 5 and 6 the address of the task state segment, the limit of its bytes, and its stack.
pub tss_init-gdt_init :
    (base stack : ℕ) (five six : GdtEntry)
    → base < 2 ^ 64
    → let (gdt, tss) = tss_init base stack (gdt_init five six) in
      IsSegment gdt 1 0 1
      × IsSegment gdt 2 0 0
      × IsSegment gdt 3 3 1
      × IsSegment gdt 4 3 0
      × (low : GdtEntry) × (high : GdtEntry) × (get_elem? gdt 5 ≡ some low)
      × (get_elem? gdt 6 ≡ some high)
      × (base_of low high ≡ base)
      × (limit_of low + 1 ≡ tss.io_map_base)
      × (tss.rsp0 ≡ stack)
unfolding tss_init gdt_init
tss_init-gdt_init base stack five six fits = (
  record {
    found = entry kernel_code granularity_flat;
    there = refl;
    level_is = refl;
    executable_is = refl;
    present = refl;
  },
  record {
    found = entry kernel_data granularity_flat;
    there = refl;
    level_is = refl;
    executable_is = refl;
    present = refl;
  },
  record {
    found = entry user_code 0x20;
    there = refl;
    level_is = refl;
    executable_is = refl;
    present = refl;
  },
  record {
    found = entry user_data 0x00;
    there = refl;
    level_is = refl;
    executable_is = refl;
    present = refl;
  },
  tss_low base (tss_size - 1),
  tss_high base,
  refl,
  refl,
  base_of-tss base fits,
  refl,
  refl,
)
