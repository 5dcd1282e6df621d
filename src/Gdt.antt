-- ===== src/Gdt.antt =====
-- kernel/src/sys/gdt.c and gdt.h: the table of segments, and the descriptor of the task state segment.
pub mod Descriptors
use shadow_os.Base.{ℕ, ◌+◌, ◌-◌, ◌/◌, ◌%◌, ◌^◌, bit_and, bit_or, List, [], ◌∷◌, set}

-- `gdt_entry_t`
pub record GdtEntry : Type 0 where
  pub limit_low : ℕ
  pub base_low : ℕ
  pub base_middle : ℕ
  pub access : ℕ
  pub granularity : ℕ
  pub base_high : ℕ

abbrev pub entry : (access granularity : ℕ) → GdtEntry
entry access granularity = record {
  limit_low = 0;
  base_low = 0;
  base_middle = 0;
  access = access;
  granularity = granularity;
  base_high = 0;
}

-- GDT_KERNEL_CODE, GDT_KERNEL_DATA, GDT_USER_CODE, GDT_USER_DATA, GDT_TSS and GDT_GRANULARITY_FLAT
abbrev pub kernel_code : ℕ
kernel_code = bit_or (bit_or (bit_or (bit_or 0x80 0x00) 0x18) 0x08) 0x02

abbrev pub kernel_data : ℕ
kernel_data = bit_or (bit_or (bit_or 0x80 0x00) 0x10) 0x02

abbrev pub user_code : ℕ
user_code = bit_or (bit_or (bit_or (bit_or 0x80 0x60) 0x18) 0x08) 0x02

abbrev pub user_data : ℕ
user_data = bit_or (bit_or (bit_or 0x80 0x60) 0x10) 0x02

abbrev pub tss_access : ℕ
tss_access = 0xE9

abbrev pub granularity_flat : ℕ
granularity_flat = bit_or 0x80 0x20

-- gdt_init, on the two entries behind those that it sets
unfoldable pub gdt_init : GdtEntry → GdtEntry → List GdtEntry
gdt_init five six =
    entry 0x00 0x00
    ∷ entry kernel_code granularity_flat
    ∷ entry kernel_data granularity_flat
    ∷ entry user_code 0x20
    ∷ entry user_data 0x00
    ∷ five
    ∷ six
    ∷ []

-- what tss_init sets in `tss`, the rest of which is zero
pub record Tss : Type 0 where
  pub rsp0 : ℕ
  pub io_map_base : ℕ

-- `sizeof(tss_entry_t)`
abbrev pub tss_size : ℕ
tss_size = 104

-- `tss_entry`, as the two entries that its 16 bytes fill
unfoldable pub tss_low : (base limit : ℕ) → GdtEntry
tss_low base limit = record {
  limit_low = bit_and limit 0xFFFF;
  base_low = bit_and base 0xFFFF;
  base_middle = bit_and (base / 2 ^ 16) 0xFF;
  access = tss_access;
  granularity = bit_and (limit / 2 ^ 16) 0x0F;
  base_high = bit_and (base / 2 ^ 24) 0xFF;
}

-- `base_upper` and `reserved`
unfoldable pub tss_high : (base : ℕ) → GdtEntry
tss_high base = record (entry 0 0) { limit_low = base / 2 ^ 32 % 2 ^ 16; base_low = base / 2 ^ 48 }

-- tss_init, with the address of `tss`
unfoldable pub tss_init : (base stack : ℕ) → List GdtEntry → List GdtEntry × Tss
unfolding tss_low tss_high
tss_init base stack gdt = (
  set (set gdt 5 (tss_low base (tss_size - 1))) 6 (tss_high base),
  record { rsp0 = stack; io_map_base = tss_size },
)
