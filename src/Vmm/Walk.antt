-- ===== src/Vmm/Walk.antt =====
-- A mapping is what a translation finds, and an unmapping takes it back, where the tables exist.
use shadow_os.Base.{
  ℕ, ◌+◌, ◌-◌, ◌*◌, ◌/◌, ◌%◌, ◌^◌, ◌≤◌, ◌<◌, ◌≡◌, refl, true, bit_or, arith, ◌⊎◌, ap, ◌∙◌,
}
use shadow_os.Base.Bits.{bit_and-low, bit_and-shift, bit_or-add, bit_or_comm}
use shadow_os.Pmm.{Pmm}
use shadow_os.Vmm.Words.{read_bytes-put_bytes, read_bytes-put_bytes_ne}
use shadow_os.Vmm.{
  index, is_present, frame, entry, set_entry, virt_to_phys, unmap, descend, vmm_map,
}

pub frame_lem : (e : ℕ) → frame e ≡ e / 4096 % 2 ^ 40 * 4096
unfolding frame
frame_lem e = omega (arith, bit_and-shift 12 e (2 ^ 40 - 1), bit_and-low 40 (e / 2 ^ 12))

-- The three upper tables are there, and the last entry is none of theirs.
pub record Walk (s : Pmm) (pagemap virt : ℕ) : Type 0 where
  pub pml3 : ℕ
  pub pml2 : ℕ
  pub pml1 : ℕ
  pub has_pml3 : is_present (entry s pagemap (index 39 virt)) ≡ true
  pub has_pml2 : is_present (entry s pml3 (index 30 virt)) ≡ true
  pub has_pml1 : is_present (entry s pml2 (index 21 virt)) ≡ true
  pub pml3_at : frame (entry s pagemap (index 39 virt)) ≡ pml3
  pub pml2_at : frame (entry s pml3 (index 30 virt)) ≡ pml2
  pub pml1_at : frame (entry s pml2 (index 21 virt)) ≡ pml1

-- A write to the word at `a` does not touch the word at `b`.
abbrev pub Apart : ℕ → ℕ → Type 0
Apart a b = (a + 8 ≤ b) ⊎ (b + 8 ≤ a)

entry-set_entry : (s : Pmm) (t i v : ℕ) → v < 2 ^ 64 → entry (set_entry s t i v) t i ≡ v
unfolding entry set_entry
entry-set_entry s t i v h = read_bytes-put_bytes 8 s.mem (t + i * 8) v (omega arith)

entry-set_entry_ne :
    (s : Pmm) (t i u j v : ℕ)
    → Apart (t + i * 8) (u + j * 8)
    → entry (set_entry s t i v) u j ≡ entry s u j
unfolding entry set_entry
entry-set_entry_ne s t i u j v h = read_bytes-put_bytes_ne 8 s.mem (t + i * 8) (u + j * 8) v h

-- the address of the last entry of a walk
abbrev pub last_entry : {s : Pmm} {pagemap virt : ℕ} → Walk s pagemap virt → ℕ
last_entry {virt = virt} w = w.pml1 + index 12 virt * 8

-- The last entry of the walk is none of the entries that lead to it.
pub record IsProper {s : Pmm} {pagemap virt : ℕ} (w : Walk s pagemap virt) : Type 0 where
  pub below_pml4 : Apart (last_entry w) (pagemap + index 39 virt * 8)
  pub below_pml3 : Apart (last_entry w) (w.pml3 + index 30 virt * 8)
  pub below_pml2 : Apart (last_entry w) (w.pml2 + index 21 virt * 8)

module _ (s : Pmm) (pagemap virt : ℕ) (w : Walk s pagemap virt) where
  virt_to_phys_lem : virt_to_phys s pagemap virt ≡ frame (entry s w.pml1 (index 12 virt))
  unfolding virt_to_phys
  virt_to_phys_lem =
      rw (w.has_pml3, w.pml3_at, w.has_pml2, w.pml2_at, w.has_pml1, w.pml1_at, virt_to_phys) refl

  vmm_map_lem :
      (hhdm phys flags : ℕ)
      → vmm_map hhdm pagemap virt phys flags s
        ≡ set_entry s w.pml1 (index 12 virt) (bit_or phys flags)
  unfolding vmm_map descend
  vmm_map_lem hhdm phys flags =
      rw (w.has_pml3, w.pml3_at, w.has_pml2, w.pml2_at, w.has_pml1, w.pml1_at, descend, vmm_map)
        refl

  unmap_lem : unmap pagemap virt s ≡ set_entry s w.pml1 (index 12 virt) 0
  unfolding unmap
  unmap_lem = rw (w.has_pml3, w.pml3_at, w.has_pml2, w.pml2_at, w.has_pml1, w.pml1_at, unmap) refl

  -- The walk is the same after a write to its last entry.
  Walk-set_entry : (v : ℕ) → IsProper w → Walk (set_entry s w.pml1 (index 12 virt) v) pagemap virt
  Walk-set_entry v h = record {
    pml3 = w.pml3;
    pml2 = w.pml2;
    pml1 = w.pml1;
    has_pml3 =
        rw (entry-set_entry_ne s w.pml1 (index 12 virt) pagemap (index 39 virt) v h.below_pml4)
          w.has_pml3;
    has_pml2 =
        rw (entry-set_entry_ne s w.pml1 (index 12 virt) w.pml3 (index 30 virt) v h.below_pml3)
          w.has_pml2;
    has_pml1 =
        rw (entry-set_entry_ne s w.pml1 (index 12 virt) w.pml2 (index 21 virt) v h.below_pml2)
          w.has_pml1;
    pml3_at =
        rw (entry-set_entry_ne s w.pml1 (index 12 virt) pagemap (index 39 virt) v h.below_pml4)
          w.pml3_at;
    pml2_at =
        rw (entry-set_entry_ne s w.pml1 (index 12 virt) w.pml3 (index 30 virt) v h.below_pml3)
          w.pml2_at;
    pml1_at =
        rw (entry-set_entry_ne s w.pml1 (index 12 virt) w.pml2 (index 21 virt) v h.below_pml2)
          w.pml1_at;
  }

-- A translation finds what was written to the last entry of the walk.
virt_to_phys-set_entry :
    (s : Pmm) (pagemap virt : ℕ) (w : Walk s pagemap virt) (v : ℕ)
    → v < 2 ^ 64
    → IsProper w
    → virt_to_phys (set_entry s w.pml1 (index 12 virt) v) pagemap virt ≡ frame v
unfolding Walk-set_entry frame
virt_to_phys-set_entry s pagemap virt w v small h =
    virt_to_phys_lem (set_entry s w.pml1 (index 12 virt) v) pagemap virt
      (Walk-set_entry s pagemap virt w v h)
    ∙ ap frame (entry-set_entry s w.pml1 (index 12 virt) v small)

-- A page number with flags in the low twelve bits.
frame-bit_or :
    (q flags : ℕ) → q < 2 ^ 40 → flags < 4096 → frame (bit_or (q * 4096) flags) ≡ q * 4096
frame-bit_or q flags hq hf = omega (
  arith,
  frame_lem (bit_or (q * 4096) flags),
  bit_or_comm (q * 4096) flags,
  bit_or-add 12 flags q hf,
)

-- Where the tables of an address exist, and its entry is none of theirs, vmm_map of a page below
-- 2^52 with flags in the low twelve bits makes the address translate to that page.
pub virt_to_phys-vmm_map :
    (hhdm pagemap virt q flags : ℕ) (s : Pmm) (w : Walk s pagemap virt)
    → IsProper w
    → q < 2 ^ 40
    → flags < 4096
    → virt_to_phys (vmm_map hhdm pagemap virt (q * 4096) flags s) pagemap virt ≡ q * 4096
virt_to_phys-vmm_map hhdm pagemap virt q flags s w h hq hf =
    rw (vmm_map_lem s pagemap virt w hhdm (q * 4096) flags) (
      virt_to_phys-set_entry s pagemap virt w (bit_or (q * 4096) flags)
        (omega (arith, bit_or_comm (q * 4096) flags, bit_or-add 12 flags q hf)) h
      ∙ frame-bit_or q flags hq hf)

-- Where the tables of an address exist, and its entry is none of theirs, the address translates to
-- nothing after vmm_unmap, whatever it was mapped to.
pub virt_to_phys-unmap :
    (pagemap virt : ℕ) (s : Pmm) (w : Walk s pagemap virt)
    → IsProper w
    → virt_to_phys (unmap pagemap virt s) pagemap virt ≡ 0
virt_to_phys-unmap pagemap virt s w h =
    rw (unmap_lem s pagemap virt w)
      (virt_to_phys-set_entry s pagemap virt w 0 (omega arith) h ∙ frame_lem 0)
