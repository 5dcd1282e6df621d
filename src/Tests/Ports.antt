-- ===== src/Tests/Ports.antt =====
-- Devices that answer on their ports.
use shadow_os.Base.{
  ℕ, ◌+◌, get_elem?, some, ◌-◌, ◌/◌, ◌%◌, ◌*◌, ◌^◌, ◌≡◌, refl, ◌==◌, if◌then◌else◌, [], arith,
}
use shadow_os.Ports.{Ports}
use shadow_os.Gdt.{GdtEntry, entry, gdt_init, tss_init}
use shadow_os.Gdt.Descriptors.{IsSegment, base_of, limit_of, tss_init-gdt_init}
use shadow_os.Pci.{pci_read, pci_write}
use shadow_os.Pci.Space.{IsConfigSpace, same_register, pci_read-pci_write}
use shadow_os.Idt.{Handler, Idt, gate}
use shadow_os.Pic.{Pic}
use shadow_os.Ports.Logged.{logged}
use shadow_os.Ps2.Polite.{Polite, nothing, init_input-Polite}
use shadow_os.Keyboard.Init.{init_input}

-- the register that is selected, and what each holds
record Bus : Type 0 where
  at : ℕ
  held : ℕ → ℕ

abbrev bus : Ports
bus = record {
  State = Bus;
  inb = λ p s. (0, s);
  outb = λ p v s. s;
  inl = λ p s. (s.held s.at, s);
  outl = λ p v s.
      if p == 0xCF8
      then record s { at = v }
      else record s { held = λ b. if b == s.at then v else s.held b };
}

bus-IsConfigSpace : IsConfigSpace bus
bus-IsConfigSpace = record {
  Writable = λ a. Unit;
  space = λ s. s.held;
  selected = λ s. s.at;
  selects = λ a s. refl;
  select-space = λ a b s. refl;
  reads = λ s. refl;
  writes = λ v b s can. refl;
}

abbrev silent : Bus
silent = record { at = 0; held = λ b. 0 }

pci_read-pci_write_example :
    (pci_read bus 0 3 1 0x3E (pci_write bus 0 3 1 0x3C 0xABCD_0001 silent)).0
    ≡ (if same_register 0 3 1 0x3E 0 3 1 0x3C then 0xABCD_0001 else 0) / 2 ^ (0x3E % 4 * 8)
unfolding bus-IsConfigSpace
pci_read-pci_write_example =
    pci_read-pci_write bus bus-IsConfigSpace 0 3 1 0x3C 0 3 1 0x3E 0xABCD_0001 silent tt

-- a controller with a reply that waits, one more than the byte, or 0 for none
abbrev controller : Ports
controller = record {
  State = ℕ;
  inb = λ p s. if p == 0x64 then (if s == 0 then 0 else 1, s) else (s - 1, 0);
  outb =
      λ p v s. if v == 0xAA then 0x56 else if v == 0x20 then 1 else if v == 0xFF then 0xFB else s;
  inl = λ p s. (0, s);
  outl = λ p v s. s;
}

abbrev no_gates : Idt
no_gates = record { gates = λ v. gate 0 0; handlers = λ v. Handler.null }

abbrev masked : Pic
masked = record { curmask = 0xFFFF; master_data = 0xFF; slave_data = 0xFF; commands = [] }

init_input-Polite_example :
    Polite (init_input (logged controller) 2 4096 no_gates masked (7, [])).0.1
init_input-Polite_example = init_input-Polite controller 2 4096 no_gates masked 7 [] nothing

tss_init-gdt_init_example :
    let (gdt, tss) = tss_init 0xFFFF8000_0012_3450 4096 (gdt_init (entry 0 0) (entry 0 0)) in
    IsSegment gdt 1 0 1
    × IsSegment gdt 2 0 0
    × IsSegment gdt 3 3 1
    × IsSegment gdt 4 3 0
    × (low : GdtEntry) × (high : GdtEntry) × (get_elem? gdt 5 ≡ some low)
    × (get_elem? gdt 6 ≡ some high)
    × (base_of low high ≡ 0xFFFF8000_0012_3450)
    × (limit_of low + 1 ≡ tss.io_map_base)
    × (tss.rsp0 ≡ 4096)
tss_init-gdt_init_example =
    tss_init-gdt_init 0xFFFF8000_0012_3450 4096 (entry 0 0) (entry 0 0) (omega arith)
