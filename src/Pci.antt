-- ===== src/Pci.antt =====
-- kernel/src/sys/pci.c: the configuration space of PCI devices, through two ports.
pub mod Space
use shadow_os.Base.{ℕ, ◌+◌, ◌*◌, ◌/◌, ◌%◌, ◌^◌, bit_and, bit_or}
use shadow_os.Ports.{Ports}

-- `id`; the first shift is of an int
pub address : (bus device function regoffset : ℕ) → ℕ
address bus device function regoffset =
    bit_or
      (bit_or (bit_or (bit_or (2 ^ 31) (bit_and bus 0xFF * 2 ^ 16)) (bit_and device 0x1F * 2 ^ 11))
        (bit_and function 0x07 * 2 ^ 8))
      (bit_and regoffset 0xFC)

-- `pci_device_t`; `base` is never set
pub record PciDevice : Type 0 where
  pub interrupt : ℕ
  pub bus : ℕ
  pub device : ℕ
  pub function : ℕ
  pub vendor_id : ℕ
  pub device_id : ℕ
  pub class_id : ℕ
  pub subclass_id : ℕ
  pub interface_id : ℕ
  pub revision : ℕ

module _ (P : Ports) where
  unfoldable pub pci_read : (bus device function regoffset : ℕ) → P.State → ℕ × P.State
  pci_read bus device function regoffset s =
      let (result, t) = P.inl 0xCFC (P.outl 0xCF8 (address bus device function regoffset) s) in
      (result / 2 ^ (regoffset % 4 * 8), t)

  unfoldable pub pci_write : (bus device function regoffset data_word : ℕ) → P.State → P.State
  pci_write bus device function regoffset data_word s =
      P.outl 0xCFC data_word (P.outl 0xCF8 (address bus device function regoffset) s)

  -- What is read becomes a uint16_t or a uint8_t, but for the interrupt.
  pub get_device_descriptor : (bus device function : ℕ) → P.State → PciDevice × P.State
  unfolding pci_read
  get_device_descriptor bus device function s =
      let (vendor_id, s1) = pci_read bus device function 0x00 s in
      let (device_id, s2) = pci_read bus device function 0x02 s1 in
      let (class_id, s3) = pci_read bus device function 0x0b s2 in
      let (subclass_id, s4) = pci_read bus device function 0x0a s3 in
      let (interface_id, s5) = pci_read bus device function 0x09 s4 in
      let (revision, s6) = pci_read bus device function 0x08 s5 in
      let (interrupt, s7) = pci_read bus device function 0x3c s6 in
      (
        record {
          interrupt = interrupt;
          bus = bus;
          device = device;
          function = function;
          vendor_id = vendor_id % 2 ^ 16;
          device_id = device_id % 2 ^ 16;
          class_id = class_id % 2 ^ 8;
          subclass_id = subclass_id % 2 ^ 8;
          interface_id = interface_id % 2 ^ 8;
          revision = revision % 2 ^ 8;
        },
        s7,
      )
