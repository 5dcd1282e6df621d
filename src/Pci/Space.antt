-- ===== src/Pci/Space.antt =====
-- Reads and writes of the configuration space meet at the same register only.
use shadow_os.Base.{
  ℕ, ◌+◌, ◌*◌, ◌/◌, ◌%◌, ◌^◌, ◌<◌, ◌≡◌, refl, ◌∙◌, ap, ◌==◌, ◌&&◌, Bool, if◌then◌else◌, bit_or,
  arith,
}
use shadow_os.Base.Bits.{bit_or-add, bit_or_comm, bit_and-low, bit_and-shift}
use shadow_os.Ports.{Ports}
use shadow_os.Pci.{address, pci_read, pci_write}

or_low : (k x y m : ℕ) → x ≡ m * 2 ^ k → y < 2 ^ k → bit_or x y ≡ x + y
or_low k x y m e h = bit_or_comm x y ∙ rw e (bit_or-add k y m h ∙ omega arith)

-- The fields stand beside each other.
pub address-eq :
    (bus device function regoffset : ℕ)
    → address bus device function regoffset
      ≡ 2 ^ 31
        + bus % 256 * 2 ^ 16
        + device % 32 * 2 ^ 11
        + function % 8 * 2 ^ 8
        + regoffset / 4 % 64 * 4
unfolding address
address-eq bus device function regoffset =
    let b = bus % 256 * 2 ^ 16 in
    let d = device % 32 * 2 ^ 11 in
    let f = function % 8 * 2 ^ 8 in
    let r = regoffset / 4 % 64 * 4 in
    let m = (2 ^ 15 + bus % 256) * 32 + device % 32 in
    let or_b = or_low 31 (2 ^ 31) b 1 (omega arith) (omega arith) in
    let or_d = or_low 16 (2 ^ 31 + b) d (2 ^ 15 + bus % 256) (omega arith) (omega arith) in
    let or_f = or_low 11 (2 ^ 31 + b + d) f m (omega arith) (omega arith) in
    let or_r = or_low 8 (2 ^ 31 + b + d + f) r (m * 8 + function % 8) (omega arith) (omega arith) in
    rw
      (
        bit_and-low 8 bus,
        bit_and-low 5 device,
        bit_and-low 3 function,
        bit_and-shift 2 regoffset 63,
        bit_and-low 6 (regoffset / 4),
      )
      (rw (or_b, or_d, or_f, or_r) refl)

-- What the configuration mechanism of the PCI bus promises: one port selects a register of 32 bits,
-- the other reads it, or writes it where it can be written.
pub record IsConfigSpace (P : Ports) : Type 1 where
  pub Writable : ℕ → Type 0
  pub space : P.State → ℕ → ℕ
  pub selected : P.State → ℕ
  pub selects : (a : ℕ) (s : P.State) → selected (P.outl 0xCF8 a s) ≡ a
  pub select-space : (a b : ℕ) (s : P.State) → space (P.outl 0xCF8 a s) b ≡ space s b
  pub reads : (s : P.State) → (P.inl 0xCFC s).0 ≡ space s (selected s)
  pub writes :
      (v b : ℕ) (s : P.State)
      → Writable (selected s)
      → space (P.outl 0xCFC v s) b ≡ (if b == selected s then v else space s b)

-- Whether two registers of functions are the same, by the bits that the address has room for.
abbrev pub same_register : (bus device function reg bus' device' function' reg' : ℕ) → Bool
same_register bus device function reg bus' device' function' reg' =
    (bus % 256 == bus' % 256)
    && (device % 32 == device' % 32)
    && (function % 8 == function' % 8)
    && (reg / 4 % 64 == reg' / 4 % 64)

address-same :
    (bus device function reg bus' device' function' reg' : ℕ)
    → (address bus device function reg == address bus' device' function' reg')
      ≡ same_register bus device function reg bus' device' function' reg'
address-same bus device function reg bus' device' function' reg' =
    rw (address-eq bus device function reg, address-eq bus' device' function' reg') (ground arith)

-- On a bus with that mechanism, pci_read behind a pci_write of a register that can be written gives
-- the bytes of what was written, from the offset of the read on, where both name the same register,
-- and what the register held before where they do not.
pub pci_read-pci_write :
    (P : Ports) (C : IsConfigSpace P)
    (bus device function reg bus' device' function' reg' data_word : ℕ) (s : P.State)
    → C.Writable (address bus device function reg)
    → (pci_read P bus' device' function' reg' (pci_write P bus device function reg data_word s)).0
      ≡ (if same_register bus' device' function' reg' bus device function reg
          then data_word
          else C.space s (address bus' device' function' reg'))
        / 2 ^ (reg' % 4 * 8)
unfolding pci_read pci_write
pci_read-pci_write P C bus device function reg bus' device' function' reg' data_word s can =
    let a = address bus device function reg in
    let a' = address bus' device' function' reg' in
    let t = P.outl 0xCF8 a s in
    let here = C.selects a s in
    let u = P.outl 0xCFC data_word t in
    let there = C.selects a' u in
    let value : C.space u a' ≡ (if a' == a then data_word else C.space s a') =
      C.writes data_word a' t (rw here can) ∙ rw (here, C.select-space a a' s) refl in
    let got : (P.inl 0xCFC (P.outl 0xCF8 a' u)).0 ≡ C.space u a' =
      C.reads (P.outl 0xCF8 a' u) ∙ rw there (C.select-space a' a' u) in
    let same = address-same bus' device' function' reg' bus device function reg in
    ap (λ x. x / 2 ^ (reg' % 4 * 8))
      (got ∙ value ∙ ap (λ b. if b then data_word else C.space s a') same)
