-- ===== src/Ports/Logged.antt =====
-- The accesses that code makes to ports.
use shadow_os.Base.{ℕ, List, ◌∷◌}
use shadow_os.Ports.{Ports}

-- an access to a port, with the byte
pub data Access : Type 0 where
  got put : (port byte : ℕ) → Access

-- The same devices, with a list of all accesses, the latest first.
abbrev pub logged : Ports → Ports
logged P = record {
  State = P.State × List Access;
  inb = λ port s. let (v, t) = P.inb port s.0 in (v, (t, got port v ∷ s.1));
  outb = λ port v s. (P.outb port v s.0, put port v ∷ s.1);
  inl = λ port s. let (v, t) = P.inl port s.0 in (v, (t, got port v ∷ s.1));
  outl = λ port v s. (P.outl port v s.0, put port v ∷ s.1);
}
