-- ===== src/Ramfs/Archive/Rounds.antt =====
-- The loop over the headers of an archive ends: each round moves on by a header at least.
use shadow_os.Base.{
  ℕ, ◌+◌, ◌%◌, ◌^◌, ◌≤◌, ◌<◌, ◌≡◌, ◌≢◌, true, false, Bool, Option, none, some, get_elem?,
}
use shadow_os.Base.Outcome.{Outcome, ok, fault, ◌>>=◌}
use shadow_os.Memory.Chars.{Chars}
use shadow_os.Vfs.{Ops}
use shadow_os.Ramfs.Archive.{Loader, round_up, header_size, load_entry, load_from}

module _ (ops_at : ℕ → Ops) (now ramfs_at : ℕ) (new_data : Loader → Option ℕ)
    (kmalloc : ℕ → Option Chars) (fuel root size : ℕ) where
  abbrev entry_at : ℕ → Loader → Outcome (Loader × (ℕ × Bool))
  entry_at = load_entry ops_at now ramfs_at new_data kmalloc fuel root

  -- What the loop comes to from an offset on in finitely many rounds. It ends behind the archive or at
  -- a header without a name, or where the body of a round returns or goes wrong; else the next round
  -- begins behind the contents.
  pub data Loads : ℕ → Loader → Outcome Loader → Type 0 where
    ended : (offset : ℕ) (s : Loader) → size ≤ offset → Loads offset s (ok s)
    outside :
        (offset : ℕ) (s : Loader)
        → offset < size
        → get_elem? s.archive offset ≡ none
        → Loads offset s fault
    terminated :
        (offset : ℕ) (s : Loader)
        → offset < size
        → get_elem? s.archive offset ≡ some 0
        → Loads offset s (ok s)
    fails :
        (offset c : ℕ) (s : Loader) (o : Outcome (Loader × (ℕ × Bool)))
        → offset < size
        → get_elem? s.archive offset ≡ some c
        → c ≢ 0
        → entry_at offset s ≡ o
        → ((r : Loader × (ℕ × Bool)) → o ≢ ok r)
        → Loads offset s (o >>= λ r. ok r.0)
    returns :
        (offset c n : ℕ) (s t : Loader)
        → offset < size
        → get_elem? s.archive offset ≡ some c
        → c ≢ 0
        → entry_at offset s ≡ ok (t, (n, false))
        → Loads offset s (ok t)
    goes_on :
        (offset c n : ℕ) (s t : Loader) (o : Outcome Loader)
        → offset < size
        → get_elem? s.archive offset ≡ some c
        → c ≢ 0
        → entry_at offset s ≡ ok (t, (n, true))
        → Loads ((offset + header_size + round_up n) % 2 ^ 64) t o
        → Loads offset s o

  abbrev loaded : ℕ → ℕ → Loader → Outcome Loader
  loaded k offset s = load_from ops_at now ramfs_at new_data kmalloc fuel k root size offset s

  abbrev next : ℕ → ℕ → ℕ
  next offset n = (offset + header_size + round_up n) % 2 ^ 64
