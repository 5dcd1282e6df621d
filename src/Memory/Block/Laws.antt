-- ===== src/Memory/Block/Laws.antt =====
-- What the block functions leave at every address, overlapping or not.
use shadow_os.Base.{
  ℕ, zero, suc, ◌+◌, ◌-◌, ◌%◌, ◌≤◌, ◌<◌, ◌≡◌, ◌≢◌, refl, ◌⊎◌, ◌↔◌, ◌&&◌, arith, ltb, leb, Bool,
  if◌then◌else◌, pos, negsuc,
}
use native.Mathlib.Nat.{add-zero}
use shadow_os.Memory.Block.{Bytes, poke, copy_up, copy_down, memcpy, memset, memmove, memcmp}

-- `a` lies in the `n` bytes from `d`.
abbrev pub within : ℕ → ℕ → ℕ → Bool
within d n a = leb d a && ltb a (d + n)

-- The memory in which the `n` bytes from `d` are those that `m` has from `s`.
abbrev pub moved : ℕ → ℕ → ℕ → Bytes → Bytes
moved d s n m a = if within d n a then m (s + (a - d)) else m a

copy_up-moved :
    (d s n : ℕ) (m : Bytes) (a : ℕ) → (d ≤ s) ⊎ (s + n ≤ d) → copy_up d s n m a ≡ moved d s n m a
unfolding copy_up
copy_up-moved d s zero m a h = ground arith
copy_up-moved d s (suc n) m a h = ground (arith, copy_up-moved (d + 1) (s + 1) n (poke m d (m s)) a)

-- The loop that runs down writes the last byte first.
copy_down-moved :
    (d s n : ℕ) (m : Bytes) (a : ℕ) → s ≤ d → copy_down (d + n) (s + n) n m a ≡ moved d s n m a
unfolding copy_down
copy_down-moved d s zero m a h = ground arith
copy_down-moved d s (suc n) m a h =
    let d' : d + suc n - 1 ≡ d + n = omega arith in
    let s' : s + suc n - 1 ≡ s + n = omega arith in
    rw (d', s') (ground (arith, copy_down-moved d s n (poke m (d + n) (m (s + n))) a h))

-- memmove copies the source as it was before the call, however the two blocks overlap, and
-- changes no byte outside the destination.
pub memmove-moved :
    (dest src n : ℕ) (m : Bytes) (a : ℕ) → memmove dest src n m a ≡ moved dest src n m a
unfolding memmove
memmove-moved dest src n m a =
    ground (arith, copy_up-moved dest src n m a, copy_down-moved dest src n m a)

-- memcpy copies the source as it was before the call, and changes no byte outside the destination,
-- where the destination does not begin inside the source behind its start.
pub memcpy-moved :
    (dest src n : ℕ) (m : Bytes) (a : ℕ)
    → (dest ≤ src) ⊎ (src + n ≤ dest)
    → memcpy dest src n m a ≡ moved dest src n m a
unfolding memcpy
memcpy-moved dest src n m a h = copy_up-moved dest src n m a h

-- memset writes the low byte of `c` to exactly the `n` bytes from `p`.
pub memset_lem :
    (p c n : ℕ) (m : Bytes) (a : ℕ) → memset p c n m a ≡ (if within p n a then c % 256 else m a)
unfolding memset
memset_lem p c zero m a = ground arith
memset_lem p c (suc n) m a = ground (arith, memset_lem (p + 1) c n (poke m p (c % 256)) a)

-- Two blocks agree on their first `n` bytes.
abbrev pub Agree : ℕ → ℕ → ℕ → Bytes → Type 0
Agree p q n m = (i : ℕ) → i < n → m (p + i) ≡ m (q + i)

Agree-tail : (p q n : ℕ) (m : Bytes) → Agree p q (suc n) m → Agree (p + 1) (q + 1) n m
Agree-tail p q n m h i lt = ground (arith, h (i + 1))

-- memcmp is decided by the first byte at which the blocks differ: it is -1 where that of the first
-- block is smaller, 1 where it is larger.
pub memcmp_first :
    (p q n k : ℕ) (m : Bytes)
    → k < n
    → Agree p q k m
    → m (p + k) ≢ m (q + k)
    → memcmp p q n m ≡ (if ltb (m (p + k)) (m (q + k)) then negsuc 0 else pos 1)
unfolding memcmp
memcmp_first p q zero k m lt same ne = absurd (omega arith)
memcmp_first p q (suc n) zero m lt same ne = ground (arith, add-zero p, add-zero q)
memcmp_first p q (suc n) (suc k) m lt same ne =
    ground
      (arith, same 0, memcmp_first (p + 1) (q + 1) n k m (omega arith) (Agree-tail p q k m same))

memcmp-Agree : (p q n : ℕ) (m : Bytes) → memcmp p q n m ≡ pos 0 → Agree p q n m
unfolding memcmp
memcmp-Agree p q zero m h i lt = absurd (omega arith)
memcmp-Agree p q (suc n) m h zero lt = ground (arith, add-zero p, add-zero q)
memcmp-Agree p q (suc n) m h (suc i) lt =
    ground (arith, memcmp-Agree (p + 1) (q + 1) n m (ground arith) i)

memcmp-eq-zero : (p q n : ℕ) (m : Bytes) → Agree p q n m → memcmp p q n m ≡ pos 0
unfolding memcmp
memcmp-eq-zero p q zero m h = refl
memcmp-eq-zero p q (suc n) m h =
    ground (arith, h 0, memcmp-eq-zero (p + 1) (q + 1) n m (Agree-tail p q n m h))

-- memcmp is 0 exactly when the blocks agree.
pub memcmp-eq-zero_iff : (p q n : ℕ) (m : Bytes) → (memcmp p q n m ≡ pos 0) ↔ Agree p q n m
memcmp-eq-zero_iff p q n m = (memcmp-Agree p q n m, memcmp-eq-zero p q n m)
