-- ===== src/Vmm/Words.antt =====
-- Words of eight bytes, the low byte first, in the memory of kernel/src/mm/vmm.c.
use shadow_os.Base.{ℕ, zero, suc, ◌+◌, ◌*◌, ◌/◌, ◌%◌, ◌^◌, ◌≤◌, ◌<◌, ◌≡◌, refl, ◌⊎◌, arith}
use native.Mathlib.Nat.{pow-suc}
use shadow_os.Memory.Block.{Bytes, poke}

unfoldable pub read_bytes : ℕ → Bytes → ℕ → ℕ
read_bytes zero m a = 0
read_bytes (suc n) m a = m a + 256 * read_bytes n m (a + 1)

unfoldable pub put_bytes : ℕ → Bytes → ℕ → ℕ → Bytes
put_bytes zero m a v = m
put_bytes (suc n) m a v = put_bytes n (poke m a (v % 256)) (a + 1) (v / 256)

-- an access of type uint64_t
abbrev pub read_word : Bytes → ℕ → ℕ
read_word m a = read_bytes 8 m a

abbrev pub put_word : Bytes → ℕ → ℕ → Bytes
put_word m a v = put_bytes 8 m a v

put_bytes-outside :
    (n : ℕ) (m : Bytes) (a v b : ℕ) → (b < a) ⊎ (a + n ≤ b) → put_bytes n m a v b ≡ m b
unfolding put_bytes
put_bytes-outside zero m a v b h = refl
put_bytes-outside (suc n) m a v b h =
    ground (arith, put_bytes-outside n (poke m a (v % 256)) (a + 1) (v / 256) b)

pub read_bytes-put_bytes :
    (n : ℕ) (m : Bytes) (a v : ℕ) → v < 256 ^ n → read_bytes n (put_bytes n m a v) a ≡ v
unfolding read_bytes put_bytes
read_bytes-put_bytes zero m a v h = omega arith
read_bytes-put_bytes (suc n) m a v h =
    let small : v / 256 < 256 ^ n = omega (arith, pow-suc 256 n) in
    ground (
      arith,
      put_bytes-outside n (poke m a (v % 256)) (a + 1) (v / 256) a,
      read_bytes-put_bytes n (poke m a (v % 256)) (a + 1) (v / 256) small,
    )

-- Two memories that agree on the bytes that are read.
read_bytes-same :
    (n : ℕ) (m m' : Bytes) (a : ℕ)
    → ((i : ℕ) → a ≤ i → i < a + n → m i ≡ m' i)
    → read_bytes n m a ≡ read_bytes n m' a
unfolding read_bytes
read_bytes-same zero m m' a h = refl
read_bytes-same (suc n) m m' a h = omega (
  arith,
  h a (omega arith) (omega arith),
  read_bytes-same n m m' (a + 1) (λ i p q. h i (omega arith) (omega arith)),
)

pub read_bytes-put_bytes_ne :
    (n : ℕ) (m : Bytes) (a b v : ℕ)
    → (a + n ≤ b) ⊎ (b + n ≤ a)
    → read_bytes n (put_bytes n m a v) b ≡ read_bytes n m b
read_bytes-put_bytes_ne n m a b v h =
    read_bytes-same n (put_bytes n m a v) m b (λ i p q. put_bytes-outside n m a v i (ground arith))
