-- ===== src/Pic/Ports.antt =====
-- The data ports of the interrupt controllers hold the mask that the kernel keeps.
use shadow_os.Base.{
  ℕ, zero, suc, ◌+◌, ◌-◌, ◌*◌, ◌/◌, ◌%◌, ◌^◌, ◌<◌, ◌≤◌, ◌≡◌, refl, sym, ◌∙◌, ap, bit_and, bit_or,
  ltb, leb, arith, Bool-cases, inl, inr, max, min,
}
use native.Mathlib.Nat.{
  pow-suc, mul_comm, div-one, mod-one, div-div-eq-div-mul, div-eq_of_lt, mul-mod_left,
}
use shadow_os.Base.Bits.{
  bit_or_step, bit_and_step, bit_and-low, bit_or-zero, bit_and-zero, mod_twice, pow-pos,
}
use shadow_os.Pic.{Pic, mask, unmask, maskall, eoi, pic_init}

-- An operation on binary digits, one by one.
module _ (f g : ℕ → ℕ → ℕ) (digits : (a b : ℕ) → f a b ≡ f (a / 2) (b / 2) * 2 + g (a % 2) (b % 2))
    (digit : (a b : ℕ) → g (a % 2) (b % 2) < 2) where
  high_part : (j a b : ℕ) → f a b / 2 ^ j ≡ f (a / 2 ^ j) (b / 2 ^ j)
  high_part zero a b = rw (div-one (f a b), div-one a, div-one b) refl
  high_part (suc j) a b =
      let halves : f a b / 2 ≡ f (a / 2) (b / 2) = omega (arith, digits a b, digit a b) in
      rw
        (
          pow-suc 2 j,
          mul_comm (2 ^ j) 2,
          sym (div-div-eq-div-mul (f a b) 2 (2 ^ j)),
          halves,
          sym (div-div-eq-div-mul a 2 (2 ^ j)),
          sym (div-div-eq-div-mul b 2 (2 ^ j)),
        )
        (high_part j (a / 2) (b / 2))

  low_part : (j a b : ℕ) → f a b % 2 ^ j ≡ f (a % 2 ^ j) (b % 2 ^ j) % 2 ^ j
  low_part zero a b = rw (mod-one (f a b), mod-one a, mod-one b, mod-one (f 0 0)) refl
  low_part (suc j) a b =
      let p = 2 ^ j in
      let whole = pow-suc 2 j in
      let half_a : a % (p * 2) / 2 ≡ a / 2 % p = omega (arith, mod_twice p a (pow-pos j)) in
      let half_b : b % (p * 2) / 2 ≡ b / 2 % p = omega (arith, mod_twice p b (pow-pos j)) in
      let bit_a : a % (p * 2) % 2 ≡ a % 2 = omega (arith, mod_twice p a (pow-pos j)) in
      let bit_b : b % (p * 2) % 2 ≡ b % 2 = omega (arith, mod_twice p b (pow-pos j)) in
      let below = rw (half_a, half_b, bit_a, bit_b) at (digits (a % (p * 2)) (b % (p * 2))) in
      let x = f (a % (p * 2)) (b % (p * 2)) in
      let h1 : f a b / 2 ≡ f (a / 2) (b / 2) = omega (arith, digits a b, digit a b) in
      let d1 : f a b % 2 ≡ g (a % 2) (b % 2) = omega (arith, digits a b, digit a b) in
      let h2 : x / 2 ≡ f (a / 2 % p) (b / 2 % p) = omega (arith, below, digit a b) in
      let d2 : x % 2 ≡ g (a % 2) (b % 2) = omega (arith, below, digit a b) in
      let left = rw (h1, d1) at (mod_twice p (f a b) (pow-pos j)) in
      let right = rw (h2, d2) at (mod_twice p x (pow-pos j)) in
      rw whole (omega (arith, left, right, low_part j (a / 2) (b / 2)))

small_pow : (i : ℕ) → i < 8 → 2 ^ i < 256
small_pow zero h = omega arith
small_pow (suc zero) h = omega arith
small_pow (suc (suc zero)) h = omega arith
small_pow (suc (suc (suc zero))) h = omega arith
small_pow (suc (suc (suc (suc zero)))) h = omega arith
small_pow (suc (suc (suc (suc (suc zero))))) h = omega arith
small_pow (suc (suc (suc (suc (suc (suc zero)))))) h = omega arith
small_pow (suc (suc (suc (suc (suc (suc (suc zero))))))) h = omega arith
small_pow (suc (suc (suc (suc (suc (suc (suc (suc i)))))))) h = absurd (omega arith)

large_pow : (k : ℕ) → 2 ^ (suc (suc (suc (suc (suc (suc (suc (suc k)))))))) ≡ 2 ^ k * 256
large_pow k = omega (
  arith,
  pow-suc 2 k,
  pow-suc 2 (suc k),
  pow-suc 2 (suc (suc k)),
  pow-suc 2 (suc (suc (suc k))),
  pow-suc 2 (suc (suc (suc (suc k)))),
  pow-suc 2 (suc (suc (suc (suc (suc k))))),
  pow-suc 2 (suc (suc (suc (suc (suc (suc k)))))),
  pow-suc 2 (suc (suc (suc (suc (suc (suc (suc k))))))),
)

-- the lines of the second controller
high_line : (i : ℕ) → 8 ≤ i → 2 ^ i ≡ 2 ^ (i - 8) * 256
high_line i h =
    let k = i - 8 in
    let e : i ≡ suc (suc (suc (suc (suc (suc (suc (suc k))))))) = omega arith in
    ap (λ n. 2 ^ n) e ∙ large_pow k

module _ (c : ℕ) (fits : c < 2 ^ 16) where
  or_high : (b : ℕ) → b < 256 → bit_or c b / 256 ≡ c / 256
  or_high b h =
      high_part bit_or max bit_or_step (λ a b. omega arith) 8 c b
      ∙ rw (div-eq_of_lt h) (bit_or-zero (c / 256))

  or_low : (m : ℕ) → bit_or c (m * 256) % 256 ≡ c % 256
  or_low m =
      low_part bit_or max bit_or_step (λ a b. omega arith) 8 c (m * 256)
      ∙ rw (mul-mod_left m 256, bit_or-zero (c % 256)) (omega arith)

  or_fits : (b : ℕ) → b < 2 ^ 16 → bit_or c b < 2 ^ 16
  or_fits b h =
      let over =
        rw (div-eq_of_lt fits, div-eq_of_lt h, bit_or-zero 0) at
          (high_part bit_or max bit_or_step (λ a b. omega arith) 16 c b) in
      omega (arith, over)

  and_fits : (b : ℕ) → b < 2 ^ 16 → bit_and c b < 2 ^ 16
  and_fits b h =
      let over =
        rw (div-eq_of_lt fits, div-eq_of_lt h, bit_and-zero 0) at
          (high_part bit_and min bit_and_step (λ a b. omega arith) 16 c b) in
      omega (arith, over)

  and_high : (b : ℕ) → b / 256 ≡ 255 → bit_and c b / 256 ≡ c / 256
  and_high b h =
      high_part bit_and min bit_and_step (λ a b. omega arith) 8 c b
      ∙ rw h (omega (arith, bit_and-low 8 (c / 256)))

  and_low : (b : ℕ) → b % 256 ≡ 255 → bit_and c b % 256 ≡ c % 256
  and_low b h =
      low_part bit_and min bit_and_step (λ a b. omega arith) 8 c b
      ∙ rw h (omega (arith, bit_and-low 8 (c % 256)))

-- The ports hold the two halves of the mask.
pub record Mirrors (p : Pic) : Type 0 where
  pub master : p.master_data ≡ p.curmask % 256
  pub slave : p.slave_data ≡ p.curmask / 256
  pub fits : p.curmask < 2 ^ 16

mask-Mirrors : (i : ℕ) (p : Pic) → i < 16 → Mirrors p → Mirrors (mask i p)
unfolding mask
mask-Mirrors i p lt m = elim (Bool-cases (ltb i 8)) [
  | inl low ↦
      let small = small_pow i (ground (arith, low)) in
      let same = or_high p.curmask m.fits (2 ^ i) small in
      let fits = or_fits p.curmask m.fits (2 ^ i) (omega arith) in
      rw low (record {
        master = omega (arith, bit_and-low 8 (bit_or p.curmask (2 ^ i) % 2 ^ 16));
        slave = omega (arith, m.slave, same, fits);
        fits = omega arith;
      })
  | inr high ↦
      let line = high_line i (ground (arith, high)) in
      let same = rw (sym line) at (or_low p.curmask m.fits (2 ^ (i - 8))) in
      rw high (record {
        master = omega (arith, m.master, same);
        slave = omega (arith, bit_and-low 8 (bit_or p.curmask (2 ^ i) % 2 ^ 16 / 2 ^ 8));
        fits = omega arith;
      })
]

unmask-Mirrors : (i : ℕ) (p : Pic) → i < 16 → Mirrors p → Mirrors (unmask i p)
unfolding unmask
unmask-Mirrors i p lt m = elim (Bool-cases (ltb i 8)) [
  | inl low ↦
      let small = small_pow i (ground (arith, low)) in
      let same = and_high p.curmask m.fits b (omega (arith, small)) in
      rw low (record {
        master = omega (arith, bit_and-low 8 (bit_and p.curmask b));
        slave = omega (arith, m.slave, same);
        fits = and_fits p.curmask m.fits b (omega arith);
      })
  | inr high ↦
      let line = high_line i (ground (arith, high)) in
      let small = small_pow (i - 8) (ground (arith, high, lt)) in
      let same = and_low p.curmask m.fits b (omega (arith, line, small)) in
      let fits = and_fits p.curmask m.fits b (omega arith) in
      rw high (record {
        master = omega (arith, m.master, same);
        slave = omega (arith, fits, bit_and-low 8 (bit_and p.curmask b / 2 ^ 8));
        fits = fits;
      })
]
  where
    b : ℕ
    b = 2 ^ 16 - 1 - 2 ^ i

-- the states that the operations lead to from pic_init on
pub data Reached : Pic → Type 0 where
  initial : (p : Pic) → Reached (pic_init p)
  all_masked : {p : Pic} → Reached p → Reached (maskall p)
  masked : {p : Pic} → Reached p → (i : ℕ) → i < 16 → Reached (mask i p)
  unmasked : {p : Pic} → Reached p → (i : ℕ) → i < 16 → Reached (unmask i p)
  ended : {p : Pic} → Reached p → (i : ℕ) → Reached (eoi i p)

-- In every state that the operations lead to, the data ports of the two controllers hold the low and
-- the high half of the mask.
pub Reached-Mirrors : {p : Pic} → Reached p → Mirrors p
unfolding pic_init maskall eoi
Reached-Mirrors (initial p) = record { master = refl; slave = refl; fits = omega arith }
Reached-Mirrors (all_masked r) = record { master = refl; slave = refl; fits = omega arith }
Reached-Mirrors (masked {p} r i h) = mask-Mirrors i p h (Reached-Mirrors r)
Reached-Mirrors (unmasked {p} r i h) = unmask-Mirrors i p h (Reached-Mirrors r)
Reached-Mirrors (ended {p} r i) =
    let m = Reached-Mirrors r in
    elim (Bool-cases (leb 8 i)) [
      | inl slave_too ↦ rw slave_too (record { master = m.master; slave = m.slave; fits = m.fits })
      | inr alone ↦ rw alone (record { master = m.master; slave = m.slave; fits = m.fits })
    ]
