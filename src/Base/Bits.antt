-- ===== src/Base/Bits.antt =====
-- Laws of `bit_and` and `bit_or` at variables, from the definitions that the native operations
-- stand for: one digit at a time, for any digit, and for the masks of page-table entries.
use Prim.Native.Nat.{
  ℕ, zero, suc, ◌+◌, ◌-◌, ◌*◌, ◌/◌, ◌%◌, ◌^◌, ◌≤◌, ◌<◌, min, max, bit_and, bit_or, digits,
  bit_and-bitwise, bit_or-bitwise,
}
use mathlib.Core.Path.{◌≡◌, refl, ap, ◌∙◌}
use native.Mathlib.Nat.{
  pow-suc, one-le-pow, mod-lt, mod-eq_of_lt, add-mul-mod_self_left, div-add-mod, mul-one, mul_comm,
  div-one, div-div-eq-div-mul,
}
use native.Mathlib.Omega.{arith}

-- The law that both operations follow, for any number that is made digit by digit: `op` makes a
-- digit, `tail` what is left where the first number has ended.
module _ (tail : ℕ → ℕ) (op : ℕ → ℕ → ℕ) where
  enough_fuel : {a : ℕ} (b n m : ℕ) → a ≤ n → a ≤ m → digits tail op n a b ≡ digits tail op m a b
  enough_fuel {a = zero} b zero zero p q = refl
  enough_fuel {a = zero} b zero (suc m) p q = refl
  enough_fuel {a = zero} b (suc n) zero p q = refl
  enough_fuel {a = zero} b (suc n) (suc m) p q = refl
  enough_fuel {a = suc a} b zero m p q = absurd (omega arith)
  enough_fuel {a = suc a} b (suc n) zero p q = absurd (omega arith)
  enough_fuel {a = suc a} b (suc n) (suc m) p q =
      ap (λ r. r * 2 + op (suc a % 2) (b % 2))
        (enough_fuel {a = suc a / 2} (b / 2) n m (omega arith) (omega arith))

  by_digits :
      (g : ℕ → ℕ → ℕ)
      → ((a b : ℕ) → g a b ≡ digits tail op a a b)
      → ((b : ℕ) → tail b ≡ tail (b / 2) * 2 + op 0 (b % 2))
      → (a b : ℕ) → g a b ≡ g (a / 2) (b / 2) * 2 + op (a % 2) (b % 2)
  by_digits g made ends zero b = omega (arith, made 0 b, made 0 (b / 2), ends b)
  by_digits g made ends (suc a) b = omega (
    arith,
    made (suc a) b,
    made (suc a / 2) (b / 2),
    enough_fuel {a = suc a / 2} (b / 2) a (suc a / 2) (omega arith) (omega arith),
  )

pub bit_or_step : (a b : ℕ) → bit_or a b ≡ bit_or (a / 2) (b / 2) * 2 + max (a % 2) (b % 2)
bit_or_step = by_digits (λ b. b) max bit_or bit_or-bitwise (λ b. omega arith)

pub bit_and_step : (a b : ℕ) → bit_and a b ≡ bit_and (a / 2) (b / 2) * 2 + min (a % 2) (b % 2)
bit_and_step = by_digits (λ b. 0) min bit_and bit_and-bitwise (λ b. omega arith)

pub zero-bit_or : (b : ℕ) → bit_or 0 b ≡ b
zero-bit_or b = bit_or-bitwise 0 b

-- With 0 on the right, at numbers below a bound.
below_bound : (k a : ℕ) → a < k → (bit_and a 0 ≡ 0) × (bit_or a 0 ≡ a)
below_bound zero a h = absurd (omega arith)
below_bound (suc k) zero h = (bit_and-bitwise 0 0, bit_or-bitwise 0 0)
below_bound (suc k) (suc a) h =
    let half = below_bound k (suc a / 2) (omega arith) in
    (omega (arith, bit_and_step (suc a) 0, half.0), omega (arith, bit_or_step (suc a) 0, half.1))

pub bit_and-zero : (a : ℕ) → bit_and a 0 ≡ 0
bit_and-zero a = (below_bound (suc a) a (omega arith)).0

pub bit_or-zero : (a : ℕ) → bit_or a 0 ≡ a
bit_or-zero a = (below_bound (suc a) a (omega arith)).1

-- One more digit of a remainder.
pub mod_twice : (p x : ℕ) → 0 < p → x % (p * 2) ≡ x / 2 % p * 2 + x % 2
mod_twice p x h =
    let r = x / 2 % p * 2 + x % 2 in
    ap (λ k. k % (p * 2)) parts
    ∙ add-mul-mod_self_left r (p * 2) (x / 2 / p)
    ∙ mod-eq_of_lt {n = r} {m = p * 2} (omega (arith, mod-lt (x / 2) h))
  where
    parts : x ≡ x / 2 % p * 2 + x % 2 + p * 2 * (x / 2 / p)
    parts = omega (arith, div-add-mod (x / 2) p)

pub pow-pos : (j : ℕ) → 0 < 2 ^ j
pow-pos j = one-le-pow j 2 (omega arith)

-- `x & (2^j - 1)` is `x % 2^j`.
pub bit_and-low : (j x : ℕ) → bit_and x (2 ^ j - 1) ≡ x % 2 ^ j
bit_and-low zero x = omega (arith, bit_and-zero x)
bit_and-low (suc j) x = rw pow-suc (
    rw (mod_twice (2 ^ j) x (pow-pos j)) (
      bit_and_step x (2 ^ j * 2 - 1)
      ∙ omega (arith, ap (bit_and (x / 2)) halve, bit_and-low j (x / 2), pow-pos j)))
  where
    halve : (2 ^ j * 2 - 1) / 2 ≡ 2 ^ j - 1
    halve = omega (arith, pow-pos j)

half_of_mul : (m p : ℕ) → m * (p * 2) / 2 ≡ m * p
half_of_mul m p = omega arith

-- A mask with `k` low zeros: `x & (m << k)` is `((x >> k) & m) << k`.
pub bit_and-shift : (k x m : ℕ) → bit_and x (m * 2 ^ k) ≡ bit_and (x / 2 ^ k) m * 2 ^ k
bit_and-shift zero x m = simp (mul-one, div-one)
bit_and-shift (suc k) x m = rw pow-suc (
    bit_and_step x (m * (2 ^ k * 2))
    ∙ omega (
      arith,
      ap (bit_and (x / 2)) (half_of_mul m (2 ^ k)),
      bit_and-shift k (x / 2) m,
      ap (λ y. bit_and y m * 2 ^ k)
          (div-div-eq-div-mul x 2 (2 ^ k) ∙ ap (λ y. x / y) (mul_comm 2 (2 ^ k))),
    ))

-- Or of numbers with no digit in common.
pub bit_or-add : (k x m : ℕ) → x < 2 ^ k → bit_or x (m * 2 ^ k) ≡ x + m * 2 ^ k
bit_or-add zero x m h = let z : x ≡ 0 = omega arith in rw z (zero-bit_or _ ∙ omega arith)
bit_or-add (suc k) x m h = rw pow-suc (
    bit_or_step x (m * (2 ^ k * 2))
    ∙ omega (
      arith,
      ap (bit_or (x / 2)) (half_of_mul m (2 ^ k)),
      bit_or-add k (x / 2) m (omega (arith, pow-suc 2 k)),
    ))

or_comm_below : (k a b : ℕ) → a < k → bit_or a b ≡ bit_or b a
or_comm_below zero a b h = absurd (omega arith)
or_comm_below (suc k) zero b h = zero-bit_or b ∙ omega (arith, bit_or-zero b)
or_comm_below (suc k) (suc a) b h = omega (
  arith,
  bit_or_step (suc a) b,
  bit_or_step b (suc a),
  or_comm_below k (suc a / 2) (b / 2) (omega arith),
)

pub bit_or_comm : (a b : ℕ) → bit_or a b ≡ bit_or b a
bit_or_comm a b = or_comm_below (suc a) a b (omega arith)
