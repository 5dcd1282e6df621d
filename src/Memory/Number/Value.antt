-- ===== src/Memory/Number/Value.antt =====
-- strtol computes the value of the digits, or saturates.
use shadow_os.Base.{
  ℕ, ◌+◌, ◌-◌, ◌*◌, ◌/◌, ◌%◌, ◌≤◌, ◌<◌, ◌≡◌, refl, ap, Bool, true, false, ◌&&◌, ◌||◌, Option, some,
  List, [], ◌∷◌, ◌++◌, map, arith, ltb, leb, ◌==◌, if◌then◌else◌, ℤ, length, Bool-cases, inl, inr,
}
use native.Mathlib.Nat.{div-add-mod, mod-lt, mul_comm}
use shadow_os.Memory.Chars.{Chars}
use shadow_os.Memory.Number.{
  long_max, digit_of, overflows, signed, saturated, read_digits, is_space, skip_space, read_sign,
  is_x, read_base, strtol,
}

-- A digit as it is written: whether in upper case, and its value.
abbrev pub Digit : Type 0
Digit = Bool × ℕ

-- the character of a digit: one of 0 to 9, or a letter in its case
unfoldable pub char_of : Digit → ℕ
char_of (upper, d) = if ltb d 10 then b'0' + d else if upper then b'A' + d - 10 else b'a' + d - 10

abbrev pub Below : ℕ → List Digit → Type 0
Below base [] = Unit
Below base (d ∷ ds) = (d.1 < base) × Below base ds

-- the number that a list of digits stands for, behind the value `acc` of those before it
unfoldable pub value : ℕ → ℕ → List Digit → ℕ
value base acc [] = acc
value base acc (d ∷ ds) = value base (acc * base + d.1) ds

-- the value with its sign, held to the range of `long`
unfoldable pub clamp : Bool → ℕ → ℤ
unfolding signed saturated
clamp minus n = if leb n long_max then signed minus n else saturated minus

value-ge : (base acc : ℕ) (ds : List Digit) → 0 < base → acc ≤ value base acc ds
unfolding value
value-ge base acc [] h = omega arith
value-ge base acc (d ∷ ds) h = grind (arith, value-ge base (acc * base + d.1) ds h)

digit_of-char_of : (d : Digit) → d.1 < 36 → digit_of (char_of d) ≡ some d.1
unfolding digit_of char_of
digit_of-char_of (true, d) h = ground arith
digit_of-char_of (false, d) h = ground arith

char_of-ne-zero : (d : Digit) → (char_of d == 0) ≡ false
unfolding char_of
char_of-ne-zero (true, d) = ground arith
char_of-ne-zero (false, d) = ground arith

above : (m b q r a d : ℕ) → b * q + r ≡ m → r < b → q < a → m < a * b + d
above m b q r a d e k h = grind arith

below : (m b q r a d : ℕ) → b * q + r ≡ m → d < b → a < q → a * b + d ≤ m
below m b q r a d e k h = grind arith

level : (m b q r a d : ℕ) → b * q + r ≡ m → a ≡ q → a * b + d + r ≡ m + d
level m b q r a d e h = omega (arith, ap (λ (t : ℕ). t * b) h, mul_comm q b)

-- `m` is `b * q + r`: the test by quotient and remainder is the test on the number.
exact :
    (m b q r a d : ℕ)
    → b * q + r ≡ m
    → r < b
    → d < b
    → (ltb q a || ((a == q) && ltb r d)) ≡ ltb m (a * b + d)
exact m b q r a d e hr hd =
    ground (arith, above m b q r a d e hr, below m b q r a d e hd, level m b q r a d e)

-- The test on cutoff and cutlim is exact.
overflows_iff : (base acc d : ℕ) → d < base → overflows base acc d ≡ ltb long_max (acc * base + d)
unfolding overflows
overflows_iff base acc d h =
    exact long_max base (long_max / base) (long_max % base) acc d (div-add-mod long_max base)
      (mod-lt long_max (omega arith)) h

read_digits-cons :
    (base : ℕ) (minus : Bool) (acc i : ℕ) (d : Digit) (s : Chars)
    → base ≤ 36
    → d.1 < base
    → read_digits base minus acc i (char_of d ∷ s) ≡ (
        if ltb long_max (acc * base + d.1)
        then some (saturated minus, i)
        else read_digits base minus (acc * base + d.1) (i + 1) s)
unfolding read_digits
read_digits-cons base minus acc i d s hb hd =
    let small : leb base d.1 ≡ false = ground arith in
    ground (
      arith,
      char_of-ne-zero d,
      digit_of-char_of d (omega (arith, hd, hb)),
      overflows_iff base acc d.1 hd,
    )

-- The loop over the digits, read from `acc` on at the offset `i` up to the terminator.
pub record Reads (base : ℕ) (minus : Bool) (acc i : ℕ) (ds : List Digit) (o : Option (ℤ × ℕ))
    : Type 0 where
  pub end : ℕ
  pub result : o ≡ some (clamp minus (value base acc ds), end)
  pub reached : value base acc ds ≤ long_max → end ≡ i + length ds

read_digits-Reads :
    (base : ℕ) (minus : Bool) (acc i : ℕ) (ds : List Digit) (r : Chars)
    → base ≤ 36
    → Below base ds
    → acc ≤ long_max
    → Reads base minus acc i ds (read_digits base minus acc i (map char_of ds ++ 0 ∷ r))
unfolding value clamp
read_digits-Reads base minus acc i [] r hb hd ha = record {
  end = i;
  result = unfold read_digits in ground arith;
  reached = ground arith;
}
read_digits-Reads base minus acc i (d ∷ ds) r hb hd ha =
    rw (read_digits-cons base minus acc i d (map char_of ds ++ 0 ∷ r) hb hd.0)
      (elim (Bool-cases (ltb long_max (acc * base + d.1))) [
        | inl over ↦
            let big = value-ge base (acc * base + d.1) ds (omega arith) in
            rw over (record { end = i; result = ground arith; reached = ground arith })
        | inr fits ↦
            let open_rest =
              read_digits-Reads base minus (acc * base + d.1) (i + 1) ds r hb hd.1 (ground arith) in
            rw fits (record {
              end = open_rest.end;
              result = open_rest.result;
              reached = λ h. omega (arith, open_rest.reached h);
            })
      ])

-- The character is no space, no sign, and below base 16 no `x`.
char_of-plain :
    (d : Digit)
    → (is_space (char_of d) ≡ false)
      × ((char_of d == b'-') ≡ false)
      × ((char_of d == b'+') ≡ false)
      × (d.1 < 16 → is_x (char_of d) ≡ false)
unfolding is_space is_x char_of
char_of-plain (true, d) = (ground arith, ground arith, ground arith, λ h. ground arith)
char_of-plain (false, d) = (ground arith, ground arith, ground arith, λ h. ground arith)

read_base-digits :
    (base i : ℕ) (ds : List Digit) (r : Chars)
    → 2 ≤ base
    → Below base ds
    → read_base base i (map char_of ds ++ 0 ∷ r) ≡ some (base, (i, map char_of ds ++ 0 ∷ r))
unfolding read_base
read_base-digits base i [] r lo h = ground arith
read_base-digits base i (d ∷ []) r lo h = ground arith
read_base-digits base i (d ∷ e ∷ ds) r lo h = ground (arith, (char_of-plain e).3)

skip_space-digits :
    (ds : List Digit) (r : Chars)
    → skip_space 0 (map char_of ds ++ 0 ∷ r) ≡ some (0, map char_of ds ++ 0 ∷ r)
unfolding skip_space
skip_space-digits [] r = refl
skip_space-digits (d ∷ ds) r = ground (arith, char_of-plain d)

read_sign-digits :
    (i : ℕ) (ds : List Digit) (r : Chars)
    → read_sign i (map char_of ds ++ 0 ∷ r) ≡ some (false, (i, map char_of ds ++ 0 ∷ r))
unfolding read_sign
read_sign-digits i [] r = refl
read_sign-digits i (d ∷ ds) r = ground (arith, char_of-plain d)

-- strtol of a numeral in a base from 2 to 36, whose letters may be in upper and in lower case, returns
-- its value, held to LONG_MAX. Where the value is in range, all digits are read.
pub strtol-Reads :
    (base : ℕ) (ds : List Digit) (r : Chars)
    → 2 ≤ base
    → base ≤ 36
    → Below base ds
    → Reads base false 0 0 ds (strtol (map char_of ds ++ 0 ∷ r) base)
unfolding strtol
strtol-Reads base ds r lo hi h =
    rw (skip_space-digits ds r, read_sign-digits 0 ds r, read_base-digits base 0 ds r lo h)
      (read_digits-Reads base false 0 0 ds r hi h (omega arith))

-- strtol of a minus sign and a numeral in a base from 2 to 36 returns the negated value, held to
-- LONG_MIN. Where the value is at most LONG_MAX, all digits are read.
pub strtol-Reads_minus :
    (base : ℕ) (ds : List Digit) (r : Chars)
    → 2 ≤ base
    → base ≤ 36
    → Below base ds
    → Reads base true 0 1 ds (strtol (b'-' ∷ map char_of ds ++ 0 ∷ r) base)
unfolding strtol
strtol-Reads_minus base ds r lo hi h =
    rw (read_base-digits base 1 ds r lo h) (read_digits-Reads base true 0 1 ds r hi h (omega arith))
