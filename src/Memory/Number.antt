-- ===== src/Memory/Number.antt =====
-- strtol of kernel/src/lib/memory.c. `long` has 64 bits. The base is a number: a caller passes 0
-- or a base from 2 on. The result is the value with the offset that `*endptr` gets.
pub mod Value
use mathlib.Core.Option
use shadow_os.Base.{
  ℕ, suc, ◌+◌, ◌-◌, ◌*◌, ◌/◌, ◌%◌, ◌^◌, Bool, true, false, ◌&&◌, ◌||◌, Option, none, some, List, [],
  ◌∷◌, ltb, leb, ◌==◌, if◌then◌else◌, ℤ, pos, negsuc, neg,
}
use shadow_os.Memory.Chars.{Chars}

abbrev pub long_max : ℕ
long_max = 2 ^ 63 - 1

abbrev pub long_min : ℤ
long_min = negsuc (2 ^ 63 - 1)

-- `s`: how far it has come, and what lies from it on
abbrev pub Cursor : Type 0
Cursor = ℕ × Chars

is_space : ℕ → Bool
is_space c = (c == b' ') || (c == b'\t') || (c == b'\n') || (c == b'\r') || (c == 12) || (c == 11)

skip_space : ℕ → Chars → Option Cursor
unfolding is_space
skip_space i [] = none
skip_space i (c ∷ s) =
    let rest = skip_space (i + 1) s in if is_space c then rest else some (i, c ∷ s)

-- whether the sign is -1, and the cursor behind it
read_sign : ℕ → Chars → Option (Bool × Cursor)
read_sign i [] = none
read_sign i (c ∷ s) =
    if c == b'-'
    then some (true, (i + 1, s))
    else if c == b'+'
    then some (false, (i + 1, s))
    else some (false, (i, c ∷ s))

is_x : ℕ → Bool
is_x c = (c == b'x') || (c == b'X')

-- `base == 0` and `*s == '0'`: the cursor is behind the zero, at `s + 1`
read_prefix : ℕ → Chars → Option (ℕ × Cursor)
unfolding is_x
read_prefix i [] = none
read_prefix i (x ∷ s) = if is_x x then some (16, (i + 2, s)) else some (8, (i + 1, x ∷ s))

-- `base == 16` and `*s == '0'`
skip_prefix : ℕ → Chars → Option (ℕ × Cursor)
unfolding is_x
skip_prefix i [] = none
skip_prefix i (x ∷ s) = if is_x x then some (16, (i + 2, s)) else some (16, (i, b'0' ∷ x ∷ s))

read_base : ℕ → ℕ → Chars → Option (ℕ × Cursor)
unfolding read_prefix skip_prefix
read_base base i [] = none
read_base base i (c ∷ s) =
    if base == 0
    then (if c == b'0' then read_prefix i s else some (10, (i, c ∷ s)))
    else if (base == 16) && (c == b'0')
    then skip_prefix i s
    else some (base, (i, c ∷ s))

-- what the chain of range tests makes of a byte: `none` for `break`
digit_of : ℕ → Option ℕ
digit_of c =
    if leb b'0' c && leb c b'9'
    then some (c - b'0')
    else if leb b'a' c && leb c b'z'
    then some (c - b'a' + 10)
    else if leb b'A' c && leb c b'Z'
    then some (c - b'A' + 10)
    else none

-- `result > cutoff || (result == cutoff && digit > cutlim)`
overflows : ℕ → ℕ → ℕ → Bool
overflows base result digit =
    ltb (long_max / base) result || ((result == long_max / base) && ltb (long_max % base) digit)

signed : Bool → ℕ → ℤ
signed true n = neg n
signed false n = pos n

saturated : Bool → ℤ
saturated true = long_min
saturated false = pos long_max

read_digits : ℕ → Bool → ℕ → ℕ → Chars → Option (ℤ × ℕ)
unfolding digit_of overflows signed saturated
read_digits base minus result i [] = none
read_digits base minus result i (c ∷ s) = elim (if c == 0 then none else digit_of c) [
  | none ↦ some (signed minus result, i)
  | some digit ↦
      let rest = read_digits base minus (result * base + digit) (i + 1) s in
      if leb base digit
      then some (signed minus result, i)
      else if overflows base result digit
      then some (saturated minus, i)
      else rest
]

unfoldable pub strtol : Chars → ℕ → Option (ℤ × ℕ)
unfolding skip_space read_sign read_base read_digits Option.bind
strtol str base = Option.bind (skip_space 0 str) λ (i, s).
    Option.bind (read_sign i s) λ (minus, (j, t)).
      Option.bind (read_base base j t) λ (base', (k, u)). read_digits base' minus 0 k u
