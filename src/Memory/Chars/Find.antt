-- ===== src/Memory/Chars/Find.antt =====
-- The searching functions against descriptions of what they look for.
use mathlib.Core.Option
use shadow_os.Base.{
  ℕ, suc, ◌+◌, ◌%◌, ◌≡◌, refl, ap, Bool, true, false, not, ◌&&◌, ◌||◌, Option, none, some, [], ◌∷◌,
  arith, ◌==◌, if◌then◌else◌,
}
use shadow_os.Memory.Chars.{
  Chars, strchr, strrchr_from, strrchr, in_set, strcspn, strspn, strpbrk, starts_here, strstr_from,
  strstr,
}
use shadow_os.Memory.Chars.Length.{IsText, cstr}

-- the offset of the first byte that passes the test
abbrev pub first_index : (ℕ → Bool) → Chars → Option ℕ
first_index p [] = none
first_index p (x ∷ t) = if p x then some 0 else Option.map suc (first_index p t)

-- the offset of the last one
abbrev pub last_index : (ℕ → Bool) → Chars → Option ℕ
last_index p [] = none
last_index p (x ∷ t) = elim (last_index p t) [
  | some i ↦ some (suc i)
  | none ↦ if p x then some 0 else none
]

-- the length of the longest prefix of bytes that pass the test
abbrev pub span : (ℕ → Bool) → Chars → ℕ
span p [] = 0
span p (x ∷ t) = if p x then suc (span p t) else 0

abbrev pub elem : ℕ → Chars → Bool
elem c [] = false
elem c (x ∷ t) = (c == x) || elem c t

-- strchr finds the first byte of the text that is `c`; it never finds the terminator.
pub strchr-first_index :
    (t r : Chars) (c : ℕ)
    → IsText t
    → strchr (cstr t r) c ≡ some (first_index (λ x. x == c % 256) t)
unfolding strchr
strchr-first_index [] r c h = refl
strchr-first_index (x ∷ t) r c h = ground (arith, strchr-first_index t r c h.1)

-- What the loop of strrchr returns, started with `last` at the offset `i`.
abbrev last_from : Option ℕ → ℕ → Option ℕ → Option ℕ
last_from last i none = last
last_from last i (some k) = some (k + i)

strrchr_from_lem :
    (t r : Chars) (c : ℕ) (last : Option ℕ) (i : ℕ)
    → IsText t
    → strrchr_from last i (cstr t r) c ≡ some (last_from last i (last_index (λ x. x == c % 256) t))
unfolding strrchr_from
strrchr_from_lem [] r c last i h = refl
strrchr_from_lem (x ∷ t) r c last i h =
    ground (arith, strrchr_from_lem t r c (if x == c % 256 then some i else last) (i + 1) h.1)

last_from_start : (o : Option ℕ) → last_from none 0 o ≡ o
last_from_start none = refl
last_from_start (some k) = ap some (omega arith)

-- strrchr finds the last byte of the text that is `c`.
pub strrchr-last_index :
    (t r : Chars) (c : ℕ)
    → IsText t
    → strrchr (cstr t r) c ≡ some (last_index (λ x. x == c % 256) t)
unfolding strrchr
strrchr-last_index t r c h = rw (strrchr_from_lem t r c none 0 h, last_from_start)

in_set-elem : (c : ℕ) (u q : Chars) → IsText u → in_set c (cstr u q) ≡ some (elem c u)
unfolding in_set
in_set-elem c [] q h = refl
in_set-elem c (x ∷ u) q h = ground (arith, in_set-elem c u q h.1)

module _ (u q : Chars) (hu : IsText u) where
  -- strspn is the length of the longest prefix of bytes in the set.
  pub strspn-span :
      (t r : Chars) → IsText t → strspn (cstr t r) (cstr u q) ≡ some (span (λ x. elem x u) t)
  unfolding strspn
  strspn-span [] r h = refl
  strspn-span (x ∷ t) r h = ground (arith, strspn-span t r h.1, in_set-elem x u q hu)

  -- strcspn is the length of the longest prefix of bytes outside the set.
  pub strcspn-span :
      (t r : Chars) → IsText t → strcspn (cstr t r) (cstr u q) ≡ some (span (λ x. not (elem x u)) t)
  unfolding strcspn
  strcspn-span [] r h = refl
  strcspn-span (x ∷ t) r h = ground (arith, strcspn-span t r h.1, in_set-elem x u q hu)

  -- strpbrk finds the first byte of the text that is in the set.
  pub strpbrk-first_index :
      (t r : Chars)
      → IsText t
      → strpbrk (cstr t r) (cstr u q) ≡ some (first_index (λ x. elem x u) t)
  unfolding strpbrk
  strpbrk-first_index [] r h = refl
  strpbrk-first_index (x ∷ t) r h =
      ground (arith, strpbrk-first_index t r h.1, in_set-elem x u q hu)

abbrev pub is_prefix : Chars → Chars → Bool
is_prefix [] t = true
is_prefix (x ∷ u) [] = false
is_prefix (x ∷ u) (y ∷ t) = (y == x) && is_prefix u t

-- the offset of the first place where `u` stands in the text, short of its end
abbrev pub first_match : Chars → Chars → Option ℕ
first_match u [] = none
first_match u (x ∷ t) = if is_prefix u (x ∷ t) then some 0 else Option.map suc (first_match u t)

starts_here-is_prefix :
    (u q t r : Chars)
    → IsText u
    → IsText t
    → starts_here (cstr t r) (cstr u q) ≡ some (is_prefix u t)
unfolding starts_here
starts_here-is_prefix [] q [] r hu ht = refl
starts_here-is_prefix [] q (y ∷ t) r hu ht = ground arith
starts_here-is_prefix (x ∷ u) q [] r hu ht = ground arith
starts_here-is_prefix (x ∷ u) q (y ∷ t) r hu ht =
    ground (arith, starts_here-is_prefix u q t r hu.1 ht.1)

strstr_from-first_match :
    (u q t r : Chars)
    → IsText u
    → IsText t
    → strstr_from (cstr t r) (cstr u q) ≡ some (first_match u t)
unfolding strstr_from
strstr_from-first_match u q [] r hu ht = refl
strstr_from-first_match u q (x ∷ t) r hu ht =
    ground
      (arith, strstr_from-first_match u q t r hu ht.1, starts_here-is_prefix u q (x ∷ t) r hu ht)

-- strstr of two terminated texts stays inside of their objects, finds the first place where the
-- needle stands, NULL where there is none, and the start for an empty needle.
pub strstr-first_match :
    (u q t r : Chars)
    → IsText u
    → IsText t
    → strstr (cstr t r) (cstr u q) ≡ some (elim u [ [] ↦ some 0 | w ∷ v ↦ first_match (w ∷ v) t ])
unfolding strstr
strstr-first_match [] q t r hu ht = refl
strstr-first_match (x ∷ u) q t r hu ht = ground (arith, strstr_from-first_match (x ∷ u) q t r hu ht)
