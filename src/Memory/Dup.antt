-- ===== src/Memory/Dup.antt =====
-- strdup and strndup of kernel/src/lib/memory.c. The allocator, `kmalloc`, is a parameter: what it
-- returns is NULL or the bytes of a fresh object, at least as many as it was asked for.
use shadow_os.Base.{
  ℕ, zero, suc, ◌+◌, ◌≤◌, ◌<◌, ◌≡◌, refl, ap, sym, ◌∙◌, true, Option, none, some, ◌++◌, [], ◌∷◌,
  arith, length, take, drop, ltb, leb, lt→ltb, min, if◌then◌else◌, set, length-take, length-append,
  length-drop,
}
use mathlib.Core.Option
use mathlib.Core.Path.{subst}
use shadow_os.Memory.Chars.{Chars, strlen, strcpy, strncpy}
use shadow_os.Memory.Chars.Length.{IsText, cstr, strlen-cstr}
use shadow_os.Memory.Chars.Copy.{strcpy-cstr, strncpy_full}

-- What a caller relies on: the object is as large as it was asked for.
abbrev pub IsRoomy : (ℕ → Option Chars) → Type 0
IsRoomy kmalloc = (n : ℕ) (b : Chars) → kmalloc n ≡ some b → n ≤ length b

-- A write at an index, `none` past the end.
put : Chars → ℕ → ℕ → Option Chars
put b i v = if ltb i (length b) then some (set b i v) else none

set-append : (u v : Chars) (x : ℕ) → 0 < length v → set (u ++ v) (length u) x ≡ u ++ x ∷ drop 1 v
set-append [] [] x h = absurd (omega arith)
set-append [] (y ∷ v) x h = refl
set-append (c ∷ u) v x h = ap (λ l. c ∷ l) (set-append u v x h)

drop-one-drop : (k : ℕ) (b : Chars) → drop 1 (drop k b) ≡ drop (suc k) b
drop-one-drop zero b = refl
drop-one-drop (suc k) [] = refl
drop-one-drop (suc k) (x ∷ b) = drop-one-drop k b

-- The terminator behind the first `k` bytes.
put_terminator :
    (t b : Chars) (k : ℕ)
    → k ≤ length t
    → k < length b
    → put (take k t ++ drop k b) k 0 ≡ some (cstr (take k t) (drop (suc k) b))
unfolding put
put_terminator t b k h lt =
    let size : length (take k t) ≡ k = omega (arith, length-take k t) in
    let room : 0 < length (drop k b) = omega (arith, length-drop k b) in
    let inside : ltb k (length (take k t ++ drop k b)) ≡ true =
      lt→ltb _ _ (omega (arith, length-append (take k t) (drop k b))) in
    rw inside (
      ap some (
        ap (λ j. set (take k t ++ drop k b) j 0) (sym size)
        ∙ set-append (take k t) (drop k b) 0 room
        ∙ ap (λ l. cstr (take k t) l) (drop-one-drop k b)))

module _ (kmalloc : ℕ → Option Chars) where
  -- The outer option is `none` for an access out of bounds, the inner for NULL.
  pub strdup : Chars → Option (Option Chars)
  unfolding Option.bind
  strdup s = Option.bind (strlen s) λ len. elim (kmalloc (len + 1)) [
    | none ↦ some none
    | some copy ↦ Option.map some (strcpy copy s)
  ]

  -- strndup from the call of kmalloc on
  copy_first : ℕ → Chars → Option (Option Chars)
  unfolding Option.bind put
  copy_first len s = elim (kmalloc (len + 1)) [
    | none ↦ some none
    | some copy ↦ Option.map some (Option.bind (strncpy copy s len) λ c. put c len 0)
  ]

  pub strndup : Chars → ℕ → Option (Option Chars)
  unfolding Option.bind copy_first
  strndup s n = Option.bind (strlen s) λ len. copy_first (if ltb n len then n else len) s

  -- strdup returns NULL exactly where the allocator does, and else a copy of the text; it stays
  -- inside the object that it allocates.
  pub strdup-cstr :
      (t r : Chars)
      → IsText t
      → IsRoomy kmalloc
      → strdup (cstr t r)
        ≡ some (Option.map (λ b. cstr t (drop (suc (length t)) b)) (kmalloc (length t + 1)))
  unfolding strdup
  strdup-cstr t r h roomy = rw (strlen-cstr t r h) (go (kmalloc (length t + 1)) refl)
    where
      go :
          (o : Option Chars)
          → kmalloc (length t + 1) ≡ o
          → (elim o [ none ↦ some none | some copy ↦ Option.map some (strcpy copy (cstr t r)) ])
            ≡ some (Option.map (λ b. cstr t (drop (suc (length t)) b)) o)
      go none e = refl
      go (some b) e = ground (arith, strcpy-cstr b t r h, roomy (length t + 1) b e)

  copy_first-cstr :
      (t r : Chars) (k : ℕ)
      → IsText t
      → IsRoomy kmalloc
      → k ≤ length t
      → copy_first k (cstr t r)
        ≡ some (Option.map (λ b. cstr (take k t) (drop (suc k) b)) (kmalloc (k + 1)))
  unfolding Option.bind copy_first
  copy_first-cstr t r k h roomy le = go (kmalloc (k + 1)) refl
    where
      go :
          (o : Option Chars)
          → kmalloc (k + 1) ≡ o
          → (elim o [
            | none ↦ some none
            | some copy ↦ Option.map some (Option.bind (strncpy copy (cstr t r) k) λ c. put c k 0)
          ])
            ≡ some (Option.map (λ b. cstr (take k t) (drop (suc k) b)) o)
      go none e = refl
      go (some b) e =
          let room : suc k ≤ length b = omega (arith, roomy (k + 1) b e) in
          let fits : leb k (length b) ≡ true = ground arith in
          rw (strncpy_full b t r k h le, fits) (ap (Option.map some) (put_terminator t b k le room))

  -- Where the allocator's objects are as large as it was asked for, strndup returns NULL exactly
  -- where the allocator does, and else a copy of the first `n` bytes of the text, or of the text
  -- where it is shorter; it stays inside the object that it allocates.
  pub strndup-cstr :
      (t r : Chars) (n : ℕ)
      → IsText t
      → IsRoomy kmalloc
      → let k = min n (length t) in
        strndup (cstr t r) n
        ≡ some (Option.map (λ b. cstr (take k t) (drop (suc k) b)) (kmalloc (k + 1)))
  unfolding strndup
  strndup-cstr t r n h roomy = rw (strlen-cstr t r h) (
      subst
        (λ k.
          copy_first k (cstr t r)
          ≡ some (
              Option.map (λ b. cstr (take (min n (length t)) t) (drop (suc (min n (length t))) b))
                (kmalloc (min n (length t) + 1))))
        cut (copy_first-cstr t r (min n (length t)) h roomy (omega arith)))
    where
      cut : min n (length t) ≡ (if ltb n (length t) then n else length t)
      cut = ground arith
