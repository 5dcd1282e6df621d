-- ===== src/Memory/Chars/Copy.antt =====
-- The copying functions: what the destination holds afterwards, and when they run past its end.
use shadow_os.Base.{
  ℕ, zero, suc, ◌+◌, ◌-◌, ◌≤◌, ◌<◌, ◌≡◌, none, some, [], ◌∷◌, ◌++◌, arith, length, take, drop,
  replicate, ltb, leb, if◌then◌else◌,
}
use shadow_os.Memory.Chars.{Chars, strcpy, pad, strncpy, strcat, terminate, append_up_to, strncat}
use shadow_os.Memory.Chars.Length.{IsText, cstr}

-- strcpy leaves the text and its terminator in front of what stood behind them, if there is room.
pub strcpy-cstr :
    (dest t r : Chars)
    → IsText t
    → strcpy dest (cstr t r)
      ≡ (if ltb (length t) (length dest) then some (cstr t (drop (suc (length t)) dest)) else none)
unfolding strcpy
strcpy-cstr [] [] r h = ground arith
strcpy-cstr [] (c ∷ t) r h = ground arith
strcpy-cstr (d ∷ ds) [] r h = ground arith
strcpy-cstr (d ∷ ds) (c ∷ t) r h = ground (arith, strcpy-cstr ds t r h.1)

pad_lem :
    (n : ℕ) (d : Chars)
    → pad n d ≡ (if leb n (length d) then some (replicate n 0 ++ drop n d) else none)
unfolding pad
pad_lem zero d = ground arith
pad_lem (suc n) [] = ground arith
pad_lem (suc n) (x ∷ d) = ground (arith, pad_lem n d)

-- Where the text is at least as long as `n`, strncpy writes its first `n` bytes and nothing else.
pub strncpy_full :
    (dest t r : Chars) (n : ℕ)
    → IsText t
    → n ≤ length t
    → strncpy dest (cstr t r) n
      ≡ (if leb n (length dest) then some (take n t ++ drop n dest) else none)
unfolding strncpy
strncpy_full dest t r zero h le = ground arith
strncpy_full [] [] r (suc n) h le = ground arith
strncpy_full [] (c ∷ t) r (suc n) h le = ground arith
strncpy_full (d ∷ ds) [] r (suc n) h le = absurd (omega arith)
strncpy_full (d ∷ ds) (c ∷ t) r (suc n) h le = ground (arith, strncpy_full ds t r n h.1)

-- Where the text is shorter than `n`, strncpy writes the text and zeros, `n + 1` bytes in all, one
-- more than it is told; with a destination of `n` bytes it runs past the end.
pub strncpy_short :
    (dest t r : Chars) (n : ℕ)
    → IsText t
    → length t < n
    → strncpy dest (cstr t r) n ≡ (
        if ltb n (length dest)
        then some (t ++ replicate (suc (n - length t)) 0 ++ drop (suc n) dest)
        else none)
unfolding strncpy
strncpy_short dest t r zero h lt = absurd (omega arith)
strncpy_short [] [] r (suc n) h lt = ground arith
strncpy_short [] (c ∷ t) r (suc n) h lt = ground arith
strncpy_short (d ∷ ds) [] r (suc n) h lt = ground (arith, pad_lem (suc n) ds)
strncpy_short (d ∷ ds) (c ∷ t) r (suc n) h lt = ground (arith, strncpy_short ds t r n h.1)

-- strcat puts the second text behind the first, if there is room.
pub strcat-cstr :
    (u q t r : Chars)
    → IsText u
    → IsText t
    → strcat (cstr u q) (cstr t r)
      ≡ (if leb (length t) (length q) then some (cstr (u ++ t) (drop (length t) q)) else none)
unfolding strcat
strcat-cstr [] q t r hu ht = ground (arith, strcpy-cstr (0 ∷ q) t r ht)
strcat-cstr (c ∷ u) q t r hu ht = ground (arith, strcat-cstr u q t r hu.1 ht)

append_up_to_full :
    (n : ℕ) (dest t r : Chars)
    → IsText t
    → n ≤ length t
    → append_up_to n dest (cstr t r)
      ≡ (if ltb n (length dest) then some (cstr (take n t) (drop (suc n) dest)) else none)
unfolding append_up_to terminate
append_up_to_full zero [] t r h le = ground arith
append_up_to_full zero (d ∷ ds) t r h le = ground arith
append_up_to_full (suc n) [] t r h le = ground arith
append_up_to_full (suc n) (d ∷ ds) [] r h le = absurd (omega arith)
append_up_to_full (suc n) (d ∷ ds) (c ∷ t) r h le = ground (arith, append_up_to_full n ds t r h.1)

append_up_to_short :
    (n : ℕ) (dest t r : Chars)
    → IsText t
    → length t < n
    → append_up_to n dest (cstr t r) ≡ (
        if ltb (suc (length t)) (length dest)
        then some (t ++ 0 ∷ 0 ∷ drop (length t + 2) dest)
        else none)
unfolding append_up_to terminate
append_up_to_short zero dest t r h lt = absurd (omega arith)
append_up_to_short (suc n) [] t r h lt = ground arith
append_up_to_short (suc n) (d ∷ []) [] r h lt = ground arith
append_up_to_short (suc n) (d ∷ e ∷ ds) [] r h lt = ground arith
append_up_to_short (suc n) (d ∷ ds) (c ∷ t) r h lt = ground (arith, append_up_to_short n ds t r h.1)

-- strncat of a text of at least `n` bytes puts its first `n` bytes and a terminator behind the
-- text of the destination.
pub strncat_full :
    (u q t r : Chars) (n : ℕ)
    → IsText u
    → IsText t
    → n ≤ length t
    → strncat (cstr u q) (cstr t r) n
      ≡ (if leb n (length q) then some (cstr (u ++ take n t) (drop n q)) else none)
unfolding strncat
strncat_full [] q t r n hu ht le = ground (arith, append_up_to_full n (0 ∷ q) t r ht le)
strncat_full (c ∷ u) q t r n hu ht le = ground (arith, strncat_full u q t r n hu.1 ht le)

-- strncat of a shorter text writes two terminators, one byte more than the result needs.
pub strncat_short :
    (u q t r : Chars) (n : ℕ)
    → IsText u
    → IsText t
    → length t < n
    → strncat (cstr u q) (cstr t r) n ≡ (
        if ltb (length t) (length q)
        then some (u ++ t ++ 0 ∷ 0 ∷ drop (suc (length t)) q)
        else none)
unfolding strncat
strncat_short [] q t r n hu ht lt = ground (arith, append_up_to_short n (0 ∷ q) t r ht lt)
strncat_short (c ∷ u) q t r n hu ht lt = ground (arith, strncat_short u q t r n hu.1 ht lt)
