-- ===== src/Memory/Chars/Compare.antt =====
-- `strcmp` and `strncmp` decide equality of texts.
use shadow_os.Base.{ℕ, zero, suc, ◌≡◌, ◌↔◌, refl, some, [], ◌∷◌, arith, take, pos}
use shadow_os.Memory.Chars.{Chars, strcmp, strncmp}
use shadow_os.Memory.Chars.Length.{IsText, cstr}

strcmp-eq :
    (t u q r : Chars) → IsText t → IsText u → strcmp (cstr t q) (cstr u r) ≡ some (pos 0) → t ≡ u
unfolding strcmp
strcmp-eq [] [] q r ht hu e = refl
strcmp-eq [] (b ∷ u) q r ht hu e = ground arith
strcmp-eq (a ∷ t) [] q r ht hu e = ground arith
strcmp-eq (a ∷ t) (b ∷ u) q r ht hu e = ground (arith, strcmp-eq t u q r ht.1 hu.1)

strcmp_self : (t q r : Chars) → IsText t → strcmp (cstr t q) (cstr t r) ≡ some (pos 0)
unfolding strcmp
strcmp_self [] q r h = refl
strcmp_self (a ∷ t) q r h = ground (arith, strcmp_self t q r h.1)

-- strcmp returns 0 exactly on equal texts.
pub strcmp-eq-zero_iff :
    (t u q r : Chars)
    → IsText t
    → IsText u
    → (strcmp (cstr t q) (cstr u r) ≡ some (pos 0)) ↔ (t ≡ u)
strcmp-eq-zero_iff t u q r ht hu = (strcmp-eq t u q r ht hu, λ e. rw (← e) (strcmp_self t q r ht))

strncmp-eq :
    (t u q r : Chars) (n : ℕ)
    → IsText t
    → IsText u
    → strncmp (cstr t q) (cstr u r) n ≡ some (pos 0)
    → take n t ≡ take n u
unfolding strncmp
strncmp-eq t u q r zero ht hu e = refl
strncmp-eq [] [] q r (suc n) ht hu e = refl
strncmp-eq [] (b ∷ u) q r (suc n) ht hu e = ground arith
strncmp-eq (a ∷ t) [] q r (suc n) ht hu e = ground arith
strncmp-eq (a ∷ t) (b ∷ u) q r (suc n) ht hu e = ground (arith, strncmp-eq t u q r n ht.1 hu.1)

strncmp_same :
    (t u q r : Chars) (n : ℕ)
    → IsText t
    → IsText u
    → take n t ≡ take n u
    → strncmp (cstr t q) (cstr u r) n ≡ some (pos 0)
unfolding strncmp
strncmp_same t u q r zero ht hu e = refl
strncmp_same [] [] q r (suc n) ht hu e = refl
strncmp_same [] (b ∷ u) q r (suc n) ht hu e = ground arith
strncmp_same (a ∷ t) [] q r (suc n) ht hu e = ground arith
strncmp_same (a ∷ t) (b ∷ u) q r (suc n) ht hu e = ground (arith, strncmp_same t u q r n ht.1 hu.1)

-- strncmp returns 0 exactly where the first `n` bytes of the texts are equal.
pub strncmp-eq-zero_iff :
    (t u q r : Chars) (n : ℕ)
    → IsText t
    → IsText u
    → (strncmp (cstr t q) (cstr u r) n ≡ some (pos 0)) ↔ (take n t ≡ take n u)
strncmp-eq-zero_iff t u q r n ht hu = (strncmp-eq t u q r n ht hu, strncmp_same t u q r n ht hu)
