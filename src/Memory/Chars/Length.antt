-- ===== src/Memory/Chars/Length.antt =====
-- What a C string is, and `strlen`.
use shadow_os.Base.{
  ℕ, suc, ◌≡◌, ◌≢◌, refl, ap, some, [], ◌∷◌, ◌++◌, arith, length, ◌==◌, Bool-cases, inl, inr,
  ==_iff,
}
use shadow_os.Memory.Chars.{Chars, strlen}

-- No byte of a text is the terminator.
abbrev pub IsText : Chars → Type 0
IsText [] = Unit
IsText (c ∷ t) = (c ≢ 0) × IsText t

-- The text `t`, its terminator, and the rest of the object.
abbrev pub cstr : Chars → Chars → Chars
cstr t r = t ++ 0 ∷ r

-- The bytes of `s` are those of a text of length `n`, a terminator and some more.
pub record Holds (s : Chars) (n : ℕ) : Type 0 where
  pub text : Chars
  pub rest : Chars
  pub parts : s ≡ cstr text rest
  pub is_text : IsText text
  pub size : length text ≡ n

-- strlen is the length of the text.
pub strlen-cstr : (t r : Chars) → IsText t → strlen (cstr t r) ≡ some (length t)
unfolding strlen
strlen-cstr [] r h = refl
strlen-cstr (c ∷ t) r h = ground (arith, strlen-cstr t r h.1)

Holds-cons : (c : ℕ) (s : Chars) (n : ℕ) → c ≢ 0 → Holds s n → Holds (c ∷ s) (suc n)
Holds-cons c s n h k = record {
  text = c ∷ k.text;
  rest = k.rest;
  parts = ap (λ l. c ∷ l) k.parts;
  is_text = (h, k.is_text);
  size = ap suc k.size;
}

strlen-cons-inv :
    (c : ℕ) (s : Chars) (n : ℕ)
    → c ≢ 0
    → strlen (c ∷ s) ≡ some n
    → (m : ℕ) × (n ≡ suc m) × (strlen s ≡ some m)
unfolding strlen
strlen-cons-inv c s n h e = ground arith

-- What strlen counts is the text that the object begins with: it stops at the first terminator.
pub strlen-Holds : (s : Chars) (n : ℕ) → strlen s ≡ some n → Holds s n
unfolding strlen
strlen-Holds [] n e = absurd (cc)
strlen-Holds (c ∷ s) n e = elim (Bool-cases (c == 0)) [
  | inl z ↦ record {
    text = [];
    rest = s;
    parts = ap (λ x. x ∷ s) ((==_iff c 0).0 z);
    is_text = tt;
    size = ground arith;
  }
  | inr z ↦
      let ne : c ≢ 0 = ground arith in
      let (m, k, f) = strlen-cons-inv c s n ne e in rw k (Holds-cons c s m ne (strlen-Holds s m f))
]
