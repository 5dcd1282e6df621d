-- ===== src/Printk/Ring.antt =====
-- What the ring of the log holds.
use shadow_os.Base.{
  ℕ, zero, suc, ◌+◌, ◌-◌, ◌%◌, ◌<◌, ◌≤◌, ◌≡◌, ◌≢◌, refl, sym, ◌∙◌, some, [], ◌∷◌, ◌++◌, ltb,
  if◌then◌else◌, length, get_elem?, get_elem?-bound, arith, Bool-cases, inl, inr,
}
use native.Mathlib.Nat.{mod-eq_of_lt, mod_self, mod-lt}
use shadow_os.Memory.Chars.{Chars}
use shadow_os.Printk.{Console, append_byte, append_to_printk_buff}

-- the place `k` bytes behind `i` in a ring
abbrev pub place : ℕ → ℕ → ℕ → ℕ
place size i k = if ltb (i + k) size then i + k else i + k - size

next_lem : (size i : ℕ) → i < size → (i + 1) % size ≡ (if ltb (i + 1) size then i + 1 else 0)
next_lem size i h = elim (Bool-cases (ltb (i + 1) size)) [
  | inl more ↦ rw more (mod-eq_of_lt (ground (arith, more)))
  | inr last ↦ let e : i + 1 ≡ size = ground (arith, last) in rw (last, e) (mod_self size)
]

next-lt : (size i : ℕ) → i < size → (i + 1) % size < size
next-lt size i h = mod-lt (i + 1) (omega arith)

place_next :
    (size i k : ℕ) → i < size → k < size → place size ((i + 1) % size) k ≡ place size i (suc k)
place_next size i k h lt = rw (next_lem size i h) (ground arith)

place_other : (size i j : ℕ) → i < size → j + 1 < size → i ≢ place size i (suc j)
place_other size i j h lt = ground arith

place_zero : (size i : ℕ) → i < size → place size i 0 ≡ i
place_zero size i h = ground arith

module _ (size : ℕ) where
  -- Bytes that come later stay away from the places that they do not reach.
  append-away :
      (cs : Chars) (s : Console) (p : ℕ)
      → s.index < size
      → length cs ≤ size
      → ((k : ℕ) → k < length cs → p ≢ place size s.index k)
      → (append_to_printk_buff size cs s).buffer p ≡ s.buffer p
  unfolding append_to_printk_buff append_byte
  append-away [] s p inside small away = refl
  append-away (c ∷ cs) s p inside small away =
      append-away cs (append_byte size c s) p (next-lt size s.index inside) (omega arith)
        (λ k lt. rw (place_next size s.index k inside (omega arith)) (away (suc k) (omega arith)))
      ∙ ground (arith, away 0 (omega arith), place_zero size s.index inside)

  append-get :
      (cs : Chars) (s : Console) (k : ℕ) {c : ℕ}
      → s.index < size
      → length cs ≤ size
      → get_elem? cs k ≡ some c
      → (append_to_printk_buff size cs s).buffer (place size s.index k) ≡ c
  unfolding append_to_printk_buff append_byte
  append-get [] s k inside small e = cc
  append-get (b ∷ cs) s zero inside small e = rw (place_zero size s.index inside) (
      append-away cs (append_byte size b s) s.index (next-lt size s.index inside) (omega arith)
        (λ k lt.
          rw (place_next size s.index k inside (omega arith))
            (place_other size s.index k inside (omega arith)))
      ∙ ground (arith, e))
  append-get (b ∷ cs) s (suc k) inside small e =
      let lt = get_elem?-bound cs k e in
      rw (sym (place_next size s.index k inside (omega arith)))
        (append-get cs (append_byte size b s) k (next-lt size s.index inside) (omega arith) e)

  append_twice :
      (old cs : Chars) (s : Console)
      → append_to_printk_buff size (old ++ cs) s
        ≡ append_to_printk_buff size cs (append_to_printk_buff size old s)
  unfolding append_to_printk_buff
  append_twice [] cs s = refl
  append_twice (a ∷ old) cs s = append_twice old cs (append_byte size a s)

  append-inside :
      (cs : Chars) (s : Console) → s.index < size → (append_to_printk_buff size cs s).index < size
  unfolding append_to_printk_buff append_byte
  append-inside [] s h = h
  append-inside (c ∷ cs) s h = append-inside cs (append_byte size c s) (next-lt size s.index h)

  -- Whatever has been logged before, the bytes that are logged last, as many as the ring holds, stand
  -- in the ring in their order, from where it was left on.
  pub append-latest :
      (old cs : Chars) (s : Console) (k c : ℕ)
      → s.index < size
      → length cs ≤ size
      → get_elem? cs k ≡ some c
      → (append_to_printk_buff size (old ++ cs) s).buffer
          (place size (append_to_printk_buff size old s).index k)
        ≡ c
  append-latest old cs s k c inside small e =
      rw (append_twice old cs s)
        (append-get cs (append_to_printk_buff size old s) k (append-inside old s inside) small e)
