-- ===== src/Printk/Files.antt =====
-- fwrite ends.
use shadow_os.Base.{
  int_of_size, ap, ◌<◌, ◌%◌, ◌^◌, ℕ, zero, suc, ◌+◌, ◌-◌, ◌≤◌, ◌≡◌, refl, ◌⊎◌, false, ◌==◌, ltb,
  if◌then◌else◌, ℤ, pos, negsuc, arith, Bool-cases, inl, inr,
}
use shadow_os.Base.Outcome.{Outcome, ok}
use shadow_os.Printk.{fwrite_from, fwrite}

-- what fwrite may give: -1, or the size cut to an int
abbrev pub Done : ℕ → ℤ → Type 0
Done size out = (out ≡ negsuc 0) ⊎ (out ≡ int_of_size size)

-- the count of a write, where it is one, is no more than was given
abbrev pub Takes : ℕ → ℤ → Type 0
Takes n (pos m) = m ≤ n
Takes n (negsuc m) = Unit

module _ {ℓ} {S : Type ℓ} (write : ℕ → ℕ → S → Outcome (S × ℤ))
    (returns : (from n : ℕ) (s : S) → (r : S × ℤ) × (write from n s ≡ ok r) × Takes n r.1)
    (size : ℕ) (range : size < 2 ^ 64) where
  fwrite_from-Done :
      (k total : ℕ) (s : S)
      → total ≤ size
      → size ≤ total + k
      → (t : S) × (out : ℤ) × (fwrite_from write size k total s ≡ ok (t, out)) × Done size out
  unfolding fwrite_from
  fwrite_from-Done zero total s within enough =
      let all : total ≡ size = omega arith in
      (s, int_of_size total, ground arith, inr (ap int_of_size all))
  fwrite_from-Done (suc k) total s within enough = elim (Bool-cases (ltb total size)) [
    | inr last ↦
        let all : total ≡ size = ground (arith, last) in
        (s, int_of_size total, ground (arith, last), inr (ap int_of_size all))
    | inl more ↦
        let ((t, written), e, takes) = returns total (size - total) s in
        rw (more, e)
          (go t written takes λ n le.
            fwrite_from-Done k ((total + suc n) % 2 ^ 64) t (omega (arith, le, range))
              (omega (arith, le, range, enough, within)))
  ]
    where
      go :
          (t : S) (written : ℤ)
          → Takes (size - total) written
          → ((n : ℕ)
              → suc n ≤ size - total
              → (u : S) × (out : ℤ) × (fwrite_from write size k ((total + suc n) % 2 ^ 64) t
                  ≡ ok (u, out))
                × Done size out)
          → (u : S) × (out : ℤ) × (elim written [
            | negsuc n ↦ ok (t, negsuc 0)
            | pos n ↦
                if n == 0
                then ok (t, negsuc 0)
                else fwrite_from write size k ((total + n) % 2 ^ 64) t
          ]
              ≡ ok (u, out))
            × Done size out
      go t (negsuc n) takes later = (t, negsuc 0, refl, inl refl)
      go t (pos zero) takes later = (t, negsuc 0, refl, inl refl)
      go t (pos (suc n)) takes later =
          let more : (suc n == 0) ≡ false = ground arith in rw more (later n takes)

  -- Over a write that always returns and takes no more bytes than it is given, fwrite of less than
  -- 2^64 bytes ends, with -1 or with the size, which is cut to an int.
  pub fwrite-Done :
      (s : S) → (t : S) × (out : ℤ) × (fwrite write size s ≡ ok (t, out)) × Done size out
  unfolding fwrite
  fwrite-Done s = fwrite_from-Done size 0 s (omega arith) (omega arith)
