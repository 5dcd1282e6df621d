-- ===== src/Pmm/Boot/Reclaim.antt =====
-- pmm_vmm_cleanup enters each page of the boot loader's memory twice where the stack has room.
use shadow_os.Base.{
  ℕ, zero, suc, ◌+◌, ◌*◌, ◌%◌, ◌^◌, ◌≤◌, ◌<◌, ◌≡◌, ◌≢◌, refl, true, arith, ap, ◌∙◌,
}
use mathlib.Core.Path.{subst}
use shadow_os.Pmm.{page_size, Pmm, push, in_memmap, is_page_valid, release_page}
use shadow_os.Pmm.Boot.{reclaim_page, reclaim_region}

-- the pages of a region that the memory map covers
abbrev pub Covered : Pmm → ℕ → ℕ → Type 0
Covered s addr n =
    (k : ℕ)
    → k < n
    → (addr + k * page_size ≢ 0) × (in_memmap s.reclaimed (addr + k * page_size) s.memmap ≡ true)

-- what the loop over a region of `n` pages leaves
pub record Doubled (s : Pmm) (addr n : ℕ) (t : Pmm) : Type 0 where
  pub grown : t.idx ≡ s.idx + 2 * n
  pub first : (k : ℕ) → k < n → t.pages (s.idx + 2 * k) ≡ addr + k * page_size
  pub second : (k : ℕ) → k < n → t.pages (s.idx + 2 * k + 1) ≡ addr + k * page_size
  pub below : (i : ℕ) → i < s.idx → t.pages i ≡ s.pages i

record Once (s : Pmm) (addr : ℕ) (t : Pmm) : Type 0 where
  grown : t.idx ≡ s.idx + 2
  first : t.pages s.idx ≡ addr
  second : t.pages (s.idx + 1) ≡ addr
  below : (i : ℕ) → i < s.idx → t.pages i ≡ s.pages i
  same_max : t.max ≡ s.max
  same_map : t.memmap ≡ s.memmap
  same_flag : t.reclaimed ≡ s.reclaimed

reclaim_page-Once :
    (s : Pmm) (addr : ℕ)
    → addr ≢ 0
    → in_memmap s.reclaimed addr s.memmap ≡ true
    → s.idx + 1 < s.max
    → Once s addr (reclaim_page addr s)
unfolding reclaim_page release_page is_page_valid push
reclaim_page-Once s addr ne acc room = record {
  grown = ground arith;
  first = ground arith;
  second = ground arith;
  below = λ i h. ground arith;
  same_max = ground arith;
  same_map = ground arith;
  same_flag = ground arith;
}

module _ {s t u : Pmm} {addr n : ℕ} (one : Once s addr t)
    (rest : Doubled t (addr + page_size) n u) where
  first_at : (k : ℕ) → k < suc n → u.pages (s.idx + 2 * k) ≡ addr + k * page_size
  first_at zero h =
      ap u.pages (omega arith)
      ∙ rest.below s.idx (omega (arith, one.grown))
      ∙ one.first
      ∙ omega arith
  first_at (suc k) h =
      ap u.pages (omega (arith, one.grown)) ∙ rest.first k (omega arith) ∙ omega arith

  second_at : (k : ℕ) → k < suc n → u.pages (s.idx + 2 * k + 1) ≡ addr + k * page_size
  second_at zero h =
      ap u.pages (omega arith)
      ∙ rest.below (s.idx + 1) (omega (arith, one.grown))
      ∙ one.second
      ∙ omega arith
  second_at (suc k) h =
      ap u.pages (omega (arith, one.grown)) ∙ rest.second k (omega arith) ∙ omega arith

Covered-next :
    {s t : Pmm} {addr n : ℕ}
    → Once s addr t
    → Covered s addr (suc n)
    → Covered t (addr + page_size) n
Covered-next {s} {t} {addr} one cov k h =
    let e : addr + page_size + k * page_size ≡ addr + suc k * page_size = omega arith in
    rw (e, one.same_map, one.same_flag) (cov (suc k) (omega arith))

-- Where the stack has room below its old limit for twice the pages of a region that the memory map
-- covers, the clean-up pushes each of them twice, so that each will be handed out twice.
pub reclaim_region-Doubled :
    (n addr : ℕ) (s : Pmm)
    → Covered s addr n
    → addr + n * page_size < 2 ^ 64
    → s.idx + 2 * n ≤ s.max
    → Doubled s addr n (reclaim_region n addr s)
unfolding reclaim_region
reclaim_region-Doubled zero addr s cov fits room = record {
  grown = omega arith;
  first = λ k h. absurd (omega arith);
  second = λ k h. absurd (omega arith);
  below = λ i h. refl;
}
reclaim_region-Doubled (suc n) addr s cov fits room =
    let z : addr + 0 * page_size ≡ addr = omega arith in
    let c = cov 0 (omega arith) in
    let one =
      reclaim_page-Once s addr (subst (λ a. a ≢ 0) z c.0)
        (subst (λ a. in_memmap s.reclaimed a s.memmap ≡ true) z c.1) (omega arith) in
    let t = reclaim_page addr s in
    let rest =
      reclaim_region-Doubled n (addr + page_size) t (Covered-next {n = n} one cov) (omega arith)
        (omega (arith, one.grown, one.same_max)) in
    let wrap : (addr + page_size) % 2 ^ 64 ≡ addr + page_size = omega arith in
    rw wrap (record {
      grown = omega (arith, rest.grown, one.grown);
      first = λ k h. first_at one rest k h;
      second = λ k h. second_at one rest k h;
      below = λ i h. rest.below i (omega (arith, one.grown)) ∙ one.below i h;
    })
