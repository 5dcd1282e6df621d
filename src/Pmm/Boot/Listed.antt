-- ===== src/Pmm/Boot/Listed.antt =====
-- The stack of pages as a list, and the pages that the loops of pmm_init push.
use shadow_os.Base.{
  sym, ◌++◌, ◌==◌, true, ℕ, zero, suc, ◌+◌, ◌*◌, ◌%◌, ◌^◌, ◌≤◌, ◌<◌, ◌≡◌, refl, false, List, [],
  ◌∷◌, if◌then◌else◌, arith, ap, ◌∙◌, Bool-cases, inl, inr,
}
use mathlib.Core.List.{append-nil, append_assoc}
use shadow_os.Pmm.{page_size, Entry, Pmm, is_usable, push}
use shadow_os.Pmm.Boot.{push_region, push_usable, rounds}

-- The memory map is that of a machine: no region is longer than the address space allows, or starts
-- behind it.
abbrev pub IsSmall : List Entry → Type 0
IsSmall [] = Unit
IsSmall (e ∷ es) = (e.len < 2 ^ 52) × (e.base < 2 ^ 64) × IsSmall es

-- the addresses of `k` pages of a region, from that with the number `j` on
unfoldable pub page_list : (k j base : ℕ) → List ℕ
page_list zero j base = []
page_list (suc k) j base = (base + j * page_size) % 2 ^ 64 ∷ page_list k (j + 1) base

-- those of all usable entries, in the order of the map
unfoldable pub usable_pages : List Entry → List ℕ
usable_pages [] = []
usable_pages (e ∷ es) =
    (if is_usable e.kind then page_list (rounds e.len) 0 e.base else []) ++ usable_pages es

-- the first `k` entries of the stack, the lowest first
unfoldable pub entries : ℕ → (ℕ → ℕ) → List ℕ
entries zero pages = []
entries (suc k) pages = entries k pages ++ pages k ∷ []

entries-above :
    (k i addr : ℕ) (pages : ℕ → ℕ)
    → k ≤ i
    → entries k (λ j. if j == i then addr else pages j) ≡ entries k pages
unfolding entries
entries-above zero i addr pages h = refl
entries-above (suc k) i addr pages h =
    let other : (k == i) ≡ false = ground arith in
    rw (other, entries-above k i addr pages (omega arith)) refl

abbrev pub stack_of : Pmm → List ℕ
stack_of s = entries s.idx s.pages

stack_of-push : (s : Pmm) (addr : ℕ) → stack_of (push s addr) ≡ stack_of s ++ addr ∷ []
unfolding push
stack_of-push s addr =
    let e : s.idx + 1 ≡ suc s.idx = omega arith in
    let here : (s.idx == s.idx) ≡ true = ground arith in
    rw e (unfold entries in rw (here, entries-above s.idx s.idx addr s.pages (omega arith)) refl)

stack_of-push_region :
    (k j base : ℕ) (s : Pmm)
    → stack_of (push_region k ((base + j * page_size) % 2 ^ 64) s)
      ≡ stack_of s ++ page_list k j base
unfolding push_region page_list
stack_of-push_region zero j base s = sym (append-nil (stack_of s))
stack_of-push_region (suc k) j base s =
    let addr = (base + j * page_size) % 2 ^ 64 in
    let next : (addr + page_size) % 2 ^ 64 ≡ (base + (j + 1) * page_size) % 2 ^ 64 = omega arith in
    ap (λ a. stack_of (push_region k a (push s addr))) next
    ∙ (stack_of-push_region k (j + 1) base (push s addr)
        ∙ ap (λ l. l ++ page_list k (j + 1) base) (stack_of-push s addr)
        ∙ append_assoc (stack_of s) (addr ∷ []) (page_list k (j + 1) base))

pub stack_of-push_usable :
    (es : List Entry) (s : Pmm)
    → IsSmall es
    → stack_of (push_usable es s) ≡ stack_of s ++ usable_pages es
unfolding push_usable usable_pages
stack_of-push_usable [] s h = sym (append-nil (stack_of s))
stack_of-push_usable (e ∷ es) s h = elim (Bool-cases (is_usable e.kind)) [
  | inl yes_ ↦
      let start : (e.base + 0 * page_size) % 2 ^ 64 ≡ e.base = omega (arith, h) in
      let first = ap (λ a. stack_of (push_region (rounds e.len) a s)) (sym start) in
      rw (yes_, push_usable)
        (stack_of-push_usable es (push_region (rounds e.len) e.base s) h.2
          ∙ ap (λ l. l ++ usable_pages es) (first ∙ stack_of-push_region (rounds e.len) 0 e.base s)
          ∙ append_assoc (stack_of s) (page_list (rounds e.len) 0 e.base) (usable_pages es))
  | inr no_ ↦ rw (no_, push_usable) (stack_of-push_usable es s h.2)
]
